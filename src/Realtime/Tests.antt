-- ===== src/Realtime/Tests.antt =====
-- Calls that are started on the list platform and on Redis over a list, and instances of the theorems.
use learn_nest_js.Shared.{◌≡◌, refl, arith, false, none, some, [], ◌∷◌, map}
use learn_nest_js.Shared.Errors.{CallMessage}
use learn_nest_js.Shared.Action.{err}
use learn_nest_js.Shared.ListPlatform.{list_platform}
use learn_nest_js.Shared.ListRedis.{list_redis}
use learn_nest_js.Shared.Redis.{RedisValue, entry, held}
use learn_nest_js.Schemas.{
  Call, CallType, CallStatus, Conversation, Relationship, RelationshipStatus,
}
use learn_nest_js.Samples.{empty_world, sample_user}
use learn_nest_js.World.{World}
use learn_nest_js.RedisService.{get, del, incr_with_ttl, set_with_ttl, set_if_not_exists_with_ttl}
use learn_nest_js.Users.{check_user}
use learn_nest_js.Relationships.Query.{check_is_blocked, check_is_friend}
use learn_nest_js.Conversations.Access.{get_or_throw, ensure_member}
use learn_nest_js.Calls.Query.{find_active_by_user}
use learn_nest_js.Calls.Change.{refuse, insert_call, check_call, create_call}
use learn_nest_js.Realtime.StartCall.{
  release, lock_rest, limit_count, ensure_start_call_rate_limit, start_locked, start_with_locks,
  start_call, lock_key,
}
use learn_nest_js.Realtime.OneCall.{IsSingle, start_call-IsSingle}
use learn_nest_js.Realtime.Locking.{lock_start_call_users-undone}

opened : Unit {0}
unfolding get del incr_with_ttl set_with_ttl set_if_not_exists_with_ttl check_user check_is_blocked
    check_is_friend get_or_throw ensure_member find_active_by_user insert_call check_call
    create_call release lock_rest limit_count ensure_start_call_rate_limit start_locked
    start_with_locks start_call
opened = tt

abbrev friends : Relationship
friends = record {
  id = 4;
  requester = 0;
  recipient = 1;
  status = RelationshipStatus.accepted;
  blocked_by = none;
}

abbrev their_chat : Conversation
their_chat = record {
  id = 2;
  name = none;
  is_group = false;
  users = 0 ∷ 1 ∷ [];
  accepted_by = 0 ∷ 1 ∷ [];
  admin_group_id = none;
  last_message_id = none;
  pin_message_id = none;
  hidden_history = [];
  read_receipts = [];
}

abbrev start : World
start = record empty_world {
  users = sample_user 0 ∷ sample_user 1 ∷ [];
  relationships = friends ∷ [];
  conversations = their_chat ∷ [];
  now = 5000;
  created = 3;
}

-- A first call rings; a second one between the same two is refused; and no lock is left.
abbrev ringing : World
ringing = (start_call list_platform list_redis "a" "aa" "aaa" CallType.audio start).1

one_rings :
    map {B = CallStatus}
      (λ (c : Call). c.status)
      (start_call list_platform list_redis "aa" "a" "aaa" CallType.audio ringing).1.calls
    ≡ CallStatus.calling ∷ []
unfolding opened
one_rings = refl

second_refused :
    (start_call list_platform list_redis "aa" "a" "aaa" CallType.audio ringing).0
    ≡ err (refuse CallMessage.call_busy)
unfolding opened
second_refused = refl

unlocked : held (lock_key "a") 5000 ringing.keys ≡ none
unfolding opened
unlocked = refl

start_call-IsSingle_example :
    IsSingle (start_call list_platform list_redis "a" "aa" "aaa" CallType.audio start).1.calls
start_call-IsSingle_example =
    start_call-IsSingle list_platform list_redis "a" "aa" "aaa" CallType.audio start
      (λ user. omega arith)

abbrev locked : World
locked = record start { keys = entry (lock_key "aa") (RedisValue.chars "locked") (some 9000) ∷ [] }

lock_start_call_users-undone_example :
    held
      (lock_key "a")
      6000
      (lock_rest list_redis [] (lock_key "a" ∷ lock_key "aa" ∷ []) locked).1.keys
    ≡ none
unfolding opened
lock_start_call_users-undone_example =
    lock_start_call_users-undone list_redis (lock_key "a" ∷ lock_key "aa" ∷ []) locked
      (lock_key "a") 6000 {e = refuse CallMessage.call_busy} refl (omega arith)
