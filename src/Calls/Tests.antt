-- ===== src/Calls/Tests.antt =====
-- Runs of the operations on calls on the list platform, and instances of the theorems.
use learn_nest_js.Shared.{ℕ, false, ◌≡◌, refl, arith, none, some, List, [], ◌∷◌, Memᴰ, map}
use learn_nest_js.Shared.Action.{ok, pure}
use learn_nest_js.Shared.ListPlatform.{list_platform}
use learn_nest_js.Schemas.{
  Call, CallType, CallStatus, CallEndReason, Conversation, Relationship, RelationshipStatus, User,
}
use learn_nest_js.Samples.{empty_world, sample_user}
use learn_nest_js.World.{World}
use learn_nest_js.Users.{check_user}
use learn_nest_js.Relationships.Query.{check_is_blocked, check_is_friend}
use learn_nest_js.Conversations.Access.{get_or_throw, ensure_member}
use learn_nest_js.Conversations.State.{update_by_id, update_last_message_and_restore}
use learn_nest_js.Calls.Message.{Messages, insert_message, write_message, create_call_message}
use learn_nest_js.Calls.Change.{
  create_call, check_call, insert_call, update_call, explain, accept_call, reject_call, end_write,
  end_call, mark_missed, new_call, answered,
}
use learn_nest_js.Calls.Machine.{Later}
use learn_nest_js.Calls.Running.{creates, accepts, rejects, ends, elapses, serve, run, run-Later}
use learn_nest_js.Calls.Telling.{told, create_call_message-once, end_write-stale}

opened : Unit {0}
unfolding run serve create_call check_call insert_call update_call explain accept_call reject_call
    end_write end_call mark_missed insert_message write_message create_call_message check_user
    check_is_blocked check_is_friend get_or_throw ensure_member update_by_id
    update_last_message_and_restore
opened = tt

abbrev person : ℕ → User
person id = sample_user id

abbrev friends : Relationship
friends = record {
  id = 4;
  requester = 0;
  recipient = 1;
  status = RelationshipStatus.accepted;
  blocked_by = none;
}

abbrev their_chat : Conversation
their_chat = record {
  id = 2;
  name = none;
  is_group = false;
  users = 0 ∷ 1 ∷ [];
  accepted_by = 0 ∷ 1 ∷ [];
  admin_group_id = none;
  last_message_id = none;
  pin_message_id = none;
  hidden_history = [];
  read_receipts = [];
}

abbrev start : List Call → World
start calls = record empty_world {
  users = person 0 ∷ person 1 ∷ [];
  relationships = friends ∷ [];
  conversations = their_chat ∷ [];
  calls = calls;
  now = 5000;
  created = 3;
}

abbrev silent : Messages
silent = record { announce = λ t. pure tt; announce_keeps = λ t w. (refl, refl, refl) }

-- "a" calls "aa", who answers, and hangs up after twelve seconds.
talk :
    map {B = CallStatus × ℕ}
      (λ (c : Call). (c.status, c.duration))
      (run list_platform silent
        (creates "a" "aa" "aaa" CallType.audio
          ∷ accepts "aaaa" "aa"
          ∷ elapses 17999
          ∷ ends "aaaa" "aa" CallEndReason.user_hangup
          ∷ rejects "aaaa" "aa"
          ∷ [])
        (start [])).calls
    ≡ (CallStatus.ended, 12) ∷ []
unfolding opened
talk = refl

abbrev ringing : Call
ringing = new_call 3 0 1 2 CallType.video 4000

run-Later_example :
    (d : Call) × Memᴰ d
      (run list_platform silent (rejects "aaaa" "aa" ∷ []) (start (ringing ∷ []))).calls
    × Later ringing d
run-Later_example =
    run-Later list_platform silent (rejects "aaaa" "aa" ∷ []) (start (ringing ∷ [])) ringing
      (Memᴰ.head refl)

abbrev after : World
after = (create_call_message list_platform silent ringing (start [])).1

create_call_message-once_example :
    ((create_call_message list_platform silent ringing (start [])).0 ≡ ok tt)
    × (told list_platform 3 after ≡ 1)
    × (create_call_message list_platform silent ringing after ≡ (ok tt, after))
create_call_message-once_example =
    create_call_message-once list_platform silent ringing (start []) (λ t v. refl) (omega arith)

abbrev answered_call : Call
answered_call = answered 4500 ringing

abbrev ended_late : Call
ended_late = record answered_call {
  status = CallStatus.ended;
  ended_at = some 5000;
  duration = 0;
  end_reason = some CallEndReason.user_hangup;
}

duration_lost :
    (d : Call) × Memᴰ d (start (answered_call ∷ [])).calls
    × (d.id ≡ 3)
    × (ended_late.started_at ≡ d.started_at)
    × (ended_late.duration ≡ 0)
    × (ended_late.status ≡ CallStatus.ended)
unfolding opened
duration_lost =
    end_write-stale list_platform silent ringing 3 "aa" CallEndReason.user_hangup
      (start (answered_call ∷ [])) {c = ended_late} refl refl
