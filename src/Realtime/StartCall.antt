-- ===== src/Realtime/StartCall.antt =====
-- `startCall` of modules/realtime/realtime-call.service.ts, from the user that the socket's session was
-- checked for, up to the creation of the call. What follows it inside the `try` tells of the call, by the socket,
-- its token, the push service and a timer, and is left out.
use Prim.Native.String.{compare}
use Prim.Native.Nat.{Ordering}
use learn_nest_js.Shared.{ℕ, String, ltb, is_some, ◌||◌, List, [], ◌∷◌, ◌++◌, if◌then◌else◌}
use learn_nest_js.Shared.Errors.{CallMessage}
use learn_nest_js.Shared.Action.{raise, raise_if, pure, ◌>>=◌, ◌>>◌}
use learn_nest_js.Shared.Platform.{Platform}
use learn_nest_js.Shared.Redis.{Redis, RedisKey}
use learn_nest_js.Schemas.{Call, CallType}
use learn_nest_js.World.{Action}
use learn_nest_js.RedisService.{get, del, incr_with_ttl, set_with_ttl, set_if_not_exists_with_ttl}
use learn_nest_js.Calls.Query.{find_active_by_user}
use learn_nest_js.Calls.Change.{refuse, create_call}

-- CALL_RATE_LIMIT_CONSTANT
abbrev pub start_limit_count : ℕ
start_limit_count = 5

abbrev pub start_limit_window_seconds : ℕ
start_limit_window_seconds = 60

abbrev pub start_lock_seconds : ℕ
start_lock_seconds = 60

-- `try { … } finally { … }`, where what stands in `finally` does not throw.
abbrev pub finally_do : {A : Type 0} → Action A → Action (Unit {0}) → Action A
finally_do m last w = let (r, v) = m w in (r, (last v).1)

abbrev pub lock_key : String → RedisKey
lock_key user_id = record { prefix = "call"; name = "start:lock"; rest = user_id }

abbrev pub rate_limit_key : String → RedisKey
rate_limit_key user_id = record { prefix = "call"; name = "rate-limit:start"; rest = user_id }

abbrev pub rate_limit_lock_key : String → RedisKey
rate_limit_lock_key user_id = record { prefix = "call"; name = "rate-limit:lock"; rest = user_id }

-- `[a, b].sort()`
abbrev pub sorted_pair : String → String → List String
sorted_pair a b = elim (compare a b) [ Ordering.gt ↦ b ∷ a ∷ [] | _ ↦ a ∷ b ∷ [] ]

abbrev pub map_keys : List String → List RedisKey
map_keys [] = []
map_keys (user ∷ users) = lock_key user ∷ map_keys users

-- `getStartCallLockKeys`
abbrev pub start_call_lock_keys : String → String → List RedisKey
start_call_lock_keys caller_id callee_id = map_keys (sorted_pair caller_id callee_id)

module _ (redis : Redis) where
  -- `Promise.all(keys.map((key) => this.redisService.del(key)))`
  unfoldable pub release : List RedisKey → Action (Unit {0})
  release [] = pure tt
  release (key ∷ keys) = del redis key >> release keys

  -- The loop of `lockStartCallUsers`, with the keys that are acquired.
  unfoldable pub lock_rest : List RedisKey → List RedisKey → Action (Unit {0})
  lock_rest acquired [] = pure tt
  lock_rest acquired (key ∷ keys) = set_if_not_exists_with_ttl redis key "locked" 5 >>= λ is_set.
      if is_set
      then lock_rest (acquired ++ key ∷ []) keys
      else (release acquired >> raise (refuse CallMessage.call_busy))

  -- `lockStartCallUsers`
  abbrev pub lock_start_call_users : List RedisKey → Action (Unit {0})
  lock_start_call_users keys = lock_rest [] keys

  -- The end of `ensureStartCallRateLimit`, for a count.
  unfoldable pub limit_count : RedisKey → ℕ → Action (Unit {0})
  limit_count key count =
      if ltb start_limit_count count
      then (set_with_ttl redis key "locked" start_lock_seconds
          >> raise (refuse CallMessage.call_rate_limited))
      else pure tt

  -- `ensureStartCallRateLimit`
  unfoldable pub ensure_start_call_rate_limit : String → Action (Unit {0})
  ensure_start_call_rate_limit user_id = do
    locked ← get redis (rate_limit_lock_key user_id)
    raise_if (is_some locked) (refuse CallMessage.call_rate_limited)
    count ← incr_with_ttl redis (rate_limit_key user_id) start_limit_window_seconds
    limit_count (rate_limit_lock_key user_id) count

module _ (m : Platform) where
  -- The `try` of `startCall`, up to the call.
  unfoldable pub start_locked : String → String → String → CallType → Action Call
  start_locked caller_id callee_id conversation_id kind = do
    caller_call ← find_active_by_user m caller_id
    callee_call ← find_active_by_user m callee_id
    raise_if (is_some caller_call || is_some callee_call) (refuse CallMessage.call_busy)
    create_call m caller_id callee_id conversation_id kind

  module _ (redis : Redis) where
    -- From the locks on.
    unfoldable pub start_with_locks : List RedisKey → Action Call → Action Call
    start_with_locks keys start =
        lock_start_call_users redis keys >> finally_do start (release redis keys)

    -- `startCall`
    unfoldable pub start_call : String → String → String → CallType → Action Call
    start_call caller_id callee_id conversation_id kind = do
      ensure_start_call_rate_limit redis caller_id
      start_with_locks (start_call_lock_keys caller_id callee_id)
          (start_locked caller_id callee_id conversation_id kind)
