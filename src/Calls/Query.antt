-- ===== src/Calls/Query.antt =====
-- call.service.ts: the look-ups. Those that only render a history are left out.
use learn_nest_js.Shared.{ℕ, String, Bool, true, false, ◌&&◌, ◌||◌, ◌==◌, Option, List, leb}
use learn_nest_js.Shared.Action.{gets, ◌>>=◌}
use learn_nest_js.Shared.Platform.{Platform}
use learn_nest_js.Schemas.{Call, CallStatus}
use learn_nest_js.World.{World, Action, to_object_id}

-- `status: CallStatusEnum.CALLING` and `status: CallStatusEnum.ACCEPTED`
abbrev pub is_calling : CallStatus → Bool
is_calling CallStatus.calling = true
is_calling _ = false

abbrev pub is_accepted : CallStatus → Bool
is_accepted CallStatus.accepted = true
is_accepted _ = false

-- `status: { $in: [CALLING, ACCEPTED] }`
abbrev pub is_active : CallStatus → Bool
is_active CallStatus.calling = true
is_active CallStatus.accepted = true
is_active _ = false

-- `$or: [{ callerId: user }, { calleeId: user }]`
abbrev pub is_party : ℕ → Call → Bool
is_party user c = c.caller_id == user || c.callee_id == user

module _ (m : Platform) where
  abbrev pub find_call : ℕ → World → Option Call
  find_call i w = m.find_one (λ c. c.id == i) w.calls

  -- `findById`
  unfoldable pub find_by_id : String → Action (Option Call)
  find_by_id call_id = do i ← to_object_id m call_id "callId"; gets (find_call i)

  -- `findActiveCallByUserId`
  unfoldable pub find_active_by_user : String → Action (Option Call)
  find_active_by_user user_id = do
    user ← to_object_id m user_id "userId"
    gets (λ w. m.find_one (λ c. is_active c.status && is_party user c) w.calls)

  -- `findStaleCallingCalls`
  unfoldable pub find_stale : ℕ → Action (List Call)
  find_stale before =
      gets (λ w. m.find (λ c. is_calling c.status && leb c.created_at before) w.calls)

  -- `findAcceptedCalls`
  unfoldable pub find_accepted : Action (List Call)
  find_accepted = gets (λ w. m.find (λ c. is_accepted c.status) w.calls)
