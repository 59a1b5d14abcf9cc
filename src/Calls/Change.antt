-- ===== src/Calls/Change.antt =====
-- call.service.ts: the creation of a call and the four changes of its status, each of which is
-- one atomic update under a filter. `end_write` is what `endCall` does after its read.
use learn_nest_js.Shared.{
  ℕ, suc, ◌-◌, ◌/◌, String, Bool, true, false, ◌&&◌, ◌==◌, not, str_eq, Option, none, some, is_some,
  if◌then◌else◌,
}
use learn_nest_js.Shared.Errors.{Exception, bad_request, not_found, of_call, CallMessage}
use learn_nest_js.Shared.Action.{ok, or_raise, raise, raise_if, gets, pure, ◌>>=◌, ◌>>◌}
use learn_nest_js.Shared.Platform.{Platform}
use learn_nest_js.Schemas.{Call, CallType, CallStatus, CallEndReason}
use learn_nest_js.World.{Action, to_object_id}
use learn_nest_js.Users.{check_user}
use learn_nest_js.Relationships.Query.{check_is_blocked, check_is_friend}
use learn_nest_js.Conversations.Access.{get_or_throw, ensure_member}
use learn_nest_js.Calls.Query.{is_calling, is_active, is_party, find_call}
use learn_nest_js.Calls.Message.{Messages, create_call_message}

abbrev pub refuse : CallMessage → Exception
refuse message = bad_request (of_call message)

abbrev pub answered : ℕ → Call → Call
answered now c = record c { status = CallStatus.accepted; started_at = some now }

abbrev pub over : CallStatus → ℕ → ℕ → CallEndReason → Call → Call
over status now seconds reason c = record c {
  status = status;
  ended_at = some now;
  duration = seconds;
  end_reason = some reason;
}

-- `Math.max(0, Math.floor((endedAt - startedAt) / 1000))`
abbrev pub duration_of : Option ℕ → ℕ → ℕ
duration_of none now = 0
duration_of (some started) now = (now - started) / 1000

-- The filters of the updates.
abbrev pub rings_for : ℕ → ℕ → Call → Bool
rings_for i user c = c.id == i && is_calling c.status && c.callee_id == user

abbrev pub runs_for : ℕ → ℕ → Call → Bool
runs_for i user c = c.id == i && is_active c.status && is_party user c

abbrev pub rings : ℕ → Call → Bool
rings i c = c.id == i && is_calling c.status

abbrev pub new_call : ℕ → ℕ → ℕ → ℕ → CallType → ℕ → Call
new_call i caller callee conversation kind now = record {
  id = i;
  caller_id = caller;
  callee_id = callee;
  conversation_id = conversation;
  call_type = kind;
  status = CallStatus.calling;
  started_at = none;
  ended_at = none;
  duration = 0;
  end_reason = none;
  created_at = now;
}

module _ (m : Platform) where
  -- `callModel.create`
  unfoldable pub insert_call : ℕ → ℕ → ℕ → CallType → Action Call
  insert_call caller callee conversation kind w =
      let call = new_call (m.new_object_id w.created) caller callee conversation kind w.now in
      (ok call, record w { calls = m.insert call w.calls; created = suc w.created })

  -- The checks of `createCall`: the ids of the caller, the callee and the conversation.
  unfoldable pub check_call : String → String → String → Action (ℕ × ℕ × ℕ)
  check_call caller_id callee_id conversation_id = do
    raise_if (str_eq caller_id callee_id) (refuse CallMessage.user_not_allowed)
    i ← to_object_id m conversation_id "conversation id"
    caller ← check_user m caller_id true true true
    callee ← check_user m callee_id true true true
    blocked ← check_is_blocked m caller_id callee_id
    raise_if (is_some blocked) (refuse CallMessage.call_forbidden)
    is_friend ← check_is_friend m caller_id callee_id
    raise_if (not is_friend) (refuse CallMessage.call_forbidden)
    both ← get_or_throw m conversation_id
    raise_if both.0.is_group (refuse CallMessage.call_not_support_group)
    ensure_member m both.0 caller_id
    ensure_member m both.0 callee_id
    pure (caller.1, callee.1, i)

  -- `createCall`
  unfoldable pub create_call : String → String → String → CallType → Action Call
  create_call caller_id callee_id conversation_id kind = do
    ids ← check_call caller_id callee_id conversation_id
    let (caller, callee, i) = ids
    insert_call caller callee i kind

  -- `findOneAndUpdate` on calls.
  unfoldable pub update_call : (Call → Bool) → (ℕ → Call → Call) → Action (Option Call)
  update_call q f w =
      let (r, docs) = m.find_one_and_update q (f w.now) w.calls in (ok r, record w { calls = docs })

  -- Why no call was changed, in `acceptCall` and `rejectCall`.
  unfoldable pub explain : ℕ → String → Action Call
  explain i user_id = do
    found ← gets (find_call m i)
    existing ← or_raise found (not_found (of_call CallMessage.call_not_found))
    raise_if (not (str_eq (m.object_id_text existing.callee_id) user_id))
        (refuse CallMessage.call_forbidden)
    raise (refuse CallMessage.already_ended)

  -- What `acceptCall` does with the result of its update.
  abbrev pub accepted_or : ℕ → String → Option Call → Action Call
  accepted_or i user_id none = explain i user_id
  accepted_or i user_id (some call) = pure call

  -- `acceptCall`
  unfoldable pub accept_call : String → String → Action Call
  accept_call call_id user_id = do
    i ← to_object_id m call_id "call id"
    user ← to_object_id m user_id "current user id"
    changed ← update_call (rings_for i user) answered
    accepted_or i user_id changed

  module _ (messages : Messages) where
    abbrev pub tell : Call → Action Call
    tell call = create_call_message m messages call >> pure call

    -- What `rejectCall` and `endCall` do with the results of their updates.
    abbrev pub rejected_or : ℕ → String → Option Call → Action Call
    rejected_or i user_id none = explain i user_id
    rejected_or i user_id (some call) = tell call

    abbrev pub ended_or : Option Call → Action Call
    ended_or none = raise (refuse CallMessage.already_ended)
    ended_or (some call) = tell call

    -- `rejectCall`
    unfoldable pub reject_call : String → String → Action Call
    reject_call call_id user_id = do
      i ← to_object_id m call_id "call id"
      user ← to_object_id m user_id "current user id"
      changed ←
          update_call (rings_for i user)
            (λ now. over CallStatus.rejected now 0 CallEndReason.callee_reject)
      rejected_or i user_id changed

    -- The rest of `endCall`, for the call that it has read.
    unfoldable pub end_write : Call → ℕ → String → CallEndReason → Action Call
    end_write existing i user_id reason = do
      user ← to_object_id m user_id "current user id"
      changed ←
          update_call (runs_for i user)
            (λ now. over CallStatus.ended now (duration_of existing.started_at now) reason)
      ended_or changed

    abbrev pub is_ended : CallStatus → Bool
    is_ended CallStatus.ended = true
    is_ended _ = false

    -- `endCall`
    unfoldable pub end_call : String → String → CallEndReason → Action Call
    end_call call_id user_id reason = do
      i ← to_object_id m call_id "call id"
      found ← gets (find_call m i)
      existing ← or_raise found (not_found (of_call CallMessage.call_not_found))
      raise_if
          (not (str_eq (m.object_id_text existing.caller_id) user_id)
            && not (str_eq (m.object_id_text existing.callee_id) user_id))
          (refuse CallMessage.call_forbidden)
      if is_ended existing.status then tell existing else end_write existing i user_id reason

    abbrev pub tell_missed : Option Call → Action (Option Call)
    tell_missed none = pure none
    tell_missed (some call) = elim call.status [
      | CallStatus.missed ↦ do create_call_message m messages call; pure (some call)
      | _ ↦ pure (some call)
    ]

    -- What `markMissed` does with the result of its update.
    abbrev pub missed_or : ℕ → Option Call → Action (Option Call)
    missed_or i none = gets (find_call m i) >>= tell_missed
    missed_or i (some call) = create_call_message m messages call >> pure (some call)

    -- `markMissed`
    unfoldable pub mark_missed : String → Action (Option Call)
    mark_missed call_id = do
      i ← to_object_id m call_id "call id"
      changed ← update_call (rings i) (λ now. over CallStatus.missed now 0 CallEndReason.timeout)
      missed_or i changed
