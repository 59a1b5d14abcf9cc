-- ===== src/Calls/Following.antt =====
-- Every operation on calls follows the machine of a call.
use learn_nest_js.Shared.{
  ℕ, ◌≡◌, refl, arith, String, Bool, true, Option, none, some, inl, inr, Option-cases, Bool-cases,
  ◌==◌, ap, any,
}
use learn_nest_js.Shared.Action.{◌>>=◌}
use learn_nest_js.Shared.Platform.{Platform}
use learn_nest_js.Shared.Documents.{Each, Each-refl, update-Each}
use learn_nest_js.Schemas.{Call, CallStatus, CallEndReason}
use learn_nest_js.World.{World, Action}
use learn_nest_js.Conversations.State.{update_by_id, update_last_message_and_restore}
use learn_nest_js.Calls.Query.{is_active, is_calling}
use learn_nest_js.Calls.Message.{
  Messages, is_about, insert_message, write_message, create_call_message,
}
use learn_nest_js.Calls.Change.{
  update_call, explain, accept_call, reject_call, tell, accepted_or, rejected_or, ended_or,
  tell_missed, missed_or, duration_of, end_write, end_call, mark_missed, rings_for, runs_for, rings,
  answered, over,
}
use learn_nest_js.Calls.Machine.{
  declines, times_out, Later, Later-refl, from_calling, from_active, calling_is_active,
  answered-Later, over-Later,
}

module _ (m : Platform) where
  update_call-Later :
      (q : Call → Bool) (f : ℕ → Call → Call) (w : World)
      → ((now : ℕ) (c : Call) → q c ≡ true → Later c (f now c))
      → Each Later w.calls (update_call m q f w).1.calls
  unfolding update_call
  update_call-Later q f w h =
      update-Each m q (f w.now) w.calls Later Later-refl (λ c e. h w.now c e)

  answering-Later :
      (i user : ℕ) (w : World)
      → Each Later w.calls (update_call m (rings_for i user) answered w).1.calls
  answering-Later i user w =
      update_call-Later (rings_for i user) answered w
        (λ now c e. answered-Later c now (ground arith))

  declining-Later :
      (i user : ℕ) (reason : CallEndReason) (w : World)
      → Each Later w.calls
          (update_call m
            (rings_for i user)
            (λ now. over CallStatus.rejected now 0 reason)
            w).1.calls
  declining-Later i user reason w =
      update_call-Later (rings_for i user) (λ now. over CallStatus.rejected now 0 reason) w
        (λ now c e.
          let ringing : is_calling c.status ≡ true = ground arith in
          over-Later c CallStatus.rejected now 0 reason (calling_is_active c.status ringing)
            (from_calling c.status CallStatus.rejected ringing declines))

  missing-Later :
      (i : ℕ) (reason : CallEndReason) (w : World)
      → Each Later w.calls
          (update_call m (rings i) (λ now. over CallStatus.missed now 0 reason) w).1.calls
  missing-Later i reason w =
      update_call-Later (rings i) (λ now. over CallStatus.missed now 0 reason) w
        (λ now c e.
          let ringing : is_calling c.status ≡ true = ground arith in
          over-Later c CallStatus.missed now 0 reason (calling_is_active c.status ringing)
            (from_calling c.status CallStatus.missed ringing times_out))

  ending-Later :
      (i user : ℕ) (seconds : ℕ → ℕ) (reason : CallEndReason) (w : World)
      → Each Later w.calls
          (update_call m
            (runs_for i user)
            (λ now. over CallStatus.ended now (seconds now) reason)
            w).1.calls
  ending-Later i user seconds reason w =
      update_call-Later (runs_for i user) (λ now. over CallStatus.ended now (seconds now) reason) w
        (λ now c e.
          let active : is_active c.status ≡ true = ground arith in
          over-Later c CallStatus.ended now (seconds now) reason active
            (from_active c.status active))

  explain_keeps : (i : ℕ) (user : String) (w : World) → (explain m i user w).1 ≡ w
  unfolding explain
  explain_keeps i user w = ground arith

  insert_message_keeps : (c : Call) (w : World) → (insert_message m c w).1.calls ≡ w.calls
  unfolding insert_message
  insert_message_keeps c w = elim (Bool-cases (any (is_about c.id) w.messages)) [
    | inl e ↦ rw e refl
    | inr e ↦ rw e refl
  ]

  write_message_keeps : (c : Call) (w : World) → (write_message m c w).1.calls ≡ w.calls
  unfolding write_message update_last_message_and_restore update_by_id
  write_message_keeps c w = let kept = insert_message_keeps c w in ground (arith, kept)

  -- What follows an update and writes no call.
  then-Later :
      {A : Type 0} (q : Call → Bool) (f : ℕ → Call → Call) (k : Option Call → Action A) (w : World)
      → Each Later w.calls (update_call m q f w).1.calls
      → ((r : Option Call) (v : World) → (k r v).1.calls ≡ v.calls)
      → Each Later w.calls ((update_call m q f >>= k) w).1.calls
  unfolding update_call
  then-Later q f k w h keeps =
      rw (keeps (m.find_one_and_update q (f w.now) w.calls).0 (update_call m q f w).1) h

  module _ (messages : Messages) where
    pub create_call_message_keeps :
        (c : Call) (w : World) → (create_call_message m messages c w).1.calls ≡ w.calls
    unfolding create_call_message
    create_call_message_keeps c w =
        let kept = write_message_keeps c w in grind (arith, kept, messages.announce_keeps)

    tell_keeps : (c : Call) (w : World) → (tell m messages c w).1.calls ≡ w.calls
    tell_keeps c w = let kept = create_call_message_keeps c w in ground (arith, kept)

    accepted_or-keeps :
        (i : ℕ) (user : String) (r : Option Call) (v : World)
        → (accepted_or m i user r v).1.calls ≡ v.calls
    accepted_or-keeps i user none v = ap (λ w. w.calls) (explain_keeps i user v)
    accepted_or-keeps i user (some c) v = refl

    rejected_or-keeps :
        (i : ℕ) (user : String) (r : Option Call) (v : World)
        → (rejected_or m messages i user r v).1.calls ≡ v.calls
    rejected_or-keeps i user none v = ap (λ w. w.calls) (explain_keeps i user v)
    rejected_or-keeps i user (some c) v = tell_keeps c v

    ended_or-keeps : (r : Option Call) (v : World) → (ended_or m messages r v).1.calls ≡ v.calls
    ended_or-keeps none v = refl
    ended_or-keeps (some c) v = tell_keeps c v

    tell_missed-keeps :
        (r : Option Call) (v : World) → (tell_missed m messages r v).1.calls ≡ v.calls
    tell_missed-keeps none v = refl
    tell_missed-keeps (some c) v = let kept = create_call_message_keeps c v in ground (arith, kept)

    missed_or-keeps :
        (i : ℕ) (r : Option Call) (v : World) → (missed_or m messages i r v).1.calls ≡ v.calls
    missed_or-keeps i none v = tell_missed-keeps (m.find_one (λ c. c.id == i) v.calls) v
    missed_or-keeps i (some c) v = let kept = create_call_message_keeps c v in ground (arith, kept)

    pub accept_call-Later :
        (call user : String) (w : World) → Each Later w.calls (accept_call m call user w).1.calls
    unfolding accept_call
    accept_call-Later call user w =
        let same = Each-refl Later Later-refl w.calls in
        elim (Option-cases (m.parse_object_id call)) [
          | inl bad ↦ ground (arith, same, bad)
          | inr (i, pi) ↦ elim (Option-cases (m.parse_object_id user)) [
            | inl bad ↦ ground (arith, same, pi, bad)
            | inr (u, pu) ↦
                rw (pi, accept_call)
                  (rw (pu, accept_call)
                    (then-Later (rings_for i u) answered (accepted_or m i user) w
                      (answering-Later i u w) (accepted_or-keeps i user)))
          ]
        ]

    pub reject_call-Later :
        (call user : String) (w : World)
        → Each Later w.calls (reject_call m messages call user w).1.calls
    unfolding reject_call
    reject_call-Later call user w =
        let same = Each-refl Later Later-refl w.calls in
        elim (Option-cases (m.parse_object_id call)) [
          | inl bad ↦ ground (arith, same, bad)
          | inr (i, pi) ↦ elim (Option-cases (m.parse_object_id user)) [
            | inl bad ↦ ground (arith, same, pi, bad)
            | inr (u, pu) ↦
                rw (pi, reject_call)
                  (rw (pu, reject_call)
                    (then-Later (rings_for i u)
                      (λ now. over CallStatus.rejected now 0 CallEndReason.callee_reject)
                      (rejected_or m messages i user) w
                      (declining-Later i u CallEndReason.callee_reject w)
                      (rejected_or-keeps i user)))
          ]
        ]

    pub end_write-Later :
        (existing : Call) (i : ℕ) (user : String) (reason : CallEndReason) (w : World)
        → Each Later w.calls (end_write m messages existing i user reason w).1.calls
    unfolding end_write
    end_write-Later existing i user reason w = elim (Option-cases (m.parse_object_id user)) [
      | inl bad ↦ let same = Each-refl Later Later-refl w.calls in ground (arith, same, bad)
      | inr (u, pu) ↦
          rw (pu, end_write)
            (then-Later (runs_for i u)
              (λ now. over CallStatus.ended now (duration_of existing.started_at now) reason)
              (ended_or m messages) w
              (ending-Later i u (λ now. duration_of existing.started_at now) reason w)
              ended_or-keeps)
    ]

    pub end_call-Later :
        (call user : String) (reason : CallEndReason) (w : World)
        → Each Later w.calls (end_call m messages call user reason w).1.calls
    unfolding end_call
    end_call-Later call user reason w =
        grind (arith, Each-refl Later Later-refl w.calls, tell_keeps, end_write-Later)

    pub mark_missed-Later :
        (call : String) (w : World) → Each Later w.calls (mark_missed m messages call w).1.calls
    unfolding mark_missed
    mark_missed-Later call w = elim (Option-cases (m.parse_object_id call)) [
      | inl bad ↦ let same = Each-refl Later Later-refl w.calls in ground (arith, same, bad)
      | inr (i, pi) ↦
          rw (pi, mark_missed)
            (then-Later (rings i) (λ now. over CallStatus.missed now 0 CallEndReason.timeout)
              (missed_or m messages i) w (missing-Later i CallEndReason.timeout w)
              (missed_or-keeps i))
    ]
