-- ===== src/Calls/Telling.antt =====
-- What the change of a call leaves behind: its message, and its duration.
use learn_nest_js.Shared.{
  ℕ, ◌≤◌, ◌≡◌, refl, arith, String, Bool, true, false, ==_iff, none, List, [], ◌∷◌, inl, inr, ◌⊎◌,
  Option-cases, Bool-cases, Memᴰ, any, count,
}
use learn_nest_js.Shared.Errors.{Exception, driver_error}
use learn_nest_js.Shared.Action.{ok, err}
use learn_nest_js.Shared.Platform.{Platform}
use learn_nest_js.Shared.Documents.{update_hit}
use learn_nest_js.Shared.Counting.{count-insert}
use learn_nest_js.Schemas.{Call, CallStatus, CallEndReason}
use learn_nest_js.World.{World}
use learn_nest_js.Conversations.State.{update_by_id, update_last_message_and_restore}
use learn_nest_js.Calls.Message.{
  Messages, is_about, message_of, insert_message, write_message, create_call_message,
}
use learn_nest_js.Calls.Change.{update_call, end_write, runs_for, over, duration_of}

any-count : {A : Type 0} (p : A → Bool) (xs : List A) → any p xs ≡ true → count p xs ≡ 0 → ⊥
any-count p [] e z = absurd (ground arith)
any-count p (x ∷ xs) e z = elim (Bool-cases (p x)) [
  | inl h ↦ absurd (ground arith)
  | inr h ↦ any-count p xs (ground arith) (ground arith)
]

none_count : {A : Type 0} (p : A → Bool) (xs : List A) → any p xs ≡ false → count p xs ≡ 0
none_count p [] e = refl
none_count p (x ∷ xs) e = elim (Bool-cases (p x)) [
  | inl h ↦ absurd (ground arith)
  | inr h ↦ rw h (none_count p xs (ground arith))
]

module _ (m : Platform) where
  abbrev pub told : ℕ → World → ℕ
  told i w = count (is_about i) w.messages

  is_about_own : (c : Call) (i : ℕ) → is_about c.id (message_of m c i) ≡ true
  is_about_own c i = (==_iff c.id c.id).1 refl

  -- The message is inserted, or there is one.
  pub insert_message-told :
      (c : Call) (w : World)
      → (((insert_message m c w).0 ≡ err (driver_error 11000)) × (told c.id w ≡ 0 → ⊥))
        ⊎ ((i : ℕ) × ((insert_message m c w).0 ≡ ok i)
            × (told c.id w ≡ 0)
            × (told c.id (insert_message m c w).1 ≡ 1))
  unfolding insert_message
  insert_message-told c w = elim (Bool-cases (any (is_about c.id) w.messages)) [
    | inl e ↦ inl (rw e refl, any-count (is_about c.id) w.messages e)
    | inr e ↦
        let i = m.new_object_id w.created in
        let z = none_count (is_about c.id) w.messages e in
        inr (
          i,
          rw e refl,
          z,
          rw e (
              let more = count-insert m (is_about c.id) (message_of m c i) w.messages in
              let own = is_about_own c i in rw (more, own, z) refl),
        )
  ]

  -- The rest of the transaction goes through, and writes no message.
  pub write_message-rest :
      (c : Call) (w : World) (i : ℕ)
      → (insert_message m c w).0 ≡ ok i
      → ((write_message m c w).0 ≡ ok i)
        × ((write_message m c w).1.messages ≡ (insert_message m c w).1.messages)
  unfolding write_message update_last_message_and_restore update_by_id
  write_message-rest c w i e =
      let a = m.parse-text c.conversation_id in
      let b = m.parse-text i in
      let d = m.parse-text c.caller_id in (ground (arith, e, a, b, d), ground (arith, e, a, b, d))

  write_message-refused :
      (c : Call) (w : World) (x : Exception)
      → (insert_message m c w).0 ≡ err x
      → (write_message m c w).0 ≡ err x
  unfolding write_message
  write_message-refused c w x e = ground (arith, e)

  module _ (messages : Messages) where
    pub create_call_message-again :
        (c : Call) (w : World)
        → (told c.id w ≡ 0 → ⊥)
        → create_call_message m messages c w ≡ (ok tt, w)
    unfolding create_call_message
    create_call_message-again c w there = elim (insert_message-told c w) [
      | inl (e, _) ↦
          let refused = write_message-refused c w (driver_error 11000) e in ground (arith, refused)
      | inr (i, e, z, _) ↦ absurd (there z)
    ]

    pub create_call_message-first :
        (c : Call) (w : World)
        → ((t : String) (v : World) → (messages.announce t v).0 ≡ ok tt)
        → (i : ℕ) → (insert_message m c w).0 ≡ ok i
        → told c.id (insert_message m c w).1 ≡ 1
        → ((create_call_message m messages c w).0 ≡ ok tt)
          × (told c.id (create_call_message m messages c w).1 ≡ 1)
    unfolding create_call_message
    create_call_message-first c w heard i e one =
        let (went, same) = write_message-rest c w i e in
        let v = (write_message m c w).1 in
        let h = heard (m.object_id_text i) v in
        let (_, kept, _) = messages.announce_keeps (m.object_id_text i) v in
        let all : told c.id (messages.announce (m.object_id_text i) v).1 ≡ 1 =
          rw (kept, same) one in
        (ground (arith, went, h), ground (arith, went, h, all))

    -- Where the realtime layer takes messages, and there was at most one for a call, telling of the
    -- call succeeds and there is exactly one; and to tell of it again changes nothing.
    pub create_call_message-once :
        (c : Call) (w : World)
        → ((t : String) (v : World) → (messages.announce t v).0 ≡ ok tt)
        → told c.id w ≤ 1
        → ((create_call_message m messages c w).0 ≡ ok tt)
          × (told c.id (create_call_message m messages c w).1 ≡ 1)
          × (create_call_message m messages c (create_call_message m messages c w).1
              ≡ (ok tt, (create_call_message m messages c w).1))
    create_call_message-once c w heard most = elim (insert_message-told c w) [
      | inl (e, there) ↦
          let same = create_call_message-again c w there in
          rw (same, same) (refl, omega (arith, there), refl)
      | inr (i, e, z, one) ↦
          let after = create_call_message-first c w heard i e one in
          (
            after.0,
            after.1,
            create_call_message-again c (create_call_message m messages c w).1
                (λ none_left. omega (arith, after.1)),
          )
    ]

    -- Where `endCall` has read a call that was not answered yet, and its write succeeds: the call that
    -- it returns has ended with a duration of 0, and with the start date that is stored by then; so a
    -- call that is answered between the two loses its duration, however long it was.
    pub end_write-stale :
        (existing : Call) (i : ℕ) (user : String) (reason : CallEndReason) (w : World) {c : Call}
        → existing.started_at ≡ none
        → (end_write m messages existing i user reason w).0 ≡ ok c
        → (d : Call) × Memᴰ d w.calls
          × (d.id ≡ i)
          × (c.started_at ≡ d.started_at)
          × (c.duration ≡ 0)
          × (c.status ≡ CallStatus.ended)
    unfolding end_write update_call
    end_write-stale existing i user reason w {c} early e =
        elim (Option-cases (m.parse_object_id user)) [
          | inl bad ↦ absurd (ground (arith, bad, e))
          | inr (u, pu) ↦
              let f = over CallStatus.ended w.now (duration_of existing.started_at w.now) reason in
              elim (Option-cases (m.find_one_and_update (runs_for i u) f w.calls).0) [
                | inl missed ↦ absurd (ground (arith, pu, missed, e))
                | inr (call, hit) ↦
                    let (d, matched, made, old, _) = update_hit m (runs_for i u) f w.calls hit in
                    let it : c ≡ call = ground (arith, pu, hit, e) in
                    let mine : d.id ≡ i = ground arith in
                    (
                      d,
                      old,
                      mine,
                      rw (it, made) refl,
                      rw (it, made, early) refl,
                      rw (it, made) refl,
                    )
              ]
        ]
