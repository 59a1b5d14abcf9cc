-- ===== src/Calls/Retelling.antt =====
-- What `createMissingCallMessages` of call.service.ts does to the messages about each call.
use learn_nest_js.Shared.{
  ℕ, zero, suc, ◌≡◌, refl, sym, ap, ◌∙◌, arith, ◌==◌, ==_iff, if◌then◌else◌, Bool-cases, inl, inr,
  String, count,
}
use learn_nest_js.Shared.Action.{ok}
use learn_nest_js.Shared.Platform.{Platform}
use learn_nest_js.Shared.Counting.{count-insert}
use learn_nest_js.Schemas.{Call}
use learn_nest_js.World.{World}
use learn_nest_js.Calls.Message.{
  Messages, is_about, message_of, insert_message, write_message, create_call_message,
}
use learn_nest_js.Calls.Telling.{
  told, insert_message-told, write_message-rest, create_call_message-again,
}

abbrev pub at_least_one : ℕ → ℕ
at_least_one zero = 1
at_least_one (suc n) = suc n

module _ (m : Platform) where
  insert_message_lem :
      (c : Call) (w : World) {i : ℕ}
      → (insert_message m c w).0 ≡ ok i
      → (insert_message m c w).1.messages
        ≡ m.insert (message_of m c (m.new_object_id w.created)) w.messages
  unfolding insert_message
  insert_message_lem c w h = ground (arith, h)

  pub at_least_one_same : (n : ℕ) → (n ≡ 0 → ⊥) → at_least_one n ≡ n
  at_least_one_same zero some_there = absurd (some_there refl)
  at_least_one_same (suc n) some_there = refl

  module _ (messages : Messages) where
    create_call_message_messages :
        (c : Call) (w : World) {i : ℕ}
        → ((t : String) (v : World) → (messages.announce t v).0 ≡ ok tt)
        → (insert_message m c w).0 ≡ ok i
        → ((create_call_message m messages c w).0 ≡ ok tt)
          × ((create_call_message m messages c w).1.messages ≡ (insert_message m c w).1.messages)
    unfolding create_call_message
    create_call_message_messages c w {i} heard e =
        let (went, same) = write_message-rest m c w i e in
        let v = (write_message m c w).1 in
        let h = heard (m.object_id_text i) v in
        let (_, kept, _) = messages.announce_keeps (m.object_id_text i) v in
        let all : (messages.announce (m.object_id_text i) v).1.messages
            ≡ (insert_message m c w).1.messages =
          kept ∙ same in
        (ground (arith, went, h), ground (arith, went, h, all))

    pub create_call_message_tells :
        (c : Call) (w : World)
        → ((t : String) (v : World) → (messages.announce t v).0 ≡ ok tt)
        → ((create_call_message m messages c w).0 ≡ ok tt)
          × ((j : ℕ)
              → told m j (create_call_message m messages c w).1
                ≡ (if c.id == j then at_least_one (told m j w) else told m j w))
    create_call_message_tells c w heard = elim (insert_message-told m c w) [
      | inl (e, there) ↦
          let same = create_call_message-again m messages c w there in
          rw same (
            refl,
            λ j. elim (Bool-cases (c.id == j)) [
              | inl h ↦
                  rw h (sym (at_least_one_same (told m j w) (rw ((==_iff c.id j).0 h) at there)))
              | inr h ↦ rw h refl
            ],
          )
      | inr (i, e, z, _) ↦
          let (went, written) = create_call_message_messages c w heard e in
          let added = insert_message_lem c w e in
          (
            went,
            λ j.
                let more =
                  ap (count (is_about j)) (written ∙ added)
                  ∙ count-insert m (is_about j) (message_of m c (m.new_object_id w.created))
                      w.messages in
                elim (Bool-cases (c.id == j)) [
                  | inl h ↦
                      let none_told : told m j w ≡ 0 = rw ((==_iff c.id j).0 h) at z in
                      ground (arith, h, more, none_told)
                  | inr h ↦ ground (arith, h, more)
                ],
          )
    ]
