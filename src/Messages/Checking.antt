-- ===== src/Messages/Checking.antt =====
-- What the methods on reactions check first.
use learn_nest_js.Shared.{
  ℕ, ◌≡◌, ◌==◌, refl, sym, arith, ap, ◌∙◌, String, Bool, true, false, some, is_some, inl, inr, Memᴰ,
  Option-cases, ◌&&◌,
}
use learn_nest_js.Shared.Errors.{MessageMessage}
use learn_nest_js.Shared.Action.{ok, pure, raise_if, past_check, ◌>>=◌, ◌>>◌}
use learn_nest_js.Shared.Platform.{Platform}
use learn_nest_js.Shared.Documents.{found}
use learn_nest_js.Schemas.{Conversation, MessageDoc}
use learn_nest_js.World.{World, Action}
use learn_nest_js.Relationships.Query.{check_is_blocked}
use learn_nest_js.Conversations.Access.{get_or_throw, ensure_member}
use learn_nest_js.Conversations.State.{check_message}
use learn_nest_js.Messages.Reaction.{refuse, check_reaction, ensure_unblocked}

module _ (m : Platform) where
  pub check_reaction_keeps :
      (user_id message_id conversation_id : String) (w : World)
      → (check_reaction m user_id message_id conversation_id w).1 ≡ w
  unfolding check_reaction get_or_throw ensure_member check_message
  check_reaction_keeps user_id message_id conversation_id w = ground arith

  check_message_lem :
      (message_id conversation_id : String) (w : World) {message : MessageDoc}
      → (check_message m message_id conversation_id w).0 ≡ ok message
      → ((check_message m message_id conversation_id w).1 ≡ w)
        × Memᴰ message w.messages
        × (m.parse_object_id message_id ≡ some message.id)
  unfolding check_message
  check_message_lem message_id conversation_id w {message} done =
      elim (Option-cases (m.parse_object_id message_id)) [
        | inl k ↦ absurd (ground (arith, k, done))
        | inr (i, k) ↦ elim (Option-cases (m.parse_object_id conversation_id)) [
          | inl e ↦ absurd (ground (arith, k, e, done))
          | inr (c, e) ↦
              let q = λ (d : MessageDoc). d.id == i && d.conversation_id == c in
              elim (Option-cases (m.find_one q w.messages)) [
                | inl d ↦ absurd (ground (arith, e, k, d, done))
                | inr (x, d) ↦
                    let (match, here) = found m q w.messages d in
                    let same : x ≡ message = ground (arith, e, k, d, done) in
                    let it : x.id ≡ i = ground (arith, match) in
                    (
                      rw (k, e) (rw d refl),
                      rw same at here,
                      k ∙ ap some (sym it ∙ ap (λ y. y.id) same),
                    )
              ]
        ]
      ]

  get_or_throw_keeps : (id : String) (w : World) → (get_or_throw m id w).1 ≡ w
  unfolding get_or_throw
  get_or_throw_keeps id w = ground arith

  ensure_member_lem :
      (c : Conversation) (id : String) (w : World) {user : ℕ}
      → (ensure_member m c id w).0 ≡ ok user
      → ((ensure_member m c id w).1 ≡ w) × (m.parse_object_id id ≡ some user)
  unfolding ensure_member
  ensure_member_lem c id w done = elim (Option-cases (m.parse_object_id id)) [
    | inl e ↦ absurd (ground (arith, e, done))
    | inr (i, e) ↦ (ground arith, ground (arith, e, done))
  ]

  abbrev refuse_closed : ℕ → MessageDoc → Action (ℕ × MessageDoc)
  refuse_closed user message = do
    raise_if message.is_deleted (refuse MessageMessage.already_deleted)
    raise_if (is_some message.call_id) (refuse MessageMessage.call_message_action_not_allowed)
    pure (user, message)

  refuse_closed_lem :
      (user : ℕ) (message : MessageDoc) (w : World) {r : ℕ × MessageDoc}
      → (refuse_closed user message w).0 ≡ ok r
      → (r ≡ (user, message)) × (message.is_deleted ≡ false)
  refuse_closed_lem user message w done = (ground (arith, done), ground (arith, done))

  pub check_reaction_lem :
      (user_id message_id conversation_id : String) (w : World) {r : ℕ × MessageDoc}
      → (check_reaction m user_id message_id conversation_id w).0 ≡ ok r
      → Memᴰ r.1 w.messages
        × (m.parse_object_id user_id ≡ some r.0)
        × (m.parse_object_id message_id ≡ some r.1.id)
        × (r.1.is_deleted ≡ false)
  unfolding check_reaction
  check_reaction_lem user_id message_id conversation_id w {r} done =
      let check = check_message m message_id conversation_id in
      let then_check = λ (user : ℕ). check >>= refuse_closed user in
      let (c, _, one) =
        past_check (get_or_throw m conversation_id)
          (λ x. ensure_member m x.0 user_id >>= then_check) w done
          (λ a e. get_or_throw_keeps conversation_id w) in
      let (user, a, two) =
        past_check (ensure_member m c.0 user_id) then_check w (rw one at done)
          (λ u e. (ensure_member_lem c.0 user_id w e).0) in
      let (message, b, three) =
        past_check check (refuse_closed user) w (rw (one, two) at done)
          (λ d e. (check_message_lem message_id conversation_id w e).0) in
      let all = one ∙ two ∙ three in
      let (same, alive) = refuse_closed_lem user message w (rw all at done) in
      let (_, here, named) = check_message_lem message_id conversation_id w b in
      rw same (here, (ensure_member_lem c.0 user_id w a).1, named, alive)

  pub ensure_unblocked_keeps :
      (b : Bool) (user_id sender_id : String) (w : World)
      → (ensure_unblocked m b user_id sender_id w).1 ≡ w
  unfolding check_is_blocked
  ensure_unblocked_keeps true user_id sender_id w = refl
  ensure_unblocked_keeps false user_id sender_id w = ground arith
