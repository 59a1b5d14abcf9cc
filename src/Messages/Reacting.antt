-- ===== src/Messages/Reacting.antt =====
-- The reactions to a message are a map from users to kinds of reaction.
use learn_nest_js.Shared.{
  ℕ, ◌≡◌, ◌≤◌, ◌==◌, ==_iff, refl, sym, arith, ap, ◌∙◌, String, Bool, true, false, str_eq, Option,
  none, some, List, [], ◌∷◌, any, count, inl, inr, Memᴰ, Bool-cases, if◌then◌else◌,
}
use learn_nest_js.Shared.Action.{ok, past_check}
use learn_nest_js.Shared.Platform.{Platform}
use learn_nest_js.Shared.Documents.{Each, update-Each, update_of_mem, update_hit}
use learn_nest_js.Shared.Counting.{the_only}
use learn_nest_js.Schemas.{MessageDoc, Reaction, ReactionKind}
use learn_nest_js.World.{World}
use learn_nest_js.Messages.Checking.{
  check_reaction_keeps, check_reaction_lem, ensure_unblocked_keeps,
}
use learn_nest_js.Messages.Reaction.{
  is_by, reacted, unreacted, check_reaction, ensure_unblocked, update_message, write_reaction,
  update_or_insert_reaction, pull_reaction, remove_reaction,
}

-- The reaction of a user.
abbrev pub reaction_of : ℕ → List Reaction → Option ReactionKind
reaction_of user [] = none
reaction_of user (r ∷ rs) = if is_by user r then some r.kind else reaction_of user rs

set_other :
    (u : ℕ) (kind : ReactionKind) (rs : List Reaction) (j : ℕ)
    → (j == u) ≡ false
    → reaction_of j (reacted true u kind rs) ≡ reaction_of j rs
set_other u kind [] j h = refl
set_other u kind (r ∷ rs) j h = elim (Bool-cases (r.user == u)) [
  | inl e ↦
      let it : r.user ≡ u = (==_iff r.user u).0 e in
      let no : (r.user == j) ≡ false = ground (arith, it, h) in
      rw e (rw no (set_other u kind rs j h))
  | inr e ↦ rw e (ground (arith, set_other u kind rs j h))
]

set_same :
    (u : ℕ) (kind : ReactionKind) (rs : List Reaction)
    → any (is_by u) rs ≡ true
    → reaction_of u (reacted true u kind rs) ≡ some kind
set_same u kind [] h = ground (arith, h)
set_same u kind (r ∷ rs) h = elim (Bool-cases (r.user == u)) [
  | inl e ↦ rw e (rw e refl)
  | inr e ↦ rw e (rw e (set_same u kind rs (rw e at h)))
]

set_lem :
    (u : ℕ) (kind : ReactionKind) (rs : List Reaction) (j : ℕ)
    → any (is_by u) rs ≡ true
    → reaction_of j (reacted true u kind rs) ≡ (if j == u then some kind else reaction_of j rs)
set_lem u kind rs j h = elim (Bool-cases (j == u)) [
  | inl e ↦
      let it : j ≡ u = (==_iff j u).0 e in
      rw e (ap (λ k. reaction_of k (reacted true u kind rs)) it ∙ set_same u kind rs h)
  | inr e ↦ rw e (set_other u kind rs j e)
]

push_lem :
    (u : ℕ) (kind : ReactionKind) (rs : List Reaction) (j : ℕ)
    → any (is_by u) rs ≡ false
    → reaction_of j (reacted false u kind rs) ≡ (if j == u then some kind else reaction_of j rs)
push_lem u kind [] j h = ground arith
push_lem u kind (r ∷ rs) j h = ground (arith, push_lem u kind rs j)

pull_lem :
    (u : ℕ) (rs : List Reaction) (j : ℕ)
    → reaction_of j (unreacted u rs) ≡ (if j == u then none else reaction_of j rs)
pull_lem u [] j = ground arith
pull_lem u (r ∷ rs) j = ground (arith, pull_lem u rs j)

-- Of the messages `before`, among which `message` stands, the one with its id alone has become
-- another: it differs in its reactions only, and these are, as a map, what `change` makes of them.
abbrev pub Refines :
    (ℕ → Option ReactionKind → Option ReactionKind)
    → MessageDoc
    → List MessageDoc
    → List MessageDoc
    → Type 0
Refines change message before after =
    Memᴰ message before
    × ((e : MessageDoc) × Memᴰ e after
        × (e ≡ record message { reactions = e.reactions })
        × ((j : ℕ) → reaction_of j e.reactions ≡ change j (reaction_of j message.reactions)))
    × Each (λ d e. (d.id == message.id) ≡ false → e ≡ d) before after

-- The map with the reaction of a user set, and that with it taken out.
abbrev pub with_reaction : ℕ → ReactionKind → ℕ → Option ReactionKind → Option ReactionKind
with_reaction user kind j was = if j == user then some kind else was

abbrev pub without_reaction : ℕ → ℕ → Option ReactionKind → Option ReactionKind
without_reaction user j was = if j == user then none else was

reacted_lem :
    (u : ℕ) (kind : ReactionKind) (rs : List Reaction) (j : ℕ)
    → reaction_of j (reacted (any (is_by u) rs) u kind rs)
      ≡ with_reaction u kind j (reaction_of j rs)
reacted_lem u kind rs j = elim (Bool-cases (any (is_by u) rs)) [
  | inl e ↦ rw e (set_lem u kind rs j e)
  | inr e ↦ rw e (push_lem u kind rs j e)
]

module _ (m : Platform) where
  update_message-Refines :
      (message : MessageDoc) (f : List Reaction → List Reaction)
      (change : ℕ → Option ReactionKind → Option ReactionKind) (w : World)
      → ((i : ℕ) → count (λ d. d.id == i) w.messages ≤ 1)
      → Memᴰ message w.messages
      → ((j : ℕ) → reaction_of j (f message.reactions) ≡ change j (reaction_of j message.reactions))
      → Refines change message w.messages (update_message m message f w).1.messages
  unfolding update_message
  update_message-Refines message f change w unique here h =
      let p = λ (d : MessageDoc). d.id == message.id in
      let g = λ (d : MessageDoc). record d { reactions = f d.reactions } in
      let mine = (==_iff message.id message.id).1 refl in
      let (e, hit) = update_of_mem m p g w.messages message here mine in
      let (d, match, made, was, stored) = update_hit m p g w.messages hit in
      let it : message ≡ d = the_only p w.messages (unique message.id) here was mine match in
      let is : e ≡ g message = made ∙ ap g (sym it) in
      let others =
        update-Each m p g w.messages (λ d e. (d.id == message.id) ≡ false → e ≡ d) (λ d k. refl)
          (λ d k l. absurd (clash k l)) in
      rw hit (here, (g message, rw⁻¹ is stored, refl, h), others)
    where
      clash : {b : Bool} → b ≡ true → b ≡ false → ⊥
      clash k l = cc

  write_reaction-Refines :
      (user_id : String) (kind : ReactionKind) (user : ℕ) (message : MessageDoc) (w : World)
      {answer : MessageDoc}
      → ((i : ℕ) → count (λ d. d.id == i) w.messages ≤ 1)
      → Memᴰ message w.messages
      → (write_reaction m user_id kind (user, message) w).0 ≡ ok answer
      → Refines
          (with_reaction user kind)
          message
          w.messages
          (write_reaction m user_id kind (user, message) w).1.messages
  unfolding write_reaction
  write_reaction-Refines user_id kind user message w unique here done =
      let sender = m.object_id_text message.sender_id in
      let f = reacted (any (is_by user) message.reactions) user kind in
      let check = ensure_unblocked m (str_eq sender user_id) user_id sender in
      let (_, _, went) =
        past_check check (λ t. update_message m message f) w done
          (λ t e. ensure_unblocked_keeps m (str_eq sender user_id) user_id sender w) in
      rw went (
        update_message-Refines message f (with_reaction user kind) w unique here
          (reacted_lem user kind message.reactions))

  -- Where no two messages have one id, a reaction that is accepted is that of the user to the message
  -- that was asked for, which is not deleted: seen as a map from users to kinds, the reactions to
  -- it are as they were, with that of this user set, whether it was new or replaced; and nothing
  -- else of any message has changed.
  pub update_or_insert_reaction-Refines :
      (user_id message_id conversation_id : String) (kind : ReactionKind) (w : World)
      {answer : MessageDoc}
      → ((i : ℕ) → count (λ d. d.id == i) w.messages ≤ 1)
      → (update_or_insert_reaction m user_id message_id conversation_id kind w).0 ≡ ok answer
      → (user : ℕ) × (message : MessageDoc) × (m.parse_object_id user_id ≡ some user)
        × (m.parse_object_id message_id ≡ some message.id)
        × (message.is_deleted ≡ false)
        × Refines
            (with_reaction user kind)
            message
            w.messages
            (update_or_insert_reaction m user_id message_id conversation_id kind w).1.messages
  unfolding update_or_insert_reaction
  update_or_insert_reaction-Refines user_id message_id conversation_id kind w unique done =
      let check = check_reaction m user_id message_id conversation_id in
      let (r, e, went) =
        past_check check (write_reaction m user_id kind) w done
          (λ r e. check_reaction_keeps m user_id message_id conversation_id w) in
      let (here, mine, named, alive) =
        check_reaction_lem m user_id message_id conversation_id w e in
      (
        r.0,
        r.1,
        mine,
        named,
        alive,
        rw went (write_reaction-Refines user_id kind r.0 r.1 w unique here (rw went at done)),
      )

  -- Where no two messages have one id, a reaction that is taken back is that of the user to the
  -- message that was asked for, which is not deleted: seen as a map from users to kinds, the
  -- reactions to it are as they were, without any of this user; and nothing else of any message has
  -- changed.
  pub remove_reaction-Refines :
      (user_id message_id conversation_id : String) (w : World) {answer : MessageDoc}
      → ((i : ℕ) → count (λ d. d.id == i) w.messages ≤ 1)
      → (remove_reaction m user_id message_id conversation_id w).0 ≡ ok answer
      → (user : ℕ) × (message : MessageDoc) × (m.parse_object_id user_id ≡ some user)
        × (m.parse_object_id message_id ≡ some message.id)
        × (message.is_deleted ≡ false)
        × Refines
            (without_reaction user)
            message
            w.messages
            (remove_reaction m user_id message_id conversation_id w).1.messages
  unfolding remove_reaction
  remove_reaction-Refines user_id message_id conversation_id w unique done =
      let check = check_reaction m user_id message_id conversation_id in
      let (r, e, went) =
        past_check check (pull_reaction m) w done
          (λ r e. check_reaction_keeps m user_id message_id conversation_id w) in
      let (here, mine, named, alive) =
        check_reaction_lem m user_id message_id conversation_id w e in
      (
        r.0,
        r.1,
        mine,
        named,
        alive,
        rw went (
            update_message-Refines r.1 (unreacted r.0) (without_reaction r.0) w unique here
              (pull_lem r.0 r.1.reactions)),
      )
