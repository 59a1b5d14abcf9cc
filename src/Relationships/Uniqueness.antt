-- ===== src/Relationships/Uniqueness.antt =====
-- At most one relationship stands between two users, whichever of them asked.
use learn_nest_js.Shared.{
  ℕ, ◌≤◌, String, Bool, true, false, ◌≡◌, refl, arith, none, some, inl, inr, count, List, [], ◌∷◌,
  Option-cases, ◌==◌, Option, ◌||◌, ◌&&◌,
}
use learn_nest_js.Shared.Action.{ok}
use learn_nest_js.Shared.Platform.{Platform}
use learn_nest_js.Shared.Counting.{
  count-insert, count-update_same, count-delete-le, count_of_missed,
}
use learn_nest_js.Schemas.{User, Relationship, RelationshipStatus}
use learn_nest_js.World.{World}
use learn_nest_js.Relationships.Access.{is_between}
use learn_nest_js.Relationships.Reading.{check_active_reads}
use learn_nest_js.Relationships.Request.{
  Chat, reject_or_remove, unfriend, delete_one, accept, announce, create, create_new,
  create_relationship, get_pending_or_null, update_relationship,
}
use learn_nest_js.Relationships.Block.{block_user, block_either, block_found, unblock_user}

abbrev pub AtMostOne : List Relationship → Type 0
AtMostOne docs = (a b : ℕ) → count (is_between a b) docs ≤ 1

module _ (m : Platform) where
  delete_one-AtMostOne :
      (id user target : ℕ) (q : Relationship → Bool) (w : World)
      → AtMostOne w.relationships
      → AtMostOne (delete_one m id user target q w).1.relationships
  unfolding delete_one
  delete_one-AtMostOne id user target q w h a b =
      let less =
        count-delete-le m (is_between a b) (λ r. r.id == id && q r && is_between user target r)
          w.relationships in
      ground (arith, less, h a b)

  -- Declining a request or withdrawing it.
  pub reject_or_remove-AtMostOne :
      (id user target : String) (w : World)
      → AtMostOne w.relationships
      → AtMostOne (reject_or_remove m id user target w).1.relationships
  unfolding reject_or_remove
  reject_or_remove-AtMostOne id user target w h a b =
      grind (arith, h a b, check_active_reads m user target false w, delete_one-AtMostOne)

  -- Ending a friendship.
  pub unfriend-AtMostOne :
      (id user target : String) (w : World)
      → AtMostOne w.relationships
      → AtMostOne (unfriend m id user target w).1.relationships
  unfolding unfriend
  unfriend-AtMostOne id user target w h a b =
      grind (arith, h a b, check_active_reads m user target false w, delete_one-AtMostOne)

  -- Lifting a block.
  pub unblock_user-AtMostOne :
      (user blocked : String) (w : World)
      → AtMostOne w.relationships
      → AtMostOne (unblock_user m user blocked w).1.relationships
  unfolding unblock_user
  unblock_user-AtMostOne user blocked w h a b =
      grind (
        arith,
        h a b,
        check_active_reads m user blocked false w,
        count-delete-le m (is_between a b),
      )

  -- A change of the status or the blocker keeps both sides of a relationship.
  update-AtMostOne :
      (q : Relationship → Bool) (status : RelationshipStatus) (by : Relationship → Option ℕ)
      (w : World)
      → AtMostOne w.relationships
      → AtMostOne
          (update_relationship m q
            (λ r. record r { status = status; blocked_by = by r })
            w).1.relationships
  unfolding update_relationship
  update-AtMostOne q status by w h a b =
      rw
        (count-update_same m (is_between a b) q
          (λ r. record r { status = status; blocked_by = by r }) w.relationships (λ d e. refl))
        (h a b)

  -- Two pairs of ids that one relationship is between are the same pair.
  same_pair :
      (a b c d : ℕ) (docs : List Relationship)
      → ((c == a && d == b) || (d == a && c == b)) ≡ true
      → count (is_between c d) docs ≡ count (is_between a b) docs
  same_pair a b c d [] e = refl
  same_pair a b c d (r ∷ docs) e = ground (arith, same_pair a b c d docs e)

  pub get_pending_none :
      (a b : ℕ) (w : World)
      → (get_pending_or_null m a b w).0 ≡ ok none
      → count (is_between a b) w.relationships ≡ 0
  unfolding get_pending_or_null
  get_pending_none a b w e = elim (Option-cases (m.find_one (is_between a b) w.relationships)) [
    | inl missed ↦ count_of_missed m (is_between a b) w.relationships missed
    | inr (r, hit) ↦ absurd (ground arith)
  ]

  pub get_pending_reads : (a b : ℕ) (w : World) → (get_pending_or_null m a b w).1 ≡ w
  unfolding get_pending_or_null
  get_pending_reads a b w = ground arith

  create_new-AtMostOne :
      (x y : User) (status : RelationshipStatus) (w : World)
      → AtMostOne w.relationships
      → count (is_between x.id y.id) w.relationships ≡ 0
      → AtMostOne (create_new m x y status w).1.relationships
  unfolding create_new create_relationship
  create_new-AtMostOne x y status w h zero_between a b =
      grind (arith, h a b, count-insert m (is_between a b), same_pair a b x.id y.id w.relationships)

  module _ (chat : Chat) where
    pub announce_keeps :
        (user target : String) (current : User) (w : World)
        → (announce m chat user target current w).1.relationships ≡ w.relationships
    unfolding announce
    announce_keeps user target current w = grind (
      arith, chat.create_direct_keeps, chat.accept_conversation_keeps,
      chat.create_system_message_keeps,
    )

    pub accept-AtMostOne :
        (id user target : String) (w : World)
        → AtMostOne w.relationships
        → AtMostOne (accept m chat id user target w).1.relationships
    unfolding accept update_relationship
    accept-AtMostOne id user target w h a b = grind (
      arith,
      h a b,
      check_active_reads m target user true w,
      announce_keeps,
      λ (q : Relationship → Bool).
          count-update_same m (is_between a b) q
            (λ r. record r { status = RelationshipStatus.accepted }) w.relationships (λ d e. refl),
    )

    -- A request finds the relationship between the two, or is the first between them.
    pub create-AtMostOne :
        (recipient user : String) (status : RelationshipStatus) (w : World)
        → AtMostOne w.relationships
        → AtMostOne (create m chat recipient user status w).1.relationships
    unfolding create
    create-AtMostOne recipient user status w h a b = grind (
      arith,
      h a b,
      check_active_reads m user recipient true w,
      get_pending_none,
      get_pending_reads,
      create_new-AtMostOne,
      accept-AtMostOne,
    )

    block_found-AtMostOne :
        (user_id : String) (user : ℕ) (r : Relationship) (w : World)
        → AtMostOne w.relationships
        → AtMostOne (block_found m user_id user r w).1.relationships
    unfolding block_found
    block_found-AtMostOne user_id user r w h a b = ground (
      arith,
      h a b,
      update-AtMostOne (λ d. d.id == r.id) RelationshipStatus.blocked (λ _. some user) w h a b,
    )

    block_either-AtMostOne :
        (user_id block_id : String) (user : ℕ) (found : Option Relationship) (w : World)
        → AtMostOne w.relationships
        → AtMostOne (block_either m chat user_id block_id user found w).1.relationships
    unfolding block_either
    block_either-AtMostOne user_id block_id user none w h =
        create-AtMostOne block_id user_id RelationshipStatus.blocked w h
    block_either-AtMostOne user_id block_id user (some r) w h =
        block_found-AtMostOne user_id user r w h

    -- A block changes the relationship between the two, or is the first between them.
    pub block_user-AtMostOne :
        (user blocked : String) (w : World)
        → AtMostOne w.relationships
        → AtMostOne (block_user m chat user blocked w).1.relationships
    unfolding block_user
    block_user-AtMostOne user blocked w h a b =
        grind (arith, h a b, check_active_reads m user blocked false w, block_either-AtMostOne)
