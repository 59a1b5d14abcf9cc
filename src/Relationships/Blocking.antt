-- ===== src/Relationships/Blocking.antt =====
-- What a block does: it stands against requests from either side, and only its author lifts it.
use learn_nest_js.Shared.{
  ℕ, String, Bool, true, false, ◌≡◌, ◌≢◌, arith, some, inl, inr, Option-cases, ◌==◌, ==_iff, ◌&&◌,
  Memᴰ,
}
use learn_nest_js.Shared.Errors.{RelationshipMessage}
use learn_nest_js.Shared.Action.{ok, err, Result-cases}
use learn_nest_js.Shared.Platform.{Platform}
use learn_nest_js.Shared.Documents.{
  found, found_of_mem, delete_hit, delete_missed, Removes, delete-Removes,
}
use learn_nest_js.Schemas.{User, Relationship, RelationshipStatus}
use learn_nest_js.World.{World}
use learn_nest_js.Users
use learn_nest_js.Relationships.Access.{refuse, is_between, check_active}
use learn_nest_js.Relationships.Reading.{check_active_reads, find_one_reads, check_target_reads}
use learn_nest_js.Relationships.Query.{is_blocked}
use learn_nest_js.Relationships.Request.{Chat, create, get_pending_or_null}
use learn_nest_js.Relationships.Block.{unblock_user, is_blocker}

module _ (m : Platform) where
  find_one_id :
      (id : String) (w : World) {u : User}
      → (Users.find_one m id w).0 ≡ ok (some u)
      → m.parse_object_id id ≡ some u.id
  unfolding Users.find_one
  find_one_id id w {u} e = elim (Option-cases (m.parse_object_id id)) [
    | inl bad ↦ absurd (ground arith)
    | inr (i, parsed) ↦
        let hit : m.find_one (λ x. x.id == i) w.users ≡ some u = ground arith in
        let same = (==_iff u.id i).0 (found m (λ x. x.id == i) w.users hit).0 in rw (parsed, same)
  ]

  -- The users that the check returns are those that the two texts name.
  pub check_active_ids :
      (a b : String) (c : Bool) (w : World) {x y : User}
      → (check_active m a b c w).0 ≡ ok (x, y)
      → (m.parse_object_id a ≡ some x.id) × (m.parse_object_id b ≡ some y.id)
  unfolding check_active
  check_active_ids a b c w {x} {y} e = grind (
    arith,
    find_one_reads m a w,
    find_one_reads m b w,
    check_target_reads,
    find_one_id a w,
    find_one_id b w,
  )

  get_pending_blocked :
      (a b : ℕ) (r : Relationship) (w : World)
      → Memᴰ r w.relationships
      → is_between a b r ≡ true
      → ((d : Relationship)
          → Memᴰ d w.relationships
          → is_between a b d ≡ true
          → is_blocked d ≡ true)
      → get_pending_or_null m a b w
        ≡ (err (refuse RelationshipMessage.relationship_already_blocked), w)
  unfolding get_pending_or_null
  get_pending_blocked a b r w mem between only =
      let (d, hit, here) = found_of_mem m (is_between a b) w.relationships r mem between in
      let status : is_blocked d ≡ true =
        only d (found m (is_between a b) w.relationships hit).1 here in
      ground arith

  -- While a block stands between two users, and every relationship between them is a block, no request
  -- from either of them is taken, whatever their accounts, and nothing is written.
  pub blocked_refuses_requests :
      (chat : Chat) (user recipient : String) (i j : ℕ) (r : Relationship)
      (status : RelationshipStatus) (w : World)
      → m.parse_object_id user ≡ some i
      → m.parse_object_id recipient ≡ some j
      → Memᴰ r w.relationships
      → is_between i j r ≡ true
      → ((d : Relationship)
          → Memᴰ d w.relationships
          → is_between i j d ≡ true
          → is_blocked d ≡ true)
      → ((create m chat recipient user status w).1 ≡ w)
        × ((a : Relationship) → (create m chat recipient user status w).0 ≢ ok a)
  unfolding create
  blocked_refuses_requests chat user recipient i j r status w pi pj mem between only =
      elim (Result-cases (check_active m user recipient true w).0) [
        | inl (x, refused) ↦
            (grind (arith, check_active_reads m user recipient true w), λ a. grind arith)
        | inr ((x, y), passed) ↦
            let (px, py) = check_active_ids user recipient true w passed in
            let same_x : x.id ≡ i = cc (pi, px) in
            let same_y : y.id ≡ j = cc (pj, py) in
            let stop = get_pending_blocked i j r w mem between only in
            (
              grind (arith, check_active_reads m user recipient true w),
              λ a. ground (arith, check_active_reads m user recipient true w),
            )
      ]

  -- Only the author of a block lifts it: where the call succeeds, one relationship is gone, a block
  -- between the two that the caller made, and every other stays as it was; where it fails, all stay.
  pub unblock_user_authorised :
      (user blocked : String) (i j : ℕ) (w : World)
      → m.parse_object_id user ≡ some i
      → m.parse_object_id blocked ≡ some j
      → ((unblock_user m user blocked w).0 ≡ ok true
          → (r : Relationship) × ((is_between i j r && is_blocked r && is_blocker i r.blocked_by)
              ≡ true)
            × Removes r w.relationships (unblock_user m user blocked w).1.relationships)
        × ((unblock_user m user blocked w).0 ≢ ok true
            → (unblock_user m user blocked w).1.relationships ≡ w.relationships)
  unfolding unblock_user
  unblock_user_authorised user blocked i j w pi pj =
      let q = λ (r : Relationship). is_between i j r && is_blocked r && is_blocker i r.blocked_by in
      elim (Option-cases (m.find_one_and_delete q w.relationships).0) [
        | inl missed ↦ (
          λ e. absurd (ground (arith, check_active_reads m user blocked false w)),
          λ e. ground (
            arith,
            check_active_reads m user blocked false w,
            delete_missed m q w.relationships missed,
          ),
        )
        | inr (r, hit) ↦
            let (matched, _) = delete_hit m q w.relationships hit in
            let gone = delete-Removes m q w.relationships hit in
            let kept = (m.find_one_and_delete q w.relationships).1 in
            (
              λ e.
                  let left : (unblock_user m user blocked w).1.relationships ≡ kept =
                    ground (arith, check_active_reads m user blocked false w) in
                  (r, matched, rw left gone),
              λ e. ground (arith, check_active_reads m user blocked false w),
            )
      ]
