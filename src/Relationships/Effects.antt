-- ===== src/Relationships/Effects.antt =====
-- What a call that succeeds has done, and which strangers cannot be blocked.
use learn_nest_js.Shared.{
  ℕ, ◌≤◌, String, true, false, ◌≡◌, refl, arith, none, some, inl, inr, count, List, Option-cases,
  ◌==◌, ==_iff, Memᴰ,
}
use learn_nest_js.Shared.Errors.{RelationshipMessage}
use learn_nest_js.Shared.Action.{ok, err, Result-cases}
use learn_nest_js.Shared.Platform.{Platform}
use learn_nest_js.Shared.Documents.{found, insert-mem, update_hit}
use learn_nest_js.Shared.Counting.{the_only}
use learn_nest_js.Schemas.{User, Relationship, RelationshipStatus}
use learn_nest_js.World.{World}
use learn_nest_js.Relationships.Access.{refuse, is_between, check_active, check_target}
use learn_nest_js.Relationships.Reading.{check_active_reads, find_one_reads}
use learn_nest_js.Relationships.Blocking.{check_active_ids}
use learn_nest_js.Relationships.Request.{
  Chat, create, get_pending_or_null, create_new, create_relationship, update_relationship,
}
use learn_nest_js.Relationships.Block.{block_user, block_either, block_found}

-- The `_id` of a document is unique.
abbrev pub UniqueIds : List Relationship → Type 0
UniqueIds docs = (i : ℕ) → count (λ r. r.id == i) docs ≤ 1

-- A block of the pair by the user `i`.
abbrev pub IsBlockBy : ℕ → ℕ → Relationship → Type 0
IsBlockBy i j r =
    (is_between i j r ≡ true) × (r.status ≡ RelationshipStatus.blocked) × (r.blocked_by ≡ some i)

module _ (m : Platform) (chat : Chat) where
  block_found_blocks :
      (user : String) (i j : ℕ) (r : Relationship) (w : World) {b : Relationship}
      → UniqueIds w.relationships
      → m.find_one (is_between i j) w.relationships ≡ some r
      → (block_found m user i r w).0 ≡ ok b
      → IsBlockBy i j b × Memᴰ b (block_found m user i r w).1.relationships
  unfolding block_found update_relationship
  block_found_blocks user i j r w {b} unique hit e =
      let (between, here) = found m (is_between i j) w.relationships hit in
      let q = λ (d : Relationship). d.id == r.id in
      let f = λ (d : Relationship). record d {
        status = RelationshipStatus.blocked;
        blocked_by = some i;
      } in
      elim (Option-cases (m.find_one_and_update q f w.relationships).0) [
        | inl missed ↦ absurd (ground arith)
        | inr (c, changed) ↦
            let (d, is_it, made, was_in, now_in) = update_hit m q f w.relationships changed in
            let same : d ≡ r =
              the_only (λ x. x.id == r.id) w.relationships (unique r.id) was_in here is_it
                ((==_iff r.id r.id).1 refl) in
            let result : b ≡ c = ground arith in
            let store : (block_found m user i r w).1.relationships
                ≡ (m.find_one_and_update q f w.relationships).1 =
              ground arith in
            let sides : is_between i j d ≡ true = rw same between in
            let blocks : IsBlockBy i j c = rw made (sides, refl, refl) in
            rw (result, store) (blocks, now_in)
      ]

  create_blocks :
      (user blocked : String) (i j : ℕ) (w : World) {b : Relationship}
      → m.parse_object_id user ≡ some i
      → m.parse_object_id blocked ≡ some j
      → m.find_one (is_between i j) w.relationships ≡ none
      → (create m chat blocked user RelationshipStatus.blocked w).0 ≡ ok b
      → IsBlockBy i j b
        × Memᴰ b (create m chat blocked user RelationshipStatus.blocked w).1.relationships
  unfolding create get_pending_or_null create_new create_relationship
  create_blocks user blocked i j w {b} pi pj missed e =
      elim (Result-cases (check_active m user blocked true w).0) [
        | inl (x, refused) ↦ absurd (ground arith)
        | inr ((x, y), passed) ↦
            let (px, py) = check_active_ids m user blocked true w passed in
            let same_x : x.id ≡ i = cc (pi, px) in
            let same_y : y.id ≡ j = cc (pj, py) in
            let new : Relationship = record {
              id = m.new_object_id w.created;
              requester = x.id;
              recipient = y.id;
              status = RelationshipStatus.blocked;
              blocked_by = some x.id;
            } in
            let missed' : m.find_one (is_between x.id y.id) w.relationships ≡ none =
              rw (same_x, same_y) missed in
            let store = insert-mem m new w.relationships in
            let reads = check_active_reads m user blocked true w in
            let result : b ≡ new = ground arith in
            let stored : (create m chat blocked user RelationshipStatus.blocked w).1.relationships
                ≡ m.insert new w.relationships =
              ground arith in
            let blocks : IsBlockBy i j new = ground arith in rw (result, stored) (blocks, store)
      ]

  -- A block that succeeds is in the store: it stands between the two and is the caller's.
  pub block_user_blocks :
      (user blocked : String) (i j : ℕ) (w : World) {b : Relationship}
      → UniqueIds w.relationships
      → m.parse_object_id user ≡ some i
      → m.parse_object_id blocked ≡ some j
      → (block_user m chat user blocked w).0 ≡ ok b
      → IsBlockBy i j b × Memᴰ b (block_user m chat user blocked w).1.relationships
  unfolding block_user block_either
  block_user_blocks user blocked i j w {b} unique pi pj e =
      let reads = check_active_reads m user blocked false w in
      elim (Option-cases (m.find_one (is_between i j) w.relationships)) [
        | inl missed ↦
            let then_create : block_user m chat user blocked w
                ≡ create m chat blocked user RelationshipStatus.blocked w =
              ground arith in
            rw then_create (create_blocks user blocked i j w pi pj missed (rw (← then_create) e))
        | inr (r, hit) ↦
            let then_change : block_user m chat user blocked w ≡ block_found m user i r w =
              ground arith in
            rw then_change (block_found_blocks user i j r w unique hit (rw (← then_change) e))
      ]

  -- Though `blockUser` asks for no active target, a stranger whose account is not active cannot
  -- be blocked: the request that it falls back on asks again. Nothing is written.
  pub block_user-inactive_stranger :
      (user blocked : String) (i j : ℕ) (w : World) {x y : User}
      → m.parse_object_id user ≡ some i
      → m.parse_object_id blocked ≡ some j
      → m.find_one (is_between i j) w.relationships ≡ none
      → check_active m user blocked false w ≡ (ok (x, y), w)
      → y.is_active ≡ false
      → block_user m chat user blocked w
        ≡ (err (refuse RelationshipMessage.recipient_not_active), w)
  unfolding block_user block_either create check_active check_target
  block_user-inactive_stranger user blocked i j w {x} {y} pi pj missed passed inactive =
      ground (arith, find_one_reads m user w, find_one_reads m blocked w)
