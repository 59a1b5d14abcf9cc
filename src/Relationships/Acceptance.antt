-- ===== src/Relationships/Acceptance.antt =====
-- Who accepts a request, and a request to oneself.
use learn_nest_js.Shared.{
  count, ◌≤◌, refl, ℕ, String, Bool, true, false, ◌≡◌, arith, none, some, inl, inr, any,
  Option-cases, ◌==◌, ==_iff, str_eq, List, ◌∙◌, Option, ◌&&◌,
}
use learn_nest_js.Shared.Action.{ok, Result-cases}
use learn_nest_js.Shared.Platform.{Platform, Inserts}
use learn_nest_js.Shared.Documents.{found, Replaces, update-Replaces}
use learn_nest_js.Shared.Counting.{the_only}
use learn_nest_js.Relationships.Uniqueness.{announce_keeps}
use learn_nest_js.Schemas.{User, Relationship, RelationshipStatus}
use learn_nest_js.World.{World, is_later}
use learn_nest_js.Users
use learn_nest_js.Relationships.Access.{is_between, check_active, check_target}
use learn_nest_js.Relationships.Reading.{check_active_reads}
use learn_nest_js.Relationships.Query.{is_pending}
use learn_nest_js.Relationships.Request.{
  Chat, create, accept, announce, get_pending_or_null, create_new, create_relationship,
  update_relationship,
}

module _ (m : Platform) (chat : Chat) where
  announce_ok :
      (user target : String) (current : User) (w : World)
      → (announce m chat user target current w).0 ≡ ok tt
  unfolding announce
  announce_ok user target current w = ground arith

  abbrev sought : ℕ → ℕ → ℕ → Relationship → Bool
  sought k i j r = r.id == k && is_pending r && r.recipient == i && r.requester == j

  abbrev taken : Relationship → ℕ → Relationship → Bool
  taken r i d = d.id == r.id && d.recipient == i && is_pending d

  abbrev accepting : Relationship → Relationship
  accepting r = record r { status = RelationshipStatus.accepted }

  abbrev changed : Relationship → ℕ → World → Option Relationship × List Relationship
  changed r i w = m.find_one_and_update (taken r i) accepting w.relationships

  -- Where no two relationships have one id: an acceptance that succeeds turns the request of that
  -- id, which was pending and was sent to the caller by the user that is named, into a friendship,
  -- in the answer and in its place among the stored ones; nothing else of it or of any other changes.
  pub accept_accepts :
      (id user target : String) (i : ℕ) (w : World) {a : Relationship}
      → ((k : ℕ) → count (λ r. r.id == k) w.relationships ≤ 1)
      → m.parse_object_id user ≡ some i
      → (accept m chat id user target w).0 ≡ ok a
      → (r : Relationship) × (m.parse_object_id id ≡ some r.id)
        × (m.parse_object_id target ≡ some r.requester)
        × (r.recipient ≡ i)
        × (is_pending r ≡ true)
        × (a ≡ record r { status = RelationshipStatus.accepted })
        × Replaces r
            (record r { status = RelationshipStatus.accepted })
            w.relationships
            (accept m chat id user target w).1.relationships
  unfolding accept update_relationship
  accept_accepts id user target i w {a} unique pi e =
      let reads = check_active_reads m target user true w in
      elim (Result-cases (check_active m target user true w).0) [
        | inl (x, refused) ↦ absurd (ground arith)
        | inr ((x, y), passed) ↦ elim (Option-cases (m.parse_object_id id)) [
          | inl bad ↦ absurd (ground arith)
          | inr (k, pk) ↦ elim (Option-cases (m.parse_object_id target)) [
            | inl bad ↦ absurd (ground arith)
            | inr (j, pj) ↦ elim (Option-cases (m.find_one (sought k i j) w.relationships)) [
              | inl missed ↦ absurd (ground arith)
              | inr (r, hit) ↦ elim (Option-cases (changed r i w).0) [
                | inl missed ↦ absurd (ground arith)
                | inr (c, was) ↦
                    let (d, matched, made, old, new) =
                      update-Replaces m (taken r i) accepting w.relationships was in
                    let (is_sought, here) = found m (sought k i j) w.relationships hit in
                    let result : a ≡ c = ground (arith, announce_ok user target y) in
                    let stored : (accept m chat id user target w).1.relationships
                        ≡ (changed r i w).1 =
                      grind (arith, announce_keeps) in
                    let same : r ≡ d =
                      the_only (λ x. x.id == r.id) w.relationships (unique r.id) here old
                        ((==_iff r.id r.id).1 refl) (ground arith) in
                    let of_id : m.parse_object_id id ≡ some r.id = ground arith in
                    let of_target : m.parse_object_id target ≡ some r.requester = ground arith in
                    (
                      d,
                      rw same at of_id,
                      rw same at of_target,
                      ground arith,
                      ground arith,
                      result ∙ made,
                      rw stored new,
                    )
              ]
            ]
          ]
        ]
      ]

  -- The test against a request to oneself compares texts: another spelling of the caller's own
  -- id passes it, and a relationship of the user with itself is stored.
  pub create-self_spelled_otherwise :
      (user other : String) (w : World) {i : ℕ} {u : User}
      → str_eq user other ≡ false
      → m.parse_object_id user ≡ some i
      → m.parse_object_id other ≡ some i
      → m.find_one (λ x. x.id == i) w.users ≡ some u
      → u.is_active ≡ true
      → u.is_disabled ≡ false
      → is_later u.ban_until w.now ≡ false
      → m.find_one (is_between u.id u.id) w.relationships ≡ none
      → any (λ d. d.requester == u.id && d.recipient == u.id) w.relationships ≡ false
      → (r : Relationship) × ((create m chat other user RelationshipStatus.pending w).0 ≡ ok r)
        × (r.requester ≡ i)
        × (r.recipient ≡ i)
        × Inserts r w.relationships
            (create m chat other user RelationshipStatus.pending w).1.relationships
  unfolding create check_active check_target Users.find_one get_pending_or_null create_new
      create_relationship
  create-self_spelled_otherwise user other w {i} {u} differ pi pj found_user active enabled free
        unrelated unique =
      let same = (==_iff u.id i).0 (found m (λ x. x.id == i) w.users found_user).0 in
      let own : Relationship = record {
        id = m.new_object_id w.created;
        requester = u.id;
        recipient = u.id;
        status = RelationshipStatus.pending;
        blocked_by = none;
      } in
      let kept : (create m chat other user RelationshipStatus.pending w).1.relationships
          ≡ m.insert own w.relationships =
        ground arith in
      (own, ground arith, same, same, rw kept (m.insert_lem own w.relationships))
