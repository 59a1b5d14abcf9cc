-- ===== src/Relationships/Query.antt =====
-- relationship-query.service.ts: the queries that the other services ask. That of all
-- relationships of a user only renders documents, and is left out.
use learn_nest_js.Shared.{
  ℕ, String, Bool, true, false, ◌&&◌, ◌||◌, not, ◌==◌, str_eq, Option, List, [], ◌∷◌, map, filter,
  contains, is_some, if◌then◌else◌,
}
use learn_nest_js.Shared.Action.{gets, pure, ◌>>=◌}
use learn_nest_js.Shared.Platform.{Platform}
use learn_nest_js.Schemas.{Relationship, RelationshipStatus}
use learn_nest_js.World.{World, Action, to_object_id}
use learn_nest_js.Relationships.Access.{is_between}

abbrev pub is_blocked : Relationship → Bool
is_blocked r = elim r.status [ RelationshipStatus.blocked ↦ true | _ ↦ false ]

abbrev pub is_accepted : Relationship → Bool
is_accepted r = elim r.status [ RelationshipStatus.accepted ↦ true | _ ↦ false ]

abbrev pub is_pending : Relationship → Bool
is_pending r = elim r.status [ RelationshipStatus.pending ↦ true | _ ↦ false ]

-- `ids.map((id) => toObjectId(id, field))`
unfoldable pub to_object_ids : Platform → String → List String → Action (List ℕ)
to_object_ids m field [] = pure []
to_object_ids m field (id ∷ ids) = do
  i ← to_object_id m id field
  rest ← to_object_ids m field ids
  pure (i ∷ rest)

-- The other side of a relationship that `user` is a side of.
abbrev pub other_side : ℕ → Relationship → ℕ
other_side user r = if r.requester == user then r.recipient else r.requester

-- `$or: [{ requester: user, recipient: { $in: targets } }, …]`
abbrev pub is_among : ℕ → List ℕ → Relationship → Bool
is_among user targets r =
    (r.requester == user && contains r.recipient targets)
    || (r.recipient == user && contains r.requester targets)

module _ (m : Platform) where
  -- `checkIsBlocked`
  unfoldable pub check_is_blocked : String → String → Action (Option Relationship)
  check_is_blocked user_1 user_2 = do
    a ← to_object_id m user_1 "userId1"
    b ← to_object_id m user_2 "userId2"
    gets (λ w. m.find_one (λ r. is_between a b r && is_blocked r) w.relationships)

  -- `checkIsFriend`
  unfoldable pub check_is_friend : String → String → Action Bool
  check_is_friend user_1 user_2 = do
    a ← to_object_id m user_1 "userId1"
    b ← to_object_id m user_2 "userId2"
    gets (λ w. is_some (m.find_one (λ r. is_between a b r && is_accepted r) w.relationships))

  -- The queries of the next two, after the ids are read.
  unfoldable pub blocked_among : ℕ → List ℕ → World → List String
  blocked_among user [] w = []
  blocked_among user targets w =
      map (λ r. m.object_id_text (other_side user r))
        (m.find (λ r. is_blocked r && is_among user targets r) w.relationships)

  -- `getBlockedUserIdsAmongUsers`
  unfoldable pub get_blocked_among : String → List String → Action (List String)
  get_blocked_among user_id [] = pure []
  get_blocked_among user_id target_ids = do
    user ← to_object_id m user_id "userId"
    targets ← to_object_ids m "targetUserId" (filter (λ id. not (str_eq id user_id)) target_ids)
    gets (blocked_among user targets)

  -- `getFriendIdsAmongUsers`
  unfoldable pub get_friends_among : String → List String → Action (List String)
  get_friends_among user_id [] = pure []
  get_friends_among user_id target_ids = do
    user ← to_object_id m user_id "userId"
    targets ← to_object_ids m "targetUserId" target_ids
    gets (λ w.
        map (λ r. m.object_id_text (other_side user r))
          (m.find (λ r. is_accepted r && is_among user targets r) w.relationships))
