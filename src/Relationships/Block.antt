-- ===== src/Relationships/Block.antt =====
-- relationship-block.service.ts. The session of a caller's transaction is left out: the block
-- that `create` makes is not written in that session either.
use learn_nest_js.Shared.{
  ℕ, String, Bool, true, false, ◌&&◌, ◌==◌, str_eq, Option, none, some, if◌then◌else◌,
}
use learn_nest_js.Shared.Errors.{RelationshipMessage}
use learn_nest_js.Shared.Action.{or_raise, raise, gets, pure, ◌>>=◌, ◌>>◌}
use learn_nest_js.Shared.Platform.{Platform}
use learn_nest_js.Schemas.{Relationship, RelationshipStatus}
use learn_nest_js.World.{Action, to_object_id}
use learn_nest_js.Relationships.Access.{refuse, is_between, check_active}
use learn_nest_js.Relationships.Query.{is_blocked}
use learn_nest_js.Relationships.Request.{Chat, create, update_relationship}

-- `blockedBy?.toString() === userId`
abbrev pub is_by : (ℕ → String) → Option ℕ → String → Bool
is_by text none user_id = false
is_by text (some i) user_id = str_eq (text i) user_id

-- `{ blockedBy: user }`
abbrev pub is_blocker : ℕ → Option ℕ → Bool
is_blocker user none = false
is_blocker user (some i) = i == user

module _ (m : Platform) where
  -- A relationship that is there becomes a block by `user`, unless it is one.
  unfoldable pub block_found : String → ℕ → Relationship → Action Relationship
  block_found user_id user r =
      if is_blocked r
      then (if is_by m.object_id_text r.blocked_by user_id
          then raise (refuse RelationshipMessage.already_blocked)
          else raise (refuse RelationshipMessage.cannot_block))
      else do
        updated ←
            update_relationship m (λ d. d.id == r.id)
              (λ d. record d { status = RelationshipStatus.blocked; blocked_by = some user })
        or_raise updated (refuse RelationshipMessage.block_failed)

  -- What `blockUser` does with the relationship that it finds, if any.
  unfoldable pub block_either :
      Chat → String → String → ℕ → Option Relationship → Action Relationship
  block_either chat user_id block_id user none =
      create m chat block_id user_id RelationshipStatus.blocked
  block_either chat user_id block_id user (some r) = block_found user_id user r

  -- `blockUser`
  unfoldable pub block_user : Chat → String → String → Action Relationship
  block_user chat user_id block_id = do
    check_active m user_id block_id false
    user ← to_object_id m user_id "userId"
    blocked ← to_object_id m block_id "blockId"
    found ← gets (λ w. m.find_one (is_between user blocked) w.relationships)
    block_either chat user_id block_id user found

  -- `unblockUser`
  unfoldable pub unblock_user : String → String → Action Bool
  unblock_user user_id block_id = do
    user ← to_object_id m user_id "userId"
    blocked ← to_object_id m block_id "blockId"
    check_active m user_id block_id false
    λ w.
        let (r, docs) =
          m.find_one_and_delete
            (λ r. is_between user blocked r && is_blocked r && is_blocker user r.blocked_by)
            w.relationships in
        (or_raise r (refuse RelationshipMessage.unblock_failed) >> pure true)
          (record w { relationships = docs })
