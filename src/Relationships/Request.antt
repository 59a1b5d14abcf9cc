-- ===== src/Relationships/Request.antt =====
-- relationship-request.service.ts: the friend requests. What `accept` does in the conversation
-- of the two users is given as an interface: it stands in a `try` whose errors are only logged.
use learn_nest_js.Shared.{
  ℕ, suc, String, Bool, true, false, ◌&&◌, ◌==◌, Option, none, some, any, ◌≡◌, if◌then◌else◌,
}
use learn_nest_js.Shared.Errors.{RelationshipMessage, driver_error}
use learn_nest_js.Shared.Action.{ok, err, or_raise, raise, gets, pure, try_catch, ◌>>=◌, ◌>>◌}
use learn_nest_js.Shared.Platform.{Platform}
use learn_nest_js.Schemas.{User, Relationship, RelationshipStatus, Conversation}
use learn_nest_js.World.{World, Action, to_object_id}
use learn_nest_js.Relationships.Access.{refuse, is_between, check_active}
use learn_nest_js.Relationships.Query.{is_pending, is_accepted}

-- The methods of ConversationsService and MessagesService that `accept` calls. They write no
-- user and no relationship.
pub record Chat : Type 0 where
  pub create_direct : (users : String) (current_user : String) → Action Conversation
  pub accept_conversation : (conversation : String) (user : String) → Action (Unit {0})
  pub create_system_message :
      (sender : String) (conversation : String) (author : Option String) → Action (Unit {0})
  pub create_direct_keeps :
      (a b : String) (w : World) → (create_direct a b w).1.relationships ≡ w.relationships
  pub accept_conversation_keeps :
      (a b : String) (w : World) → (accept_conversation a b w).1.relationships ≡ w.relationships
  pub create_system_message_keeps :
      (a b : String) (c : Option String) (w : World)
      → (create_system_message a b c w).1.relationships ≡ w.relationships

module _ (m : Platform) where
  unfoldable pub update_relationship :
      (Relationship → Bool) → (Relationship → Relationship) → Action (Option Relationship)
  update_relationship q f w =
      let (r, docs) = m.find_one_and_update q f w.relationships in
      (ok r, record w { relationships = docs })

  -- `relationshipModel.create`: the index on requester and recipient is unique.
  unfoldable pub create_relationship : Relationship → Action Relationship
  create_relationship r w =
      if any (λ d. d.requester == r.requester && d.recipient == r.recipient) w.relationships
      then (err (driver_error 11000), w)
      else (ok r, record w { relationships = m.insert r w.relationships; created = suc w.created })

  -- `deleteOne`
  unfoldable pub delete_one : ℕ → ℕ → ℕ → (Relationship → Bool) → Action Relationship
  delete_one id user target has_status w =
      let (r, docs) =
        m.find_one_and_delete (λ r. r.id == id && has_status r && is_between user target r)
          w.relationships in
      or_raise r (refuse RelationshipMessage.relationship_not_found)
        (record w { relationships = docs })

  -- `getPendingRelationshipOrNull`, on the document that it finds.
  abbrev pub only_pending : Option Relationship → Action (Option Relationship)
  only_pending none = pure none
  only_pending (some r) = elim r.status [
    | RelationshipStatus.accepted ↦ raise (refuse RelationshipMessage.already_accepted)
    | RelationshipStatus.blocked ↦ raise (refuse RelationshipMessage.relationship_already_blocked)
    | RelationshipStatus.pending ↦ pure (some r)
  ]

  unfoldable pub get_pending_or_null : ℕ → ℕ → Action (Option Relationship)
  get_pending_or_null a b = do
    found ← gets (λ w. m.find_one (is_between a b) w.relationships)
    only_pending found

  -- `rejectOrRemove`
  unfoldable pub reject_or_remove : String → String → String → Action Bool
  reject_or_remove relationship_id user_id target_id = do
    check_active m user_id target_id false
    id ← to_object_id m relationship_id "relationshipId"
    user ← to_object_id m user_id "userId"
    target ← to_object_id m target_id "targetUserId"
    delete_one id user target is_pending
    pure true

  -- `unfriend`
  unfoldable pub unfriend : String → String → String → Action Bool
  unfriend relationship_id user_id target_id = do
    check_active m user_id target_id false
    id ← to_object_id m relationship_id "relationshipId"
    user ← to_object_id m user_id "userId"
    target ← to_object_id m target_id "targetUserId"
    delete_one id user target is_accepted
    pure true

  -- The end of `create`, where no relationship stands between the two.
  unfoldable pub create_new : User → User → RelationshipStatus → Action Relationship
  create_new requester recipient status = do
    created ← gets (λ w. w.created)
    create_relationship (record {
      id = m.new_object_id created;
      requester = requester.id;
      recipient = recipient.id;
      status = status;
      blocked_by = elim status [ RelationshipStatus.blocked ↦ some requester.id | _ ↦ none ];
    })

  module _ (chat : Chat) where
    -- The outer `try` of `accept`; its `catch` only logs.
    unfoldable pub announce : String → String → User → Action (Unit {0})
    announce user_id target_id current_user =
        try_catch
          (do
            conversation ← chat.create_direct target_id user_id
            let text = m.object_id_text conversation.id
            try_catch (chat.accept_conversation text user_id) (λ _. pure tt)
            chat.create_system_message user_id text current_user.name)
          (λ _. pure tt)

    -- `accept`
    unfoldable pub accept : String → String → String → Action Relationship
    accept relationship_id user_id target_id = do
      both ← check_active m target_id user_id true
      id ← to_object_id m relationship_id "relationshipId"
      user ← to_object_id m user_id "userId"
      target ← to_object_id m target_id "targetUserId"
      found ← gets (λ w.
          m.find_one
            (λ r. r.id == id && is_pending r && r.recipient == user && r.requester == target)
            w.relationships)
      relationship ← or_raise found (refuse RelationshipMessage.relationship_not_found)
      updated ←
          update_relationship (λ r. r.id == relationship.id && r.recipient == user && is_pending r)
            (λ r. record r { status = RelationshipStatus.accepted })
      accepted ← or_raise updated (refuse RelationshipMessage.update_failed)
      announce user_id target_id both.1
      pure accepted

    -- `create`
    unfoldable pub create : String → String → RelationshipStatus → Action Relationship
    create recipient_id user_id status = do
      both ← check_active m user_id recipient_id true
      pending ← get_pending_or_null both.0.id both.1.id
      elim pending [
        | none ↦ create_new both.0 both.1 status
        | some r ↦
            if r.requester == both.0.id
            then raise (refuse RelationshipMessage.friend_request_already_sent)
            else accept (m.object_id_text r.id) user_id recipient_id
      ]
