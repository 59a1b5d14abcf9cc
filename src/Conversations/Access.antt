-- ===== src/Conversations/Access.antt =====
-- conversation-access.service.ts: the guards of the conversation services.
use learn_nest_js.Shared.{
  ℕ, String, Bool, false, Option, none, some, ◌==◌, ltb, not, contains, if◌then◌else◌,
}
use learn_nest_js.Shared.Errors.{Exception, bad_request, of_conversation, ConversationMessage}
use learn_nest_js.Shared.Action.{or_raise, raise_if, gets, pure, ◌>>=◌, ◌>>◌}
use learn_nest_js.Shared.Platform.{Platform}
use learn_nest_js.Schemas.{Conversation}
use learn_nest_js.World.{World, Action, to_object_id}

abbrev pub refuse : ConversationMessage → Exception
refuse message = bad_request (of_conversation message)

-- `adminGroupId?.equals(user)`
abbrev pub is_id : Option ℕ → ℕ → Bool
is_id none user = false
is_id (some i) user = i == user

-- `isObjectIdAfter`
abbrev pub is_object_id_after : ℕ → ℕ → Bool
is_object_id_after current next = if current == next then false else ltb next current

-- `ensureGroupConversation`
abbrev pub ensure_group : Conversation → Action (Unit {0})
ensure_group c = raise_if (not c.is_group) (refuse ConversationMessage.not_a_group)

module _ (m : Platform) where
  abbrev pub find_conversation : ℕ → World → Option Conversation
  find_conversation i w = m.find_one (λ c. c.id == i) w.conversations

  -- `getConversationOrThrow`
  unfoldable pub get_or_throw : String → Action (Conversation × ℕ)
  get_or_throw conversation_id = do
    i ← to_object_id m conversation_id "conversation id"
    found ← gets (find_conversation i)
    conversation ← or_raise found (refuse ConversationMessage.conversation_not_found)
    pure (conversation, i)

  -- `ensureGroupAdmin`
  unfoldable pub ensure_group_admin : Conversation → String → Action ℕ
  ensure_group_admin c user_id = do
    i ← to_object_id m user_id "user id"
    raise_if (not (is_id c.admin_group_id i)) (refuse ConversationMessage.not_group_admin)
    pure i

  -- `ensureMemberInConversation`
  unfoldable pub ensure_member : Conversation → String → Action ℕ
  ensure_member c user_id = do
    i ← to_object_id m user_id "member id"
    raise_if (not (contains i c.users)) (refuse ConversationMessage.user_not_in_conversation)
    pure i

  -- `ensureMemberAcceptedConversation`
  unfoldable pub ensure_accepted : Conversation → String → Action (Unit {0})
  ensure_accepted c user_id = do
    i ← to_object_id m user_id "member id"
    raise_if (not (contains i c.accepted_by))
        (refuse ConversationMessage.user_not_accepted_conversation)
