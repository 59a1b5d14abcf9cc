-- ===== src/Conversations/State.antt =====
-- conversation-state.service.ts: the last message, the pinned message and the read receipts.
use learn_nest_js.Shared.{
  ℕ, String, Bool, false, Option, none, some, List, [], ◌∷◌, ◌==◌, ◌&&◌, str_eq, if◌then◌else◌,
}
use learn_nest_js.Shared.Errors.{ConversationMessage, bad_request, of_message, MessageMessage}
use learn_nest_js.Shared.Action.{ok, or_raise, raise_if, gets, pure, ◌>>=◌, ◌>>◌}
use learn_nest_js.Shared.Platform.{Platform}
use learn_nest_js.Schemas.{Conversation, HiddenEntry, MessageDoc}
use learn_nest_js.World.{Action, to_object_id}
use learn_nest_js.Conversations.Access.{refuse, get_or_throw, ensure_member, is_object_id_after}

-- A map from texts: `map.get(key)`, `{ $set: { ["map." + key]: value } }` and `$unset`.
abbrev pub receipt : String → List (String × ℕ) → Option ℕ
receipt key [] = none
receipt key ((k, v) ∷ rest) = if str_eq k key then some v else receipt key rest

abbrev pub set_receipt : String → ℕ → List (String × ℕ) → List (String × ℕ)
set_receipt key value [] = (key, value) ∷ []
set_receipt key value ((k, v) ∷ rest) =
    if str_eq k key then (key, value) ∷ rest else (k, v) ∷ set_receipt key value rest

abbrev pub unset_receipt : String → List (String × ℕ) → List (String × ℕ)
unset_receipt key [] = []
unset_receipt key ((k, v) ∷ rest) =
    if str_eq k key then unset_receipt key rest else (k, v) ∷ unset_receipt key rest

-- `'hiddenHistory.$[item].isHidden': false` with the filter `item.isHidden: true`
abbrev pub restore_all : List HiddenEntry → List HiddenEntry
restore_all [] = []
restore_all (e ∷ rest) = record e { is_hidden = false } ∷ restore_all rest

abbrev pub is_read_past : Option ℕ → ℕ → Bool
is_read_past none next = false
is_read_past (some last) next = is_object_id_after last next

module _ (m : Platform) where
  -- `findByIdAndUpdate` on conversations.
  unfoldable pub update_by_id : ℕ → (Conversation → Conversation) → Action (Option Conversation)
  update_by_id i f w =
      let (r, docs) = m.find_one_and_update (λ c. c.id == i) f w.conversations in
      (ok r, record w { conversations = docs })

  -- `updateLastMessageAndRestoreConversation`
  unfoldable pub update_last_message_and_restore :
      String → String → String → Action (Option Conversation)
  update_last_message_and_restore id message_id user_id = do
    i ← to_object_id m id "conversation id"
    message ← to_object_id m message_id "message id"
    to_object_id m user_id "user id"
    update_by_id i (λ c. record c {
      last_message_id = some message;
      hidden_history = restore_all c.hidden_history;
      read_receipts = set_receipt user_id message c.read_receipts;
    })

  -- `pinMessage` and `unpinMessage`
  unfoldable pub pin_message : String → String → Action (Option Conversation)
  pin_message conversation_id message_id = do
    i ← to_object_id m conversation_id "conversation id"
    message ← to_object_id m message_id "message id"
    update_by_id i (λ c. record c { pin_message_id = some message })

  unfoldable pub unpin_message : String → Action (Option Conversation)
  unpin_message conversation_id = do
    i ← to_object_id m conversation_id "conversation id"
    update_by_id i (λ c. record c { pin_message_id = none })

  -- `checkMessageExistInConversation` of messages/message-lookup.service.ts
  unfoldable pub check_message : String → String → Action MessageDoc
  check_message message_id conversation_id = do
    i ← to_object_id m message_id "message id"
    c ← to_object_id m conversation_id "conversation id"
    found ← gets (λ w. m.find_one (λ d. d.id == i && d.conversation_id == c) w.messages)
    or_raise found (bad_request (of_message MessageMessage.message_not_found))

  -- The checks of `markAsRead` before that of the order: the conversation, its id and the message's.
  unfoldable pub check_read : String → String → String → Action (Conversation × ℕ × ℕ)
  check_read conversation_id user_id message_id = do
    both ← get_or_throw m conversation_id
    check_message message_id conversation_id
    message ← to_object_id m message_id "message id"
    ensure_member m both.0 user_id
    pure (both.0, both.1, message)

  -- The rest, for the conversation that was read.
  unfoldable pub record_read : String → Conversation × ℕ × ℕ → Action (Option Conversation)
  record_read user_id (conversation, i, message) = do
    raise_if (is_read_past (receipt user_id conversation.read_receipts) message)
        (refuse ConversationMessage.cannot_read_older)
    update_by_id i (λ c. record c { read_receipts = set_receipt user_id message c.read_receipts })

  -- `markAsRead`
  unfoldable pub mark_as_read : String → String → String → Action (Option Conversation)
  mark_as_read conversation_id user_id message_id =
      check_read conversation_id user_id message_id >>= record_read user_id
