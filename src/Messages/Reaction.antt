-- ===== src/Messages/Reaction.antt =====
-- message-reaction.service.ts. What is populated and serialized for the answer is left out.
use learn_nest_js.Shared.{
  ℕ, String, Bool, true, false, ◌==◌, not, str_eq, List, [], ◌∷◌, ◌++◌, any, filter, update_all,
  is_some,
}
use learn_nest_js.Shared.Errors.{Exception, bad_request, of_message, MessageMessage}
use learn_nest_js.Shared.Action.{or_raise, raise_if, pure, ◌>>=◌, ◌>>◌}
use learn_nest_js.Shared.Platform.{Platform}
use learn_nest_js.Schemas.{MessageDoc, Reaction, ReactionKind}
use learn_nest_js.World.{Action}
use learn_nest_js.Relationships.Query.{check_is_blocked}
use learn_nest_js.Conversations.Access.{get_or_throw, ensure_member}
use learn_nest_js.Conversations.State.{check_message}

abbrev pub refuse : MessageMessage → Exception
refuse message = bad_request (of_message message)

abbrev pub is_by : ℕ → Reaction → Bool
is_by user r = r.user == user

-- `$set` on the elements that the array filter lets through, or `$push`.
abbrev pub reacted : Bool → ℕ → ReactionKind → List Reaction → List Reaction
reacted true user kind rs = update_all (is_by user) (λ r. record r { kind = kind }) rs
reacted false user kind rs = rs ++ record { user = user; kind = kind } ∷ []

-- `$pull`
abbrev pub unreacted : ℕ → List Reaction → List Reaction
unreacted user rs = filter (λ r. not (is_by user r)) rs

module _ (m : Platform) where
  -- What both methods check: the user's id, and the message.
  unfoldable pub check_reaction : String → String → String → Action (ℕ × MessageDoc)
  check_reaction user_id message_id conversation_id = do
    (conversation, _) ← get_or_throw m conversation_id
    user ← ensure_member m conversation user_id
    message ← check_message m message_id conversation_id
    raise_if message.is_deleted (refuse MessageMessage.already_deleted)
    raise_if (is_some message.call_id) (refuse MessageMessage.call_message_action_not_allowed)
    pure (user, message)

  abbrev pub ensure_unblocked : Bool → String → String → Action (Unit {0})
  ensure_unblocked true user_id sender_id = pure tt
  ensure_unblocked false user_id sender_id = do
    blocked ← check_is_blocked m user_id sender_id
    raise_if (is_some blocked) (refuse MessageMessage.cannot_react_blocked_user)

  unfoldable pub update_message : MessageDoc → (List Reaction → List Reaction) → Action MessageDoc
  update_message message f w =
      let (r, docs) =
        m.find_one_and_update (λ d. d.id == message.id)
          (λ d. record d { reactions = f d.reactions }) w.messages in
      or_raise r (refuse MessageMessage.message_not_updated) (record w { messages = docs })

  unfoldable pub write_reaction : String → ReactionKind → ℕ × MessageDoc → Action MessageDoc
  write_reaction user_id kind (user, message) = do
    let sender = m.object_id_text message.sender_id
    ensure_unblocked (str_eq sender user_id) user_id sender
    update_message message (reacted (any (is_by user) message.reactions) user kind)

  -- `updateOrInsertReaction`
  unfoldable pub update_or_insert_reaction :
      String → String → String → ReactionKind → Action MessageDoc
  update_or_insert_reaction user_id message_id conversation_id kind =
      check_reaction user_id message_id conversation_id >>= write_reaction user_id kind

  abbrev pub pull_reaction : ℕ × MessageDoc → Action MessageDoc
  pull_reaction (user, message) = update_message message (unreacted user)

  -- `removeReaction`
  unfoldable pub remove_reaction : String → String → String → Action MessageDoc
  remove_reaction user_id message_id conversation_id =
      check_reaction user_id message_id conversation_id >>= pull_reaction
