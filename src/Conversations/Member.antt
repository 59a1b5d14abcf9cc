-- ===== src/Conversations/Member.antt =====
-- `removeMember` of conversation-member.service.ts. The system message and the realtime layer's
-- part of it are given as an interface; the texts are left out.
use learn_nest_js.Shared.{
  ℕ, ◌≡◌, String, Bool, true, false, ◌&&◌, ◌==◌, not, str_eq, Option, none, some, ◌∷◌, filter,
  if◌then◌else◌,
}
use learn_nest_js.Shared.Errors.{ConversationMessage}
use learn_nest_js.Shared.Action.{
  or_raise, raise_if, pure, modify, try_catch, with_transaction, ◌>>=◌, ◌>>◌,
}
use learn_nest_js.Shared.Platform.{Platform}
use learn_nest_js.Shared.Documents.{Each}
use learn_nest_js.Schemas.{Conversation, HiddenEntry, redis_remove_unseen_one}
use learn_nest_js.World.{World, Action, member_removed}
use learn_nest_js.Users
use learn_nest_js.CleanupJobs.Create.{try_cleanup_job, empty_payload}
use learn_nest_js.CleanupJobs.Dispatcher.{remove_unseen}
use learn_nest_js.Conversations.Access.{
  refuse, get_or_throw, ensure_group, ensure_group_admin, ensure_member,
}
use learn_nest_js.Conversations.State.{unset_receipt, update_by_id}

-- The same members and the same administrator.
abbrev pub SameMembers : Conversation → Conversation → Type 0
SameMembers c d = (d.id ≡ c.id) × (d.users ≡ c.users) × (d.admin_group_id ≡ c.admin_group_id)

-- `createMessage` of MessagesService for a system message: it changes no membership.
pub record Posts : Type 0 where
  pub post : (sender conversation : String) → Action (Unit {0})
  pub post_keeps :
      (sender conversation : String) (w : World)
      → Each SameMembers w.conversations (post sender conversation w).1.conversations

-- `currentUserId === conversation.adminGroupId?.toString()`
abbrev pub is_text_of : (ℕ → String) → Option ℕ → String → Bool
is_text_of text none user_id = false
is_text_of text (some i) user_id = str_eq user_id (text i)

-- `$pull` of the member, with `$unset` of the receipt.
abbrev pub without : ℕ → String → Conversation → Conversation
without i member_id c = record c {
  users = filter (λ u. not (u == i)) c.users;
  hidden_history = filter (λ (e : HiddenEntry). not (e.user_id == i)) c.hidden_history;
  accepted_by = filter (λ u. not (u == i)) c.accepted_by;
  read_receipts = unset_receipt member_id c.read_receipts;
}

module _ (m : Platform) where
  -- Only the administrator removes another member.
  abbrev pub ensure_may_remove : Conversation → String → String → Action (Unit {0})
  ensure_may_remove c current_id member_id =
      if str_eq current_id member_id
      then pure tt
      else (ensure_group_admin m c current_id >>= λ i. pure tt)

  -- The checks: the conversation, its id and the member's.
  unfoldable pub check_remove : String → String → String → Action (Conversation × ℕ × ℕ)
  check_remove id current_id member_id = do
    both ← get_or_throw m id
    ensure_group both.0
    ensure_may_remove both.0 current_id member_id
    raise_if
        (str_eq current_id member_id
          && is_text_of m.object_id_text both.0.admin_group_id current_id)
        (refuse ConversationMessage.cannot_remove_admin)
    i ← ensure_member m both.0 member_id
    Users.find_one m member_id
    pure (both.0, both.1, i)

  -- `removeUnseenConversationWithCleanup` (redis/redis.service.ts)
  unfoldable pub remove_unseen_with_cleanup : String → String → Action (Unit {0})
  remove_unseen_with_cleanup user_id conversation_id =
      try_catch (remove_unseen m user_id conversation_id) (λ _.
        try_cleanup_job m redis_remove_unseen_one (some conversation_id)
          (record empty_payload { user_id = some user_id; conversation_id = some conversation_id }))

  module _ (posts : Posts) where
    -- The body of the transaction.
    unfoldable pub write_remove :
        String → String → String → Conversation × ℕ × ℕ → Action (Unit {0})
    write_remove id current_id member_id (c, k, i) = do
      result ← update_by_id m k (without i member_id)
      or_raise result (refuse ConversationMessage.conversation_not_found)
      posts.post current_id id

    unfoldable pub after_remove : String → String → String → Action Bool
    after_remove id current_id member_id = do
      remove_unseen_with_cleanup member_id id
      modify (λ w. record w { events = member_removed id member_id current_id ∷ w.events })
      pure true

    -- `removeMember`
    unfoldable pub remove_member : String → String → String → Action Bool
    remove_member id current_id member_id = check_remove id current_id member_id >>= λ x.
        with_transaction (write_remove id current_id member_id x)
        >> after_remove id current_id member_id
