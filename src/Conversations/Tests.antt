-- ===== src/Conversations/Tests.antt =====
-- Runs of the conversation services on the list platform, and instances of the theorems.
use learn_nest_js.Shared.{
  ℕ, ◌≡◌, ◌⊎◌, Memᴰ, true, some, contains, refl, arith, false, none, [], ◌∷◌,
}
use learn_nest_js.Shared.Errors.{bad_request, of_conversation, ConversationMessage}
use learn_nest_js.Shared.Action.{err, pure}
use learn_nest_js.Shared.Documents.{Each, Each-refl}
use learn_nest_js.Shared.ListPlatform.{list_platform}
use learn_nest_js.Schemas.{Conversation, MessageDoc, MessageKind}
use learn_nest_js.Samples.{empty_world}
use learn_nest_js.World.{World}
use learn_nest_js.Conversations.Access.{get_or_throw, ensure_member, ensure_group_admin, is_id}
use learn_nest_js.Users
use learn_nest_js.CleanupJobs.Dispatcher.{remove_unseen}
use learn_nest_js.Conversations.State.{
  mark_as_read, check_read, record_read, check_message, update_by_id,
}
use learn_nest_js.Conversations.Member.{
  Posts, SameMembers, remove_member, check_remove, write_remove, after_remove,
  remove_unseen_with_cleanup,
}
use learn_nest_js.Conversations.Membership.{IsWithout, remove_member_authorised}
use learn_nest_js.Conversations.Reading.{ReadsOn, mark_as_read-ReadsOn}

opened : Unit {0}
unfolding mark_as_read check_read record_read check_message update_by_id get_or_throw ensure_member
    ensure_group_admin remove_member check_remove write_remove after_remove
    remove_unseen_with_cleanup remove_unseen Users.find_one
opened = tt

abbrev chat : ℕ → Conversation
chat read = record {
  id = 2;
  name = none;
  is_group = false;
  users = 0 ∷ 1 ∷ [];
  accepted_by = 0 ∷ 1 ∷ [];
  admin_group_id = none;
  last_message_id = none;
  pin_message_id = none;
  hidden_history = [];
  read_receipts = ("a", read) ∷ [];
}

abbrev note : MessageDoc
note = record {
  id = 4;
  conversation_id = 2;
  sender_id = 1;
  kind = MessageKind.text;
  content = none;
  media_id = none;
  call_id = none;
  reply_to = none;
  is_deleted = false;
  deleted_at = none;
  reactions = [];
}

abbrev start : ℕ → World
start read = record empty_world {
  conversations = chat read ∷ [];
  messages = note ∷ [];
  now = 1000;
  created = 5;
}

reads_on : (mark_as_read list_platform "aaa" "a" "aaaaa" (start 3)).1.conversations ≡ chat 4 ∷ []
unfolding opened
reads_on = refl

not_back :
    mark_as_read list_platform "aaa" "a" "aaaaa" (start 7)
    ≡ (err (bad_request (of_conversation ConversationMessage.cannot_read_older)), start 7)
unfolding opened
not_back = refl

mark_as_read-ReadsOn_example :
    Each ReadsOn
      (chat 3 ∷ [])
      (mark_as_read list_platform "aaa" "a" "aaaaa" (start 3)).1.conversations
mark_as_read-ReadsOn_example =
    mark_as_read-ReadsOn list_platform "aaa" "a" "aaaaa" (start 3) (λ i. ground arith)

-- A group of the users "a", who administers it, and "aa".
abbrev group : World
group = record (start 3) {
  conversations = record (chat 3) { is_group = true; admin_group_id = some 0 } ∷ [];
}

abbrev silent : Posts
silent = record {
  post = λ sender conversation. pure tt;
  post_keeps =
      λ sender conversation w. Each-refl SameMembers (λ c. (refl, refl, refl)) w.conversations;
}

remove_member_authorised_example :
    (c : Conversation) × Memᴰ c group.conversations
    × (list_platform.parse_object_id "aaa" ≡ some c.id)
    × (c.is_group ≡ true)
    × (contains 1 c.users ≡ true)
    × (is_id c.admin_group_id 1 ≡ false)
    × (◌≡◌ {A = ℕ} 0 1 ⊎ (is_id c.admin_group_id 0 ≡ true))
    × IsWithout 1 c group.conversations
        (remove_member list_platform silent "aaa" "a" "aa" group).1.conversations
unfolding opened
remove_member_authorised_example =
    remove_member_authorised list_platform silent "aaa" "a" "aa" 0 1 group {done = true}
      (λ k. ground arith) refl refl refl
