-- ===== src/Messages/Tests.antt =====
-- Runs of the reactions on the list platform, and instances of the theorems.
use learn_nest_js.Shared.{ℕ, ◌≡◌, refl, arith, false, none, some, [], ◌∷◌}
use learn_nest_js.Shared.ListPlatform.{list_platform}
use learn_nest_js.Schemas.{Conversation, MessageDoc, MessageKind, ReactionKind}
use learn_nest_js.Samples.{empty_world, sample_user}
use learn_nest_js.World.{World}
use learn_nest_js.Relationships.Query.{check_is_blocked}
use learn_nest_js.Conversations.Access.{get_or_throw, ensure_member}
use learn_nest_js.Conversations.State.{check_message}
use learn_nest_js.Messages.Reaction.{
  check_reaction, update_message, write_reaction, update_or_insert_reaction, remove_reaction,
}
use learn_nest_js.Messages.Reacting.{
  Refines, with_reaction, without_reaction, update_or_insert_reaction-Refines,
  remove_reaction-Refines,
}

opened : Unit {0}
unfolding check_is_blocked get_or_throw ensure_member check_message check_reaction update_message
    write_reaction update_or_insert_reaction remove_reaction
opened = tt

abbrev chat : Conversation
chat = record {
  id = 2;
  name = none;
  is_group = false;
  users = 0 ∷ 1 ∷ [];
  accepted_by = 0 ∷ 1 ∷ [];
  admin_group_id = none;
  last_message_id = none;
  pin_message_id = none;
  hidden_history = [];
  read_receipts = [];
}

abbrev hello : MessageDoc
hello = record {
  id = 3;
  conversation_id = 2;
  sender_id = 0;
  kind = MessageKind.text;
  content = some "hello";
  media_id = none;
  call_id = none;
  reply_to = none;
  is_deleted = false;
  deleted_at = none;
  reactions = record { user = 1; kind = ReactionKind.like } ∷ [];
}

abbrev start : World
start = record empty_world {
  users = sample_user 0 ∷ sample_user 1 ∷ [];
  conversations = chat ∷ [];
  messages = hello ∷ [];
}

abbrev loved : MessageDoc
loved = record hello { reactions = record { user = 1; kind = ReactionKind.love } ∷ [] }

-- A second reaction of a user takes the place of the first.
replaced :
    (update_or_insert_reaction list_platform "aa" "aaaa" "aaa" ReactionKind.love start).1.messages
    ≡ loved ∷ []
unfolding opened
replaced = refl

update_or_insert_reaction-Refines_example :
    (user : ℕ) × (message : MessageDoc) × (list_platform.parse_object_id "aa" ≡ some user)
    × (list_platform.parse_object_id "aaaa" ≡ some message.id)
    × (message.is_deleted ≡ false)
    × Refines
        (with_reaction user ReactionKind.love)
        message
        start.messages
        (update_or_insert_reaction list_platform "aa" "aaaa" "aaa" ReactionKind.love
          start).1.messages
unfolding opened
update_or_insert_reaction-Refines_example =
    update_or_insert_reaction-Refines list_platform "aa" "aaaa" "aaa" ReactionKind.love start
      {answer = loved} (λ i. ground arith) refl

taken_back :
    (user : ℕ) × (message : MessageDoc) × (list_platform.parse_object_id "aa" ≡ some user)
    × (list_platform.parse_object_id "aaaa" ≡ some message.id)
    × (message.is_deleted ≡ false)
    × Refines
        (without_reaction user)
        message
        start.messages
        (remove_reaction list_platform "aa" "aaaa" "aaa" start).1.messages
unfolding opened
taken_back =
    remove_reaction-Refines list_platform "aa" "aaaa" "aaa" start
      {answer = record hello { reactions = [] }} (λ i. ground arith) refl
