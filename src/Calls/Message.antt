-- ===== src/Calls/Message.antt =====
-- `createCallMessage` of call.service.ts: the one message that tells of a call that is over.
use learn_nest_js.Shared.{
  ℕ, suc, String, Bool, false, ◌==◌, ◌≡◌, some, [], none, any, if◌then◌else◌,
}
use learn_nest_js.Shared.Errors.{Exception, driver_error}
use learn_nest_js.Shared.Action.{ok, err, raise, pure, try_catch, with_transaction, ◌>>=◌, ◌>>◌}
use learn_nest_js.Shared.Platform.{Platform}
use learn_nest_js.Schemas.{Call, CallType, MessageDoc, MessageKind}
use learn_nest_js.World.{World, Action}
use learn_nest_js.Conversations.Access.{is_id}
use learn_nest_js.Conversations.State.{update_last_message_and_restore}

-- `getMessageById` and `emitCreatedMessageEvents` of MessagesService, one after the other: they
-- read a message and hand it to the realtime layer, and write nothing.
pub record Messages : Type 0 where
  pub announce : (message : String) → Action (Unit {0})
  pub announce_keeps :
      (message : String) (w : World)
      → ((announce message w).1.calls ≡ w.calls)
        × ((announce message w).1.messages ≡ w.messages)
        × ((announce message w).1.conversations ≡ w.conversations)

abbrev pub message_kind : CallType → MessageKind
message_kind CallType.audio = MessageKind.call_audio
message_kind CallType.video = MessageKind.call_video

-- `error.code === 11000`
abbrev pub is_duplicate_key : Exception → Bool
is_duplicate_key (driver_error code) = code == 11000
is_duplicate_key _ = false

abbrev pub is_about : ℕ → MessageDoc → Bool
is_about i d = is_id d.call_id i

module _ (m : Platform) where
  abbrev pub message_of : Call → ℕ → MessageDoc
  message_of call i = record {
    id = i;
    conversation_id = call.conversation_id;
    sender_id = call.caller_id;
    kind = message_kind call.call_type;
    content = none;
    media_id = none;
    call_id = some call.id;
    reply_to = none;
    is_deleted = false;
    deleted_at = none;
    reactions = [];
  }

  -- `messageModel.create`, under the unique index on `callId`.
  unfoldable pub insert_message : Call → Action ℕ
  insert_message call w =
      if any (is_about call.id) w.messages then (err (driver_error 11000), w) else (
        ok (m.new_object_id w.created),
        record w {
          messages = m.insert (message_of call (m.new_object_id w.created)) w.messages;
          created = suc w.created;
        },
      )

  -- The body of the transaction.
  unfoldable pub write_message : Call → Action ℕ
  write_message call = do
    i ← insert_message call
    update_last_message_and_restore m (m.object_id_text call.conversation_id) (m.object_id_text i)
        (m.object_id_text call.caller_id)
    pure i

  module _ (messages : Messages) where
    unfoldable pub create_call_message : Call → Action (Unit {0})
    create_call_message call =
        try_catch
          (with_transaction (write_message call) >>= λ i. messages.announce (m.object_id_text i))
          (λ e. if is_duplicate_key e then pure tt else raise e)
