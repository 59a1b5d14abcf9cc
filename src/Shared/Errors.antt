-- ===== src/Shared/Errors.antt =====
-- The exceptions of the services and the messages that they carry, one type for each constants
-- file (modules/*/constants/*.constant.ts).
use Prim.Native.Nat.{ℕ}
use mathlib.Core.Bool.{Bool}
use Prim.Native.String.{String}

pub data RelationshipMessage : Type 0 where
  relationship_not_found update_failed friend_request_already_sent : RelationshipMessage
  create_failed already_blocked cannot_block block_failed unblock_failed : RelationshipMessage
  already_accepted relationship_already_blocked cannot_be_same_user : RelationshipMessage
  user_not_found requester_not_active requester_disabled : RelationshipMessage
  recipient_not_active recipient_disabled : RelationshipMessage

pub data CallMessage : Type 0 where
  call_not_found call_forbidden user_not_allowed already_ended : CallMessage
  call_not_support_group call_busy call_rate_limited : CallMessage

pub data ConversationMessage : Type 0 where
  conversation_not_found not_a_group not_group_admin user_not_in_conversation : ConversationMessage
  user_not_accepted_conversation users_not_exist group_max_members_exceeded : ConversationMessage
  cannot_remove_admin change_admin_failed current_user_is_already_admin : ConversationMessage
  not_a_member already_hidden delete_failed cannot_block_in_group : ConversationMessage
  user_not_found cannot_read_older name_required : ConversationMessage
  name_not_changed direct_must_be_2_users group_name_required : ConversationMessage
  group_min_3_users : ConversationMessage

pub data CleanupJobMessage : Type 0 where
  failed_to_create_cleanup_job job_not_found_or_locked failed_to_update_job : CleanupJobMessage
  invalid_payload_public_id invalid_payload_public_ids : CleanupJobMessage
  invalid_payload_object_key invalid_payload_object_keys : CleanupJobMessage
  invalid_payload_user_id invalid_payload_user_ids : CleanupJobMessage
  invalid_payload_conversation_id invalid_payload_session_id : CleanupJobMessage
  failed_to_remove_unseens_from_redis : CleanupJobMessage

pub data UserMessage : Type 0 where
  user_not_found user_not_active user_disabled user_banned : UserMessage
  can_not_change_me password_not_set password_already_set : UserMessage
  invalid_password password_not_match invalid_code code_expired : UserMessage

pub data ReportMessage : Type 0 where
  target_user_not_found cannot_penalize_super_admin cannot_penalize_user : ReportMessage
  cannot_penalize_self cannot_reduce_penalty cannot_report_self : ReportMessage
  too_many_reports report_not_found admin_not_found missing_permission : ReportMessage
  invalid_password report_invalid_status appeal_deadline_expired : ReportMessage
  report_already_resolved report_is_being_processed user_not_found : ReportMessage

pub data AuthMessage : Type 0 where
  appeal_token_invalid refresh_token_not_found user_not_found user_disabled : AuthMessage
  invalid_token session_not_found session_revoked session_expired : AuthMessage
  invalid_refresh_token expired_refresh_token logout_all_failed : AuthMessage
  login_failed missing_permission invalid_credentials : AuthMessage

pub data MessageMessage : Type 0 where
  message_not_found already_deleted call_message_action_not_allowed : MessageMessage
  cannot_react_blocked_user message_not_updated pin_message_not_pinned : MessageMessage
  cannot_delete_user_hidden not_message_owner message_action_not_allowed : MessageMessage
  message_content_required cannot_send_message_to_blocked_user : MessageMessage
  reply_deleted cannot_reply_blocked_user : MessageMessage

-- `invalid_field` is GLOBAL_MESSAGES.INVALID_FIELD; `account_banned_until` is
-- AUTH_MESSAGES.ACCOUNT_BANNED_UNTIL and `user_muted_until` is MESSAGE_MESSAGES.USER_MUTED, with the
-- date that they format; `login_too_many_attempts` is AUTH_MESSAGES.LOGIN_TOO_MANY_ATTEMPTS, of minutes, and
-- `please_wait_cooldown` USER_MESSAGES.PLEASE_WAIT_COOLDOWN, of seconds.
pub data Message : Type 0 where
  invalid_field : String → Message
  account_banned_until : ℕ → Message
  of_relationship : RelationshipMessage → Message
  of_call : CallMessage → Message
  of_conversation : ConversationMessage → Message
  of_cleanup_job : CleanupJobMessage → Message
  of_user : UserMessage → Message
  of_message : MessageMessage → Message
  of_report : ReportMessage → Message
  of_auth : AuthMessage → Message
  user_muted_until login_too_many_attempts please_wait_cooldown : ℕ → Message

-- `driver_error` is any error of a database driver, and 11000 the code of a duplicate key;
-- `validation_error` is mongoose's, for a document that its schema refuses;
-- `token_error` is that of a JSON web token, which has expired or is not valid.
pub data Exception : Type 0 where
  bad_request not_found forbidden internal_server_error unauthorized : Message → Exception
  too_many_requests : Message → Exception
  driver_error : (code : ℕ) → Exception
  validation_error : Exception
  token_error : (is_expired : Bool) → Exception
