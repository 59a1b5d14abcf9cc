-- ===== src/Schemas.antt =====
-- The documents of the collections (modules/*/schemas/*.schema.ts) and the enumerations of
-- modules/*/types. An ObjectId is a number, ordered as its 24 hex digits are; a Date is its
-- milliseconds. Fields that no modelled operation reads or writes are left out.
use learn_nest_js.Shared.{ℕ, String, Bool, Option, List}

pub data UserRole : Type 0 where
  user admin super_admin : UserRole

pub record User : Type 0 where
  pub id : ℕ
  pub name : Option String
  pub email : String
  pub password : String
  pub phone : Option String
  pub has_password : Bool
  pub bio : Option String
  pub avatar : Option ℕ
  pub role : UserRole
  pub is_active : Bool
  pub is_disabled : Bool
  pub token_version : ℕ
  pub ban_until : Option ℕ
  pub mute_until : Option ℕ

pub data RelationshipStatus : Type 0 where
  pending accepted blocked : RelationshipStatus

pub record Relationship : Type 0 where
  pub id : ℕ
  pub requester : ℕ
  pub recipient : ℕ
  pub status : RelationshipStatus
  pub blocked_by : Option ℕ

pub record HiddenEntry : Type 0 where
  pub user_id : ℕ
  pub is_hidden : Bool
  pub hidden_at : ℕ

-- `read_receipts` maps the text of a user's id to a message.
pub record Conversation : Type 0 where
  pub id : ℕ
  pub name : Option String
  pub is_group : Bool
  pub users : List ℕ
  pub accepted_by : List ℕ
  pub admin_group_id : Option ℕ
  pub last_message_id : Option ℕ
  pub pin_message_id : Option ℕ
  pub hidden_history : List HiddenEntry
  pub read_receipts : List (String × ℕ)

pub data MessageKind : Type 0 where
  text image video file voice system call_audio call_video : MessageKind

pub data ReactionKind : Type 0 where
  like love haha wow sad angry : ReactionKind

pub record Reaction : Type 0 where
  pub user : ℕ
  pub kind : ReactionKind

pub record MessageDoc : Type 0 where
  pub id : ℕ
  pub conversation_id : ℕ
  pub sender_id : ℕ
  pub kind : MessageKind
  pub content : Option String
  pub media_id : Option ℕ
  pub call_id : Option ℕ
  pub reply_to : Option ℕ
  pub is_deleted : Bool
  pub deleted_at : Option ℕ
  pub reactions : List Reaction

pub data CallType : Type 0 where
  audio video : CallType

pub data CallStatus : Type 0 where
  calling accepted rejected ended missed : CallStatus

pub data CallEndReason : Type 0 where
  user_hangup callee_reject timeout network_lost error : CallEndReason

pub record Call : Type 0 where
  pub id : ℕ
  pub caller_id : ℕ
  pub callee_id : ℕ
  pub conversation_id : ℕ
  pub call_type : CallType
  pub status : CallStatus
  pub started_at : Option ℕ
  pub ended_at : Option ℕ
  pub duration : ℕ
  pub end_reason : Option CallEndReason
  pub created_at : ℕ

pub record Session : Type 0 where
  pub id : ℕ
  pub user_id : ℕ
  pub device_id : String
  pub refresh_token_hash : Option String
  pub expires_at : Option ℕ
  pub last_used_at : Option ℕ
  pub is_revoked : Bool
  pub revoked_at : Option ℕ

pub data ReportReason : Type 0 where
  spam_harassment inappropriate_content impersonation system_spam other : ReportReason

pub data ReportStatus : Type 0 where
  pending resolving resolved dismissed : ReportStatus
  appeal_pending appeal_rejected appeal_success : ReportStatus

pub data PenaltyAction : Type 0 where
  warning mute reset_and_warning reset_and_ban ban : PenaltyAction

pub data PenaltyType : Type 0 where
  warning mute ban : PenaltyType

-- What a user was when the report was made; of the texts only the name and the biography.
pub record ReportSnapshot : Type 0 where
  pub avatar_media_id : Option ℕ
  pub display_name : Option String
  pub bio : Option String
  pub role : UserRole

-- The notes and descriptions are left out.
pub record Report : Type 0 where
  pub id : ℕ
  pub reporter_id : ℕ
  pub target_user_id : ℕ
  pub reason : ReportReason
  pub evidence_media_ids : List ℕ
  pub snapshot : Option ReportSnapshot
  pub status : ReportStatus
  pub resolved_by : Option ℕ
  pub resolved_at : Option ℕ
  pub appeal_deadline : Option ℕ
  pub appeal_review_deadline : Option ℕ
  pub appeal_evidence_media_ids : List ℕ
  pub penalty_type : Option PenaltyType
  pub created_at : ℕ

pub data CleanupJobStatus : Type 0 where
  pending retry done failed ignored : CleanupJobStatus

pub data CleanupJobAction : Type 0 where
  cloudinary_delete_one cloudinary_delete_many r2_delete_one r2_delete_many : CleanupJobAction
  redis_remove_unseen_one redis_remove_unseen_many : CleanupJobAction
  session_revoke session_revoke_all : CleanupJobAction

pub data CleanupJobLockedBy : Type 0 where
  admin worker : CleanupJobLockedBy

-- A list that is absent and an empty list are told apart nowhere, so lists have no `Option`.
pub record CleanupJobPayload : Type 0 where
  pub user_id : Option String
  pub user_ids : List String
  pub conversation_id : Option String
  pub session_id : Option String
  pub public_id : Option String
  pub public_ids : List String
  pub delivery_type : Option String
  pub object_key : Option String
  pub object_keys : List String

pub record CleanupJob : Type 0 where
  pub id : ℕ
  pub status : CleanupJobStatus
  pub action : CleanupJobAction
  pub entity_id : Option ℕ
  pub payload : CleanupJobPayload
  pub next_retry_at : Option ℕ
  pub retry_count : ℕ
  pub max_retries : ℕ
  pub last_tried_at : Option ℕ
  pub resolved_at : Option ℕ
  pub locked_at : Option ℕ
  pub locked_by : Option CleanupJobLockedBy
  pub locked_until : Option ℕ
