-- ===== src/World.antt =====
-- What the services share: the collections, Redis' sets and keys, the queue of cleanup jobs, the events
-- given to the realtime layer, and the clock. A method of a service is an `Action` on it.
use learn_nest_js.Shared.{ℕ, String, Bool, false, Option, none, some, List, ltb}
use learn_nest_js.Shared.Errors.{bad_request, invalid_field}
use learn_nest_js.Shared.Action.{Result, or_raise}
use learn_nest_js.Shared.Platform.{Platform}
use learn_nest_js.Shared.Redis.{RedisEntry}
use learn_nest_js.Schemas.{
  User, Relationship, Conversation, MessageDoc, Call, Report, ReportStatus, Session, CleanupJob,
}

-- A job of the queue `cleanup-queue-name`: it names a cleanup job, and the time of the retry
-- that it stands for; `delay` is in milliseconds.
pub record QueuedJob : Type 0 where
  pub cleanup_job_id : ℕ
  pub retry_at : Option ℕ
  pub delay : ℕ

-- The subjects of conversation-event.service.ts, and the events of EventEmitter2 that the services
-- emit; those for the audit log are left out.
pub data Event : Type 0 where
  name_changed : (conversation : String) (name : String) → Event
  member_added : (conversation : String) (added : List ℕ) (adder : String) → Event
  member_removed : (conversation : String) (removed : String) (remover : String) → Event
  admin_changed : (conversation : String) (new_admin : String) → Event
  user_banned user_muted : (user : String) (until : ℕ) → Event
  user_unmuted : (user : String) → Event
  report_notified : (user : String) (report : String) (status : ReportStatus) → Event
  login_notified : (user : String) (device : String) → Event
  session_revoked : (user : String) (session : String) → Event
  all_sessions_revoked : (user : String) → Event
  message_unpinned : (conversation : String) (message : String) → Event
  message_updated : (message : ℕ) → Event

-- `now` is the clock; `created` counts the ids that the driver has given out; `sessions_down`
-- tells that writes to the sessions fail.
pub record World : Type 0 where
  pub users : List User
  pub relationships : List Relationship
  pub conversations : List Conversation
  pub messages : List MessageDoc
  pub calls : List Call
  pub reports : List Report
  pub sessions : List Session
  pub cleanup_jobs : List CleanupJob
  pub unseen : List (String × String)
  pub keys : List RedisEntry
  pub queue : List QueuedJob
  pub events : List Event
  pub sessions_down : Bool
  pub now : ℕ
  pub created : ℕ

abbrev pub Action : Type 0 → Type 0
Action A = World → Result A × World

-- `date && date > now`
abbrev pub is_later : Option ℕ → ℕ → Bool
is_later none now = false
is_later (some date) now = ltb now date

module _ (m : Platform) where
  -- `toObjectId` (utils/utils.ts), and `validateObjectId`, which throws the same.
  abbrev pub to_object_id : String → String → Action ℕ
  to_object_id text field = or_raise (m.parse_object_id text) (bad_request (invalid_field field))
