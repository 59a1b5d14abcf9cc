-- ===== src/CleanupJobs/Create.antt =====
-- The retry schedules (constants/cleanup-job.constant.ts), the rules on payloads
-- (schemas/cleanup-job.schema.ts), and `createCleanupJob` (cleanup-job-command.service.ts).
use learn_nest_js.Shared.{
  ℕ, zero, suc, String, Bool, true, false, ◌&&◌, not, str_eq, Option, none, some, List, [], ◌∷◌,
  length, if◌then◌else◌,
}
use learn_nest_js.Shared.Errors.{validation_error}
use learn_nest_js.Shared.Action.{ok, raise_if, pure, try_catch, ◌>>=◌, ◌>>◌}
use learn_nest_js.Shared.Platform.{Platform}
use learn_nest_js.Schemas.{
  CleanupJob, CleanupJobAction, CleanupJobPayload, CleanupJobStatus, cloudinary_delete_one,
  cloudinary_delete_many, r2_delete_one, r2_delete_many, redis_remove_unseen_one,
  redis_remove_unseen_many, session_revoke, session_revoke_all,
}
use learn_nest_js.World.{Action, to_object_id}

-- `Array(n).fill(a)`
abbrev pub replicate : ℕ → ℕ → List ℕ
replicate zero a = []
replicate (suc n) a = a ∷ replicate n a

abbrev pub media_retry_delays : List ℕ
media_retry_delays = 30 ∷ 60 ∷ 240 ∷ 720 ∷ 1440 ∷ 2880 ∷ 4320 ∷ 5760 ∷ 10080 ∷ []

abbrev pub redis_retry_delays : List ℕ
redis_retry_delays = 20 ∷ 30 ∷ 40 ∷ 50 ∷ 60 ∷ 70 ∷ 80 ∷ 90 ∷ 100 ∷ []

unfoldable pub session_retry_delays : List ℕ
session_retry_delays = replicate 1008 10

-- CLEANUP_RETRY_DELAYS_MINUTES
unfoldable pub retry_delays : CleanupJobAction → List ℕ
retry_delays cloudinary_delete_one = media_retry_delays
retry_delays cloudinary_delete_many = media_retry_delays
retry_delays r2_delete_one = media_retry_delays
retry_delays r2_delete_many = media_retry_delays
retry_delays redis_remove_unseen_one = redis_retry_delays
retry_delays redis_remove_unseen_many = redis_retry_delays
retry_delays session_revoke = session_retry_delays
retry_delays session_revoke_all = session_retry_delays

-- CLEANUP_MAX_RETRIES
unfoldable pub max_retries : CleanupJobAction → ℕ
max_retries cloudinary_delete_one = length media_retry_delays
max_retries cloudinary_delete_many = length media_retry_delays
max_retries r2_delete_one = length media_retry_delays
max_retries r2_delete_many = length media_retry_delays
max_retries redis_remove_unseen_one = length redis_retry_delays
max_retries redis_remove_unseen_many = length redis_retry_delays
max_retries session_revoke = length session_retry_delays
max_retries session_revoke_all = length session_retry_delays

-- `!value` on a text, and `!values || values.length === 0` on a list.
abbrev pub is_falsy : Option String → Bool
is_falsy none = true
is_falsy (some text) = str_eq text ""

abbrev pub is_empty : List String → Bool
is_empty [] = true
is_empty (x ∷ xs) = false

-- `actionPayloadRules` with `isMissingPayloadValue`: no required key is missing.
unfoldable pub is_complete : CleanupJobAction → CleanupJobPayload → Bool
is_complete cloudinary_delete_one p = not (is_falsy p.public_id) && not (is_falsy p.delivery_type)
is_complete cloudinary_delete_many p = not (is_empty p.public_ids) && not (is_falsy p.delivery_type)
is_complete r2_delete_one p = not (is_falsy p.object_key)
is_complete r2_delete_many p = not (is_empty p.object_keys)
is_complete redis_remove_unseen_one p = not (is_falsy p.user_id) && not (is_falsy p.conversation_id)
is_complete redis_remove_unseen_many p =
    not (is_empty p.user_ids) && not (is_falsy p.conversation_id)
is_complete session_revoke p = not (is_falsy p.user_id) && not (is_falsy p.session_id)
is_complete session_revoke_all p = not (is_falsy p.user_id)

abbrev pub empty_payload : CleanupJobPayload
empty_payload = record {
  user_id = none;
  user_ids = [];
  conversation_id = none;
  session_id = none;
  public_id = none;
  public_ids = [];
  delivery_type = none;
  object_key = none;
  object_keys = [];
}

module _ (m : Platform) where
  -- `createDto.entityId ? toObjectId(createDto.entityId, 'entityId') : undefined`
  abbrev pub entity : Option String → Action (Option ℕ)
  entity none = pure none
  entity (some text) =
      if str_eq text "" then pure none else (to_object_id m text "entityId" >>= λ i. pure (some i))

  abbrev pub new_job : CleanupJobAction → Option ℕ → CleanupJobPayload → ℕ → CleanupJob
  new_job action entity_id payload id = record {
    id = id;
    status = CleanupJobStatus.pending;
    action = action;
    entity_id = entity_id;
    payload = payload;
    next_retry_at = none;
    retry_count = 0;
    max_retries = max_retries action;
    last_tried_at = none;
    resolved_at = none;
    locked_at = none;
    locked_by = none;
    locked_until = none;
  }

  -- The document is stored, and its job is put into the queue.
  unfoldable pub insert_job : CleanupJobAction → Option ℕ → CleanupJobPayload → Action CleanupJob
  insert_job action entity_id payload w =
      let job = new_job action entity_id payload (m.new_object_id w.created) in
      (
        ok job,
        record w {
          cleanup_jobs = m.insert job w.cleanup_jobs;
          created = suc w.created;
          queue = record { cleanup_job_id = job.id; retry_at = none; delay = 0 } ∷ w.queue;
        },
      )

  -- `createCleanupJob`
  unfoldable pub create_cleanup_job :
      CleanupJobAction → Option String → CleanupJobPayload → Action CleanupJob
  create_cleanup_job action entity_id payload = do
    entity_id' ← entity entity_id
    raise_if (not (is_complete action payload)) validation_error
    insert_job action entity_id' payload

  -- The private `createCleanupJob` of the services: an error is only logged.
  unfoldable pub try_cleanup_job :
      CleanupJobAction → Option String → CleanupJobPayload → Action (Unit {0})
  try_cleanup_job action entity_id payload =
      try_catch (create_cleanup_job action entity_id payload >> pure tt) (λ _. pure tt)
