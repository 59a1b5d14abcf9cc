-- ===== src/CleanupJobs/Dispatcher.antt =====
-- cleanup-job-dispatcher.service.ts: the side effect that a job stands for. The deletions of
-- files at Cloudinary and R2 are given as an interface.
use learn_nest_js.Shared.{
  ℕ, String, Bool, true, false, ◌||◌, not, leb, ltb, Option, none, some, List, [], ◌∷◌, ◌≡◌, ◌≤◌,
  any, if◌then◌else◌, str_eq,
}
use learn_nest_js.Shared.Errors.{
  Exception, bad_request, of_cleanup_job, CleanupJobMessage, driver_error,
}
use learn_nest_js.Shared.Action.{ok, err, raise_if, raise, gets, pure, ◌>>=◌, ◌>>◌}
use learn_nest_js.Shared.Platform.{Platform}
use learn_nest_js.Schemas.{
  CleanupJob, CleanupJobPayload, Session, cloudinary_delete_one, cloudinary_delete_many,
  r2_delete_one, r2_delete_many, redis_remove_unseen_one, redis_remove_unseen_many, session_revoke,
  session_revoke_all,
}
use learn_nest_js.World.{World, Action}
use learn_nest_js.Sessions.Service.{find_by_id, find_by_user, revoke, revoke_all}
use learn_nest_js.CleanupJobs.Create.{is_empty}

-- The methods of MediaService that delete files. They take time, and write no job and no session.
pub record Media : Type 0 where
  pub delete_from_cloudinary : (public_ids : List String) (kind : Option String) → Action (Unit {0})
  pub delete_from_r2 : (object_keys : List String) → Action (Unit {0})
  pub delete_from_cloudinary_keeps :
      (ids : List String) (kind : Option String) (w : World)
      → ((delete_from_cloudinary ids kind w).1.cleanup_jobs ≡ w.cleanup_jobs)
        × ((delete_from_cloudinary ids kind w).1.sessions ≡ w.sessions)
        × (w.now ≤ (delete_from_cloudinary ids kind w).1.now)
  pub delete_from_r2_keeps :
      (keys : List String) (w : World)
      → ((delete_from_r2 keys w).1.cleanup_jobs ≡ w.cleanup_jobs)
        × ((delete_from_r2 keys w).1.sessions ≡ w.sessions)
        × (w.now ≤ (delete_from_r2 keys w).1.now)

abbrev pub invalid : CleanupJobMessage → Exception
invalid message = bad_request (of_cleanup_job message)

-- `if (!value) throw …`, with the value.
abbrev pub required : Option String → CleanupJobMessage → Action String
required none message = raise (invalid message)
required (some text) message = if str_eq text "" then raise (invalid message) else pure text

-- `session.expiresAt && session.expiresAt.getTime() <= Date.now()`
abbrev pub has_expired : Option ℕ → ℕ → Bool
has_expired none now = false
has_expired (some at) now = leb at now

abbrev pub is_live : Option ℕ → ℕ → Bool
is_live none now = false
is_live (some at) now = ltb now at

module _ (m : Platform) where
  -- `removeUnseenConversation` (redis/redis.service.ts). The set `unseen:conversations:<user>` is
  -- named by its user here.
  unfoldable pub remove_unseen : String → String → Action (Unit {0})
  remove_unseen user_id conversation_id w = elim (m.redis_srem user_id conversation_id w.unseen) [
    | none ↦ (err (driver_error 0), w)
    | some sets ↦ (ok tt, record w { unseen = sets })
  ]

  -- `removeAllUnseenConversation`: the commands of one pipeline, and whether one of them failed.
  unfoldable pub remove_all_unseen : List String → String → World → Bool × World
  remove_all_unseen [] conversation_id w = (true, w)
  remove_all_unseen (user_id ∷ rest) conversation_id w =
      let (done, w') = remove_all_unseen rest conversation_id w in
      elim (m.redis_srem user_id conversation_id w'.unseen) [
        | none ↦ (false, w')
        | some sets ↦ (done, record w' { unseen = sets })
      ]

  -- The test of `handleSessionRevoke` on the session that it finds: nothing is left to revoke.
  abbrev pub nothing_to_revoke : Option Session → String → ℕ → Bool
  nothing_to_revoke none user_id now = true
  nothing_to_revoke (some s) user_id now =
      not (str_eq (m.object_id_text s.user_id) user_id)
      || s.is_revoked
      || has_expired s.expires_at now

  -- `handleSessionRevoke`
  unfoldable pub handle_session_revoke : CleanupJobPayload → Action (Unit {0})
  handle_session_revoke payload = do
    user_id ← required payload.user_id CleanupJobMessage.invalid_payload_user_id
    session_id ← required payload.session_id CleanupJobMessage.invalid_payload_session_id
    found ← find_by_id m session_id
    now ← gets (λ w. w.now)
    if nothing_to_revoke found user_id now then pure tt else revoke m session_id user_id

  -- `handleSessionRevokeAll`
  unfoldable pub handle_session_revoke_all : CleanupJobPayload → Action (Unit {0})
  handle_session_revoke_all payload = do
    user_id ← required payload.user_id CleanupJobMessage.invalid_payload_user_id
    sessions ← find_by_user m user_id
    now ← gets (λ w. w.now)
    if any (λ (s : Session). is_live s.expires_at now) sessions
        then revoke_all m user_id
        else pure tt

  -- `handleRedisRemoveUnseenMany`
  unfoldable pub handle_redis_remove_unseen_many : CleanupJobPayload → Action (Unit {0})
  handle_redis_remove_unseen_many payload = do
    raise_if (is_empty payload.user_ids) (invalid CleanupJobMessage.invalid_payload_user_ids)
    conversation_id ←
        required payload.conversation_id CleanupJobMessage.invalid_payload_conversation_id
    λ w.
        let (done, w') = remove_all_unseen payload.user_ids conversation_id w in
        raise_if (not done) (invalid CleanupJobMessage.failed_to_remove_unseens_from_redis) w'

  module _ (media : Media) where
    open media use {delete_from_cloudinary, delete_from_r2}

    -- `dispatch`, with the handlers of single files and of one unseen flag.
    unfoldable pub dispatch : CleanupJob → Action (Unit {0})
    dispatch job = elim job.action [
      | cloudinary_delete_one ↦ do
        id ← required job.payload.public_id CleanupJobMessage.invalid_payload_public_id
        delete_from_cloudinary (id ∷ []) job.payload.delivery_type
      | cloudinary_delete_many ↦ do
        raise_if (is_empty job.payload.public_ids)
            (invalid CleanupJobMessage.invalid_payload_public_ids)
        delete_from_cloudinary job.payload.public_ids job.payload.delivery_type
      | r2_delete_one ↦ do
        key ← required job.payload.object_key CleanupJobMessage.invalid_payload_object_key
        delete_from_r2 (key ∷ [])
      | r2_delete_many ↦ do
        raise_if (is_empty job.payload.object_keys)
            (invalid CleanupJobMessage.invalid_payload_object_keys)
        delete_from_r2 job.payload.object_keys
      | redis_remove_unseen_one ↦ do
        user_id ← required job.payload.user_id CleanupJobMessage.invalid_payload_user_id
        conversation_id ←
            required job.payload.conversation_id CleanupJobMessage.invalid_payload_conversation_id
        remove_unseen user_id conversation_id
      | redis_remove_unseen_many ↦ handle_redis_remove_unseen_many job.payload
      | session_revoke ↦ handle_session_revoke job.payload
      | session_revoke_all ↦ handle_session_revoke_all job.payload
    ]
