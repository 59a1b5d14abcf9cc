-- ===== src/CleanupJobs/Keeping.antt =====
-- The side effects of a job write no job.
use learn_nest_js.Shared.{◌≡◌, refl, arith, String, List, [], ◌∷◌}
use learn_nest_js.Shared.Platform.{Platform}
use learn_nest_js.Schemas.{CleanupJob, CleanupJobPayload}
use learn_nest_js.World.{World}
use learn_nest_js.Sessions.Service.{find_by_id, find_by_user, revoke, revoke_all}
use learn_nest_js.CleanupJobs.Dispatcher.{
  Media, dispatch, remove_unseen, remove_all_unseen, handle_session_revoke,
  handle_session_revoke_all, handle_redis_remove_unseen_many,
}

module _ (m : Platform) where
  remove_all_unseen_keeps :
      (users : List String) (c : String) (w : World)
      → (remove_all_unseen m users c w).1.cleanup_jobs ≡ w.cleanup_jobs
  unfolding remove_all_unseen
  remove_all_unseen_keeps [] c w = refl
  remove_all_unseen_keeps (u ∷ us) c w = ground (arith, remove_all_unseen_keeps us c w)

  handle_session_revoke_keeps :
      (p : CleanupJobPayload) (w : World)
      → (handle_session_revoke m p w).1.cleanup_jobs ≡ w.cleanup_jobs
  unfolding handle_session_revoke find_by_id revoke
  handle_session_revoke_keeps p w = ground arith

  handle_session_revoke_all_keeps :
      (p : CleanupJobPayload) (w : World)
      → (handle_session_revoke_all m p w).1.cleanup_jobs ≡ w.cleanup_jobs
  unfolding handle_session_revoke_all find_by_user revoke_all
  handle_session_revoke_all_keeps p w = ground arith

  handle_many_keeps :
      (p : CleanupJobPayload) (w : World)
      → (handle_redis_remove_unseen_many m p w).1.cleanup_jobs ≡ w.cleanup_jobs
  unfolding handle_redis_remove_unseen_many
  handle_many_keeps p w = grind (arith, remove_all_unseen_keeps)

  pub dispatch_keeps :
      (media : Media) (job : CleanupJob) (w : World)
      → (dispatch m media job w).1.cleanup_jobs ≡ w.cleanup_jobs
  unfolding dispatch remove_unseen
  dispatch_keeps media job w = grind (
    arith,
    media.delete_from_cloudinary_keeps,
    media.delete_from_r2_keeps,
    handle_session_revoke_keeps job.payload w,
    handle_session_revoke_all_keeps job.payload w,
    handle_many_keeps job.payload w,
  )
