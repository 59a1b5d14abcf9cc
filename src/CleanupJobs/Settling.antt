-- ===== src/CleanupJobs/Settling.antt =====
-- No operation changes a job that is done, failed or ignored.
use learn_nest_js.Shared.{◌≡◌, arith, String, true, inl, inr}
use learn_nest_js.Shared.Action.{Result-cases}
use learn_nest_js.Shared.Platform.{Platform}
use learn_nest_js.Shared.Documents.{Each, Each-trans}
use learn_nest_js.Schemas.{CleanupJob, CleanupJobLockedBy}
use learn_nest_js.World.{World}
use learn_nest_js.CleanupJobs.Command.{
  is_open, completed, get_and_lock, handle_completed, not_updated,
}
use learn_nest_js.CleanupJobs.Dispatcher.{Media, dispatch}
use learn_nest_js.CleanupJobs.Keeping.{dispatch_keeps}
use learn_nest_js.CleanupJobs.Locking.{
  Settled, Settled-trans, outcome-Settled, after_error-Settled, get_and_lock-Settled,
  get_and_lock_open,
}
use learn_nest_js.CleanupJobs.Process.{after_error, attempt, process_cleanup_job}

module _ (m : Platform) where
  completed-Settled :
      (j : CleanupJob) (v : World)
      → is_open j.status ≡ true
      → Each Settled v.cleanup_jobs (handle_completed m j v).1.cleanup_jobs
  unfolding handle_completed
  completed-Settled j v k = outcome-Settled m j completed not_updated v k

  module _ (media : Media) where
    attempt-Settled :
        (job : CleanupJob) (w : World)
        → is_open job.status ≡ true
        → Each Settled w.cleanup_jobs (attempt m media job w).1.cleanup_jobs
    unfolding attempt
    attempt-Settled job w h =
        let kept = dispatch_keeps m media job w in
        let w' = (dispatch m media job w).1 in
        elim (Result-cases (dispatch m media job w).0) [
          | inl (x, failed) ↦
              let done = rw kept at (after_error-Settled m media job w' h) in
              ground (arith, done, failed)
          | inr (_, done) ↦ elim (Result-cases (handle_completed m job w').0) [
            | inl (x, late) ↦
                let both =
                  Each-trans Settled Settled-trans w.cleanup_jobs
                    (handle_completed m job w').1.cleanup_jobs
                    (after_error m media job (handle_completed m job w').1).1.cleanup_jobs
                    (rw kept at (completed-Settled job w' h))
                    (after_error-Settled m media job (handle_completed m job w').1 h) in
                ground (arith, both, done, late)
            | inr (b, settled) ↦
                let all = rw kept at (completed-Settled job w' h) in
                ground (arith, all, done, settled)
          ]
        ]

    -- Whatever fails, processing a job changes no job that is done, failed or ignored already.
    pub process_cleanup_job-Settled :
        (id : String) (by : CleanupJobLockedBy) (w : World)
        → Each Settled w.cleanup_jobs (process_cleanup_job m media id by w).1.cleanup_jobs
    unfolding process_cleanup_job
    process_cleanup_job-Settled id by w =
        let locking = get_and_lock-Settled m id by w in
        let w' = (get_and_lock m id by w).1 in
        elim (Result-cases (get_and_lock m id by w).0) [
          | inl (x, refused) ↦ ground (arith, locking, refused)
          | inr (job, taken) ↦
              let both =
                Each-trans Settled Settled-trans w.cleanup_jobs w'.cleanup_jobs
                  (attempt m media job w').1.cleanup_jobs locking
                  (attempt-Settled job w' (get_and_lock_open m id by w taken)) in
              ground (arith, both, taken)
        ]
