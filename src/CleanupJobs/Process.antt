-- ===== src/CleanupJobs/Process.antt =====
-- `processCleanupJob` (cleanup-jobs.service.ts) and the queue's worker
-- (processor/cleanup-jobs.processor.ts).
use learn_nest_js.Shared.{
  ℕ, ◌+◌, ◌-◌, String, Bool, ◌||◌, not, ltb, leb, none, some, ◌∷◌, length, if◌then◌else◌,
}
use learn_nest_js.Shared.Action.{pure, modify, try_catch, ◌>>=◌, ◌>>◌}
use learn_nest_js.Shared.Platform.{Platform}
use learn_nest_js.Schemas.{CleanupJob, CleanupJobStatus, CleanupJobLockedBy}
use learn_nest_js.World.{Action}
use learn_nest_js.CleanupJobs.Create.{retry_delays}
use learn_nest_js.CleanupJobs.Command.{get_and_lock, handle_completed, handle_failed, handle_retry}
use learn_nest_js.CleanupJobs.Dispatcher.{Media, dispatch}

-- The test of the `catch`: no retry is left for the count.
abbrev pub is_exhausted : CleanupJob → ℕ → Bool
is_exhausted job count =
    ltb job.max_retries count || not (leb count (length (retry_delays job.action)))

module _ (m : Platform) (media : Media) where
  -- The `catch` of `processCleanupJob`.
  unfoldable pub after_error : CleanupJob → Action CleanupJob
  after_error job =
      if is_exhausted job (job.retry_count + 1)
      then handle_failed m job job.max_retries
      else handle_retry m job (job.retry_count + 1)

  -- The `try`.
  unfoldable pub attempt : CleanupJob → Action CleanupJob
  attempt job = try_catch (dispatch m media job >> handle_completed m job) (λ _. after_error job)

  unfoldable pub process_cleanup_job : String → CleanupJobLockedBy → Action CleanupJob
  process_cleanup_job job_id by = do job ← get_and_lock m job_id by; attempt job

  -- What the worker puts back into the queue: a retry, at its time.
  abbrev pub enqueue_retry : CleanupJob → Action (Unit {0})
  enqueue_retry job = elim job.status [
    | CleanupJobStatus.retry ↦ elim job.next_retry_at [
      | none ↦ pure tt
      | some at ↦ modify (λ w. record w {
        queue =
            record { cleanup_job_id = job.id; retry_at = some at; delay = at - w.now } ∷ w.queue;
      })
    ]
    | _ ↦ pure tt
  ]

  -- `process`
  unfoldable pub process : String → Action CleanupJob
  process job_id = do
    job ← process_cleanup_job job_id CleanupJobLockedBy.worker
    enqueue_retry job
    pure job
