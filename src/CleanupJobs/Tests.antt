-- ===== src/CleanupJobs/Tests.antt =====
-- Runs of the cleanup jobs on the list platform, and instances of the theorems.
use learn_nest_js.Shared.{
  ℕ, ◌+◌, ◌-◌, ◌≤◌, ◌<◌, ◌≡◌, ◌⊎◌, refl, arith, none, some, [], ◌∷◌, Memᴰ, map, get_elem?,
}
use learn_nest_js.Shared.Action.{ok, err, pure, raise}
use learn_nest_js.Shared.Errors.{driver_error}
use learn_nest_js.Shared.ListPlatform.{list_platform}
use learn_nest_js.Shared.Documents.{Each}
use learn_nest_js.Schemas.{CleanupJob, CleanupJobStatus, CleanupJobLockedBy, r2_delete_one}
use learn_nest_js.Samples.{empty_world}
use learn_nest_js.World.{World}
use learn_nest_js.CleanupJobs.Create.{empty_payload, new_job, retry_delays, max_retries}
use learn_nest_js.CleanupJobs.Command.{
  get_and_lock, update_job, handle_completed, handle_retry, handle_failed, locked, not_runnable,
}
use learn_nest_js.CleanupJobs.Dispatcher.{Media, dispatch}
use learn_nest_js.CleanupJobs.Process.{after_error, attempt, process_cleanup_job}
use learn_nest_js.CleanupJobs.Schedule.{schedule_total}
use learn_nest_js.CleanupJobs.Locking.{Settled, get_and_lock_excludes}
use learn_nest_js.CleanupJobs.Settling.{process_cleanup_job-Settled}
use learn_nest_js.Shared.Documents.{Replaces}
use learn_nest_js.CleanupJobs.Progress.{after_error_lem, WaitsFor, HasFailed}

opened : Unit {0}
unfolding max_retries retry_delays get_and_lock update_job handle_completed handle_retry
    handle_failed dispatch after_error attempt process_cleanup_job
opened = tt

abbrev a_job : CleanupJob
a_job =
    new_job list_platform r2_delete_one none (record empty_payload { object_key = some "file" }) 1

abbrev start : CleanupJob → World
start job = record empty_world { cleanup_jobs = job ∷ []; now = 1000; created = 2 }

-- A store that deletes, and one that is out of reach.
abbrev deletes : Media
deletes = record {
  delete_from_cloudinary = λ ids kind. pure tt;
  delete_from_r2 = λ keys. pure tt;
  delete_from_cloudinary_keeps = λ ids kind w. (refl, refl, omega arith);
  delete_from_r2_keeps = λ keys w. (refl, refl, omega arith);
}

abbrev fails : Media
fails = record {
  delete_from_cloudinary = λ ids kind. raise (driver_error 0);
  delete_from_r2 = λ keys. raise (driver_error 0);
  delete_from_cloudinary_keeps = λ ids kind w. (refl, refl, omega arith);
  delete_from_r2_keeps = λ keys w. (refl, refl, omega arith);
}

succeeds :
    map
      (λ (j : CleanupJob). j.status)
      (process_cleanup_job list_platform deletes "aa" CleanupJobLockedBy.worker
        (start a_job)).1.cleanup_jobs
    ≡ CleanupJobStatus.done ∷ []
unfolding opened
succeeds = refl

is_retried :
    map
      (λ (j : CleanupJob). j.next_retry_at)
      (process_cleanup_job list_platform fails "aa" CleanupJobLockedBy.worker
        (start a_job)).1.cleanup_jobs
    ≡ some 1801000 ∷ []
unfolding opened
is_retried = refl

abbrev locked_job : CleanupJob
locked_job = locked CleanupJobLockedBy.worker 1000 a_job

get_and_lock_excludes_example :
    get_and_lock list_platform "aa" CleanupJobLockedBy.admin
      (get_and_lock list_platform "aa" CleanupJobLockedBy.worker (start a_job)).1
    ≡ (
      err not_runnable,
      (get_and_lock list_platform "aa" CleanupJobLockedBy.worker (start a_job)).1,
    )
unfolding opened
get_and_lock_excludes_example =
    get_and_lock_excludes list_platform "aa" 1 CleanupJobLockedBy.worker CleanupJobLockedBy.admin
      (start a_job) (get_and_lock list_platform "aa" CleanupJobLockedBy.worker (start a_job)).1
      {job = locked_job} refl (λ i. ground arith) refl refl (omega arith)

process_cleanup_job-Settled_example :
    Each Settled
      (a_job ∷ [])
      (process_cleanup_job list_platform fails "aa" CleanupJobLockedBy.worker
        (start a_job)).1.cleanup_jobs
process_cleanup_job-Settled_example =
    process_cleanup_job-Settled list_platform fails "aa" CleanupJobLockedBy.worker (start a_job)

weeks_of_retries : (d : ℕ) × (get_elem? (retry_delays r2_delete_one) (9 - 1) ≡ some d) × (10 ≤ d)
unfolding opened
weeks_of_retries = schedule_total r2_delete_one 9 (omega arith) (omega arith)

after_error_lem_example :
    (c : CleanupJob) × (d : CleanupJob) × ((after_error list_platform fails locked_job
        (start locked_job)).0
      ≡ ok c)
    × (d.id ≡ locked_job.id)
    × (c.id ≡ locked_job.id)
    × Replaces d c
        (start locked_job).cleanup_jobs
        (after_error list_platform fails locked_job (start locked_job)).1.cleanup_jobs
    × (((0 < 9) × WaitsFor 1000 (0 + 1) c) ⊎ ((9 ≤ 0) × HasFailed 9 c))
unfolding max_retries
after_error_lem_example =
    after_error_lem list_platform fails locked_job (start locked_job) refl (Memᴰ.head refl) refl
