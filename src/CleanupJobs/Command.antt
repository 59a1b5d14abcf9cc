-- ===== src/CleanupJobs/Command.antt =====
-- cleanup-job-command.service.ts: locking a job and recording the outcome of an attempt. Each
-- write is one atomic update under a filter.
use learn_nest_js.Shared.{
  ℕ, ◌+◌, ◌-◌, ◌*◌, String, Bool, true, false, ◌&&◌, ◌==◌, ltb, leb, Option, none, some, get_elem?,
}
use learn_nest_js.Shared.Errors.{
  Exception, bad_request, not_found, of_cleanup_job, CleanupJobMessage, validation_error,
}
use learn_nest_js.Shared.Action.{or_raise, modify, ◌>>=◌}
use learn_nest_js.Shared.Platform.{Platform}
use learn_nest_js.Schemas.{CleanupJob, CleanupJobStatus, CleanupJobLockedBy}
use learn_nest_js.World.{Action, to_object_id}
use learn_nest_js.CleanupJobs.Create.{retry_delays}

abbrev pub lock_duration_ms : ℕ
lock_duration_ms = 600000

abbrev pub is_open : CleanupJobStatus → Bool
is_open CleanupJobStatus.pending = true
is_open CleanupJobStatus.retry = true
is_open _ = false

abbrev pub same_status : CleanupJobStatus → CleanupJobStatus → Bool
same_status CleanupJobStatus.pending CleanupJobStatus.pending = true
same_status CleanupJobStatus.retry CleanupJobStatus.retry = true
same_status CleanupJobStatus.done CleanupJobStatus.done = true
same_status CleanupJobStatus.failed CleanupJobStatus.failed = true
same_status CleanupJobStatus.ignored CleanupJobStatus.ignored = true
same_status _ _ = false

-- `lockedUntil: { $gt: now }`, `{ $lt: now }` and the `$or` of `getRunnableCleanupJobFilter`.
-- MongoDB's comparisons hold of no missing date.
abbrev pub is_held : Option ℕ → ℕ → Bool
is_held none now = false
is_held (some until) now = ltb now until

abbrev pub is_expired : Option ℕ → ℕ → Bool
is_expired none now = false
is_expired (some until) now = ltb until now

abbrev pub is_free : Option ℕ → ℕ → Bool
is_free none now = true
is_free (some until) now = leb until now

-- `getRunnableCleanupJobFilter`
abbrev pub is_runnable : ℕ → CleanupJob → Bool
is_runnable now job = is_open job.status && is_free job.locked_until now

-- The filter of the outcomes: the job as it was locked, and the lock still held.
abbrev pub is_same_attempt : CleanupJob → ℕ → CleanupJob → Bool
is_same_attempt job now d =
    d.id == job.id && same_status d.status job.status && is_held d.locked_until now

abbrev pub unlocked : CleanupJob → CleanupJob
unlocked job = record job { locked_at = none; locked_by = none; locked_until = none }

abbrev pub locked : CleanupJobLockedBy → ℕ → CleanupJob → CleanupJob
locked by now job = record job {
  locked_at = some now;
  locked_by = some by;
  locked_until = some (now + lock_duration_ms);
}

abbrev pub completed : ℕ → CleanupJob → CleanupJob
completed now job = record (unlocked job) {
  status = CleanupJobStatus.done;
  resolved_at = some now;
  next_retry_at = none;
}

abbrev pub to_retry : ℕ → ℕ → ℕ → CleanupJob → CleanupJob
to_retry now count minutes job = record (unlocked job) {
  status = CleanupJobStatus.retry;
  retry_count = count;
  next_retry_at = some (now + minutes * 60 * 1000);
  last_tried_at = some now;
}

abbrev pub given_up : ℕ → ℕ → CleanupJob → CleanupJob
given_up now count job = record (unlocked job) {
  status = CleanupJobStatus.failed;
  retry_count = count;
  last_tried_at = some now;
  next_retry_at = none;
}

abbrev pub not_runnable : Exception
not_runnable = not_found (of_cleanup_job CleanupJobMessage.job_not_found_or_locked)

abbrev pub not_updated : Exception
not_updated = bad_request (of_cleanup_job CleanupJobMessage.failed_to_update_job)

module _ (m : Platform) where
  -- `findOneAndUpdate` on the jobs, under a filter and a change that read the clock.
  unfoldable pub update_job :
      (ℕ → CleanupJob → Bool) → (ℕ → CleanupJob → CleanupJob) → Exception → Action CleanupJob
  update_job q f refused w =
      let (r, jobs) = m.find_one_and_update (q w.now) (f w.now) w.cleanup_jobs in
      or_raise r refused (record w { cleanup_jobs = jobs })

  -- `unlockStuckJobs`; the number of jobs that it changes is dropped.
  unfoldable pub unlock_stuck_jobs : Action (Unit {0})
  unlock_stuck_jobs = modify (λ w. record w {
    cleanup_jobs =
        m.update_many (λ job. is_expired job.locked_until w.now && is_open job.status) unlocked
          w.cleanup_jobs;
  })

  -- `setIgnoreJob`
  unfoldable pub set_ignore_job : String → Action CleanupJob
  set_ignore_job job_id = do
    i ← to_object_id m job_id "job id"
    update_job (λ now job. job.id == i && is_runnable now job)
        (λ now job. record (unlocked job) { status = CleanupJobStatus.ignored }) not_runnable

  -- `handleCompletedJob`
  unfoldable pub handle_completed : CleanupJob → Action CleanupJob
  handle_completed job = update_job (is_same_attempt job) completed not_updated

  -- `handleRetryJob`. Past the end of the schedule the date is not valid, and mongoose throws.
  unfoldable pub handle_retry : CleanupJob → ℕ → Action CleanupJob
  handle_retry job count = do
    minutes ← or_raise (get_elem? (retry_delays job.action) (count - 1)) validation_error
    update_job (is_same_attempt job) (λ now. to_retry now count minutes) not_updated

  -- `handleFailedJob`, as it is called: with the final count.
  unfoldable pub handle_failed : CleanupJob → ℕ → Action CleanupJob
  handle_failed job count = update_job (is_same_attempt job) (λ now. given_up now count) not_updated

  -- `getAndLockCleanupJobOrThrow`
  unfoldable pub get_and_lock : String → CleanupJobLockedBy → Action CleanupJob
  get_and_lock job_id by = do
    i ← to_object_id m job_id "clean up job id"
    update_job (λ now job. job.id == i && is_runnable now job) (locked by) not_runnable
