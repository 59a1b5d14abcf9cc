-- ===== src/CleanupJobs/Progress.antt =====
-- What a failed attempt leads to: another attempt later, or the end of the attempts.
use learn_nest_js.Shared.{
  ℕ, ◌+◌, ◌-◌, ◌*◌, ◌≤◌, ◌<◌, ◌≡◌, refl, arith, true, false, not, none, some, length, get_elem?,
  inl, inr, ◌⊎◌, Bool-cases, Memᴰ, ltb, leb,
}
use learn_nest_js.Shared.Errors.{Exception}
use learn_nest_js.Shared.Action.{ok}
use learn_nest_js.Shared.Platform.{Platform}
use learn_nest_js.Shared.Documents.{Replaces, update-Replaces, update_of_mem}
use learn_nest_js.Schemas.{CleanupJob, CleanupJobStatus}
use learn_nest_js.World.{World}
use learn_nest_js.CleanupJobs.Create.{retry_delays, max_retries}
use learn_nest_js.CleanupJobs.Command.{
  is_same_attempt, to_retry, given_up, update_job, handle_failed, handle_retry, not_updated,
}
use learn_nest_js.CleanupJobs.Dispatcher.{Media}
use learn_nest_js.CleanupJobs.Process.{after_error, is_exhausted}
use learn_nest_js.CleanupJobs.Schedule.{schedule_total, max_retries_lem}

-- The job `c` stands to be tried again, ten minutes after `now` or later.
abbrev pub WaitsFor : ℕ → ℕ → CleanupJob → Type 0
WaitsFor now count c =
    (c.status ≡ CleanupJobStatus.retry)
    × (c.retry_count ≡ count)
    × ((at : ℕ) × (c.next_retry_at ≡ some at) × (now + 600000 ≤ at))
    × (c.locked_until ≡ none)

abbrev pub HasFailed : ℕ → CleanupJob → Type 0
HasFailed count c =
    (c.status ≡ CleanupJobStatus.failed)
    × (c.retry_count ≡ count)
    × (c.next_retry_at ≡ none)
    × (c.locked_until ≡ none)

module _ (m : Platform) (media : Media) where
  -- An outcome is recorded, if the job is still stored as it was locked and its lock is held.
  update_job_stored :
      (job : CleanupJob) (f : ℕ → CleanupJob → CleanupJob) (x : Exception) (w : World)
      → Memᴰ job w.cleanup_jobs
      → is_same_attempt job w.now job ≡ true
      → (d : CleanupJob) × (d.id ≡ job.id)
        × ((update_job m (is_same_attempt job) f x w).0 ≡ ok (f w.now d))
        × Replaces d
            (f w.now d)
            w.cleanup_jobs
            (update_job m (is_same_attempt job) f x w).1.cleanup_jobs
  unfolding update_job
  update_job_stored job f x w stored held =
      let (e, hit) =
        update_of_mem m (is_same_attempt job w.now) (f w.now) w.cleanup_jobs job stored held in
      let (d, match, made, _, placed) =
        update-Replaces m (is_same_attempt job w.now) (f w.now) w.cleanup_jobs hit in
      (d, ground (arith, match), rw (hit, made) refl, rw hit placed)

  gives_up :
      (job : CleanupJob) (w : World)
      → is_exhausted job (job.retry_count + 1) ≡ true
      → after_error m media job w
        ≡ update_job m (is_same_attempt job) (λ now. given_up now job.max_retries) not_updated w
  unfolding after_error handle_failed
  gives_up job w e = rw e refl

  within :
      (job : CleanupJob)
      → job.retry_count + 1 ≤ length (retry_delays job.action)
      → not (leb (job.retry_count + 1) (length (retry_delays job.action))) ≡ false
  within job h = ground (arith, h)

  retries :
      (job : CleanupJob) (w : World) (minutes : ℕ)
      → is_exhausted job (job.retry_count + 1) ≡ false
      → get_elem? (retry_delays job.action) (job.retry_count + 1 - 1) ≡ some minutes
      → after_error m media job w
        ≡ update_job m
            (is_same_attempt job)
            (λ now. to_retry now (job.retry_count + 1) minutes)
            not_updated
            w
  unfolding after_error handle_retry
  retries job w minutes e at = rw (e, after_error) (rw (at, handle_retry) refl)

  -- After a failed attempt at a job with the limit of its action, stored as it was locked and with
  -- its lock still held, the stored job of its id, and no other, is replaced by the one that is
  -- returned: if retries are left it waits for the next, which is counted, ten minutes or more; if none
  -- is left it has failed, at its limit. In both cases it is unlocked.
  pub after_error_lem :
      (job : CleanupJob) (w : World)
      → job.max_retries ≡ max_retries job.action
      → Memᴰ job w.cleanup_jobs
      → is_same_attempt job w.now job ≡ true
      → (c : CleanupJob) × (d : CleanupJob) × ((after_error m media job w).0 ≡ ok c)
        × (d.id ≡ job.id)
        × (c.id ≡ job.id)
        × Replaces d c w.cleanup_jobs (after_error m media job w).1.cleanup_jobs
        × (((job.retry_count < job.max_retries) × WaitsFor w.now (job.retry_count + 1) c)
            ⊎ ((job.max_retries ≤ job.retry_count) × HasFailed job.max_retries c))
  after_error_lem job w limit stored held =
      let long = max_retries_lem job.action in
      elim (Bool-cases (ltb job.max_retries (job.retry_count + 1))) [
        | inl over ↦
            let (d, named, done, placed) =
              update_job_stored job (λ now. given_up now job.max_retries) not_updated w stored
                held in
            let all = gives_up job w (rw over refl) in
            (
              given_up w.now job.max_retries d,
              d,
              rw all done,
              named,
              named,
              rw all placed,
              inr (ground arith, (refl, refl, refl, refl)),
            )
        | inr left ↦
            let few : job.retry_count < job.max_retries = ground arith in
            let (minutes, at, ten) =
              schedule_total job.action (job.retry_count + 1) (omega arith)
                (omega (arith, limit, few)) in
            let (d, named, done, placed) =
              update_job_stored job (λ now. to_retry now (job.retry_count + 1) minutes) not_updated
                w stored held in
            let all =
              retries job w minutes (rw left (within job (omega (limit, long, few, arith)))) at in
            (
              to_retry w.now (job.retry_count + 1) minutes d,
              d,
              rw all done,
              named,
              named,
              rw all placed,
              inl (
                few,
                (refl, refl, (w.now + minutes * 60 * 1000, refl, omega (arith, ten)), refl),
              ),
            )
      ]
