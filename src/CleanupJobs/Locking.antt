-- ===== src/CleanupJobs/Locking.antt =====
-- The lock of a job, and the jobs that are settled.
use learn_nest_js.Shared.{
  ℕ, ◌+◌, ◌≤◌, ◌<◌, ◌≡◌, refl, arith, String, Bool, true, false, ◌&&◌, ◌==◌, ==_iff, some, List,
  inl, inr, Option-cases, count, Memᴰ,
}
use learn_nest_js.Shared.Errors.{Exception}
use learn_nest_js.Shared.Action.{ok, err}
use learn_nest_js.Shared.Platform.{Platform}
use learn_nest_js.Shared.Documents.{Each, Each-refl, update-Each, update_hit, update_missed}
use learn_nest_js.Shared.Counting.{the_only, count-update_same}
use learn_nest_js.Schemas.{CleanupJob, CleanupJobLockedBy}
use learn_nest_js.World.{World}
use learn_nest_js.CleanupJobs.Command.{
  is_open, is_runnable, is_same_attempt, locked, update_job, get_and_lock, not_runnable,
  lock_duration_ms, handle_failed, handle_retry,
}
use learn_nest_js.CleanupJobs.Dispatcher.{Media}
use learn_nest_js.CleanupJobs.Process.{after_error}

-- The `_id` of a job is unique.
abbrev pub UniqueJobs : List CleanupJob → Type 0
UniqueJobs jobs = (i : ℕ) → count (λ job. job.id == i) jobs ≤ 1

-- A job that is done, failed or ignored stays as it is.
abbrev pub Settled : CleanupJob → CleanupJob → Type 0
Settled a b = is_open a.status ≡ false → b ≡ a

pub Settled-refl : (a : CleanupJob) → Settled a a
Settled-refl a h = refl

pub Settled-trans : (a b c : CleanupJob) → Settled a b → Settled b c → Settled a c
Settled-trans a b c h k e = let s = h e in let t : is_open b.status ≡ false = rw s e in cc (k t, s)

module _ (m : Platform) where
  pub update_job-UniqueJobs :
      (q : ℕ → CleanupJob → Bool) (f : ℕ → CleanupJob → CleanupJob) (x : Exception) (w : World)
      → ((now : ℕ) (d : CleanupJob) → (f now d).id ≡ d.id)
      → UniqueJobs w.cleanup_jobs
      → UniqueJobs (update_job m q f x w).1.cleanup_jobs
  unfolding update_job
  update_job-UniqueJobs q f x w same h i =
      let kept =
        count-update_same m (λ job. job.id == i) (q w.now) (f w.now) w.cleanup_jobs
          (λ d e. rw (same w.now d)) in
      ground (arith, kept, h i)

  pub update-UniqueJobs :
      (q : CleanupJob → Bool) (f : CleanupJob → CleanupJob) (jobs : List CleanupJob)
      → ((d : CleanupJob) → (f d).id ≡ d.id)
      → UniqueJobs jobs
      → UniqueJobs (m.find_one_and_update q f jobs).1
  update-UniqueJobs q f jobs same h i =
      rw (count-update_same m (λ job. job.id == i) q f jobs (λ d e. rw (same d))) (h i)

  abbrev pub asked : ℕ → ℕ → CleanupJob → Bool
  asked i now job = job.id == i && is_runnable now job

  lock_holds :
      (job d : CleanupJob) (i until now : ℕ)
      → job ≡ d
      → job.locked_until ≡ some until
      → now < until
      → asked i now d ≡ true
      → ⊥
  lock_holds job d i until now same held soon free =
      let free' : asked i now job ≡ true = rw same free in ground arith

  -- Where the ids of the jobs are unique, a worker that has locked a job has it alone: until ten
  -- minutes have passed, and while the jobs are as the lock left them, whoever asks for the same job is
  -- refused and changes nothing.
  pub get_and_lock_excludes :
      (id : String) (i : ℕ) (by other : CleanupJobLockedBy) (w later : World) {job : CleanupJob}
      → m.parse_object_id id ≡ some i
      → UniqueJobs w.cleanup_jobs
      → (get_and_lock m id by w).0 ≡ ok job
      → later.cleanup_jobs ≡ (get_and_lock m id by w).1.cleanup_jobs
      → later.now < w.now + lock_duration_ms
      → get_and_lock m id other later ≡ (err not_runnable, later)
  unfolding get_and_lock update_job
  get_and_lock_excludes id i by other w later {job} pi unique e same soon =
      let taken : (m.find_one_and_update (asked i w.now) (locked by w.now) w.cleanup_jobs).0
          ≡ some job =
        ground arith in
      let (d, matched, made, old, new) =
        update_hit m (asked i w.now) (locked by w.now) w.cleanup_jobs taken in
      let stored : later.cleanup_jobs
          ≡ (m.find_one_and_update (asked i w.now) (locked by w.now) w.cleanup_jobs).1 =
        ground arith in
      let here : Memᴰ job later.cleanup_jobs = rw stored new in
      let still : UniqueJobs later.cleanup_jobs =
        rw stored
          (update-UniqueJobs (asked i w.now) (locked by w.now) w.cleanup_jobs (λ x. refl) unique) in
      let until : job.locked_until ≡ some (w.now + lock_duration_ms) = rw made in
      let is_it : job.id ≡ i = ground arith in
      elim (Option-cases
        (m.find_one_and_update (asked i later.now) (locked other later.now) later.cleanup_jobs).0) [
          | inl missed ↦
              let kept =
                update_missed m (asked i later.now) (locked other later.now) later.cleanup_jobs
                  missed in
              ground arith
          | inr (c, hit) ↦
              let (d', free, _, there, _) =
                update_hit m (asked i later.now) (locked other later.now) later.cleanup_jobs hit in
              let one : job ≡ d' =
                the_only (λ x. x.id == i) later.cleanup_jobs (still i) here there
                  ((==_iff job.id i).1 is_it) (ground arith) in
              absurd (lock_holds job d' i (w.now + lock_duration_ms) later.now one until soon free)
        ]

  pub update_job-Settled :
      (q : ℕ → CleanupJob → Bool) (f : ℕ → CleanupJob → CleanupJob) (x : Exception) (w : World)
      → ((now : ℕ) (d : CleanupJob) → q now d ≡ true → is_open d.status ≡ true)
      → Each Settled w.cleanup_jobs (update_job m q f x w).1.cleanup_jobs
  unfolding update_job
  update_job-Settled q f x w open_only =
      let kept =
        update-Each m (q w.now) (f w.now) w.cleanup_jobs Settled Settled-refl
          (λ d e closed. absurd (clash d (open_only w.now d e) closed)) in
      ground (arith, kept)
    where
      clash : (d : CleanupJob) → is_open d.status ≡ true → is_open d.status ≡ false → ⊥
      clash d a b = cc

  attempt_is_open :
      (job : CleanupJob) (now : ℕ) (d : CleanupJob)
      → is_open job.status ≡ true
      → is_same_attempt job now d ≡ true
      → is_open d.status ≡ true
  attempt_is_open job now d h e = ground arith

  pub outcome-Settled :
      (job : CleanupJob) (f : ℕ → CleanupJob → CleanupJob) (x : Exception) (w : World)
      → is_open job.status ≡ true
      → Each Settled w.cleanup_jobs (update_job m (is_same_attempt job) f x w).1.cleanup_jobs
  outcome-Settled job f x w h =
      update_job-Settled (is_same_attempt job) f x w (λ now d e. attempt_is_open job now d h e)

  pub after_error-Settled :
      (media : Media) (job : CleanupJob) (w : World)
      → is_open job.status ≡ true
      → Each Settled w.cleanup_jobs (after_error m media job w).1.cleanup_jobs
  unfolding after_error handle_failed handle_retry
  after_error-Settled media job w h =
      grind (arith, Each-refl Settled Settled-refl w.cleanup_jobs, outcome-Settled)

  pub get_and_lock-Settled :
      (id : String) (by : CleanupJobLockedBy) (w : World)
      → Each Settled w.cleanup_jobs (get_and_lock m id by w).1.cleanup_jobs
  unfolding get_and_lock
  get_and_lock-Settled id by w = elim (Option-cases (m.parse_object_id id)) [
    | inl bad ↦ rw (bad, get_and_lock) (Each-refl Settled Settled-refl w.cleanup_jobs)
    | inr (i, pi) ↦
        rw (pi, get_and_lock)
          (update_job-Settled (λ now job. job.id == i && is_runnable now job) (locked by)
            not_runnable w (λ now d e. ground arith))
  ]

  -- The job that is locked was open, and is.
  pub get_and_lock_open :
      (id : String) (by : CleanupJobLockedBy) (w : World) {job : CleanupJob}
      → (get_and_lock m id by w).0 ≡ ok job
      → is_open job.status ≡ true
  unfolding get_and_lock update_job
  get_and_lock_open id by w {job} e = elim (Option-cases (m.parse_object_id id)) [
    | inl bad ↦ absurd (ground arith)
    | inr (i, pi) ↦
        let taken : (m.find_one_and_update (asked i w.now) (locked by w.now) w.cleanup_jobs).0
            ≡ some job =
          ground arith in
        let (d, matched, made, old, new) =
          update_hit m (asked i w.now) (locked by w.now) w.cleanup_jobs taken in
        rw made (ground arith)
  ]
