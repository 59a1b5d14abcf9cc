-- ===== src/Sessions/Deferral.antt =====
-- What is put down as a job: stored, and in the queue.
use learn_nest_js.Shared.{
  ℕ, ◌≡◌, refl, String, true, ◌==◌, ==_iff, str_eq, Option, none, some, inl, inr, Bool-cases, Memᴰ,
  any,
}
use learn_nest_js.Shared.Action.{ok}
use learn_nest_js.Shared.Platform.{Platform}
use learn_nest_js.Shared.Documents.{insert-mem}
use learn_nest_js.Schemas.{CleanupJob, CleanupJobAction, CleanupJobStatus, CleanupJobPayload}
use learn_nest_js.World.{World}
use learn_nest_js.CleanupJobs.Create.{
  create_cleanup_job, try_cleanup_job, empty_payload, is_complete, new_job, insert_job,
}

-- A job that waits for its first attempt.
abbrev pub IsNew : CleanupJobAction → CleanupJobPayload → CleanupJob → Type 0
IsNew action payload job =
    (job.action ≡ action)
    × (job.payload ≡ payload)
    × (job.status ≡ CleanupJobStatus.pending)
    × (job.retry_count ≡ 0)

-- What is to be done is put down as a job: it is stored, and it is the next of the queue.
abbrev pub IsDeferred : CleanupJobAction → CleanupJobPayload → World → Type 0
IsDeferred action payload w =
    (job : CleanupJob) × Memᴰ job w.cleanup_jobs
    × IsNew action payload job
    × (any (λ q. q.cleanup_job_id == job.id) w.queue ≡ true)

abbrev pub for_user : String → CleanupJobPayload
for_user user = record empty_payload { user_id = some user }

abbrev pub for_session : String → String → CleanupJobPayload
for_session user session = record empty_payload { user_id = some user; session_id = some session }

module _ (m : Platform) where
  insert_job_lem :
      (action : CleanupJobAction) (e : Option ℕ) (p : CleanupJobPayload) (w : World)
      → IsDeferred action p (insert_job m action e p w).1
  unfolding insert_job
  insert_job_lem action e p w =
      let i = m.new_object_id w.created in
      let job = new_job m action e p i in
      let same = (==_iff i i).1 refl in
      (job, insert-mem m job w.cleanup_jobs, (refl, refl, refl, refl), rw same refl)

  -- A job whose payload is complete, for a user whose id is valid, is put down.
  pub try_cleanup_job_lem :
      (action : CleanupJobAction) (user : String) (u : ℕ) (p : CleanupJobPayload) (w : World)
      → m.parse_object_id user ≡ some u
      → is_complete action p ≡ true
      → ((try_cleanup_job m action (some user) p w).0 ≡ ok tt)
        × IsDeferred action p (try_cleanup_job m action (some user) p w).1
  unfolding try_cleanup_job create_cleanup_job insert_job
  try_cleanup_job_lem action user u p w pu full = elim (Bool-cases (str_eq user "")) [
    | inl e ↦
        let there = insert_job_lem action none p w in
        rw (e, try_cleanup_job) (rw (full, try_cleanup_job) (refl, there))
    | inr e ↦
        let there = insert_job_lem action (some u) p w in
        rw (e, try_cleanup_job)
          (rw (pu, try_cleanup_job) (rw (full, try_cleanup_job) (refl, there)))
  ]
