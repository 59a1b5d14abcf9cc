-- ===== src/CleanupJobs/Schedule.antt =====
-- The retry schedules have an entry for every retry that they allow.
use learn_nest_js.Shared.{
  ℕ, zero, suc, ◌-◌, ◌≤◌, ◌<◌, ◌≡◌, refl, arith, some, List, [], ◌∷◌, length, get_elem?, All,
}
use learn_nest_js.Schemas.{
  CleanupJobAction, cloudinary_delete_one, cloudinary_delete_many, r2_delete_one, r2_delete_many,
  redis_remove_unseen_one, redis_remove_unseen_many, session_revoke, session_revoke_all,
}
use learn_nest_js.CleanupJobs.Create.{replicate, session_retry_delays, retry_delays, max_retries}

abbrev pub IsDelay : ℕ → Type 0
IsDelay minutes = 10 ≤ minutes

pub get_elem?_of_lt :
    (xs : List ℕ) (i : ℕ)
    → All IsDelay xs
    → i < length xs
    → (d : ℕ) × (get_elem? xs i ≡ some d) × IsDelay d
get_elem?_of_lt [] i h lt = absurd (omega arith)
get_elem?_of_lt (x ∷ xs) zero h lt = (x, refl, h.0)
get_elem?_of_lt (x ∷ xs) (suc i) h lt = get_elem?_of_lt xs i h.1 (omega arith)

All-replicate : (n : ℕ) → All IsDelay (replicate n 10)
All-replicate zero = tt
All-replicate (suc n) = (omega arith, All-replicate n)

length-replicate : (n a : ℕ) → length (replicate n a) ≡ n
length-replicate zero a = refl
length-replicate (suc n) a = omega (arith, length-replicate n a)

pub max_retries_lem : (a : CleanupJobAction) → max_retries a ≡ length (retry_delays a)
unfolding max_retries retry_delays
max_retries_lem cloudinary_delete_one = refl
max_retries_lem cloudinary_delete_many = refl
max_retries_lem r2_delete_one = refl
max_retries_lem r2_delete_many = refl
max_retries_lem redis_remove_unseen_one = refl
max_retries_lem redis_remove_unseen_many = refl
max_retries_lem session_revoke = refl
max_retries_lem session_revoke_all = refl

session_delays : All IsDelay session_retry_delays
unfolding session_retry_delays
session_delays = All-replicate 1008

delays_long : (a : CleanupJobAction) → All IsDelay (retry_delays a)
unfolding retry_delays
delays_long cloudinary_delete_one = omega arith
delays_long cloudinary_delete_many = omega arith
delays_long r2_delete_one = omega arith
delays_long r2_delete_many = omega arith
delays_long redis_remove_unseen_one = omega arith
delays_long redis_remove_unseen_many = omega arith
delays_long session_revoke = session_delays
delays_long session_revoke_all = session_delays

-- For every retry that an action is allowed its schedule has a delay, of ten minutes or more.
pub schedule_total :
    (a : CleanupJobAction) (count : ℕ)
    → 1 ≤ count
    → count ≤ max_retries a
    → (d : ℕ) × (get_elem? (retry_delays a) (count - 1) ≡ some d) × (10 ≤ d)
schedule_total a count low high =
    get_elem?_of_lt (retry_delays a) (count - 1) (delays_long a) (omega (arith, max_retries_lem a))
