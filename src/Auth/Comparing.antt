-- ===== src/Auth/Comparing.antt =====
-- What a comparison of passwords does to the counted failures of an account (`validateUser` of
-- auth/auth.service.ts).
use learn_nest_js.Shared.{
  ℕ, zero, suc, ◌+◌, ◌-◌, ◌*◌, ◌≤◌, ◌<◌, ◌≡◌, refl, arith, ◌∙◌, String, true, false, ltb, leb, ◌⊎◌,
  inl, inr, Option, none, some, Option-cases, Bool-cases,
}
use learn_nest_js.Shared.Errors.{Exception}
use learn_nest_js.Shared.Action.{ok, err, pure, bind_ok, past_check}
use learn_nest_js.Shared.Platform.{Platform}
use learn_nest_js.Shared.Redis.{Redis}
use learn_nest_js.Schemas.{User}
use learn_nest_js.World.{World}
use learn_nest_js.RedisService.{until, incr_with_ttl, set_with_ttl, ttl, del}
use learn_nest_js.Users.Login.{find_for_login}
use learn_nest_js.Reports.Resolve.{Passwords}
use learn_nest_js.Auth.Login.{
  login_block_key, window_seconds, block_seconds, block_for, check_blocked, record_failure,
  seconds_of, judge, check_password, validate_user, clear_failures,
}
use learn_nest_js.Auth.FailCount.{
  Counts, Blocks, after_failure, after_failure-Counts, after_failure-block, set-Blocks, set-Counts,
  ttl-Blocks, clear_failures_lem,
}

-- When the block after `n` failures ends at the earliest, in milliseconds after the counter began: a
-- block's last second is not told.
abbrev earliest : ℕ → ℕ
earliest zero = 0
earliest (suc n) = (earliest n - 1000) + block_seconds (suc n) * 1000

few : (n : ℕ) → n ≤ 10 → earliest n < 901000 → n ≤ 9
unfolding block_seconds
few n most early = elim (Bool-cases (leb n 9)) [
  | inl h ↦ ground arith
  | inr h ↦ let it : n ≡ 10 = ground arith in absurd (clash (rw it at early))
]
  where
    clash : (◌<◌ 1075000 901000) → ⊥
    clash k = omega arith

next_block :
    (start passed block now date : ℕ)
    → start ≤ now
    → start + passed ≤ date
    → date < now + 1000
    → start + ((passed - 1000) + block) ≤ now + block
next_block start passed block now date begun far near = omega arith

no_block : (start passed date : ℕ) → start + passed ≤ date → start + ((passed - 1000) + 0) ≤ date
no_block start passed date far = omega arith

-- The state after `n` failures since the counter was last away, where the counter began at `start`
-- or later.
abbrev pub Guessed : String → ℕ → ℕ → World → Type 0
Guessed id n start w =
    (n ≤ 10)
    × (start ≤ w.now)
    × Counts id n start w.now w.keys
    × (date : ℕ) × (start + earliest n ≤ date)
    × Blocks id date w.now w.keys

module _ (redis : Redis) (id : String) where
  -- What a block that is set leaves, and what stands where none is.
  block_for-Guessed :
      (n start seconds date : ℕ) (w : World)
      → start ≤ w.now
      → Counts id n start w.now w.keys
      → Blocks id date w.now w.keys
      → (n ≤ 10)
      → start + earliest n ≤ w.now + seconds * 1000
      → (seconds ≡ 0 → start + earliest n ≤ date)
      → Guessed id n start (block_for redis id seconds w).1
  unfolding set_with_ttl
  block_for-Guessed n start seconds date w begun counts blocks most then_set then_kept =
      elim (Bool-cases (ltb 0 seconds)) [
        | inl h ↦ rw h (
          most,
          begun,
          set-Counts redis id n start w.now (until w.now seconds) w.keys counts,
          until w.now seconds,
          then_set,
          set-Blocks redis id w.now (until w.now seconds) w.keys,
        )
        | inr h ↦
            let zero : seconds ≡ 0 = ground arith in
            rw h (most, begun, counts, date, then_kept zero, blocks)
      ]

  record_failure-Guessed :
      (n start date : ℕ) (w : World)
      → Counts id n start w.now w.keys
      → Blocks id date w.now w.keys
      → start ≤ w.now
      → w.now < until start window_seconds
      → start + earliest n ≤ date
      → date < w.now + 1000
      → n ≤ 9
      → Guessed id (suc n) start (record_failure redis id w).1
  unfolding record_failure incr_with_ttl
  record_failure-Guessed n start date w counts blocks begun early far near most =
      let (counted, result) =
        after_failure-Counts redis id n start w.now w.keys counts begun early in
      rw result (
        block_for-Guessed (suc n) start (block_seconds (suc n)) date
          (record w { keys = after_failure redis id w.now w.keys }) begun counted
          (λ t later sooner.
            after_failure-block redis id w.now t w.keys later ∙ blocks t later sooner)
          (omega arith)
          (next_block start (earliest n) (block_seconds (suc n) * 1000) w.now date begun far near)
          (λ zero. rw zero (no_block start (earliest n) date far)))

  record_failure_ok : (w : World) → (record_failure redis id w).0 ≡ ok tt
  unfolding record_failure incr_with_ttl set_with_ttl
  record_failure_ok w = ground arith

  clear_failures_now : (w : World) → (clear_failures redis id w).1.now ≡ w.now
  unfolding clear_failures del
  clear_failures_now w = refl

  -- What the check on a block lets through.
  check_blocked_inv :
      (w : World) {a : Unit {0}}
      → (check_blocked redis id w).0 ≡ ok a
      → seconds_of (redis.ttl (login_block_key id) w.now w.keys) ≡ 0
  unfolding check_blocked ttl
  check_blocked_inv w h = ground arith

  check_blocked_keeps : (w : World) → (check_blocked redis id w).1 ≡ w
  unfolding check_blocked ttl
  check_blocked_keeps w = ground arith

module _ (m : Platform) (redis : Redis) (passwords : Passwords) (cast_email : String → String) where
  judge_wrong :
      (u : User) (w : World)
      → judge m redis passwords cast_email u false w
        ≡ (ok none, (record_failure redis (m.object_id_text u.id) w).1)
  unfolding judge
  judge_wrong u w =
      bind_ok (record_failure redis (m.object_id_text u.id)) (λ _. pure none)
        (record_failure_ok redis (m.object_id_text u.id) w)

  judge_right :
      (u : User) (w : World)
      → (judge m redis passwords cast_email u true w).1
        ≡ (clear_failures redis (m.object_id_text u.id) w).1
  unfolding judge clear_failures del
  judge_right u w = refl

  -- A comparison that holds.
  pub check_password-cleared :
      (u : User) (password : String) (start : ℕ) (w : World) {o : Option User}
      → start ≤ w.now
      → passwords.compare password u.password ≡ true
      → (check_password m redis passwords cast_email u password w).0 ≡ ok o
      → Guessed
          (m.object_id_text u.id)
          0
          start
          (check_password m redis passwords cast_email u password w).1
  unfolding check_password
  check_password-cleared u password start w begun right h =
      let id = m.object_id_text u.id in
      let (a, let_through, went) =
        past_check (check_blocked redis id)
          (λ _. judge m redis passwords cast_email u (passwords.compare password u.password)) w h
          (λ a _. check_blocked_keeps redis id w) in
      rw went (
        rw right (
          rw (judge_right u w) (
            omega arith,
            rw (clear_failures_now redis id w) begun,
            λ t later. (clear_failures_lem redis id w t).0,
            start,
            omega arith,
            λ t later sooner. absurd (
                passed start (clear_failures redis id w).1.now t
                  (rw (clear_failures_now redis id w) begun) later sooner),
          )))
    where
      passed : (start now t : ℕ) → start ≤ now → now ≤ t → t < start → ⊥
      passed start now t a b c = omega arith

  -- A comparison that fails.
  pub check_password-Guessed :
      (u : User) (password : String) (n start : ℕ) (w : World) {o : Option User}
      → Guessed (m.object_id_text u.id) n start w
      → w.now < until start window_seconds
      → passwords.compare password u.password ≡ false
      → (check_password m redis passwords cast_email u password w).0 ≡ ok o
      → Guessed
          (m.object_id_text u.id)
          (suc n)
          start
          (check_password m redis passwords cast_email u password w).1
  unfolding check_password
  check_password-Guessed u password n start w (most, begun, counts, date, far, blocks) early wrong
        h =
      let id = m.object_id_text u.id in
      let (a, let_through, went) =
        past_check (check_blocked redis id)
          (λ _. judge m redis passwords cast_email u (passwords.compare password u.password)) w h
          (λ a _. check_blocked_keeps redis id w) in
      let near =
        ttl-Blocks redis id date w.now w.keys blocks (check_blocked_inv redis id w let_through) in
      let fewer = few n most (omega arith) in
      rw went (
        rw wrong (
          rw (judge_wrong u w) (
            record_failure-Guessed redis id n start date w counts blocks begun early far near
              fewer)))

  check_password_now :
      (u : User) (password : String) (w : World)
      → (check_password m redis passwords cast_email u password w).1.now ≡ w.now
  unfolding check_password check_blocked ttl judge record_failure clear_failures incr_with_ttl
      set_with_ttl del
  check_password_now u password w = ground arith

  check_password_err :
      (u : User) (password : String) (w : World) {e : Exception}
      → (check_password m redis passwords cast_email u password w).0 ≡ err e
      → (check_password m redis passwords cast_email u password w).1 ≡ w
  unfolding check_password check_blocked ttl judge record_failure clear_failures incr_with_ttl
      set_with_ttl del
  check_password_err u password w h = ground arith

  pub validate_found :
      (identifier password : String) (u : User) (v : World)
      → find_for_login m cast_email identifier v ≡ some u
      → u.has_password ≡ true
      → validate_user m redis passwords cast_email identifier password v
        ≡ check_password m redis passwords cast_email u password v
  unfolding validate_user
  validate_found identifier password u v e has = rw (e, has) refl

  validate_cases :
      (identifier password : String) (v : World)
      → (validate_user m redis passwords cast_email identifier password v ≡ (ok none, v))
        ⊎ ((u : User) × (validate_user m redis passwords cast_email identifier password v
              ≡ check_password m redis passwords cast_email u password v))
  unfolding validate_user
  validate_cases identifier password v =
      elim (Option-cases (find_for_login m cast_email identifier v)) [
        | inl e ↦ inl (rw e refl)
        | inr (u, e) ↦ elim (Bool-cases u.has_password) [
          | inl has ↦ inr (u, rw (e, has) refl)
          | inr has ↦ inl (rw (e, has) refl)
        ]
      ]

  pub validate_now :
      (identifier password : String) (v : World)
      → (validate_user m redis passwords cast_email identifier password v).1.now ≡ v.now
  validate_now identifier password v = elim (validate_cases identifier password v) [
    | inl e ↦ rw e refl
    | inr (u, e) ↦ rw e (check_password_now u password v)
  ]

  pub validate_err :
      (identifier password : String) (v : World) {e : Exception}
      → (validate_user m redis passwords cast_email identifier password v).0 ≡ err e
      → (validate_user m redis passwords cast_email identifier password v).1 ≡ v
  validate_err identifier password v h = elim (validate_cases identifier password v) [
    | inl e ↦ rw e refl
    | inr (u, e) ↦ rw e (check_password_err u password v (rw e at h))
  ]
