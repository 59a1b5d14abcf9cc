-- ===== src/Auth/Guessing.antt =====
-- How often the passwords of an account can be guessed (`validateUser` of auth/auth.service.ts).
use learn_nest_js.Shared.{
  ℕ, zero, suc, ◌+◌, ◌*◌, ◌≤◌, ◌<◌, ◌≡◌, arith, subst, ◌∙◌, sym, String, true, false, none, some,
}
use learn_nest_js.Shared.Errors.{Exception}
use learn_nest_js.Shared.Action.{ok, err}
use learn_nest_js.Shared.Platform.{Platform}
use learn_nest_js.Shared.Redis.{Redis, held}
use learn_nest_js.Schemas.{User}
use learn_nest_js.World.{World}
use learn_nest_js.RedisService.{until}
use learn_nest_js.Users.Login.{find_for_login}
use learn_nest_js.Reports.Resolve.{Passwords}
use learn_nest_js.Auth.Login.{login_fail_key, login_block_key, window_seconds, validate_user}
use learn_nest_js.Auth.Comparing.{
  Guessed, check_password-cleared, check_password-Guessed, validate_found, validate_now,
  validate_err,
}

module _ (m : Platform) (redis : Redis) (passwords : Passwords) (cast_email : String → String) where
  -- Attempts on the account `i`, one after another, and whatever else happens that leaves its two keys
  -- alone; in `k` of the attempts the right password was accepted, and in `n` a wrong one compared.
  pub data Attack (i : ℕ) (w : World) : ℕ → ℕ → World → Type 0 where
    unattacked : Attack i w 0 0 w
    goes_by :
        (k n : ℕ) (v v' : World)
        → Attack i w k n v
        → v.now ≤ v'.now
        → ((t : ℕ)
            → held (login_fail_key (m.object_id_text i)) t v'.keys
              ≡ held (login_fail_key (m.object_id_text i)) t v.keys)
        → ((t : ℕ)
            → held (login_block_key (m.object_id_text i)) t v'.keys
              ≡ held (login_block_key (m.object_id_text i)) t v.keys)
        → Attack i w k n v'
    wrong_password :
        (k n : ℕ) (v : World) (identifier password : String) (u : User)
        → Attack i w k n v
        → find_for_login m cast_email identifier v ≡ some u
        → u.id ≡ i
        → u.has_password ≡ true
        → passwords.compare password u.password ≡ false
        → (validate_user m redis passwords cast_email identifier password v).0 ≡ ok none
        → Attack i w k (suc n) (validate_user m redis passwords cast_email identifier password v).1
    right_password :
        (k n : ℕ) (v : World) (identifier password : String) (u : User)
        → Attack i w k n v
        → find_for_login m cast_email identifier v ≡ some u
        → u.id ≡ i
        → u.has_password ≡ true
        → passwords.compare password u.password ≡ true
        → (validate_user m redis passwords cast_email identifier password v).0 ≡ ok (some u)
        → Attack i w (suc k) n (validate_user m redis passwords cast_email identifier password v).1
    refusal :
        (k n : ℕ) (v : World) (identifier password : String) (e : Exception)
        → Attack i w k n v
        → (validate_user m redis passwords cast_email identifier password v).0 ≡ err e
        → Attack i w k n (validate_user m redis passwords cast_email identifier password v).1

  meanwhile-Guessed :
      (n start : ℕ) (id : String) (v v' : World)
      → v.now ≤ v'.now
      → ((t : ℕ) → held (login_fail_key id) t v'.keys ≡ held (login_fail_key id) t v.keys)
      → ((t : ℕ) → held (login_block_key id) t v'.keys ≡ held (login_block_key id) t v.keys)
      → Guessed id n start v
      → Guessed id n start v'
  meanwhile-Guessed zero start id v v' later fails blocks
        (most, since, counts, date, far, blocked) =
      (
        most,
        omega arith,
        λ t h. fails t ∙ counts t (omega arith),
        date,
        far,
        λ t h early. blocks t ∙ blocked t (omega arith) early,
      )
  meanwhile-Guessed (suc n) start id v v' later fails blocks
        (most, since, (end, long, counts), date, far, blocked) =
      (
        most,
        omega arith,
        (end, long, λ t h. fails t ∙ counts t (omega arith)),
        date,
        far,
        λ t h early. blocks t ∙ blocked t (omega arith) early,
      )

  -- After `k` right passwords, `n` wrong ones are ten for each of them and those since the last.
  abbrev Kept : ℕ → ℕ → ℕ → ℕ → World → Type 0
  Kept i start k n v =
      (since : ℕ) × (n ≤ 10 * k + since) × Guessed (m.object_id_text i) since start v

  wrong-Kept :
      (i k n start : ℕ) (v : World) (identifier password : String) (u : User)
      → v.now < until start window_seconds
      → find_for_login m cast_email identifier v ≡ some u
      → u.id ≡ i
      → u.has_password ≡ true
      → passwords.compare password u.password ≡ false
      → (validate_user m redis passwords cast_email identifier password v).0 ≡ ok none
      → Kept i start k n v
      → Kept i start k (suc n) (validate_user m redis passwords cast_email identifier password v).1
  wrong-Kept i k n start v identifier password u early e own has wrong done (since, most, before) =
      let it = validate_found m redis passwords cast_email identifier password u v e has in
      let after =
        check_password-Guessed m redis passwords cast_email u password since start v
          (subst (λ j. Guessed (m.object_id_text j) since start v) (sym own) before) early wrong
          (rw it at done) in
      (
        suc since,
        omega arith,
        subst
            (λ j.
              Guessed (m.object_id_text j) (suc since) start
                (validate_user m redis passwords cast_email identifier password v).1)
            own (rw it after),
      )

  right-Kept :
      (i k n start : ℕ) (v : World) (identifier password : String) (u : User)
      → find_for_login m cast_email identifier v ≡ some u
      → u.id ≡ i
      → u.has_password ≡ true
      → passwords.compare password u.password ≡ true
      → (validate_user m redis passwords cast_email identifier password v).0 ≡ ok (some u)
      → Kept i start k n v
      → Kept i start (suc k) n (validate_user m redis passwords cast_email identifier password v).1
  right-Kept i k n start v identifier password u e own has right done
        (since, most, (ten, begun, counts, date, far, blocks)) =
      let it = validate_found m redis passwords cast_email identifier password u v e has in
      let after =
        check_password-cleared m redis passwords cast_email u password start v begun right
          (rw it at done) in
      (
        0,
        omega arith,
        subst
            (λ j.
              Guessed (m.object_id_text j) 0 start
                (validate_user m redis passwords cast_email identifier password v).1)
            own (rw it after),
      )

  Attack-Kept :
      (i : ℕ) (w : World) (k n : ℕ) (v : World)
      → Attack i w k n v
      → v.now < until w.now window_seconds
      → Guessed (m.object_id_text i) 0 w.now w
      → Kept i w.now k n v
  Attack-Kept i w k n v unattacked early fresh = (0, omega arith, fresh)
  Attack-Kept i w k n v (goes_by _ _ u _ h later fails blocks) early fresh =
      let (since, most, before) = Attack-Kept i w k n u h (omega arith) fresh in
      (
        since,
        most,
        meanwhile-Guessed since w.now (m.object_id_text i) u v later fails blocks before,
      )
  Attack-Kept i w _ _ _ (wrong_password k n v identifier password u h e own has wrong done) early
        fresh =
      let early' = rw (validate_now m redis passwords cast_email identifier password v) at early in
      wrong-Kept i k n w.now v identifier password u early' e own has wrong done
        (Attack-Kept i w k n v h early' fresh)
  Attack-Kept i w _ _ _ (right_password k n v identifier password u h e own has right done) early
        fresh =
      right-Kept i k n w.now v identifier password u e own has right done (
        Attack-Kept i w k n v h
          (rw (validate_now m redis passwords cast_email identifier password v) at early) fresh)
  Attack-Kept i w k n _ (refusal _ _ v identifier password e h denied) early fresh =
      rw (validate_err m redis passwords cast_email identifier password v denied) (
        Attack-Kept i w k n v h
          (rw (validate_now m redis passwords cast_email identifier password v) at early) fresh)

  -- Where no failure is counted for an account, no more than ten wrong passwords for it are compared
  -- within a quarter of an hour for each time that its right password is accepted, and ten more,
  -- whatever is tried and in whatever order, and whatever else happens that leaves the account's
  -- two keys alone. So where it never is, no more than ten are.
  pub Attack-few :
      (i : ℕ) (w : World) (k n : ℕ) (v : World)
      → Attack i w k n v
      → v.now < until w.now window_seconds
      → ((t : ℕ) → w.now ≤ t → held (login_fail_key (m.object_id_text i)) t w.keys ≡ none)
      → n ≤ 10 * suc k
  Attack-few i w k n v attack early fresh =
      let (since, most, (ten, _, _, _, _, _)) = Attack-Kept i w k n v attack early (
        omega arith,
        omega arith,
        fresh,
        w.now,
        omega arith,
        λ t later sooner. absurd (omega arith),
      ) in
      omega arith
