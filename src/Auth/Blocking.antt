-- ===== src/Auth/Blocking.antt =====
-- What a block of an account does, and what a right password does to it (`validateUser` of
-- auth/auth.service.ts).
use learn_nest_js.Shared.{
  ℕ, ◌+◌, ◌≤◌, ◌<◌, ◌≡◌, refl, arith, ◌∙◌, String, true, ltb, none, some, List, ◌*◌,
}
use learn_nest_js.Shared.Errors.{too_many_requests, login_too_many_attempts}
use learn_nest_js.Shared.Action.{ok, err, bind_went, bind_failed}
use learn_nest_js.Shared.Platform.{Platform}
use learn_nest_js.Shared.Redis.{Redis, RedisEntry, held, IsTtl}
use learn_nest_js.Schemas.{User}
use learn_nest_js.World.{World}
use learn_nest_js.RedisService.{ttl, del}
use learn_nest_js.Users.Login.{find_for_login}
use learn_nest_js.Reports.Resolve.{Passwords}
use learn_nest_js.Auth.Login.{
  login_fail_key, login_block_key, check_blocked, seconds_of, minutes_of, judge, check_password,
  validate_user, clear_failures,
}
use learn_nest_js.Auth.FailCount.{Blocks, block_entry, clear_failures_lem}
use learn_nest_js.Auth.Comparing.{validate_found}

enough :
    (s date now : ℕ) → date < now + s * 1000 + 1000 → date < now + minutes_of s * 60 * 1000 + 1000
enough s date now h = omega arith

no_more :
    (s date now : ℕ) → now + s * 1000 < date + 1000 → now + minutes_of s * 60 * 1000 < date + 60000
no_more s date now h = omega arith

module _ (redis : Redis) (id : String) where
  -- The seconds that are told of a block that is not over.
  ttl-blocked :
      (date now : ℕ) (es : List RedisEntry)
      → Blocks id date now es
      → now + 1000 ≤ date
      → ltb 0 (seconds_of (redis.ttl (login_block_key id) now es)) ≡ true
        × (date < now + seconds_of (redis.ttl (login_block_key id) now es) * 1000 + 1000)
        × (now + seconds_of (redis.ttl (login_block_key id) now es) * 1000 < date + 1000)
  ttl-blocked date now es blocks far =
      let (s, told, over, near) : IsTtl now (some (block_entry id date))
          (redis.ttl (login_block_key id) now es) =
        rw (blocks now (omega arith) (omega arith)) at
          (redis.ttl_lem (login_block_key id) now es) in
      rw told (ground arith, over, near)

  check_blocked-Blocks :
      (date : ℕ) (w : World)
      → Blocks id date w.now w.keys
      → w.now + 1000 ≤ date
      → check_blocked redis id w ≡ (
        err (
            too_many_requests (
              login_too_many_attempts
                (minutes_of (seconds_of (redis.ttl (login_block_key id) w.now w.keys))))),
        w,
      )
  unfolding check_blocked ttl
  check_blocked-Blocks date w blocks far = rw ((ttl-blocked date w.now w.keys blocks far).0) refl

  check_blocked-free :
      (w : World)
      → held (login_block_key id) w.now w.keys ≡ none
      → check_blocked redis id w ≡ (ok tt, w)
  unfolding check_blocked ttl
  check_blocked-free w free =
      let told : IsTtl w.now none (redis.ttl (login_block_key id) w.now w.keys) =
        rw free at (redis.ttl_lem (login_block_key id) w.now w.keys) in
      rw told refl

module _ (m : Platform) (redis : Redis) (passwords : Passwords) (cast_email : String → String) where
  -- While an account is blocked for a second or more, every attempt with it is refused, whatever the
  -- password: by the error 429 that tells the minutes left, rounded up: they are not over a second before the
  -- block is, and not a minute after it; and nothing changes.
  pub validate_user-blocked :
      (identifier password : String) (u : User) (date : ℕ) (w : World)
      → find_for_login m cast_email identifier w ≡ some u
      → u.has_password ≡ true
      → Blocks (m.object_id_text u.id) date w.now w.keys
      → w.now + 1000 ≤ date
      → (minutes : ℕ) × (validate_user m redis passwords cast_email identifier password w
          ≡ (err (too_many_requests (login_too_many_attempts minutes)), w))
        × (date < w.now + minutes * 60 * 1000 + 1000)
        × (w.now + minutes * 60 * 1000 < date + 60000)
  unfolding check_password
  validate_user-blocked identifier password u date w e has blocks far =
      let id = m.object_id_text u.id in
      let refusal = check_blocked-Blocks redis id date w blocks far in
      let seconds = seconds_of (redis.ttl (login_block_key id) w.now w.keys) in
      (
        minutes_of seconds,
        validate_found m redis passwords cast_email identifier password u w e has
            ∙ bind_failed (check_blocked redis id)
                (λ _. judge m redis passwords cast_email u (passwords.compare password u.password))
                refusal,
        enough seconds date w.now ((ttl-blocked redis id date w.now w.keys blocks far).1),
        no_more seconds date w.now ((ttl-blocked redis id date w.now w.keys blocks far).2),
      )

  -- With the right password, on an account that is not blocked, the user is returned; neither a failure nor a block is
  -- left at the account's keys; and nothing else changes.
  pub validate_user-right :
      (identifier password : String) (u : User) (w : World)
      → find_for_login m cast_email identifier w ≡ some u
      → u.has_password ≡ true
      → held (login_block_key (m.object_id_text u.id)) w.now w.keys ≡ none
      → passwords.compare password u.password ≡ true
      → (keys : List RedisEntry) × (validate_user m redis passwords cast_email identifier password w
          ≡ (ok (some u), record w { keys = keys }))
        × ((t : ℕ)
            → (held (login_fail_key (m.object_id_text u.id)) t keys ≡ none)
              × (held (login_block_key (m.object_id_text u.id)) t keys ≡ none))
  unfolding check_password judge clear_failures del
  validate_user-right identifier password u w e has free right =
      let id = m.object_id_text u.id in
      (
        (clear_failures redis id w).1.keys,
        validate_found m redis passwords cast_email identifier password u w e has
            ∙ bind_went (check_blocked redis id)
                (λ _. judge m redis passwords cast_email u (passwords.compare password u.password))
                (check_blocked-free redis id w free)
            ∙ (rw right refl),
        λ t. clear_failures_lem redis id w t,
      )
