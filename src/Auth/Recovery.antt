-- ===== src/Auth/Recovery.antt =====
-- A forgotten password: from the mail with a code to the next login (`sendMailForgotPassword` and
-- `resetPassword` of modules/users/user-password.service.ts, `validateUser` of auth/auth.service.ts).
use learn_nest_js.Shared.{
  ℕ, suc, ◌≤◌, ◌<◌, ◌≡◌, refl, sym, ap, ◌∙◌, arith, String, true, false, ◌==◌, str_eq, eq_iff, none,
  some, inl, inr, List, Option-cases, is_some, count,
}
use text.Mathlib.Text.{find?}
use learn_nest_js.Shared.Action.{ok, gets, pure, modify, bind_went, past_check, ◌>>=◌, ◌>>◌}
use learn_nest_js.Shared.Platform.{Platform}
use learn_nest_js.Shared.Redis.{
  Redis, RedisKey, RedisValue, RedisEntry, held, value_of, entry, is_alive,
}
use learn_nest_js.Shared.ListRedis.{same_key_refl}
use learn_nest_js.Schemas.{User}
use learn_nest_js.World.{World}
use learn_nest_js.RedisService.{until, get, set_with_ttl, del, ttl}
use learn_nest_js.Sessions.Service.{revoke_all_with_cleanup, revoke_all, add_revoke_all_job}
use learn_nest_js.CleanupJobs.Create.{try_cleanup_job, create_cleanup_job, insert_job}
use learn_nest_js.Users.Login.{find_by_email, find_for_login}
use learn_nest_js.Users.Codes.{
  CodeKind, CodeSettings, redis_key, verify_code, code_at, save_code, check_mail_cooldown,
}
use learn_nest_js.Users.Password.{
  may_reset, with_reset_password, users_after, save_user, reset_found, reset_password, send_code,
  send_mail_forgot_password, cooldown_seconds,
}
use learn_nest_js.Users.Resetting.{
  reset, reset_password_inv, found_reset, reset_password_found, may_reset_inv, revoke_keeps,
}
use learn_nest_js.Reports.Resolve.{Passwords}
use learn_nest_js.Auth.Login.{login_block_key, validate_user}
use learn_nest_js.Auth.FailCount.{is_alive-if}
use learn_nest_js.Auth.Blocking.{validate_user-right}

module _ (m : Platform) (redis : Redis) (settings : CodeSettings) (cast_email : String → String)
    (passwords : Passwords) where
  for_login :
      (email : String) (w : World)
      → is_some (find? email "@") ≡ true
      → find_for_login m cast_email email w ≡ find_by_email m cast_email email w
  unfolding find_for_login
  for_login email w h = rw h refl

  -- Where no two users have one id or one email: after a reset, the new password logs its user in, by an
  -- email that has an `@`, as long as the users are as they were and the account is not blocked; it logs in the
  -- user with the new password's hash, and with a higher token version than before.
  pub reset_password-validate_user :
      (email code password : String) (u : User) (w v : World) {t : Unit {0}}
      → ((i : ℕ) → count (λ d. d.id == i) w.users ≤ 1)
      → ((e : String) → count (λ d. str_eq d.email e) w.users ≤ 1)
      → is_some (find? email "@") ≡ true
      → (reset_password m redis settings cast_email passwords email code password w).0 ≡ ok t
      → find_by_email m cast_email email w ≡ some u
      → v.users
        ≡ (reset_password m redis settings cast_email passwords email code password w).1.users
      → held (login_block_key (m.object_id_text u.id)) v.now v.keys ≡ none
      → (keys : List RedisEntry) × (validate_user m redis passwords cast_email email password v ≡ (
        ok (some (with_reset_password (passwords.hash password) (suc u.token_version) u)),
        record v { keys = keys },
      ))
  reset_password-validate_user email code password u w v ids emails at h e same_users free =
      let (d, here, _, has, users, _) =
        reset_password_inv m redis settings cast_email passwords email code password w h in
      let it : d ≡ u = some_same (sym here ∙ e) in
      let after =
        found_reset m redis settings cast_email passwords email password u w v ids emails e (
          same_users
          ∙ users
          ∙ ap
              (λ x.
                (users_after m x.id
                  (with_reset_password (passwords.hash password) (suc x.token_version)) w).users)
              it) in
      let (keys, logged, _) =
        validate_user-right m redis passwords cast_email email password
          (with_reset_password (passwords.hash password) (suc u.token_version) u) v
          (for_login email v at ∙ after) (sym (ap (λ x. x.has_password) it) ∙ has) free
          (passwords.compare-hash password) in
      (keys, logged)
    where
      some_same : {a b : User} → some a ≡ some b → a ≡ b
      some_same k = cc

  check_mail_cooldown_keeps :
      (key : RedisKey) (expire cooldown : ℕ) (w : World)
      → (check_mail_cooldown redis settings key expire cooldown w).1 ≡ w
  unfolding check_mail_cooldown ttl
  check_mail_cooldown_keeps key expire cooldown w = ground arith

  abbrev forgot_key : User → RedisKey
  forgot_key u = redis_key CodeKind.forgot (m.object_id_text u.id)

  abbrev with_code : User → String → World → List RedisEntry
  with_code u code w =
      redis.set (forgot_key u) (RedisValue.chars (settings.hash_code code))
        (until w.now (settings.expire_seconds CodeKind.forgot)) w.keys

  send_code_inv :
      (u : User) (w : World) {code : String}
      → (send_code m redis settings cast_email (some u) w).0 ≡ ok (some code)
      → ((send_code m redis settings cast_email (some u) w).1.users ≡ w.users)
        × ((send_code m redis settings cast_email (some u) w).1.keys ≡ with_code u code w)
  unfolding save_code set_with_ttl
  send_code_inv u w {code} h =
      let fresh = settings.new_code w.created in
      let rest = λ (t : Unit {0}). gets (λ (x : World). settings.new_code x.created) >>= λ c.
      modify (λ x. record x { created = suc x.created })
      >> (save_code redis settings (m.object_id_text u.id) c CodeKind.forgot >> pure (some c)) in
      let (_, _, went) =
        past_check
          (check_mail_cooldown redis settings (forgot_key u)
            (settings.expire_seconds CodeKind.forgot) cooldown_seconds)
          rest w h
          (λ a _.
            check_mail_cooldown_keeps (forgot_key u) (settings.expire_seconds CodeKind.forgot)
              cooldown_seconds w) in
      let it : fresh ≡ code = same (sym (ap (λ r. r.0) went) ∙ h) in
      (ap (λ r. r.1.users) went, ap (λ r. r.1.keys) went ∙ ap (λ c. with_code u c w) it)
    where
      same : {a b : String} → ok (some a) ≡ ok (some b) → a ≡ b
      same k = cc

  -- What a mail with a code has left.
  send_mail_inv :
      (email : String) (w : World) {code : String}
      → (send_mail_forgot_password m redis settings cast_email email w).0 ≡ ok (some code)
      → (u : User) × (find_by_email m cast_email email w ≡ some u)
        × (u.is_disabled ≡ false)
        × (u.has_password ≡ true)
        × ((send_mail_forgot_password m redis settings cast_email email w).1.users ≡ w.users)
        × ((send_mail_forgot_password m redis settings cast_email email w).1.keys
            ≡ with_code u code w)
  unfolding send_mail_forgot_password
  send_mail_inv email w {code} h =
      elim (Option-cases (may_reset (find_by_email m cast_email email w))) [
        | inl e ↦ absurd (clash (rw e at h))
        | inr (u, e) ↦
            let (here, enabled, has) = may_reset_inv (find_by_email m cast_email email w) e in
            let (users, keys) = send_code_inv u w {code = code} (rw e at h) in
            (u, here, enabled, has, rw e users, rw e keys)
      ]
    where
      clash : ok none ≡ ok (some code) → ⊥
      clash k = cc

  alive : (t date : ℕ) → t < date → is_alive (some date) t ≡ true
  alive t date h = ground arith

  code_at-some : (s : String) → str_eq s "" ≡ false → code_at (some (RedisValue.chars s)) ≡ some s
  code_at-some s h = rw h refl

  held-with_code :
      (u : User) (code : String) (w : World) (t : ℕ)
      → t < until w.now (settings.expire_seconds CodeKind.forgot)
      → redis.get (forgot_key u) t (with_code u code w)
        ≡ some (RedisValue.chars (settings.hash_code code))
  held-with_code u code w t early =
      let date = until w.now (settings.expire_seconds CodeKind.forgot) in
      let value = RedisValue.chars (settings.hash_code code) in
      redis.get_lem (forgot_key u) t (with_code u code w)
      ∙ ap value_of (
          (rw (same_key_refl (forgot_key u)) at
            (redis.set_lem (forgot_key u) value date w.keys (forgot_key u) t))
          ∙ is_alive-if (entry (forgot_key u) value (some date)) t (alive t date early))

  -- The code of the mail is accepted.
  verify_code-right :
      (u : User) (code : String) (v : World)
      → redis.get (forgot_key u) v.now v.keys ≡ some (RedisValue.chars (settings.hash_code code))
      → verify_code redis settings (forgot_key u) code v
        ≡ (ok tt, record v { keys = redis.del (forgot_key u) v.keys })
  unfolding verify_code get del
  verify_code-right u code v e =
      rw
        (
          e,
          settings.hash_code_nonempty code,
          (eq_iff (settings.hash_code code) (settings.hash_code code)).1 refl,
        )
        refl

  found_same :
      (email : String) (v w : World)
      → v.users ≡ w.users
      → find_by_email m cast_email email v ≡ find_by_email m cast_email email w
  unfolding find_by_email
  found_same email v w same = ap (m.find_one (λ u. str_eq u.email (cast_email email))) same

  revoke_all_ok : (id : String) (w : World) → (revoke_all_with_cleanup m id w).0 ≡ ok tt
  unfolding revoke_all_with_cleanup revoke_all add_revoke_all_job try_cleanup_job create_cleanup_job
      insert_job
  revoke_all_ok id w = ground arith

  -- The code of a mail that was asked for resets the password, until its lifetime is over: where the users and the keys
  -- are then as the mail left them. The users hold then what the reset makes of the one who was found by the email.
  pub send_mail-reset_password :
      (email code password : String) (w v : World)
      → (send_mail_forgot_password m redis settings cast_email email w).0 ≡ ok (some code)
      → v.users ≡ (send_mail_forgot_password m redis settings cast_email email w).1.users
      → v.keys ≡ (send_mail_forgot_password m redis settings cast_email email w).1.keys
      → v.now < until w.now (settings.expire_seconds CodeKind.forgot)
      → ((reset_password m redis settings cast_email passwords email code password v).0 ≡ ok tt)
        × (u : User) × (find_by_email m cast_email email w ≡ some u)
        × ((reset_password m redis settings cast_email passwords email code password v).1.users
            ≡ (users_after m u.id
                (with_reset_password (passwords.hash password) (suc u.token_version))
                w).users)
  unfolding reset_found save_user
  send_mail-reset_password email code password w v sent same_users same_keys early =
      let (u, here, enabled, has, users, keys) = send_mail_inv email w {code = code} sent in
      let there : find_by_email m cast_email email v ≡ some u =
        found_same email v w (same_users ∙ users) ∙ here in
      let stored =
        ap (redis.get (forgot_key u) v.now) (same_keys ∙ keys)
        ∙ held-with_code u code w v.now early in
      let went =
        reset_password_found m redis settings cast_email passwords email code password u v there
          enabled has
        ∙ bind_went (verify_code redis settings (forgot_key u) code)
            (λ _.
              save_user m u.id (reset m redis settings cast_email passwords password u)
              >> revoke_all_with_cleanup m (m.object_id_text u.id))
            (verify_code-right u code v stored) in
      let x =
        users_after m u.id (reset m redis settings cast_email passwords password u)
          (record v { keys = redis.del (forgot_key u) v.keys }) in
      (
        ap (λ r. r.0) went ∙ revoke_all_ok (m.object_id_text u.id) x,
        u,
        here,
        ap (λ r. r.1.users) went
            ∙ (revoke_keeps m redis settings cast_email (m.object_id_text u.id) x).0
            ∙ ap
                (λ us.
                  (m.find_one_and_update (λ d. d.id == u.id)
                    (reset m redis settings cast_email passwords password u) us).1)
                (same_users ∙ users),
      )
