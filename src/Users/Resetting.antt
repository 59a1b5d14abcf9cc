-- ===== src/Users/Resetting.antt =====
-- What a reset of a password leaves behind (`resetPassword` of modules/users/user-password.service.ts).
use learn_nest_js.Shared.{
  ℕ, suc, ◌≤◌, ◌≡◌, refl, sym, ap, subst, ◌∙◌, arith, String, true, false, not, ◌==◌, ==_iff,
  str_eq, Option, none, some, inl, inr, Option-cases, Bool-cases, count, ◌||◌,
}
use learn_nest_js.Shared.Errors.{bad_request, of_user, UserMessage, Exception}
use learn_nest_js.Shared.Action.{ok, err, bind_inv, bind_failed, ◌>>◌}
use learn_nest_js.Shared.Platform.{Platform}
use learn_nest_js.Shared.Documents.{found, found_of_mem, update_of_mem, update_hit}
use learn_nest_js.Shared.Counting.{the_only, count-update_same}
use learn_nest_js.Shared.Redis.{Redis, RedisKey, held}
use learn_nest_js.Shared.ListRedis.{same_key_refl}
use learn_nest_js.Schemas.{User}
use learn_nest_js.World.{World}
use learn_nest_js.RedisService.{get, del}
use learn_nest_js.Sessions.Service.{revoke_all_with_cleanup, revoke_all, add_revoke_all_job}
use learn_nest_js.CleanupJobs.Create.{try_cleanup_job, create_cleanup_job, insert_job}
use learn_nest_js.Users.Login.{find_by_email}
use learn_nest_js.Users.Codes.{CodeKind, CodeSettings, redis_key, verify_code}
use learn_nest_js.Users.Password.{
  may_reset, with_reset_password, users_after, save_user, reset_found, reset_password,
}
use learn_nest_js.Reports.Resolve.{Passwords}

abbrev pub code_expired : Exception
code_expired = bad_request (of_user UserMessage.code_expired)

pub may_reset_inv :
    (o : Option User) {u : User}
    → may_reset o ≡ some u
    → (o ≡ some u) × (u.is_disabled ≡ false) × (u.has_password ≡ true)
may_reset_inv none h = absurd (clash h)
  where
    clash : {u : User} → none ≡ some u → ⊥
    clash k = cc
may_reset_inv (some v) {u} h = elim (Bool-cases (v.is_disabled || not v.has_password)) [
  | inl e ↦ absurd (clash (rw e at h))
  | inr e ↦
      let same = some_same (rw e at h) in
      (ap some same, ground (arith, e, same), ground (arith, e, same))
]
  where
    clash : {u : User} → none ≡ some u → ⊥
    clash k = cc

    some_same : {a b : User} → some a ≡ some b → a ≡ b
    some_same k = cc

module _ (redis : Redis) (settings : CodeSettings) where
  -- A code that is verified is gone.
  verify_code_inv :
      (key : RedisKey) (code : String) (w : World) {t : Unit {0}}
      → (verify_code redis settings key code w).0 ≡ ok t
      → verify_code redis settings key code w ≡ (ok tt, record w { keys = redis.del key w.keys })
  unfolding verify_code get del
  verify_code_inv key code w h = ground (arith, h)

  verify_code-gone :
      (key : RedisKey) (code : String) (w : World)
      → held key w.now w.keys ≡ none
      → verify_code redis settings key code w ≡ (err code_expired, w)
  unfolding verify_code get
  verify_code-gone key code w gone = rw (redis.get_lem key w.now w.keys, gone) refl

module _ (m : Platform) (redis : Redis) (settings : CodeSettings)
    (cast_email : String → String) where
  pub revoke_keeps :
      (id : String) (w : World)
      → ((revoke_all_with_cleanup m id w).1.users ≡ w.users)
        × ((revoke_all_with_cleanup m id w).1.keys ≡ w.keys)
  unfolding revoke_all_with_cleanup revoke_all add_revoke_all_job try_cleanup_job create_cleanup_job
      insert_job
  revoke_keeps id w = (ground arith, ground arith)

  abbrev pub key_of : User → RedisKey
  key_of u = redis_key CodeKind.forgot (m.object_id_text u.id)

  abbrev pub reset : Passwords → String → User → User → User
  reset passwords password u = with_reset_password (passwords.hash password) (suc u.token_version)

  reset_found_inv :
      (passwords : Passwords) (u : User) (code password : String) (w : World) {t : Unit {0}}
      → (reset_found m redis settings cast_email passwords u code password w).0 ≡ ok t
      → ((reset_found m redis settings cast_email passwords u code password w).1.users
          ≡ (users_after m u.id (reset passwords password u) w).users)
        × ((reset_found m redis settings cast_email passwords u code password w).1.keys
            ≡ redis.del (key_of u) w.keys)
  unfolding reset_found save_user
  reset_found_inv passwords u code password w h =
      let verify = verify_code redis settings (key_of u) code in
      let rest = λ (t : Unit {0}).
        save_user m u.id (reset passwords password u)
        >> revoke_all_with_cleanup m (m.object_id_text u.id) in
      let (t, checked, went) = bind_inv verify rest h in
      let gone = verify_code_inv redis settings (key_of u) code w checked in
      let v =
        users_after m u.id (reset passwords password u)
          (record w { keys = redis.del (key_of u) w.keys }) in
      let last = went ∙ ap (λ r. rest tt r.1) gone in
      let (users, keys) = revoke_keeps (m.object_id_text u.id) v in
      (ap (λ r. r.1.users) last ∙ users, ap (λ r. r.1.keys) last ∙ keys)

  pub reset_password_inv :
      (passwords : Passwords) (email code password : String) (w : World) {t : Unit {0}}
      → (reset_password m redis settings cast_email passwords email code password w).0 ≡ ok t
      → (u : User) × (find_by_email m cast_email email w ≡ some u)
        × (u.is_disabled ≡ false)
        × (u.has_password ≡ true)
        × ((reset_password m redis settings cast_email passwords email code password w).1.users
            ≡ (users_after m u.id (reset passwords password u) w).users)
        × ((reset_password m redis settings cast_email passwords email code password w).1.keys
            ≡ redis.del (key_of u) w.keys)
  unfolding reset_password
  reset_password_inv passwords email code password w h =
      elim (Option-cases (may_reset (find_by_email m cast_email email w))) [
        | inl e ↦ absurd (clash (rw e at h))
        | inr (u, e) ↦
            let (here, enabled, has) = may_reset_inv (find_by_email m cast_email email w) e in
            let (users, keys) = reset_found_inv passwords u code password w (rw e at h) in
            (u, here, enabled, has, rw e users, rw e keys)
      ]
    where
      clash : {x : Exception} {t : Unit {0}} → err x ≡ ok t → ⊥
      clash k = cc

  -- Where no two users have one id or one email, the user who was reset is found by the email afterwards.
  pub found_reset :
      (passwords : Passwords) (email password : String) (u : User) (w v : World)
      → ((i : ℕ) → count (λ d. d.id == i) w.users ≤ 1)
      → ((e : String) → count (λ d. str_eq d.email e) w.users ≤ 1)
      → find_by_email m cast_email email w ≡ some u
      → v.users ≡ (users_after m u.id (reset passwords password u) w).users
      → find_by_email m cast_email email v ≡ some (reset passwords password u u)
  unfolding find_by_email
  found_reset passwords email password u w v ids emails e after =
      let f = reset passwords password u in
      let own = λ (d : User). d.id == u.id in
      let named = λ (d : User). str_eq d.email (cast_email email) in
      let (mine, here) = found m named w.users e in
      let self : (u.id == u.id) ≡ true = (==_iff u.id u.id).1 refl in
      let (y, hit) = update_of_mem m own f w.users u here self in
      let (d, d-own, made, d-here, stored) = update_hit m own f w.users hit in
      let it : d ≡ u = the_only own w.users (ids u.id) d-here here d-own self in
      let y-is : y ≡ f u = made ∙ ap f it in
      let y-named : named y ≡ true = subst (λ z. named z ≡ true) (sym y-is) mine in
      let (z, got, z-named) =
        found_of_mem m named (m.find_one_and_update own f w.users).1 y stored y-named in
      let (_, z-here) = found m named (m.find_one_and_update own f w.users).1 got in
      let one : count named (m.find_one_and_update own f w.users).1 ≤ 1 =
        rw (count-update_same m named own f w.users (λ d k. refl)) (emails (cast_email email)) in
      let same : z ≡ y =
        the_only named (m.find_one_and_update own f w.users).1 one z-here stored z-named y-named in
      ap (m.find_one named) after ∙ got ∙ ap some (same ∙ y-is)

  pub reset_password_found :
      (passwords : Passwords) (email code password : String) (u : User) (v : World)
      → find_by_email m cast_email email v ≡ some u
      → u.is_disabled ≡ false
      → u.has_password ≡ true
      → reset_password m redis settings cast_email passwords email code password v
        ≡ reset_found m redis settings cast_email passwords u code password v
  unfolding reset_password
  reset_password_found passwords email code password u v e enabled has = rw (e, enabled, has) refl

  reset_found-gone :
      (passwords : Passwords) (u : User) (code password : String) (v : World)
      → held (key_of u) v.now v.keys ≡ none
      → reset_found m redis settings cast_email passwords u code password v ≡ (err code_expired, v)
  unfolding reset_found
  reset_found-gone passwords u code password v gone =
      bind_failed (verify_code redis settings (key_of u) code)
        (λ _.
          save_user m u.id (reset passwords password u)
          >> revoke_all_with_cleanup m (m.object_id_text u.id))
        (verify_code-gone redis settings (key_of u) code v gone)

  -- Where no two users have one id or one email: a code resets a password once. Once it has, it is
  -- refused as expired, whatever password it comes with and whenever, as long as no new code is sent and the users are
  -- as they were; and nothing changes.
  pub reset_password-once :
      (passwords : Passwords) (email code password again : String) (w v : World) {t : Unit {0}}
      → ((i : ℕ) → count (λ d. d.id == i) w.users ≤ 1)
      → ((e : String) → count (λ d. str_eq d.email e) w.users ≤ 1)
      → (reset_password m redis settings cast_email passwords email code password w).0 ≡ ok t
      → v.users
        ≡ (reset_password m redis settings cast_email passwords email code password w).1.users
      → v.keys ≡ (reset_password m redis settings cast_email passwords email code password w).1.keys
      → reset_password m redis settings cast_email passwords email code again v
        ≡ (err code_expired, v)
  reset_password-once passwords email code password again w v ids emails h same_users same_keys =
      let (u, here, enabled, has, users, keys) =
        reset_password_inv passwords email code password w h in
      let u' = reset passwords password u u in
      let it = found_reset passwords email password u w v ids emails here (same_users ∙ users) in
      let gone =
        ap (held (key_of u) v.now) (same_keys ∙ keys)
        ∙ (rw (same_key_refl (key_of u)) at (redis.del_lem (key_of u) w.keys (key_of u) v.now)) in
      reset_password_found passwords email code again u' v it enabled has
      ∙ reset_found-gone passwords u' code again v gone
