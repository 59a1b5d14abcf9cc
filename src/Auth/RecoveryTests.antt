-- ===== src/Auth/RecoveryTests.antt =====
-- A password that is forgotten, on the list platform and on Redis over a list, and instances of the theorems.
use learn_nest_js.Shared.{
  ℕ, suc, ◌≡◌, ◌≤◌, refl, arith, String, str_eq, eq_iff, ◌==◌, some, [], ◌∷◌, List, count,
}
use learn_nest_js.Shared.Action.{ok, err}
use learn_nest_js.Shared.ListPlatform.{list_platform}
use learn_nest_js.Shared.ListRedis.{list_redis}
use learn_nest_js.Shared.Redis.{RedisEntry}
use learn_nest_js.Schemas.{User}
use learn_nest_js.Samples.{empty_world, sample_user}
use learn_nest_js.World.{World}
use learn_nest_js.RedisService.{incr_with_ttl, set_with_ttl, ttl, del, get}
use learn_nest_js.Sessions.Service.{revoke_all_with_cleanup, revoke_all}
use learn_nest_js.Users.Login.{find_by_email, find_for_login}
use learn_nest_js.Users.Codes.{CodeSettings, verify_code, save_code, check_mail_cooldown}
use learn_nest_js.Users.Password.{
  save_user, reset_found, reset_password, send_mail_forgot_password, with_reset_password,
  users_after,
}
use learn_nest_js.Users.Resetting.{code_expired, reset_password-once}
use learn_nest_js.Reports.Resolve.{Passwords}
use learn_nest_js.Auth.Login.{
  block_seconds, check_blocked, record_failure, clear_failures, judge, check_password,
  validate_user,
}
use learn_nest_js.Auth.Recovery.{reset_password-validate_user, send_mail-reset_password}

opened : Unit {0}
unfolding incr_with_ttl set_with_ttl ttl del get find_by_email find_for_login block_seconds
    check_blocked record_failure clear_failures judge check_password validate_user
    revoke_all_with_cleanup revoke_all verify_code save_code check_mail_cooldown save_user
    reset_found reset_password send_mail_forgot_password
opened = tt

abbrev plain : Passwords
plain = record {
  compare = λ raw hash. str_eq raw hash;
  hash = λ raw. raw;
  compare-hash = λ raw. (eq_iff raw raw).1 refl;
}

-- Every code is "code".
abbrev one_code : CodeSettings
one_code = record {
  hash_code = λ code. "hash";
  new_code = λ n. "code";
  expire_seconds = λ kind. 300;
  hash_code_nonempty = λ code. refl;
}

abbrev mei : User
mei = record (sample_user 1) { email = "mei@x"; password = "secret" }

abbrev at_home : World
at_home = record empty_world { users = mei ∷ [] }

abbrev mailed : World
mailed = (send_mail_forgot_password list_platform list_redis one_code (λ s. s) "mei@x" at_home).1

abbrev reset_world : World
reset_world =
    (reset_password list_platform list_redis one_code (λ s. s) plain "mei@x" "code" "new" mailed).1

one_id : (i : ℕ) → count (λ (u : User). u.id == i) mailed.users ≤ 1
unfolding opened
one_id i = ground arith

one_email : (e : String) → count (λ (u : User). str_eq u.email e) mailed.users ≤ 1
unfolding opened
one_email e = ground arith

reset_password-once_example :
    reset_password list_platform list_redis one_code
      (λ s. s)
      plain
      "mei@x"
      "code"
      "newer"
      reset_world
    ≡ (err code_expired, reset_world)
unfolding opened
reset_password-once_example =
    reset_password-once list_platform list_redis one_code (λ s. s) plain "mei@x" "code" "new"
      "newer" mailed reset_world one_id one_email refl refl refl

reset_password-validate_user_example :
    (keys : List RedisEntry) × (validate_user list_platform list_redis plain
        (λ s. s)
        "mei@x"
        "new"
        reset_world
      ≡ (ok (some (with_reset_password "new" 1 mei)), record reset_world { keys = keys }))
unfolding opened
reset_password-validate_user_example =
    reset_password-validate_user list_platform list_redis one_code (λ s. s) plain "mei@x" "code"
      "new" mei mailed reset_world one_id one_email refl refl refl refl refl

send_mail-reset_password_example :
    ((reset_password list_platform list_redis one_code (λ s. s) plain "mei@x" "code" "new" mailed).0
      ≡ ok tt)
    × (u : User) × (find_by_email list_platform (λ s. s) "mei@x" at_home ≡ some u)
    × (reset_world.users
        ≡ (users_after list_platform u.id
            (with_reset_password "new" (suc u.token_version))
            at_home).users)
unfolding opened
send_mail-reset_password_example =
    send_mail-reset_password list_platform list_redis one_code (λ s. s) plain "mei@x" "code" "new"
      at_home mailed refl refl refl (omega arith)
