-- ===== src/Users/Password.antt =====
-- modules/users/user-password.service.ts. The mail that carries a code is sent by a mail service, whose
-- failure is only logged: here `send_mail_forgot_password` returns the code that the mail would carry.
use learn_nest_js.Shared.{
  ℕ, suc, String, Bool, true, not, ◌==◌, ◌||◌, Option, none, some, if◌then◌else◌,
}
use learn_nest_js.Shared.Errors.{bad_request, of_user, UserMessage}
use learn_nest_js.Shared.Action.{or_raise, raise_if, gets, pure, modify, ◌>>=◌, ◌>>◌}
use learn_nest_js.Shared.Platform.{Platform}
use learn_nest_js.Shared.Redis.{Redis}
use learn_nest_js.Schemas.{User}
use learn_nest_js.World.{World, Action}
use learn_nest_js.Users.{check_user}
use learn_nest_js.Users.Login.{find_by_email}
use learn_nest_js.Users.Codes.{
  CodeKind, CodeSettings, redis_key, verify_code, check_mail_cooldown, save_code,
}
use learn_nest_js.Reports.Resolve.{Passwords}
use learn_nest_js.Sessions.Service.{revoke_all_with_cleanup, revoke_all_except_with_cleanup}

-- GLOBAL_CONSTANTS.COOLDOWN_SECONDS
abbrev pub cooldown_seconds : ℕ
cooldown_seconds = 60

-- `user.save()`, which writes the fields that were assigned.
abbrev pub with_password : String → User → User
with_password hash u = record u { password = hash }

abbrev pub with_first_password : String → User → User
with_first_password hash u = record u { password = hash; has_password = true }

abbrev pub with_reset_password : String → ℕ → User → User
with_reset_password hash version u = record u { password = hash; token_version = version }

-- `!user || user.isDisabled || user.hasPassword === false`
abbrev pub may_reset : Option User → Option User
may_reset none = none
may_reset (some u) = if u.is_disabled || not u.has_password then none else some u

module _ (m : Platform) where
  abbrev pub users_after : ℕ → (User → User) → World → World
  users_after i f w = record w { users = (m.find_one_and_update (λ u. u.id == i) f w.users).1 }

  unfoldable pub save_user : ℕ → (User → User) → Action (Unit {0})
  save_user i f = modify (users_after i f)

module _ (m : Platform) (passwords : Passwords) where
  -- `updatePassword`
  unfoldable pub update_password : String → String → String → String → Action (Unit {0})
  update_password id password_old password_new current_session_id = do
    (user, _) ← check_user m id true true true
    raise_if (not user.has_password) (bad_request (of_user UserMessage.password_not_set))
    raise_if (not (passwords.compare password_old user.password))
        (bad_request (of_user UserMessage.invalid_password))
    save_user m user.id (with_password (passwords.hash password_new))
    revoke_all_except_with_cleanup m id current_session_id

  -- `createPassword`
  unfoldable pub create_password : String → String → Action (Unit {0})
  create_password id password = do
    (user, _) ← check_user m id true true true
    raise_if user.has_password (bad_request (of_user UserMessage.password_already_set))
    save_user m user.id (with_first_password (passwords.hash password))

  -- `confirmPassword`
  unfoldable pub confirm_password : String → String → Action Bool
  confirm_password user_id password = do
    (user, _) ← check_user m user_id true true true
    raise_if (not user.has_password) (bad_request (of_user UserMessage.password_not_set))
    raise_if (not (passwords.compare password user.password))
        (bad_request (of_user UserMessage.password_not_match))
    pure true

module _ (m : Platform) (redis : Redis) (settings : CodeSettings)
    (cast_email : String → String) where
  abbrev pub send_code : Option User → Action (Option String)
  send_code none = pure none
  send_code (some user) = do
    check_mail_cooldown redis settings (redis_key CodeKind.forgot (m.object_id_text user.id))
        (settings.expire_seconds CodeKind.forgot) cooldown_seconds
    code ← gets (λ w. settings.new_code w.created)
    modify (λ w. record w { created = suc w.created })
    save_code redis settings (m.object_id_text user.id) code CodeKind.forgot
    pure (some code)

  -- `sendMailForgotPassword`
  unfoldable pub send_mail_forgot_password : String → Action (Option String)
  send_mail_forgot_password email = do
    found ← gets (find_by_email m cast_email email)
    send_code (may_reset found)

  -- What follows the look-up of the user.
  unfoldable pub reset_found : Passwords → User → String → String → Action (Unit {0})
  reset_found passwords user code password = do
    verify_code redis settings (redis_key CodeKind.forgot (m.object_id_text user.id)) code
    save_user m user.id (with_reset_password (passwords.hash password) (suc user.token_version))
    revoke_all_with_cleanup m (m.object_id_text user.id)

  -- `resetPassword`
  unfoldable pub reset_password : Passwords → String → String → String → Action (Unit {0})
  reset_password passwords email code password = do
    found ← gets (find_by_email m cast_email email)
    user ← or_raise (may_reset found) (bad_request (of_user UserMessage.invalid_code))
    reset_found passwords user code password
