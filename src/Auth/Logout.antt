-- ===== src/Auth/Logout.antt =====
-- `logout`, `logoutAllDevices` and `logoutAllDevicesByAdmin` of auth.service.ts. The audit log is
-- left out.
use learn_nest_js.Shared.{suc, String, Bool, false, ◌&&◌, ◌||◌, not, str_eq, if◌then◌else◌}
use learn_nest_js.Shared.Errors.{
  Exception, bad_request, forbidden, internal_server_error, of_auth, of_user, AuthMessage,
  UserMessage,
}
use learn_nest_js.Shared.Action.{or_raise, raise, raise_if, pure, try_catch, ◌>>=◌, ◌>>◌}
use learn_nest_js.Shared.Platform.{Platform}
use learn_nest_js.Schemas.{User, UserRole}
use learn_nest_js.World.{Action, session_revoked, all_sessions_revoked, to_object_id}
use learn_nest_js.Users.{find_one, check_user}
use learn_nest_js.Sessions.Service.{revoke_with_cleanup, revoke_all_with_cleanup}
use learn_nest_js.Reports.Penalty.{save, is_admin, is_super_admin}
use learn_nest_js.Reports.Resolve.{emit}
use learn_nest_js.Auth.Tokens.{Claims, RefreshTokens}
use learn_nest_js.Auth.Refresh.{refuse, is_http, read_claims}

abbrev pub next_version : User → User
next_version user = record user { token_version = suc user.token_version }

abbrev pub logout_all_failed : Exception
logout_all_failed = internal_server_error (of_auth AuthMessage.logout_all_failed)

-- Whether an administrator of a role may not log out a user of another.
abbrev pub is_protected : UserRole → UserRole → Bool → Bool
is_protected by role is_self =
    (is_admin by && (is_admin role || is_super_admin role))
    || (is_super_admin by && is_super_admin role && not is_self)

module _ (m : Platform) where
  module _ (tokens : RefreshTokens) where
    abbrev pub end_session : String → Claims → Action (Unit {0})
    end_session user_id claims = do
      raise_if (not (str_eq claims.user_id user_id)) (refuse AuthMessage.invalid_token)
      revoke_with_cleanup m claims.session_id user_id
      emit (session_revoked user_id claims.session_id)

    -- `logout`; every error is logged and dropped.
    unfoldable pub logout : String → String → Action (Unit {0})
    logout token user_id =
        if str_eq token ""
        then pure tt
        else try_catch (read_claims m tokens token >>= end_session user_id) (λ e. pure tt)

  -- A higher token version, and every session revoked.
  unfoldable pub end_all : String → User → Action (Unit {0})
  end_all user_id user = do
    save m user.id (next_version user)
    revoke_all_with_cleanup m user_id
    emit (all_sessions_revoked user_id)

  -- The user that may log out.
  unfoldable pub find_enabled : String → Action User
  find_enabled user_id = do
    found ← find_one m user_id
    user ← or_raise found (refuse AuthMessage.user_not_found)
    raise_if user.is_disabled (refuse AuthMessage.user_disabled)
    pure user

  -- `logoutAllDevices`
  unfoldable pub logout_all_devices : String → Action (Unit {0})
  logout_all_devices user_id =
      try_catch (find_enabled user_id >>= end_all user_id) (λ e. raise logout_all_failed)

  unfoldable pub find_unprotected : String → String → UserRole → Action User
  find_unprotected user_id admin_id admin_role = do
    to_object_id m user_id "userId"
    to_object_id m admin_id "adminId"
    raise_if (str_eq user_id admin_id && not (is_super_admin admin_role))
        (bad_request (of_user UserMessage.can_not_change_me))
    (user, _) ← check_user m user_id false false false
    raise_if (is_protected admin_role user.role (str_eq user_id admin_id))
        (forbidden (of_auth AuthMessage.missing_permission))
    pure user

  -- `logoutAllDevicesByAdmin`
  unfoldable pub logout_all_devices_by_admin : String → String → UserRole → Action (Unit {0})
  logout_all_devices_by_admin user_id admin_id admin_role =
      try_catch (find_unprotected user_id admin_id admin_role >>= end_all user_id)
        (λ e. raise (if is_http e then e else logout_all_failed))
