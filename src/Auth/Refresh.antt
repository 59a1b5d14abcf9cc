-- ===== src/Auth/Refresh.antt =====
-- `refreshToken` of auth.service.ts. What is logged is left out.
use learn_nest_js.Shared.{
  ℕ, String, Bool, true, false, ◌==◌, not, str_eq, ltb, Option, none, some, if◌then◌else◌,
}
use learn_nest_js.Shared.Errors.{
  Exception, unauthorized, token_error, driver_error, validation_error, of_auth, AuthMessage,
  account_banned_until,
}
use learn_nest_js.Shared.Action.{or_raise, raise, raise_if, gets, pure, try_catch, ◌>>=◌, ◌>>◌}
use learn_nest_js.Shared.Platform.{Platform}
use learn_nest_js.Schemas.{Session}
use learn_nest_js.World.{Action, is_later}
use learn_nest_js.Users
use learn_nest_js.Sessions.Service.{
  find_by_id, rotate, revoke_with_cleanup, revoke_all_with_cleanup,
}
use learn_nest_js.Auth.Tokens.{Claims, TokenPair, RefreshTokens, safe_compare, generate_jwt}

abbrev pub refuse : AuthMessage → Exception
refuse message = unauthorized (of_auth message)

-- `error instanceof HttpException`
abbrev pub is_http : Exception → Bool
is_http (driver_error code) = false
is_http validation_error = false
is_http (token_error is_expired) = false
is_http _ = true

abbrev pub or_expired : Exception → Exception
or_expired e = if is_http e then e else refuse AuthMessage.expired_refresh_token

-- `date && date < now`
abbrev pub is_past : Option ℕ → ℕ → Bool
is_past none now = false
is_past (some date) now = ltb date now

module _ (m : Platform) (tokens : RefreshTokens) where
  abbrev pub read_claims : String → Action Claims
  read_claims token w = (tokens.verify token w.now, w)

  -- `if (test) { revoke all sessions; throw }`
  abbrev pub revoke_all_if : Bool → String → Exception → Action (Unit {0})
  revoke_all_if true id e = revoke_all_with_cleanup m id >> raise e
  revoke_all_if false id e = pure tt

  abbrev pub ban_refusal : Option ℕ → Exception
  ban_refusal none = refuse AuthMessage.invalid_token
  ban_refusal (some date) = unauthorized (account_banned_until date)

  -- The refusals by the user.
  unfoldable pub check_holder : Claims → Action (Unit {0})
  check_holder claims = do
    found ← Users.find_one m claims.user_id
    user ← or_raise found (refuse AuthMessage.user_not_found)
    revoke_all_if user.is_disabled claims.user_id (refuse AuthMessage.user_disabled)
    now ← gets (λ w. w.now)
    revoke_all_if (is_later user.ban_until now) claims.user_id (ban_refusal user.ban_until)
    revoke_all_if (not (claims.token_version == user.token_version)) claims.user_id
        (refuse AuthMessage.invalid_token)

  abbrev pub revoke_if : Bool → String → String → Exception → Action (Unit {0})
  revoke_if true id user_id e = revoke_with_cleanup m id user_id >> raise e
  revoke_if false id user_id e = pure tt

  -- The refusals by the session that was found.
  unfoldable pub check_session : String → Claims → Option Session → Action Session
  check_session token claims found = do
    session ← or_raise found (refuse AuthMessage.session_not_found)
    raise_if session.is_revoked (refuse AuthMessage.session_revoked)
    now ← gets (λ w. w.now)
    revoke_if (is_past session.expires_at now) (m.object_id_text session.id) claims.user_id
        (refuse AuthMessage.session_expired)
    raise_if (not (str_eq (m.object_id_text session.user_id) claims.user_id))
        (refuse AuthMessage.invalid_token)
    raise_if (not (safe_compare (some (tokens.hash token)) session.refresh_token_hash))
        (refuse AuthMessage.invalid_refresh_token)
    pure session

  -- A new pair of tokens, and its hash in the session.
  unfoldable pub renew : Claims → Session → Action TokenPair
  renew claims session = do
    pair ← generate_jwt tokens claims
    rotate m (m.object_id_text session.id) (tokens.hash pair.refresh_token) pair.expire_date
    pure pair

  abbrev pub use_session : String → Claims → Action TokenPair
  use_session token claims =
      find_by_id m claims.session_id >>= check_session token claims >>= renew claims

  abbrev pub use_claims : String → Claims → Action TokenPair
  use_claims token claims = check_holder claims >> use_session token claims

  -- The `try` of `refreshToken`.
  unfoldable pub refresh : String → Action TokenPair
  refresh token = read_claims token >>= use_claims token

  abbrev pub revoke_decoded : Option Claims → Action (Unit {0})
  revoke_decoded none = pure tt
  revoke_decoded (some claims) =
      if str_eq claims.user_id ""
      then pure tt
      else try_catch (revoke_with_cleanup m claims.session_id claims.user_id) (λ e. pure tt)

  abbrev pub clean_up : String → Exception → Action (Unit {0})
  clean_up token (token_error true) = revoke_decoded (tokens.decode token)
  clean_up token e = pure tt

  -- `refreshToken`
  unfoldable pub refresh_token : String → Action TokenPair
  refresh_token token =
      if str_eq token ""
      then raise (refuse AuthMessage.refresh_token_not_found)
      else try_catch (refresh token) (λ e. clean_up token e >> raise (or_expired e))
