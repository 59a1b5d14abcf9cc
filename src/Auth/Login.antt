-- ===== src/Auth/Login.antt =====
-- `validateUser` of auth/auth.service.ts, the strategy of passport that calls it, and the methods that it calls; the user is returned with its
-- password left in. `populate` of the avatar is left out.
use learn_nest_js.Shared.{
  ℕ, ◌+◌, ◌*◌, ◌/◌, String, Bool, not, ltb, leb, Option, none, some, List, [], ◌∷◌, if◌then◌else◌,
}
use learn_nest_js.Shared.Errors.{
  too_many_requests, login_too_many_attempts, unauthorized, forbidden, of_auth, of_user,
  AuthMessage, UserMessage,
}
use learn_nest_js.Shared.Action.{gets, pure, raise, raise_if, ◌>>=◌, ◌>>◌}
use learn_nest_js.Shared.Platform.{Platform}
use learn_nest_js.Shared.Redis.{Redis, RedisKey}
use learn_nest_js.Schemas.{User}
use learn_nest_js.World.{Action}
use learn_nest_js.RedisService.{incr_with_ttl, set_with_ttl, del, ttl}
use learn_nest_js.Users.Login.{find_for_login}
use learn_nest_js.Reports.Resolve.{Passwords}

-- LOGIN_FAIL_POLICY: thresholds, and the seconds to block for.
abbrev pub window_seconds : ℕ
window_seconds = 15 * 60

abbrev pub steps : List (ℕ × ℕ)
steps = (5, 60) ∷ (8, 5 * 60) ∷ (12, 15 * 60) ∷ (16, 30 * 60) ∷ []

-- The loop over the steps.
abbrev pub last_step : List (ℕ × ℕ) → ℕ → ℕ → ℕ
last_step [] fail_count block_seconds = block_seconds
last_step ((threshold, seconds) ∷ rest) fail_count block_seconds =
    last_step rest fail_count (if leb threshold fail_count then seconds else block_seconds)

unfoldable pub block_seconds : ℕ → ℕ
block_seconds fail_count = last_step steps fail_count 0

abbrev pub login_fail_key : String → RedisKey
login_fail_key user_id = record { prefix = "auth"; name = "login-fail"; rest = user_id }

abbrev pub login_block_key : String → RedisKey
login_block_key user_id = record { prefix = "auth"; name = "login-block"; rest = user_id }

-- `Math.ceil(seconds / 60)`
abbrev pub minutes_of : ℕ → ℕ
minutes_of seconds = (seconds + 59) / 60

-- What is left of a block, 0 where there is none.
abbrev pub seconds_of : Option ℕ → ℕ
seconds_of none = 0
seconds_of (some seconds) = seconds

module _ (redis : Redis) where
  -- `checkBlockedLoginFail`
  unfoldable pub check_blocked : String → Action (Unit {0})
  check_blocked user_id = do
    left ← ttl redis (login_block_key user_id)
    raise_if (ltb 0 (seconds_of left))
        (too_many_requests (login_too_many_attempts (minutes_of (seconds_of left))))

  abbrev pub block_for : String → ℕ → Action (Unit {0})
  block_for user_id seconds =
      if ltb 0 seconds
      then set_with_ttl redis (login_block_key user_id) "blocked" seconds
      else pure tt

  -- `recordLoginFailure`
  unfoldable pub record_failure : String → Action (Unit {0})
  record_failure user_id = do
    fail_count ← incr_with_ttl redis (login_fail_key user_id) window_seconds
    block_for user_id (block_seconds fail_count)

  -- `clearLoginFailures`
  unfoldable pub clear_failures : String → Action (Unit {0})
  clear_failures user_id = do
    del redis (login_fail_key user_id)
    del redis (login_block_key user_id)

module _ (m : Platform) (redis : Redis) (passwords : Passwords) (cast_email : String → String) where
  -- What follows the comparison of the passwords.
  unfoldable pub judge : User → Bool → Action (Option User)
  judge user is_matched =
      if is_matched
      then (do clear_failures redis (m.object_id_text user.id); pure (some user))
      else (do record_failure redis (m.object_id_text user.id); pure none)

  unfoldable pub check_password : User → String → Action (Option User)
  check_password user password = do
    check_blocked redis (m.object_id_text user.id)
    judge user (passwords.compare password user.password)

  abbrev pub check_found : Option User → String → Action (Option User)
  check_found none password = pure none
  check_found (some user) password =
      if not user.has_password then pure none else check_password user password

  -- `validateUser`
  unfoldable pub validate_user : String → String → Action (Option User)
  validate_user identifier password = do
    found ← gets (find_for_login m cast_email identifier)
    check_found found password

  -- `LocalStrategy.validate` (auth/passport/local.strategy.ts)
  abbrev pub admit : Option User → Action User
  admit none = raise (unauthorized (of_auth AuthMessage.invalid_credentials))
  admit (some user) = do
    raise_if (not user.is_active) (forbidden (of_user UserMessage.user_not_active))
    raise_if user.is_disabled (unauthorized (of_auth AuthMessage.user_disabled))
    pure user

  unfoldable pub validate : String → String → Action User
  validate identifier password = validate_user identifier password >>= admit
