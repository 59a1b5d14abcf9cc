-- ===== src/Auth/Tests.antt =====
-- Runs of `refreshToken` and `logoutAllDevices` on the list platform, and instances of the theorems.
use learn_nest_js.Shared.{
  ℕ, ◌≡◌, ◌≢◌, refl, sym, arith, ◌∙◌, String, Bool, true, false, str_eq, eq_iff, none, some, [],
  ◌∷◌, map, inl, inr, Bool-cases, if◌then◌else◌,
}
use learn_nest_js.Shared.Errors.{token_error}
use learn_nest_js.Shared.Action.{Result, ok, err}
use learn_nest_js.Shared.ListPlatform.{list_platform}
use learn_nest_js.Schemas.{User, UserRole, Session}
use learn_nest_js.Samples.{empty_world, sample_user}
use learn_nest_js.World.{World}
use learn_nest_js.Users
use learn_nest_js.Sessions.Service.{find_by_id, rotate, revoke_all_with_cleanup, revoke_all}
use learn_nest_js.Reports.Penalty.{save}
use learn_nest_js.Auth.Tokens.{Claims, TokenPair, RefreshTokens, generate_jwt}
use learn_nest_js.Auth.Refresh.{check_holder, check_session, renew, refresh, refresh_token}
use learn_nest_js.Auth.Logout.{find_enabled, end_all, logout_all_devices}
use learn_nest_js.Auth.Granting.{Holds, Backs, refresh_token_inv}
use learn_nest_js.Auth.Replay.{refresh_token-once}
use learn_nest_js.Auth.Ending.{logout_all_devices-ends}

opened : Unit {0}
unfolding Users.find_one find_by_id rotate revoke_all_with_cleanup revoke_all save generate_jwt
    check_holder check_session renew refresh refresh_token find_enabled end_all logout_all_devices
opened = tt

abbrev mine : Claims
mine = record { user_id = "aa"; role = UserRole.user; session_id = "aaaa"; token_version = 0 }

abbrev read : String → ℕ → Result Claims
read token now = if str_eq token "old" then ok mine else err (token_error false)

read-mine : (token : String) (now : ℕ) (c : Claims) → read token now ≡ ok c → mine ≡ c
read-mine token now c h = elim (Bool-cases (str_eq token "old")) [
  | inl e ↦ same (rw e at h)
  | inr e ↦ absurd (clash (rw e at h))
]
  where
    same : {x y : Claims} → ok x ≡ ok y → x ≡ y
    same h = cc

    clash : {A : Type 0} {a : A} → err (token_error false) ≡ ok a → ⊥
    clash k = cc

abbrev two_tokens : RefreshTokens
two_tokens = record {
  sign_access = λ claims now. "access";
  sign_refresh = λ claims now. "new";
  verify = read;
  decode = λ token. none;
  hash = λ token. token;
  lifetime = 600;
  verify_again =
      λ token now later c d h k. sym (read-mine token now c h) ∙ read-mine token later d k;
}

abbrev session : Session
session = record {
  id = 3;
  user_id = 1;
  device_id = "phone";
  refresh_token_hash = some "old";
  expires_at = some 5000;
  last_used_at = none;
  is_revoked = false;
  revoked_at = none;
}

abbrev start : World
start = record empty_world {
  users = sample_user 1 ∷ [];
  sessions = session ∷ [];
  now = 1000;
  created = 20;
}

abbrev pair : TokenPair
pair = record { access_token = "access"; refresh_token = "new"; expire_date = 1600 }

granted : (refresh_token list_platform two_tokens "old" start).0 ≡ ok pair
unfolding opened
granted = refl

-- The session holds the hash of the new token.
renewed :
    map
      (λ (s : Session). s.refresh_token_hash)
      (refresh_token list_platform two_tokens "old" start).1.sessions
    ≡ some "new" ∷ []
unfolding opened
renewed = refl

refresh_token_inv_example :
    (claims : Claims) × (s : Session) × (two_tokens.verify "old" 1000 ≡ ok claims)
    × ((u : User) × Holds list_platform claims start u)
    × Backs list_platform two_tokens "old" claims start s
    × (refresh_token list_platform two_tokens "old" start
        ≡ renew list_platform two_tokens claims s start)
refresh_token_inv_example =
    refresh_token_inv list_platform two_tokens "old" start {pair = pair} granted

new_is_not_old : two_tokens.hash "new" ≢ two_tokens.hash "old"
new_is_not_old h = clash ((eq_iff "new" "old").1 h)
  where
    clash : ◌≡◌ {A = Bool} false true → ⊥
    clash k = cc

refresh_token-once_example : ¬ (
    (refresh_token list_platform two_tokens "old"
      (record (refresh_token list_platform two_tokens "old" start).1 { now = 1200 })).0
    ≡ ok pair)
refresh_token-once_example =
    refresh_token-once list_platform two_tokens "old" start 1200 {pair = pair} {again = pair}
      (λ i. ground arith) granted new_is_not_old

logged_out : (logout_all_devices list_platform "aa" start).0 ≡ ok tt
unfolding opened
logged_out = refl

logout_all_devices-ends_example : ¬ (
    (refresh_token list_platform two_tokens "old"
      (record (logout_all_devices list_platform "aa" start).1 { now = 1200 })).0
    ≡ ok pair)
logout_all_devices-ends_example =
    logout_all_devices-ends list_platform two_tokens "old" "aa" start 1200 mine {pair = pair}
      {again = pair} {done = tt} (λ i. ground arith) granted refl refl logged_out
