-- ===== src/Auth/Tokens.antt =====
-- JSON web tokens and `hashRefreshToken`, which stand for the libraries that the code calls; and
-- `generateJWT` and `safeCompare` of utils/utils.ts.
use learn_nest_js.Shared.{ℕ, ◌+◌, ◌≡◌, String, Bool, false, str_eq, Option, some}
use learn_nest_js.Shared.Action.{Result, ok, gets}
use learn_nest_js.Schemas.{UserRole}
use learn_nest_js.World.{Action}

-- PayloadJWT
pub record Claims : Type 0 where
  pub user_id : String
  pub role : UserRole
  pub session_id : String
  pub token_version : ℕ

pub record TokenPair : Type 0 where
  pub access_token : String
  pub refresh_token : String
  pub expire_date : ℕ

-- Signing at a time; `verifyAsync` at a time; `decode`, none for `null`; and the keyed hash. The claims
-- stand in the token: it names the same ones whenever it verifies.
pub record RefreshTokens : Type 0 where
  pub sign_access : Claims → ℕ → String
  pub sign_refresh : Claims → ℕ → String
  pub verify : String → ℕ → Result Claims
  pub decode : String → Option Claims
  pub hash : String → String
  pub lifetime : ℕ
  pub verify_again :
      (token : String) (now later : ℕ) (c d : Claims)
      → verify token now ≡ ok c
      → verify token later ≡ ok d
      → c ≡ d

-- `safeCompare`: in constant time, but otherwise `===`.
abbrev pub safe_compare : Option String → Option String → Bool
safe_compare (some a) (some b) = str_eq a b
safe_compare _ _ = false

module _ (tokens : RefreshTokens) where
  -- `generateJWT`
  unfoldable pub generate_jwt : Claims → Action TokenPair
  generate_jwt claims = gets (λ w. record {
    access_token = tokens.sign_access claims w.now;
    refresh_token = tokens.sign_refresh claims w.now;
    expire_date = w.now + tokens.lifetime;
  })
