-- ===== src/Users/Codes.antt =====
-- modules/users/user-code.service.ts: codes that are sent by mail and kept, hashed, in Redis. `hash_code` is `hashCodeVerifyEmail` with its pepper; `new_code` is
-- `uuidv4`; a hash is not the empty text; `expire_seconds` is the configured lifetime of a kind of codes.
use Prim.Native.String.{◌++◌}
use learn_nest_js.Shared.{
  ℕ, ◌+◌, ◌-◌, ◌≡◌, String, false, not, ltb, str_eq, Option, none, some, if◌then◌else◌,
}
use learn_nest_js.Shared.Errors.{bad_request, of_user, UserMessage, please_wait_cooldown}
use learn_nest_js.Shared.Action.{or_raise, raise_if, pure, ◌>>=◌, ◌>>◌}
use learn_nest_js.Shared.Redis.{Redis, RedisKey, RedisValue, chars, number}
use learn_nest_js.World.{Action}
use learn_nest_js.RedisService.{get, del, ttl, set_with_ttl}
use learn_nest_js.Auth.Tokens.{safe_compare}

-- ActionRedis: `active` is NEW and RESEND, and `update_email` has the email that the code is for.
pub data CodeKind : Type 0 where
  active forgot : CodeKind
  update_email : (email : String) → CodeKind

pub record CodeSettings : Type 0 where
  pub hash_code : String → String
  pub new_code : ℕ → String
  pub expire_seconds : CodeKind → ℕ
  pub hash_code_nonempty : (code : String) → str_eq (hash_code code) "" ≡ false

-- `redisActiveKey`, `redisForgotKey` and `redisUpdateEmailKey`
abbrev pub redis_key : CodeKind → String → RedisKey
redis_key CodeKind.active user_id = record { prefix = "auth"; name = "active"; rest = user_id }
redis_key CodeKind.forgot user_id = record { prefix = "auth"; name = "forgot"; rest = user_id }
redis_key (CodeKind.update_email email) user_id = record {
  prefix = "auth";
  name = "update-email";
  rest = user_id ++ ":" ++ email;
}

-- What GET answers where the key holds a code: a text that is not empty. No number stands at these keys.
abbrev pub code_at : Option RedisValue → Option String
code_at none = none
code_at (some (chars s)) = if str_eq s "" then none else some s
code_at (some (number n)) = none

module _ (redis : Redis) (settings : CodeSettings) where
  -- What follows the look-up of the hash.
  abbrev pub check_code : RedisKey → String → Option String → Action (Unit {0})
  check_code key code stored = do
    hash ← or_raise stored (bad_request (of_user UserMessage.code_expired))
    raise_if (not (safe_compare (some (settings.hash_code code)) (some hash)))
        (bad_request (of_user UserMessage.invalid_code))
    del redis key

  -- `verifyCodeWithRedis`
  unfoldable pub verify_code : RedisKey → String → Action (Unit {0})
  verify_code key code = do stored ← get redis key; check_code key code (code_at stored)

  -- The check of a cooldown where `left` seconds of a lifetime are left: what has passed of it is
  -- `expire - left`.
  abbrev pub check_cooldown : ℕ → ℕ → Option ℕ → Action (Unit {0})
  check_cooldown expire cooldown none = pure tt
  check_cooldown expire cooldown (some left) =
      raise_if (ltb expire (cooldown + left))
        (bad_request (please_wait_cooldown ((cooldown + left) - expire)))

  -- `checkMailCooldownRedis`
  unfoldable pub check_mail_cooldown : RedisKey → ℕ → ℕ → Action (Unit {0})
  check_mail_cooldown key expire cooldown = do
    left ← ttl redis key
    check_cooldown expire cooldown left

  -- `saveCodeRedis`
  unfoldable pub save_code : String → String → CodeKind → Action (Unit {0})
  save_code id code kind =
      set_with_ttl redis (redis_key kind id) (settings.hash_code code)
        (settings.expire_seconds kind)
