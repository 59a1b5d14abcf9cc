-- ===== src/Auth/LoginTests.antt =====
-- Runs of `validateUser` on the list platform and on Redis over a list, and instances of the theorems.
use learn_nest_js.Shared.{
  suc, ℕ, ◌+◌, ◌*◌, ◌≤◌, ◌<◌, ◌≡◌, refl, arith, String, str_eq, eq_iff, ltb, true, none, some, [],
  ◌∷◌, List,
}
use learn_nest_js.Shared.Errors.{too_many_requests, login_too_many_attempts}
use learn_nest_js.Shared.Action.{ok, err}
use learn_nest_js.Shared.ListPlatform.{list_platform}
use learn_nest_js.Shared.ListRedis.{list_redis}
use learn_nest_js.Shared.Redis.{RedisEntry, held}
use learn_nest_js.Schemas.{User}
use learn_nest_js.Samples.{empty_world, sample_user}
use learn_nest_js.World.{World}
use learn_nest_js.RedisService.{incr_with_ttl, set_with_ttl, ttl, del}
use learn_nest_js.Users.Login.{find_by_email, find_for_login}
use learn_nest_js.Reports.Resolve.{Passwords}
use learn_nest_js.Auth.Login.{
  block_seconds, check_blocked, record_failure, clear_failures, judge, check_password,
  validate_user, login_fail_key, login_block_key,
}
use learn_nest_js.Auth.FailCount.{block_entry}
use learn_nest_js.Auth.Guessing.{unattacked, wrong_password, right_password, Attack-few}
use learn_nest_js.Auth.Blocking.{validate_user-blocked, validate_user-right}

opened : Unit {0}
unfolding incr_with_ttl set_with_ttl ttl del find_by_email find_for_login block_seconds
    check_blocked record_failure clear_failures judge check_password validate_user
opened = tt

abbrev plain : Passwords
plain = record {
  compare = λ raw hash. str_eq raw hash;
  hash = λ raw. raw;
  compare-hash = λ raw. (eq_iff raw raw).1 refl;
}

abbrev mei : User
mei = record (sample_user 1) { email = "mei@x"; password = "secret" }

abbrev at_home : World
at_home = record empty_world { users = mei ∷ [] }

abbrev tries : String → World → World
tries password w = (validate_user list_platform list_redis plain (λ s. s) "mei@x" password w).1

abbrev after_one : World
after_one = tries "guess" at_home

-- A right password, and another wrong one.
abbrev after_two : World
after_two = tries "secret" after_one

abbrev after_three : World
after_three = tries "guess" after_two

Attack-few_example : ◌≤◌ 2 (10 * suc 1)
unfolding opened
Attack-few_example =
    Attack-few list_platform list_redis plain (λ s. s) 1 at_home 1 2 after_three
      (wrong_password 1 1 after_two "mei@x" "guess" mei
        (right_password 0 1 after_one "mei@x" "secret" mei
          (wrong_password 0 0 at_home "mei@x" "guess" mei unattacked refl refl refl refl refl) refl
          refl refl refl refl)
        refl refl refl refl refl)
      (omega arith) (λ t later. refl)

abbrev blocked : World
blocked = record at_home { keys = block_entry "aa" 60000 ∷ [] }

validate_user-blocked_example :
    (minutes : ℕ) × (validate_user list_platform list_redis plain (λ s. s) "mei@x" "secret" blocked
      ≡ (err (too_many_requests (login_too_many_attempts minutes)), blocked))
    × (60000 < 0 + minutes * 60 * 1000 + 1000)
    × (0 + minutes * 60 * 1000 < 60000 + 60000)
unfolding opened
validate_user-blocked_example =
    validate_user-blocked list_platform list_redis plain (λ s. s) "mei@x" "secret" mei 60000 blocked
      refl refl (λ t later early. let e : ltb t 60000 ≡ true = ground arith in rw e refl)
      (omega arith)

right_one_clears :
    (keys : List RedisEntry) × (validate_user list_platform list_redis plain
        (λ s. s)
        "mei@x"
        "secret"
        after_one
      ≡ (ok (some mei), record after_one { keys = keys }))
    × ((t : ℕ)
        → (held (login_fail_key "aa") t keys ≡ none) × (held (login_block_key "aa") t keys ≡ none))
unfolding opened
right_one_clears =
    validate_user-right list_platform list_redis plain (λ s. s) "mei@x" "secret" mei after_one refl
      refl refl refl

-- The fifth wrong password blocks, so that the right one is refused for a minute.
fifth_blocks :
    (validate_user list_platform list_redis plain
      (λ s. s)
      "mei@x"
      "secret"
      (tries "e" (tries "d" (tries "c" (tries "b" (tries "a" at_home)))))).0
    ≡ err (too_many_requests (login_too_many_attempts 1))
unfolding opened
fifth_blocks = refl
