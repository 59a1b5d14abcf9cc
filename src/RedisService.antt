-- ===== src/RedisService.antt =====
-- The wrappers of redis/redis.service.ts around Redis' commands on keys with an expiry; times to live
-- are in seconds. `ttl` is none where Redis answers a negative number.
use learn_nest_js.Shared.{ℕ, ◌+◌, ◌*◌, String, Bool, Option, none, some}
use learn_nest_js.Shared.Action.{ok, gets, modify}
use learn_nest_js.Shared.Redis.{Redis, RedisKey, RedisValue}
use learn_nest_js.World.{Action}

abbrev pub until : ℕ → ℕ → ℕ
until now seconds = now + seconds * 1000

-- `result?.[0]?.[1] ?? 0`
abbrev pub or_zero : Option ℕ → ℕ
or_zero none = 0
or_zero (some n) = n

module _ (redis : Redis) where
  -- `setWithTTL`
  unfoldable pub set_with_ttl : RedisKey → String → ℕ → Action (Unit {0})
  set_with_ttl key value seconds =
      modify (λ w. record w {
        keys = redis.set key (RedisValue.chars value) (until w.now seconds) w.keys;
      })

  -- `get`
  unfoldable pub get : RedisKey → Action (Option RedisValue)
  get key = gets (λ w. redis.get key w.now w.keys)

  -- `del`
  unfoldable pub del : RedisKey → Action (Unit {0})
  del key = modify (λ w. record w { keys = redis.del key w.keys })

  -- `setIfNotExistsWithTTL`
  unfoldable pub set_if_not_exists_with_ttl : RedisKey → String → ℕ → Action Bool
  set_if_not_exists_with_ttl key value seconds w =
      let (is_set, keys) =
        redis.set_nx key (RedisValue.chars value) (until w.now seconds) w.now w.keys in
      (ok is_set, record w { keys = keys })

  -- `incrWithTTL`: INCR, and then EXPIRE NX.
  unfoldable pub incr_with_ttl : RedisKey → ℕ → Action ℕ
  incr_with_ttl key seconds w =
      let (n, keys) = redis.incr key w.now w.keys in
      (ok (or_zero n), record w { keys = redis.expire_nx key (until w.now seconds) w.now keys })

  -- `ttl`
  unfoldable pub ttl : RedisKey → Action (Option ℕ)
  ttl key = gets (λ w. redis.ttl key w.now w.keys)
