-- ===== src/Auth/FailCount.antt =====
-- What the keys of the failed logins hold as passwords are refused.
use learn_nest_js.Shared.{
  ℕ, zero, suc, ◌+◌, ◌≤◌, ◌<◌, ◌≡◌, refl, arith, ◌∙◌, String, true, ltb, inl, inr, none, some, List,
  Bool-cases,
}
use learn_nest_js.Shared.Redis.{
  Redis, RedisValue, RedisEntry, held, entry, if_alive, is_alive, still, incremented, expiring,
  IsTtl,
}
use learn_nest_js.Shared.ListRedis.{same_key_refl}
use learn_nest_js.RedisService.{until, del}
use learn_nest_js.World.{World}
use learn_nest_js.Auth.Login.{
  login_fail_key, login_block_key, window_seconds, seconds_of, clear_failures,
}

abbrev pub count_entry : String → ℕ → ℕ → RedisEntry
count_entry id n date = entry (login_fail_key id) (RedisValue.number n) (some date)

abbrev pub block_entry : String → ℕ → RedisEntry
block_entry id date = entry (login_block_key id) (RedisValue.chars "blocked") (some date)

-- From `now` on, `n` failures are counted, by a counter that stands until `start` and the window are over.
abbrev pub Counts : String → ℕ → ℕ → ℕ → List RedisEntry → Type 0
Counts id zero start now es = (t : ℕ) → now ≤ t → held (login_fail_key id) t es ≡ none
Counts id (suc n) start now es =
    (date : ℕ) × (until start window_seconds ≤ date)
    × ((t : ℕ) → now ≤ t → held (login_fail_key id) t es ≡ if_alive t (count_entry id (suc n) date))

-- From `now` on, the account is blocked until a date.
abbrev pub Blocks : String → ℕ → ℕ → List RedisEntry → Type 0
Blocks id date now es =
    (t : ℕ) → now ≤ t → t < date → held (login_block_key id) t es ≡ some (block_entry id date)

alive : (date now : ℕ) → now < date → is_alive (some date) now ≡ true
alive date now h = ground arith

pub is_alive-if :
    (e : RedisEntry) (now : ℕ) → is_alive e.expires_at now ≡ true → if_alive now e ≡ some e
is_alive-if e now h = rw h refl

module _ (redis : Redis) (id : String) where
  abbrev after_incr : ℕ → List RedisEntry → List RedisEntry
  after_incr now es = (redis.incr (login_fail_key id) now es).1

  abbrev pub after_failure : ℕ → List RedisEntry → List RedisEntry
  after_failure now es =
      redis.expire_nx (login_fail_key id) (until now window_seconds) now (after_incr now es)

  -- The two commands at the key of the counter.
  held-after_incr :
      (now t : ℕ) (es : List RedisEntry)
      → now ≤ t
      → held (login_fail_key id) t (after_incr now es)
        ≡ still t (incremented (login_fail_key id) (held (login_fail_key id) now es)).1
  held-after_incr now t es later =
      rw (same_key_refl (login_fail_key id)) at
        ((redis.incr_lem (login_fail_key id) now es (login_fail_key id) t later).1)

  held-after_failure :
      (now t : ℕ) (es : List RedisEntry)
      → now ≤ t
      → held (login_fail_key id) t (after_failure now es)
        ≡ still t
            (expiring (until now window_seconds) (held (login_fail_key id) now (after_incr now es)))
  held-after_failure now t es later = rw (same_key_refl (login_fail_key id)) at (
      redis.expire_nx_lem (login_fail_key id) (until now window_seconds) now (after_incr now es)
        (login_fail_key id) t later)

  -- They leave the key of the block alone.
  pub after_failure-block :
      (now t : ℕ) (es : List RedisEntry)
      → now ≤ t
      → held (login_block_key id) t (after_failure now es) ≡ held (login_block_key id) t es
  after_failure-block now t es later =
      redis.expire_nx_lem (login_fail_key id) (until now window_seconds) now (after_incr now es)
        (login_block_key id) t later
      ∙ (redis.incr_lem (login_fail_key id) now es (login_block_key id) t later).1

  pub after_failure-Counts :
      (n start now : ℕ) (es : List RedisEntry)
      → Counts id n start now es
      → start ≤ now
      → now < until start window_seconds
      → Counts id (suc n) start now (after_failure now es)
        × ((redis.incr (login_fail_key id) now es).0 ≡ some (suc n))
  after_failure-Counts zero start now es counts begun early =
      let here = counts now (omega arith) in
      let count = rw here at (held-after_incr now now es (omega arith)) in
      let result =
        (redis.incr_lem (login_fail_key id) now es (login_fail_key id) now (omega arith)).0 in
      (
        (
          until now window_seconds,
          omega arith,
          λ t later. rw count at (held-after_failure now t es later),
        ),
        rw here at result,
      )
  after_failure-Counts (suc n) start now es (date, far, counts) begun early =
      let standing : is_alive (some date) now ≡ true = alive date now (omega arith) in
      let here =
        counts now (omega arith) ∙ is_alive-if (count_entry id (suc n) date) now standing in
      let count =
        (rw here at (held-after_incr now now es (omega arith)))
        ∙ is_alive-if (count_entry id (suc (suc n)) date) now standing in
      let result =
        (redis.incr_lem (login_fail_key id) now es (login_fail_key id) now (omega arith)).0 in
      ((date, far, λ t later. rw count at (held-after_failure now t es later)), rw here at result)

  -- Setting the block, in place of any that stood.
  pub set-Blocks :
      (now date : ℕ) (es : List RedisEntry)
      → Blocks id date now (redis.set (login_block_key id) (RedisValue.chars "blocked") date es)
  set-Blocks now date es t later early =
      (rw (same_key_refl (login_block_key id)) at (
        redis.set_lem (login_block_key id) (RedisValue.chars "blocked") date es (login_block_key id)
          t))
      ∙ is_alive-if (block_entry id date) t (alive date t early)

  pub set-Counts :
      (n start now date : ℕ) (es : List RedisEntry)
      → Counts id n start now es
      → Counts id n start now (redis.set (login_block_key id) (RedisValue.chars "blocked") date es)
  set-Counts zero start now date es counts = λ t later.
      redis.set_lem (login_block_key id) (RedisValue.chars "blocked") date es (login_fail_key id) t
      ∙ counts t later
  set-Counts (suc n) start now date es (end, far, counts) = (
    end,
    far,
    λ t later.
        redis.set_lem (login_block_key id) (RedisValue.chars "blocked") date es (login_fail_key id)
          t
        ∙ counts t later,
  )

  -- A block whose seconds are not told any more is nearly over.
  pub ttl-Blocks :
      (date now : ℕ) (es : List RedisEntry)
      → Blocks id date now es
      → seconds_of (redis.ttl (login_block_key id) now es) ≡ 0
      → date < now + 1000
  ttl-Blocks date now es blocks gone = elim (Bool-cases (ltb now date)) [
    | inr h ↦ ground arith
    | inl h ↦
        let (s, told, over, near) : IsTtl now (some (block_entry id date))
            (redis.ttl (login_block_key id) now es) =
          rw (blocks now (omega arith) (ground arith)) at
            (redis.ttl_lem (login_block_key id) now es) in
        let zero : s ≡ 0 = rw told at gone in omega arith
  ]

  -- After the keys of an account are deleted, neither holds anything at any time.
  pub clear_failures_lem :
      (w : World) (t : ℕ)
      → (held (login_fail_key id) t (clear_failures redis id w).1.keys ≡ none)
        × (held (login_block_key id) t (clear_failures redis id w).1.keys ≡ none)
  unfolding clear_failures del
  clear_failures_lem w t =
      let fewer = redis.del (login_fail_key id) w.keys in
      let gone = redis.del_lem (login_fail_key id) w.keys (login_fail_key id) t in
      (
        redis.del_lem (login_block_key id) fewer (login_fail_key id) t
            ∙ (rw (same_key_refl (login_fail_key id)) at gone),
        rw (same_key_refl (login_block_key id)) at
            (redis.del_lem (login_block_key id) fewer (login_block_key id) t),
      )
