-- ===== src/Realtime/Locking.antt =====
-- That a call that cannot lock its two users leaves no lock (`lockStartCallUsers` of
-- modules/realtime/realtime-call.service.ts).
use learn_nest_js.Shared.{
  ℕ, ◌⊎◌, ◌≤◌, ◌≡◌, refl, sym, ap, subst, ◌∙◌, arith, Bool, true, false, ◌||◌, Option, none, some,
  inl, inr, List, [], ◌∷◌, ◌++◌, Option-cases, Bool-cases, if◌then◌else◌, any,
}
use learn_nest_js.Shared.Errors.{Exception, CallMessage}
use learn_nest_js.Shared.Action.{ok, err, raise, bind_ok}
use learn_nest_js.Shared.Redis.{Redis, RedisKey, RedisEntry, RedisValue, held, same_key, is_alive}
use learn_nest_js.Shared.ListRedis.{same_key_eq}
use learn_nest_js.World.{World}
use learn_nest_js.RedisService.{until, del, set_if_not_exists_with_ttl}
use learn_nest_js.Calls.Change.{refuse}
use learn_nest_js.Realtime.StartCall.{release, lock_rest}
use learn_nest_js.Realtime.OneCall.{release_ok}

-- What holds nothing at a time holds nothing later.
is_alive_before :
    (o : Option ℕ) (now t : ℕ) → now ≤ t → is_alive o now ≡ false → is_alive o t ≡ false
is_alive_before none now t later h = h
is_alive_before (some date) now t later h = ground arith

held_later :
    (k : RedisKey) (now t : ℕ) (es : List RedisEntry)
    → now ≤ t
    → held k now es ≡ none
    → held k t es ≡ none
held_later k now t [] later h = refl
held_later k now t (e ∷ es) later h = elim (Bool-cases (same_key e.key k)) [
  | inl own ↦ elim (Bool-cases (is_alive e.expires_at now)) [
    | inl here ↦ absurd (clash (rw (own, here) at h))
    | inr gone ↦
        rw (own, is_alive_before e.expires_at now t later gone)
          (held_later k now t es later (rw (own, gone) at h))
  ]
  | inr other ↦ rw other (held_later k now t es later (rw other at h))
]
  where
    clash : {e : RedisEntry} → some e ≡ none → ⊥
    clash k = cc

abbrev among : RedisKey → List RedisKey → Bool
among k keys = any (λ key. same_key key k) keys

among-append :
    (k key : RedisKey) (keys : List RedisKey)
    → among k (keys ++ key ∷ []) ≡ (among k keys || same_key key k)
among-append k key [] = ground arith
among-append k key (a ∷ keys) = ap (λ b. same_key a k || b) (among-append k key keys) ∙ ground arith

module _ (redis : Redis) where
  release_lem :
      (keys : List RedisKey) (w : World) (k : RedisKey) (t : ℕ)
      → held k t (release redis keys w).1.keys ≡ (if among k keys then none else held k t w.keys)
  unfolding release del
  release_lem [] w k t = refl
  release_lem (key ∷ keys) w k t =
      let rest = release_lem keys (record w { keys = redis.del key w.keys }) k t in
      let one = redis.del_lem key w.keys k t in
      elim (Bool-cases (same_key key k)) [
        | inl h ↦ elim (Bool-cases (among k keys)) [
          | inl j ↦ rw h (rest ∙ rw j refl)
          | inr j ↦ rw h (rest ∙ rw j (one ∙ rw h refl))
        ]
        | inr h ↦ rw h (rest ∙ ap (λ o. if among k keys then none else o) (one ∙ rw h refl))
      ]

  -- The keys are as in `start`, but for those that are acquired, at which nothing stood.
  abbrev Acquired : List RedisEntry → List RedisKey → World → Type 0
  Acquired start acquired w =
      (k : RedisKey) (t : ℕ)
      → w.now ≤ t
      → (among k acquired ≡ false → held k t w.keys ≡ held k t start)
        × (among k acquired ≡ true → held k t start ≡ none)

  release-Acquired :
      (start : List RedisEntry) (acquired : List RedisKey) (w : World) (k : RedisKey) (t : ℕ)
      → Acquired start acquired w
      → w.now ≤ t
      → held k t (release redis acquired w).1.keys ≡ held k t start
  release-Acquired start acquired w k t inv later = elim (Bool-cases (among k acquired)) [
    | inl h ↦ release_lem acquired w k t ∙ rw h (sym ((inv k t later).1 h))
    | inr h ↦ release_lem acquired w k t ∙ rw h ((inv k t later).0 h)
  ]

  acquire-Acquired :
      (start : List RedisEntry) (acquired : List RedisKey) (key : RedisKey) (v : RedisValue)
      (date : ℕ) (w : World)
      → Acquired start acquired w
      → held key w.now w.keys ≡ none
      → Acquired start (acquired ++ key ∷ []) (record w { keys = redis.set key v date w.keys })
  acquire-Acquired start acquired key v date w inv free k t later =
      let split = among-append k key acquired in
      elim (Bool-cases (same_key key k)) [
        | inl own ↦ (
          λ out. absurd (ground (arith, split, own, out)),
          λ _.
              subst (λ x. held x t start ≡ none) (same_key_eq key k own)
                (held_later key w.now t start later (was_free (Bool-cases (among key acquired)))),
        )
        | inr other ↦ (
          λ out.
              redis.set_lem key v date w.keys k t
              ∙ rw other ((inv k t later).0 (ground (arith, split, other, out))),
          λ here. (inv k t later).1 (ground (arith, split, other, here)),
        )
      ]
    where
      was_free :
          (among key acquired ≡ true) ⊎ (among key acquired ≡ false) → held key w.now start ≡ none
      was_free (inl h) = (inv key w.now (omega arith)).1 h
      was_free (inr h) = sym ((inv key w.now (omega arith)).0 h) ∙ free

  lock_rest-undone :
      (start : List RedisEntry) (acquired keys : List RedisKey) (w : World) (k : RedisKey) (t : ℕ)
      {e : Exception}
      → Acquired start acquired w
      → (lock_rest redis acquired keys w).0 ≡ err e
      → w.now ≤ t
      → held k t (lock_rest redis acquired keys w).1.keys ≡ held k t start
  unfolding lock_rest set_if_not_exists_with_ttl
  lock_rest-undone start acquired [] w k t inv failed later = absurd (clash failed)
    where
      clash : {e : Exception} → ok tt ≡ err e → ⊥
      clash k = cc
  lock_rest-undone start acquired (key ∷ keys) w k t {e} inv failed later =
      let law = redis.set_nx_lem key (RedisValue.chars "locked") (until w.now 5) w.now w.keys in
      elim (Option-cases (held key w.now w.keys)) [
        | inl free ↦
            let v = record w {
              keys = redis.set key (RedisValue.chars "locked") (until w.now 5) w.keys;
            } in
            let went = rw free at law in
            rw went (
              lock_rest-undone start (acquired ++ key ∷ []) keys v k t {e = e}
                (acquire-Acquired start acquired key (RedisValue.chars "locked") (until w.now 5) w
                  inv free)
                (rw went at failed) later)
        | inr (d, taken) ↦
            let went = rw taken at law in
            rw went (
              rw
                (bind_ok (release redis acquired)
                  (λ _. raise {A = Unit {0}} (refuse CallMessage.call_busy)) {s = w}
                  (release_ok redis acquired w))
                (release-Acquired start acquired w k t inv later))
      ]

  -- Where the users of a call cannot be locked, every key of Redis holds from then on what it would have held without the attempt: a lock
  -- that was taken is given back, and a lock of another call is left alone.
  pub lock_start_call_users-undone :
      (keys : List RedisKey) (w : World) (k : RedisKey) (t : ℕ) {e : Exception}
      → (lock_rest redis [] keys w).0 ≡ err e
      → w.now ≤ t
      → held k t (lock_rest redis [] keys w).1.keys ≡ held k t w.keys
  lock_start_call_users-undone keys w k t {e} failed later =
      lock_rest-undone w.keys [] keys w k t {e = e}
        (λ k t later. (λ _. refl, λ h. absurd (clash h))) failed later
    where
      clash : ◌≡◌ {A = Bool} false true → ⊥
      clash k = cc
