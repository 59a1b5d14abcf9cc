-- ===== src/Shared/ListRedis.antt =====
-- Redis over lists: it shows that the laws of the interface can be met, and the examples run on it.
use Prim.Native.Nat.{ℕ, ◌-◌, ◌/◌, ◌<◌}
use mathlib.Core.Path.{◌≡◌, refl, sym, ap, subst}
use mathlib.Core.Logic.{inl, inr}
use mathlib.Core.Bool.{Bool, true, false, not, ◌&&◌}
use mathlib.Core.Option.{Option, none, some}
use mathlib.Core.List.{List, [], ◌∷◌}
use native.Mathlib.Omega.{arith}
use text.Mathlib.Text.{◌==◌ as str_eq}
use text.Mathlib.TextEquality.{eq_iff}
use learn_nest_js.Shared.Tests.{Bool-cases, ltb, if◌then◌else◌}
use learn_nest_js.Shared.Lists.{filter}
use learn_nest_js.Shared.Redis.{
  RedisKey, RedisValue, RedisEntry, Redis, IsTtl, same_key, is_alive, holds, held, entry, if_alive,
  value_of, incremented, bumped, dated, expiring, still, IsLeft,
}

pub same_key_refl : (k : RedisKey) → same_key k k ≡ true
same_key_refl k =
    rw
      (
        (eq_iff k.prefix k.prefix).1 refl,
        (eq_iff k.name k.name).1 refl,
        (eq_iff k.rest k.rest).1 refl,
      )
      refl

pub same_key_eq : (a b : RedisKey) → same_key a b ≡ true → a ≡ b
same_key_eq a b h = elim (Bool-cases (str_eq a.prefix b.prefix)) [
  | inl p ↦ elim (Bool-cases (str_eq a.name b.name)) [
    | inl q ↦ elim (Bool-cases (str_eq a.rest b.rest)) [
      | inl r ↦
          let p' = (eq_iff a.prefix b.prefix).0 p in
          let q' = (eq_iff a.name b.name).0 q in
          let r' = (eq_iff a.rest b.rest).0 r in made a b p' q' r'
      | inr r ↦ absurd (clash (rw (p, q, r) at h))
    ]
    | inr q ↦ absurd (clash (rw (p, q) at h))
  ]
  | inr p ↦ absurd (clash (rw p at h))
]
  where
    clash : ◌≡◌ {A = Bool} false true → ⊥
    clash k = cc

    made : (a b : RedisKey) → a.prefix ≡ b.prefix → a.name ≡ b.name → a.rest ≡ b.rest → a ≡ b
    made a b p q r = λ i. record { prefix = p i; name = q i; rest = r i }

abbrev without : RedisKey → List RedisEntry → List RedisEntry
without key es = filter (λ e. not (same_key e.key key)) es

pub held-without :
    (key : RedisKey) (es : List RedisEntry) (k : RedisKey) (t : ℕ)
    → held k t (without key es) ≡ (if same_key key k then none else held k t es)
held-without key [] k t = elim (Bool-cases (same_key key k)) [
  | inl h ↦ rw h refl
  | inr h ↦ rw h refl
]
held-without key (e ∷ es) k t =
    let ih = held-without key es k t in
    elim (Bool-cases (same_key e.key key)) [
      | inl own ↦
          let it = same_key_eq e.key key own in
          elim (Bool-cases (same_key key k)) [
            | inl h ↦ rw (own, h) (rw h at ih)
            | inr h ↦
                let skip : same_key e.key k ≡ false = rw it h in rw (own, h) (rw skip (rw h at ih))
          ]
      | inr other ↦ elim (Bool-cases (same_key key k)) [
        | inl h ↦
            let it = same_key_eq key k h in
            let skip : same_key e.key k ≡ false = rw (sym it) other in
            rw (other, h) (rw skip (rw h at ih))
        | inr h ↦ rw (other, h) (rw h at (ap (λ o. if holds k t e then some e else o) ih))
      ]
    ]

-- An entry put in the place of what stands at its key.
abbrev put : RedisEntry → List RedisEntry → List RedisEntry
put e es = e ∷ without e.key es

pub held-put :
    (e : RedisEntry) (es : List RedisEntry) (k : RedisKey) (t : ℕ)
    → held k t (put e es) ≡ (if same_key e.key k then if_alive t e else held k t es)
held-put e es k t =
    let ih = held-without e.key es k t in
    elim (Bool-cases (same_key e.key k)) [
      | inl h ↦ elim (Bool-cases (is_alive e.expires_at t)) [
        | inl a ↦ rw (h, a) refl
        | inr a ↦ rw (h, a) (rw h at ih)
      ]
      | inr h ↦ rw h (rw h at ih)
    ]

held-IsHeld :
    (key : RedisKey) (now : ℕ) (es : List RedisEntry) {e : RedisEntry}
    → held key now es ≡ some e
    → holds key now e ≡ true
held-IsHeld key now [] h = absurd (clash h)
  where
    clash : {e : RedisEntry} → none ≡ some e → ⊥
    clash k = cc
held-IsHeld key now (d ∷ es) {e} h = elim (Bool-cases (holds key now d)) [
  | inl p ↦ subst (λ x. holds key now x ≡ true) (same (rw p at h)) p
  | inr p ↦ held-IsHeld key now es (rw p at h)
]
  where
    same : {a b : RedisEntry} → some a ≡ some b → a ≡ b
    same k = cc

pub held-key_eq :
    (key : RedisKey) (now : ℕ) (es : List RedisEntry) {e : RedisEntry}
    → held key now es ≡ some e
    → e.key ≡ key
held-key_eq key now es {e} h = elim (Bool-cases (same_key e.key key)) [
  | inl p ↦ same_key_eq e.key key p
  | inr p ↦ absurd (clash (rw p at (held-IsHeld key now es h)))
]
  where
    clash : ◌≡◌ {A = Bool} false true → ⊥
    clash k = cc

abbrev place : RedisKey → Option RedisEntry → List RedisEntry → List RedisEntry
place key none es = without key es
place key (some e) es = put e es

pub held-place :
    (key : RedisKey) (o : Option RedisEntry) (es : List RedisEntry) (k : RedisKey) (t : ℕ)
    → ((e : RedisEntry) → o ≡ some e → e.key ≡ key)
    → held k t (place key o es) ≡ (if same_key key k then still t o else held k t es)
held-place key none es k t own = held-without key es k t
held-place key (some e) es k t own =
    subst (λ x. held k t (put e es) ≡ (if same_key x k then if_alive t e else held k t es))
      (own e refl) (held-put e es k t)

abbrev list_incr : RedisKey → ℕ → List RedisEntry → Option ℕ × List RedisEntry
list_incr key now es = let (n, after) = incremented key (held key now es) in (n, place key after es)

abbrev list_set_nx : RedisKey → RedisValue → ℕ → ℕ → List RedisEntry → Bool × List RedisEntry
list_set_nx key v until now es = elim (held key now es) [
  | none ↦ (true, put (entry key v (some until)) es)
  | some e ↦ (false, es)
]

rekeyed : {d e : RedisEntry} {key : RedisKey} → some d ≡ some e → d.key ≡ key → e.key ≡ key
rekeyed {d} {e} {key} h own = subst (λ x. x.key ≡ key) (same h) own
  where
    same : {a b : RedisEntry} → some a ≡ some b → a ≡ b
    same k = cc

bumped-key_eq :
    {key : RedisKey} (d : RedisEntry) (v : RedisValue) {e : RedisEntry}
    → d.key ≡ key
    → (bumped d v).1 ≡ some e
    → e.key ≡ key
bumped-key_eq d (RedisValue.chars s) own h = rekeyed h own
bumped-key_eq d (RedisValue.number n) own h = rekeyed h own

pub incremented-key_eq :
    (key : RedisKey) (o : Option RedisEntry)
    → ((e : RedisEntry) → o ≡ some e → e.key ≡ key)
    → (e : RedisEntry) → (incremented key o).1 ≡ some e
    → e.key ≡ key
incremented-key_eq key none own e h = rekeyed h refl
incremented-key_eq key (some d) own e h = bumped-key_eq d d.value (own d refl) h

dated-key_eq :
    {key : RedisKey} (until : ℕ) (d : RedisEntry) (o : Option ℕ) {e : RedisEntry}
    → d.key ≡ key
    → dated until d o ≡ some e
    → e.key ≡ key
dated-key_eq until d none own h = rekeyed h own
dated-key_eq until d (some date) own h = rekeyed h own

pub expiring-key_eq :
    (key : RedisKey) (until : ℕ) (o : Option RedisEntry)
    → ((e : RedisEntry) → o ≡ some e → e.key ≡ key)
    → (e : RedisEntry) → expiring until o ≡ some e
    → e.key ≡ key
expiring-key_eq key until none own e h = absurd (clash h)
  where
    clash : {d : RedisEntry} → none ≡ some d → ⊥
    clash k = cc
expiring-key_eq key until (some d) own e h = dated-key_eq until d d.expires_at (own d refl) h

abbrev seconds_left : ℕ → Option ℕ → Option ℕ
seconds_left now none = none
seconds_left now (some until) = some ((until - now) / 1000)

abbrev list_ttl : ℕ → Option RedisEntry → Option ℕ
list_ttl now none = none
list_ttl now (some e) = seconds_left now e.expires_at

ltb_lt : (a b : ℕ) → ltb a b ≡ true → a < b
ltb_lt a b h = ground arith

seconds_left-IsLeft :
    (now : ℕ) (o : Option ℕ) → is_alive o now ≡ true → IsLeft now o (seconds_left now o)
seconds_left-IsLeft now none alive = refl
seconds_left-IsLeft now (some until) alive =
    let later : now < until = ltb_lt now until alive in
    ((until - now) / 1000, refl, omega arith, omega arith)

pub list_ttl-IsTtl :
    (now : ℕ) (o : Option RedisEntry)
    → ((e : RedisEntry) → o ≡ some e → is_alive e.expires_at now ≡ true)
    → IsTtl now o (list_ttl now o)
list_ttl-IsTtl now none alive = refl
list_ttl-IsTtl now (some e) alive = seconds_left-IsLeft now e.expires_at (alive e refl)

both_right : (a b : Bool) → (a && b) ≡ true → b ≡ true
both_right a b h = ground arith

pub held-is_alive :
    (key : RedisKey) (now : ℕ) (es : List RedisEntry) (e : RedisEntry)
    → held key now es ≡ some e
    → is_alive e.expires_at now ≡ true
held-is_alive key now es e h =
    both_right (same_key e.key key) (is_alive e.expires_at now) (held-IsHeld key now es h)

abbrev pub list_redis : Redis
list_redis = record {
  get = λ key now es. value_of (held key now es);
  set = λ key v until es. put (entry key v (some until)) es;
  set_nx = list_set_nx;
  del = without;
  incr = list_incr;
  expire_nx = λ key until now es. place key (expiring until (held key now es)) es;
  ttl = λ key now es. list_ttl now (held key now es);
  get_lem = λ key now es. refl;
  set_lem = λ key v until es k t. held-put (entry key v (some until)) es k t;
  set_nx_lem = λ key v until now es. refl;
  del_lem = held-without;
  incr_lem = λ key now es k t _. (
    refl,
    held-place key (incremented key (held key now es)).1 es k t
        (incremented-key_eq key (held key now es) (λ e. held-key_eq key now es {e = e})),
  );
  expire_nx_lem = λ key until now es k t _.
      held-place key (expiring until (held key now es)) es k t
        (expiring-key_eq key until (held key now es) (λ e. held-key_eq key now es {e = e}));
  ttl_lem = λ key now es. list_ttl-IsTtl now (held key now es) (held-is_alive key now es);
}
