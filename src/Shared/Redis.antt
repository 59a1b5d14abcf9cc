-- ===== src/Shared/Redis.antt =====
-- The commands of Redis on keys with an expiry, as the manual documents them, over an enumeration of
-- the entries in no particular order. `held` is what stands at a key at a time.
use Prim.Native.Nat.{ℕ, suc, ◌+◌, ◌*◌, ◌≤◌, ◌<◌}
use Prim.Native.String.{String}
use mathlib.Core.Path.{◌≡◌}
use mathlib.Core.Bool.{Bool, true, false, ◌&&◌}
use mathlib.Core.Option.{Option, none, some}
use mathlib.Core.List.{List}
use text.Mathlib.Text.{◌==◌ as str_eq}
use learn_nest_js.Shared.Tests.{ltb, if◌then◌else◌}
use learn_nest_js.Shared.Lists.{find?}

-- A key is a template with what is put into it, `${prefix}:${name}:${rest}`; an id has no colon.
pub record RedisKey : Type 0 where
  pub prefix : String
  pub name : String
  pub rest : String

-- A text, or a text that is a number to INCR.
pub data RedisValue : Type 0 where
  chars : String → RedisValue
  number : ℕ → RedisValue

pub record RedisEntry : Type 0 where
  pub key : RedisKey
  pub value : RedisValue
  pub expires_at : Option ℕ

abbrev pub same_key : RedisKey → RedisKey → Bool
same_key a b = str_eq a.prefix b.prefix && str_eq a.name b.name && str_eq a.rest b.rest

abbrev pub is_alive : Option ℕ → ℕ → Bool
is_alive none now = true
is_alive (some until) now = ltb now until

abbrev pub holds : RedisKey → ℕ → RedisEntry → Bool
holds key now e = same_key e.key key && is_alive e.expires_at now

abbrev pub held : RedisKey → ℕ → List RedisEntry → Option RedisEntry
held key now entries = find? (holds key now) entries

abbrev pub entry : RedisKey → RedisValue → Option ℕ → RedisEntry
entry key value until = record { key = key; value = value; expires_at = until }

-- What a change of the entry at a key leaves of it at a later time.
abbrev pub if_alive : ℕ → RedisEntry → Option RedisEntry
if_alive now e = if is_alive e.expires_at now then some e else none

abbrev pub value_of : Option RedisEntry → Option RedisValue
value_of none = none
value_of (some e) = some e.value

-- INCR: the number after it, or none where the value is no number; and the entry after it.
abbrev pub bumped : RedisEntry → RedisValue → Option ℕ × Option RedisEntry
bumped e (RedisValue.chars s) = (none, some e)
bumped e (RedisValue.number n) =
    (some (suc n), some (record e { value = RedisValue.number (suc n) }))

abbrev pub incremented : RedisKey → Option RedisEntry → Option ℕ × Option RedisEntry
incremented key none = (some 1, some (entry key (RedisValue.number 1) none))
incremented key (some e) = bumped e e.value

-- EXPIRE NX
abbrev pub dated : ℕ → RedisEntry → Option ℕ → Option RedisEntry
dated until e none = some (record e { expires_at = some until })
dated until e (some date) = some e

abbrev pub expiring : ℕ → Option RedisEntry → Option RedisEntry
expiring until none = none
expiring until (some e) = dated until e e.expires_at

abbrev pub still : ℕ → Option RedisEntry → Option RedisEntry
still now none = none
still now (some e) = if_alive now e

-- TTL: none where nothing stands at the key or it has no expiry; otherwise the seconds that are left,
-- give or take one.
abbrev pub IsLeft : ℕ → Option ℕ → Option ℕ → Type 0
IsLeft now none seconds = seconds ≡ none
IsLeft now (some until) seconds =
    (s : ℕ) × (seconds ≡ some s) × (until < now + s * 1000 + 1000) × (now + s * 1000 < until + 1000)

abbrev pub IsTtl : ℕ → Option RedisEntry → Option ℕ → Type 0
IsTtl now none seconds = seconds ≡ none
IsTtl now (some e) seconds = IsLeft now e.expires_at seconds

-- The commands, on the entries and at a time where they look at it.
pub record Redis : Type 0 where
  pub get : RedisKey → ℕ → List RedisEntry → Option RedisValue
  pub set : RedisKey → RedisValue → ℕ → List RedisEntry → List RedisEntry
  pub set_nx : RedisKey → RedisValue → ℕ → ℕ → List RedisEntry → Bool × List RedisEntry
  pub del : RedisKey → List RedisEntry → List RedisEntry
  pub incr : RedisKey → ℕ → List RedisEntry → Option ℕ × List RedisEntry
  pub expire_nx : RedisKey → ℕ → ℕ → List RedisEntry → List RedisEntry
  pub ttl : RedisKey → ℕ → List RedisEntry → Option ℕ
  pub get_lem :
      (key : RedisKey) (now : ℕ) (es : List RedisEntry)
      → get key now es ≡ value_of (held key now es)
  pub set_lem :
      (key : RedisKey) (v : RedisValue) (until : ℕ) (es : List RedisEntry) (k : RedisKey) (t : ℕ)
      → held k t (set key v until es)
        ≡ (if same_key key k then if_alive t (entry key v (some until)) else held k t es)
  pub set_nx_lem :
      (key : RedisKey) (v : RedisValue) (until now : ℕ) (es : List RedisEntry)
      → set_nx key v until now es
        ≡ elim (held key now es) [ none ↦ (true, set key v until es) | some e ↦ (false, es) ]
  pub del_lem :
      (key : RedisKey) (es : List RedisEntry) (k : RedisKey) (t : ℕ)
      → held k t (del key es) ≡ (if same_key key k then none else held k t es)
  pub incr_lem :
      (key : RedisKey) (now : ℕ) (es : List RedisEntry) (k : RedisKey) (t : ℕ)
      → now ≤ t
      → ((incr key now es).0 ≡ (incremented key (held key now es)).0)
        × (held k t (incr key now es).1 ≡ (
            if same_key key k then still t (incremented key (held key now es)).1 else held k t es))
  pub expire_nx_lem :
      (key : RedisKey) (until now : ℕ) (es : List RedisEntry) (k : RedisKey) (t : ℕ)
      → now ≤ t
      → held k t (expire_nx key until now es)
        ≡ (if same_key key k then still t (expiring until (held key now es)) else held k t es)
  pub ttl_lem :
      (key : RedisKey) (now : ℕ) (es : List RedisEntry)
      → IsTtl now (held key now es) (ttl key now es)
