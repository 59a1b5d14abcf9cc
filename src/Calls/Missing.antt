-- ===== src/Calls/Missing.antt =====
-- `createMissingCallMessages` of call.service.ts. The calls of a batch are told of one after another,
-- each whatever became of the one before it, and then the first error among them is thrown.
use learn_nest_js.Shared.{
  ℕ, zero, suc, ◌+◌, ◌-◌, ◌*◌, Bool, true, false, ◌&&◌, ltb, leb, Option, none, some, is_some, List,
  [], ◌∷◌, length, Memᴰ, if◌then◌else◌,
}
use learn_nest_js.Shared.Action.{Result, ok, err, gets, pure, ◌>>=◌, ◌>>◌}
use learn_nest_js.Shared.Platform.{Platform}
use learn_nest_js.Schemas.{Call, CallStatus}
use learn_nest_js.World.{World, Action}
use learn_nest_js.Calls.Message.{Messages, is_about, create_call_message}

-- `sort({ rank: 1 })`: the same documents in another order.
pub record Sorting : Type 1 where
  pub ascending : {Doc : Type 0} → (Doc → ℕ) → List Doc → List Doc
  pub ascending-mem :
      {Doc : Type 0} (rank : Doc → ℕ) (docs : List Doc) (d : Doc)
      → Memᴰ d docs
      → Memᴰ d (ascending rank docs)
  pub mem-ascending :
      {Doc : Type 0} (rank : Doc → ℕ) (docs : List Doc) (d : Doc)
      → Memᴰ d (ascending rank docs)
      → Memᴰ d docs

-- `slice(i, i + n)`
abbrev pub take : {A : Type 0} → ℕ → List A → List A
take zero xs = []
take (suc n) [] = []
take (suc n) (x ∷ xs) = x ∷ take n xs

abbrev pub drop : {A : Type 0} → ℕ → List A → List A
drop zero xs = xs
drop (suc n) [] = []
drop (suc n) (x ∷ xs) = drop n xs

abbrev pub slice : {A : Type 0} → ℕ → ℕ → List A → List A
slice i n xs = take n (drop i xs)

abbrev pub is_finished : CallStatus → Bool
is_finished CallStatus.ended = true
is_finished CallStatus.missed = true
is_finished CallStatus.rejected = true
is_finished _ = false

abbrev pub two_days_ms : ℕ
two_days_ms = 2 * 24 * 60 * 60 * 1000

-- `{ $gte: start, $lte: end }`, which no missing date is within.
abbrev pub is_within : ℕ → ℕ → Option ℕ → Bool
is_within start end none = false
is_within start end (some date) = leb start date && leb date end

abbrev pub is_recent : ℕ → Call → Bool
is_recent now c = is_finished c.status && is_within (now - two_days_ms) now c.ended_at

abbrev pub ended_rank : Call → ℕ
ended_rank c = elim c.ended_at [ none ↦ 0 | some date ↦ date ]

-- The first error of two results.
abbrev pub first_error : Result (Unit {0}) → Result (Unit {0}) → Result (Unit {0})
first_error (err e) r = err e
first_error (ok _) r = r

module _ (m : Platform) where
  abbrev pub recent_calls : Sorting → World → List Call
  recent_calls sorting w = sorting.ascending ended_rank (m.find (is_recent w.now) w.calls)

module _ (m : Platform) (messages : Messages) where
  -- What is done for one call.
  unfoldable pub tell_missing : Call → Action (Unit {0})
  tell_missing call = do
    is_there ← gets (λ w. is_some (m.find_one (is_about call.id) w.messages))
    if is_there then pure tt else create_call_message m messages call

  -- `Promise.all`
  unfoldable pub tell_all : List Call → Action (Unit {0})
  tell_all [] w = (ok tt, w)
  tell_all (call ∷ calls) w =
      let (r, v) = tell_missing call w in let (rs, u) = tell_all calls v in (first_error r rs, u)

  -- The loop over the batches, from `i` on.
  unfoldable pub tell_batches : ℕ → ℕ → List Call → Action (Unit {0})
  tell_batches zero i calls = pure tt
  tell_batches (suc fuel) i calls =
      let rest = tell_batches fuel (i + 10) calls in
      if ltb i (length calls) then tell_all (slice i 10 calls) >> rest else pure tt

  unfoldable pub create_missing_call_messages : Sorting → Action (Unit {0})
  create_missing_call_messages sorting = do
    calls ← gets (recent_calls m sorting)
    tell_batches (length calls) 0 calls
