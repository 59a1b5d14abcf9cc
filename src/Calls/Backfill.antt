-- ===== src/Calls/Backfill.antt =====
-- That `createMissingCallMessages` of call.service.ts goes over its calls once, and what it leaves.
use learn_nest_js.Shared.{
  false, ℕ, zero, suc, ◌+◌, ◌≤◌, ◌≡◌, refl, sym, ap, ◌∙◌, arith, ltb, List, [], ◌∷◌, ◌++◌, length,
  Bool-cases, inl, inr,
}
use learn_nest_js.Shared.Action.{ok, bind_ok, bind_same}
use learn_nest_js.Shared.Platform.{Platform}
use learn_nest_js.Schemas.{Call}
use learn_nest_js.World.{World}
use learn_nest_js.Calls.Message.{Messages}
use learn_nest_js.Calls.Missing.{take, drop, slice, tell_missing, tell_all, tell_batches}

take-drop_append : {A : Type 0} (n : ℕ) (xs : List A) → take n xs ++ drop n xs ≡ xs
take-drop_append zero xs = refl
take-drop_append (suc n) [] = refl
take-drop_append (suc n) (x ∷ xs) = ap (λ ys. x ∷ ys) (take-drop_append n xs)

drop_none : {A : Type 0} (n : ℕ) → drop {A = A} n [] ≡ []
drop_none zero = refl
drop_none (suc n) = refl

drop-drop : {A : Type 0} (i n : ℕ) (xs : List A) → drop n (drop i xs) ≡ drop (i + n) xs
drop-drop zero n xs = ap (λ k. drop k xs) (omega arith)
drop-drop (suc i) n [] = drop_none n ∙ sym (drop_none (suc i + n))
drop-drop (suc i) n (x ∷ xs) =
    let next : suc (i + n) ≡ suc i + n = omega arith in
    drop-drop i n xs ∙ ap (λ k. drop k (x ∷ xs)) next

drop_all : {A : Type 0} (i : ℕ) (xs : List A) → length xs ≤ i → drop i xs ≡ []
drop_all zero [] h = refl
drop_all zero (x ∷ xs) h = absurd (omega arith)
drop_all (suc i) [] h = refl
drop_all (suc i) (x ∷ xs) h = drop_all i xs (omega arith)

module _ (m : Platform) (messages : Messages) where
  tell_all-append :
      (xs ys : List Call) (w : World)
      → ((c : Call) (v : World) → (tell_missing m messages c v).0 ≡ ok tt)
      → tell_all m messages (xs ++ ys) w ≡ tell_all m messages ys (tell_all m messages xs w).1
  unfolding tell_all
  tell_all-append [] ys w goes = refl
  tell_all-append (x ∷ xs) ys w goes =
      rw (goes x w) (tell_all-append xs ys (tell_missing m messages x w).1 goes)

  pub tell_all_ok :
      (xs : List Call) (w : World)
      → ((c : Call) (v : World) → (tell_missing m messages c v).0 ≡ ok tt)
      → (tell_all m messages xs w).0 ≡ ok tt
  unfolding tell_all
  tell_all_ok [] w goes = refl
  tell_all_ok (x ∷ xs) w goes = rw (goes x w) (tell_all_ok xs (tell_missing m messages x w).1 goes)

  pub tell_batches_lem :
      (fuel i : ℕ) (calls : List Call) (w : World)
      → ((c : Call) (v : World) → (tell_missing m messages c v).0 ≡ ok tt)
      → length calls ≤ i + fuel
      → tell_batches m messages fuel i calls w ≡ tell_all m messages (drop i calls) w
  unfolding tell_batches tell_all
  tell_batches_lem zero i calls w goes enough =
      ap (λ cs. tell_all m messages cs w) (sym (drop_all i calls (omega arith)))
  tell_batches_lem (suc fuel) i calls w goes enough = elim (Bool-cases (ltb i (length calls))) [
    | inl h ↦
        let batch = slice i 10 calls in
        let went =
          bind_ok (tell_all m messages batch) (λ _. tell_batches m messages fuel (i + 10) calls)
            (tell_all_ok batch w goes) in
        let rest =
          tell_batches_lem fuel (i + 10) calls (tell_all m messages batch w).1 goes (omega arith)
          ∙ ap (λ cs. tell_all m messages cs (tell_all m messages batch w).1)
              (sym (drop-drop i 10 calls)) in
        let joined = tell_all-append batch (drop 10 (drop i calls)) w goes in
        let whole = ap (λ cs. tell_all m messages cs w) (take-drop_append 10 (drop i calls)) in
        rw h (went ∙ rest ∙ sym joined ∙ whole)
    | inr h ↦ rw h (ap (λ cs. tell_all m messages cs w) (sym (drop_all i calls (ground arith))))
  ]

  -- The loop over the batches ends, whatever becomes of its messages: with fuel for the calls that are left, more fuel
  -- changes neither its result nor the state that it leaves.
  pub tell_batches-fuel :
      (fuel more i : ℕ) (calls : List Call) (w : World)
      → length calls ≤ i + fuel
      → length calls ≤ i + more
      → tell_batches m messages fuel i calls w ≡ tell_batches m messages more i calls w
  unfolding tell_batches
  tell_batches-fuel zero zero i calls w enough enough' = refl
  tell_batches-fuel zero (suc more) i calls w enough enough' =
      let over : ltb i (length calls) ≡ false = ground arith in rw over refl
  tell_batches-fuel (suc fuel) zero i calls w enough enough' =
      let over : ltb i (length calls) ≡ false = ground arith in rw over refl
  tell_batches-fuel (suc fuel) (suc more) i calls w enough enough' =
      elim (Bool-cases (ltb i (length calls))) [
        | inl h ↦
            let batch = tell_all m messages (slice i 10 calls) in
            let both =
              bind_same batch (λ _. tell_batches m messages fuel (i + 10) calls)
                (λ _. tell_batches m messages more (i + 10) calls) w
                (λ _.
                  tell_batches-fuel fuel more (i + 10) calls (batch w).1 (omega arith)
                    (omega arith)) in
            rw h both
        | inr h ↦ rw h refl
      ]
