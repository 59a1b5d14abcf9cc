-- ===== src/Calls/Completing.antt =====
-- What `createMissingCallMessages` of call.service.ts leaves behind.
use learn_nest_js.Shared.{
  ℕ, zero, suc, ◌≤◌, ◌≡◌, refl, sym, ap, ◌∙◌, arith, Bool, true, false, ◌&&◌, ◌||◌, ◌==◌, ==_iff,
  List, [], ◌∷◌, length, if◌then◌else◌, Bool-cases, Option-cases, inl, inr, String, Memᴰ, filter,
  any,
}
use learn_nest_js.Shared.Action.{ok}
use learn_nest_js.Shared.Platform.{Platform}
use learn_nest_js.Shared.Documents.{found}
use learn_nest_js.Shared.Counting.{count_pos}
use learn_nest_js.Schemas.{Call}
use learn_nest_js.World.{World}
use learn_nest_js.Calls.Message.{Messages, is_about}
use learn_nest_js.Calls.Telling.{told}
use learn_nest_js.Calls.Missing.{
  Sorting, tell_missing, tell_all, tell_batches, recent_calls, ended_rank, is_recent,
  create_missing_call_messages,
}
use learn_nest_js.Calls.Backfill.{tell_batches_lem, tell_all_ok}
use learn_nest_js.Calls.Retelling.{at_least_one, at_least_one_same, create_call_message_tells}

at_least_one_again : (n : ℕ) → at_least_one (at_least_one n) ≡ at_least_one n
at_least_one_again zero = refl
at_least_one_again (suc n) = refl

-- A test that some document of a list meets depends on its members only.
module _ {A : Type 0} (p : A → Bool) where
  any_mem : {x : A} (xs : List A) → Memᴰ x xs → p x ≡ true → any p xs ≡ true
  any_mem [] i h = elim i [ ]
  any_mem (y ∷ ys) (Memᴰ.head same) h = let here = rw same at h in ground arith
  any_mem (y ∷ ys) (Memᴰ.tail i) h = ground (arith, any_mem ys i h)

  mem_any : (xs : List A) → any p xs ≡ true → (x : A) × Memᴰ x xs × (p x ≡ true)
  mem_any [] h = absurd (ground arith)
  mem_any (y ∷ ys) h = elim (Bool-cases (p y)) [
    | inl e ↦ (y, Memᴰ.head refl, e)
    | inr e ↦ let (x, i, k) = mem_any ys (rw e at h) in (x, Memᴰ.tail i, k)
  ]

  any_same :
      (xs ys : List A)
      → ((x : A) → Memᴰ x xs → Memᴰ x ys)
      → ((x : A) → Memᴰ x ys → Memᴰ x xs)
      → any p xs ≡ any p ys
  any_same xs ys to from = elim (Bool-cases (any p xs)) [
    | inl h ↦ let (x, i, k) = mem_any xs h in h ∙ sym (any_mem ys (to x i) k)
    | inr h ↦ elim (Bool-cases (any p ys)) [
      | inl k ↦ let (x, i, e) = mem_any ys k in absurd (clash (sym h ∙ any_mem xs (from x i) e))
      | inr k ↦ h ∙ sym k
    ]
  ]
    where
      clash : ◌≡◌ {A = Bool} false true → ⊥
      clash k = cc

  any-filter : (q : A → Bool) (xs : List A) → any p (filter q xs) ≡ any (λ x. q x && p x) xs
  any-filter q [] = refl
  any-filter q (x ∷ xs) = elim (Bool-cases (q x)) [
    | inl h ↦ rw h (ap (λ b. p x || b) (any-filter q xs))
    | inr h ↦ rw h (any-filter q xs)
  ]

module _ (m : Platform) (messages : Messages) where
  tell_missing_lem :
      (c : Call) (w : World)
      → ((t : String) (v : World) → (messages.announce t v).0 ≡ ok tt)
      → ((tell_missing m messages c w).0 ≡ ok tt)
        × ((j : ℕ)
            → told m j (tell_missing m messages c w).1
              ≡ (if c.id == j then at_least_one (told m j w) else told m j w))
  unfolding tell_missing
  tell_missing_lem c w heard = elim (Option-cases (m.find_one (is_about c.id) w.messages)) [
    | inl e ↦ rw e (create_call_message_tells m messages c w heard)
    | inr (d, e) ↦
        let (own, there) = found m (is_about c.id) w.messages e in
        let told_one = count_pos (is_about c.id) w.messages there own in
        rw e (
          refl,
          λ j. elim (Bool-cases (c.id == j)) [
            | inl h ↦
                let it = (==_iff c.id j).0 h in
                rw h (
                  sym (
                    at_least_one_same m (told m j w)
                      (λ z. absurd (omega (arith, rw it at told_one)))))
            | inr h ↦ rw h refl
          ],
        )
  ]

  tell_all_tells :
      (cs : List Call) (w : World) (j : ℕ)
      → ((t : String) (v : World) → (messages.announce t v).0 ≡ ok tt)
      → told m j (tell_all m messages cs w).1
        ≡ (if any (λ c. c.id == j) cs then at_least_one (told m j w) else told m j w)
  unfolding tell_all
  tell_all_tells [] w j heard = refl
  tell_all_tells (c ∷ cs) w j heard =
      let (_, one) = tell_missing_lem c w heard in
      let here = one j in
      let rest = tell_all_tells cs (tell_missing m messages c w).1 j heard in
      elim (Bool-cases (c.id == j)) [
        | inl h ↦ elim (Bool-cases (any (λ c. c.id == j) cs)) [
          | inl k ↦ rw h (rest ∙ rw (k, here, h) (at_least_one_again (told m j w)))
          | inr k ↦ rw h (rest ∙ rw (k, here, h) refl)
        ]
        | inr h ↦ rw h (
            rest
            ∙ ap (λ n. if any (λ c. c.id == j) cs then at_least_one n else n) (here ∙ rw h refl))
      ]

  module _ (sorting : Sorting) where
    recent_any :
        (w : World) (j : ℕ)
        → any (λ c. c.id == j) (recent_calls m sorting w)
          ≡ any (λ c. is_recent w.now c && c.id == j) w.calls
    recent_any w j =
        let own = λ (c : Call). c.id == j in
        let recent = m.find (is_recent w.now) w.calls in
        any_same own (recent_calls m sorting w) recent
          (λ c. sorting.mem-ascending ended_rank recent c)
          (λ c. sorting.ascending-mem ended_rank recent c)
        ∙ ap (any own) (m.find_lem (is_recent w.now) w.calls)
        ∙ any-filter own (is_recent w.now) w.calls

    -- Where the realtime layer takes messages and the fuel is enough for the calls: the loop over the
    -- batches of ten does what one pass over all the calls does.
    pub tell_batches-tell_all :
        (fuel : ℕ) (calls : List Call) (w : World)
        → ((t : String) (v : World) → (messages.announce t v).0 ≡ ok tt)
        → length calls ≤ fuel
        → tell_batches m messages fuel 0 calls w ≡ tell_all m messages calls w
    tell_batches-tell_all fuel calls w heard enough =
        tell_batches_lem m messages fuel 0 calls w (λ c v. (tell_missing_lem c v heard).0)
          (omega arith)

    -- Where the realtime layer takes messages, the job succeeds; a call that has ended, was missed or
    -- was rejected within the last two days is then told of by one message where it was told of by
    -- none; and every other number of messages about a call is as it was.
    pub create_missing_call_messages-told :
        (w : World) (j : ℕ)
        → ((t : String) (v : World) → (messages.announce t v).0 ≡ ok tt)
        → ((create_missing_call_messages m messages sorting w).0 ≡ ok tt)
          × (told m j (create_missing_call_messages m messages sorting w).1 ≡ (
              if any (λ c. is_recent w.now c && c.id == j) w.calls
              then at_least_one (told m j w)
              else told m j w))
    unfolding create_missing_call_messages
    create_missing_call_messages-told w j heard =
        let calls = recent_calls m sorting w in
        let it = tell_batches-tell_all (length calls) calls w heard (omega arith) in
        rw it (
          tell_all_ok m messages calls w (λ c v. (tell_missing_lem c v heard).0),
          rw (sym (recent_any w j)) (tell_all_tells calls w j heard),
        )
