-- ===== src/Shared/Counting.antt =====
-- How many documents of a collection match, under each operation of the platform.
use Prim.Native.Nat.{◌+◌, ◌≤◌}
use mathlib.Core.Path.{◌≡◌, refl}
use mathlib.Core.Logic.{inl, inr}
use mathlib.Core.Bool.{Bool, true, false}
use mathlib.Core.Option.{none, some}
use mathlib.Core.List.{List, [], ◌∷◌, ◌++◌, Memᴰ}
use native.Mathlib.Omega.{arith}
use learn_nest_js.Shared.Tests.{Option-cases, if◌then◌else◌}
use learn_nest_js.Shared.Lists.{All, count}
use learn_nest_js.Shared.Platform.{Platform}

module _ {A : Type 0} (q : A → Bool) where
  pub count-append : (xs ys : List A) → count q (xs ++ ys) ≡ count q xs + count q ys
  count-append [] ys = omega arith
  count-append (x ∷ xs) ys = ground (arith, count-append xs ys)

  pub count_none : (xs : List A) → All (λ x. q x ≡ false) xs → count q xs ≡ 0
  count_none [] h = refl
  count_none (x ∷ xs) (e, h) = ground (arith, count_none xs h)

  pub count_pos : {x : A} (xs : List A) → Memᴰ x xs → q x ≡ true → 1 ≤ count q xs
  count_pos [] m e = elim m [ ]
  count_pos (x ∷ xs) (Memᴰ.head same) e = let here = rw same at e in ground arith
  count_pos (x ∷ xs) (Memᴰ.tail m) e = ground (arith, count_pos xs m e)

  -- Two that match are one, where at most one matches.
  pub the_only :
      {x y : A} (xs : List A)
      → count q xs ≤ 1
      → Memᴰ x xs
      → Memᴰ y xs
      → q x ≡ true
      → q y ≡ true
      → x ≡ y
  the_only {x} {y} [] h i j p r = elim i [ ]
  the_only {x} {y} (z ∷ zs) h (Memᴰ.head a) (Memᴰ.head b) p r = cc
  the_only {x} {y} (z ∷ zs) h (Memᴰ.head a) (Memᴰ.tail j) p r =
      let here : q z ≡ true = rw a at p in absurd (ground (arith, count_pos zs j r))
  the_only {x} {y} (z ∷ zs) h (Memᴰ.tail i) (Memᴰ.head b) p r =
      let here : q z ≡ true = rw b at r in absurd (ground (arith, count_pos zs i p))
  the_only {x} {y} (z ∷ zs) h (Memᴰ.tail i) (Memᴰ.tail j) p r = the_only zs (ground arith) i j p r

module _ (m : Platform) {Doc : Type 0} (q : Doc → Bool) where
  open m use {
    find_one, find_one_lem, find_one_and_update, find_one_and_update_lem, find_one_and_delete,
    find_one_and_delete_lem, insert, insert_lem,
  }

  pub count-insert :
      (d : Doc) (docs : List Doc) → count q (insert d docs) ≡ (if q d then 1 else 0) + count q docs
  count-insert d docs =
      let (before, after, was, is) = insert_lem d docs in
      rw (is, was) (ground (arith, count-append q before (d ∷ after), count-append q before after))

  -- A change that no document can be told by keeps the count.
  pub count-update_same :
      (p : Doc → Bool) (f : Doc → Doc) (docs : List Doc)
      → ((d : Doc) → p d ≡ true → q (f d) ≡ q d)
      → count q (find_one_and_update p f docs).1 ≡ count q docs
  count-update_same p f docs same = elim (Option-cases (find_one_and_update p f docs).0) [
    | inl e ↦ rw (rw e at (find_one_and_update_lem p f docs)).1
    | inr (e, hit) ↦
        let (before, d, after, matched, was, is, r) =
          rw hit at (find_one_and_update_lem p f docs) in
        let kept = same d matched in
        rw (is, was)
          (ground (arith, count-append q before (f d ∷ after), count-append q before (d ∷ after)))
  ]

  pub count-delete-le :
      (p : Doc → Bool) (docs : List Doc) → count q (find_one_and_delete p docs).1 ≤ count q docs
  count-delete-le p docs = elim (Option-cases (find_one_and_delete p docs).0) [
    | inl e ↦ rw (rw e at (find_one_and_delete_lem p docs)).1 (omega arith)
    | inr (e, hit) ↦
        let (before, after, matched, was, is) = rw hit at (find_one_and_delete_lem p docs) in
        rw (is, was)
          (ground (arith, count-append q before (e ∷ after), count-append q before after))
  ]

  pub count-delete_hit :
      (p : Doc → Bool) (docs : List Doc) {e : Doc}
      → (find_one_and_delete p docs).0 ≡ some e
      → count q docs ≡ (if q e then 1 else 0) + count q (find_one_and_delete p docs).1
  count-delete_hit p docs {e} hit =
      let (before, after, matched, was, is) = rw hit at (find_one_and_delete_lem p docs) in
      rw (is, was) (ground (arith, count-append q before (e ∷ after), count-append q before after))

  pub count_of_missed : (docs : List Doc) → find_one q docs ≡ none → count q docs ≡ 0
  count_of_missed docs e = count_none q docs (rw e at (find_one_lem q docs))

  pub missed_of_count : (docs : List Doc) → count q docs ≡ 0 → find_one q docs ≡ none
  missed_of_count docs h = elim (Option-cases (find_one q docs)) [
    | inl e ↦ e
    | inr (d, e) ↦
        let (matched, here) = rw e at (find_one_lem q docs) in
        absurd (omega (arith, count_pos q docs here matched))
  ]
