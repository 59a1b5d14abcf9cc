-- ===== src/Shared/Documents.antt =====
-- What follows from the laws of the platform, for the proofs about the services.
use mathlib.Core.Path.{◌≡◌, refl}
use mathlib.Core.Logic.{inl, inr}
use mathlib.Core.Bool.{Bool, true, false}
use mathlib.Core.Option.{Option, none, some}
use mathlib.Core.List.{List, [], ◌∷◌, ◌++◌, Memᴰ}
use learn_nest_js.Shared.Tests.{Bool-cases, Option-cases}
use learn_nest_js.Shared.Lists.{All, All-append, All-left, All-right, All-mem, filter, update_all}
use learn_nest_js.Shared.Platform.{Platform}

-- One document stands where another stood, and nothing else has changed.
abbrev pub Replaces : {Doc : Type 0} → Doc → Doc → List Doc → List Doc → Type 0
Replaces {Doc} d e docs docs' =
    (before : List Doc) × (after : List Doc) × (docs ≡ before ++ d ∷ after)
    × (docs' ≡ before ++ e ∷ after)

-- One document is gone, and nothing else has changed.
abbrev pub Removes : {Doc : Type 0} → Doc → List Doc → List Doc → Type 0
Removes {Doc} d docs docs' =
    (before : List Doc) × (after : List Doc) × (docs ≡ before ++ d ∷ after)
    × (docs' ≡ before ++ after)

module _ {A : Type 0} where
  pub mem-middle : (before : List A) (d : A) (after : List A) → Memᴰ d (before ++ d ∷ after)
  mem-middle [] d after = Memᴰ.head refl
  mem-middle (x ∷ xs) d after = Memᴰ.tail (mem-middle xs d after)

  -- Document by document, in the same order.
  abbrev pub Each : (A → A → Type 0) → List A → List A → Type 0
  Each R [] [] = Unit
  Each R [] (y ∷ ys) = ⊥
  Each R (x ∷ xs) [] = ⊥
  Each R (x ∷ xs) (y ∷ ys) = R x y × Each R xs ys

  pub Each-weaken :
      (R S : A → A → Type 0)
      → ((x y : A) → R x y → S x y)
      → (xs ys : List A) → Each R xs ys
      → Each S xs ys
  Each-weaken R S f [] [] h = tt
  Each-weaken R S f [] (y ∷ ys) h = absurd h
  Each-weaken R S f (x ∷ xs) [] h = absurd h
  Each-weaken R S f (x ∷ xs) (y ∷ ys) (r, h) = (f x y r, Each-weaken R S f xs ys h)

module _ {A : Type 0} (R : A → A → Type 0) where
  pub Each-refl : ((x : A) → R x x) → (xs : List A) → Each R xs xs
  Each-refl h [] = tt
  Each-refl h (x ∷ xs) = (h x, Each-refl h xs)

  pub Each-trans :
      ((x y z : A) → R x y → R y z → R x z)
      → (xs ys zs : List A) → Each R xs ys
      → Each R ys zs
      → Each R xs zs
  Each-trans t [] [] zs h k = k
  Each-trans t [] (y ∷ ys) zs h k = absurd h
  Each-trans t (x ∷ xs) [] zs h k = absurd h
  Each-trans t (x ∷ xs) (y ∷ ys) [] h k = absurd k
  Each-trans t (x ∷ xs) (y ∷ ys) (z ∷ zs) (p, h) (q, k) = (t x y z p q, Each-trans t xs ys zs h k)

  pub Each-middle :
      ((x : A) → R x x)
      → (before : List A) {d e : A} (after : List A) → R d e
      → Each R (before ++ d ∷ after) (before ++ e ∷ after)
  Each-middle h [] after r = (r, Each-refl h after)
  Each-middle h (x ∷ xs) after r = (h x, Each-middle h xs after r)

  pub Each-update_all :
      ((x : A) → R x x)
      → (p : A → Bool) (f : A → A) → ((x : A) → p x ≡ true → R x (f x))
      → (xs : List A) → Each R xs (update_all p f xs)
  Each-update_all h p f k [] = tt
  Each-update_all h p f k (x ∷ xs) = elim (Bool-cases (p x)) [
    | inl e ↦ rw e (k x e, Each-update_all h p f k xs)
    | inr e ↦ rw e (h x, Each-update_all h p f k xs)
  ]

  pub Each-mem : (xs ys : List A) {x : A} → Each R xs ys → Memᴰ x xs → (y : A) × Memᴰ y ys × R x y
  Each-mem [] ys h k = elim k [ ]
  Each-mem (z ∷ zs) [] h k = absurd h
  Each-mem (z ∷ zs) (y ∷ ys) (r, h) (Memᴰ.head e) = (y, Memᴰ.head refl, rw e r)
  Each-mem (z ∷ zs) (y ∷ ys) (r, h) (Memᴰ.tail k) =
      let (u, here, s) = Each-mem zs ys h k in (u, Memᴰ.tail here, s)

module _ {A : Type 0} (P : A → Type 0) where
  pub All-update_all :
      (p : A → Bool) (f : A → A)
      → ((x : A) → p x ≡ true → P x → P (f x))
      → (xs : List A) → All P xs
      → All P (update_all p f xs)
  All-update_all p f k [] h = tt
  All-update_all p f k (x ∷ xs) (q, h) = elim (Bool-cases (p x)) [
    | inl e ↦ rw e (k x e q, All-update_all p f k xs h)
    | inr e ↦ rw e (q, All-update_all p f k xs h)
  ]

  pub All-filter : (p : A → Bool) (xs : List A) → All P xs → All P (filter p xs)
  All-filter p [] h = tt
  All-filter p (x ∷ xs) (q, h) = elim (Bool-cases (p x)) [
    | inl e ↦ rw e (q, All-filter p xs h)
    | inr e ↦ rw e (All-filter p xs h)
  ]

module _ (m : Platform) {Doc : Type 0} (p : Doc → Bool) where
  open m use {
    find_one, find_one_lem, find_one_and_update, find_one_and_update_lem, find_one_and_delete,
    find_one_and_delete_lem, insert, insert_lem,
  }

  pub found : (docs : List Doc) {d : Doc} → find_one p docs ≡ some d → (p d ≡ true) × Memᴰ d docs
  found docs e = rw e at (find_one_lem p docs)

  -- A document that matches is found, or another that matches.
  pub found_of_mem :
      (docs : List Doc) (d : Doc)
      → Memᴰ d docs
      → p d ≡ true
      → (e : Doc) × (find_one p docs ≡ some e) × (p e ≡ true)
  found_of_mem docs d h q = elim (Option-cases (find_one p docs)) [
    | inl e ↦ absurd (clash (All-mem (λ x. p x ≡ false) docs h (rw e at (find_one_lem p docs))))
    | inr (x, e) ↦ (x, e, (found docs e).0)
  ]
    where
      clash : p d ≡ false → ⊥
      clash e = cc

  module _ (f : Doc → Doc) (docs : List Doc) where
    abbrev updated : Option Doc × List Doc
    updated = find_one_and_update p f docs

    pub update_missed : updated.0 ≡ none → (updated.1 ≡ docs) × All (λ d. p d ≡ false) docs
    update_missed e = let h = rw e at (find_one_and_update_lem p f docs) in (h.1, h.0)

    -- The document that a hit returns is the change of one that matches, and stands there now.
    pub update_hit :
        {e : Doc}
        → updated.0 ≡ some e
        → (d : Doc) × (p d ≡ true) × (e ≡ f d) × Memᴰ d docs × Memᴰ e updated.1
    update_hit {e} h =
        let (before, d, after, q, was, is, r) = rw h at (find_one_and_update_lem p f docs) in
        (d, q, r, rw was (mem-middle before d after), rw (is, r) (mem-middle before (f d) after))

    -- What a hit returns stands in the place of the document that matched.
    pub update-Replaces :
        {e : Doc}
        → updated.0 ≡ some e
        → (d : Doc) × (p d ≡ true) × (e ≡ f d) × Memᴰ d docs × Replaces d (f d) docs updated.1
    update-Replaces {e} h =
        let (before, d, after, q, was, is, r) = rw h at (find_one_and_update_lem p f docs) in
        (d, q, r, rw was (mem-middle before d after), (before, after, was, is))

    pub update-All :
        (P : Doc → Type 0) → ((d : Doc) → p d ≡ true → P d → P (f d)) → All P docs → All P updated.1
    update-All P keep h = elim (Option-cases updated.0) [
      | inl e ↦ rw (update_missed e).0 h
      | inr (e, hit) ↦
          let (before, d, after, q, was, is, r) = rw hit at (find_one_and_update_lem p f docs) in
          let here = rw was at h in
          let tail = All-right P before (d ∷ after) here in
          rw is (
            All-append P before (f d ∷ after) (All-left P before (d ∷ after) here)
              (keep d q tail.0, tail.1))
    ]

    pub update-Each :
        (R : Doc → Doc → Type 0)
        → ((d : Doc) → R d d)
        → ((d : Doc) → p d ≡ true → R d (f d))
        → Each R docs updated.1
    update-Each R same keep = elim (Option-cases updated.0) [
      | inl e ↦ rw (update_missed e).0 (Each-refl R same docs)
      | inr (e, hit) ↦
          let (before, d, after, q, was, is, r) = rw hit at (find_one_and_update_lem p f docs) in
          rw is (rw was (Each-middle R same before after (keep d q)))
    ]

    pub update-Each_mem :
        (R : Doc → Doc → Type 0)
        → ((d : Doc) → R d d)
        → ((d : Doc) → Memᴰ d docs → p d ≡ true → R d (f d))
        → Each R docs updated.1
    update-Each_mem R same keep = elim (Option-cases updated.0) [
      | inl e ↦ rw (update_missed e).0 (Each-refl R same docs)
      | inr (e, hit) ↦
          let (before, d, after, q, was, is, r) = rw hit at (find_one_and_update_lem p f docs) in
          let here : Memᴰ d docs = rw was (mem-middle before d after) in
          rw is (rw was (Each-middle R same before after (keep d here q)))
    ]

    -- Where a document matches, some document is changed.
    pub update_of_mem : (d : Doc) → Memᴰ d docs → p d ≡ true → (e : Doc) × (updated.0 ≡ some e)
    update_of_mem d h q = elim (Option-cases updated.0) [
      | inl e ↦ absurd (clash (All-mem (λ x. p x ≡ false) docs h (update_missed e).1))
      | inr hit ↦ hit
    ]
      where
        clash : p d ≡ false → ⊥
        clash e = cc

  pub delete-All :
      (P : Doc → Type 0) (docs : List Doc) → All P docs → All P (find_one_and_delete p docs).1
  delete-All P docs h = elim (Option-cases (find_one_and_delete p docs).0) [
    | inl e ↦ rw (rw e at (find_one_and_delete_lem p docs)).1 h
    | inr (e, hit) ↦
        let (before, after, q, was, is) = rw hit at (find_one_and_delete_lem p docs) in
        let here = rw was at h in
        rw is (
          All-append P before after (All-left P before (e ∷ after) here)
            (All-right P before (e ∷ after) here).1)
  ]

  pub delete_hit :
      (docs : List Doc) {e : Doc}
      → (find_one_and_delete p docs).0 ≡ some e
      → (p e ≡ true) × Memᴰ e docs
  delete_hit docs {e} hit =
      let (before, after, q, was, is) = rw hit at (find_one_and_delete_lem p docs) in
      (q, rw was (mem-middle before e after))

  pub delete-Removes :
      (docs : List Doc) {e : Doc}
      → (find_one_and_delete p docs).0 ≡ some e
      → Removes e docs (find_one_and_delete p docs).1
  delete-Removes docs {e} hit =
      let (before, after, q, was, is) = rw hit at (find_one_and_delete_lem p docs) in
      (before, after, was, is)

  pub delete_missed :
      (docs : List Doc)
      → (find_one_and_delete p docs).0 ≡ none
      → (find_one_and_delete p docs).1 ≡ docs
  delete_missed docs e = (rw e at (find_one_and_delete_lem p docs)).1

module _ (m : Platform) {Doc : Type 0} where
  open m use {insert, insert_lem}

  pub insert-All :
      (P : Doc → Type 0) (d : Doc) (docs : List Doc) → P d → All P docs → All P (insert d docs)
  insert-All P d docs q h =
      let (before, after, was, is) = insert_lem d docs in
      let here = rw was at h in
      rw is (
        All-append P before (d ∷ after) (All-left P before after here)
          (q, All-right P before after here))

  pub insert-mem : (d : Doc) (docs : List Doc) → Memᴰ d (insert d docs)
  insert-mem d docs =
      let (before, after, was, is) = insert_lem d docs in rw is (mem-middle before d after)

  pub insert-mem_other :
      (d : Doc) (docs : List Doc) {e : Doc} → Memᴰ e docs → Memᴰ e (insert d docs)
  insert-mem_other d docs h =
      let (before, after, was, is) = insert_lem d docs in
      rw is (mem-between before after (rw was at h))
    where
      mem-between : (xs ys : List Doc) {e : Doc} → Memᴰ e (xs ++ ys) → Memᴰ e (xs ++ d ∷ ys)
      mem-between [] ys k = Memᴰ.tail k
      mem-between (x ∷ xs) ys (Memᴰ.head e) = Memᴰ.head e
      mem-between (x ∷ xs) ys (Memᴰ.tail k) = Memᴰ.tail (mem-between xs ys k)
