-- ===== src/Shared/ListPlatform.antt =====
-- A platform over lists, in which the first document that matches is taken: it shows that the
-- laws of the interface can be met, and the examples run on it.
use Prim.Native.Nat.{ℕ, zero, suc, ◌≤◌}
use Prim.Native.String.{String}
use mathlib.Core.Path.{◌≡◌, refl, ap}
use mathlib.Core.Logic.{inl, inr}
use mathlib.Core.Bool.{Bool, true, false, not}
use mathlib.Core.Option.{Option, none, some}
use mathlib.Core.List.{List, [], ◌∷◌, Memᴰ}
use native.Mathlib.Omega.{arith}
use learn_nest_js.Shared.Tests.{Bool-cases, if◌then◌else◌, ltb}
use learn_nest_js.Shared.Lists.{All, find?, filter, count, update_all}
use learn_nest_js.Shared.Platform.{
  Platform, FindsOne, FindsGreatest, UpdatesOne, DeletesOne, is_pair,
}

module _ {Doc : Type 0} (p : Doc → Bool) where
  pub find?_lem : (docs : List Doc) → FindsOne p docs (find? p docs)
  find?_lem [] = tt
  find?_lem (x ∷ xs) = elim (Bool-cases (p x)) [
    | inl e ↦ rw e (e, Memᴰ.head refl)
    | inr e ↦ rw e (later (find? p xs) e (find?_lem xs))
  ]
    where
      later : (o : Option Doc) → p x ≡ false → FindsOne p xs o → FindsOne p (x ∷ xs) o
      later none e h = (e, h)
      later (some d) e (q, m) = (q, Memᴰ.tail m)

  module _ (rank : Doc → ℕ) where
    abbrev greater : Doc → Option Doc → Option Doc
    greater x none = some x
    greater x (some y) = if ltb (rank x) (rank y) then some y else some x

    abbrev pub greatest : List Doc → Option Doc
    greatest [] = none
    greatest (x ∷ xs) = if p x then greater x (greatest xs) else greatest xs

    greater_none :
        (x : Doc) (xs : List Doc)
        → All (λ d. p d ≡ false) xs
        → All (λ e. p e ≡ true → rank e ≤ rank x) xs
    greater_none x [] h = tt
    greater_none x (y ∷ ys) (e, h) = (λ k. absurd (clash e k), greater_none x ys h)
      where
        clash : p y ≡ false → p y ≡ true → ⊥
        clash u v = cc

    All-outrank :
        (x y : Doc) (xs : List Doc)
        → rank x ≤ rank y
        → All (λ e. p e ≡ true → rank e ≤ rank x) xs
        → All (λ e. p e ≡ true → rank e ≤ rank y) xs
    All-outrank x y [] le h = tt
    All-outrank x y (z ∷ zs) le (k, h) =
        (λ e. let low = k e in omega arith, All-outrank x y zs le h)

    greater_lem :
        (x : Doc) (xs : List Doc) (o : Option Doc)
        → p x ≡ true
        → FindsGreatest p rank xs o
        → FindsGreatest p rank (x ∷ xs) (greater x o)
    greater_lem x xs none e h = (e, Memᴰ.head refl, (λ k. omega arith, greater_none x xs h))
    greater_lem x xs (some y) e (q, m, h) = elim (Bool-cases (ltb (rank x) (rank y))) [
      | inl lt ↦ rw lt (q, Memᴰ.tail m, (λ k. ground arith, h))
      | inr ge ↦ rw ge (e, Memᴰ.head refl, (λ k. omega arith, All-outrank y x xs (ground arith) h))
    ]

    later_greatest :
        (x : Doc) (xs : List Doc) (o : Option Doc)
        → p x ≡ false
        → FindsGreatest p rank xs o
        → FindsGreatest p rank (x ∷ xs) o
    later_greatest x xs none e h = (e, h)
    later_greatest x xs (some d) e (q, m, h) = (q, Memᴰ.tail m, (λ k. absurd (clash e k), h))
      where
        clash : p x ≡ false → p x ≡ true → ⊥
        clash u v = cc

    pub greatest_lem : (docs : List Doc) → FindsGreatest p rank docs (greatest docs)
    greatest_lem [] = tt
    greatest_lem (x ∷ xs) = elim (Bool-cases (p x)) [
      | inl e ↦ rw e (greater_lem x xs (greatest xs) e (greatest_lem xs))
      | inr e ↦ rw e (later_greatest x xs (greatest xs) e (greatest_lem xs))
    ]

  abbrev keep_head : Doc → Option Doc × List Doc → Option Doc × List Doc
  keep_head x (r, docs) = (r, x ∷ docs)

  abbrev pub update_first : (Doc → Doc) → List Doc → Option Doc × List Doc
  update_first f [] = (none, [])
  update_first f (x ∷ xs) = if p x then (some (f x), f x ∷ xs) else keep_head x (update_first f xs)

  pub update_first_lem :
      (f : Doc → Doc) (docs : List Doc)
      → UpdatesOne p f docs (update_first f docs).0 (update_first f docs).1
  update_first_lem f [] = (tt, refl)
  update_first_lem f (x ∷ xs) = elim (Bool-cases (p x)) [
    | inl e ↦ rw e ([], x, xs, e, refl, refl, refl)
    | inr e ↦ rw e (later (update_first f xs).0 (update_first f xs).1 e (update_first_lem f xs))
  ]
    where
      later :
          (o : Option Doc) (ys : List Doc)
          → p x ≡ false
          → UpdatesOne p f xs o ys
          → UpdatesOne p f (x ∷ xs) o (x ∷ ys)
      later none ys e (h, same) = ((e, h), ap (λ zs. x ∷ zs) same)
      later (some d) ys e (before, c, after, q, was, is, r) =
          (x ∷ before, c, after, q, ap (λ zs. x ∷ zs) was, ap (λ zs. x ∷ zs) is, r)

  abbrev pub delete_first : List Doc → Option Doc × List Doc
  delete_first [] = (none, [])
  delete_first (x ∷ xs) = if p x then (some x, xs) else keep_head x (delete_first xs)

  pub delete_first_lem :
      (docs : List Doc) → DeletesOne p docs (delete_first docs).0 (delete_first docs).1
  delete_first_lem [] = (tt, refl)
  delete_first_lem (x ∷ xs) = elim (Bool-cases (p x)) [
    | inl e ↦ rw e ([], xs, e, refl, refl)
    | inr e ↦ rw e (later (delete_first xs).0 (delete_first xs).1 e (delete_first_lem xs))
  ]
    where
      later :
          (o : Option Doc) (ys : List Doc)
          → p x ≡ false
          → DeletesOne p xs o ys
          → DeletesOne p (x ∷ xs) o (x ∷ ys)
      later none ys e (h, same) = ((e, h), ap (λ zs. x ∷ zs) same)
      later (some d) ys e (before, after, q, was, is) =
          (x ∷ before, after, q, ap (λ zs. x ∷ zs) was, ap (λ zs. x ∷ zs) is)

  abbrev prepend : Doc → List Doc → List Doc
  prepend d docs = d ∷ docs

-- The text of the id `i` has `i + 1` letters; the empty text is no id. As with MongoDB's hex
-- digits, texts that differ ("b" for "a") may be read as one id.
abbrev id_of_rest : String → ℕ
id_of_rest String.[] = 0
id_of_rest (String.◌∷◌ c s) = suc (id_of_rest s)

abbrev id_of : String → Option ℕ
id_of String.[] = none
id_of (String.◌∷◌ c s) = some (id_of_rest s)

abbrev text_of : ℕ → String
text_of zero = String.◌∷◌ "a" String.[]
text_of (suc i) = String.◌∷◌ "a" (text_of i)

rest-text : (i : ℕ) → id_of_rest (text_of i) ≡ suc i
rest-text zero = refl
rest-text (suc i) = ap suc (rest-text i)

pub id_of-text : (i : ℕ) → id_of (text_of i) ≡ some i
id_of-text zero = refl
id_of-text (suc i) = ap some (rest-text i)

pub kept-eq : {A : Type 0} (x y : A) → some x ≡ some y → y ≡ x
kept-eq x y e = cc

abbrev pub list_platform : Platform
list_platform = record {
  find_one = λ p docs. find? p docs;
  find_greatest = λ p rank docs. greatest p rank docs;
  find_one_and_update = λ p f docs. update_first p f docs;
  find_one_and_delete = λ p docs. delete_first p docs;
  insert = λ d docs. d ∷ docs;
  find = λ p docs. filter p docs;
  count_documents = λ p docs. count p docs;
  update_many = λ p f docs. update_all p f docs;
  delete_many = λ p docs. filter (λ d. not (p d)) docs;
  find_one_lem = find?_lem;
  find_greatest_lem = greatest_lem;
  find_one_and_update_lem = update_first_lem;
  find_one_and_delete_lem = delete_first_lem;
  insert_lem = λ d docs. ([], docs, refl, refl);
  find_lem = λ p docs. refl;
  count_documents_lem = λ p docs. refl;
  update_many_lem = λ p f docs. refl;
  delete_many_lem = λ p docs. refl;
  redis_srem = λ key member sets. some (filter (λ e. not (is_pair key member e)) sets);
  redis_srem_lem = λ key member sets kept e. kept-eq _ kept e;
  parse_object_id = id_of;
  object_id_text = text_of;
  new_object_id = λ n. n;
  parse-text = id_of-text;
  new_object_id-injective = λ m n e. e;
}
