-- ===== src/Shared/Platform.antt =====
-- What the services rely on and do not implement: the single-document and multi-document
-- operations of MongoDB (through mongoose) and ObjectIds. The operations are parameters; their
-- laws say what the MongoDB manual documents, over an enumeration of a collection's documents
-- in no particular order, and nothing about which of several matching documents is taken.
use learn_nest_js.Shared.Lists.{All, filter, count, update_all}
use Prim.Native.Nat.{ℕ, ◌≤◌}
use Prim.Native.String.{String}
use mathlib.Core.Path.{◌≡◌}
use mathlib.Core.Bool.{Bool, true, false, not, ◌&&◌}
use mathlib.Core.Option.{Option, none, some}
use text.Mathlib.Text.{◌==◌}
use mathlib.Core.List.{List, ◌∷◌, ◌++◌, Memᴰ}

module _ {Doc : Type 0} (p : Doc → Bool) where
  -- `findOne`: some document that matches, or `null` where none does.
  abbrev pub FindsOne : List Doc → Option Doc → Type 0
  FindsOne docs none = All (λ d. p d ≡ false) docs
  FindsOne docs (some d) = (p d ≡ true) × Memᴰ d docs

  -- `findOne` with `sort({ rank: -1 })`: a document that matches and that no other outranks.
  abbrev pub FindsGreatest : (Doc → ℕ) → List Doc → Option Doc → Type 0
  FindsGreatest rank docs none = All (λ d. p d ≡ false) docs
  FindsGreatest rank docs (some d) =
      (p d ≡ true) × Memᴰ d docs × All (λ e. p e ≡ true → rank e ≤ rank d) docs

  -- `findOneAndUpdate`, which is atomic: one document that matches is changed by `f`, and the
  -- result is the document after the change; or nothing matches and nothing changes.
  abbrev pub UpdatesOne : (Doc → Doc) → List Doc → Option Doc → List Doc → Type 0
  UpdatesOne f docs none docs' = All (λ d. p d ≡ false) docs × (docs' ≡ docs)
  UpdatesOne f docs (some e) docs' =
      (before : List Doc) × (d : Doc) × (after : List Doc) × (p d ≡ true)
      × (docs ≡ before ++ d ∷ after)
      × (docs' ≡ before ++ f d ∷ after)
      × (e ≡ f d)

  -- `findOneAndDelete`: the result is the document that is gone.
  abbrev pub DeletesOne : List Doc → Option Doc → List Doc → Type 0
  DeletesOne docs none docs' = All (λ d. p d ≡ false) docs × (docs' ≡ docs)
  DeletesOne docs (some e) docs' =
      (before : List Doc) × (after : List Doc) × (p e ≡ true)
      × (docs ≡ before ++ e ∷ after)
      × (docs' ≡ before ++ after)

-- `create`: the document is added somewhere.
abbrev pub Inserts : {Doc : Type 0} → Doc → List Doc → List Doc → Type 0
Inserts {Doc} d docs docs' =
    (before : List Doc) × (after : List Doc) × (docs ≡ before ++ after)
    × (docs' ≡ before ++ d ∷ after)

-- An entry of Redis' sets: a key and a member of the set at that key.
abbrev pub is_pair : String → String → String × String → Bool
is_pair key member (k, v) = k == key && v == member

pub record Platform : Type 1 where
  pub find_one : {Doc : Type 0} → (Doc → Bool) → List Doc → Option Doc
  pub find_greatest : {Doc : Type 0} → (Doc → Bool) → (Doc → ℕ) → List Doc → Option Doc
  pub find_one_and_update :
      {Doc : Type 0} → (Doc → Bool) → (Doc → Doc) → List Doc → Option Doc × List Doc
  pub find_one_and_delete : {Doc : Type 0} → (Doc → Bool) → List Doc → Option Doc × List Doc
  pub insert : {Doc : Type 0} → Doc → List Doc → List Doc
  pub find : {Doc : Type 0} → (Doc → Bool) → List Doc → List Doc
  pub count_documents : {Doc : Type 0} → (Doc → Bool) → List Doc → ℕ
  pub update_many : {Doc : Type 0} → (Doc → Bool) → (Doc → Doc) → List Doc → List Doc
  pub delete_many : {Doc : Type 0} → (Doc → Bool) → List Doc → List Doc
  pub find_one_lem :
      {Doc : Type 0} (p : Doc → Bool) (docs : List Doc) → FindsOne p docs (find_one p docs)
  pub find_greatest_lem :
      {Doc : Type 0} (p : Doc → Bool) (rank : Doc → ℕ) (docs : List Doc)
      → FindsGreatest p rank docs (find_greatest p rank docs)
  pub find_one_and_update_lem :
      {Doc : Type 0} (p : Doc → Bool) (f : Doc → Doc) (docs : List Doc)
      → UpdatesOne p f docs (find_one_and_update p f docs).0 (find_one_and_update p f docs).1
  pub find_one_and_delete_lem :
      {Doc : Type 0} (p : Doc → Bool) (docs : List Doc)
      → DeletesOne p docs (find_one_and_delete p docs).0 (find_one_and_delete p docs).1
  pub insert_lem : {Doc : Type 0} (d : Doc) (docs : List Doc) → Inserts d docs (insert d docs)
  pub find_lem : {Doc : Type 0} (p : Doc → Bool) (docs : List Doc) → find p docs ≡ filter p docs
  pub count_documents_lem :
      {Doc : Type 0} (p : Doc → Bool) (docs : List Doc) → count_documents p docs ≡ count p docs
  pub update_many_lem :
      {Doc : Type 0} (p : Doc → Bool) (f : Doc → Doc) (docs : List Doc)
      → update_many p f docs ≡ update_all p f docs
  pub delete_many_lem :
      {Doc : Type 0} (p : Doc → Bool) (docs : List Doc)
      → delete_many p docs ≡ filter (λ d. not (p d)) docs
  -- `SREM`, none where the command fails.
  pub redis_srem : String → String → List (String × String) → Option (List (String × String))
  pub redis_srem_lem :
      (key member : String) (sets kept : List (String × String))
      → redis_srem key member sets ≡ some kept
      → kept ≡ filter (λ e. not (is_pair key member e)) sets
  -- `new Types.ObjectId(text)`, none where `ObjectId.isValid` refuses the text; the text of an
  -- id; the id that the driver gives to the n-th document that it creates.
  pub parse_object_id : String → Option ℕ
  pub object_id_text : ℕ → String
  pub new_object_id : ℕ → ℕ
  pub parse-text : (i : ℕ) → parse_object_id (object_id_text i) ≡ some i
  pub new_object_id-injective : (m n : ℕ) → new_object_id m ≡ new_object_id n → m ≡ n
