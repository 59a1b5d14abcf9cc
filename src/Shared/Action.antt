-- ===== src/Shared/Action.antt =====
-- An asynchronous method: it reads and changes a state, and returns or throws. What was written
-- before a throw stays written, unless the code stands in a transaction.
use mathlib.Core.Path.{◌≡◌, refl, sym, ap, subst, ◌∙◌}
use mathlib.Core.Logic.{◌⊎◌, inl, inr}
use mathlib.Core.Bool.{Bool, true, false}
use mathlib.Core.Option.{Option, none, some}
use learn_nest_js.Shared.Errors.{Exception}

pub data Result (A : Type 0) : Type 0 where
  ok : A → Result A
  err : Exception → Result A

module _ {S : Type 0} {A : Type 0} where
  abbrev pub pure : A → S → Result A × S
  pure a s = (ok a, s)

  abbrev pub raise : Exception → S → Result A × S
  raise e s = (err e, s)

  abbrev pub gets : (S → A) → S → Result A × S
  gets f s = (ok (f s), s)

  -- `session.withTransaction`: what a body that throws has written is rolled back.
  abbrev pub with_transaction : (S → Result A × S) → S → Result A × S
  with_transaction m s = let (r, s') = m s in elim r [ ok a ↦ (ok a, s') | err e ↦ (err e, s) ]

  -- `try { … } catch (error) { … }`
  abbrev pub try_catch : (S → Result A × S) → (Exception → S → Result A × S) → S → Result A × S
  try_catch m handler s = let (r, s') = m s in elim r [ ok a ↦ (ok a, s') | err e ↦ handler e s' ]

  -- `if (!value) throw …`
  abbrev pub or_raise : Option A → Exception → S → Result A × S
  or_raise none e = raise e
  or_raise (some a) _ = pure a

module _ {S : Type 0} where
  abbrev pub modify : (S → S) → S → Result (Unit {0}) × S
  modify f s = (ok tt, f s)

  -- `if (test) throw …`
  abbrev pub raise_if : Bool → Exception → S → Result (Unit {0}) × S
  raise_if true e s = (err e, s)
  raise_if false e s = (ok tt, s)

infixl 5 ◌>>=◌ ◌>>◌
abbrev pub ◌>>=◌ :
    {S : Type 0} {A B : Type 0} → (S → Result A × S) → (A → S → Result B × S) → S → Result B × S
◌>>=◌ m f s = let (r, s') = m s in elim r [ ok a ↦ f a s' | err e ↦ (err e, s') ]

abbrev pub ◌>>◌ :
    {S : Type 0} {A B : Type 0} → (S → Result A × S) → (S → Result B × S) → S → Result B × S
m >> k = m >>= λ _. k

pub Result-cases :
    {A : Type 0} (r : Result A) → ((e : Exception) × (r ≡ err e)) ⊎ ((a : A) × (r ≡ ok a))
Result-cases (ok a) = inr (a, refl)
Result-cases (err e) = inl (e, refl)

abbrev caught : {S A : Type 0} → (Exception → S → Result A × S) → Result A × S → Result A × S
caught handler r = elim r.0 [ ok a ↦ (ok a, r.1) | err e ↦ handler e r.1 ]

pub try_catch_err :
    {S A : Type 0} (m : S → Result A × S) (handler : Exception → S → Result A × S) {s t : S}
    {e : Exception}
    → m s ≡ (err e, t)
    → try_catch m handler s ≡ handler e t
try_catch_err m handler p = ap (caught handler) p

pub try_catch_ok :
    {S A : Type 0} (m : S → Result A × S) (handler : Exception → S → Result A × S) {s t : S} {a : A}
    → m s ≡ (ok a, t)
    → try_catch m handler s ≡ (ok a, t)
try_catch_ok m handler p = ap (caught handler) p

abbrev bound : {S A B : Type 0} → (A → S → Result B × S) → S → Result A → Result B × S
bound f t r = elim r [ ok a ↦ f a t | err e ↦ (err e, t) ]

pub bind_ok :
    {S A B : Type 0} (m : S → Result A × S) (f : A → S → Result B × S) {s : S} {a : A}
    → (m s).0 ≡ ok a
    → (m >>= f) s ≡ f a (m s).1
bind_ok m f {s} p = ap (bound f (m s).1) p

pub bind_err :
    {S A B : Type 0} (m : S → Result A × S) (f : A → S → Result B × S) {s : S} {e : Exception}
    → (m s).0 ≡ err e
    → (m >>= f) s ≡ (err e, (m s).1)
bind_err m f {s} p = ap (bound f (m s).1) p

pub transaction_undone :
    {S A : Type 0} (m : S → Result A × S) {s : S} {e : Exception}
    → (with_transaction m s).0 ≡ err e
    → (with_transaction m s).1 ≡ s
transaction_undone m {s} h = elim (Result-cases (m s).0) [
  | inl (x, e) ↦ rw (e, with_transaction) refl
  | inr (a, e) ↦ absurd (clash (rw (e, with_transaction) at h))
]
  where
    clash : {A : Type 0} {a : A} {x : Exception} → ok a ≡ err x → ⊥
    clash k = cc

-- What a call that ends well has gone through.
pub bind_inv :
    {S A B : Type 0} (m : S → Result A × S) (f : A → S → Result B × S) {s : S} {b : B}
    → ((m >>= f) s).0 ≡ ok b
    → (a : A) × ((m s).0 ≡ ok a) × ((m >>= f) s ≡ f a (m s).1)
bind_inv m f {s} h = elim (Result-cases (m s).0) [
  | inl (x, e) ↦ absurd (clash (rw (bind_err m f e) at h))
  | inr (a, e) ↦ (a, e, bind_ok m f e)
]
  where
    clash : {A : Type 0} {a : A} {x : Exception} → err x ≡ ok a → ⊥
    clash k = cc

pub transaction_done :
    {S A : Type 0} (m : S → Result A × S) {s : S} {a : A}
    → (with_transaction m s).0 ≡ ok a
    → with_transaction m s ≡ m s
transaction_done m {s} h = elim (Result-cases (m s).0) [
  | inl (x, e) ↦ absurd (clash (rw (e, with_transaction) at h))
  | inr (b, e) ↦ rw (e, with_transaction) refl
]
  where
    clash : {A : Type 0} {a : A} {x : Exception} → err x ≡ ok a → ⊥
    clash k = cc

-- What follows a check that has let the call through.
pub past_check :
    {S A B : Type 0} (n : S → Result A × S) (k : A → S → Result B × S) (w : S) {b : B}
    → ((n >>= k) w).0 ≡ ok b
    → ((a : A) → (n w).0 ≡ ok a → (n w).1 ≡ w)
    → (a : A) × ((n w).0 ≡ ok a) × ((n >>= k) w ≡ k a w)
past_check n k w h kept = let (a, e, went) = bind_inv n k h in (a, e, went ∙ ap (k a) (kept a e))

-- The whole of what follows a call, by its result and the state that it leaves.
pub bind_went :
    {S A B : Type 0} (m : S → Result A × S) (f : A → S → Result B × S) {s t : S} {a : A}
    → m s ≡ (ok a, t)
    → (m >>= f) s ≡ f a t
bind_went m f p = ap (λ r. bound f r.1 r.0) p

pub bind_failed :
    {S A B : Type 0} (m : S → Result A × S) (f : A → S → Result B × S) {s t : S} {e : Exception}
    → m s ≡ (err e, t)
    → (m >>= f) s ≡ (err e, t)
bind_failed m f p = ap (λ r. bound f r.1 r.0) p

-- What holds of the state that a call leaves, whether or not its first step throws.
pub bind_leaves :
    {S A B : Type 0} (P : S → Type 0) (m : S → Result A × S) (f : A → S → Result B × S) (s : S)
    → ((e : Exception) → (m s).0 ≡ err e → P (m s).1)
    → ((a : A) → (m s).0 ≡ ok a → P (f a (m s).1).1)
    → P ((m >>= f) s).1
bind_leaves P m f s thrown went = elim (Result-cases (m s).0) [
  | inl (e, h) ↦ subst (λ r. P r.1) (sym (bind_err m f h)) (thrown e h)
  | inr (a, h) ↦ subst (λ r. P r.1) (sym (bind_ok m f h)) (went a h)
]

-- Continuations that agree on the state that the call leaves.
pub bind_same :
    {S A B : Type 0} (m : S → Result A × S) (f g : A → S → Result B × S) (s : S)
    → ((a : A) → f a (m s).1 ≡ g a (m s).1)
    → (m >>= f) s ≡ (m >>= g) s
bind_same m f g s same = elim (Result-cases (m s).0) [
  | inl (e, h) ↦ bind_err m f h ∙ sym (bind_err m g h)
  | inr (a, h) ↦ bind_ok m f h ∙ same a ∙ sym (bind_ok m g h)
]
