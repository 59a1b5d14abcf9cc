-- ===== src/Conversations/Reading.antt =====
-- Read receipts only move forward.
use learn_nest_js.Shared.{
  ℕ, ◌≤◌, ◌≡◌, arith, String, false, ◌==◌, ==_iff, str_eq, eq_iff, Option, none, some, List, [],
  ◌∷◌, inl, inr, Memᴰ, count, Option-cases, Bool-cases,
}
use learn_nest_js.Shared.Action.{ok, Result-cases, bind_ok, bind_err}
use learn_nest_js.Shared.Platform.{Platform}
use learn_nest_js.Shared.Documents.{Each, Each-refl, update-Each_mem, found}
use learn_nest_js.Shared.Counting.{the_only}
use learn_nest_js.Schemas.{Conversation}
use learn_nest_js.World.{World}
use learn_nest_js.Conversations.Access.{get_or_throw, ensure_member}
use learn_nest_js.Conversations.State.{
  receipt, set_receipt, is_read_past, update_by_id, check_message, check_read, record_read,
  mark_as_read,
}

-- From one receipt of a user to the next.
abbrev pub IsLater : Option ℕ → Option ℕ → Type 0
IsLater none after = Unit
IsLater (some a) none = ⊥
IsLater (some a) (some b) = a ≤ b

IsLater-refl : (o : Option ℕ) → IsLater o o
IsLater-refl none = tt
IsLater-refl (some a) = omega arith

-- The receipts of every user are as late or later.
abbrev pub ReadsOn : Conversation → Conversation → Type 0
ReadsOn c d = (key : String) → IsLater (receipt key c.read_receipts) (receipt key d.read_receipts)

ReadsOn-refl : (c : Conversation) → ReadsOn c c
ReadsOn-refl c key = IsLater-refl (receipt key c.read_receipts)

not_past : (v value : ℕ) → is_read_past (some v) value ≡ false → v ≤ value
not_past v value e = ground arith

set_receipt-IsLater :
    (user : String) (value : ℕ) (xs : List (String × ℕ)) (key : String)
    → is_read_past (receipt user xs) value ≡ false
    → IsLater (receipt key xs) (receipt key (set_receipt user value xs))
set_receipt-IsLater user value [] key e = tt
set_receipt-IsLater user value ((k, v) ∷ rest) key e = elim (Bool-cases (str_eq k user)) [
  | inl same ↦ elim (Bool-cases (str_eq k key)) [
    | inl here ↦
        let it = (eq_iff k user).0 same in
        let past : is_read_past (some v) value ≡ false = rw same at e in
        rw (same, here, rw it at here) (not_past v value past)
    | inr gone ↦
        let it = (eq_iff k user).0 same in
        rw (same, gone, rw it at gone) (IsLater-refl (receipt key rest))
  ]
  | inr diff ↦ elim (Bool-cases (str_eq k key)) [
    | inl here ↦ rw (diff, here) (omega arith)
    | inr gone ↦ rw (diff, gone) (set_receipt-IsLater user value rest key (rw diff at e))
  ]
]

module _ (m : Platform) where
  check_read_keeps : (c u d : String) (w : World) → (check_read m c u d w).1 ≡ w
  unfolding check_read get_or_throw check_message ensure_member
  check_read_keeps c u d w = ground arith

  check_read-stored :
      (c u d : String) (w : World) {x : Conversation} {i j : ℕ}
      → (check_read m c u d w).0 ≡ ok (x, i, j)
      → Memᴰ x w.conversations × (x.id ≡ i)
  unfolding check_read get_or_throw check_message ensure_member
  check_read-stored c u d w {x} {i} {j} e = elim (Option-cases (m.parse_object_id c)) [
    | inl bad ↦ absurd (ground (arith, bad, e))
    | inr (k, pk) ↦ elim (Option-cases (m.find_one (λ d. d.id == k) w.conversations)) [
      | inl missed ↦ absurd (ground (arith, pk, missed, e))
      | inr (v, hit) ↦
          let (mine, here) = found m (λ d. d.id == k) w.conversations hit in
          let same : v ≡ x = ground (arith, pk, hit, e) in
          let id : k ≡ i = ground (arith, pk, hit, e) in
          let it : v.id ≡ k = (==_iff v.id k).0 mine in (rw same at here, cc (same, it, id))
    ]
  ]

  record_read-ReadsOn :
      (user : String) (x : Conversation) (i message : ℕ) (w : World)
      → count (λ d. d.id == i) w.conversations ≤ 1
      → Memᴰ x w.conversations
      → x.id ≡ i
      → Each ReadsOn w.conversations (record_read m user (x, i, message) w).1.conversations
  unfolding record_read update_by_id
  record_read-ReadsOn user x i message w unique here id =
      elim (Bool-cases (is_read_past (receipt user x.read_receipts) message)) [
        | inl e ↦ rw (e, record_read) (Each-refl ReadsOn ReadsOn-refl w.conversations)
        | inr e ↦
            let done =
              update-Each_mem m (λ d. d.id == i)
                (λ d. record d { read_receipts = set_receipt user message d.read_receipts })
                w.conversations ReadsOn ReadsOn-refl
                (λ d stored match key.
                  let it : x ≡ d =
                    the_only (λ d. d.id == i) w.conversations unique here stored
                      ((==_iff x.id i).1 id) match in
                  set_receipt-IsLater user message d.read_receipts key (rw it at e)) in
            rw (e, record_read) done
      ]

  -- Where the ids of the conversations are unique, reading a conversation up to a message, by anyone
  -- and whatever comes of it, takes no user of any conversation back: every receipt stays, at the
  -- message that it named or at a later one.
  pub mark_as_read-ReadsOn :
      (c u d : String) (w : World)
      → ((i : ℕ) → count (λ x. x.id == i) w.conversations ≤ 1)
      → Each ReadsOn w.conversations (mark_as_read m c u d w).1.conversations
  unfolding mark_as_read
  mark_as_read-ReadsOn c u d w unique =
      let kept = check_read_keeps c u d w in
      elim (Result-cases (check_read m c u d w).0) [
        | inl (x, e) ↦
            rw (bind_err (check_read m c u d) (record_read m u) e, kept)
              (Each-refl ReadsOn ReadsOn-refl w.conversations)
        | inr ((x, i, j), e) ↦
            let (here, id) = check_read-stored c u d w e in
            rw (bind_ok (check_read m c u d) (record_read m u) e, kept)
              (record_read-ReadsOn u x i j w (unique i) here id)
      ]
