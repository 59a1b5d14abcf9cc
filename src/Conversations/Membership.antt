-- ===== src/Conversations/Membership.antt =====
-- Who may remove whom from a group (`removeMember` of conversation-member.service.ts), and what is
-- left of it.
use learn_nest_js.Shared.{
  sym, subst, count, ◌≤◌, not, filter, List, ◌∙◌, ℕ, ◌≡◌, refl, arith, String, Bool, true, false,
  ◌==◌, ==_iff, str_eq, eq_iff, Option, none, some, inl, inr, Memᴰ, contains, ap, ◌⊎◌, Option-cases,
  Bool-cases,
}
use learn_nest_js.Shared.Action.{ok, ◌>>◌, with_transaction, past_check, bind_inv, transaction_done}
use learn_nest_js.Shared.Platform.{Platform}
use learn_nest_js.Shared.Documents.{
  found, Each, Each-mem, Each-trans, Each-weaken, update-Each, update_hit, update_of_mem,
}
use learn_nest_js.Shared.Counting.{the_only}
use learn_nest_js.Conversations.State.{update_by_id}
use learn_nest_js.CleanupJobs.Create.{try_cleanup_job, create_cleanup_job, insert_job}
use learn_nest_js.CleanupJobs.Dispatcher.{remove_unseen}
use learn_nest_js.Schemas.{Conversation}
use learn_nest_js.World.{World}
use learn_nest_js.Users
use learn_nest_js.Conversations.Access.{get_or_throw, ensure_member, ensure_group_admin, is_id}
use learn_nest_js.Conversations.Member.{
  Posts, SameMembers, without, write_remove, after_remove, remove_unseen_with_cleanup,
  remove_member, check_remove, is_text_of,
}

abbrev or_zero : Option ℕ → ℕ
or_zero none = 0
or_zero (some n) = n

clash : {b : Bool} → b ≡ true → b ≡ false → ⊥
clash e k = cc

-- Still the same conversation with the same administrator; and with the same members, where it is
-- not `c`.
abbrev KeptBut : Conversation → Conversation → Conversation → Type 0
KeptBut c x y =
    (y.id ≡ x.id)
    × (y.admin_group_id ≡ x.admin_group_id)
    × ((x.id == c.id) ≡ false → y.users ≡ x.users)

-- The user `v` alone has gone from the members of `c`, and nobody else from anywhere.
abbrev pub IsWithout : ℕ → Conversation → List Conversation → List Conversation → Type 0
IsWithout v c before after =
    ((d : Conversation) × Memᴰ d after
      × (d.id ≡ c.id)
      × (d.users ≡ filter (λ u. not (u == v)) c.users))
    × Each (KeptBut c) before after

KeptBut-trans : (c x y z : Conversation) → KeptBut c x y → KeptBut c y z → KeptBut c x z
KeptBut-trans c x y z (i, a, u) (i', a', u') =
    (i' ∙ i, a' ∙ a, λ h. u' (ap (λ k. k == c.id) i ∙ h) ∙ u h)

SameMembers-KeptBut : (c x y : Conversation) → SameMembers x y → KeptBut c x y
SameMembers-KeptBut c x y (i, users, a) = (i, a, λ h. users)

module _ (m : Platform) where
  -- The administrator who is `u` is not `v`, where the texts of the two differ.
  admin_is_other :
      (admin : Option ℕ) (u v : ℕ) (current member : String)
      → current ≡ m.object_id_text u
      → member ≡ m.object_id_text v
      → str_eq current member ≡ false
      → is_id admin u ≡ true
      → is_id admin v ≡ false
  admin_is_other none u v current member su sv diff e = refl
  admin_is_other (some a) u v current member su sv diff e = elim (Bool-cases (a == v)) [
    | inl here ↦
        let p = (==_iff a v).0 here in
        let q = (==_iff a u).0 e in
        let same : current ≡ member = cc (p, q, su, sv) in
        absurd (clash ((eq_iff current member).1 same) diff)
    | inr gone ↦ gone
  ]

  -- Who leaves and is not told to be the administrator by the text of the id, is not.
  leaver_is_other :
      (admin : Option ℕ) (v : ℕ) (current : String)
      → current ≡ m.object_id_text v
      → is_text_of m.object_id_text admin current ≡ false
      → is_id admin v ≡ false
  leaver_is_other none v current sv e = refl
  leaver_is_other (some a) v current sv e = elim (Bool-cases (a == v)) [
    | inl here ↦
        let p = (==_iff a v).0 here in
        let same : current ≡ m.object_id_text a = cc (p, sv) in
        absurd (clash ((eq_iff current (m.object_id_text a)).1 same) e)
    | inr gone ↦ gone
  ]

  check_remove_lem :
      (id current member : String) (u v : ℕ) (w : World) {x : Conversation × ℕ × ℕ}
      → current ≡ m.object_id_text u
      → member ≡ m.object_id_text v
      → (check_remove m id current member w).0 ≡ ok x
      → (c : Conversation) × Memᴰ c w.conversations
        × (m.parse_object_id id ≡ some c.id)
        × (x ≡ (c, c.id, v))
        × (c.is_group ≡ true)
        × (contains v c.users ≡ true)
        × (is_id c.admin_group_id v ≡ false)
        × ((u ≡ v) ⊎ (is_id c.admin_group_id u ≡ true))
  unfolding check_remove get_or_throw ensure_member ensure_group_admin Users.find_one
  check_remove_lem id current member u v w {x} su sv e =
      let pu : m.parse_object_id current ≡ some u = rw su (m.parse-text u) in
      let pv : m.parse_object_id member ≡ some v = rw sv (m.parse-text v) in
      elim (Option-cases (m.parse_object_id id)) [
        | inl bad ↦ absurd (ground (arith, bad, e))
        | inr (k, pk) ↦ elim (Option-cases (m.find_one (λ d. d.id == k) w.conversations)) [
          | inl missed ↦ absurd (ground (arith, pk, missed, e))
          | inr (c, hit) ↦
              let (match, here) = found m (λ d. d.id == k) w.conversations hit in
              let key : c.id ≡ k = (==_iff c.id k).0 match in
              let named : m.parse_object_id id ≡ some c.id = cc (pk, key) in
              let group : c.is_group ≡ true = ground (arith, pk, hit, e) in
              elim (Bool-cases (str_eq current member)) [
                | inl same ↦
                    let it : current ≡ member = (eq_iff current member).0 same in
                    let ids : some u ≡ some v = cc (pu, pv, it) in
                    let one : u ≡ v = ap or_zero ids in
                    let inside : contains v c.users ≡ true = ground (arith, pk, hit, pv, same, e) in
                    let told : is_text_of m.object_id_text c.admin_group_id current ≡ false =
                      ground (arith, pk, hit, same, e) in
                    let given : x ≡ (c, k, v) = ground (arith, pk, hit, pv, same, e) in
                    (
                      c,
                      here,
                      named,
                      cc (given, key),
                      group,
                      inside,
                      leaver_is_other c.admin_group_id v current (cc (it, sv)) told,
                      inl one,
                    )
                | inr diff ↦
                    let inside : contains v c.users ≡ true =
                      ground (arith, pk, hit, pu, pv, diff, e) in
                    let admin : is_id c.admin_group_id u ≡ true =
                      ground (arith, pk, hit, pu, diff, e) in
                    let given : x ≡ (c, k, v) = ground (arith, pk, hit, pu, pv, diff, e) in
                    (
                      c,
                      here,
                      named,
                      cc (given, key),
                      group,
                      inside,
                      admin_is_other c.admin_group_id u v current member su sv diff admin,
                      inr admin,
                    )
              ]
        ]
      ]

  check_remove_keeps :
      (id current member : String) (w : World) → (check_remove m id current member w).1 ≡ w
  unfolding check_remove get_or_throw ensure_member ensure_group_admin Users.find_one
  check_remove_keeps id current member w = ground arith

  after_remove_keeps :
      (posts : Posts) (id current member : String) (w : World)
      → (after_remove m posts id current member w).1.conversations ≡ w.conversations
  unfolding after_remove remove_unseen_with_cleanup remove_unseen try_cleanup_job create_cleanup_job
      insert_job
  after_remove_keeps posts id current member w = ground arith

  module _ (posts : Posts) where
    -- The body of the transaction on a stored conversation.
    write_remove_lem :
        (id current member : String) (v : ℕ) (c : Conversation) (w : World) {a : Unit {0}}
        → ((k : ℕ) → count (λ d. d.id == k) w.conversations ≤ 1)
        → Memᴰ c w.conversations
        → (write_remove m posts id current member (c, c.id, v) w).0 ≡ ok a
        → IsWithout v c w.conversations
            (write_remove m posts id current member (c, c.id, v) w).1.conversations
    unfolding write_remove update_by_id
    write_remove_lem id current member v c w unique here done =
        let p = λ (d : Conversation). d.id == c.id in
        let f = without v member in
        let (e, hit) = update_of_mem m p f w.conversations c here ((==_iff c.id c.id).1 refl) in
        let (d, match, made, was, stored) = update_hit m p f w.conversations hit in
        let same : c ≡ d =
          the_only p w.conversations (unique c.id) here was ((==_iff c.id c.id).1 refl) match in
        let others =
          update-Each m p f (w.conversations) (KeptBut c) (λ x. (refl, refl, λ _. refl))
            (λ x k. (refl, refl, λ l. absurd (clash k l))) in
        let docs = (m.find_one_and_update p f w.conversations).1 in
        let kept = posts.post_keeps current id (record w { conversations = docs }) in
        let after = (posts.post current id (record w { conversations = docs })).1.conversations in
        let (y, there, (same_id, same_users, _)) = Each-mem SameMembers docs after kept stored in
        let is : e ≡ f c = made ∙ ap f (sym same) in
        let result : IsWithout v c w.conversations after = (
          (y, there, same_id ∙ ap Conversation.id is, same_users ∙ ap Conversation.users is),
          Each-trans (KeptBut c) (KeptBut-trans c) w.conversations docs after others
              (Each-weaken SameMembers (KeptBut c) (SameMembers-KeptBut c) docs after kept),
        ) in
        rw hit result

    -- Where no two conversations have one id, and the two users' ids are spelled as the server spells
    -- ids: a removal that succeeds is from the group that is named, of a member of it who is not its
    -- administrator, and is asked for by that member or by the administrator; that member alone is gone
    -- from the group, and every other conversation has the members that it had.
    pub remove_member_authorised :
        (id current member : String) (u v : ℕ) (w : World) {done : Bool}
        → ((k : ℕ) → count (λ d. d.id == k) w.conversations ≤ 1)
        → current ≡ m.object_id_text u
        → member ≡ m.object_id_text v
        → (remove_member m posts id current member w).0 ≡ ok done
        → (c : Conversation) × Memᴰ c w.conversations
          × (m.parse_object_id id ≡ some c.id)
          × (c.is_group ≡ true)
          × (contains v c.users ≡ true)
          × (is_id c.admin_group_id v ≡ false)
          × ((u ≡ v) ⊎ (is_id c.admin_group_id u ≡ true))
          × IsWithout v c w.conversations
              (remove_member m posts id current member w).1.conversations
    unfolding remove_member
    remove_member_authorised id current member u v w unique su sv e =
        let writes = write_remove m posts id current member in
        let then_clear = after_remove m posts id current member in
        let (x, fine, went) =
          past_check (check_remove m id current member)
            (λ x. with_transaction (writes x) >> then_clear) w e
            (λ x _. check_remove_keeps id current member w) in
        let (c, here, named, given, group, inside, other, by) =
          check_remove_lem id current member u v w su sv fine in
        let (a, written, then) =
          bind_inv (with_transaction (writes x)) (λ _. then_clear) (rw went at e) in
        let done = transaction_done (writes x) written in
        let stored : IsWithout v c w.conversations (writes x w).1.conversations =
          subst
            (λ x.
              (writes x w).0 ≡ ok a → IsWithout v c w.conversations (writes x w).1.conversations)
            (sym given) (write_remove_lem id current member v c w unique here)
            (rw done at written) in
        (
          c,
          here,
          named,
          group,
          inside,
          other,
          by,
          rw (went, then, done)
              (rw (after_remove_keeps posts id current member (writes x w).1) stored),
        )
