-- ===== src/Reports/Application.antt =====
-- Whom a penalty that is applied reaches, and what it leaves stored.
use learn_nest_js.Shared.{
  ◌∙◌, List, ℕ, suc, ◌+◌, ◌*◌, ◌≤◌, ◌≡◌, inl, inr, refl, sym, arith, String, false, ◌&&◌, ◌==◌,
  ==_iff, Option, none, some, Memᴰ, count, Option-cases, Bool-cases,
}
use learn_nest_js.Shared.Action.{ok, Result-cases, bind_ok, bind_err}
use learn_nest_js.Shared.Platform.{Platform}
use learn_nest_js.Shared.Documents.{
  Each, Each-refl, update-Each_mem, update_of_mem, update_hit, found,
}
use learn_nest_js.Shared.Counting.{the_only}
use learn_nest_js.Schemas.{Report, User, UserRole, ReportReason, PenaltyAction, PenaltyType}
use learn_nest_js.World.{World}
use learn_nest_js.Users
use learn_nest_js.Reports.Penalty.{
  Resets, Penalty, penalised, reduces, day_ms, save, apply, apply_chosen, find_target, chosen,
  strikes, calculate_and_apply, penalise, penalty_type, is_super_admin, is_admin,
}
use learn_nest_js.Reports.Severity.{
  Penalised, Penalised-refl, penalised-fields, penalised-Penalised, ban-version, ban-date,
}

module _ (m : Platform) where
  -- The user that `find_target` lets through is stored, and is no one who is spared.
  find_target_lem :
      (target admin_id : String) (role : UserRole) (w : World) {u : User}
      → (find_target m target admin_id role w).0 ≡ ok u
      → Memᴰ u w.users
        × (is_super_admin u.role ≡ false)
        × ((is_admin role && is_admin u.role) ≡ false)
        × (m.parse_object_id target ≡ some u.id)
  unfolding find_target Users.find_one
  find_target_lem target admin_id role w {u} e = elim (Option-cases (m.parse_object_id target)) [
    | inl bad ↦ absurd (ground (arith, bad, e))
    | inr (i, pi) ↦ elim (Option-cases (m.find_one (λ u. u.id == i) w.users)) [
      | inl missed ↦ absurd (ground (arith, pi, missed, e))
      | inr (v, hit) ↦
          let (mine, here) = found m (λ u. u.id == i) w.users hit in
          let same : v ≡ u = ground (arith, pi, hit, e) in
          let a : is_super_admin v.role ≡ false = ground (arith, pi, hit, e) in
          let b : (is_admin role && is_admin v.role) ≡ false = ground (arith, pi, hit, e) in
          let it : v.id ≡ i = (==_iff v.id i).0 mine in
          ((rw same at here), cc (same, a), cc (same, b), cc (same, it, pi))
    ]
  ]

  find_target_keeps :
      (target admin_id : String) (role : UserRole) (w : World)
      → (find_target m target admin_id role w).1 ≡ w
  unfolding find_target Users.find_one
  find_target_keeps target admin_id role w = ground arith

  apply-Penalised :
      (by : UserRole) (action : PenaltyAction) (days : ℕ) (r : Resets) (u : User) (w : World)
      → count (λ v. v.id == u.id) w.users ≤ 1
      → Memᴰ u w.users
      → is_super_admin u.role ≡ false
      → (is_admin by && is_admin u.role) ≡ false
      → Each (Penalised by w.now) w.users (apply m action days r u w).1.users
  unfolding apply save
  apply-Penalised by action days r u w unique here not_super not_admin =
      elim (Bool-cases (reduces u action days w.now)) [
        | inl e ↦ rw (e, apply) (Each-refl (Penalised by w.now) (Penalised-refl by w.now) w.users)
        | inr e ↦
            let until = w.now + days * day_ms in
            let done =
              update-Each_mem m (λ v. v.id == u.id) (λ v. penalised action r until u) w.users
                (Penalised by w.now) (Penalised-refl by w.now)
                (λ d stored match.
                  let it : u ≡ d =
                    the_only (λ v. v.id == u.id) w.users unique here stored
                      ((==_iff u.id u.id).1 refl) match in
                  rw (sym it)
                    (penalised-Penalised by action r days w.now u e not_super not_admin)) in
            rw (e, apply) done
      ]

  apply_chosen-Penalised :
      (by : UserRole) (c : Option (PenaltyAction × ℕ)) (r : Resets) (u : User) (w : World)
      → count (λ v. v.id == u.id) w.users ≤ 1
      → Memᴰ u w.users
      → is_super_admin u.role ≡ false
      → (is_admin by && is_admin u.role) ≡ false
      → Each (Penalised by w.now) w.users (apply_chosen m c r u w).1.users
  apply_chosen-Penalised by none r u w unique here a b =
      Each-refl (Penalised by w.now) (Penalised-refl by w.now) w.users
  apply_chosen-Penalised by (some (action, days)) r u w unique here a b =
      apply-Penalised by action days r u w unique here a b

  -- Where the ids of the users are unique: whether it is applied or refused, and whoever chooses it,
  -- a penalty leaves every user with the same id and role, with a token version as high or higher,
  -- and with a ban or mute that runs on for as long or longer. A super administrator is never
  -- changed, nor is an administrator by another.
  pub calculate_and_apply-Penalised :
      (committed : List Report) (target : String) (reason : ReportReason) (admin_id : String)
      (by : UserRole) (action : Option PenaltyAction) (days : Option ℕ) (r : Resets) (w : World)
      → ((i : ℕ) → count (λ v. v.id == i) w.users ≤ 1)
      → Each
          (Penalised by w.now)
          w.users
          (calculate_and_apply m committed target reason admin_id by action days r w).1.users
  unfolding calculate_and_apply
  calculate_and_apply-Penalised committed target reason admin_id by action days r w unique =
      let kept = find_target_keeps target admin_id by w in
      let same = Each-refl (Penalised by w.now) (Penalised-refl by w.now) w.users in
      elim (Result-cases (find_target m target admin_id by w).0) [
        | inl (x, e) ↦
            rw
              (bind_err (find_target m target admin_id by)
                (penalise m committed reason action days r) e)
              (rw kept same)
        | inr (u, e) ↦
            let (here, a, b, _) = find_target_lem target admin_id by w e in
            let c = chosen action days reason (suc (strikes m committed u.id reason)) in
            let done = apply_chosen-Penalised by c r u w (unique u.id) here a b in
            rw
              (bind_ok (find_target m target admin_id by)
                (penalise m committed reason action days r) e)
              (rw kept done)
      ]

  apply-ban :
      (action : PenaltyAction) (days : ℕ) (r : Resets) (u : User) (w : World) {p : Penalty}
      → Memᴰ u w.users
      → (apply m action days r u w).0 ≡ ok p
      → p.kind ≡ some PenaltyType.ban
      → (v : User) × Memᴰ v (apply m action days r u w).1.users
        × (v.id ≡ u.id)
        × (v.token_version ≡ suc u.token_version)
        × (v.ban_until ≡ some (w.now + days * day_ms))
        × (p.ban_until ≡ some (w.now + days * day_ms))
  unfolding apply save
  apply-ban action days r u w {p} here e kind = elim (Bool-cases (reduces u action days w.now)) [
    | inl low ↦ absurd (ground (arith, low, e))
    | inr high ↦
        let v = penalised action r (w.now + days * day_ms) u in
        let bans : penalty_type action ≡ PenaltyType.ban = ground (arith, high, e, kind) in
        let until : p.ban_until ≡ v.ban_until = ground (arith, high, e) in
        let (x, hit) =
          update_of_mem m (λ d. d.id == u.id) (λ d. v) w.users u here ((==_iff u.id u.id).1 refl) in
        let (d, _, made, _, stored) = update_hit m (λ d. d.id == u.id) (λ d. v) w.users hit in
        let (same, _, _) = penalised-fields action r (w.now + days * day_ms) u in
        let one = ban-version action r (w.now + days * day_ms) u bans in
        let date = ban-date action r (w.now + days * day_ms) u bans in
        rw (high, apply) (v, rw made at stored, same, one, date, until ∙ date)
  ]

  apply_chosen-ban :
      (c : Option (PenaltyAction × ℕ)) (r : Resets) (u : User) (w : World) {p : Penalty}
      → Memᴰ u w.users
      → (apply_chosen m c r u w).0 ≡ ok p
      → p.kind ≡ some PenaltyType.ban
      → (taken : PenaltyAction) × (length : ℕ) × (v : User) × (c ≡ some (taken, length))
        × Memᴰ v (apply_chosen m c r u w).1.users
        × (v.id ≡ u.id)
        × (v.token_version ≡ suc u.token_version)
        × (v.ban_until ≡ some (w.now + length * day_ms))
        × (p.ban_until ≡ some (w.now + length * day_ms))
  apply_chosen-ban none r u w here e kind = absurd (ground (arith, e, kind))
  apply_chosen-ban (some (action, days)) r u w here e kind =
      let (v, stored, same, one, until, told) = apply-ban action days r u w here e kind in
      (action, days, v, refl, stored, same, one, until, told)

  -- A call that reports a ban has stored it: with the length in days that was chosen, by the
  -- administrator or by the rule for the strikes, the date of the ban is that many days from now, both
  -- in the answer and in the target's document; and the document has a token version one above that
  -- of the document that was found.
  pub calculate_and_apply-bans :
      (committed : List Report) (target : String) (reason : ReportReason) (admin_id : String)
      (by : UserRole) (action : Option PenaltyAction) (days : Option ℕ) (r : Resets) (w : World)
      {p : Penalty}
      → (calculate_and_apply m committed target reason admin_id by action days r w).0 ≡ ok p
      → p.kind ≡ some PenaltyType.ban
      → (u : User) × Memᴰ u w.users
        × (m.parse_object_id target ≡ some u.id)
        × (taken : PenaltyAction) × (length : ℕ) × (v : User) × (chosen action days reason
              (suc (strikes m committed u.id reason))
            ≡ some (taken, length))
        × Memᴰ v (calculate_and_apply m committed target reason admin_id by action days r w).1.users
        × (v.id ≡ u.id)
        × (v.token_version ≡ suc u.token_version)
        × (v.ban_until ≡ some (w.now + length * day_ms))
        × (p.ban_until ≡ some (w.now + length * day_ms))
  unfolding calculate_and_apply
  calculate_and_apply-bans committed target reason admin_id by action days r w {p} done kind =
      let kept = find_target_keeps target admin_id by w in
      elim (Result-cases (find_target m target admin_id by w).0) [
        | inl (x, e) ↦ absurd (ground (arith, e, done))
        | inr (u, e) ↦
            let went =
              bind_ok (find_target m target admin_id by) (penalise m committed reason action days r)
                e in
            let (here, _, _, pi) = find_target_lem target admin_id by w e in
            let c = chosen action days reason (suc (strikes m committed u.id reason)) in
            let (taken, length, v, choice, stored, same, one, until, told) =
              apply_chosen-ban c r u w here (rw kept at (rw went at done)) kind in
            (u, here, pi, taken, length, v, choice, rw (went, kept) stored, same, one, until, told)
      ]
