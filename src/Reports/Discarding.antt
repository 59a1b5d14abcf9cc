-- ===== src/Reports/Discarding.antt =====
-- `quickPenalty` and `manualBan` make a report of their own; where the penalty is refused, they
-- leave no report behind.
use learn_nest_js.Shared.{
  ℕ, suc, ◌≡◌, ◌≤◌, ◌+◌, ◌==◌, ==_iff, refl, sym, arith, ap, ◌∙◌, String, Bool, true, false, Option,
  some, inl, inr, Memᴰ, All-mem, count, Option-cases, if◌then◌else◌,
}
use learn_nest_js.Shared.Errors.{Exception}
use learn_nest_js.Shared.Action.{
  ok, err, ◌>>=◌, ◌>>◌, raise, try_catch, Result-cases, bind_ok, bind_err,
}
use learn_nest_js.Shared.Platform.{Platform}
use learn_nest_js.Shared.Documents.{delete_hit, found, found_of_mem, insert-mem}
use learn_nest_js.Shared.Counting.{count-insert, count-delete_hit, the_only}
use learn_nest_js.Schemas.{User, UserRole, Report, ReportReason, other}
use learn_nest_js.World.{World, Action}
use learn_nest_js.Users
use learn_nest_js.Reports.Penalty.{Resets}
use learn_nest_js.Reports.Resolve.{Passwords, ResolveDto, resolve_internal, verify_admin_password}
use learn_nest_js.Reports.Admin.{
  is_open, new_report, quick_dto, ban_dto, discard, save_new_report, resolve_or_discard,
  check_action, penalise_now, quick_penalty, manual_ban,
}
use learn_nest_js.Reports.Resolution.{resolve_report-undone}

module _ (m : Platform) where
  resolve_internal-undone :
      (id : String) (dto : ResolveDto) (admin_id : String) (by : UserRole) (w : World)
      {x : Exception}
      → (resolve_internal m id dto admin_id by w).0 ≡ err x
      → (resolve_internal m id dto admin_id by w).1 ≡ w
  unfolding resolve_internal
  resolve_internal-undone id dto admin_id by w failed = elim (Option-cases (m.parse_object_id id)) [
    | inl e ↦ rw e refl
    | inr (i, e) ↦ elim (Option-cases (m.find_one (λ r. r.id == i) w.reports)) [
      | inl d ↦ rw (e, d) refl
      | inr (r, d) ↦
          rw (e, d) (resolve_report-undone m r dto admin_id by false w (rw (e, d) at failed))
    ]
  ]

  -- The only report with its id is found, and deleted while it is open.
  discard_lem :
      (r : Report) (w : World) (q : Report → Bool)
      → Memᴰ r w.reports
      → count (λ s. s.id == r.id) w.reports ≤ 1
      → is_open r.status ≡ true
      → ((discard m r.id w).0 ≡ ok tt)
        × (count q w.reports ≡ (if q r then 1 else 0) + count q (discard m r.id w).1.reports)
  unfolding discard
  discard_lem r w q here unique pending =
      let mine = (==_iff r.id r.id).1 refl in
      let p = λ (s : Report). s.id == r.id in
      let (s, hit, same) = found_of_mem m p w.reports r here mine in
      let it : r ≡ s = the_only p w.reports unique here (found m p w.reports hit).1 mine same in
      let read : m.find_one p w.reports ≡ some r = hit ∙ ap some (sym it) in
      elim (Option-cases (m.find_one_and_delete p w.reports).0) [
        | inl e ↦
            let missed = rw e at (m.find_one_and_delete_lem p w.reports) in
            absurd (clash mine (All-mem (λ s. p s ≡ false) w.reports here missed.0))
        | inr (d, e) ↦
            let (match, there) = delete_hit m p w.reports e in
            let one : r ≡ d = the_only p w.reports unique here there mine match in
            let counted = count-delete_hit m q p w.reports e in
            rw (read, pending) (refl, rw (sym one) at counted)
      ]
    where
      clash : {b : Bool} → b ≡ true → b ≡ false → ⊥
      clash e k = cc

  resolve_or_discard_lem :
      (r : Report) (dto : ResolveDto) (admin_id : String) (by : UserRole) (w : World)
      (q : Report → Bool) {x : Exception}
      → Memᴰ r w.reports
      → count (λ s. s.id == r.id) w.reports ≤ 1
      → is_open r.status ≡ true
      → (resolve_or_discard m r dto admin_id by w).0 ≡ err x
      → count q w.reports
        ≡ (if q r then 1 else 0) + count q (resolve_or_discard m r dto admin_id by w).1.reports
  resolve_or_discard_lem r dto admin_id by w q {x} here unique pending failed =
      let body = resolve_internal m (m.object_id_text r.id) dto admin_id by in
      let undo : Exception → Action Report = λ e. discard m r.id >> raise e in
      elim (Result-cases (body w).0) [
        | inl (y, e) ↦
            let undone = resolve_internal-undone (m.object_id_text r.id) dto admin_id by w e in
            let (quiet, counted) = discard_lem r w q here unique pending in
            let went : try_catch body undo w ≡ undo y w = rw (e, try_catch) (rw undone refl) in
            rw went (rw (bind_ok (discard m r.id) (λ u. raise y) quiet) counted)
        | inr (a, e) ↦ absurd (clash (rw (e, try_catch) at failed))
      ]
    where
      clash : {A : Type 0} {a : A} {y : Exception} → ok a ≡ err y → ⊥
      clash k = cc

  penalise_now_lem :
      (admin_id : String) (by : UserRole) (reason : ReportReason) (dto : ResolveDto) (admin : ℕ)
      (target : User) (w : World) (q : Report → Bool) {x : Exception}
      → count (λ r. r.id == m.new_object_id w.created) w.reports ≡ 0
      → (penalise_now m admin_id by reason dto (admin, target) w).0 ≡ err x
      → count q (penalise_now m admin_id by reason dto (admin, target) w).1.reports
        ≡ count q w.reports
  unfolding penalise_now save_new_report
  penalise_now_lem admin_id by reason dto admin target w q fresh failed =
      let r = new_report admin target reason (m.new_object_id w.created) w.now in
      let v = record w { reports = m.insert r w.reports; created = suc w.created } in
      let p = λ (s : Report). s.id == r.id in
      let one : count p v.reports ≤ 1 = rw (count-insert m p r w.reports) (ground (arith, fresh)) in
      let counted =
        resolve_or_discard_lem r dto admin_id by v q (insert-mem m r w.reports) one refl failed in
      let added = count-insert m q r w.reports in omega (arith, counted, added)

  module _ (passwords : Passwords) where
    check_action_keeps :
        (target_id admin_id : String) (by : UserRole) (raw : String) (w : World)
        → (check_action m passwords target_id admin_id by raw w).1 ≡ w
    unfolding check_action verify_admin_password Users.find_one
    check_action_keeps target_id admin_id by raw w = ground arith

    act_lem :
        (target_id admin_id : String) (by : UserRole) (raw : String) (reason : ReportReason)
        (dto : ResolveDto) (w : World) (q : Report → Bool) {x : Exception}
        → count (λ r. r.id == m.new_object_id w.created) w.reports ≡ 0
        → ((check_action m passwords target_id admin_id by raw
              >>= penalise_now m admin_id by reason dto)
            w).0
          ≡ err x
        → count q
            ((check_action m passwords target_id admin_id by raw
                >>= penalise_now m admin_id by reason dto)
              w).1.reports
          ≡ count q w.reports
    act_lem target_id admin_id by raw reason dto w q fresh failed =
        let check = check_action m passwords target_id admin_id by raw in
        let act = penalise_now m admin_id by reason dto in
        let kept = check_action_keeps target_id admin_id by raw w in
        elim (Result-cases (check w).0) [
          | inl (y, e) ↦ rw (bind_err check act e) (rw kept refl)
          | inr ((admin, target), e) ↦
              let went = rw (bind_ok check act e) at failed in
              rw (bind_ok check act e) (
                rw kept (
                  penalise_now_lem admin_id by reason dto admin target w q fresh (rw kept at went)))
        ]

    -- Where the id of the next document is new to the reports: a quick penalty that throws, at
    -- whatever point, leaves as many reports of every sort as there were, so that the report that it
    -- has made for itself is gone and no other is.
    pub quick_penalty-leaves :
        (target_id admin_id : String) (by : UserRole) (raw : String) (reason : ReportReason)
        (resets : Resets) (w : World) (q : Report → Bool) {x : Exception}
        → count (λ r. r.id == m.new_object_id w.created) w.reports ≡ 0
        → (quick_penalty m passwords target_id admin_id by raw reason resets w).0 ≡ err x
        → count q (quick_penalty m passwords target_id admin_id by raw reason resets w).1.reports
          ≡ count q w.reports
    unfolding quick_penalty
    quick_penalty-leaves target_id admin_id by raw reason resets w q fresh failed =
        act_lem target_id admin_id by raw reason (quick_dto resets) w q fresh failed

    -- Where the id of the next document is new to the reports: a manual ban that throws, at whatever
    -- point, leaves as many reports of every sort as there were.
    pub manual_ban-leaves :
        (target_id admin_id : String) (by : UserRole) (raw : String) (days : Option ℕ)
        (resets : Resets) (w : World) (q : Report → Bool) {x : Exception}
        → count (λ r. r.id == m.new_object_id w.created) w.reports ≡ 0
        → (manual_ban m passwords target_id admin_id by raw days resets w).0 ≡ err x
        → count q (manual_ban m passwords target_id admin_id by raw days resets w).1.reports
          ≡ count q w.reports
    unfolding manual_ban
    manual_ban-leaves target_id admin_id by raw days resets w q fresh failed =
        act_lem target_id admin_id by raw other (ban_dto days resets) w q fresh failed
