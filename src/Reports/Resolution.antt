-- ===== src/Reports/Resolution.antt =====
-- `resolve` and what it calls: it follows the machine, and where it throws it has written nothing.
use learn_nest_js.Shared.{
  ◌≡◌, refl, arith, String, Bool, false, Option, none, some, inl, inr, Option-cases, ◌==◌,
}
use learn_nest_js.Shared.Errors.{Exception, ReportMessage}
use learn_nest_js.Shared.Action.{
  Result, ok, err, transaction_undone, ◌>>=◌, ◌>>◌, or_raise, with_transaction, Result-cases,
  bind_ok, bind_err,
}
use learn_nest_js.Shared.Platform.{Platform}
use learn_nest_js.Shared.Documents.{Each-refl}
use learn_nest_js.Schemas.{UserRole, Report}
use learn_nest_js.World.{World, Action}
use learn_nest_js.Users
use learn_nest_js.Reports.Penalty.{Penalty, refuse}
use learn_nest_js.Reports.Resolve.{
  Passwords, ResolveDto, check_statuses, refuse_if_some, decide, announce, resolve_report,
  resolve_internal, resolve, given, verify_admin_password,
}
use learn_nest_js.Reports.Lifecycle.{Later, Later-refl, Unique, one, check_statuses-Step}
use learn_nest_js.Reports.Following.{
  Follows, kept-Follows, bind-Follows, check-Follows, transaction-Follows,
}
use learn_nest_js.Reports.Deciding.{decide-Follows}
use learn_nest_js.Reports.Announcing.{announce-IsQuiet}

module _ (m : Platform) where
  abbrev pub transact : Report → ResolveDto → String → UserRole → Bool → Action (Report × Penalty)
  transact report dto admin_id by is_new =
      refuse_if_some (check_statuses report.status dto.status)
      >> with_transaction (decide m is_new report dto admin_id by)

  transact-Follows :
      (report : Report) (dto : ResolveDto) (admin_id : String) (by : UserRole) (w : World)
      → Unique w.reports
      → Follows (transact report dto admin_id by false) w
  transact-Follows report dto admin_id by w unique =
      elim (Option-cases (check_statuses report.status dto.status)) [
        | inl e ↦
            let step = one (check_statuses-Step report.status dto.status e) in
            rw e (
              transaction-Follows (decide m false report dto admin_id by) w
                (decide-Follows m report dto admin_id by w unique step))
        | inr (message, e) ↦ rw e (Each-refl Later Later-refl w.reports)
      ]

  resolve_report-Follows :
      (report : Report) (dto : ResolveDto) (admin_id : String) (by : UserRole) (w : World)
      → Unique w.reports
      → Follows (resolve_report m report dto admin_id by false) w
  unfolding resolve_report
  resolve_report-Follows report dto admin_id by w unique =
      bind-Follows (transact report dto admin_id by false) (announce m report dto.status) w
        (transact-Follows report dto admin_id by w unique)
        (λ (final, penalty) e.
          kept-Follows (announce m report dto.status (final, penalty))
            (transact report dto admin_id by false w).1
            (announce-IsQuiet m report dto.status final penalty
              (transact report dto admin_id by false w).1).1)

  transact-undone :
      (report : Report) (dto : ResolveDto) (admin_id : String) (by : UserRole) (is_new : Bool)
      (w : World) {x : Exception}
      → (transact report dto admin_id by is_new w).0 ≡ err x
      → (transact report dto admin_id by is_new w).1 ≡ w
  transact-undone report dto admin_id by is_new w failed =
      elim (Option-cases (check_statuses report.status dto.status)) [
        | inl e ↦
            rw e (transaction_undone (decide m is_new report dto admin_id by) (rw e at failed))
        | inr (message, e) ↦ rw e refl
      ]

  -- A decision that throws, wherever it throws, has changed nothing: neither the report, nor the
  -- user, nor the other reports, sessions and events. It holds for a new report as well.
  pub resolve_report-undone :
      (report : Report) (dto : ResolveDto) (admin_id : String) (by : UserRole) (is_new : Bool)
      (w : World) {x : Exception}
      → (resolve_report m report dto admin_id by is_new w).0 ≡ err x
      → (resolve_report m report dto admin_id by is_new w).1 ≡ w
  unfolding resolve_report
  resolve_report-undone report dto admin_id by is_new w {x} failed =
      let n = transact report dto admin_id by is_new in
      elim (Result-cases (n w).0) [
        | inl (y, e) ↦
            rw (bind_err n (announce m report dto.status) e)
              (transact-undone report dto admin_id by is_new w e)
        | inr ((final, penalty), e) ↦
            let quiet = (announce-IsQuiet m report dto.status final penalty (n w).1).0 in
            let went = bind_ok n (announce m report dto.status) e in
            absurd (clash quiet (rw went at failed))
      ]
    where
      clash : {r : Result Report} {a : Report} {y : Exception} → r ≡ ok a → r ≡ err y → ⊥
      clash e k = ground (arith, e, k)

  abbrev find_and_resolve : ResolveDto → String → UserRole → Option Report → Action Report
  find_and_resolve dto admin_id by found =
      or_raise found (refuse ReportMessage.report_not_found) >>= λ report.
      resolve_report m report dto admin_id by false

  found-Follows :
      (dto : ResolveDto) (admin_id : String) (by : UserRole) (found : Option Report) (w : World)
      → Unique w.reports
      → Follows (find_and_resolve dto admin_id by found) w
  found-Follows dto admin_id by none w unique = Each-refl Later Later-refl w.reports
  found-Follows dto admin_id by (some report) w unique =
      resolve_report-Follows report dto admin_id by w unique

  pub resolve_internal-Follows :
      (id : String) (dto : ResolveDto) (admin_id : String) (by : UserRole) (w : World)
      → Unique w.reports
      → Follows (resolve_internal m id dto admin_id by) w
  unfolding resolve_internal
  resolve_internal-Follows id dto admin_id by w unique =
      elim (Option-cases (m.parse_object_id id)) [
        | inl e ↦ rw e (Each-refl Later Later-refl w.reports)
        | inr (i, e) ↦
            rw e (found-Follows dto admin_id by (m.find_one (λ r. r.id == i) w.reports) w unique)
      ]

  module _ (passwords : Passwords) where
    pub verify_admin_password_keeps :
        (admin_id : String) (by : UserRole) (raw : String) (w : World)
        → (verify_admin_password m passwords admin_id by raw w).1 ≡ w
    unfolding verify_admin_password Users.find_one
    verify_admin_password_keeps admin_id by raw w = ground arith

    given_keeps : (o : Option String) (w : World) → (given m o w).1 ≡ w
    given_keeps o w = ground arith

    pub resolve-Follows :
        (id : String) (dto : ResolveDto) (admin_id : String) (by : UserRole) (w : World)
        → Unique w.reports
        → Follows (resolve m passwords id dto admin_id by) w
    unfolding resolve
    resolve-Follows id dto admin_id by w unique =
        check-Follows (given m dto.password)
          (λ raw.
            verify_admin_password m passwords admin_id by raw
            >> resolve_internal m id dto admin_id by)
          w (given_keeps dto.password w)
          (λ raw e.
            check-Follows (verify_admin_password m passwords admin_id by raw)
              (λ u. resolve_internal m id dto admin_id by) w
              (verify_admin_password_keeps admin_id by raw w)
              (λ u e. resolve_internal-Follows id dto admin_id by w unique))
