-- ===== src/Reports/Merging.antt =====
-- What a decision leaves of the other reports on the same grounds.
use learn_nest_js.Shared.{
  ℕ, ◌≡◌, arith, ap, ◌∙◌, String, Bool, false, List, [], ◌∷◌, inl, inr, All, update_all,
  Option-cases, Bool-cases,
}
use learn_nest_js.Shared.Errors.{driver_error}
use learn_nest_js.Shared.Action.{ok, or_raise, bind_inv, transaction_done}
use learn_nest_js.Shared.Platform.{Platform}
use learn_nest_js.Schemas.{UserRole, Report, ReportStatus}
use learn_nest_js.World.{World}
use learn_nest_js.Reports.Penalty.{Penalty, calculate_and_apply}
use learn_nest_js.Reports.Resolve.{
  ResolveDto, decided, update_report, update_reports, write_decision, is_merged, write_penalty,
  punish, settle_as, write_and_settle, decide, announce, resolve_report, check_statuses,
}
use learn_nest_js.Reports.Announcing.{announce-IsQuiet}
use learn_nest_js.Reports.Resolution.{transact}

settled :
    (report : Report) (admin now : ℕ) (docs : List Report)
    → All
        (λ r. is_merged report r ≡ false)
        (update_all (is_merged report) (decided ReportStatus.dismissed admin now) docs)
settled report admin now [] = tt
settled report admin now (d ∷ ds) = elim (Bool-cases (is_merged report d)) [
  | inl e ↦ rw e (ground arith, settled report admin now ds)
  | inr e ↦ rw e (e, settled report admin now ds)
]

module _ (m : Platform) where
  -- That no report but `report` is pending, on the same user for the same reason.
  abbrev pub IsSettled : Report → World → Type 0
  IsSettled report w = All (λ r. is_merged report r ≡ false) w.reports

  write_penalty-IsSettled :
      (report : Report) (admin_id : String) (final : Report) (penalty : Penalty) (w : World)
      {x : Report × Penalty}
      → (write_penalty m report admin_id final penalty w).0 ≡ ok x
      → IsSettled report (write_penalty m report admin_id final penalty w).1
  unfolding write_penalty update_report update_reports
  write_penalty-IsSettled report admin_id final penalty w done =
      elim (Option-cases (m.parse_object_id admin_id)) [
        | inl e ↦ absurd (ground (arith, e, done))
        | inr (admin, e) ↦ rw (e, m.update_many_lem) (settled report admin w.now _)
      ]

  punish-IsSettled :
      (committed : List Report) (report : Report) (dto : ResolveDto) (admin_id : String)
      (by : UserRole) (final : Report) (w : World) {x : Report × Penalty}
      → (punish m committed report dto admin_id by final w).0 ≡ ok x
      → IsSettled report (punish m committed report dto admin_id by final w).1
  unfolding punish
  punish-IsSettled committed report dto admin_id by final w done =
      let applied =
        calculate_and_apply m committed (m.object_id_text report.target_user_id) report.reason
          admin_id by dto.override_penalty_action dto.override_penalty_duration_days dto.resets in
      let (penalty, e, went) = bind_inv applied (write_penalty m report admin_id final) done in
      rw went
        (write_penalty-IsSettled report admin_id final penalty (applied w).1 (rw went at done))

  decide-IsSettled :
      (is_new : Bool) (report : Report) (dto : ResolveDto) (admin_id : String) (by : UserRole)
      (w : World) {x : Report × Penalty}
      → dto.status ≡ ReportStatus.resolved
      → (decide m is_new report dto admin_id by w).0 ≡ ok x
      → IsSettled report (decide m is_new report dto admin_id by w).1
  unfolding decide
  decide-IsSettled is_new report dto admin_id by w resolved done =
      let begin = or_raise (m.parse_object_id admin_id) (driver_error 0) in
      let (admin, e, went) =
        bind_inv begin (write_and_settle m w.reports is_new report dto admin_id by) done in
      let write = write_decision m is_new report dto.status admin in
      let v = (begin w).1 in
      let (final, d, then_went) =
        bind_inv write (settle_as m w.reports dto.status report dto admin_id by)
          (rw went at done) in
      let last =
        ap (λ s. settle_as m w.reports s report dto admin_id by final (write v).1) resolved in
      let all = went ∙ then_went ∙ last in
      rw all (punish-IsSettled w.reports report dto admin_id by final (write v).1 (rw all at done))

  -- Where a report is resolved, whatever the penalty, and whether the report is new or stored, no
  -- report but it is left pending against the same user for the same reason.
  pub resolve_report-IsSettled :
      (report : Report) (dto : ResolveDto) (admin_id : String) (by : UserRole) (is_new : Bool)
      (w : World) {answer : Report}
      → dto.status ≡ ReportStatus.resolved
      → (resolve_report m report dto admin_id by is_new w).0 ≡ ok answer
      → IsSettled report (resolve_report m report dto admin_id by is_new w).1
  unfolding resolve_report
  resolve_report-IsSettled report dto admin_id by is_new w resolved done =
      let n = transact m report dto admin_id by is_new in
      let (x, e, went) = bind_inv n (announce m report dto.status) done in
      let quiet = (announce-IsQuiet m report dto.status x.0 x.1 (n w).1).1 in
      rw went (rw quiet (transact-IsSettled e))
    where
      transact-IsSettled :
          {x : Report × Penalty}
          → (transact m report dto admin_id by is_new w).0 ≡ ok x
          → IsSettled report (transact m report dto admin_id by is_new w).1
      transact-IsSettled k = elim (Option-cases (check_statuses report.status dto.status)) [
        | inl e ↦
            let body = decide m is_new report dto admin_id by in
            let k' = rw e at k in
            let same = transaction_done body k' in
            rw (e, same) (decide-IsSettled is_new report dto admin_id by w resolved (rw same at k'))
        | inr (message, e) ↦ absurd (ground (arith, e, k))
      ]
