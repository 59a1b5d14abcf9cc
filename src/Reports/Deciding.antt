-- ===== src/Reports/Deciding.antt =====
-- A decision on a report, with all that is written with it, follows the machine.
use learn_nest_js.Shared.{
  List, ℕ, ◌≡◌, ◌==◌, ==_iff, refl, arith, ap, String, Bool, true, false, Option, none, some, inl,
  inr, Memᴰ, Option-cases, ◌&&◌, ◌+◌,
}
use learn_nest_js.Shared.Errors.{driver_error}
use learn_nest_js.Shared.Action.{ok, or_raise, ◌>>=◌, ◌>>◌, pure}
use learn_nest_js.Shared.Platform.{Platform}
use learn_nest_js.Shared.Documents.{Each-refl, update_hit}
use learn_nest_js.Shared.Counting.{the_only}
use learn_nest_js.Schemas.{User, UserRole, Report, ReportStatus, PenaltyType}
use learn_nest_js.World.{World, Action}
use learn_nest_js.Users
use learn_nest_js.Reports.Penalty.{Penalty, calculate_and_apply, save}
use learn_nest_js.Reports.Resolve.{
  ResolveDto, decided, update_report, update_reports, write_decision, is_merged, same_status,
  write_penalty, punish, acquit, lift_penalty, settle_as, no_penalty, write_and_settle, decide,
  appeal_window_ms,
}
use learn_nest_js.Reports.Lifecycle.{
  Steps, is_dismissed, one, stays, Later, Later-refl, decided-Later, same_status-eq, Unique,
  Unique-kept,
}
use learn_nest_js.Reports.Following.{
  Follows, kept-Follows, or_raise_then-Follows, bind-Follows, update_report-Follows,
  update_reports-Follows, write_decision-Follows, calculate_and_apply_keeps,
}

module _ (m : Platform) where
  merge-Follows :
      (report : Report) (admin now : ℕ) (w : World)
      → Follows (update_reports m (is_merged report) (decided ReportStatus.dismissed admin now)) w
  merge-Follows report admin now w =
      update_reports-Follows m (is_merged report) (decided ReportStatus.dismissed admin now) w
        (λ r e.
          let same = same_status-eq r.status ReportStatus.pending (ground arith) in
          decided-Later ReportStatus.dismissed admin now r (rw same (one is_dismissed)))

  dated-Follows :
      (final : Report) (penalty : Option PenaltyType) (date : Option ℕ) (w : World)
      → Follows
          (update_report m
            (λ r. r.id == final.id)
            (λ r. record r { penalty_type = penalty; appeal_deadline = date }))
          w
  dated-Follows final penalty date w =
      update_report-Follows m (λ r. r.id == final.id)
        (λ r. record r { penalty_type = penalty; appeal_deadline = date }) w
        (λ r here e. record {
          same_id = refl;
          same_reporter = refl;
          same_target = refl;
          same_grounds = refl;
          steps = stays;
        })

  write_penalty-Follows :
      (report : Report) (admin_id : String) (final : Report) (penalty : Penalty) (w : World)
      → Follows (write_penalty m report admin_id final penalty) w
  unfolding write_penalty update_reports
  write_penalty-Follows report admin_id final penalty w =
      let f = λ (r : Report). record r {
        penalty_type = penalty.kind;
        appeal_deadline = some (w.now + appeal_window_ms);
      } in
      let q = λ (r : Report). r.id == final.id in
      let v = (update_report m q f w).1 in
      let merge : ℕ → Action (Report × Penalty) = λ admin.
        update_reports m (is_merged report) (decided ReportStatus.dismissed admin w.now)
        >> pure (f final, penalty) in
      bind-Follows (update_report m q f)
        (λ o. or_raise (m.parse_object_id admin_id) (driver_error 0) >>= merge) w
        (dated-Follows final penalty.kind (some (w.now + appeal_window_ms)) w)
        (λ o e.
          or_raise_then-Follows (m.parse_object_id admin_id) (driver_error 0) merge v
            (λ admin e. merge-Follows report admin w.now v))

  punish-Follows :
      (committed : List Report) (report : Report) (dto : ResolveDto) (admin_id : String)
      (by : UserRole) (final : Report) (w : World)
      → Follows (punish m committed report dto admin_id by final) w
  unfolding punish
  punish-Follows committed report dto admin_id by final w =
      let applied =
        calculate_and_apply m committed (m.object_id_text report.target_user_id) report.reason
          admin_id by dto.override_penalty_action dto.override_penalty_duration_days dto.resets in
      let kept =
        calculate_and_apply_keeps m committed (m.object_id_text report.target_user_id) report.reason
          admin_id by dto.override_penalty_action dto.override_penalty_duration_days dto.resets w in
      bind-Follows applied (write_penalty m report admin_id final) w (kept-Follows applied w kept)
        (λ penalty e. write_penalty-Follows report admin_id final penalty (applied w).1)

  lift_penalty_keeps :
      (target : Option User) (kind : Option PenaltyType) (w : World)
      → (lift_penalty m target kind w).1.reports ≡ w.reports
  unfolding save
  lift_penalty_keeps (some u) (some PenaltyType.ban) w = refl
  lift_penalty_keeps (some u) (some PenaltyType.mute) w = refl
  lift_penalty_keeps (some u) (some PenaltyType.warning) w = refl
  lift_penalty_keeps (some u) none w = refl
  lift_penalty_keeps none kind w = refl

  -- Where each report with the id of `final` has been acquitted.
  abbrev IsAcquitted : Report → World → Type 0
  IsAcquitted final w =
      (r : Report)
      → Memᴰ r w.reports
      → (r.id == final.id) ≡ true
      → r.status ≡ ReportStatus.appeal_success

  acquitted-Follows :
      (final : Report) (w : World)
      → IsAcquitted final w
      → Follows
          (update_report m
            (λ r. r.id == final.id)
            (λ r. record r { status = ReportStatus.appeal_success }))
          w
  acquitted-Follows final w h =
      update_report-Follows m (λ r. r.id == final.id)
        (λ r. record r { status = ReportStatus.appeal_success }) w
        (λ r here e. record {
          same_id = refl;
          same_reporter = refl;
          same_target = refl;
          same_grounds = refl;
          steps = rw (h r here e) stays;
        })

  find_one_keeps : (id : String) (w : World) → (Users.find_one m id w).1 ≡ w
  unfolding Users.find_one
  find_one_keeps id w = ground arith

  abbrev pardon : Report → Option User → Action (Unit {0})
  pardon final target = do
    lift_penalty m target final.penalty_type
    update_report m (λ r. r.id == final.id) (λ r. record r { status = ReportStatus.appeal_success })
    pure tt

  pardon-Follows :
      (final : Report) (target : Option User) (w : World)
      → IsAcquitted final w
      → Follows (pardon final target) w
  unfolding update_report
  pardon-Follows final target w h =
      let kept = lift_penalty_keeps target final.penalty_type w in
      let v = (lift_penalty m target final.penalty_type w).1 in
      let done = acquitted-Follows final v (λ r here e. h r (rw kept at here) e) in
      let save_status : Unit {0} → Action (Unit {0}) = λ _.
        update_report m (λ r. r.id == final.id)
          (λ r. record r { status = ReportStatus.appeal_success })
        >> pure tt in
      bind-Follows (lift_penalty m target final.penalty_type) save_status w
        (kept-Follows (lift_penalty m target final.penalty_type) w kept) (λ t e. done)

  acquit-Follows :
      (report final : Report) (w : World) → IsAcquitted final w → Follows (acquit m report final) w
  unfolding acquit
  acquit-Follows report final w h =
      let kept = find_one_keeps (m.object_id_text report.target_user_id) w in
      bind-Follows (Users.find_one m (m.object_id_text report.target_user_id)) (pardon final) w
        (kept-Follows (Users.find_one m (m.object_id_text report.target_user_id)) w
          (ap (λ v. v.reports) kept))
        (λ target e. rw kept (pardon-Follows final target w h))

  abbrev is_as_read : Report → Report → Bool
  is_as_read report r = r.id == report.id && same_status r.status report.status

  write_decision_writes :
      (report : Report) (status : ReportStatus) (admin : ℕ) (w : World)
      → (write_decision m false report status admin w).1.reports
        ≡ (m.find_one_and_update (is_as_read report) (decided status admin w.now) w.reports).1
  unfolding write_decision update_report
  write_decision_writes report status admin w =
      elim (Option-cases
        (m.find_one_and_update (is_as_read report) (decided status admin w.now) w.reports).0) [
          | inl e ↦ rw e refl
          | inr (x, e) ↦ rw e refl
        ]

  write_decision_hit :
      (report : Report) (status : ReportStatus) (admin : ℕ) (w : World) {final : Report}
      → (write_decision m false report status admin w).0 ≡ ok final
      → (m.find_one_and_update (is_as_read report) (decided status admin w.now) w.reports).0
        ≡ some final
  unfolding write_decision update_report
  write_decision_hit report status admin w done =
      elim (Option-cases
        (m.find_one_and_update (is_as_read report) (decided status admin w.now) w.reports).0) [
          | inl e ↦ absurd (ground (arith, e, done))
          | inr (x, e) ↦ ground (arith, e, done)
        ]

  -- The report that a decision has written has the status of the decision.
  pub write_decision_status :
      (report : Report) (status : ReportStatus) (admin : ℕ) (w : World) {final : Report}
      → Unique w.reports
      → Steps report.status status
      → (write_decision m false report status admin w).0 ≡ ok final
      → (r : Report) → Memᴰ r (write_decision m false report status admin w).1.reports
      → (r.id == final.id) ≡ true
      → r.status ≡ status
  write_decision_status report status admin w {final} unique step done r here same =
      let f = decided status admin w.now in
      let after = (m.find_one_and_update (is_as_read report) f w.reports).1 in
      let writes = write_decision_writes report status admin w in
      let (d, _, made, _, stored) =
        update_hit m (is_as_read report) f w.reports
          (write_decision_hit report status admin w done) in
      let still : Unique after =
        Unique-kept w.reports after
          (rw writes at (write_decision-Follows m report status admin w step)) unique in
      let it : r ≡ final =
        the_only (λ z. z.id == final.id) after (still final.id) (rw writes at here) stored same
          ((==_iff final.id final.id).1 refl) in
      rw (it, made) refl

  settle-Follows :
      (committed : List Report) (status : ReportStatus) (report : Report) (dto : ResolveDto)
      (admin_id : String) (by : UserRole) (final : Report) (w : World)
      → (status ≡ ReportStatus.appeal_success → IsAcquitted final w)
      → Follows (settle_as m committed status report dto admin_id by final) w
  settle-Follows committed ReportStatus.resolved report dto admin_id by final w h =
      punish-Follows committed report dto admin_id by final w
  settle-Follows committed ReportStatus.appeal_success report dto admin_id by final w h =
      bind-Follows (acquit m report final) (λ u. pure (final, no_penalty)) w
        (acquit-Follows report final w (h refl))
        (λ u e. Each-refl Later Later-refl (acquit m report final w).1.reports)
  settle-Follows committed ReportStatus.pending report dto admin_id by final w h =
      Each-refl Later Later-refl w.reports
  settle-Follows committed ReportStatus.resolving report dto admin_id by final w h =
      Each-refl Later Later-refl w.reports
  settle-Follows committed ReportStatus.dismissed report dto admin_id by final w h =
      Each-refl Later Later-refl w.reports
  settle-Follows committed ReportStatus.appeal_pending report dto admin_id by final w h =
      Each-refl Later Later-refl w.reports
  settle-Follows committed ReportStatus.appeal_rejected report dto admin_id by final w h =
      Each-refl Later Later-refl w.reports

  pub decide-Follows :
      (report : Report) (dto : ResolveDto) (admin_id : String) (by : UserRole) (w : World)
      → Unique w.reports
      → Steps report.status dto.status
      → Follows (decide m false report dto admin_id by) w
  unfolding decide
  decide-Follows report dto admin_id by w unique step =
      or_raise_then-Follows (m.parse_object_id admin_id) (driver_error 0)
        (write_and_settle m w.reports false report dto admin_id by) w
        (λ admin e.
          bind-Follows (write_decision m false report dto.status admin)
            (settle_as m w.reports dto.status report dto admin_id by) w
            (write_decision-Follows m report dto.status admin w step)
            (λ final done.
              settle-Follows w.reports dto.status report dto admin_id by final
                (write_decision m false report dto.status admin w).1
                (λ e r here same.
                  let is =
                    write_decision_status report dto.status admin w unique step done r here same in
                  cc (is, e))))
