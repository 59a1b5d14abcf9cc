-- ===== src/Reports/Resolve.antt =====
-- `resolve` and `resolveReport` of reports.service.ts, and `verifyAdminPassword` of
-- report-admin-action.service.ts. Notes and the audit log are left out. `Passwords` is bcrypt.
use learn_nest_js.Shared.{
  List, ℕ, ◌+◌, ◌*◌, String, Bool, true, false, ◌&&◌, ◌==◌, ◌≡◌, not, str_eq, Option, none, some,
  ◌∷◌, if◌then◌else◌,
}
use learn_nest_js.Shared.Errors.{forbidden, of_report, ReportMessage, driver_error}
use learn_nest_js.Shared.Action.{
  ok, or_raise, raise, raise_if, gets, pure, modify, with_transaction, ◌>>=◌, ◌>>◌,
}
use learn_nest_js.Shared.Platform.{Platform}
use learn_nest_js.Schemas.{User, UserRole, Report, ReportStatus, PenaltyAction, PenaltyType}
use learn_nest_js.World.{
  Action, Event, user_banned, user_muted, user_unmuted, report_notified, to_object_id, is_later,
}
use learn_nest_js.Users
use learn_nest_js.Sessions.Service.{revoke_all_with_cleanup}
use learn_nest_js.Reports.Penalty.{Resets, Penalty, refuse, same_reason, calculate_and_apply, save}

-- `bcrypt.compare` and `bcrypt.hash`: a password matches its own hash.
pub record Passwords : Type 0 where
  pub compare : (raw hash : String) → Bool
  pub hash : String → String
  pub compare-hash : (raw : String) → compare raw (hash raw) ≡ true

pub record ResolveDto : Type 0 where
  pub status : ReportStatus
  pub password : Option String
  pub override_penalty_action : Option PenaltyAction
  pub override_penalty_duration_days : Option ℕ
  pub resets : Resets

abbrev pub appeal_window_ms : ℕ
appeal_window_ms = 30 * 24 * 60 * 60 * 1000

abbrev pub same_status : ReportStatus → ReportStatus → Bool
same_status ReportStatus.pending ReportStatus.pending = true
same_status ReportStatus.resolving ReportStatus.resolving = true
same_status ReportStatus.resolved ReportStatus.resolved = true
same_status ReportStatus.dismissed ReportStatus.dismissed = true
same_status ReportStatus.appeal_pending ReportStatus.appeal_pending = true
same_status ReportStatus.appeal_rejected ReportStatus.appeal_rejected = true
same_status ReportStatus.appeal_success ReportStatus.appeal_success = true
same_status _ _ = false

abbrev pub same_role : UserRole → UserRole → Bool
same_role UserRole.user UserRole.user = true
same_role UserRole.admin UserRole.admin = true
same_role UserRole.super_admin UserRole.super_admin = true
same_role _ _ = false

-- The refusals by the status that a report has and the one that it is to have.
unfoldable pub check_statuses : ReportStatus → ReportStatus → Option ReportMessage
check_statuses ReportStatus.resolving new = some ReportMessage.report_is_being_processed
check_statuses ReportStatus.pending ReportStatus.resolved = none
check_statuses ReportStatus.pending ReportStatus.dismissed = none
check_statuses ReportStatus.pending new = some ReportMessage.report_invalid_status
check_statuses ReportStatus.appeal_pending ReportStatus.appeal_rejected = none
check_statuses ReportStatus.appeal_pending ReportStatus.appeal_success = none
check_statuses ReportStatus.appeal_pending new = some ReportMessage.report_invalid_status
check_statuses ReportStatus.resolved new = some ReportMessage.report_already_resolved
check_statuses ReportStatus.dismissed new = some ReportMessage.report_already_resolved
check_statuses ReportStatus.appeal_rejected new = some ReportMessage.report_already_resolved
check_statuses ReportStatus.appeal_success new = some ReportMessage.report_already_resolved

abbrev pub refuse_if_some : Option ReportMessage → Action (Unit {0})
refuse_if_some none = pure tt
refuse_if_some (some message) = raise (refuse message)

abbrev pub decided : ReportStatus → ℕ → ℕ → Report → Report
decided status admin now r = record r {
  status = status;
  resolved_by = some admin;
  resolved_at = some now;
}

-- The other pending reports on the same user for the same reason.
abbrev pub is_merged : Report → Report → Bool
is_merged report r =
    r.target_user_id == report.target_user_id
    && same_reason r.reason report.reason
    && same_status r.status ReportStatus.pending
    && not (r.id == report.id)

-- A date in the answer that is still to come.
abbrev pub emit_if_later : Option ℕ → (ℕ → Action (Unit {0})) → Action (Unit {0})
emit_if_later none act = pure tt
emit_if_later (some date) act = do
  now ← gets (λ w. w.now)
  if is_later (some date) now then act date else pure tt

abbrev pub emit : Event → Action (Unit {0})
emit event = modify (λ w. record w { events = event ∷ w.events })

abbrev pub no_penalty : Penalty
no_penalty = record { kind = none; ban_until = none; mute_until = none }

module _ (m : Platform) where
  -- `verifyAdminPassword`
  unfoldable pub verify_admin_password : Passwords → String → UserRole → String → Action User
  verify_admin_password passwords admin_id admin_role raw = do
    found ← Users.find_one m admin_id
    admin_user ← or_raise found (refuse ReportMessage.admin_not_found)
    raise_if (not (same_role admin_user.role admin_role))
        (forbidden (of_report ReportMessage.missing_permission))
    raise_if (not (passwords.compare raw admin_user.password))
        (refuse ReportMessage.invalid_password)
    pure admin_user

  -- `findOneAndUpdate`, `updateOne` and `updateMany` on reports.
  unfoldable pub update_report : (Report → Bool) → (Report → Report) → Action (Option Report)
  update_report q f w =
      let (r, docs) = m.find_one_and_update q f w.reports in (ok r, record w { reports = docs })

  unfoldable pub update_reports : (Report → Bool) → (Report → Report) → Action (Unit {0})
  update_reports q f = modify (λ w. record w { reports = m.update_many q f w.reports })

  unfoldable pub insert_report : Report → Action (Unit {0})
  insert_report r = modify (λ w. record w { reports = m.insert r w.reports })

  -- The document of the decision: a new one, or an update of the one that was read, as it was.
  unfoldable pub write_decision : Bool → Report → ReportStatus → ℕ → Action Report
  write_decision true report status admin = do
    now ← gets (λ w. w.now)
    insert_report (decided status admin now report)
    pure (decided status admin now report)
  write_decision false report status admin = do
    now ← gets (λ w. w.now)
    updated ←
        update_report (λ r. r.id == report.id && same_status r.status report.status)
          (decided status admin now)
    or_raise updated (refuse ReportMessage.report_already_resolved)

  -- What is written with a penalty: its date of appeal, and the reports that are settled with it.
  unfoldable pub write_penalty : Report → String → Report → Penalty → Action (Report × Penalty)
  write_penalty report admin_id final penalty = do
    now ← gets (λ w. w.now)
    update_report (λ r. r.id == final.id)
        (λ r. record r {
          penalty_type = penalty.kind;
          appeal_deadline = some (now + appeal_window_ms);
        })
    admin ← or_raise (m.parse_object_id admin_id) (driver_error 0)
    update_reports (is_merged report) (decided ReportStatus.dismissed admin now)
    pure (
      record final { penalty_type = penalty.kind; appeal_deadline = some (now + appeal_window_ms) },
      penalty,
    )

  -- The branch of `RESOLVED`, with the reports that are committed.
  unfoldable pub punish :
      List Report → Report → ResolveDto → String → UserRole → Report → Action (Report × Penalty)
  punish committed report dto admin_id admin_role final =
      calculate_and_apply m committed (m.object_id_text report.target_user_id) report.reason
        admin_id admin_role dto.override_penalty_action dto.override_penalty_duration_days
        dto.resets
      >>= write_penalty report admin_id final

  -- The user with the penalty of a kind taken back.
  abbrev pub lifted : PenaltyType → User → Option User
  lifted PenaltyType.ban u = some (record u { ban_until = none })
  lifted PenaltyType.mute u = some (record u { mute_until = none })
  lifted PenaltyType.warning u = none

  abbrev pub save_lifted : ℕ → Option User → Action (Unit {0})
  save_lifted i none = pure tt
  save_lifted i (some user) = save m i user

  abbrev pub lift_penalty : Option User → Option PenaltyType → Action (Unit {0})
  lift_penalty (some target) (some kind) = save_lifted target.id (lifted kind target)
  lift_penalty target kind = pure tt

  -- The branch of `APPEAL_SUCCESS`.
  unfoldable pub acquit : Report → Report → Action (Unit {0})
  acquit report final = do
    target ← Users.find_one m (m.object_id_text report.target_user_id)
    lift_penalty target final.penalty_type
    update_report (λ r. r.id == final.id) (λ r. record r { status = ReportStatus.appeal_success })
    pure tt

  abbrev pub settle_as :
      List Report
      → ReportStatus
      → Report
      → ResolveDto
      → String
      → UserRole
      → Report
      → Action (Report × Penalty)
  settle_as committed ReportStatus.resolved report dto admin_id admin_role final =
      punish committed report dto admin_id admin_role final
  settle_as committed ReportStatus.appeal_success report dto admin_id admin_role final =
      acquit report final >> pure (final, no_penalty)
  settle_as committed status report dto admin_id admin_role final = pure (final, no_penalty)

  abbrev pub write_and_settle :
      List Report → Bool → Report → ResolveDto → String → UserRole → ℕ → Action (Report × Penalty)
  write_and_settle committed is_new report dto admin_id admin_role admin =
      write_decision is_new report dto.status admin
      >>= settle_as committed dto.status report dto admin_id admin_role

  -- The body of the transaction, which begins with what is committed.
  unfoldable pub decide : Bool → Report → ResolveDto → String → UserRole → Action (Report × Penalty)
  decide is_new report dto admin_id admin_role w =
      (or_raise (m.parse_object_id admin_id) (driver_error 0)
          >>= write_and_settle w.reports is_new report dto admin_id admin_role)
        w

  abbrev pub announce_ban : String → ℕ → Action (Unit {0})
  announce_ban target until = do revoke_all_with_cleanup m target; emit (user_banned target until)

  abbrev pub announce_unmute : String → Option PenaltyType → Action (Unit {0})
  announce_unmute target (some PenaltyType.mute) = emit (user_unmuted target)
  announce_unmute target kind = pure tt

  abbrev pub announce_penalty : String → ReportStatus → Report → Penalty → Action (Unit {0})
  announce_penalty target ReportStatus.resolved final penalty =
      emit_if_later penalty.ban_until (announce_ban target)
      >> emit_if_later penalty.mute_until (λ until. emit (user_muted target until))
  announce_penalty target ReportStatus.appeal_success final penalty =
      announce_unmute target final.penalty_type
  announce_penalty target status final penalty = pure tt

  abbrev pub notify : String → String → ReportStatus → Action (Unit {0})
  notify target id ReportStatus.dismissed = pure tt
  notify target id status = emit (report_notified target id status)

  -- What follows the commit.
  unfoldable pub announce : Report → ReportStatus → Report × Penalty → Action Report
  announce report status (final, penalty) = do
    announce_penalty (m.object_id_text report.target_user_id) status final penalty
    notify (m.object_id_text report.target_user_id) (m.object_id_text final.id) status
    pure final

  -- `resolveReport`
  unfoldable pub resolve_report : Report → ResolveDto → String → UserRole → Bool → Action Report
  resolve_report report dto admin_id admin_role is_new =
      refuse_if_some (check_statuses report.status dto.status)
      >> with_transaction (decide is_new report dto admin_id admin_role)
      >>= announce report dto.status

  -- `resolveInternal`
  unfoldable pub resolve_internal : String → ResolveDto → String → UserRole → Action Report
  resolve_internal id dto admin_id admin_role = do
    i ← to_object_id m id "reportId"
    found ← gets (λ w. m.find_one (λ r. r.id == i) w.reports)
    report ← or_raise found (refuse ReportMessage.report_not_found)
    resolve_report report dto admin_id admin_role false

  abbrev pub given : Option String → Action String
  given none = raise (refuse ReportMessage.invalid_password)
  given (some raw) =
      if str_eq raw "" then raise (refuse ReportMessage.invalid_password) else pure raw

  -- `resolve`
  unfoldable pub resolve : Passwords → String → ResolveDto → String → UserRole → Action Report
  resolve passwords id dto admin_id admin_role = do
    raw ← given dto.password
    verify_admin_password passwords admin_id admin_role raw
    resolve_internal id dto admin_id admin_role
