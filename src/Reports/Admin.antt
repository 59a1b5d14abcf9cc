-- ===== src/Reports/Admin.antt =====
-- report-admin-action.service.ts. The notes, the audit log and the texts of the answers are left
-- out; an answer is the user after the call.
use learn_nest_js.Shared.{ℕ, suc, String, Bool, true, false, ◌&&◌, ◌==◌, Option, none, some, []}
use learn_nest_js.Shared.Action.{ok, or_raise, raise, gets, pure, modify, try_catch, ◌>>=◌, ◌>>◌}
use learn_nest_js.Shared.Platform.{Platform}
use learn_nest_js.Schemas.{User, UserRole, Report, ReportReason, ReportStatus, PenaltyAction, other}
use learn_nest_js.World.{World, Action, user_unmuted, to_object_id}
use learn_nest_js.Users
use learn_nest_js.Shared.Errors.{ReportMessage}
use learn_nest_js.Reports.Penalty.{Resets, refuse, save, is_resolved}
use learn_nest_js.Reports.Resolve.{
  Passwords, ResolveDto, verify_admin_password, resolve_internal, update_report, emit,
}

-- The date by which the newest is told: a report without one comes last.
abbrev pub rank : Option ℕ → ℕ
rank none = 0
rank (some date) = suc date

abbrev pub is_open : ReportStatus → Bool
is_open ReportStatus.pending = true
is_open ReportStatus.resolving = true
is_open _ = false

abbrev pub withdrawn : Report → Report
withdrawn r = record r { status = ReportStatus.dismissed; appeal_deadline = none }

-- The report that an action of an administrator stands on.
abbrev pub new_report : ℕ → User → ReportReason → ℕ → ℕ → Report
new_report reporter target reason id now = record {
  id = id;
  reporter_id = reporter;
  target_user_id = target.id;
  reason = reason;
  evidence_media_ids = [];
  snapshot = some (record {
    avatar_media_id = target.avatar;
    display_name = target.name;
    bio = target.bio;
    role = target.role;
  });
  status = ReportStatus.pending;
  resolved_by = none;
  resolved_at = none;
  appeal_deadline = none;
  appeal_review_deadline = none;
  appeal_evidence_media_ids = [];
  penalty_type = none;
  created_at = now;
}

abbrev pub quick_dto : Resets → ResolveDto
quick_dto resets = record {
  status = ReportStatus.resolved;
  password = none;
  override_penalty_action = none;
  override_penalty_duration_days = none;
  resets = resets;
}

abbrev pub ban_dto : Option ℕ → Resets → ResolveDto
ban_dto days resets = record (quick_dto resets) {
  override_penalty_action = some PenaltyAction.ban;
  override_penalty_duration_days = days;
}

module _ (m : Platform) where
  abbrev pub find_report : ℕ → World → Option Report
  find_report i w = m.find_one (λ r. r.id == i) w.reports

  -- `deleteOne`, for a report that is still open.
  abbrev pub delete_if_open : Option Report → Action (Unit {0})
  delete_if_open none = pure tt
  delete_if_open (some latest) = delete_if latest.id (is_open latest.status)
    where
      delete_if : ℕ → Bool → Action (Unit {0})
      delete_if i true =
          modify (λ w. record w { reports = (m.find_one_and_delete (λ r. r.id == i) w.reports).1 })
      delete_if i false = pure tt

  -- The `catch` of an action that resolves its own report.
  unfoldable pub discard : ℕ → Action (Unit {0})
  discard i = gets (find_report i) >>= delete_if_open

  unfoldable pub save_new_report : ℕ → User → ReportReason → Action Report
  save_new_report reporter target reason w =
      let report = new_report reporter target reason (m.new_object_id w.created) w.now in
      (ok report, record w { reports = m.insert report w.reports; created = suc w.created })

  abbrev pub resolve_or_discard : Report → ResolveDto → String → UserRole → Action Report
  resolve_or_discard report dto admin_id admin_role =
      try_catch (resolve_internal m (m.object_id_text report.id) dto admin_id admin_role)
        (λ e. discard report.id >> raise e)

  unfoldable pub penalise_now :
      String → UserRole → ReportReason → ResolveDto → ℕ × User → Action Report
  penalise_now admin_id admin_role reason dto (admin, target) = do
    report ← save_new_report admin target reason
    resolve_or_discard report dto admin_id admin_role

  module _ (passwords : Passwords) where
    -- What the actions check first: the administrator's id and the user that is acted on.
    unfoldable pub check_action : String → String → UserRole → String → Action (ℕ × User)
    check_action target_id admin_id admin_role password = do
      verify_admin_password m passwords admin_id admin_role password
      admin ← to_object_id m admin_id "adminId"
      to_object_id m target_id "targetUserId"
      found ← Users.find_one m target_id
      target ← or_raise found (refuse ReportMessage.target_user_not_found)
      pure (admin, target)

    -- `quickPenalty`
    unfoldable pub quick_penalty :
        String → String → UserRole → String → ReportReason → Resets → Action Report
    quick_penalty target_id admin_id admin_role password reason resets =
        check_action target_id admin_id admin_role password
        >>= penalise_now admin_id admin_role reason (quick_dto resets)

    -- `manualBan`
    unfoldable pub manual_ban :
        String → String → UserRole → String → Option ℕ → Resets → Action Report
    manual_ban target_id admin_id admin_role password days resets =
        check_action target_id admin_id admin_role password
        >>= penalise_now admin_id admin_role other (ban_dto days resets)

    -- What `unban`, `unmute` and `clearStrike` check first.
    unfoldable pub check_pardon : String → String → UserRole → String → Action User
    check_pardon target_id admin_id admin_role password = do
      verify_admin_password m passwords admin_id admin_role password
      to_object_id m target_id "targetUserId"
      found ← Users.find_one m target_id
      or_raise found (refuse ReportMessage.user_not_found)

    abbrev pub withdraw : Option Report → Action (Unit {0})
    withdraw none = pure tt
    withdraw (some report) = update_report m (λ r. r.id == report.id) withdrawn >> pure tt

    -- The newest report against the user that was resolved is dismissed.
    unfoldable pub withdraw_newest : ℕ → Action (Unit {0})
    withdraw_newest target = do
      newest ← gets (λ w.
          m.find_greatest (λ r. r.target_user_id == target && is_resolved r.status)
            (λ r. rank r.resolved_at) w.reports)
      withdraw newest

    unfoldable pub save_pardon : (User → User) → User → Action User
    save_pardon pardon target = do
      save m target.id (pardon target)
      withdraw_newest target.id
      pure (pardon target)

    -- `unban`
    unfoldable pub unban : String → String → UserRole → String → Action User
    unban target_id admin_id admin_role password =
        check_pardon target_id admin_id admin_role password
        >>= save_pardon (λ u. record u { ban_until = none })

    unfoldable pub save_unmuted : String → User → Action User
    save_unmuted target_id target = do
      user ← save_pardon (λ u. record u { mute_until = none }) target
      emit (user_unmuted target_id)
      pure user

    -- `unmute`
    unfoldable pub unmute : String → String → UserRole → String → Action User
    unmute target_id admin_id admin_role password =
        check_pardon target_id admin_id admin_role password >>= save_unmuted target_id

    unfoldable pub drop_strike : User → Action User
    drop_strike target = do withdraw_newest target.id; pure target

    -- `clearStrike`
    unfoldable pub clear_strike : String → String → UserRole → String → Action User
    clear_strike target_id admin_id admin_role password =
        check_pardon target_id admin_id admin_role password >>= drop_strike
