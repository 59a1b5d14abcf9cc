-- ===== src/Reports/LifecycleTests.antt =====
-- Runs of decisions and appeals on the list platform, and instances of the theorems.
use learn_nest_js.Shared.{
  ◌≤◌, ℕ, ◌+◌, ◌<◌, ◌≡◌, refl, arith, String, true, false, str_eq, ltb, eq_iff, none, some, List,
  [], ◌∷◌, Memᴰ, map, count, if◌then◌else◌,
}
use learn_nest_js.Shared.Errors.{ReportMessage, forbidden, of_report, token_error}
use learn_nest_js.Shared.Action.{Result, ok, err, pure}
use learn_nest_js.Shared.Documents.{Each}
use learn_nest_js.Shared.ListPlatform.{list_platform}
use learn_nest_js.Schemas.{UserRole, Report, ReportStatus, PenaltyType, spam_harassment}
use learn_nest_js.Samples.{empty_world, sample_user}
use learn_nest_js.World.{World}
use learn_nest_js.Users
use learn_nest_js.Sessions.Service.{revoke_all_with_cleanup, revoke_all}
use learn_nest_js.Reports.Penalty.{
  Resets, refuse, calculate_and_apply, find_target, save, apply, penalised, reset, reset_or_default,
  reduces, rule_for, penalty_rules,
}
use learn_nest_js.Reports.Resolve.{
  Passwords, ResolveDto, resolve_report, check_statuses, decide, write_decision, update_report,
  update_reports, punish, write_penalty, acquit, announce, resolve_internal, resolve,
  verify_admin_password,
}
use learn_nest_js.Reports.Appeal.{
  AppealClaims, AppealTokens, AppealAccess, EvidenceImages, appeal_scope, generate_appeal_token,
  get_appeal_access, find_appealed,
}
use learn_nest_js.Reports.Admin.{
  quick_penalty, manual_ban, check_action, penalise_now, save_new_report, discard,
}
use learn_nest_js.Reports.Create.{
  is_recent, check_limit, check_report, save_report, store_report, create, create-limited,
}
use learn_nest_js.Reports.Lifecycle.{Later}
use learn_nest_js.Reports.Resolution.{resolve_report-undone}
use learn_nest_js.Reports.Merging.{IsSettled, resolve_report-IsSettled}
use learn_nest_js.Reports.Appealing.{get_appeal_access-find_appealed}
use learn_nest_js.Reports.Discarding.{quick_penalty-leaves, manual_ban-leaves}
use learn_nest_js.Reports.Running.{
  Request, resolves, unbans, serve, serve_all, serve_all-Later, serve_all-closed,
}

opened : Unit {0}
unfolding resolve_report check_statuses decide write_decision update_report update_reports punish
    write_penalty acquit announce resolve_internal resolve verify_admin_password calculate_and_apply
    find_target save apply penalised reset reset_or_default reduces rule_for penalty_rules
    Users.find_one revoke_all_with_cleanup revoke_all generate_appeal_token get_appeal_access
    quick_penalty manual_ban check_action penalise_now save_new_report discard serve serve_all
opened = tt

opened_create : Unit {0}
unfolding Users.find_one check_limit check_report save_report store_report create
opened_create = tt

abbrev plain : Passwords
plain = record {
  compare = λ raw hash. str_eq raw hash;
  hash = λ raw. raw;
  compare-hash = λ raw. (eq_iff raw raw).1 refl;
}

abbrev verify_until : AppealClaims × ℕ → ℕ → Result AppealClaims
verify_until (claims, end) now = if ltb now end then ok claims else err (token_error true)

verify_until_lem :
    (claims : AppealClaims) (end now : ℕ) → now < end → verify_until (claims, end) now ≡ ok claims
verify_until_lem claims end now h = let e : ltb now end ≡ true = ground arith in rw e refl

abbrev open_tokens : AppealTokens
open_tokens = record {
  Token = AppealClaims × ℕ;
  Header = AppealClaims × ℕ;
  sign = λ claims now. (claims, now + 500);
  verify = verify_until;
  lifetime = 500;
  header = λ token. token;
  bearer = λ header. some header;
  verify-sign = λ claims signed now before after. verify_until_lem claims (signed + 500) now after;
  bearer-header = λ claims signed. refl;
}

abbrev no_images : EvidenceImages
no_images = record {
  File = Unit {0};
  upload = λ owner files. pure [];
  roll_back = λ uploaded. pure tt;
  upload-reports = λ owner files w. refl;
  roll_back-reports = λ uploaded w. refl;
  upload-now = λ owner files w. refl;
}

abbrev report_of : ℕ → ReportStatus → Report
report_of id status = record {
  id = id;
  reporter_id = 2;
  target_user_id = 1;
  reason = spam_harassment;
  evidence_media_ids = [];
  snapshot = none;
  status = status;
  resolved_by = none;
  resolved_at = none;
  appeal_deadline = some 5000;
  appeal_review_deadline = none;
  appeal_evidence_media_ids = [];
  penalty_type = none;
  created_at = 400;
}

abbrev start : World
start = record empty_world {
  users =
      (record (sample_user 0) { role = UserRole.super_admin; password = "pw" })
      ∷ sample_user 1
      ∷ sample_user 2
      ∷ [];
  reports =
      report_of 5 ReportStatus.pending
      ∷ report_of 6 ReportStatus.pending
      ∷ report_of 7 ReportStatus.dismissed
      ∷ report_of 8 ReportStatus.resolved
      ∷ [];
  now = 1000;
  created = 20;
}

abbrev nothing : Resets
nothing = record { avatar = false; bio = false; name = false; drawn_name = "User_100000" }

abbrev verdict : ReportStatus → ResolveDto
verdict status = record {
  status = status;
  password = some "pw";
  override_penalty_action = none;
  override_penalty_duration_days = none;
  resets = nothing;
}

-- The super administrator resolves the first report, and the other that is pending goes with it.
merged :
    map
      (λ (r : Report). r.status)
      (resolve list_platform plain "aaaaaa"
        (verdict ReportStatus.resolved)
        "a"
        UserRole.super_admin
        start).1.reports
    ≡ ReportStatus.resolved ∷ ReportStatus.dismissed ∷ ReportStatus.dismissed
      ∷ ReportStatus.resolved ∷ []
unfolding opened
merged = refl

abbrev requests : List (Request (Unit {0}) (AppealClaims × ℕ))
requests =
    resolves "aaaaaa" (verdict ReportStatus.resolved) "a" UserRole.super_admin
    ∷ unbans "aa" "a" UserRole.super_admin "pw"
    ∷ []

serve_all-Later_example :
    Each Later start.reports
      (serve_all list_platform plain open_tokens no_images requests start).reports
serve_all-Later_example =
    serve_all-Later list_platform plain open_tokens no_images requests start (λ i. ground arith)

serve_all-closed_example :
    (b : Report) × Memᴰ b
      (serve_all list_platform plain open_tokens no_images requests start).reports
    × (b.id ≡ 7)
    × (b.status ≡ ReportStatus.dismissed)
serve_all-closed_example =
    serve_all-closed list_platform plain open_tokens no_images requests start
      (report_of 7 ReportStatus.dismissed) (λ i. ground arith)
      (Memᴰ.tail (Memᴰ.tail (Memᴰ.head refl))) refl

-- An administrator who names himself is refused, after the decision was written.
resolve_report-undone_example :
    (resolve_report list_platform
      (report_of 5 ReportStatus.pending)
      (verdict ReportStatus.resolved)
      "aa"
      UserRole.super_admin
      false
      start).1
    ≡ start
unfolding opened
resolve_report-undone_example =
    resolve_report-undone list_platform (report_of 5 ReportStatus.pending)
      (verdict ReportStatus.resolved) "aa" UserRole.super_admin false start
      {x = refuse ReportMessage.cannot_penalize_self} refl

abbrev answered : Report
answered = record (report_of 5 ReportStatus.resolved) {
  resolved_by = some 0;
  resolved_at = some 1000;
  appeal_deadline = some 2592001000;
  penalty_type = some PenaltyType.mute;
}

resolve_report-IsSettled_example :
    IsSettled list_platform
      (report_of 5 ReportStatus.pending)
      (resolve_report list_platform
        (report_of 5 ReportStatus.pending)
        (verdict ReportStatus.resolved)
        "a"
        UserRole.super_admin
        false
        start).1
unfolding opened
resolve_report-IsSettled_example =
    resolve_report-IsSettled list_platform (report_of 5 ReportStatus.pending)
      (verdict ReportStatus.resolved) "a" UserRole.super_admin false start {answer = answered} refl
      refl

quick_penalty-leaves_example :
    count
      (λ r. true)
      (quick_penalty list_platform plain "a" "a" UserRole.super_admin "pw" spam_harassment nothing
        start).1.reports
    ≡ 4
unfolding opened
quick_penalty-leaves_example =
    quick_penalty-leaves list_platform plain "a" "a" UserRole.super_admin "pw" spam_harassment
      nothing start (λ r. true)
      {x = forbidden (of_report ReportMessage.cannot_penalize_super_admin)} refl refl

manual_leaves :
    count
      (λ r. true)
      (manual_ban list_platform plain "a" "a" UserRole.super_admin "pw"
        (some 3)
        nothing
        start).1.reports
    ≡ 4
unfolding opened
manual_leaves =
    manual_ban-leaves list_platform plain "a" "a" UserRole.super_admin "pw" (some 3) nothing start
      (λ r. true) {x = forbidden (of_report ReportMessage.cannot_penalize_super_admin)} refl refl

abbrev handed : AppealAccess (AppealClaims × ℕ)
handed = record {
  report_id = "aaaaaaaaa";
  status = ReportStatus.resolved;
  appeal_deadline = some 5000;
  appeal_review_deadline = none;
  penalty_type = none;
  appeal_token = some (appeal_scope "aa" "aaaaaaaaa", 1500);
}

get_appeal_access-find_appealed_example :
    (report : Report) × ((find_appealed list_platform open_tokens "aaaaaaaaa"
        (some (appeal_scope "aa" "aaaaaaaaa", 1500))
        (record start { now = 1400 })).0
      ≡ ok (report, "aa"))
    × Memᴰ report start.reports
    × (◌≡◌ {A = String} "aaaaaaaaa" (list_platform.object_id_text report.id))
unfolding opened
get_appeal_access-find_appealed_example =
    get_appeal_access-find_appealed list_platform open_tokens "aaaaaaaaa" "aa" start 1400
      {access = handed} {token = (appeal_scope "aa" "aaaaaaaaa", 1500)} refl refl (omega arith)
      (omega arith) refl

abbrev filed : Report
filed = record (report_of 20 ReportStatus.pending) {
  reporter_id = 1;
  target_user_id = 2;
  snapshot =
      some
        (record { avatar_media_id = none; display_name = none; bio = none; role = UserRole.user });
  appeal_deadline = none;
  created_at = 1000;
}

create-limited_example :
    count
      (is_recent 1 2 1000)
      (create list_platform no_images "aa" "aaa" spam_harassment [] start).1.reports
    ≤ 3
unfolding opened_create
create-limited_example =
    create-limited list_platform no_images "aa" "aaa" spam_harassment [] start
      {author = some (sample_user 1)} {report = filed} refl refl refl
