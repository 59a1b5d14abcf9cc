-- ===== src/Reports/Appeal.antt =====
-- report-appeal.service.ts. The texts of an appeal, the notification's snapshot and the documents
-- of the images are left out; JSON web tokens and the header that carries one are an interface, and
-- so are the images (report-media.service.ts), of which their ids are kept.
use learn_nest_js.Shared.{
  ℕ, ◌+◌, ◌≤◌, ◌<◌, ◌≡◌, String, Bool, true, false, ◌&&◌, ◌==◌, not, str_eq, ltb, Option, none,
  some, List,
}
use learn_nest_js.Shared.Errors.{
  forbidden, unauthorized, driver_error, of_report, of_auth, ReportMessage, AuthMessage,
}
use learn_nest_js.Shared.Action.{
  Result, ok, err, or_raise, raise, raise_if, gets, pure, try_catch, ◌>>=◌, ◌>>◌,
}
use learn_nest_js.Shared.Platform.{Platform}
use learn_nest_js.Schemas.{Report, ReportStatus, PenaltyType}
use learn_nest_js.World.{World, Action, report_notified, to_object_id, is_later}
use learn_nest_js.Reports.Penalty.{refuse, is_resolved}
use learn_nest_js.Reports.Resolve.{update_report, appeal_window_ms, emit}

pub record AppealClaims : Type 0 where
  pub sub : String
  pub report_id : String
  pub scope : String

-- `signAsync` and `verifyAsync` under APPEAL_TOKEN_SECRET, at a time: a token that was signed is
-- read back until its lifetime, APPEAL_TOKEN_EXPIRES_IN, is over. `header` is the header that a
-- client sends with a token, and `bearer` what `startsWith`, `slice` and `trim` take from it; both
-- the tokens and the headers are texts, into which the code looks in no other way.
pub record AppealTokens : Type 1 where
  pub Token : Type 0
  pub Header : Type 0
  pub sign : AppealClaims → ℕ → Token
  pub verify : Token → ℕ → Result AppealClaims
  pub lifetime : ℕ
  pub header : Token → Header
  pub bearer : Header → Option Token
  pub verify-sign :
      (claims : AppealClaims) (signed now : ℕ)
      → signed ≤ now
      → now < signed + lifetime
      → verify (sign claims signed) now ≡ ok claims
  pub bearer-header :
      (claims : AppealClaims) (signed : ℕ)
      → bearer (header (sign claims signed)) ≡ some (sign claims signed)

-- `uploadEvidenceImages` and `rollbackEvidenceImages`; they reach neither the reports nor the clock.
pub record EvidenceImages : Type 1 where
  pub File : Type 0
  pub upload : String → List File → Action (List ℕ)
  pub roll_back : List ℕ → Action (Unit {0})
  pub upload-reports :
      (owner : String) (files : List File) (w : World)
      → (upload owner files w).1.reports ≡ w.reports
  pub roll_back-reports :
      (uploaded : List ℕ) (w : World) → (roll_back uploaded w).1.reports ≡ w.reports
  pub upload-now :
      (owner : String) (files : List File) (w : World) → (upload owner files w).1.now ≡ w.now

-- `!deadline || deadline < new Date()`
abbrev pub is_over : Option ℕ → ℕ → Bool
is_over none now = true
is_over (some deadline) now = ltb deadline now

abbrev pub is_for : String → AppealClaims → Bool
is_for report_id claims = str_eq claims.scope "report_appeal" && str_eq claims.report_id report_id

abbrev pub appeal_scope : String → String → AppealClaims
appeal_scope user_id report_id = record {
  sub = user_id;
  report_id = report_id;
  scope = "report_appeal";
}

pub record AppealAccess (Token : Type 0) : Type 0 where
  pub report_id : String
  pub status : ReportStatus
  pub appeal_deadline : Option ℕ
  pub appeal_review_deadline : Option ℕ
  pub penalty_type : Option PenaltyType
  pub appeal_token : Option Token

-- The statuses for which access to an appeal is told.
abbrev pub is_appealable : ReportStatus → Bool
is_appealable ReportStatus.resolved = true
is_appealable ReportStatus.appeal_pending = true
is_appealable ReportStatus.appeal_rejected = true
is_appealable _ = false

abbrev pub appealed : List ℕ → ℕ → Report → Report
appealed images now r = record r {
  status = ReportStatus.appeal_pending;
  appeal_review_deadline = some (now + appeal_window_ms);
  appeal_evidence_media_ids = images;
}

module _ (m : Platform) (tokens : AppealTokens) where
  -- `generateAppealToken`
  unfoldable pub generate_appeal_token : String → String → Action tokens.Token
  generate_appeal_token user_id report_id =
      gets (λ w. tokens.sign (appeal_scope user_id report_id) w.now)

  abbrev pub read_token : Option tokens.Token → Action AppealClaims
  read_token none w = (err (unauthorized (of_auth AuthMessage.appeal_token_invalid)), w)
  read_token (some token) w = (tokens.verify token w.now, w)

  abbrev pub bearer_of : Option tokens.Header → Option tokens.Token
  bearer_of none = none
  bearer_of (some header) = tokens.bearer header

  -- `verifyAppealToken`: the user that the token names.
  unfoldable pub verify_appeal_token : Option tokens.Header → String → Action String
  verify_appeal_token authorization report_id = do
    claims ← read_token (bearer_of authorization)
    raise_if (not (is_for report_id claims))
        (unauthorized (of_auth AuthMessage.appeal_token_invalid))
    pure claims.sub

  -- The check on the report, once the user is known.
  abbrev pub check_appealed : ℕ → String → Action (Report × String)
  check_appealed i user_id = do
    found ← gets (λ w. m.find_one (λ r. r.id == i) w.reports)
    report ← or_raise found (refuse ReportMessage.report_not_found)
    raise_if (not (str_eq (m.object_id_text report.target_user_id) user_id))
        (forbidden (of_report ReportMessage.missing_permission))
    raise_if (not (is_resolved report.status)) (refuse ReportMessage.report_invalid_status)
    now ← gets (λ w. w.now)
    raise_if (is_over report.appeal_deadline now) (refuse ReportMessage.appeal_deadline_expired)
    pure (report, user_id)

  -- The report that the user may appeal against.
  unfoldable pub find_appealed : String → Option tokens.Header → Action (Report × String)
  find_appealed id authorization = do
    i ← to_object_id m id "reportId"
    user_id ← verify_appeal_token authorization id
    check_appealed i user_id

  -- `report.save`, which finds the document by its id.
  unfoldable pub save_appeal : Report → List ℕ → Action Report
  save_appeal report images = do
    now ← gets (λ w. w.now)
    saved ← update_report m (λ r. r.id == report.id) (appealed images now)
    or_raise saved (driver_error 0)

  module _ (images : EvidenceImages) where
    -- The report that is appealed against, with the images that were uploaded.
    unfoldable pub write_appeal : Report → List ℕ → Action Report
    write_appeal report uploaded =
        try_catch (save_appeal report uploaded) (λ e. images.roll_back uploaded >> raise e)

    unfoldable pub send_appeal : List images.File → Report × String → Action Report
    send_appeal files (report, user_id) = do
      uploaded ← images.upload user_id files
      saved ← write_appeal report uploaded
      emit (
          report_notified (m.object_id_text report.target_user_id) (m.object_id_text saved.id)
            ReportStatus.appeal_pending)
      pure saved

    -- `appeal`
    unfoldable pub appeal : String → Option tokens.Header → List images.File → Action Report
    appeal id authorization files = find_appealed id authorization >>= send_appeal files

  abbrev pub token_if : Bool → String → String → Action (Option tokens.Token)
  token_if true user_id report_id = do
    token ← generate_appeal_token user_id report_id
    pure (some token)
  token_if false user_id report_id = pure none

  -- `getAppealAccess`
  unfoldable pub get_appeal_access : String → String → Action (AppealAccess tokens.Token)
  get_appeal_access id user_id = do
    i ← to_object_id m id "reportId"
    found ← gets (λ w. m.find_one (λ r. r.id == i) w.reports)
    report ← or_raise found (refuse ReportMessage.report_not_found)
    raise_if (not (str_eq (m.object_id_text report.target_user_id) user_id))
        (forbidden (of_report ReportMessage.missing_permission))
    raise_if (not (is_appealable report.status)) (refuse ReportMessage.report_invalid_status)
    now ← gets (λ w. w.now)
    token ←
        token_if (is_resolved report.status && is_later report.appeal_deadline now) user_id
          (m.object_id_text report.id)
    pure (record {
      report_id = m.object_id_text report.id;
      status = report.status;
      appeal_deadline = report.appeal_deadline;
      appeal_review_deadline = report.appeal_review_deadline;
      penalty_type = report.penalty_type;
      appeal_token = token;
    })
