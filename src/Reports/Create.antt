-- ===== src/Reports/Create.antt =====
-- `create` of reports.service.ts; the description is left out, and the storage of a report never
-- fails.
use learn_nest_js.Shared.{
  ℕ, suc, ◌-◌, ◌*◌, ◌≤◌, ◌≡◌, ◌==◌, arith, String, Bool, true, false, ◌&&◌, ◌||◌, str_eq, leb,
  Option, none, some, List, count, sym, ap, ◌∙◌, ==_iff, inl, inr, Option-cases, Bool-cases,
}
use learn_nest_js.Shared.Errors.{ReportMessage}
use learn_nest_js.Shared.Action.{
  ok, or_raise, raise_if, gets, pure, past_check, bind_inv, ◌>>=◌, ◌>>◌,
}
use learn_nest_js.Shared.Platform.{Platform}
use learn_nest_js.Shared.Documents.{found}
use learn_nest_js.Shared.Counting.{count-insert}
use learn_nest_js.Schemas.{User, Report, ReportReason}
use learn_nest_js.World.{World, Action, to_object_id}
use learn_nest_js.Users
use learn_nest_js.Reports.Penalty.{refuse, is_admin, is_super_admin}
use learn_nest_js.Reports.Appeal.{EvidenceImages}
use learn_nest_js.Reports.Admin.{new_report}

-- `reporter && (reporter.role === ADMIN || reporter.role === SUPER_ADMIN)`
abbrev pub is_staff : Option User → Bool
is_staff none = false
is_staff (some u) = is_admin u.role || is_super_admin u.role

abbrev pub report_limit : ℕ
report_limit = 3

-- A report by a user on another in the 24 hours before a date.
abbrev pub is_recent : ℕ → ℕ → ℕ → Report → Bool
is_recent reporter target now r =
    r.reporter_id == reporter
    && r.target_user_id == target
    && leb (now - 24 * 60 * 60 * 1000) r.created_at

module _ (m : Platform) where
  -- The limit on the reports of a day.
  unfoldable pub check_limit : Bool → ℕ → ℕ → Action (Unit {0})
  check_limit true reporter target = pure tt
  check_limit false reporter target = do
    recent ← gets (λ w. m.count_documents (is_recent reporter target w.now) w.reports)
    raise_if (leb report_limit recent) (refuse ReportMessage.too_many_reports)

  -- What is checked before the images are stored.
  unfoldable pub check_report : String → String → Action (ℕ × User)
  check_report reporter_id target_id = do
    reporter ← to_object_id m reporter_id "reporterId"
    target ← to_object_id m target_id "targetUserId"
    raise_if (str_eq reporter_id target_id) (refuse ReportMessage.cannot_report_self)
    author ← Users.find_one m reporter_id
    check_limit (is_staff author) reporter target
    found ← Users.find_one m target_id
    user ← or_raise found (refuse ReportMessage.target_user_not_found)
    pure (reporter, user)

  unfoldable pub save_report : ℕ → User → ReportReason → List ℕ → Action Report
  save_report reporter target reason images w =
      let report = record (new_report reporter target reason (m.new_object_id w.created) w.now) {
        evidence_media_ids = images;
      } in
      (ok report, record w { reports = m.insert report w.reports; created = suc w.created })

  module _ (images : EvidenceImages) where
    unfoldable pub store_report :
        String → ReportReason → List images.File → ℕ × User → Action Report
    store_report reporter_id reason files (reporter, target) = do
      uploaded ← images.upload reporter_id files
      save_report reporter target reason uploaded

    -- `create`
    unfoldable pub create : String → String → ReportReason → List images.File → Action Report
    create reporter_id target_id reason files =
        check_report reporter_id target_id >>= store_report reporter_id reason files

module _ (m : Platform) where
  ok_inj : {A : Type 0} {a b : A} → ok a ≡ ok b → a ≡ b
  ok_inj h = cc

  check_limit_lem :
      (b : Bool) (reporter target : ℕ) (w : World) {t : Unit {0}}
      → (check_limit m b reporter target w).0 ≡ ok t
      → b ≡ false
      → suc (count (is_recent reporter target w.now) w.reports) ≤ report_limit
  unfolding check_limit
  check_limit_lem true reporter target w h e = absurd (ground (arith, e))
  check_limit_lem false reporter target w h e =
      ground (arith, h, m.count_documents_lem (is_recent reporter target w.now) w.reports)

  find_one_keeps : (id : String) (w : World) → (Users.find_one m id w).1 ≡ w
  unfolding Users.find_one
  find_one_keeps id w = ground arith

  abbrev find_reported : ℕ → String → Action (ℕ × User)
  find_reported reporter target_id = do
    found ← Users.find_one m target_id
    user ← or_raise found (refuse ReportMessage.target_user_not_found)
    pure (reporter, user)

  find_reported_lem :
      (reporter : ℕ) (target_id : String) (target : ℕ) (w : World) {r : ℕ} {u : User}
      → m.parse_object_id target_id ≡ some target
      → (find_reported reporter target_id w).0 ≡ ok (r, u)
      → (r ≡ reporter) × (u.id ≡ target)
  unfolding Users.find_one
  find_reported_lem reporter target_id target w {r} {u} e done =
      elim (Option-cases (m.find_one (λ u. u.id == target) w.users)) [
        | inl d ↦ absurd (ground (arith, e, d, done))
        | inr (v, d) ↦
            let same : v ≡ u = ground (arith, e, d, done) in
            let it : v.id ≡ target =
              (==_iff v.id target).0 (found m (λ u. u.id == target) w.users d).0 in
            (ground (arith, e, d, done), sym (ap (λ x. x.id) same) ∙ it)
      ]

  check_limit_keeps :
      (b : Bool) (reporter target : ℕ) (w : World) → (check_limit m b reporter target w).1 ≡ w
  unfolding check_limit
  check_limit_keeps b reporter target w = ground arith

  check_report_keeps :
      (reporter_id target_id : String) (w : World) → (check_report m reporter_id target_id w).1 ≡ w
  unfolding check_report Users.find_one check_limit
  check_report_keeps reporter_id target_id w = ground arith

  check_report_lem :
      (reporter_id target_id : String) (w : World) {author : Option User} {r : ℕ × User}
      → (Users.find_one m reporter_id w).0 ≡ ok author
      → is_staff author ≡ false
      → (check_report m reporter_id target_id w).0 ≡ ok r
      → suc (count (is_recent r.0 r.1.id w.now) w.reports) ≤ report_limit
  unfolding check_report
  check_report_lem reporter_id target_id w {author} {r} found plain done =
      elim (Option-cases (m.parse_object_id reporter_id)) [
        | inl e ↦ absurd (ground (arith, e, done))
        | inr (i, e) ↦ elim (Option-cases (m.parse_object_id target_id)) [
          | inl d ↦ absurd (ground (arith, e, d, done))
          | inr (j, d) ↦ elim (Bool-cases (str_eq reporter_id target_id)) [
            | inl s ↦ absurd (ground (arith, e, d, s, done))
            | inr s ↦
                let limit = λ (a : Option User).
                  check_limit m (is_staff a) i j >> find_reported i target_id in
                let h : ((Users.find_one m reporter_id >>= limit) w).0 ≡ ok r =
                  rw (e, d, s) at done in
                let (a, k, one) =
                  past_check (Users.find_one m reporter_id) limit w h
                    (λ a k. find_one_keeps reporter_id w) in
                let (_, l, two) =
                  past_check (check_limit m (is_staff a) i j) (λ t. find_reported i target_id) w
                    (rw one at h) (λ t k. check_limit_keeps (is_staff a) i j w) in
                let (same_i, same_j) =
                  find_reported_lem i target_id j w {r = r.0} {u = r.1} d (rw (one ∙ two) at h) in
                let it : a ≡ author = ok_inj (sym k ∙ found) in
                rw (same_i, same_j) (check_limit_lem (is_staff a) i j w l (ap is_staff it ∙ plain))
          ]
        ]
      ]

  store_report_lem :
      (images : EvidenceImages) (reporter_id : String) (reason : ReportReason)
      (files : List images.File) (r : ℕ × User) (w : World) {report : Report}
      → (store_report m images reporter_id reason files r w).0 ≡ ok report
      → (report.reporter_id ≡ r.0)
        × (report.target_user_id ≡ r.1.id)
        × ((q : Report → Bool)
            → count q (store_report m images reporter_id reason files r w).1.reports
              ≤ suc (count q w.reports))
  unfolding store_report save_report
  store_report_lem images reporter_id reason files (reporter, target) w {report} h =
      let save = save_report m reporter target reason in
      let (ids, e, went) = bind_inv (images.upload reporter_id files) save h in
      let v = (images.upload reporter_id files w).1 in
      let made = record (new_report reporter target reason (m.new_object_id v.created) v.now) {
        evidence_media_ids = ids;
      } in
      let it : made ≡ report = ok_inj (rw went at h) in
      let kept = images.upload-reports reporter_id files w in
      (
        sym (ap (λ x. x.reporter_id) it),
        sym (ap (λ x. x.target_user_id) it),
        λ q. rw went (rw (count-insert m q made v.reports) (rw kept (ground arith))),
      )

  -- Once a user who is no administrator has made a report, the reports of this user on the same
  -- target in the last 24 hours, with the new one, are three at most.
  pub create-limited :
      (images : EvidenceImages) (reporter_id target_id : String) (reason : ReportReason)
      (files : List images.File) (w : World) {author : Option User} {report : Report}
      → (Users.find_one m reporter_id w).0 ≡ ok author
      → is_staff author ≡ false
      → (create m images reporter_id target_id reason files w).0 ≡ ok report
      → count
          (is_recent report.reporter_id report.target_user_id w.now)
          (create m images reporter_id target_id reason files w).1.reports
        ≤ report_limit
  unfolding create
  create-limited images reporter_id target_id reason files w {author} {report} found plain done =
      let store = store_report m images reporter_id reason files in
      let (r, e, went) =
        past_check (check_report m reporter_id target_id) store w done
          (λ r e. check_report_keeps reporter_id target_id w) in
      let low = check_report_lem reporter_id target_id w found plain e in
      let (same, target, grown) =
        store_report_lem images reporter_id reason files r w (rw went at done) in
      let more = grown (is_recent r.0 r.1.id w.now) in
      rw (went, same, target) (omega (arith, low, more))
