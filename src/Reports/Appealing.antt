-- ===== src/Reports/Appealing.antt =====
-- `appeal` follows the machine; and the token that `getAppealAccess` hands out is one that it takes.
use learn_nest_js.Shared.{
  ℕ, ◌≡◌, ◌≤◌, ◌<◌, ◌+◌, ◌==◌, ==_iff, refl, arith, ap, String, true, false, Option, some, List,
  inl, inr, Memᴰ, Option-cases, str_eq, eq_iff, ◌∙◌,
}
use learn_nest_js.Shared.Errors.{Exception, driver_error}
use learn_nest_js.Shared.Action.{
  ok, err, ◌>>=◌, ◌>>◌, pure, or_raise, raise, Result-cases, bind_ok, bind_err,
}
use learn_nest_js.Shared.Platform.{Platform}
use learn_nest_js.Shared.Documents.{Each-refl, found}
use learn_nest_js.Schemas.{Report, ReportStatus}
use learn_nest_js.World.{World, Action, report_notified}
use learn_nest_js.Reports.Penalty.{is_resolved}
use learn_nest_js.Reports.Resolve.{update_report, emit}
use learn_nest_js.Reports.Appeal.{
  AppealTokens, AppealAccess, EvidenceImages, appealed, find_appealed, save_appeal, write_appeal,
  send_appeal, appeal, check_appealed, verify_appeal_token, get_appeal_access,
  generate_appeal_token, appeal_scope, bearer_of, is_over,
}
use learn_nest_js.Reports.Lifecycle.{is_appealed, one, Later, Later-refl, Unique}
use learn_nest_js.Reports.Following.{
  Follows, kept-Follows, bind-Follows, check-Follows, or_raise-Follows, try_catch-Follows,
}
use learn_nest_js.Reports.Pardoning.{by_id-Follows, resolved-eq}

module _ (m : Platform) (tokens : AppealTokens) where
  verify_appeal_token_keeps :
      (authorization : Option tokens.Header) (id : String) (w : World)
      → (verify_appeal_token m tokens authorization id w).1 ≡ w
  unfolding verify_appeal_token
  verify_appeal_token_keeps authorization id w =
      elim (Option-cases (bearer_of m tokens authorization)) [
        | inl e ↦ rw e refl
        | inr (token, e) ↦ elim (Result-cases (tokens.verify token w.now)) [
          | inl (x, v) ↦ rw (e, v) refl
          | inr (claims, v) ↦ rw (e, v) (ground arith)
        ]
      ]

  check_appealed_keeps :
      (i : ℕ) (user_id : String) (w : World) → (check_appealed m tokens i user_id w).1 ≡ w
  check_appealed_keeps i user_id w = ground arith

  check_appealed_lem :
      (i : ℕ) (user_id : String) (w : World) {report : Report} {user : String}
      → (check_appealed m tokens i user_id w).0 ≡ ok (report, user)
      → Memᴰ report w.reports × (is_resolved report.status ≡ true)
  check_appealed_lem i user_id w {report} {user} done =
      elim (Option-cases (m.find_one (λ r. r.id == i) w.reports)) [
        | inl e ↦ absurd (ground (arith, e, done))
        | inr (r, e) ↦
            let (_, here) = found m (λ r. r.id == i) w.reports e in
            let same : r ≡ report = ground (arith, e, done) in
            let resolved : is_resolved r.status ≡ true = ground (arith, e, done) in
            (rw same at here, cc (same, resolved))
      ]

  find_appealed_keeps :
      (id : String) (authorization : Option tokens.Header) (w : World)
      → (find_appealed m tokens id authorization w).1 ≡ w
  unfolding find_appealed
  find_appealed_keeps id authorization w =
      let kept = verify_appeal_token_keeps authorization id w in
      let verify = verify_appeal_token m tokens authorization id in
      elim (Option-cases (m.parse_object_id id)) [
        | inl e ↦ rw e refl
        | inr (i, e) ↦ elim (Result-cases (verify w).0) [
          | inl (x, v) ↦ rw e (rw (bind_err verify (check_appealed m tokens i) v) kept)
          | inr (user, v) ↦ rw e (
              rw (bind_ok verify (check_appealed m tokens i) v)
                (rw kept (check_appealed_keeps i user w)))
        ]
      ]

  find_appealed_lem :
      (id : String) (authorization : Option tokens.Header) (w : World) {report : Report}
      {user_id : String}
      → (find_appealed m tokens id authorization w).0 ≡ ok (report, user_id)
      → Memᴰ report w.reports × (is_resolved report.status ≡ true)
  unfolding find_appealed
  find_appealed_lem id authorization w {report} {user_id} done =
      let kept = verify_appeal_token_keeps authorization id w in
      let verify = verify_appeal_token m tokens authorization id in
      elim (Option-cases (m.parse_object_id id)) [
        | inl e ↦ absurd (ground (arith, e, done))
        | inr (i, e) ↦
            let done' : ((verify >>= check_appealed m tokens i) w).0 ≡ ok (report, user_id) =
              rw e at done in
            elim (Result-cases (verify w).0) [
              | inl (x, v) ↦
                  absurd (clash (rw (bind_err verify (check_appealed m tokens i) v) at done'))
              | inr (user, v) ↦
                  check_appealed_lem i user w
                    (rw kept at (rw (bind_ok verify (check_appealed m tokens i) v) at done'))
            ]
      ]
    where
      clash : {A : Type 0} {a : A} {x : Exception} → err x ≡ ok a → ⊥
      clash k = cc

  save_appeal-Follows :
      (report : Report) (images : List ℕ) (w : World)
      → Unique w.reports
      → Memᴰ report w.reports
      → is_resolved report.status ≡ true
      → Follows (save_appeal m tokens report images) w
  unfolding save_appeal
  save_appeal-Follows report images w unique here resolved =
      let change = update_report m (λ r. r.id == report.id) (appealed images w.now) in
      bind-Follows change (λ o. or_raise o (driver_error 0)) w
        (by_id-Follows m report (appealed images w.now) w unique here (record {
          same_id = refl;
          same_reporter = refl;
          same_target = refl;
          same_grounds = refl;
          steps = rw (resolved-eq report.status resolved) (one is_appealed);
        }))
        (λ o e. or_raise-Follows o (driver_error 0) (change w).1)

  module _ (images : EvidenceImages) where
    write_appeal-Follows :
        (report : Report) (uploaded : List ℕ) (w : World)
        → Unique w.reports
        → Memᴰ report w.reports
        → is_resolved report.status ≡ true
        → Follows (write_appeal m tokens images report uploaded) w
    unfolding write_appeal
    write_appeal-Follows report uploaded w unique here resolved =
        let undo : Exception → Action Report = λ e. images.roll_back uploaded >> raise e in
        let v = (save_appeal m tokens report uploaded w).1 in
        try_catch-Follows (save_appeal m tokens report uploaded) undo w
          (save_appeal-Follows report uploaded w unique here resolved)
          (λ x.
            bind-Follows (images.roll_back uploaded) (λ u. raise x) v
              (kept-Follows (images.roll_back uploaded) v (images.roll_back-reports uploaded v))
              (λ u e. Each-refl Later Later-refl (images.roll_back uploaded v).1.reports))

    send_appeal-Follows :
        (files : List images.File) (report : Report) (user_id : String) (w : World)
        → Unique w.reports
        → Memᴰ report w.reports
        → is_resolved report.status ≡ true
        → Follows (send_appeal m tokens images files (report, user_id)) w
    unfolding send_appeal
    send_appeal-Follows files report user_id w unique here resolved =
        let tell : Report → Action Report = λ saved.
          emit (
            report_notified (m.object_id_text report.target_user_id) (m.object_id_text saved.id)
              ReportStatus.appeal_pending)
          >> pure saved in
        let kept = images.upload-reports user_id files w in
        let v = (images.upload user_id files w).1 in
        bind-Follows (images.upload user_id files)
          (λ uploaded. write_appeal m tokens images report uploaded >>= tell) w
          (kept-Follows (images.upload user_id files) w kept)
          (λ uploaded e.
            bind-Follows (write_appeal m tokens images report uploaded) tell v
              (write_appeal-Follows report uploaded v (λ i. rw kept (unique i)) (rw kept here)
                resolved)
              (λ saved d.
                Each-refl Later Later-refl
                  (write_appeal m tokens images report uploaded v).1.reports))

    pub appeal-Follows :
        (id : String) (authorization : Option tokens.Header) (files : List images.File) (w : World)
        → Unique w.reports
        → Follows (appeal m tokens images id authorization files) w
    unfolding appeal
    appeal-Follows id authorization files w unique =
        check-Follows (find_appealed m tokens id authorization) (send_appeal m tokens images files)
          w (find_appealed_keeps id authorization w)
          (λ (report, user_id) e.
            let (here, resolved) = find_appealed_lem id authorization w e in
            send_appeal-Follows files report user_id w unique here resolved)

module _ (m : Platform) (tokens : AppealTokens) where
  verify_appeal_token_lem :
      (user_id report_id : String) (signed : ℕ) (w : World)
      → signed ≤ w.now
      → w.now < signed + tokens.lifetime
      → verify_appeal_token m tokens
          (some (tokens.header (tokens.sign (appeal_scope user_id report_id) signed)))
          report_id
          w
        ≡ (ok user_id, w)
  unfolding verify_appeal_token
  verify_appeal_token_lem user_id report_id signed w before after =
      let claims = appeal_scope user_id report_id in
      let same = (eq_iff report_id report_id).1 refl in
      rw (tokens.bearer-header claims signed)
        (rw (tokens.verify-sign claims signed w.now before after) (rw same refl))

  check_appealed_ok :
      (i : ℕ) (user_id : String) (w : World) {report : Report}
      → m.find_one (λ r. r.id == i) w.reports ≡ some report
      → str_eq (m.object_id_text report.target_user_id) user_id ≡ true
      → is_resolved report.status ≡ true
      → is_over report.appeal_deadline w.now ≡ false
      → (check_appealed m tokens i user_id w).0 ≡ ok (report, user_id)
  check_appealed_ok i user_id w e mine resolved open_still =
      rw e (rw mine (rw resolved (rw open_still refl)))

  find_appealed_ok :
      (i : ℕ) (user_id id : String) (authorization : Option tokens.Header) (w : World)
      {report : Report}
      → m.parse_object_id id ≡ some i
      → verify_appeal_token m tokens authorization id w ≡ (ok user_id, w)
      → (check_appealed m tokens i user_id w).0 ≡ ok (report, user_id)
      → (find_appealed m tokens id authorization w).0 ≡ ok (report, user_id)
  unfolding find_appealed
  find_appealed_ok i user_id id authorization w parsed verified checked =
      let verify = verify_appeal_token m tokens authorization id in
      let done = bind_ok verify (check_appealed m tokens i) (ap (λ r. r.0) verified) in
      let same = ap (λ r. r.1) verified in rw parsed (rw done (rw same checked))

  -- The report of which access to an appeal is told, where a token is handed out.
  get_appeal_access_lem :
      (id user_id : String) (w : World) {access : AppealAccess tokens.Token} {token : tokens.Token}
      → (get_appeal_access m tokens id user_id w).0 ≡ ok access
      → access.appeal_token ≡ some token
      → (r : Report) × (m.find_one (λ s. s.id == r.id) w.reports ≡ some r)
        × (str_eq (m.object_id_text r.target_user_id) user_id ≡ true)
        × (is_resolved r.status ≡ true)
        × (access.report_id ≡ m.object_id_text r.id)
        × (access.appeal_deadline ≡ r.appeal_deadline)
        × (token ≡ tokens.sign (appeal_scope user_id (m.object_id_text r.id)) w.now)
  unfolding get_appeal_access generate_appeal_token
  get_appeal_access_lem id user_id w {access} {token} done handed =
      elim (Option-cases (m.parse_object_id id)) [
        | inl e ↦ absurd (ground (arith, e, done))
        | inr (i, e) ↦ elim (Option-cases (m.find_one (λ r. r.id == i) w.reports)) [
          | inl d ↦ absurd (ground (arith, e, d, done))
          | inr (r, d) ↦
              let it : r.id ≡ i = (==_iff r.id i).0 (found m (λ r. r.id == i) w.reports d).0 in
              (
                r,
                ap (λ j. m.find_one (λ s. s.id == j) w.reports) it ∙ d,
                ground (arith, e, d, done, handed),
                ground (arith, e, d, done, handed),
                ground (arith, e, d, done, handed),
                ground (arith, e, d, done, handed),
                ground (arith, e, d, done, handed),
              )
        ]
      ]

  -- Where `getAppealAccess` hands out a token to a user, the report is one that the user may appeal
  -- against: as long as the token and the deadline that came with it last, and nothing but the clock
  -- has changed, `appeal` on the id of the answer, with the token in its header, takes the token and
  -- finds a report of the user's.
  pub get_appeal_access-find_appealed :
      (id user_id : String) (w : World) (now : ℕ) {access : AppealAccess tokens.Token}
      {token : tokens.Token}
      → (get_appeal_access m tokens id user_id w).0 ≡ ok access
      → access.appeal_token ≡ some token
      → w.now ≤ now
      → now < w.now + tokens.lifetime
      → is_over access.appeal_deadline now ≡ false
      → (report : Report) × ((find_appealed m tokens access.report_id
            (some (tokens.header token))
            (record w { now = now })).0
          ≡ ok (report, user_id))
        × Memᴰ report w.reports
        × (access.report_id ≡ m.object_id_text report.id)
  get_appeal_access-find_appealed id user_id w now {access} {token} done handed before after
        open_still =
      let (r, e, mine, resolved, same_id, same_deadline, same_token) =
        get_appeal_access_lem id user_id w done handed in
      let v = record w { now = now } in
      let parsed = m.parse-text r.id in
      let verified = verify_appeal_token_lem user_id (m.object_id_text r.id) w.now v before after in
      let open_now : is_over r.appeal_deadline now ≡ false = rw same_deadline at open_still in
      let checked = check_appealed_ok r.id user_id v e mine resolved open_now in
      (
        r,
        rw (same_id, same_token)
            (find_appealed_ok r.id user_id (m.object_id_text r.id)
              (some
                (tokens.header (tokens.sign (appeal_scope user_id (m.object_id_text r.id)) w.now)))
              v parsed verified checked),
        (found m (λ s. s.id == r.id) w.reports e).1,
        same_id,
      )
