-- ===== src/Reports/Pardoning.antt =====
-- `unban`, `unmute` and `clearStrike` follow the machine.
use learn_nest_js.Shared.{
  ℕ, ◌≡◌, ◌==◌, ==_iff, refl, sym, arith, String, true, Option, none, some, Memᴰ, ◌&&◌,
}
use learn_nest_js.Shared.Action.{◌>>◌, pure}
use learn_nest_js.Shared.Platform.{Platform}
use learn_nest_js.Shared.Documents.{Each-refl}
use learn_nest_js.Shared.Counting.{the_only}
use learn_nest_js.Schemas.{User, UserRole, Report, ReportStatus}
use learn_nest_js.World.{World, Action, user_unmuted}
use learn_nest_js.Users
use learn_nest_js.Reports.Penalty.{save, is_resolved}
use learn_nest_js.Reports.Resolve.{Passwords, update_report, verify_admin_password, emit}
use learn_nest_js.Reports.Admin.{
  withdrawn, withdraw, withdraw_newest, check_pardon, save_pardon, unban, save_unmuted, unmute,
  drop_strike, clear_strike, rank,
}
use learn_nest_js.Reports.Lifecycle.{is_withdrawn, one, Later, Later-refl, Unique}
use learn_nest_js.Reports.Following.{Follows, bind-Follows, check-Follows, update_report-Follows}

pub resolved-eq : (s : ReportStatus) → is_resolved s ≡ true → s ≡ ReportStatus.resolved
resolved-eq ReportStatus.resolved e = refl
resolved-eq s e = ground arith

module _ (m : Platform) where
  -- A change of the stored report that has the id of one that was read.
  pub by_id-Follows :
      (report : Report) (f : Report → Report) (w : World)
      → Unique w.reports
      → Memᴰ report w.reports
      → Later report (f report)
      → Follows (update_report m (λ r. r.id == report.id) f) w
  by_id-Follows report f w unique here h =
      update_report-Follows m (λ r. r.id == report.id) f w
        (λ r there e.
          let it : report ≡ r =
            the_only (λ z. z.id == report.id) w.reports (unique report.id) here there
              ((==_iff report.id report.id).1 refl) e in
          rw (sym it) h)

  module _ (passwords : Passwords) where
    withdraw-Follows :
        (o : Option Report) (w : World)
        → Unique w.reports
        → ((r : Report) → o ≡ some r → Memᴰ r w.reports × (is_resolved r.status ≡ true))
        → Follows (withdraw m passwords o) w
    unfolding update_report
    withdraw-Follows none w unique h = Each-refl Later Later-refl w.reports
    withdraw-Follows (some report) w unique h =
        let (here, resolved) = h report refl in
        by_id-Follows report withdrawn w unique here (record {
          same_id = refl;
          same_reporter = refl;
          same_target = refl;
          same_grounds = refl;
          steps = rw (resolved-eq report.status resolved) (one is_withdrawn);
        })

    withdraw_newest-Follows :
        (target : ℕ) (w : World) → Unique w.reports → Follows (withdraw_newest m passwords target) w
    unfolding withdraw_newest
    withdraw_newest-Follows target w unique =
        let q = λ (r : Report). r.target_user_id == target && is_resolved r.status in
        withdraw-Follows (m.find_greatest q (λ r. rank r.resolved_at) w.reports) w unique (λ r e.
          let (matches, here, _) =
            rw e at (m.find_greatest_lem q (λ r. rank r.resolved_at) w.reports) in
          (here, ground arith))

    check_pardon_keeps :
        (target_id admin_id : String) (by : UserRole) (raw : String) (w : World)
        → (check_pardon m passwords target_id admin_id by raw w).1 ≡ w
    unfolding check_pardon verify_admin_password Users.find_one
    check_pardon_keeps target_id admin_id by raw w = ground arith

    save_pardon-Follows :
        (pardon : User → User) (target : User) (w : World)
        → Unique w.reports
        → Follows (save_pardon m passwords pardon target) w
    unfolding save_pardon save
    save_pardon-Follows pardon target w unique =
        let v = (save m target.id (pardon target) w).1 in
        bind-Follows (withdraw_newest m passwords target.id) (λ u. pure (pardon target)) v
          (withdraw_newest-Follows target.id v unique)
          (λ u e. Each-refl Later Later-refl (withdraw_newest m passwords target.id v).1.reports)

    pub unban-Follows :
        (target_id admin_id : String) (by : UserRole) (raw : String) (w : World)
        → Unique w.reports
        → Follows (unban m passwords target_id admin_id by raw) w
    unfolding unban
    unban-Follows target_id admin_id by raw w unique =
        let pardon = λ (u : User). record u { ban_until = none } in
        check-Follows (check_pardon m passwords target_id admin_id by raw)
          (save_pardon m passwords pardon) w (check_pardon_keeps target_id admin_id by raw w)
          (λ u e. save_pardon-Follows pardon u w unique)

    pub unmute-Follows :
        (target_id admin_id : String) (by : UserRole) (raw : String) (w : World)
        → Unique w.reports
        → Follows (unmute m passwords target_id admin_id by raw) w
    unfolding unmute save_unmuted
    unmute-Follows target_id admin_id by raw w unique =
        let pardon = λ (u : User). record u { mute_until = none } in
        let tell : User → Action User = λ u. emit (user_unmuted target_id) >> pure u in
        check-Follows (check_pardon m passwords target_id admin_id by raw)
          (save_unmuted m passwords target_id) w (check_pardon_keeps target_id admin_id by raw w)
          (λ u e.
            bind-Follows (save_pardon m passwords pardon u) tell w
              (save_pardon-Follows pardon u w unique)
              (λ x d. Each-refl Later Later-refl (save_pardon m passwords pardon u w).1.reports))

    pub clear_strike-Follows :
        (target_id admin_id : String) (by : UserRole) (raw : String) (w : World)
        → Unique w.reports
        → Follows (clear_strike m passwords target_id admin_id by raw) w
    unfolding clear_strike drop_strike
    clear_strike-Follows target_id admin_id by raw w unique =
        check-Follows (check_pardon m passwords target_id admin_id by raw) (drop_strike m passwords)
          w (check_pardon_keeps target_id admin_id by raw w)
          (λ u e.
            bind-Follows (withdraw_newest m passwords u.id) (λ t. pure u) w
              (withdraw_newest-Follows u.id w unique)
              (λ t d. Each-refl Later Later-refl (withdraw_newest m passwords u.id w).1.reports))
