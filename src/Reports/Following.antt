-- ===== src/Reports/Following.antt =====
-- Every operation on a report follows the machine of a report.
use learn_nest_js.Shared.{
  List, ℕ, ◌≡◌, ◌==◌, refl, arith, ap, String, Bool, true, false, Option, none, some, inl, inr,
  Memᴰ, ◌&&◌, suc,
}
use learn_nest_js.Shared.Errors.{Exception, ReportMessage}
use learn_nest_js.Shared.Action.{
  ok, or_raise, ◌>>=◌, with_transaction, try_catch, Result-cases, bind_ok, bind_err,
}
use learn_nest_js.Shared.Platform.{Platform}
use learn_nest_js.Shared.Documents.{Each, Each-refl, Each-trans, Each-update_all, update-Each_mem}
use learn_nest_js.Schemas.{User, UserRole, Report, ReportReason, ReportStatus, PenaltyAction}
use learn_nest_js.World.{World, Action}
use learn_nest_js.Users
use learn_nest_js.Reports.Penalty.{
  Resets, refuse, save, apply, apply_chosen, find_target, calculate_and_apply, penalise, chosen,
  strikes,
}
use learn_nest_js.Reports.Resolve.{
  decided, update_report, update_reports, write_decision, same_status,
}
use learn_nest_js.Reports.Lifecycle.{
  Steps, Later, Later-refl, Later-trans, decided-Later, same_status-eq,
}

-- An action that follows the machine from `w` on.
abbrev pub Follows : {A : Type 0} → Action A → World → Type 0
Follows n w = Each Later w.reports (n w).1.reports

module _ {A : Type 0} where
  pub kept-Follows : (n : Action A) (w : World) → (n w).1.reports ≡ w.reports → Follows n w
  kept-Follows n w kept = rw kept (Each-refl Later Later-refl w.reports)

  pub or_raise-Follows : (o : Option A) (x : Exception) (w : World) → Follows (or_raise o x) w
  or_raise-Follows none x w = Each-refl Later Later-refl w.reports
  or_raise-Follows (some a) x w = Each-refl Later Later-refl w.reports

  pub transaction-Follows :
      (n : Action A) (w : World) → Follows n w → Follows (with_transaction n) w
  transaction-Follows n w h = elim (Result-cases (n w).0) [
    | inl (x, e) ↦ rw (e, with_transaction) (Each-refl Later Later-refl w.reports)
    | inr (a, e) ↦ rw (e, with_transaction) h
  ]

  pub try_catch-Follows :
      (n : Action A) (handler : Exception → Action A) (w : World)
      → Follows n w
      → ((x : Exception) → Follows (handler x) (n w).1)
      → Follows (try_catch n handler) w
  try_catch-Follows n handler w h then_lem = elim (Result-cases (n w).0) [
    | inl (x, e) ↦
        rw (e, try_catch)
          (Each-trans Later Later-trans w.reports (n w).1.reports (handler x (n w).1).1.reports h
            (then_lem x))
    | inr (a, e) ↦ rw (e, try_catch) h
  ]

module _ {A B : Type 0} where
  pub bind-Follows :
      (n : Action A) (k : A → Action B) (w : World)
      → Follows n w
      → ((a : A) → (n w).0 ≡ ok a → Follows (k a) (n w).1)
      → Follows (n >>= k) w
  bind-Follows n k w h then_lem = elim (Result-cases (n w).0) [
    | inl (x, e) ↦ rw (bind_err n k e) h
    | inr (a, e) ↦ rw (bind_ok n k e) (
        Each-trans Later Later-trans w.reports (n w).1.reports (k a (n w).1).1.reports h
          (then_lem a e))
  ]

  -- A check that writes nothing comes first.
  pub check-Follows :
      (n : Action A) (k : A → Action B) (w : World)
      → (n w).1 ≡ w
      → ((a : A) → (n w).0 ≡ ok a → Follows (k a) w)
      → Follows (n >>= k) w
  check-Follows n k w kept h =
      bind-Follows n k w (kept-Follows n w (ap (λ v. v.reports) kept)) (λ a e. rw kept (h a e))

  pub or_raise_then-Follows :
      (o : Option A) (x : Exception) (k : A → Action B) (w : World)
      → ((a : A) → o ≡ some a → Follows (k a) w)
      → Follows (or_raise o x >>= k) w
  or_raise_then-Follows none x k w h = Each-refl Later Later-refl w.reports
  or_raise_then-Follows (some a) x k w h = h a refl

module _ (m : Platform) where
  pub update_report-Follows :
      (q : Report → Bool) (f : Report → Report) (w : World)
      → ((r : Report) → Memᴰ r w.reports → q r ≡ true → Later r (f r))
      → Follows (update_report m q f) w
  unfolding update_report
  update_report-Follows q f w h = update-Each_mem m q f w.reports Later Later-refl h

  pub update_reports-Follows :
      (q : Report → Bool) (f : Report → Report) (w : World)
      → ((r : Report) → q r ≡ true → Later r (f r))
      → Follows (update_reports m q f) w
  unfolding update_reports
  update_reports-Follows q f w h =
      rw (m.update_many_lem q f w.reports) (Each-update_all Later Later-refl q f h w.reports)

  pub write_decision-Follows :
      (report : Report) (status : ReportStatus) (admin : ℕ) (w : World)
      → Steps report.status status
      → Follows (write_decision m false report status admin) w
  unfolding write_decision
  write_decision-Follows report status admin w h =
      let q = λ (r : Report). r.id == report.id && same_status r.status report.status in
      let went = update_report-Follows q (decided status admin w.now) w (λ r here e.
        let same = same_status-eq r.status report.status (ground arith) in
        decided-Later status admin w.now r (rw same h)) in
      bind-Follows (update_report m q (decided status admin w.now))
        (λ o. or_raise o (refuse ReportMessage.report_already_resolved)) w went
        (λ o e.
          or_raise-Follows o (refuse ReportMessage.report_already_resolved)
            (update_report m q (decided status admin w.now) w).1)

  find_target_keeps :
      (target admin_id : String) (role : UserRole) (w : World)
      → (find_target m target admin_id role w).1 ≡ w
  unfolding find_target Users.find_one
  find_target_keeps target admin_id role w = ground arith

  apply_chosen_keeps :
      (c : Option (PenaltyAction × ℕ)) (r : Resets) (u : User) (w : World)
      → (apply_chosen m c r u w).1.reports ≡ w.reports
  unfolding apply save
  apply_chosen_keeps none r u w = refl
  apply_chosen_keeps (some (action, days)) r u w = ground arith

  pub calculate_and_apply_keeps :
      (committed : List Report) (target : String) (reason : ReportReason) (admin_id : String)
      (by : UserRole) (action : Option PenaltyAction) (days : Option ℕ) (r : Resets) (w : World)
      → (calculate_and_apply m committed target reason admin_id by action days r w).1.reports
        ≡ w.reports
  unfolding calculate_and_apply
  calculate_and_apply_keeps committed target reason admin_id by action days r w =
      let kept = find_target_keeps target admin_id by w in
      elim (Result-cases (find_target m target admin_id by w).0) [
        | inl (x, e) ↦
            rw
              (bind_err (find_target m target admin_id by)
                (penalise m committed reason action days r) e)
              (ap (λ v. v.reports) kept)
        | inr (u, e) ↦
            let c = chosen action days reason (suc (strikes m committed u.id reason)) in
            rw
              (bind_ok (find_target m target admin_id by)
                (penalise m committed reason action days r) e)
              (rw kept (apply_chosen_keeps c r u w))
      ]
