-- ===== src/Reports/Lifecycle.antt =====
-- The machine that a report runs through.
use learn_nest_js.Shared.{
  ℕ, ◌≡◌, ◌≤◌, ◌==◌, refl, arith, Bool, true, false, none, List, [], ◌∷◌, count,
}
use learn_nest_js.Shared.Documents.{Each}
use learn_nest_js.Schemas.{Report, ReportStatus}
use learn_nest_js.Reports.Resolve.{check_statuses, decided, same_status}

pub data Step : ReportStatus → ReportStatus → Type 0 where
  is_resolved : Step ReportStatus.pending ReportStatus.resolved
  is_dismissed : Step ReportStatus.pending ReportStatus.dismissed
  is_withdrawn : Step ReportStatus.resolved ReportStatus.dismissed
  is_appealed : Step ReportStatus.resolved ReportStatus.appeal_pending
  is_rejected : Step ReportStatus.appeal_pending ReportStatus.appeal_rejected
  is_acquitted : Step ReportStatus.appeal_pending ReportStatus.appeal_success

pub data Steps : ReportStatus → ReportStatus → Type 0 where
  stays : {s : ReportStatus} → Steps s s
  goes : {s t u : ReportStatus} → Step s t → Steps t u → Steps s u

pub Steps-trans : {s t u : ReportStatus} → Steps s t → Steps t u → Steps s u
Steps-trans stays k = k
Steps-trans (goes e h) k = goes e (Steps-trans h k)

pub one : {s t : ReportStatus} → Step s t → Steps s t
one e = goes e stays

-- A report that nothing can follow.
abbrev pub is_closed : ReportStatus → Bool
is_closed ReportStatus.dismissed = true
is_closed ReportStatus.appeal_rejected = true
is_closed ReportStatus.appeal_success = true
is_closed _ = false

Step-open : {s t : ReportStatus} → Step s t → is_closed s ≡ true → ⊥
Step-open is_resolved e = ground arith
Step-open is_dismissed e = ground arith
Step-open is_withdrawn e = ground arith
Step-open is_appealed e = ground arith
Step-open is_rejected e = ground arith
Step-open is_acquitted e = ground arith

pub Steps-closed : {s t : ReportStatus} → Steps s t → is_closed s ≡ true → t ≡ s
Steps-closed stays e = refl
Steps-closed (goes h k) e = absurd (Step-open h e)

-- `b` is what became of `a`: the same report, further on in the machine.
pub record Later (a b : Report) : Type 0 where
  pub same_id : b.id ≡ a.id
  pub same_reporter : b.reporter_id ≡ a.reporter_id
  pub same_target : b.target_user_id ≡ a.target_user_id
  pub same_grounds : b.reason ≡ a.reason
  pub steps : Steps a.status b.status

pub Later-refl : (a : Report) → Later a a
Later-refl a = record {
  same_id = refl;
  same_reporter = refl;
  same_target = refl;
  same_grounds = refl;
  steps = stays;
}

pub Later-trans : (a b c : Report) → Later a b → Later b c → Later a c
Later-trans a b c h k = record {
  same_id = grind (arith, h.same_id, k.same_id);
  same_reporter = grind (arith, h.same_reporter, k.same_reporter);
  same_target = grind (arith, h.same_target, k.same_target);
  same_grounds = cc (h.same_grounds, k.same_grounds);
  steps = Steps-trans h.steps k.steps;
}

-- A decision that is not refused is a step.
pub check_statuses-Step : (s t : ReportStatus) → check_statuses s t ≡ none → Step s t
unfolding check_statuses
check_statuses-Step ReportStatus.pending ReportStatus.resolved e = is_resolved
check_statuses-Step ReportStatus.pending ReportStatus.dismissed e = is_dismissed
check_statuses-Step ReportStatus.appeal_pending ReportStatus.appeal_rejected e = is_rejected
check_statuses-Step ReportStatus.appeal_pending ReportStatus.appeal_success e = is_acquitted
check_statuses-Step s t e = ground arith

pub same_status-eq : (s t : ReportStatus) → same_status s t ≡ true → s ≡ t
same_status-eq ReportStatus.pending ReportStatus.pending e = refl
same_status-eq ReportStatus.resolving ReportStatus.resolving e = refl
same_status-eq ReportStatus.resolved ReportStatus.resolved e = refl
same_status-eq ReportStatus.dismissed ReportStatus.dismissed e = refl
same_status-eq ReportStatus.appeal_pending ReportStatus.appeal_pending e = refl
same_status-eq ReportStatus.appeal_rejected ReportStatus.appeal_rejected e = refl
same_status-eq ReportStatus.appeal_success ReportStatus.appeal_success e = refl
same_status-eq s t e = ground arith

pub decided-Later :
    (s : ReportStatus) (admin now : ℕ) (r : Report)
    → Steps r.status s
    → Later r (decided s admin now r)
decided-Later s admin now r h = record {
  same_id = refl;
  same_reporter = refl;
  same_target = refl;
  same_grounds = refl;
  steps = h;
}

-- Every id is that of one report at most.
abbrev pub Unique : List Report → Type 0
Unique docs = (i : ℕ) → count (λ r. r.id == i) docs ≤ 1

Each-count :
    (xs ys : List Report) (i : ℕ)
    → Each Later xs ys
    → count (λ r. r.id == i) ys ≡ count (λ r. r.id == i) xs
Each-count [] [] i h = refl
Each-count [] (y ∷ ys) i h = absurd h
Each-count (x ∷ xs) [] i h = absurd h
Each-count (x ∷ xs) (y ∷ ys) i (r, h) =
    let same = r.same_id in let rest = Each-count xs ys i h in rw same (ground (arith, rest))

pub Unique-kept : (xs ys : List Report) → Each Later xs ys → Unique xs → Unique ys
Unique-kept xs ys h unique i = rw (Each-count xs ys i h) (unique i)
