-- ===== src/Reports/Escalation.antt =====
-- Further strikes for the same reason are never met with less.
use learn_nest_js.Shared.{ℕ, ◌+◌, ◌*◌, ◌≤◌, arith, Option, none, some}
use learn_nest_js.Schemas.{
  ReportReason, PenaltyAction, spam_harassment, inappropriate_content, impersonation, system_spam,
  other,
}
use learn_nest_js.Reports.Penalty.{Rule, rule_for, penalty_rules}

-- How hard a rule is: a ban is harder than a mute, that than a warning; then the days count.
abbrev pub rank : PenaltyAction → ℕ
rank PenaltyAction.warning = 0
rank PenaltyAction.reset_and_warning = 0
rank PenaltyAction.mute = 1
rank PenaltyAction.reset_and_ban = 2
rank PenaltyAction.ban = 2

abbrev pub hardness : Option Rule → ℕ
hardness none = 0
hardness (some r) = rank r.action * 100000 + r.duration_days

-- From the first strike on, the penalty for a later strike for the same reason is as hard as that
-- for an earlier one, or harder.
pub rule_for-monotone :
    (reason : ReportReason) (s t : ℕ)
    → 1 ≤ s
    → s ≤ t
    → hardness (rule_for reason s) ≤ hardness (rule_for reason t)
unfolding rule_for penalty_rules
rule_for-monotone spam_harassment s t low h = ground arith
rule_for-monotone inappropriate_content s t low h = ground arith
rule_for-monotone impersonation s t low h = ground arith
rule_for-monotone system_spam s t low h = omega arith
rule_for-monotone other s t low h = omega arith
