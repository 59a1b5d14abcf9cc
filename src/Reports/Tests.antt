-- ===== src/Reports/Tests.antt =====
-- Runs of the penalties on the list platform, and instances of the theorems.
use learn_nest_js.Shared.{
  ℕ, suc, ◌+◌, ◌*◌, ◌≤◌, ◌≡◌, refl, arith, false, none, some, [], ◌∷◌, Memᴰ, map,
}
use learn_nest_js.Shared.Documents.{Each}
use learn_nest_js.Shared.ListPlatform.{list_platform}
use learn_nest_js.Schemas.{
  User, UserRole, Report, ReportStatus, PenaltyAction, PenaltyType, spam_harassment,
}
use learn_nest_js.Samples.{empty_world, sample_user}
use learn_nest_js.World.{World}
use learn_nest_js.Users
use learn_nest_js.Reports.Penalty.{
  Resets, Penalty, chosen, strikes, day_ms, calculate_and_apply, find_target, save, apply,
  penalised, reset, reset_or_default, reduces, rule_for, penalty_rules,
}
use learn_nest_js.Reports.Escalation.{hardness, rule_for-monotone}
use learn_nest_js.Reports.Severity.{Penalised}
use learn_nest_js.Reports.Application.{calculate_and_apply-Penalised, calculate_and_apply-bans}

opened : Unit {0}
unfolding calculate_and_apply find_target save apply penalised reset reset_or_default reduces
    rule_for penalty_rules Users.find_one
opened = tt

abbrev person : ℕ → UserRole → User
person id role = (record (sample_user id) {
  name = some "someone";
  bio = some "something";
  avatar = some 7;
  role = role;
  token_version = 4;
  mute_until = some 9000;
})

abbrev spam : Report
spam = record {
  id = 5;
  reporter_id = 2;
  target_user_id = 1;
  reason = spam_harassment;
  evidence_media_ids = [];
  snapshot = none;
  status = ReportStatus.resolved;
  resolved_by = some 0;
  resolved_at = some 500;
  appeal_deadline = none;
  appeal_review_deadline = none;
  appeal_evidence_media_ids = [];
  penalty_type = some PenaltyType.mute;
  created_at = 400;
}

abbrev start : World
start = record empty_world {
  users = person 0 UserRole.admin ∷ person 1 UserRole.user ∷ person 2 UserRole.super_admin ∷ [];
  reports = spam ∷ [];
  now = 1000;
  created = 3;
}

abbrev nothing : Resets
nothing = record { avatar = false; bio = false; name = false; drawn_name = "User_100000" }

-- The second strike for spam is a mute of seven days.
second_strike :
    map
      (λ (u : User). u.mute_until)
      (calculate_and_apply list_platform start.reports "aa" spam_harassment "a" UserRole.admin none
        none nothing start).1.users
    ≡ some 9000 ∷ some 604801000 ∷ some 9000 ∷ []
unfolding opened
second_strike = refl

rule_for-monotone_example :
    hardness (rule_for spam_harassment 3) ≤ hardness (rule_for spam_harassment 9)
rule_for-monotone_example = rule_for-monotone spam_harassment 3 9 (omega arith) (omega arith)

calculate_and_apply-Penalised_example :
    Each
      (Penalised UserRole.admin 1000)
      start.users
      (calculate_and_apply list_platform start.reports "aa" spam_harassment "a" UserRole.admin
        (some PenaltyAction.ban)
        (some 2)
        nothing
        start).1.users
calculate_and_apply-Penalised_example =
    calculate_and_apply-Penalised list_platform start.reports "aa" spam_harassment "a"
      UserRole.admin (some PenaltyAction.ban) (some 2) nothing start (λ i. ground arith)

abbrev two_days : Penalty
two_days = record { kind = some PenaltyType.ban; ban_until = some 172801000; mute_until = none }

calculate_and_apply-bans_example :
    (u : User) × Memᴰ u start.users
    × (list_platform.parse_object_id "aa" ≡ some u.id)
    × (taken : PenaltyAction) × (length : ℕ) × (v : User) × (chosen
          (some PenaltyAction.ban)
          (some 2)
          spam_harassment
          (suc (strikes list_platform start.reports u.id spam_harassment))
        ≡ some (taken, length))
    × Memᴰ v
        (calculate_and_apply list_platform start.reports "aa" spam_harassment "a" UserRole.admin
          (some PenaltyAction.ban)
          (some 2)
          nothing
          start).1.users
    × (v.id ≡ u.id)
    × (v.token_version ≡ suc u.token_version)
    × (v.ban_until ≡ some (1000 + length * day_ms))
    × (two_days.ban_until ≡ some (1000 + length * day_ms))
unfolding opened
calculate_and_apply-bans_example =
    calculate_and_apply-bans list_platform start.reports "aa" spam_harassment "a" UserRole.admin
      (some PenaltyAction.ban) (some 2) nothing start {p = two_days} refl refl
