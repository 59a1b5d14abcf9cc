-- ===== src/Reports/Penalty.antt =====
-- report-penalty.service.ts and constants/penalty.constant.ts. The texts that are shown to the
-- administrator are left out.
use learn_nest_js.Shared.{
  ℕ, suc, ◌+◌, ◌*◌, String, Bool, true, false, ◌&&◌, ◌||◌, ◌==◌, str_eq, ltb, Option, none, some,
  List, [], ◌∷◌, find?, if◌then◌else◌,
}
use learn_nest_js.Shared.Errors.{Exception, bad_request, forbidden, of_report, ReportMessage}
use learn_nest_js.Shared.Action.{ok, or_raise, raise_if, gets, pure, ◌>>=◌, ◌>>◌}
use learn_nest_js.Shared.Platform.{Platform}
use learn_nest_js.Schemas.{
  Report, User, UserRole, ReportReason, ReportStatus, PenaltyAction, PenaltyType, spam_harassment,
  inappropriate_content, impersonation, system_spam, other,
}
use learn_nest_js.World.{World, Action}
use learn_nest_js.Users

pub record Rule : Type 0 where
  pub strike : ℕ
  pub action : PenaltyAction
  pub duration_days : ℕ

abbrev pub rule : ℕ → PenaltyAction → ℕ → Rule
rule strike action days = record { strike = strike; action = action; duration_days = days }

-- PENALTY_RULES
unfoldable pub penalty_rules : ReportReason → List Rule
penalty_rules spam_harassment =
    rule 1 PenaltyAction.mute 1
    ∷ rule 2 PenaltyAction.mute 7
    ∷ rule 3 PenaltyAction.mute 30
    ∷ rule 4 PenaltyAction.ban 36500
    ∷ []
penalty_rules inappropriate_content =
    rule 1 PenaltyAction.reset_and_warning 0
    ∷ rule 2 PenaltyAction.reset_and_ban 7
    ∷ rule 3 PenaltyAction.reset_and_ban 30
    ∷ rule 4 PenaltyAction.reset_and_ban 36500
    ∷ []
penalty_rules impersonation = rule 1 PenaltyAction.reset_and_ban 36500 ∷ []
penalty_rules system_spam = []
penalty_rules other = []

-- `rules[rules.length - 1]`
abbrev pub last : List Rule → Option Rule
last [] = none
last (r ∷ []) = some r
last (r ∷ s ∷ rest) = last (s ∷ rest)

abbrev pub or_last : Option Rule → List Rule → Option Rule
or_last none rules = last rules
or_last (some r) rules = some r

-- The rule for a strike: its own, or the last.
unfoldable pub rule_for : ReportReason → ℕ → Option Rule
rule_for reason strike =
    or_last (find? (λ (r : Rule). r.strike == strike) (penalty_rules reason)) (penalty_rules reason)

abbrev pub is_ban : PenaltyAction → Bool
is_ban PenaltyAction.ban = true
is_ban PenaltyAction.reset_and_ban = true
is_ban _ = false

abbrev pub is_mute : PenaltyAction → Bool
is_mute PenaltyAction.mute = true
is_mute _ = false

abbrev pub day_ms : ℕ
day_ms = 86400000

-- `proposedUntil < current`, where `current` is a penalty that still runs.
abbrev pub is_reduced : Option ℕ → ℕ → ℕ → Bool
is_reduced none now proposed = false
is_reduced (some current) now proposed = ltb now current && ltb proposed current

-- The test of `ensurePenaltyIsNotReduced`
unfoldable pub reduces : User → PenaltyAction → ℕ → ℕ → Bool
reduces u action days now =
    if is_mute action
    then is_reduced u.mute_until now (now + days * day_ms)
    else if is_ban action
    then is_reduced u.ban_until now (now + days * day_ms)
    else false

-- `resetAvatar`, `resetBio` and `resetName`, and the name that is drawn for the last.
pub record Resets : Type 0 where
  pub avatar : Bool
  pub bio : Bool
  pub name : Bool
  pub drawn_name : String

abbrev pub is_specific : Resets → Bool
is_specific r = r.avatar || r.bio || r.name

unfoldable pub reset : Resets → User → User
reset r u = record u {
  avatar = if r.avatar then none else u.avatar;
  bio = if r.bio then none else u.bio;
  name = if r.name then some r.drawn_name else u.name;
}

-- What is reset where the action is a reset by itself.
unfoldable pub reset_or_default : Resets → User → User
reset_or_default r u = if is_specific r then reset r u else record u { avatar = none; bio = none }

abbrev pub banned : ℕ → User → User
banned until u = record u { ban_until = some until; token_version = suc u.token_version }

-- The branches on `actionToApply`.
unfoldable pub penalised : PenaltyAction → Resets → ℕ → User → User
penalised PenaltyAction.warning r until u = u
penalised PenaltyAction.mute r until u = record u { mute_until = some until }
penalised PenaltyAction.reset_and_warning r until u = reset_or_default r u
penalised PenaltyAction.reset_and_ban r until u = banned until (reset_or_default r u)
penalised PenaltyAction.ban r until u = banned until (reset r u)

abbrev pub penalty_type : PenaltyAction → PenaltyType
penalty_type PenaltyAction.warning = PenaltyType.warning
penalty_type PenaltyAction.mute = PenaltyType.mute
penalty_type PenaltyAction.reset_and_warning = PenaltyType.warning
penalty_type PenaltyAction.reset_and_ban = PenaltyType.ban
penalty_type PenaltyAction.ban = PenaltyType.ban

pub record Penalty : Type 0 where
  pub kind : Option PenaltyType
  pub ban_until : Option ℕ
  pub mute_until : Option ℕ

abbrev pub refuse : ReportMessage → Exception
refuse message = bad_request (of_report message)

abbrev pub is_super_admin : UserRole → Bool
is_super_admin UserRole.super_admin = true
is_super_admin _ = false

abbrev pub is_admin : UserRole → Bool
is_admin UserRole.admin = true
is_admin _ = false

abbrev pub same_reason : ReportReason → ReportReason → Bool
same_reason spam_harassment spam_harassment = true
same_reason inappropriate_content inappropriate_content = true
same_reason impersonation impersonation = true
same_reason system_spam system_spam = true
same_reason other other = true
same_reason _ _ = false

abbrev pub is_resolved : ReportStatus → Bool
is_resolved ReportStatus.resolved = true
is_resolved _ = false

-- `overrideDurationDays || 0`
abbrev pub days_or_zero : Option ℕ → ℕ
days_or_zero none = 0
days_or_zero (some days) = days

abbrev pub automatic : Option Rule → Option (PenaltyAction × ℕ)
automatic none = none
automatic (some r) = some (r.action, r.duration_days)

-- The action and its days: the administrator's, or the rule's.
abbrev pub chosen : Option PenaltyAction → Option ℕ → ReportReason → ℕ → Option (PenaltyAction × ℕ)
chosen (some action) days reason strike = some (action, days_or_zero days)
chosen none days reason strike = automatic (rule_for reason strike)

module _ (m : Platform) where
  -- The strikes among the reports that the count sees: it runs outside of the session of any transaction,
  -- so it sees those that are committed.
  abbrev pub strikes : List Report → ℕ → ReportReason → ℕ
  strikes committed target reason =
      m.count_documents
        (λ r. r.target_user_id == target && same_reason r.reason reason && is_resolved r.status)
        committed

  -- The refusals before the strikes are counted.
  unfoldable pub find_target : String → String → UserRole → Action User
  find_target target_id admin_id admin_role = do
    found ← Users.find_one m target_id
    target ← or_raise found (refuse ReportMessage.target_user_not_found)
    raise_if (is_super_admin target.role)
        (forbidden (of_report ReportMessage.cannot_penalize_super_admin))
    raise_if (is_admin admin_role && is_admin target.role)
        (forbidden (of_report ReportMessage.cannot_penalize_user))
    raise_if (str_eq admin_id target_id) (refuse ReportMessage.cannot_penalize_self)
    pure target

  -- `targetUser.save`, for the document that was loaded by its id and changed.
  unfoldable pub save : ℕ → User → Action (Unit {0})
  save i user w =
      (ok tt, record w { users = (m.find_one_and_update (λ u. u.id == i) (λ u. user) w.users).1 })

  unfoldable pub apply : PenaltyAction → ℕ → Resets → User → Action Penalty
  apply action days resets target = do
    now ← gets (λ w. w.now)
    raise_if (reduces target action days now) (refuse ReportMessage.cannot_reduce_penalty)
    let until : ℕ = now + days * day_ms
    let user : User = penalised action resets until target
    save target.id user
    pure (record {
      kind = some (penalty_type action);
      ban_until = user.ban_until;
      mute_until = if is_mute action then some until else none;
    })

  abbrev pub apply_chosen : Option (PenaltyAction × ℕ) → Resets → User → Action Penalty
  apply_chosen none resets target =
      pure (record { kind = none; ban_until = none; mute_until = none })
  apply_chosen (some (action, days)) resets target = apply action days resets target

  abbrev pub penalise :
      List Report → ReportReason → Option PenaltyAction → Option ℕ → Resets → User → Action Penalty
  penalise committed reason action days resets target =
      apply_chosen (chosen action days reason (suc (strikes committed target.id reason))) resets
        target

  -- `calculateAndApplyPenalty`
  unfoldable pub calculate_and_apply :
      List Report
      → String
      → ReportReason
      → String
      → UserRole
      → Option PenaltyAction
      → Option ℕ
      → Resets
      → Action Penalty
  calculate_and_apply committed target_id reason admin_id admin_role action days resets =
      find_target target_id admin_id admin_role >>= penalise committed reason action days resets

  -- `calculatePenaltyInfo`
  unfoldable pub calculate_info : ℕ → ReportReason → World → Option (PenaltyAction × ℕ) × ℕ
  calculate_info target reason w =
      let strike = suc (strikes w.reports target reason) in
      (automatic (rule_for reason strike), strike)
