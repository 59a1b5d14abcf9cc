-- ===== src/Reports/Severity.antt =====
-- That a penalty which is not refused takes nothing back.
use learn_nest_js.Shared.{
  ℕ, suc, ◌+◌, ◌*◌, ◌≤◌, ◌≡◌, ◌⊎◌, inl, inr, refl, arith, Bool, true, false, ◌&&◌, ltb, Option,
  none, some, if◌then◌else◌, Bool-cases,
}
use learn_nest_js.Schemas.{User, UserRole, PenaltyAction, PenaltyType}
use learn_nest_js.Reports.Penalty.{
  Resets, reset, reset_or_default, penalised, reduces, is_reduced, day_ms, penalty_type,
  is_super_admin, is_admin, is_ban, is_mute,
}

-- A penalty that runs at `now` still runs, as long or longer.
abbrev pub Stands : ℕ → Option ℕ → Option ℕ → Type 0
Stands now none after = Unit
Stands now (some date) none = date ≤ now
Stands now (some date) (some until) = (date ≤ now) ⊎ (date ≤ until)

pub Stands-refl : (now : ℕ) (o : Option ℕ) → Stands now o o
Stands-refl now none = tt
Stands-refl now (some date) = inr (omega arith)

pub record Penalised (by : UserRole) (now : ℕ) (u v : User) : Type 0 where
  pub same_id : v.id ≡ u.id
  pub same_role : v.role ≡ u.role
  pub version : u.token_version ≤ v.token_version
  pub ban_stands : Stands now u.ban_until v.ban_until
  pub mute_stands : Stands now u.mute_until v.mute_until
  pub super_admin_spared : is_super_admin u.role ≡ true → v ≡ u
  pub admin_spared : (is_admin by && is_admin u.role) ≡ true → v ≡ u

pub Penalised-refl : (by : UserRole) (now : ℕ) (u : User) → Penalised by now u u
Penalised-refl by now u = record {
  same_id = refl;
  same_role = refl;
  version = omega arith;
  ban_stands = Stands-refl now u.ban_until;
  mute_stands = Stands-refl now u.mute_until;
  super_admin_spared = λ e. refl;
  admin_spared = λ e. refl;
}

not_reduced-Stands :
    (now until : ℕ) (o : Option ℕ) → is_reduced o now until ≡ false → Stands now o (some until)
not_reduced-Stands now until none e = tt
not_reduced-Stands now until (some date) e = elim (Bool-cases (ltb now date)) [
  | inl h ↦ inr (ground arith)
  | inr h ↦ inl (ground arith)
]

pub penalised-fields :
    (action : PenaltyAction) (r : Resets) (until : ℕ) (u : User)
    → ((penalised action r until u).id ≡ u.id)
      × ((penalised action r until u).role ≡ u.role)
      × (u.token_version ≤ (penalised action r until u).token_version)
unfolding penalised reset reset_or_default
penalised-fields PenaltyAction.warning r until u = (refl, refl, omega arith)
penalised-fields PenaltyAction.mute r until u = (refl, refl, omega arith)
penalised-fields PenaltyAction.reset_and_warning r until u = ground arith
penalised-fields PenaltyAction.reset_and_ban r until u = ground arith
penalised-fields PenaltyAction.ban r until u = ground arith

penalised-dates :
    (action : PenaltyAction) (r : Resets) (until : ℕ) (u : User)
    → ((penalised action r until u).ban_until ≡ (if is_ban action then some until else u.ban_until))
      × ((penalised action r until u).mute_until
          ≡ (if is_mute action then some until else u.mute_until))
unfolding penalised reset reset_or_default
penalised-dates PenaltyAction.warning r until u = (refl, refl)
penalised-dates PenaltyAction.mute r until u = (refl, refl)
penalised-dates PenaltyAction.reset_and_warning r until u = ground arith
penalised-dates PenaltyAction.reset_and_ban r until u = ground arith
penalised-dates PenaltyAction.ban r until u = ground arith

dates-Stand :
    (action : PenaltyAction) (days now : ℕ) (u : User)
    → reduces u action days now ≡ false
    → Stands now u.ban_until (if is_ban action then some (now + days * day_ms) else u.ban_until)
      × Stands now u.mute_until
          (if is_mute action then some (now + days * day_ms) else u.mute_until)
unfolding reduces
dates-Stand PenaltyAction.warning days now u e =
    (Stands-refl now u.ban_until, Stands-refl now u.mute_until)
dates-Stand PenaltyAction.mute days now u e =
    (Stands-refl now u.ban_until, not_reduced-Stands now (now + days * day_ms) u.mute_until e)
dates-Stand PenaltyAction.reset_and_warning days now u e =
    (Stands-refl now u.ban_until, Stands-refl now u.mute_until)
dates-Stand PenaltyAction.reset_and_ban days now u e =
    (not_reduced-Stands now (now + days * day_ms) u.ban_until e, Stands-refl now u.mute_until)
dates-Stand PenaltyAction.ban days now u e =
    (not_reduced-Stands now (now + days * day_ms) u.ban_until e, Stands-refl now u.mute_until)

pub penalised-Penalised :
    (by : UserRole) (action : PenaltyAction) (r : Resets) (days now : ℕ) (u : User)
    → reduces u action days now ≡ false
    → is_super_admin u.role ≡ false
    → (is_admin by && is_admin u.role) ≡ false
    → Penalised by now u (penalised action r (now + days * day_ms) u)
penalised-Penalised by action r days now u e not_super not_admin =
    let (id, role, version) = penalised-fields action r (now + days * day_ms) u in
    let (ban, mute) = penalised-dates action r (now + days * day_ms) u in
    let (ban', mute') = dates-Stand action days now u e in
    record {
      same_id = id;
      same_role = role;
      version = version;
      ban_stands = rw ban ban';
      mute_stands = rw mute mute';
      super_admin_spared = λ k. absurd (clash k not_super);
      admin_spared = λ k. absurd (clash k not_admin);
    }
  where
    clash : {b : Bool} → b ≡ true → b ≡ false → ⊥
    clash e k = cc

pub ban-date :
    (action : PenaltyAction) (r : Resets) (until : ℕ) (u : User)
    → penalty_type action ≡ PenaltyType.ban
    → (penalised action r until u).ban_until ≡ some until
unfolding penalised reset reset_or_default
ban-date PenaltyAction.warning r until u e = absurd (ground (arith, e))
ban-date PenaltyAction.mute r until u e = absurd (ground (arith, e))
ban-date PenaltyAction.reset_and_warning r until u e = absurd (ground (arith, e))
ban-date PenaltyAction.reset_and_ban r until u e = ground arith
ban-date PenaltyAction.ban r until u e = ground arith

pub ban-version :
    (action : PenaltyAction) (r : Resets) (until : ℕ) (u : User)
    → penalty_type action ≡ PenaltyType.ban
    → (penalised action r until u).token_version ≡ suc u.token_version
unfolding penalised reset reset_or_default
ban-version PenaltyAction.warning r until u e = absurd (ground (arith, e))
ban-version PenaltyAction.mute r until u e = absurd (ground (arith, e))
ban-version PenaltyAction.reset_and_warning r until u e = absurd (ground (arith, e))
ban-version PenaltyAction.reset_and_ban r until u e = ground arith
ban-version PenaltyAction.ban r until u e = ground arith
