-- ===== src/Reports/Announcing.antt =====
-- What follows the commit of a decision: it never throws, and it writes no report.
use learn_nest_js.Shared.{ℕ, ◌≡◌, refl, arith, String, Option, none, some, inl, inr, Bool-cases}
use learn_nest_js.Shared.Action.{ok, ◌>>=◌, ◌>>◌, pure, bind_ok}
use learn_nest_js.Shared.Platform.{Platform}
use learn_nest_js.Schemas.{Report, ReportStatus, PenaltyType}
use learn_nest_js.World.{World, Action, is_later, user_muted, user_banned}
use learn_nest_js.Sessions.Service.{revoke_all_with_cleanup, revoke_all, add_revoke_all_job}
use learn_nest_js.CleanupJobs.Create.{try_cleanup_job, create_cleanup_job, insert_job}
use learn_nest_js.Reports.Penalty.{Penalty}
use learn_nest_js.Reports.Resolve.{
  announce, announce_ban, announce_unmute, announce_penalty, notify, emit_if_later, emit,
}

-- An action that ends well in `w` and keeps the reports.
abbrev pub IsQuiet : {A : Type 0} → Action A → A → World → Type 0
IsQuiet n a w = ((n w).0 ≡ ok a) × ((n w).1.reports ≡ w.reports)

then-IsQuiet :
    {A B : Type 0} (n : Action A) (k : A → Action B) (a : A) (b : B) (w : World)
    → IsQuiet n a w
    → ((v : World) → IsQuiet (k a) b v)
    → IsQuiet (n >>= k) b w
then-IsQuiet n k a b w (e, kept) h =
    let (f, same) = h (n w).1 in rw (bind_ok n k e) (f, cc (same, kept))

module _ (m : Platform) where
  pub revoke_all-IsQuiet : (id : String) (w : World) → IsQuiet (revoke_all_with_cleanup m id) tt w
  unfolding revoke_all_with_cleanup revoke_all add_revoke_all_job try_cleanup_job create_cleanup_job
      insert_job
  revoke_all-IsQuiet id w = ground arith

  emit_if_later-IsQuiet :
      (o : Option ℕ) (act : ℕ → Action (Unit {0})) (w : World)
      → ((date : ℕ) (v : World) → IsQuiet (act date) tt v)
      → IsQuiet (emit_if_later o act) tt w
  emit_if_later-IsQuiet none act w h = (refl, refl)
  emit_if_later-IsQuiet (some date) act w h = elim (Bool-cases (is_later (some date) w.now)) [
    | inl e ↦ rw e (h date w)
    | inr e ↦ rw e (refl, refl)
  ]

  announce_ban-IsQuiet :
      (target : String) (until : ℕ) (w : World) → IsQuiet (announce_ban m target until) tt w
  announce_ban-IsQuiet target until w =
      then-IsQuiet (revoke_all_with_cleanup m target) (λ u. emit (user_banned target until)) tt tt w
        (revoke_all-IsQuiet target w) (λ v. (refl, refl))

  announce_unmute-IsQuiet :
      (target : String) (kind : Option PenaltyType) (w : World)
      → IsQuiet (announce_unmute m target kind) tt w
  announce_unmute-IsQuiet target none w = (refl, refl)
  announce_unmute-IsQuiet target (some PenaltyType.warning) w = (refl, refl)
  announce_unmute-IsQuiet target (some PenaltyType.mute) w = (refl, refl)
  announce_unmute-IsQuiet target (some PenaltyType.ban) w = (refl, refl)

  announce_penalty-IsQuiet :
      (target : String) (status : ReportStatus) (final : Report) (penalty : Penalty) (w : World)
      → IsQuiet (announce_penalty m target status final penalty) tt w
  announce_penalty-IsQuiet target ReportStatus.resolved final penalty w =
      then-IsQuiet (emit_if_later penalty.ban_until (announce_ban m target))
        (λ u. emit_if_later penalty.mute_until (λ until. emit (user_muted target until))) tt tt w
        (emit_if_later-IsQuiet penalty.ban_until (announce_ban m target) w
          (announce_ban-IsQuiet target))
        (λ v.
          emit_if_later-IsQuiet penalty.mute_until (λ until. emit (user_muted target until)) v
            (λ until x. (refl, refl)))
  announce_penalty-IsQuiet target ReportStatus.appeal_success final penalty w =
      announce_unmute-IsQuiet target final.penalty_type w
  announce_penalty-IsQuiet target ReportStatus.pending final penalty w = (refl, refl)
  announce_penalty-IsQuiet target ReportStatus.resolving final penalty w = (refl, refl)
  announce_penalty-IsQuiet target ReportStatus.dismissed final penalty w = (refl, refl)
  announce_penalty-IsQuiet target ReportStatus.appeal_pending final penalty w = (refl, refl)
  announce_penalty-IsQuiet target ReportStatus.appeal_rejected final penalty w = (refl, refl)

  notify-IsQuiet :
      (target id : String) (status : ReportStatus) (w : World)
      → IsQuiet (notify m target id status) tt w
  notify-IsQuiet target id ReportStatus.dismissed w = (refl, refl)
  notify-IsQuiet target id ReportStatus.resolved w = (refl, refl)
  notify-IsQuiet target id ReportStatus.appeal_success w = (refl, refl)
  notify-IsQuiet target id ReportStatus.pending w = (refl, refl)
  notify-IsQuiet target id ReportStatus.resolving w = (refl, refl)
  notify-IsQuiet target id ReportStatus.appeal_pending w = (refl, refl)
  notify-IsQuiet target id ReportStatus.appeal_rejected w = (refl, refl)

  pub announce-IsQuiet :
      (report : Report) (status : ReportStatus) (final : Report) (penalty : Penalty) (w : World)
      → IsQuiet (announce m report status (final, penalty)) final w
  unfolding announce
  announce-IsQuiet report status final penalty w =
      let target = m.object_id_text report.target_user_id in
      let id = m.object_id_text final.id in
      then-IsQuiet (announce_penalty m target status final penalty)
        (λ u. notify m target id status >> pure final) tt final w
        (announce_penalty-IsQuiet target status final penalty w)
        (λ v.
          then-IsQuiet (notify m target id status) (λ u. pure final) tt final v
            (notify-IsQuiet target id status v) (λ x. (refl, refl)))
