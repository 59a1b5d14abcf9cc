-- ===== src/Sessions/Tests.antt =====
-- Runs of the session service on the list platform, and instances of the theorems.
use learn_nest_js.Shared.{
  ℕ, Bool, true, false, ◌≡◌, ◌⊎◌, ◌&&◌, ◌==◌, not, refl, arith, none, some, [], ◌∷◌, count,
}
use learn_nest_js.Shared.Action.{ok}
use learn_nest_js.Shared.Documents.{Each}
use learn_nest_js.Shared.ListPlatform.{list_platform}
use learn_nest_js.Schemas.{Session, session_revoke, session_revoke_all}
use learn_nest_js.Samples.{empty_world}
use learn_nest_js.World.{World}
use learn_nest_js.CleanupJobs.Dispatcher.{handle_session_revoke_all}
use learn_nest_js.Sessions.Service.{
  create, rotate, revoke, revoke_all, find_by_user, revoke_with_cleanup,
  revoke_all_except_with_cleanup,
}
use learn_nest_js.Sessions.Deferral.{IsDeferred, for_user, for_session}
use learn_nest_js.Sessions.Revoking.{revoke_with_cleanup_lem, revoke_all_except-IsDeferred}

opened : Unit {0}
unfolding create rotate revoke revoke_all find_by_user revoke_with_cleanup
opened = tt

abbrev of_user : ℕ → ℕ → Session
of_user id user = record {
  id = id;
  user_id = user;
  device_id = "phone";
  refresh_token_hash = none;
  expires_at = some 9000;
  last_used_at = none;
  is_revoked = false;
  revoked_at = none;
}

abbrev start : Bool → World
start down = record empty_world {
  sessions = of_user 1 0 ∷ of_user 2 0 ∷ [];
  sessions_down = down;
  now = 1000;
  created = 3;
}

-- A revoked session is not rotated.
not_rotated :
    (rotate list_platform "aa" "hash" 10000 (revoke list_platform "aa" "a" (start false)).1).1
    ≡ (revoke list_platform "aa" "a" (start false)).1
unfolding opened
not_rotated = refl

revoke_with_cleanup_lem_example :
    ((revoke_with_cleanup list_platform "aa" "a" (start true)).0 ≡ ok tt)
    × (((true ≡ false)
          × (count
                (λ s. s.id == 1 && s.user_id == 0 && not s.is_revoked)
                (revoke_with_cleanup list_platform "aa" "a" (start true)).1.sessions
              ≡ 0))
        ⊎ ((true ≡ true)
            × IsDeferred session_revoke
                (for_session "a" "aa")
                (revoke_with_cleanup list_platform "aa" "a" (start true)).1))
revoke_with_cleanup_lem_example =
    revoke_with_cleanup_lem list_platform "aa" "a" 1 0 (start true) refl refl refl refl
      (omega arith)

revoke_all_except-IsDeferred_example :
    IsDeferred session_revoke_all
      (for_user "a")
      (revoke_all_except_with_cleanup list_platform "a" "aa" (start true)).1
    × Each
        (λ s t. (s.user_id ≡ 0 → t.is_revoked ≡ true))
        (start false).sessions
        (handle_session_revoke_all list_platform (for_user "a") (start false)).1.sessions
revoke_all_except-IsDeferred_example =
    revoke_all_except-IsDeferred list_platform "a" "aa" 0 1 (start true) (start false) refl refl
      refl refl refl refl
