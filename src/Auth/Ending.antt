-- ===== src/Auth/Ending.antt =====
-- That no token outlives `logoutAllDevices`.
use learn_nest_js.Shared.{
  ℕ, suc, ◌≡◌, ◌≤◌, ◌==◌, ==_iff, refl, sym, arith, ap, ◌∙◌, String, some, inl, inr, Memᴰ, count,
  Option-cases, List,
}
use learn_nest_js.Shared.Errors.{Exception}
use learn_nest_js.Shared.Action.{ok, err, Result-cases, raise, try_catch, bind_ok, bind_err, ◌>>=◌}
use learn_nest_js.Shared.Platform.{Platform}
use learn_nest_js.Shared.Documents.{found, update_of_mem, update_hit}
use learn_nest_js.Shared.Counting.{the_only, count-update_same}
use learn_nest_js.Schemas.{User}
use learn_nest_js.World.{World, Action, all_sessions_revoked}
use learn_nest_js.Sessions.Service.{revoke_all_with_cleanup, revoke_all, add_revoke_all_job}
use learn_nest_js.CleanupJobs.Create.{try_cleanup_job, create_cleanup_job, insert_job}
use learn_nest_js.Users.{find_one}
use learn_nest_js.Reports.Penalty.{save}
use learn_nest_js.Reports.Resolve.{emit}
use learn_nest_js.Auth.Tokens.{Claims, TokenPair, RefreshTokens}
use learn_nest_js.Auth.Refresh.{refresh_token}
use learn_nest_js.Auth.Logout.{
  next_version, end_all, find_enabled, logout_all_devices, logout_all_failed,
}
use learn_nest_js.Auth.Granting.{refresh_token_inv}
use learn_nest_js.Auth.Replay.{some_inj}

reraise_keeps :
    {A : Type 0} (n : Action A) (w : World)
    → (try_catch n (λ e. raise logout_all_failed) w).1 ≡ (n w).1
reraise_keeps n w = elim (Result-cases (n w).0) [
  | inl (x, e) ↦ rw (e, try_catch) refl
  | inr (a, e) ↦ rw (e, try_catch) refl
]

module _ (m : Platform) where
  abbrev with_next : User → World → List User
  with_next u w = (m.find_one_and_update (λ d. d.id == u.id) (λ d. next_version u) w.users).1

  find_enabled_keeps : (id : String) (w : World) → (find_enabled m id w).1 ≡ w
  unfolding find_enabled find_one
  find_enabled_keeps id w = ground arith

  find_enabled_lem :
      (id : String) (w : World) {u : User}
      → (find_enabled m id w).0 ≡ ok u
      → Memᴰ u w.users × (m.parse_object_id id ≡ some u.id)
  unfolding find_enabled find_one
  find_enabled_lem id w {u} h = elim (Option-cases (m.parse_object_id id)) [
    | inl e ↦ absurd (ground (arith, e, h))
    | inr (i, e) ↦ elim (Option-cases (m.find_one (λ u. u.id == i) w.users)) [
      | inl d ↦ absurd (ground (arith, e, d, h))
      | inr (v, d) ↦
          let (mine, here) = found m (λ u. u.id == i) w.users d in
          let same : v ≡ u = ground (arith, e, d, h) in
          let it : v.id ≡ i = (==_iff v.id i).0 mine in (rw same at here, cc (e, it, same))
    ]
  ]

  revoke_all_keeps : (id : String) (w : World) → (revoke_all_with_cleanup m id w).1.users ≡ w.users
  unfolding revoke_all_with_cleanup revoke_all add_revoke_all_job try_cleanup_job create_cleanup_job
      insert_job
  revoke_all_keeps id w = ground arith

  revoke_all_ok : (id : String) (w : World) → (revoke_all_with_cleanup m id w).0 ≡ ok tt
  unfolding revoke_all_with_cleanup revoke_all add_revoke_all_job try_cleanup_job create_cleanup_job
      insert_job
  revoke_all_ok id w = ground arith

  end_all_writes : (id : String) (u : User) (w : World) → (end_all m id u w).1.users ≡ with_next u w
  unfolding end_all save
  end_all_writes id u w =
      let v = record w { users = with_next u w } in
      rw
        (bind_ok (revoke_all_with_cleanup m id) (λ t. emit (all_sessions_revoked id))
          (revoke_all_ok id v))
        (revoke_all_keeps id v)

  logout_all_devices_lem :
      (id : String) (w : World) {t : Unit {0}}
      → (logout_all_devices m id w).0 ≡ ok t
      → (u : User) × Memᴰ u w.users
        × (m.parse_object_id id ≡ some u.id)
        × ((logout_all_devices m id w).1.users ≡ with_next u w)
  unfolding logout_all_devices
  logout_all_devices_lem id w {t} h = elim (Result-cases (find_enabled m id w).0) [
    | inl (x, e) ↦
        let went = bind_err (find_enabled m id) (end_all m id) e in
        absurd (clash (rw (went, try_catch) at h))
    | inr (u, e) ↦
        let (here, named) = find_enabled_lem id w e in
        let went = bind_ok (find_enabled m id) (end_all m id) e in
        (
          u,
          here,
          named,
          ap (λ v. v.users) (reraise_keeps (find_enabled m id >>= end_all m id) w)
              ∙ ap (λ r. r.1.users) went
              ∙ ap (λ v. (end_all m id u v).1.users) (find_enabled_keeps id w)
              ∙ end_all_writes id u w,
        )
  ]
    where
      clash : {A : Type 0} {a : A} {x : Exception} → err x ≡ ok a → ⊥
      clash k = cc

module _ (m : Platform) (tokens : RefreshTokens) where
  -- Where no two users have one id: once a user has logged out of all devices, a refresh token that
  -- would have been granted a new pair just before, and that names this user, is granted nothing at
  -- any later time; whether or not the sessions could be revoked.
  pub logout_all_devices-ends :
      (token id : String) (w : World) (t : ℕ) (claims : Claims) {pair again : TokenPair}
      {done : Unit {0}}
      → ((i : ℕ) → count (λ u. u.id == i) w.users ≤ 1)
      → (refresh_token m tokens token w).0 ≡ ok pair
      → tokens.verify token w.now ≡ ok claims
      → m.parse_object_id claims.user_id ≡ m.parse_object_id id
      → (logout_all_devices m id w).0 ≡ ok done
      → ¬ (
          (refresh_token m tokens token (record (logout_all_devices m id w).1 { now = t })).0
          ≡ ok again)
  logout_all_devices-ends token id w t claims unique granted read same_user ended replayed =
      let v = record (logout_all_devices m id w).1 { now = t } in
      let (c, _, verified, (u, holds), _, _) = refresh_token_inv m tokens token w granted in
      let (d, _, verified', (u', holds'), _, _) = refresh_token_inv m tokens token v replayed in
      let (x, here, named, writes) = logout_all_devices_lem m id w ended in
      let after = with_next m x w in
      let c-read = tokens.verify_again token w.now w.now c claims verified read in
      let d-read = tokens.verify_again token t w.now d claims verified' read in
      let u-named : u.id ≡ x.id =
        some_inj m tokens
          (sym holds.is_named ∙ ap (λ k. m.parse_object_id k.user_id) c-read ∙ same_user ∙ named) in
      let u'-named : u'.id ≡ x.id =
        some_inj m tokens (
          sym holds'.is_named ∙ ap (λ k. m.parse_object_id k.user_id) d-read ∙ same_user ∙ named) in
      let it : u ≡ x =
        the_only (λ z. z.id == x.id) w.users (unique x.id) holds.is_stored here
          ((==_iff u.id x.id).1 u-named) ((==_iff x.id x.id).1 refl) in
      let one : count (λ z. z.id == x.id) after ≤ 1 =
        rw
          (count-update_same m (λ z. z.id == x.id) (λ z. z.id == x.id) (λ z. next_version x) w.users
            (λ z k. (==_iff x.id x.id).1 refl ∙ sym k))
          (unique x.id) in
      let (y, hit) =
        update_of_mem m (λ z. z.id == x.id) (λ z. next_version x) w.users x here
          ((==_iff x.id x.id).1 refl) in
      let (_, _, made, _, stored) =
        update_hit m (λ z. z.id == x.id) (λ z. next_version x) w.users hit in
      let last : u' ≡ y =
        the_only (λ z. z.id == x.id) after one (rw writes at holds'.is_stored) stored
          ((==_iff u'.id x.id).1 u'-named) (rw made ((==_iff x.id x.id).1 refl)) in
      let old : c.token_version ≡ x.token_version =
        holds.is_current ∙ ap (λ z. z.token_version) it in
      let new : d.token_version ≡ suc x.token_version =
        holds'.is_current ∙ ap (λ z. z.token_version) (last ∙ made) in
      let version = ap (λ k. k.token_version) (c-read ∙ sym d-read) in
      omega (arith, old, new, version)
