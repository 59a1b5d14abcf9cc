-- ===== src/Sessions/Revoking.antt =====
-- What becomes of the sessions that are to be revoked.
use learn_nest_js.Shared.{
  ℕ, ◌≤◌, ◌≡◌, refl, ap, arith, String, Bool, true, false, ◌&&◌, ◌==◌, not, str_eq, some, List, [],
  ◌∷◌, ◌++◌, inl, inr, ◌⊎◌, Option-cases, Bool-cases, any, count, update_all, if◌then◌else◌,
}
use learn_nest_js.Shared.Action.{ok, err, try_catch_err, try_catch_ok}
use learn_nest_js.Shared.Errors.{driver_error}
use learn_nest_js.Shared.Platform.{Platform}
use learn_nest_js.Shared.Documents.{update_missed, Each}
use learn_nest_js.Shared.Counting.{count_none, count-append}
use learn_nest_js.Schemas.{Session, session_revoke, session_revoke_all}
use learn_nest_js.World.{World}
use learn_nest_js.CleanupJobs.Create.{is_complete}
use learn_nest_js.CleanupJobs.Dispatcher.{handle_session_revoke_all, is_live}
use learn_nest_js.Sessions.Service.{
  revoke, revoke_all, revoke_all_except, add_revoke_job, add_revoke_all_job, revoke_with_cleanup,
  revoke_all_except_with_cleanup, find_by_user, revoked, write,
}
use learn_nest_js.Sessions.Deferral.{IsDeferred, for_user, for_session, try_cleanup_job_lem}

module _ (m : Platform) where
  write_down :
      (f : World → List Session) (w : World)
      → w.sessions_down ≡ true
      → write f w ≡ (err (driver_error 0), w)
  write_down f w down =
      ap (λ b. if b then (err (driver_error 0), w) else (ok tt, record w { sessions = f w })) down

  write_up :
      (f : World → List Session) (w : World)
      → w.sessions_down ≡ false
      → write f w ≡ (ok tt, record w { sessions = f w })
  write_up f w up =
      ap (λ b. if b then (err (driver_error 0), w) else (ok tt, record w { sessions = f w })) up

  abbrev hits : ℕ → ℕ → Session → Bool
  hits i u s = s.id == i && s.user_id == u && not s.is_revoked

  revoke_down :
      (id user : String) {i u : ℕ} (w : World)
      → m.parse_object_id id ≡ some i
      → m.parse_object_id user ≡ some u
      → w.sessions_down ≡ true
      → revoke m id user w ≡ (err (driver_error 0), w)
  unfolding revoke
  revoke_down id user {i} {u} w pi pu down =
      rw (pi, revoke)
        (rw (pu, revoke)
          (write_down (λ v. (m.find_one_and_update (hits i u) (revoked v.now) v.sessions).1) w
            down))

  revoke_up :
      (id user : String) {i u : ℕ} (w : World)
      → m.parse_object_id id ≡ some i
      → m.parse_object_id user ≡ some u
      → w.sessions_down ≡ false
      → revoke m id user w ≡ (
        ok tt,
        record w { sessions = (m.find_one_and_update (hits i u) (revoked w.now) w.sessions).1 },
      )
  unfolding revoke
  revoke_up id user {i} {u} w pi pu up =
      rw (pi, revoke)
        (rw (pu, revoke)
          (write_up (λ v. (m.find_one_and_update (hits i u) (revoked v.now) v.sessions).1) w up))

  revoke_all_except_down :
      (user except : String) {u e : ℕ} (w : World)
      → m.parse_object_id user ≡ some u
      → m.parse_object_id except ≡ some e
      → w.sessions_down ≡ true
      → revoke_all_except m user except w ≡ (err (driver_error 0), w)
  unfolding revoke_all_except
  revoke_all_except_down user except {u} {e} w pu pe down =
      rw (pu, revoke_all_except)
        (rw (pe, revoke_all_except)
          (write_down
            (λ v.
              m.update_many (λ s. s.user_id == u && not (s.id == e) && not s.is_revoked)
                (revoked v.now) v.sessions)
            w down))

  revoke_all_up :
      (user : String) {u : ℕ} (w : World)
      → m.parse_object_id user ≡ some u
      → w.sessions_down ≡ false
      → revoke_all m user w ≡ (
        ok tt,
        record w {
          sessions =
              m.update_many (λ s. s.user_id == u && not s.is_revoked) (revoked w.now) w.sessions;
        },
      )
  unfolding revoke_all
  revoke_all_up user {u} w pu up =
      rw (pu, revoke_all)
        (write_up
          (λ v. m.update_many (λ s. s.user_id == u && not s.is_revoked) (revoked v.now) v.sessions)
          w up)

  all_revoked :
      (u now : ℕ) (sessions : List Session)
      → Each
          (λ s t. s.user_id ≡ u → t.is_revoked ≡ true)
          sessions
          (m.update_many (λ s. s.user_id == u && not s.is_revoked) (revoked now) sessions)
  all_revoked u now sessions =
      rw (m.update_many_lem (λ s. s.user_id == u && not s.is_revoked) (revoked now) sessions)
        (go sessions)
    where
      go :
          (xs : List Session)
          → Each
              (λ s t. s.user_id ≡ u → t.is_revoked ≡ true)
              xs
              (update_all (λ s. s.user_id == u && not s.is_revoked) (revoked now) xs)
      go [] = tt
      go (s ∷ xs) = elim (Bool-cases (s.user_id == u && not s.is_revoked)) [
        | inl e ↦ rw e ((λ mine. refl), go xs)
        | inr e ↦ rw e ((λ mine. ground arith), go xs)
      ]

  none_left :
      (i u now : ℕ) (sessions : List Session)
      → count (λ s. s.id == i) sessions ≤ 1
      → count
          (λ s. s.id == i && s.user_id == u && not s.is_revoked)
          (m.find_one_and_update
            (λ s. s.id == i && s.user_id == u && not s.is_revoked)
            (revoked now)
            sessions).1
        ≡ 0
  none_left i u now sessions unique =
      elim (Option-cases (m.find_one_and_update (hits i u) (revoked now) sessions).0) [
        | inl missed ↦
            let (same, none_hit) = update_missed m (hits i u) (revoked now) sessions missed in
            rw same (count_none (hits i u) sessions none_hit)
        | inr (s, hit) ↦
            let (before, d, after, matched, was, is, _) =
              rw hit at (m.find_one_and_update_lem (hits i u) (revoked now) sessions) in
            let few : count (λ s. s.id == i) (before ++ d ∷ after) ≤ 1 = rw was at unique in
            let mine : (d.id == i) ≡ true = ground arith in
            let split = count-append (λ s. s.id == i) before (d ∷ after) in
            let less = count-le before in
            let less' = count-le after in
            rw (is, count-append (hits i u) before (revoked now d ∷ after)) (ground arith)
      ]
    where
      count-le : (xs : List Session) → count (hits i u) xs ≤ count (λ s. s.id == i) xs
      count-le [] = omega arith
      count-le (x ∷ xs) = ground (arith, count-le xs)

  cleanup_down :
      (id user : String) {i u : ℕ} (w : World)
      → m.parse_object_id id ≡ some i
      → m.parse_object_id user ≡ some u
      → w.sessions_down ≡ true
      → revoke_with_cleanup m id user w ≡ add_revoke_job m user id w
  unfolding revoke_with_cleanup
  cleanup_down id user w pi pu down =
      try_catch_err (revoke m id user) (λ x. add_revoke_job m user id)
        (revoke_down id user w pi pu down)

  cleanup_up :
      (id user : String) {i u : ℕ} (w : World)
      → m.parse_object_id id ≡ some i
      → m.parse_object_id user ≡ some u
      → w.sessions_down ≡ false
      → revoke_with_cleanup m id user w ≡ (
        ok tt,
        record w { sessions = (m.find_one_and_update (hits i u) (revoked w.now) w.sessions).1 },
      )
  unfolding revoke_with_cleanup
  cleanup_up id user w pi pu up =
      try_catch_ok (revoke m id user) (λ x. add_revoke_job m user id) (revoke_up id user w pi pu up)

  cleanup_except_down :
      (user except : String) {u e : ℕ} (w : World)
      → m.parse_object_id user ≡ some u
      → m.parse_object_id except ≡ some e
      → w.sessions_down ≡ true
      → revoke_all_except_with_cleanup m user except w ≡ add_revoke_all_job m user w
  unfolding revoke_all_except_with_cleanup
  cleanup_except_down user except w pu pe down =
      try_catch_err (revoke_all_except m user except) (λ x. add_revoke_all_job m user)
        (revoke_all_except_down user except w pu pe down)

  -- For a session's id and a user's id that are valid, where at most one session has the id: while
  -- sessions can be written, revoking leaves no active session with that id and user; while they
  -- cannot, the revocation is put down as a job of the queue. Either way the caller sees no error.
  pub revoke_with_cleanup_lem :
      (id user : String) (i u : ℕ) (w : World)
      → m.parse_object_id id ≡ some i
      → m.parse_object_id user ≡ some u
      → str_eq id "" ≡ false
      → str_eq user "" ≡ false
      → count (λ s. s.id == i) w.sessions ≤ 1
      → ((revoke_with_cleanup m id user w).0 ≡ ok tt)
        × (((w.sessions_down ≡ false)
              × (count
                    (λ s. s.id == i && s.user_id == u && not s.is_revoked)
                    (revoke_with_cleanup m id user w).1.sessions
                  ≡ 0))
            ⊎ ((w.sessions_down ≡ true)
                × IsDeferred session_revoke
                    (for_session user id)
                    (revoke_with_cleanup m id user w).1))
  unfolding add_revoke_job is_complete
  revoke_with_cleanup_lem id user i u w pi pu a b unique = elim (Bool-cases w.sessions_down) [
    | inl down ↦
        let (fine, there) =
          try_cleanup_job_lem m session_revoke user u (for_session user id) w pu
            (ground (arith, a, b)) in
        rw (cleanup_down id user w pi pu down) (fine, inr (down, there))
    | inr up ↦
        rw (cleanup_up id user w pi pu up) (refl, inl (up, none_left i u w.now w.sessions unique))
  ]

  -- For valid ids of a user and of an excepted session: while sessions cannot be written, revoking
  -- all but that one puts down a `SESSION_REVOKE_ALL` of the user, which names no exception; and when that
  -- is handled later, with sessions writable and an active session of the user that has not
  -- expired, every session of the user is revoked, the excepted one among them.
  pub revoke_all_except-IsDeferred :
      (user except : String) (u e : ℕ) (w later : World)
      → m.parse_object_id user ≡ some u
      → m.parse_object_id except ≡ some e
      → str_eq user "" ≡ false
      → w.sessions_down ≡ true
      → later.sessions_down ≡ false
      → any
          (λ (s : Session). is_live s.expires_at later.now)
          (m.find (λ s. s.user_id == u && not s.is_revoked) later.sessions)
        ≡ true
      → IsDeferred session_revoke_all
          (for_user user)
          (revoke_all_except_with_cleanup m user except w).1
        × Each
            (λ s t. (s.user_id ≡ u → t.is_revoked ≡ true))
            later.sessions
            (handle_session_revoke_all m (for_user user) later).1.sessions
  unfolding add_revoke_all_job is_complete handle_session_revoke_all find_by_user
  revoke_all_except-IsDeferred user except u e w later pu pe a down up live =
      let (_, there) =
        try_cleanup_job_lem m session_revoke_all user u (for_user user) w pu (ground (arith, a)) in
      (
        rw (cleanup_except_down user except w pu pe down) there,
        rw (a, handle_session_revoke_all)
            (rw (pu, handle_session_revoke_all)
              (rw (live, handle_session_revoke_all)
                (rw (revoke_all_up user later pu up) (all_revoked u later.now later.sessions)))),
      )
