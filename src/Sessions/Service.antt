-- ===== src/Sessions/Service.antt =====
-- session.service.ts: rotation and revocation; `removeDevice` and
-- `resolveDeviceContext` of session-device.service.ts.
use learn_nest_js.Shared.{
  ℕ, suc, String, Bool, true, false, ltb, ◌&&◌, ◌==◌, not, str_eq, Option, none, some, List,
  if◌then◌else◌,
}
use learn_nest_js.Shared.Errors.{driver_error}
use learn_nest_js.Shared.Action.{ok, err, gets, pure, modify, try_catch, ◌>>=◌, ◌>>◌}
use learn_nest_js.Shared.Platform.{Platform}
use learn_nest_js.Schemas.{Session, session_revoke, session_revoke_all}
use learn_nest_js.World.{World, Action, to_object_id}
use learn_nest_js.CleanupJobs.Create.{try_cleanup_job, empty_payload}

-- A write to the sessions fails while they are down.
abbrev pub write : (World → List Session) → Action (Unit {0})
write f w =
    if w.sessions_down then (err (driver_error 0), w) else (ok tt, record w { sessions = f w })

-- `{ $set: { isRevoked: true, revokedAt: new Date() } }`
abbrev pub revoked : ℕ → Session → Session
revoked now s = record s { is_revoked = true; revoked_at = some now }

module _ (m : Platform) where
  -- `create`; the DTO's fields are those of the session.
  unfoldable pub create :
      (user_id device_id : String) (hash : Option String) (expires : Option ℕ) → Action Session
  create user_id device_id hash expires = do
    user ← to_object_id m user_id "user id"
    created ← gets (λ w. w.created)
    now ← gets (λ w. w.now)
    let session : Session = record {
      id = m.new_object_id created;
      user_id = user;
      device_id = device_id;
      refresh_token_hash = hash;
      expires_at = expires;
      last_used_at = some now;
      is_revoked = false;
      revoked_at = none;
    }
    write (λ w. m.insert session w.sessions)
    modify (λ w. record w { created = suc w.created })
    pure session

  -- `findSessionById`
  unfoldable pub find_by_id : String → Action (Option Session)
  find_by_id id = do
    i ← to_object_id m id "session id"
    gets (λ w. m.find_one (λ s. s.id == i) w.sessions)

  -- The query of `findSessionsByUserId`.
  unfoldable pub find_by_user : String → Action (List Session)
  find_by_user user_id = do
    user ← to_object_id m user_id "user id"
    gets (λ w. m.find (λ s. s.user_id == user && not s.is_revoked) w.sessions)

  -- `rotateSession`
  unfoldable pub rotate : String → String → ℕ → Action (Unit {0})
  rotate id hash expires = do
    i ← to_object_id m id "session id"
    write (λ w.
        (m.find_one_and_update (λ s. s.id == i && not s.is_revoked)
          (λ s. record s {
            refresh_token_hash = some hash;
            expires_at = some expires;
            last_used_at = some w.now;
          })
          w.sessions).1)

  -- `revoke`
  unfoldable pub revoke : String → String → Action (Unit {0})
  revoke id user_id = do
    i ← to_object_id m id "session id"
    user ← to_object_id m user_id "user id"
    write (λ w.
        (m.find_one_and_update (λ s. s.id == i && s.user_id == user && not s.is_revoked)
          (revoked w.now) w.sessions).1)

  -- `revokeAllByUserId`
  unfoldable pub revoke_all : String → Action (Unit {0})
  revoke_all user_id = do
    user ← to_object_id m user_id "user id"
    write
        (λ w. m.update_many (λ s. s.user_id == user && not s.is_revoked) (revoked w.now) w.sessions)

  -- `revokeAllByUserIdExceptSession`
  unfoldable pub revoke_all_except : String → String → Action (Unit {0})
  revoke_all_except user_id except_id = do
    user ← to_object_id m user_id "user id"
    except ← to_object_id m except_id "session id"
    write (λ w.
        m.update_many (λ s. s.user_id == user && not (s.id == except) && not s.is_revoked)
          (revoked w.now) w.sessions)

  -- `addSessionRevokeCleanupJob` and `addSessionRevokeAllCleanupJob`
  unfoldable pub add_revoke_job : String → String → Action (Unit {0})
  add_revoke_job user_id session_id =
      try_cleanup_job m session_revoke (some user_id)
        (record empty_payload { user_id = some user_id; session_id = some session_id })

  unfoldable pub add_revoke_all_job : String → Action (Unit {0})
  add_revoke_all_job user_id =
      try_cleanup_job m session_revoke_all (some user_id)
        (record empty_payload { user_id = some user_id })

  -- `revokeWithCleanup`, `revokeAllByUserIdWithCleanup` and
  -- `revokeAllByUserIdExceptSessionWithCleanup`
  unfoldable pub revoke_with_cleanup : String → String → Action (Unit {0})
  revoke_with_cleanup id user_id = try_catch (revoke id user_id) (λ _. add_revoke_job user_id id)

  unfoldable pub revoke_all_with_cleanup : String → Action (Unit {0})
  revoke_all_with_cleanup user_id = try_catch (revoke_all user_id) (λ _. add_revoke_all_job user_id)

  unfoldable pub revoke_all_except_with_cleanup : String → String → Action (Unit {0})
  revoke_all_except_with_cleanup user_id except_id =
      try_catch (revoke_all_except user_id except_id) (λ _. add_revoke_all_job user_id)

  -- `removeDevice`
  unfoldable pub remove_device : String → String → Action (Unit {0})
  remove_device user_id device_id = do
    user ← to_object_id m user_id "user id"
    write (λ w. m.delete_many (λ s. s.user_id == user && str_eq s.device_id device_id) w.sessions)

  -- `hasSessionByUserIdAndDeviceId`
  unfoldable pub has_session_on_device : String → String → Action Bool
  has_session_on_device user_id device_id = do
    user ← to_object_id m user_id "user id"
    gets (λ w.
        ltb 0
          (m.count_documents (λ s. s.user_id == user && str_eq s.device_id device_id) w.sessions))

  -- `resolveDeviceContext`: the device, and whether it is new. `random_uuid` is `randomUUID`, for the n-th
  -- of the ids that are given out; no device id is an empty one.
  unfoldable pub resolve_device_context : (ℕ → String) → String → String → Action (String × Bool)
  resolve_device_context random_uuid user_id device_id =
      if str_eq device_id ""
      then (do
        created ← gets (λ w. w.created)
        modify (λ w. record w { created = suc created })
        pure (random_uuid created, true))
      else (do is_known ← has_session_on_device user_id device_id; pure (device_id, not is_known))
