-- ===== src/Users.antt =====
-- Look-ups of a user (modules/users/user-query.service.ts).
pub mod Login
pub mod Codes
pub mod Password
pub mod Resetting
use learn_nest_js.Shared.{ℕ, String, Bool, Option, ◌&&◌, not, ◌==◌}
use learn_nest_js.Shared.Errors.{bad_request, of_user, UserMessage}
use learn_nest_js.Shared.Action.{or_raise, raise_if, gets, pure, ◌>>=◌, ◌>>◌}
use learn_nest_js.Shared.Platform.{Platform}
use learn_nest_js.Schemas.{User}
use learn_nest_js.World.{World, Action, to_object_id, is_later}

module _ (m : Platform) where
  -- `findById`
  abbrev pub find_by_id : ℕ → World → Option User
  find_by_id i w = m.find_one (λ u. u.id == i) w.users

  -- `findOne`
  unfoldable pub find_one : String → Action (Option User)
  find_one id = do i ← to_object_id m id "user id"; gets (find_by_id i)

  -- `checkUser`; the result's `objectUserId` is the id that `existingUser` was found by.
  unfoldable pub check_user : String → Bool → Bool → Bool → Action (User × ℕ)
  check_user id check_disable check_active check_ban = do
    i ← to_object_id m id "user id"
    found ← gets (find_by_id i)
    existing_user ← or_raise found (bad_request (of_user UserMessage.user_not_found))
    raise_if (check_active && not existing_user.is_active)
        (bad_request (of_user UserMessage.user_not_active))
    raise_if (check_disable && existing_user.is_disabled)
        (bad_request (of_user UserMessage.user_disabled))
    now ← gets (λ w. w.now)
    raise_if (check_ban && is_later existing_user.ban_until now)
        (bad_request (of_user UserMessage.user_banned))
    pure (existing_user, i)
