-- ===== src/Users/Login.antt =====
-- `findByEmailOrPhoneForLogin` of modules/users/user-query.service.ts. What mongoose makes of an email in
-- a query, by the setters `lowercase` and `trim` of the schema, is the parameter `cast_email`.
use learn_nest_js.Shared.{String, Bool, false, Option, none, some, str_eq, is_some, if◌then◌else◌}
use text.Mathlib.Text.{find?}
use learn_nest_js.Shared.Platform.{Platform}
use learn_nest_js.Schemas.{User}
use learn_nest_js.World.{World}

abbrev pub has_phone : String → Option String → Bool
has_phone phone none = false
has_phone phone (some own) = str_eq own phone

module _ (m : Platform) (cast_email : String → String) where
  -- `userModel.findOne({ email })`
  unfoldable pub find_by_email : String → World → Option User
  find_by_email email w = m.find_one (λ u. str_eq u.email (cast_email email)) w.users

  unfoldable pub find_for_login : String → World → Option User
  find_for_login identifier w =
      if is_some (find? identifier "@")
      then find_by_email identifier w
      else m.find_one (λ u. has_phone identifier u.phone) w.users
