-- ===== src/Relationships/Reading.antt =====
-- The checks of the relationship services write nothing.
use learn_nest_js.Shared.{String, Bool, ◌≡◌, arith}
use learn_nest_js.Shared.Platform.{Platform}
use learn_nest_js.Schemas.{User}
use learn_nest_js.World.{World}
use learn_nest_js.Users
use learn_nest_js.Relationships.Access.{check_target, check_active}

pub find_one_reads : (m : Platform) (id : String) (w : World) → (Users.find_one m id w).1 ≡ w
unfolding Users.find_one
find_one_reads m id w = ground arith

pub check_target_reads : (b : Bool) (u : User) (w : World) → (check_target b u w).1 ≡ w
unfolding check_target
check_target_reads b u w = ground arith

pub check_active_reads :
    (m : Platform) (a b : String) (c : Bool) (w : World) → (check_active m a b c w).1 ≡ w
unfolding check_active
check_active_reads m a b c w =
    grind (arith, find_one_reads m a w, find_one_reads m b w, check_target_reads)
