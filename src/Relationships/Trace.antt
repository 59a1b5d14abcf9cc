-- ===== src/Relationships/Trace.antt =====
-- Any sequence of the requests that relationships.controller.ts serves, one after another.
use learn_nest_js.Shared.{String, List, [], ◌∷◌}
use learn_nest_js.Shared.Platform.{Platform}
use learn_nest_js.Schemas.{RelationshipStatus}
use learn_nest_js.World.{World}
use learn_nest_js.Relationships.Request.{Chat, create, accept, reject_or_remove, unfriend}
use learn_nest_js.Relationships.Block.{block_user, unblock_user}
use learn_nest_js.Relationships.Uniqueness.{
  AtMostOne, create-AtMostOne, accept-AtMostOne, reject_or_remove-AtMostOne, unfriend-AtMostOne,
  block_user-AtMostOne, unblock_user-AtMostOne,
}

pub data Request : Type 0 where
  creates : (user recipient : String) → Request
  accepts rejects unfriends : (relationship user target : String) → Request
  blocks unblocks : (user other : String) → Request

module _ (m : Platform) (chat : Chat) where
  -- One request; its answer is dropped, and what it wrote before a throw stays.
  unfoldable pub serve : Request → World → World
  serve (creates user recipient) w = (create m chat recipient user RelationshipStatus.pending w).1
  serve (accepts id user target) w = (accept m chat id user target w).1
  serve (rejects id user target) w = (reject_or_remove m id user target w).1
  serve (unfriends id user target) w = (unfriend m id user target w).1
  serve (blocks user other) w = (block_user m chat user other w).1
  serve (unblocks user other) w = (unblock_user m user other w).1

  unfoldable pub run : List Request → World → World
  unfolding serve
  run [] w = w
  run (r ∷ rs) w = run rs (serve r w)

  serve-AtMostOne :
      (r : Request) (w : World) → AtMostOne w.relationships → AtMostOne (serve r w).relationships
  unfolding serve
  serve-AtMostOne (creates user recipient) w h =
      create-AtMostOne m chat recipient user RelationshipStatus.pending w h
  serve-AtMostOne (accepts id user target) w h = accept-AtMostOne m chat id user target w h
  serve-AtMostOne (rejects id user target) w h = reject_or_remove-AtMostOne m id user target w h
  serve-AtMostOne (unfriends id user target) w h = unfriend-AtMostOne m id user target w h
  serve-AtMostOne (blocks user other) w h = block_user-AtMostOne m chat user other w h
  serve-AtMostOne (unblocks user other) w h = unblock_user-AtMostOne m user other w h

  -- After any sequence of friend requests, acceptances, refusals, blocks and their lifting, at
  -- most one relationship stands between any two users, if so it was before.
  pub run-AtMostOne :
      (rs : List Request) (w : World)
      → AtMostOne w.relationships
      → AtMostOne (run rs w).relationships
  unfolding run
  run-AtMostOne [] w h = h
  run-AtMostOne (r ∷ rs) w h = run-AtMostOne rs (serve r w) (serve-AtMostOne r w h)
