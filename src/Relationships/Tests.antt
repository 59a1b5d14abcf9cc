-- ===== src/Relationships/Tests.antt =====
-- Runs of the relationship services on the list platform, and instances of the theorems.
use learn_nest_js.Shared.{
  ℕ, Bool, true, false, ◌≡◌, ◌≢◌, refl, arith, none, some, [], ◌∷◌, ◌&&◌, Memᴰ, map,
}
use learn_nest_js.Shared.Errors.{RelationshipMessage}
use learn_nest_js.Shared.Action.{ok, err, pure}
use learn_nest_js.Shared.ListPlatform.{list_platform}
use learn_nest_js.Shared.Platform.{Inserts}
use learn_nest_js.Shared.Documents.{Replaces, Removes}
use learn_nest_js.Schemas.{User, Relationship, RelationshipStatus, Conversation}
use learn_nest_js.Samples.{empty_world, sample_user}
use learn_nest_js.World.{World}
use learn_nest_js.Users
use learn_nest_js.Relationships.Access.{refuse, is_between, check_active, check_target}
use learn_nest_js.Relationships.Query.{is_blocked, is_pending}
use learn_nest_js.Relationships.Request.{
  Chat, create, accept, announce, get_pending_or_null, create_new, create_relationship,
  update_relationship, reject_or_remove, unfriend, delete_one,
}
use learn_nest_js.Relationships.Block.{
  block_user, block_either, block_found, unblock_user, is_blocker,
}
use learn_nest_js.Relationships.Trace.{creates, blocks, unblocks, serve, run, run-AtMostOne}
use learn_nest_js.Relationships.Uniqueness.{AtMostOne}
use learn_nest_js.Relationships.Blocking.{blocked_refuses_requests, unblock_user_authorised}
use learn_nest_js.Relationships.Effects.{IsBlockBy, block_user_blocks, block_user-inactive_stranger}
use learn_nest_js.Relationships.Acceptance.{accept_accepts, create-self_spelled_otherwise}

opened : Unit {0}
unfolding run serve create accept announce get_pending_or_null create_new create_relationship
    update_relationship reject_or_remove unfriend delete_one block_user block_either block_found
    unblock_user check_active check_target Users.find_one
opened = tt

abbrev person : ℕ → Bool → User
person id active = (record (sample_user id) { name = some "someone"; is_active = active })

abbrev a_conversation : Conversation
a_conversation = record {
  id = 50;
  name = none;
  is_group = false;
  users = 0 ∷ 1 ∷ [];
  accepted_by = [];
  admin_group_id = none;
  last_message_id = none;
  pin_message_id = none;
  hidden_history = [];
  read_receipts = [];
}

abbrev silent : Chat
silent = record {
  create_direct = λ a b. pure a_conversation;
  accept_conversation = λ a b. pure tt;
  create_system_message = λ a b c. pure tt;
  create_direct_keeps = λ a b w. refl;
  accept_conversation_keeps = λ a b w. refl;
  create_system_message_keeps = λ a b c w. refl;
}

abbrev start : World
start = record empty_world {
  users = person 0 true ∷ person 1 true ∷ person 2 false ∷ [];
  now = 1000;
  created = 7;
}

-- The ids 0, 1 and 2 are written "a", "aa" and "aaa".
mutual_requests :
    map
      (λ (r : Relationship). r.status)
      (run list_platform silent (creates "a" "aa" ∷ creates "aa" "a" ∷ []) start).relationships
    ≡ RelationshipStatus.accepted ∷ []
unfolding opened
mutual_requests = refl

blocks_and_unblocks :
    run list_platform silent
      (creates "a" "aa" ∷ blocks "aa" "a" ∷ unblocks "a" "aa" ∷ unblocks "aa" "a" ∷ [])
      start
    ≡ record start { created = 8 }
unfolding opened
blocks_and_unblocks = refl

run-AtMostOne_example :
    AtMostOne
      (run list_platform silent (creates "a" "aa" ∷ blocks "aa" "a" ∷ []) start).relationships
run-AtMostOne_example =
    run-AtMostOne list_platform silent (creates "a" "aa" ∷ blocks "aa" "a" ∷ []) start
      (λ a b. omega arith)

abbrev a_block : Relationship
a_block = record {
  id = 9;
  requester = 1;
  recipient = 0;
  status = RelationshipStatus.blocked;
  blocked_by = some 1;
}

abbrev with_block : World
with_block = record start { relationships = a_block ∷ [] }

blocked_refuses_requests_example :
    ((create list_platform silent "aa" "a" RelationshipStatus.pending with_block).1 ≡ with_block)
    × ((a : Relationship)
        → (create list_platform silent "aa" "a" RelationshipStatus.pending with_block).0 ≢ ok a)
blocked_refuses_requests_example =
    blocked_refuses_requests list_platform silent "a" "aa" 0 1 a_block RelationshipStatus.pending
      with_block refl refl (Memᴰ.head refl) refl the_block_is_one
  where
    the_block_is_one :
        (d : Relationship)
        → Memᴰ d with_block.relationships
        → is_between 0 1 d ≡ true
        → is_blocked d ≡ true
    the_block_is_one d (Memᴰ.head e) between = rw e refl
    the_block_is_one d (Memᴰ.tail k) between = elim k [ ]

unblock_user_authorised_example :
    ((unblock_user list_platform "aa" "a" with_block).0 ≡ ok true
      → (r : Relationship) × ((is_between 1 0 r && is_blocked r && is_blocker 1 r.blocked_by)
          ≡ true)
        × Removes r with_block.relationships
            (unblock_user list_platform "aa" "a" with_block).1.relationships)
    × ((unblock_user list_platform "aa" "a" with_block).0 ≢ ok true
        → (unblock_user list_platform "aa" "a" with_block).1.relationships
          ≡ with_block.relationships)
unblock_user_authorised_example =
    unblock_user_authorised list_platform "aa" "a" 1 0 with_block refl refl

abbrev new_block : Relationship
new_block = record {
  id = 7;
  requester = 0;
  recipient = 1;
  status = RelationshipStatus.blocked;
  blocked_by = some 0;
}

block_user_blocks_example :
    IsBlockBy 0 1 new_block
    × Memᴰ new_block (block_user list_platform silent "a" "aa" start).1.relationships
unfolding opened
block_user_blocks_example =
    block_user_blocks list_platform silent "a" "aa" 0 1 start (λ i. omega arith) refl refl refl

block_user-inactive_stranger_example :
    block_user list_platform silent "a" "aaa" start
    ≡ (err (refuse RelationshipMessage.recipient_not_active), start)
unfolding opened
block_user-inactive_stranger_example =
    block_user-inactive_stranger list_platform silent "a" "aaa" 0 2 start {x = person 0 true}
      {y = person 2 false} refl refl refl refl refl

abbrev a_request : Relationship
a_request = record {
  id = 3;
  requester = 1;
  recipient = 0;
  status = RelationshipStatus.pending;
  blocked_by = none;
}

abbrev with_request : World
with_request = record start { relationships = a_request ∷ [] }

accept_accepts_example :
    (r : Relationship) × (list_platform.parse_object_id "aaaa" ≡ some r.id)
    × (list_platform.parse_object_id "aa" ≡ some r.requester)
    × (r.recipient ≡ 0)
    × (is_pending r ≡ true)
    × (record a_request { status = RelationshipStatus.accepted }
        ≡ record r { status = RelationshipStatus.accepted })
    × Replaces r
        (record r { status = RelationshipStatus.accepted })
        with_request.relationships
        (accept list_platform silent "aaaa" "a" "aa" with_request).1.relationships
unfolding opened
accept_accepts_example =
    accept_accepts list_platform silent "aaaa" "a" "aa" 0 with_request (λ k. ground arith) refl refl

-- "b" is another spelling of the id 0.
create-self_spelled_otherwise_example :
    (r : Relationship) × ((create list_platform silent "b" "a" RelationshipStatus.pending start).0
      ≡ ok r)
    × (r.requester ≡ 0)
    × (r.recipient ≡ 0)
    × Inserts r start.relationships
        (create list_platform silent "b" "a" RelationshipStatus.pending start).1.relationships
create-self_spelled_otherwise_example =
    create-self_spelled_otherwise list_platform silent "a" "b" start {i = 0} {u = person 0 true}
      refl refl refl refl refl refl refl refl refl
