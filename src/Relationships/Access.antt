-- ===== src/Relationships/Access.antt =====
-- relationship-access.service.ts, and the filters that the relationship services share.
use learn_nest_js.Shared.{ℕ, String, Bool, true, false, ◌&&◌, ◌||◌, not, ◌==◌, str_eq, none, some}
use learn_nest_js.Shared.Errors.{
  bad_request, of_relationship, RelationshipMessage, account_banned_until, Exception,
}
use learn_nest_js.Shared.Action.{or_raise, raise_if, gets, pure, ◌>>=◌, ◌>>◌}
use learn_nest_js.Shared.Platform.{Platform}
use learn_nest_js.Schemas.{User, Relationship}
use learn_nest_js.World.{Action, is_later}
use learn_nest_js.Users

abbrev pub refuse : RelationshipMessage → Exception
refuse message = bad_request (of_relationship message)

-- `$or: [{ requester: a, recipient: b }, { requester: b, recipient: a }]`
abbrev pub is_between : ℕ → ℕ → Relationship → Bool
is_between a b r = (r.requester == a && r.recipient == b) || (r.requester == b && r.recipient == a)

-- The checks on the target under `requireTargetActive`.
unfoldable pub check_target : Bool → User → Action (Unit {0})
check_target false recipient = pure tt
check_target true recipient = do
  raise_if (not recipient.is_active) (refuse RelationshipMessage.recipient_not_active)
  raise_if recipient.is_disabled (refuse RelationshipMessage.recipient_disabled)
  now ← gets (λ w. w.now)
  elim recipient.ban_until [
    | none ↦ pure tt
    | some date ↦ raise_if (is_later (some date) now) (bad_request (account_banned_until date))
  ]

module _ (m : Platform) where
  -- `checkActiveRequesterAndRecipient`
  unfoldable pub check_active : String → String → Bool → Action (User × User)
  check_active requester_id recipient_id require_target_active = do
    raise_if (str_eq requester_id recipient_id) (refuse RelationshipMessage.cannot_be_same_user)
    found_requester ← Users.find_one m requester_id
    found_recipient ← Users.find_one m recipient_id
    requester ← or_raise found_requester (refuse RelationshipMessage.user_not_found)
    recipient ← or_raise found_recipient (refuse RelationshipMessage.user_not_found)
    raise_if (not requester.is_active) (refuse RelationshipMessage.requester_not_active)
    raise_if requester.is_disabled (refuse RelationshipMessage.requester_disabled)
    check_target require_target_active recipient
    pure (requester, recipient)
