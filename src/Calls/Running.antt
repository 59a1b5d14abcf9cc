-- ===== src/Calls/Running.antt =====
-- Runs of the operations on calls, interleaved in any order.
use learn_nest_js.Shared.{ℕ, ◌≡◌, arith, String, List, [], ◌∷◌, Memᴰ}
use learn_nest_js.Shared.Platform.{Platform}
use learn_nest_js.Shared.Documents.{Each-mem, insert-mem_other}
use learn_nest_js.Schemas.{Call, CallType, CallEndReason}
use learn_nest_js.World.{World}
use learn_nest_js.Relationships.Query.{check_is_blocked, check_is_friend}
use learn_nest_js.Users.{check_user}
use learn_nest_js.Conversations.Access.{get_or_throw, ensure_member}
use learn_nest_js.Calls.Message.{Messages}
use learn_nest_js.Calls.Change.{
  create_call, check_call, new_call, insert_call, accept_call, reject_call, end_write, end_call,
  mark_missed,
}
use learn_nest_js.Calls.Machine.{Later, Later-refl, Later-trans}
use learn_nest_js.Calls.Following.{
  accept_call-Later, reject_call-Later, end_write-Later, end_call-Later, mark_missed-Later,
}

-- A step of some client. `end_writes` is the second half of an `endCall` whose read is long past:
-- `existing` is any call. `elapses` is the clock.
pub data Request : Type 0 where
  creates : (caller callee conversation : String) (kind : CallType) → Request
  accepts : (call user : String) → Request
  rejects : (call user : String) → Request
  ends : (call user : String) (reason : CallEndReason) → Request
  end_writes : (existing : Call) (call : ℕ) (user : String) (reason : CallEndReason) → Request
  misses : (call : String) → Request
  elapses : (now : ℕ) → Request

module _ (m : Platform) where
  module _ (messages : Messages) where
    unfoldable pub serve : Request → World → World
    serve (creates a b c kind) w = (create_call m a b c kind w).1
    serve (accepts c u) w = (accept_call m c u w).1
    serve (rejects c u) w = (reject_call m messages c u w).1
    serve (ends c u reason) w = (end_call m messages c u reason w).1
    serve (end_writes c i u reason) w = (end_write m messages c i u reason w).1
    serve (misses c) w = (mark_missed m messages c w).1
    serve (elapses now) w = record w { now = now }

    unfoldable pub run : List Request → World → World
    run [] w = w
    run (r ∷ rs) w = run rs (serve r w)

  check_call_keeps : (a b c : String) (w : World) → (check_call m a b c w).1 ≡ w
  unfolding check_call check_user check_is_blocked check_is_friend get_or_throw ensure_member
  check_call_keeps a b c w = ground arith

  insert_call-mem :
      (a b c : ℕ) (kind : CallType) (w : World) (d : Call)
      → Memᴰ d w.calls
      → Memᴰ d (insert_call m a b c kind w).1.calls
  unfolding insert_call
  insert_call-mem a b c kind w d h =
      insert-mem_other m (new_call (m.new_object_id w.created) a b c kind w.now) w.calls h

  create_call-mem :
      (a b c : String) (kind : CallType) (w : World) (d : Call)
      → Memᴰ d w.calls
      → Memᴰ d (create_call m a b c kind w).1.calls
  unfolding create_call
  create_call-mem a b c kind w d h =
      let kept = check_call_keeps a b c w in
      let added = λ (a' b' c' : ℕ). insert_call-mem a' b' c' kind w d h in
      grind (arith, h, kept, added)

  module _ (messages : Messages) where
    serve-Later :
        (r : Request) (w : World) (c : Call)
        → Memᴰ c w.calls
        → (d : Call) × Memᴰ d (serve messages r w).calls × Later c d
    unfolding serve
    serve-Later (creates a b v kind) w c h = (c, create_call-mem a b v kind w c h, Later-refl c)
    serve-Later (accepts i u) w c h = Each-mem Later _ _ (accept_call-Later m messages i u w) h
    serve-Later (rejects i u) w c h = Each-mem Later _ _ (reject_call-Later m messages i u w) h
    serve-Later (ends i u reason) w c h =
        Each-mem Later _ _ (end_call-Later m messages i u reason w) h
    serve-Later (end_writes e i u reason) w c h =
        Each-mem Later _ _ (end_write-Later m messages e i u reason w) h
    serve-Later (misses i) w c h = Each-mem Later _ _ (mark_missed-Later m messages i w) h
    serve-Later (elapses now) w c h = (c, h, Later-refl c)

    -- Whatever requests are served, in any order and with any read of `endCall` out of date: each
    -- call is still there, between the same parties, further on in the machine (calling, then
    -- accepted, rejected, missed or ended; accepted, then ended); and a call that was over, is as it was.
    pub run-Later :
        (rs : List Request) (w : World) (c : Call)
        → Memᴰ c w.calls
        → (d : Call) × Memᴰ d (run messages rs w).calls × Later c d
    unfolding run
    run-Later [] w c h = (c, h, Later-refl c)
    run-Later (r ∷ rs) w c h =
        let (d, there, k) = serve-Later r w c h in
        let (e, at_end, l) = run-Later rs (serve messages r w) d there in
        (e, at_end, Later-trans c d e k l)
