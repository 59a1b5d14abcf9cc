-- ===== src/Calls/Machine.antt =====
-- The machine that a call runs through.
use learn_nest_js.Shared.{ℕ, ◌≡◌, refl, arith, Bool, true, false}
use learn_nest_js.Schemas.{Call, CallStatus, CallEndReason}
use learn_nest_js.Calls.Query.{is_active, is_calling}
use learn_nest_js.Calls.Change.{answered, over}

-- The steps of the machine, and their runs.
pub data Step : CallStatus → CallStatus → Type 0 where
  answers : Step CallStatus.calling CallStatus.accepted
  declines : Step CallStatus.calling CallStatus.rejected
  times_out : Step CallStatus.calling CallStatus.missed
  gives_up : Step CallStatus.calling CallStatus.ended
  hangs_up : Step CallStatus.accepted CallStatus.ended

pub data Steps : CallStatus → CallStatus → Type 0 where
  stays : {s : CallStatus} → Steps s s
  goes : {s t u : CallStatus} → Step s t → Steps t u → Steps s u

pub Steps-trans : {s t u : CallStatus} → Steps s t → Steps t u → Steps s u
Steps-trans stays k = k
Steps-trans (goes e h) k = goes e (Steps-trans h k)

pub one : {s t : CallStatus} → Step s t → Steps s t
one e = goes e stays

-- `b` is what became of `a`: the same call, further on in the machine; and if `a` is over, as it
-- was.
pub record Later (a b : Call) : Type 0 where
  pub same_id : b.id ≡ a.id
  pub same_caller : b.caller_id ≡ a.caller_id
  pub same_callee : b.callee_id ≡ a.callee_id
  pub same_conversation : b.conversation_id ≡ a.conversation_id
  pub steps : Steps a.status b.status
  pub over_stays : is_active a.status ≡ false → b ≡ a

pub Later-refl : (a : Call) → Later a a
Later-refl a = record {
  same_id = refl;
  same_caller = refl;
  same_callee = refl;
  same_conversation = refl;
  steps = stays;
  over_stays = λ e. refl;
}

pub Later-trans : (a b c : Call) → Later a b → Later b c → Later a c
Later-trans a b c h k = record {
  same_id = grind (arith, h.same_id, k.same_id);
  same_caller = grind (arith, h.same_caller, k.same_caller);
  same_callee = grind (arith, h.same_callee, k.same_callee);
  same_conversation = grind (arith, h.same_conversation, k.same_conversation);
  steps = Steps-trans h.steps k.steps;
  over_stays = λ e.
      let s = h.over_stays e in
      let t : is_active b.status ≡ false = rw s e in let u = k.over_stays t in cc (u, s);
}

pub from_calling : (a b : CallStatus) → is_calling a ≡ true → Step CallStatus.calling b → Steps a b
from_calling CallStatus.calling b e h = one h
from_calling CallStatus.accepted b e h = absurd (ground arith)
from_calling CallStatus.rejected b e h = absurd (ground arith)
from_calling CallStatus.ended b e h = absurd (ground arith)
from_calling CallStatus.missed b e h = absurd (ground arith)

pub from_active : (a : CallStatus) → is_active a ≡ true → Steps a CallStatus.ended
from_active CallStatus.calling e = one gives_up
from_active CallStatus.accepted e = one hangs_up
from_active CallStatus.rejected e = absurd (ground arith)
from_active CallStatus.ended e = absurd (ground arith)
from_active CallStatus.missed e = absurd (ground arith)

pub calling_is_active : (a : CallStatus) → is_calling a ≡ true → is_active a ≡ true
calling_is_active CallStatus.calling e = refl
calling_is_active CallStatus.accepted e = refl
calling_is_active CallStatus.rejected e = e
calling_is_active CallStatus.ended e = e
calling_is_active CallStatus.missed e = e

not_over : {c d : Call} → is_active c.status ≡ true → is_active c.status ≡ false → d ≡ c
not_over e k = absurd (clash e k)
  where
    clash : {b : Bool} → b ≡ true → b ≡ false → ⊥
    clash e k = cc

pub answered-Later : (c : Call) (now : ℕ) → is_calling c.status ≡ true → Later c (answered now c)
answered-Later c now e = record {
  same_id = refl;
  same_caller = refl;
  same_callee = refl;
  same_conversation = refl;
  steps = from_calling c.status CallStatus.accepted e answers;
  over_stays = not_over (calling_is_active c.status e);
}

pub over-Later :
    (c : Call) (s : CallStatus) (now seconds : ℕ) (reason : CallEndReason)
    → is_active c.status ≡ true
    → Steps c.status s
    → Later c (over s now seconds reason c)
over-Later c s now seconds reason e h = record {
  same_id = refl;
  same_caller = refl;
  same_callee = refl;
  same_conversation = refl;
  steps = h;
  over_stays = not_over e;
}
