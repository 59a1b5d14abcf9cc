-- ===== src/Calls/MissingTests.antt =====
-- A run of `createMissingCallMessages` on the list platform, and instances of the theorems.
use learn_nest_js.Shared.{
  ℕ, ◌≡◌, refl, arith, leb, List, [], ◌∷◌, Memᴰ, inl, inr, Bool-cases, if◌then◌else◌,
}
use learn_nest_js.Shared.Action.{ok, pure}
use learn_nest_js.Shared.ListPlatform.{list_platform}
use learn_nest_js.Schemas.{Call, CallType, CallStatus, CallEndReason}
use learn_nest_js.Samples.{empty_world}
use learn_nest_js.World.{World}
use learn_nest_js.Conversations.State.{update_by_id, update_last_message_and_restore}
use learn_nest_js.Calls.Message.{Messages, insert_message, write_message, create_call_message}
use learn_nest_js.Calls.Change.{new_call, over}
use learn_nest_js.Calls.Telling.{told}
use learn_nest_js.Calls.Missing.{
  Sorting, tell_missing, tell_all, tell_batches, create_missing_call_messages,
}
use learn_nest_js.Calls.Backfill.{tell_batches-fuel}
use learn_nest_js.Calls.Completing.{tell_batches-tell_all, create_missing_call_messages-told}

opened : Unit {0}
unfolding insert_message write_message create_call_message update_by_id
    update_last_message_and_restore tell_missing tell_all tell_batches create_missing_call_messages
opened = tt

module _ {Doc : Type 0} (rank : Doc → ℕ) where
  abbrev placed : Doc → List Doc → List Doc
  placed d [] = d ∷ []
  placed d (e ∷ es) = if leb (rank d) (rank e) then d ∷ e ∷ es else e ∷ placed d es

  abbrev sorted : List Doc → List Doc
  sorted [] = []
  sorted (d ∷ ds) = placed d (sorted ds)

  placed-first : (d : Doc) (es : List Doc) → Memᴰ d (placed d es)
  placed-first d [] = Memᴰ.head refl
  placed-first d (e ∷ es) = elim (Bool-cases (leb (rank d) (rank e))) [
    | inl h ↦ rw h (Memᴰ.head refl)
    | inr h ↦ rw h (Memᴰ.tail (placed-first d es))
  ]

  placed-rest : (d : Doc) (es : List Doc) {c : Doc} → Memᴰ c es → Memᴰ c (placed d es)
  placed-rest d [] i = elim i [ ]
  placed-rest d (e ∷ es) i = elim (Bool-cases (leb (rank d) (rank e))) [
    | inl h ↦ rw h (Memᴰ.tail i)
    | inr h ↦
        rw h (elim i [
          | Memᴰ.head same ↦ Memᴰ.head same
          | Memᴰ.tail j ↦ Memᴰ.tail (placed-rest d es j)
        ])
  ]

  mem-placed : (d : Doc) (es : List Doc) {c : Doc} → Memᴰ c (placed d es) → Memᴰ c (d ∷ es)
  mem-placed d [] i = i
  mem-placed d (e ∷ es) {c} i = elim (Bool-cases (leb (rank d) (rank e))) [
    | inl h ↦ rw h at i
    | inr h ↦ swapped (λ j. mem-placed d es j) (rw h at i)
  ]
    where
      swapped :
          (Memᴰ c (placed d es) → Memᴰ c (d ∷ es)) → Memᴰ c (e ∷ placed d es) → Memᴰ c (d ∷ e ∷ es)
      swapped earlier (Memᴰ.head same) = Memᴰ.tail (Memᴰ.head same)
      swapped earlier (Memᴰ.tail j) = elim (earlier j) [
        | Memᴰ.head same ↦ Memᴰ.head same
        | Memᴰ.tail k ↦ Memᴰ.tail (Memᴰ.tail k)
      ]

  sorted-mem : (ds : List Doc) (c : Doc) → Memᴰ c ds → Memᴰ c (sorted ds)
  sorted-mem [] c i = i
  sorted-mem (d ∷ ds) c (Memᴰ.head same) = rw same (placed-first d (sorted ds))
  sorted-mem (d ∷ ds) c (Memᴰ.tail j) = placed-rest d (sorted ds) (sorted-mem ds c j)

  mem-sorted : (ds : List Doc) (c : Doc) → Memᴰ c (sorted ds) → Memᴰ c ds
  mem-sorted [] c i = i
  mem-sorted (d ∷ ds) c i = elim (mem-placed d (sorted ds) i) [
    | Memᴰ.head same ↦ Memᴰ.head same
    | Memᴰ.tail k ↦ Memᴰ.tail (mem-sorted ds c k)
  ]

abbrev insertion_sort : Sorting
insertion_sort = record {
  ascending = λ rank docs. sorted rank docs;
  ascending-mem = λ rank docs d i. sorted-mem rank docs d i;
  mem-ascending = λ rank docs d i. mem-sorted rank docs d i;
}

abbrev silent : Messages
silent = record { announce = λ t. pure tt; announce_keeps = λ t w. (refl, refl, refl) }

abbrev ended_call : ℕ → ℕ → Call
ended_call i now =
    over CallStatus.ended now 0 CallEndReason.user_hangup (new_call i 0 1 2 CallType.video 4000)

abbrev two_calls : List Call
two_calls = ended_call 3 6000 ∷ ended_call 4 5000 ∷ new_call 5 0 1 2 CallType.audio 4000 ∷ []

abbrev start : World
start = record empty_world { calls = two_calls; now = 7000; created = 9 }

-- The calls that are over are told of, the one that ended first before the other.
told_in_order :
    (create_missing_call_messages list_platform silent insertion_sort start).1.messages
    ≡ (create_call_message list_platform silent
        (ended_call 3 6000)
        (create_call_message list_platform silent (ended_call 4 5000) start).1).1.messages
unfolding opened
told_in_order = refl

tell_batches-tell_all_example :
    tell_batches list_platform silent 3 0 two_calls start
    ≡ tell_all list_platform silent two_calls start
tell_batches-tell_all_example =
    tell_batches-tell_all list_platform silent insertion_sort 3 two_calls start (λ t v. refl)
      (omega arith)

create_missing_call_messages-told_example :
    ((create_missing_call_messages list_platform silent insertion_sort start).0 ≡ ok tt)
    × (told list_platform 3
          (create_missing_call_messages list_platform silent insertion_sort start).1
        ≡ 1)
create_missing_call_messages-told_example =
    create_missing_call_messages-told list_platform silent insertion_sort start 3 (λ t v. refl)

tell_batches-fuel_example :
    tell_batches list_platform silent 3 0 two_calls start
    ≡ tell_batches list_platform silent 8 0 two_calls start
tell_batches-fuel_example =
    tell_batches-fuel list_platform silent 3 8 0 two_calls start (omega arith) (omega arith)
