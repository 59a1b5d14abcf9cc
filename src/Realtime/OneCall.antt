-- ===== src/Realtime/OneCall.antt =====
-- That no user is in two calls (`startCall` of modules/realtime/realtime-call.service.ts).
use learn_nest_js.Shared.{
  ℕ, ◌≤◌, ◌≡◌, refl, sym, ap, subst, ◌∙◌, arith, String, Bool, true, ◌&&◌, ◌||◌, ◌==◌, ==_iff,
  Option, none, some, inl, inr, List, [], ◌∷◌, ◌++◌, Option-cases, Bool-cases, is_some, count,
}
use learn_nest_js.Shared.Errors.{CallMessage}
use learn_nest_js.Shared.Action.{
  ok, raise, raise_if, Result-cases, bind_ok, bind_leaves, ◌>>=◌, ◌>>◌,
}
use learn_nest_js.Shared.Platform.{Platform}
use learn_nest_js.Shared.Redis.{Redis, RedisKey, chars}
use learn_nest_js.Shared.Counting.{count-insert, count_of_missed}
use learn_nest_js.Schemas.{Call, CallType, User}
use learn_nest_js.World.{World, Action}
use learn_nest_js.RedisService.{
  until, get, del, incr_with_ttl, set_with_ttl, set_if_not_exists_with_ttl,
}
use learn_nest_js.Users.{check_user}
use learn_nest_js.Relationships.Query.{check_is_blocked, check_is_friend}
use learn_nest_js.Conversations.Access.{get_or_throw, ensure_member}
use learn_nest_js.Calls.Query.{is_active, is_party, find_active_by_user}
use learn_nest_js.Calls.Change.{refuse, new_call, insert_call, check_call, create_call}
use learn_nest_js.Realtime.StartCall.{
  finally_do, release, lock_rest, limit_count, ensure_start_call_rate_limit, start_locked,
  start_with_locks, start_call, start_call_lock_keys,
}

abbrev pub engages : ℕ → Call → Bool
engages user c = is_active c.status && is_party user c

-- No user is in two calls.
abbrev pub IsSingle : List Call → Type 0
IsSingle calls = (user : ℕ) → count (engages user) calls ≤ 1

module _ (redis : Redis) where
  release_calls : (keys : List RedisKey) (w : World) → (release redis keys w).1.calls ≡ w.calls
  unfolding release del
  release_calls [] w = refl
  release_calls (key ∷ keys) w = release_calls keys (record w { keys = redis.del key w.keys })

  pub release_ok : (keys : List RedisKey) (w : World) → (release redis keys w).0 ≡ ok tt
  unfolding release del
  release_ok [] w = refl
  release_ok (key ∷ keys) w = release_ok keys (record w { keys = redis.del key w.keys })

  lock_rest_calls :
      (acquired keys : List RedisKey) (w : World)
      → (lock_rest redis acquired keys w).1.calls ≡ w.calls
  unfolding lock_rest set_if_not_exists_with_ttl
  lock_rest_calls acquired [] w = refl
  lock_rest_calls acquired (key ∷ keys) w =
      let tried = redis.set_nx key (chars "locked") (until w.now 5) w.now w.keys in
      let v = record w { keys = tried.1 } in
      elim (Bool-cases tried.0) [
        | inl h ↦ rw h (lock_rest_calls (acquired ++ key ∷ []) keys v)
        | inr h ↦ rw h (
            rw
              (bind_ok (release redis acquired)
                (λ _. raise {A = Unit {0}} (refuse CallMessage.call_busy)) {s = v}
                (release_ok acquired v))
              (release_calls acquired v))
      ]

  rate_limit_calls :
      (user : String) (w : World) → (ensure_start_call_rate_limit redis user w).1.calls ≡ w.calls
  unfolding ensure_start_call_rate_limit limit_count get incr_with_ttl set_with_ttl
  rate_limit_calls user w = ground arith

module _ (m : Platform) where
  find_active_inv :
      (user : String) (w : World)
      → (find_active_by_user m user w).0 ≡ ok none
      → (i : ℕ) × (m.parse_object_id user ≡ some i) × (count (engages i) w.calls ≡ 0)
  unfolding find_active_by_user
  find_active_inv user w h = elim (Option-cases (m.parse_object_id user)) [
    | inl e ↦ absurd (ground (arith, e, h))
    | inr (i, e) ↦ (i, e, count_of_missed m (engages i) w.calls (ground (arith, e, h)))
  ]

  find_active_keeps : (user : String) (w : World) → (find_active_by_user m user w).1 ≡ w
  unfolding find_active_by_user
  find_active_keeps user w = ground arith

  check_call_keeps : (a b c : String) (w : World) → (check_call m a b c w).1 ≡ w
  unfolding check_call check_user check_is_blocked check_is_friend get_or_throw ensure_member
  check_call_keeps a b c w = ground arith

  check_user_inv :
      (id : String) (w : World) {p : User × ℕ}
      → (check_user m id true true true w).0 ≡ ok p
      → m.parse_object_id id ≡ some p.1
  unfolding check_user
  check_user_inv id w h = elim (Option-cases (m.parse_object_id id)) [
    | inl e ↦ absurd (ground (arith, e, h))
    | inr (i, e) ↦ elim (Option-cases (m.find_one (λ u. u.id == i) w.users)) [
      | inl d ↦ absurd (ground (arith, e, d, h))
      | inr (u, d) ↦ ground (arith, e, d, h)
    ]
  ]

  insert_call-IsSingle :
      (i j conversation : ℕ) (kind : CallType) (w : World)
      → IsSingle w.calls
      → count (engages i) w.calls ≡ 0
      → count (engages j) w.calls ≡ 0
      → IsSingle (insert_call m i j conversation kind w).1.calls
  unfolding insert_call
  insert_call-IsSingle i j conversation kind w single free_i free_j user =
      let call = new_call (m.new_object_id w.created) i j conversation kind w.now in
      let more = count-insert m (engages user) call w.calls in
      let one = single user in
      elim (Bool-cases (i == user)) [
        | inl h ↦
            let it = (==_iff i user).0 h in
            let free = rw it at free_i in rw (more, h) (omega (arith, free))
        | inr h ↦ elim (Bool-cases (j == user)) [
          | inl k ↦
              let it = (==_iff j user).0 k in
              let free = rw it at free_j in rw (more, h, k) (omega (arith, free))
          | inr k ↦ rw (more, h, k) (omega arith)
        ]
      ]

  check_call_inv :
      (a b c : String) (w : World) {i j k : ℕ}
      → (check_call m a b c w).0 ≡ ok (i, j, k)
      → (m.parse_object_id a ≡ some i) × (m.parse_object_id b ≡ some j)
  unfolding check_call
  check_call_inv a b c w {i} {j} {k} h = elim (Result-cases (check_user m a true true true w).0) [
    | inl (x, e) ↦ absurd (ground (arith, e, h))
    | inr (p, e) ↦
        elim (Result-cases (check_user m b true true true (check_user m a true true true w).1).0) [
          | inl (y, d) ↦ absurd (ground (arith, e, d, h))
          | inr (q, d) ↦
              let named = check_user_inv a w e in
              let named' = check_user_inv b (check_user m a true true true w).1 d in
              let same : (p.1 ≡ i) × (q.1 ≡ j) = ground (arith, e, d, h) in
              (named ∙ ap some (same.0), named' ∙ ap some (same.1))
        ]
  ]

  create_call-IsSingle :
      (a b c : String) (kind : CallType) (w : World)
      → (find_active_by_user m a w).0 ≡ ok none
      → (find_active_by_user m b w).0 ≡ ok none
      → IsSingle w.calls
      → IsSingle (create_call m a b c kind w).1.calls
  unfolding create_call
  create_call-IsSingle a b c kind w free_a free_b single =
      let kept = check_call_keeps a b c w in
      bind_leaves (λ v. IsSingle v.calls) (check_call m a b c)
        (λ ids. let (i, j, k) = ids in insert_call m i j k kind) w
        (λ x e. subst (λ v. IsSingle v.calls) (sym kept) single)
        (λ ids e.
          let (i, j, k) = ids in
          let (named, named') = check_call_inv a b c w {i = i} {j = j} {k = k} e in
          let (i', parsed, none_i) = find_active_inv a w free_a in
          let (j', parsed', none_j) = find_active_inv b w free_b in
          let it = some_same (sym parsed ∙ named) in
          let it' = some_same (sym parsed' ∙ named') in
          subst (λ v. IsSingle (insert_call m i j k kind v).1.calls) (sym kept)
            (insert_call-IsSingle i j k kind w single (rw it at none_i) (rw it' at none_j)))
    where
      some_same : {x y : ℕ} → some x ≡ some y → x ≡ y
      some_same k = cc

  abbrev busy_or_create :
      String → String → String → CallType → Option Call → Option Call → Action Call
  busy_or_create a b c kind o p =
      raise_if (is_some o || is_some p) (refuse CallMessage.call_busy) >> create_call m a b c kind

  busy_or_create-IsSingle :
      (a b c : String) (kind : CallType) (w : World) (o p : Option Call)
      → (find_active_by_user m a w).0 ≡ ok o
      → (find_active_by_user m b w).0 ≡ ok p
      → IsSingle w.calls
      → IsSingle (busy_or_create a b c kind o p w).1.calls
  busy_or_create-IsSingle a b c kind w none none e d single =
      create_call-IsSingle a b c kind w e d single
  busy_or_create-IsSingle a b c kind w none (some q) e d single = single
  busy_or_create-IsSingle a b c kind w (some q) p e d single = single

  start_locked-IsSingle :
      (a b c : String) (kind : CallType) (w : World)
      → IsSingle w.calls
      → IsSingle (start_locked m a b c kind w).1.calls
  unfolding start_locked
  start_locked-IsSingle a b c kind w single =
      let same = sym (find_active_keeps a w) in
      let same' = sym (find_active_keeps b w) in
      let rest : Option Call → Action Call =
        λ o. find_active_by_user m b >>= λ p. busy_or_create a b c kind o p in
      bind_leaves (λ v. IsSingle v.calls) (find_active_by_user m a) rest w
        (λ x e. subst (λ v. IsSingle v.calls) same single)
        (λ o e.
          subst (λ v. IsSingle (rest o v).1.calls) same
            (bind_leaves (λ v. IsSingle v.calls) (find_active_by_user m b)
              (λ p. busy_or_create a b c kind o p) w
              (λ x d. subst (λ v. IsSingle v.calls) same' single)
              (λ p d.
                subst (λ v. IsSingle (busy_or_create a b c kind o p v).1.calls) same'
                  (busy_or_create-IsSingle a b c kind w o p e d single))))

  module _ (redis : Redis) where
    start_with_locks-IsSingle :
        (keys : List RedisKey) (a b c : String) (kind : CallType) (w : World)
        → IsSingle w.calls
        → IsSingle (start_with_locks m redis keys (start_locked m a b c kind) w).1.calls
    unfolding start_with_locks
    start_with_locks-IsSingle keys a b c kind w single =
        let v = (lock_rest redis [] keys w).1 in
        let same = sym (lock_rest_calls redis [] keys w) in
        let begun = subst IsSingle same single in
        bind_leaves (λ x. IsSingle x.calls) (lock_rest redis [] keys)
          (λ _. finally_do (start_locked m a b c kind) (release redis keys)) w (λ x e. begun)
          (λ _ e.
            subst IsSingle (sym (release_calls redis keys (start_locked m a b c kind v).1))
              (start_locked-IsSingle a b c kind v begun))

    -- Where no user is in two calls that ring or run, `startCall` keeps it so, whatever it is asked for and whether it
    -- succeeds or throws.
    pub start_call-IsSingle :
        (caller callee conversation : String) (kind : CallType) (w : World)
        → IsSingle w.calls
        → IsSingle (start_call m redis caller callee conversation kind w).1.calls
    unfolding start_call
    start_call-IsSingle caller callee conversation kind w single =
        let v = (ensure_start_call_rate_limit redis caller w).1 in
        let begun = subst IsSingle (sym (rate_limit_calls redis caller w)) single in
        let keys = start_call_lock_keys caller callee in
        bind_leaves (λ x. IsSingle x.calls) (ensure_start_call_rate_limit redis caller)
          (λ _. start_with_locks m redis keys (start_locked m caller callee conversation kind)) w
          (λ x e. begun)
          (λ _ e. start_with_locks-IsSingle keys caller callee conversation kind v begun)
