-- ===== src/Auth/Granting.antt =====
-- To whom `refreshToken` gives a new pair of tokens.
use learn_nest_js.Shared.{
  ℕ, ◌≡◌, ◌==◌, ==_iff, refl, sym, arith, ap, ◌∙◌, String, Bool, true, false, not, str_eq, Option,
  none, some, inl, inr, Memᴰ, Option-cases, Bool-cases, eq_iff, subst,
}
use learn_nest_js.Shared.Errors.{Exception, AuthMessage}
use learn_nest_js.Shared.Action.{
  Result, ok, err, raise, raise_if, gets, pure, ◌>>=◌, ◌>>◌, Result-cases, bind_inv, past_check,
  try_catch_ok,
}
use learn_nest_js.Shared.Platform.{Platform}
use learn_nest_js.Shared.Documents.{found}
use learn_nest_js.Schemas.{User, Session}
use learn_nest_js.World.{World, Action, is_later}
use learn_nest_js.Users
use learn_nest_js.Sessions.Service.{find_by_id, revoke_with_cleanup, revoke_all_with_cleanup}
use learn_nest_js.Auth.Tokens.{Claims, TokenPair, RefreshTokens, safe_compare}
use learn_nest_js.Auth.Refresh.{
  refuse, is_past, read_claims, revoke_all_if, ban_refusal, check_holder, revoke_if, check_session,
  renew, use_session, use_claims, refresh, refresh_token, clean_up, or_expired,
}

never_ok :
    {A B : Type 0} (n : Action A) (e : Exception) (w : World) {b : B}
    → ((n >> raise {S = World} {A = B} e) w).0 ≡ ok b
    → ⊥
never_ok n e w h = let (a, d, went) = bind_inv n (λ u. raise e) h in clash (rw went at h)
  where
    clash : {A : Type 0} {a : A} {x : Exception} → err x ≡ ok a → ⊥
    clash k = cc

raise_if_inv :
    (b : Bool) (e : Exception) (w : World) {t : Unit {0}}
    → (raise_if b e w).0 ≡ ok t
    → (b ≡ false) × ((raise_if b e w).1 ≡ w)
raise_if_inv true e w h = absurd (clash h)
  where
    clash : {A : Type 0} {a : A} {x : Exception} → err x ≡ ok a → ⊥
    clash k = cc
raise_if_inv false e w h = (refl, refl)

module _ (m : Platform) where
  -- The user that the claims name, enabled, not banned and with the same token version.
  pub record Holds (claims : Claims) (w : World) (u : User) : Type 0 where
    pub is_stored : Memᴰ u w.users
    pub is_named : m.parse_object_id claims.user_id ≡ some u.id
    pub is_enabled : u.is_disabled ≡ false
    pub is_unbanned : is_later u.ban_until w.now ≡ false
    pub is_current : claims.token_version ≡ u.token_version

module _ (m : Platform) (tokens : RefreshTokens) where
  -- The session that the claims name, live, the user's, and with the hash of the token.
  pub record Backs (token : String) (claims : Claims) (w : World) (s : Session) : Type 0 where
    pub is_stored : Memᴰ s w.sessions
    pub is_named : m.parse_object_id claims.session_id ≡ some s.id
    pub is_live : s.is_revoked ≡ false
    pub is_unexpired : is_past s.expires_at w.now ≡ false
    pub is_owned : m.object_id_text s.user_id ≡ claims.user_id
    pub is_matched : s.refresh_token_hash ≡ some (tokens.hash token)

  revoke_all_if_inv :
      (b : Bool) (id : String) (e : Exception) (w : World) {t : Unit {0}}
      → (revoke_all_if m tokens b id e w).0 ≡ ok t
      → (b ≡ false) × ((revoke_all_if m tokens b id e w).1 ≡ w)
  revoke_all_if_inv true id e w h = absurd (never_ok (revoke_all_with_cleanup m id) e w h)
  revoke_all_if_inv false id e w h = (refl, refl)

  revoke_if_inv :
      (b : Bool) (id user : String) (e : Exception) (w : World) {t : Unit {0}}
      → (revoke_if m tokens b id user e w).0 ≡ ok t
      → (b ≡ false) × ((revoke_if m tokens b id user e w).1 ≡ w)
  revoke_if_inv true id user e w h = absurd (never_ok (revoke_with_cleanup m id user) e w h)
  revoke_if_inv false id user e w h = (refl, refl)

  -- What is asked of the user that was found.
  abbrev check_user : Claims → User → Action (Unit {0})
  check_user claims user = do
    revoke_all_if m tokens user.is_disabled claims.user_id (refuse AuthMessage.user_disabled)
    now ← gets (λ w. w.now)
    revoke_all_if m tokens (is_later user.ban_until now) claims.user_id
        (ban_refusal m tokens user.ban_until)
    revoke_all_if m tokens (not (claims.token_version == user.token_version)) claims.user_id
        (refuse AuthMessage.invalid_token)

  check_user_inv :
      (claims : Claims) (u : User) (w : World) {t : Unit {0}}
      → (check_user claims u w).0 ≡ ok t
      → (u.is_disabled ≡ false)
        × (is_later u.ban_until w.now ≡ false)
        × (not (claims.token_version == u.token_version) ≡ false)
        × ((check_user claims u w).1 ≡ w)
  check_user_inv claims u w h =
      let id = claims.user_id in
      let disabled = revoke_all_if m tokens u.is_disabled id (refuse AuthMessage.user_disabled) in
      let banned =
        revoke_all_if m tokens (is_later u.ban_until w.now) id (ban_refusal m tokens u.ban_until) in
      let stale =
        revoke_all_if m tokens (not (claims.token_version == u.token_version)) id
          (refuse AuthMessage.invalid_token) in
      let (_, a, one) =
        past_check disabled
          (λ t v.
            (revoke_all_if m tokens (is_later u.ban_until v.now) id
                  (ban_refusal m tokens u.ban_until)
                >> stale)
              v)
          w h (λ t e. (revoke_all_if_inv u.is_disabled id _ w e).1) in
      let (_, b, two) =
        past_check banned (λ t. stale) w (rw one at h)
          (λ t e. (revoke_all_if_inv (is_later u.ban_until w.now) id _ w e).1) in
      let went = one ∙ two in
      let last =
        revoke_all_if_inv (not (claims.token_version == u.token_version)) id _ w (rw went at h) in
      (
        (revoke_all_if_inv u.is_disabled id _ w a).0,
        (revoke_all_if_inv (is_later u.ban_until w.now) id _ w b).0,
        last.0,
        ap (λ r. r.1) went ∙ last.1,
      )

  check_holder_inv :
      (claims : Claims) (w : World) {t : Unit {0}}
      → (check_holder m tokens claims w).0 ≡ ok t
      → ((check_holder m tokens claims w).1 ≡ w) × ((u : User) × Holds m claims w u)
  unfolding check_holder Users.find_one
  check_holder_inv claims w h = elim (Option-cases (m.parse_object_id claims.user_id)) [
    | inl e ↦ absurd (ground (arith, e, h))
    | inr (i, e) ↦ elim (Option-cases (m.find_one (λ u. u.id == i) w.users)) [
      | inl d ↦ absurd (ground (arith, e, d, h))
      | inr (u, d) ↦
          let (mine, here) = found m (λ u. u.id == i) w.users d in
          let (a, b, c, kept) = check_user_inv claims u w (rw (e, d) at h) in
          (
            rw (e, d) kept,
            (
              u,
              record {
                is_stored = here;
                is_named = e ∙ ap some (sym ((==_iff u.id i).0 mine));
                is_enabled = a;
                is_unbanned = b;
                is_current = ground (arith, c);
              },
            ),
          )
    ]
  ]

  abbrev check_stored : String → Claims → Session → Action Session
  check_stored token claims session = do
    raise_if session.is_revoked (refuse AuthMessage.session_revoked)
    now ← gets (λ w. w.now)
    revoke_if m tokens (is_past session.expires_at now) (m.object_id_text session.id) claims.user_id
        (refuse AuthMessage.session_expired)
    raise_if (not (str_eq (m.object_id_text session.user_id) claims.user_id))
        (refuse AuthMessage.invalid_token)
    raise_if (not (safe_compare (some (tokens.hash token)) session.refresh_token_hash))
        (refuse AuthMessage.invalid_refresh_token)
    pure session

  abbrev check_hash : String → Claims → Session → Action Session
  check_hash token claims session = do
    raise_if (not (str_eq (m.object_id_text session.user_id) claims.user_id))
        (refuse AuthMessage.invalid_token)
    raise_if (not (safe_compare (some (tokens.hash token)) session.refresh_token_hash))
        (refuse AuthMessage.invalid_refresh_token)
    pure session

  same_hash :
      (text : String) (o : Option String) → safe_compare (some text) o ≡ true → o ≡ some text
  same_hash text none h = ground (arith, h)
  same_hash text (some other) h = ap some (sym ((eq_iff text other).0 h))

  check_hash_inv :
      (token : String) (claims : Claims) (s : Session) (w : World) {t : Session}
      → (check_hash token claims s w).0 ≡ ok t
      → (m.object_id_text s.user_id ≡ claims.user_id)
        × (s.refresh_token_hash ≡ some (tokens.hash token))
        × (check_hash token claims s w ≡ (ok s, w))
  check_hash_inv token claims s w h =
      elim (Bool-cases (str_eq (m.object_id_text s.user_id) claims.user_id)) [
        | inl a ↦ elim (Bool-cases (safe_compare (some (tokens.hash token)) s.refresh_token_hash)) [
          | inl b ↦ (
            (eq_iff (m.object_id_text s.user_id) claims.user_id).0 a,
            same_hash (tokens.hash token) s.refresh_token_hash b,
            rw (a, b) refl,
          )
          | inr b ↦ absurd (clash (rw (a, b) at h))
        ]
        | inr a ↦ absurd (clash (rw a at h))
      ]
    where
      clash : {A : Type 0} {a : A} {x : Exception} → err x ≡ ok a → ⊥
      clash k = cc

  check_stored_inv :
      (token : String) (claims : Claims) (s : Session) (w : World) {t : Session}
      → (check_stored token claims s w).0 ≡ ok t
      → (s.is_revoked ≡ false)
        × (is_past s.expires_at w.now ≡ false)
        × (m.object_id_text s.user_id ≡ claims.user_id)
        × (s.refresh_token_hash ≡ some (tokens.hash token))
        × (check_stored token claims s w ≡ (ok s, w))
  check_stored_inv token claims s w h =
      let live = raise_if {S = World} s.is_revoked (refuse AuthMessage.session_revoked) in
      let expired = λ (now : ℕ).
        revoke_if m tokens (is_past s.expires_at now) (m.object_id_text s.id) claims.user_id
          (refuse AuthMessage.session_expired) in
      let (_, a, one) =
        past_check live (λ t v. (expired v.now >> check_hash token claims s) v) w h
          (λ t e. (raise_if_inv s.is_revoked _ w e).1) in
      let (_, b, two) =
        past_check (expired w.now) (λ t. check_hash token claims s) w (rw one at h)
          (λ t e. (revoke_if_inv (is_past s.expires_at w.now) _ _ _ w e).1) in
      let went = one ∙ two in
      let (c, d, last) = check_hash_inv token claims s w (rw went at h) in
      (
        (raise_if_inv s.is_revoked _ w a).0,
        (revoke_if_inv (is_past s.expires_at w.now) _ _ _ w b).0,
        c,
        d,
        went ∙ last,
      )

  ok_inj : {A : Type 0} {a b : A} → ok a ≡ ok b → a ≡ b
  ok_inj h = cc

  find_session_inv :
      (id : String) (w : World) {o : Option Session}
      → (find_by_id m id w).0 ≡ ok o
      → ((find_by_id m id w).1 ≡ w)
        × ((s : Session) → o ≡ some s → Memᴰ s w.sessions × (m.parse_object_id id ≡ some s.id))
  unfolding find_by_id
  find_session_inv id w h = elim (Option-cases (m.parse_object_id id)) [
    | inl e ↦ absurd (ground (arith, e, h))
    | inr (i, e) ↦
        let o = m.find_one (λ s. s.id == i) w.sessions in
        let same = ok_inj (rw e at h) in
        (
          rw e refl,
          λ s is.
              let (mine, here) = found m (λ s. s.id == i) w.sessions (same ∙ is) in
              (here, e ∙ ap some (sym ((==_iff s.id i).0 mine))),
        )
  ]

  check_session_inv :
      (token : String) (claims : Claims) (o : Option Session) (w : World) {t : Session}
      → ((s : Session)
          → o ≡ some s
          → Memᴰ s w.sessions × (m.parse_object_id claims.session_id ≡ some s.id))
      → (check_session m tokens token claims o w).0 ≡ ok t
      → Backs token claims w t × ((check_session m tokens token claims o w).1 ≡ w)
  unfolding check_session
  check_session_inv token claims none w stored h = absurd (ground (arith, h))
  check_session_inv token claims (some s) w {t} stored h =
      let (live, unexpired, owned, matched, same) = check_stored_inv token claims s w h in
      let (here, named) = stored s refl in
      let it : s ≡ t = ok_inj (sym (ap (λ r. r.0) same) ∙ h) in
      (
        subst (λ x. Backs token claims w x) it
            (record {
              is_stored = here;
              is_named = named;
              is_live = live;
              is_unexpired = unexpired;
              is_owned = owned;
              is_matched = matched;
            }),
        ap (λ r. r.1) same,
      )

  use_session_inv :
      (token : String) (claims : Claims) (w : World) {pair : TokenPair}
      → (use_session m tokens token claims w).0 ≡ ok pair
      → (s : Session) × Backs token claims w s
        × (use_session m tokens token claims w ≡ renew m tokens claims s w)
  use_session_inv token claims w h =
      let find = find_by_id m claims.session_id in
      let check = check_session m tokens token claims in
      let (s, c, went) = bind_inv (find >>= check) (renew m tokens claims) h in
      let (o, d, more) = past_check find check w c (λ o e. (find_session_inv _ w e).0) in
      let (backs, kept) =
        check_session_inv token claims o w (find_session_inv _ w d).1 (rw more at c) in
      (s, backs, went ∙ ap (renew m tokens claims s) (ap (λ r. r.1) more ∙ kept))

  refresh_inv :
      (token : String) (w : World) {pair : TokenPair}
      → (refresh m tokens token w).0 ≡ ok pair
      → (claims : Claims) × (s : Session) × (tokens.verify token w.now ≡ ok claims)
        × ((u : User) × Holds m claims w u)
        × Backs token claims w s
        × (refresh m tokens token w ≡ renew m tokens claims s w)
  unfolding refresh
  refresh_inv token w h =
      let (claims, e, went) = bind_inv (read_claims m tokens token) (use_claims m tokens token) h in
      let (_, d, more) =
        past_check (check_holder m tokens claims) (λ t. use_session m tokens token claims) w
          (rw went at h) (λ t e. (check_holder_inv claims w e).0) in
      let (s, backs, last) = use_session_inv token claims w (rw (went ∙ more) at h) in
      (claims, s, e, (check_holder_inv claims w d).1, backs, went ∙ more ∙ last)

  -- Where `refreshToken` gives a new pair: the token verifies; the user that it names is stored,
  -- enabled, not banned, and has the token version that it carries; the session that it names is
  -- stored, neither revoked nor expired, belongs to that user and holds the hash of the token; and
  -- what is done is to renew that session, and nothing else.
  pub refresh_token_inv :
      (token : String) (w : World) {pair : TokenPair}
      → (refresh_token m tokens token w).0 ≡ ok pair
      → (claims : Claims) × (s : Session) × (tokens.verify token w.now ≡ ok claims)
        × ((u : User) × Holds m claims w u)
        × Backs token claims w s
        × (refresh_token m tokens token w ≡ renew m tokens claims s w)
  unfolding refresh_token refresh
  refresh_token_inv token w {pair} h = elim (Bool-cases (str_eq token "")) [
    | inl e ↦ absurd (clash (rw e at h))
    | inr e ↦ elim (Result-cases (refresh m tokens token w).0) [
      | inl (x, d) ↦
          let v = (refresh m tokens token w).1 in
          let failed : ((clean_up m tokens token x
                  >> raise {S = World} {A = TokenPair} (or_expired x))
                v).0
              ≡ ok pair =
            rw (e, d) at h in
          absurd (never_ok (clean_up m tokens token x) (or_expired x) v failed)
      | inr (a, d) ↦
          let (claims, s, verified, holds, backs, went) = refresh_inv token w d in
          let handler = λ (x : Exception).
            clean_up m tokens token x >> raise {S = World} {A = TokenPair} (or_expired x) in
          let same =
            try_catch_ok (refresh m tokens token) handler (pair_eq (refresh m tokens token w) d) in
          (claims, s, verified, holds, backs, rw e (same ∙ sym (pair_eq _ d) ∙ went))
    ]
  ]
    where
      clash : {A : Type 0} {a : A} {x : Exception} → err x ≡ ok a → ⊥
      clash k = cc

      pair_eq : {A : Type 0} (r : Result A × World) {a : A} → r.0 ≡ ok a → r ≡ (ok a, r.1)
      pair_eq (x, t) e = ap (λ y. (y, t)) e
