-- ===== src/Auth/Replay.antt =====
-- That a refresh token is used once, and not after its user has logged out or been banned.
use learn_nest_js.Shared.{
  ℕ, ◌≡◌, ◌≢◌, ◌≤◌, ◌==◌, ==_iff, refl, sym, arith, ap, ◌∙◌, ◌+◌, String, Bool, true, not, ◌&&◌,
  some, inl, inr, count, Bool-cases,
}
use learn_nest_js.Shared.Action.{ok}
use learn_nest_js.Shared.Platform.{Platform}
use learn_nest_js.Shared.Documents.{update_of_mem, update_hit}
use learn_nest_js.Shared.Counting.{the_only, count-update_same}
use learn_nest_js.Schemas.{Session}
use learn_nest_js.World.{World}
use learn_nest_js.Sessions.Service.{write, rotate}
use learn_nest_js.Auth.Tokens.{Claims, TokenPair, RefreshTokens, generate_jwt}
use learn_nest_js.Auth.Refresh.{renew, refresh_token}
use learn_nest_js.Auth.Granting.{refresh_token_inv}

abbrev is_rotated : Session → Session → Bool
is_rotated s x = x.id == s.id && not x.is_revoked

module _ (m : Platform) (tokens : RefreshTokens) where
  abbrev rotated : String → ℕ → ℕ → Session → Session
  rotated hash expires now s = record s {
    refresh_token_hash = some hash;
    expires_at = some expires;
    last_used_at = some now;
  }

  ok_inj : {A : Type 0} {a b : A} → ok a ≡ ok b → a ≡ b
  ok_inj h = cc

  pub some_inj : {A : Type 0} {a b : A} → some a ≡ some b → a ≡ b
  some_inj h = cc

  renew_writes :
      (claims : Claims) (s : Session) (w : World) {pair : TokenPair}
      → (renew m tokens claims s w).0 ≡ ok pair
      → (renew m tokens claims s w).1.sessions
        ≡ (m.find_one_and_update
            (is_rotated s)
            (rotated (tokens.hash pair.refresh_token) pair.expire_date w.now)
            w.sessions).1
  unfolding renew rotate generate_jwt
  renew_writes claims s w {pair} h = elim (Bool-cases w.sessions_down) [
    | inl down ↦ absurd (ground (arith, down, m.parse-text s.id, h))
    | inr up ↦
        let made : TokenPair = record {
          access_token = tokens.sign_access claims w.now;
          refresh_token = tokens.sign_refresh claims w.now;
          expire_date = w.now + tokens.lifetime;
        } in
        let same : made ≡ pair = ok_inj (rw (m.parse-text s.id, up) at h) in
        let wrote = λ (p : TokenPair).
          (m.find_one_and_update (is_rotated s)
            (rotated (tokens.hash p.refresh_token) p.expire_date w.now) w.sessions).1 in
        rw (m.parse-text s.id) (simp (up, write) (ap wrote same))
  ]

  -- Where no two sessions have one id: once a token has been exchanged for a new pair, and the new
  -- refresh token has another hash, the old one is never granted anything again, at whatever time
  -- it is presented next.
  pub refresh_token-once :
      (token : String) (w : World) (t : ℕ) {pair again : TokenPair}
      → ((i : ℕ) → count (λ s. s.id == i) w.sessions ≤ 1)
      → (refresh_token m tokens token w).0 ≡ ok pair
      → tokens.hash pair.refresh_token ≢ tokens.hash token
      → ¬ (
          (refresh_token m tokens token (record (refresh_token m tokens token w).1 { now = t })).0
          ≡ ok again)
  refresh_token-once token w t {pair} unique granted other replayed =
      let v = record (refresh_token m tokens token w).1 { now = t } in
      let (claims, s, verified, _, backs, went) = refresh_token_inv m tokens token w granted in
      let (claims', s', verified', _, backs', _) = refresh_token_inv m tokens token v replayed in
      let f = rotated (tokens.hash pair.refresh_token) pair.expire_date w.now in
      let after = (m.find_one_and_update (is_rotated s) f w.sessions).1 in
      let writes : v.sessions ≡ after =
        ap (λ r. r.1.sessions) went
        ∙ renew_writes claims s w (sym (ap (λ r. r.0) went) ∙ granted) in
      let live = backs.is_live in
      let match : is_rotated s s ≡ true = rw live (ground (arith, (==_iff s.id s.id).1 refl)) in
      let (e, hit) = update_of_mem m (is_rotated s) f w.sessions s backs.is_stored match in
      let (d, same, made, _, stored) = update_hit m (is_rotated s) f w.sessions hit in
      let one : count (λ x. x.id == s.id) after ≤ 1 =
        rw (count-update_same m (λ x. x.id == s.id) (is_rotated s) f w.sessions (λ x k. refl))
          (unique s.id) in
      let claim = tokens.verify_again token w.now t claims claims' verified verified' in
      let named =
        sym backs'.is_named
        ∙ ap (λ c. m.parse_object_id c.session_id) (sym claim)
        ∙ backs.is_named in
      let mine : (s'.id == s.id) ≡ true = (==_iff s'.id s.id).1 (some_inj named) in
      let here : (e.id == s.id) ≡ true = rw made (ground (arith, same)) in
      let it : s' ≡ e =
        the_only (λ x. x.id == s.id) after one (rw writes at backs'.is_stored) stored mine here in
      let hash = ap (λ x. x.refresh_token_hash) (sym made ∙ sym it) ∙ backs'.is_matched in
      other (some_inj hash)
