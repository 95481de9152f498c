-- ===== src/Auth/CodeGrant/Cycle.antt =====
-- A code that CreateAuthorizationCode of internal/auth/exchange.go made is redeemed by the client that it is bound to.
use host_manager.Base.{
  ℕ, ◌+◌, ◌/◌, ◌<◌, Bytes, text, beq, beq_iff, beq_self, GoMap, ◌≡◌, ◌≢◌, refl, ◌∙◌, ap, inl, inr,
  false, some, [], ltb, Bool-cases, if◌then◌else◌, arith,
}
use host_manager.Auth.Refresh.{TokenSet, Kept, Exchanger, granted, second, read, keep, read-keep}
use host_manager.Auth.Refresh.Redeem.{
  mints, proceed, refuse_revoked_authentication, create_refresh_token,
}
use host_manager.Auth.CodeGrant.{
  AuthorizationCodeClaims, Opened, opened, CodeStore, CodeClient, CodeServices, Conditions,
  CodeRequest, auth_code_ttl, pkce_method_s256, check_pkce, check_code_client, check_code,
  consume_code, start_session, mint_code, redeem_opened, redeem_authorization_code, complete,
  create_authorization_code,
}
use host_manager.Auth.CodeGrant.Bound.{HasProofKey, IsBound}

module _ (s256 : Bytes → Bytes) where
  HasProofKey-proceed :
      (c : AuthorizationCodeClaims) (client : CodeClient) (verifier : Bytes)
      → HasProofKey s256 c client verifier
      → check_pkce s256 c client verifier ≡ proceed
  unfolding check_pkce
  HasProofKey-proceed c client verifier (needed, proof) =
      elim (Bool-cases (beq c.code_challenge [])) [
        | inl y ↦
            let off : client.require_pkce ≡ false =
              ground (arith, needed, (beq_iff c.code_challenge []).0 y) in
            rw (y, off) refl
        | inr y ↦
            let (given, method, same) = proof (ground (arith, y, beq_self c.code_challenge)) in
            let one : beq verifier [] ≡ false = ground (arith, given, beq_iff verifier []) in
            let two = (beq_iff c.code_challenge_method pkce_method_s256).1 method in
            let three = (beq_iff (s256 verifier) c.code_challenge).1 same in
            rw (y, one, two, three) (ground arith)
      ]

  -- The checks of a code pass where it is bound.
  pub IsBound-proceed :
      (v : CodeServices) (now : ℕ) (c : AuthorizationCodeClaims) (r : CodeRequest)
      → IsBound s256 v now c r
      → check_code s256 v now c r ≡ proceed
  unfolding check_code check_code_client refuse_revoked_authentication
  IsBound-proceed v now c r (live, id, uri, since, (client, found, proof)) =
      let one : ltb c.exp (now / second) ≡ false = ground (arith, live) in
      let two = (beq_iff c.client_id r.client_id).1 id in
      let three = (beq_iff c.redirect_uri r.redirect_uri).1 uri in
      rw
        (
          check_code, one, two, three, refuse_revoked_authentication, since, check_code_client,
          found,
        )
        (HasProofKey-proceed c client r.code_verifier proof)

-- The tokens that a redemption issues
abbrev pub issued : Exchanger → Conditions → TokenSet → TokenSet
issued e w ts = if e.enabled then record ts { refresh_token = w.refresh_id } else ts

start_session-granted :
    (e : Exchanger) (w : Conditions) (c : AuthorizationCodeClaims) (ts : TokenSet) (s : CodeStore)
    → w.create_fails ≡ false
    → (start_session e w c ts s).1 ≡ granted (issued e w ts)
unfolding start_session create_refresh_token
start_session-granted e w c ts s h = elim (Bool-cases e.enabled) [
  | inl y ↦ simp (start_session, y, h) refl
  | inr y ↦ simp (start_session, y) refl
]

consume-held :
    (w : Conditions) (c : AuthorizationCodeClaims) (s : CodeStore) (codes : GoMap (Kept Bytes))
    (held : Bytes)
    → s.codes ≡ some codes
    → c.jti ≢ []
    → w.consume_fails ≡ false
    → read w.now c.jti codes ≡ some held
    → (consume_code w c s).1 ≡ proceed
unfolding consume_code
consume-held w c s codes held h id f k =
    let one : beq c.jti [] ≡ false = ground (arith, id, beq_iff c.jti []) in
    rw (consume_code, h, one, f, k) refl

module _ (unseal : Bytes → Opened) (s256 : Bytes → Bytes) where
  -- A code that is bound and whose id is held.
  redeem-held :
      (e : Exchanger) (v : CodeServices) (w : Conditions) (r : CodeRequest)
      (c : AuthorizationCodeClaims) (s : CodeStore) (ts : TokenSet)
      → unseal r.code ≡ opened c
      → check_code s256 v w.now c r ≡ proceed
      → (consume_code w c s).1 ≡ proceed
      → w.create_fails ≡ false
      → v.mint_tokens_from_code c ≡ mints ts
      → (redeem_authorization_code unseal s256 e v w r s).1 ≡ granted (issued e w ts)
  unfolding redeem_authorization_code redeem_opened mint_code
  redeem-held e v w r c s ts u k l g m =
      rw (redeem_authorization_code, u, redeem_opened, k, l, mint_code, m)
        (start_session-granted e w c ts (consume_code w c s).0 g)

module _ (seal : AuthorizationCodeClaims → Bytes) (unseal : Bytes → Opened)
    (s256 : Bytes → Bytes) where
  -- Where there is a code cache, the sealed claims open again and the id is not empty: a code that is created
  -- is redeemed for tokens by any request that meets its bindings (client, redirect and proof key), before it
  -- expires and within the cache's fifteen minutes, if its subject is not revoked, no cache call fails and the
  -- mint succeeds.
  pub create-redeem :
      (e : Exchanger) (v : CodeServices) (w : Conditions) (r : CodeRequest) (now : ℕ) (id : Bytes)
      (c : AuthorizationCodeClaims) (s : CodeStore) (codes : GoMap (Kept Bytes)) (ts : TokenSet)
      → s.codes ≡ some codes
      → (complete now id c).jti ≢ []
      → unseal (seal (complete now id c)) ≡ opened (complete now id c)
      → r.code ≡ seal (complete now id c)
      → IsBound s256 v w.now (complete now id c) r
      → w.now < now + auth_code_ttl
      → w.consume_fails ≡ false
      → w.create_fails ≡ false
      → v.mint_tokens_from_code (complete now id c) ≡ mints ts
      → (t : CodeStore) × (create_authorization_code seal now id false c s ≡ some (t, r.code))
        × ((redeem_authorization_code unseal s256 e v w r t).1 ≡ granted (issued e w ts))
  unfolding create_authorization_code
  create-redeem e v w r now id c s codes ts h full_id u code bound time f g m =
      let full = complete now id c in
      let kept = keep full.jti (text "1") (now + auth_code_ttl) codes in
      let t : CodeStore = record s { codes = some kept } in
      let held = read-keep w.now (now + auth_code_ttl) full.jti (text "1") codes time in
      let taken = consume-held w full t kept (text "1") refl full_id f held in
      (
        t,
        rw (create_authorization_code, h, code) refl,
        redeem-held unseal s256 e v w r full t ts (ap unseal code ∙ u)
            (IsBound-proceed s256 v w.now full r bound) taken g m,
      )
