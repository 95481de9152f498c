-- ===== src/Auth/CodeGrant/Bound.antt =====
-- What an authorization code that is redeemed was bound to: RedeemAuthorizationCode of internal/auth/exchange.go.
use host_manager.Base.{
  ℕ, ◌/◌, ◌≤◌, Bytes, beq, beq_iff, GoMap, delete, ◌≡◌, ◌≢◌, refl, ◌∙◌, inl, inr, Bool, true, false,
  not, ◌&&◌, Option, none, some, [], ltb, Bool-cases, Option-cases, if◌then◌else◌, arith,
}
use host_manager.Auth.Refresh.{
  Answer, failed, answer, TokenSet, Kept, Exchanger, granted, Refusal, refused, rejected, second,
  read,
}
use host_manager.Auth.Refresh.Redeem.{create_refresh_token, Check, refuse, proceed, and_then}
use host_manager.Auth.Refresh.Lineage.{refuse_revoked-proceed, Check-cases, Mint-cases}
use host_manager.Auth.CodeGrant.{
  AuthorizationCodeClaims, Opened, malformed, undecryptable, unreadable, opened, CodeStore,
  CodeClient, CodeServices, Conditions, CodeRequest, session_of, pkce_method_s256, check_pkce,
  check_code_client, check_code, consume_code, start_session, mint_code, redeem_opened,
  redeem_authorization_code,
}

no_proceed : (o : Refusal) → refuse o ≢ proceed
no_proceed o h = ground (arith, h)

-- A guard that is passed.
peel :
    (a : Bool) (o : Refusal) (k : Check)
    → (if a then refuse o else k) ≡ proceed
    → (a ≡ false) × (k ≡ proceed)
peel true o k h = absurd (no_proceed o h)
peel false o k h = (refl, h)

and_then-proceed : (a b : Check) → and_then a b ≡ proceed → (a ≡ proceed) × (b ≡ proceed)
and_then-proceed (refuse o) b h = absurd (no_proceed o h)
and_then-proceed proceed b h = (refl, h)

-- The three guards of a challenge.
passed :
    (a b c : Bool) (o : Refusal)
    → (if a then refuse o else if not b then refuse o else if not c then refuse o else proceed)
      ≡ proceed
    → (a ≡ false) × (b ≡ true) × (c ≡ true)
passed a b c o h =
    let (g, k) = peel a o _ h in
    let (m, l) = peel (not b) o _ k in
    let (n, _) = peel (not c) o proceed l in (g, ground (arith, m), ground (arith, n))

module _ (s256 : Bytes → Bytes) where
  -- The proof key of a code: a challenge where the client has to have one, and the verifier is the preimage of a challenge.
  abbrev pub HasProofKey : AuthorizationCodeClaims → CodeClient → Bytes → Type 0
  HasProofKey c client verifier =
      (client.require_pkce ≡ true → c.code_challenge ≢ [])
      × (c.code_challenge ≢ []
          → (verifier ≢ [])
            × (c.code_challenge_method ≡ pkce_method_s256)
            × (s256 verifier ≡ c.code_challenge))

  check_pkce-proceed :
      (c : AuthorizationCodeClaims) (client : CodeClient) (verifier : Bytes)
      → check_pkce s256 c client verifier ≡ proceed
      → HasProofKey c client verifier
  unfolding check_pkce
  check_pkce-proceed c client verifier h =
      let deny = rejected c.subject in
      let (needed, k) = peel (client.require_pkce && beq c.code_challenge []) deny _ h in
      (
        λ on none. ground (arith, needed, on, beq_iff c.code_challenge [], none),
        λ some.
            let challenge : beq c.code_challenge [] ≡ false =
              ground (arith, beq_iff c.code_challenge [], some) in
            let (given, method, same) =
              passed (beq verifier []) (beq c.code_challenge_method pkce_method_s256)
                (beq (s256 verifier) c.code_challenge) deny (rw (challenge) at k) in
            (
              ground (arith, given, beq_iff verifier []),
              (beq_iff c.code_challenge_method pkce_method_s256).0 method,
              (beq_iff (s256 verifier) c.code_challenge).0 same,
            ),
      )

  -- What the checks of a code establish.
  abbrev pub IsBound : CodeServices → ℕ → AuthorizationCodeClaims → CodeRequest → Type 0
  IsBound v now c r =
      (now / second ≤ c.exp)
      × (c.client_id ≡ r.client_id)
      × (c.redirect_uri ≡ r.redirect_uri)
      × (v.subject_revoked_since c.subject c.authenticated_at ≡ answer false)
      × ((client : CodeClient) × (v.lookup_client r.client_id ≡ answer (some client))
          × HasProofKey c client r.code_verifier)

  found_in :
      (v : CodeServices) (c : AuthorizationCodeClaims) (r : CodeRequest)
      (o : Answer (Option CodeClient))
      → v.lookup_client r.client_id ≡ o
      → check_code_client s256 v c r ≡ proceed
      → (client : CodeClient) × (v.lookup_client r.client_id ≡ answer (some client))
        × HasProofKey c client r.code_verifier
  unfolding check_code_client
  found_in v c r failed e h = absurd (no_proceed _ (rw (check_code_client, e) at h))
  found_in v c r (answer none) e h = absurd (no_proceed _ (rw (check_code_client, e) at h))
  found_in v c r (answer (some client)) e h =
      (client, e, check_pkce-proceed c client r.code_verifier (rw (check_code_client, e) at h))

  check_code-IsBound :
      (v : CodeServices) (now : ℕ) (c : AuthorizationCodeClaims) (r : CodeRequest)
      → check_code s256 v now c r ≡ proceed
      → IsBound v now c r
  unfolding check_code
  check_code-IsBound v now c r h =
      let deny = rejected c.subject in
      let (live, k) = peel (ltb c.exp (now / second)) deny _ h in
      let (client, l) = peel (not (beq c.client_id r.client_id)) deny _ k in
      let (uri, m) = peel (not (beq c.redirect_uri r.redirect_uri)) deny _ l in
      let (since, n) = and_then-proceed _ _ m in
      (
        ground (arith, live),
        (beq_iff c.client_id r.client_id).0 (ground (arith, client)),
        (beq_iff c.redirect_uri r.redirect_uri).0 (ground (arith, uri)),
        refuse_revoked-proceed v.subject_revoked_since c.subject c.authenticated_at since,
        found_in v c r (v.lookup_client r.client_id) refl n,
      )

not_granted {ℓ} : {A : Type ℓ} (o : Refusal) (ts : TokenSet) → refused o ≡ granted ts → A
not_granted o ts h = absurd (ground (arith, h))

-- The mint leaves the code cache.
start_session-codes :
    (e : Exchanger) (w : Conditions) (c : AuthorizationCodeClaims) (ts : TokenSet) (s : CodeStore)
    → (start_session e w c ts s).0.codes ≡ s.codes
unfolding start_session
start_session-codes e w c ts s = elim (Bool-cases e.enabled) [
  | inl y ↦
      elim (Option-cases
        (create_refresh_token e w.create_fails w.now w.refresh_id (session_of c ts) s.sessions)) [
          | inl n ↦ simp (start_session, y, n) refl
          | inr (t, m) ↦ simp (start_session, y, m) refl
        ]
  | inr y ↦ simp (start_session, y) refl
]

pub mint_code-codes :
    (e : Exchanger) (v : CodeServices) (w : Conditions) (c : AuthorizationCodeClaims)
    (s : CodeStore)
    → (mint_code e v w c s).0.codes ≡ s.codes
unfolding mint_code
mint_code-codes e v w c s = elim (Mint-cases (v.mint_tokens_from_code c)) [
  | inl (ours, m) ↦ simp (mint_code, m) refl
  | inr (ts, m) ↦ simp (mint_code, m) (start_session-codes e w c ts s)
]

-- What the consumption of a code's id finds and leaves.
pub consume_code-proceed :
    (w : Conditions) (c : AuthorizationCodeClaims) (s : CodeStore) (codes : GoMap (Kept Bytes))
    → s.codes ≡ some codes
    → (consume_code w c s).1 ≡ proceed
    → (c.jti ≢ [])
      × ((held : Bytes) × (read w.now c.jti codes ≡ some held))
      × ((consume_code w c s).0.codes ≡ some (delete c.jti codes))
unfolding consume_code
consume_code-proceed w c s codes e h = elim (Bool-cases (beq c.jti [])) [
  | inl y ↦ absurd (no_proceed _ (rw (consume_code, e, y) at h))
  | inr y ↦ elim (Bool-cases w.consume_fails) [
    | inl f ↦ absurd (no_proceed _ (rw (consume_code, e, y, f) at h))
    | inr f ↦ elim (Option-cases (read w.now c.jti codes)) [
      | inl n ↦ absurd (no_proceed _ (rw (consume_code, e, y, f, n) at h))
      | inr (held, k) ↦
          (ground (arith, y, beq_iff c.jti []), (held, k), rw (consume_code, e, y, f, k) refl)
    ]
  ]
]

module _ (s256 : Bytes → Bytes) where
  pub redeem_opened-granted :
      (e : Exchanger) (v : CodeServices) (w : Conditions) (c : AuthorizationCodeClaims)
      (r : CodeRequest) (s : CodeStore) (ts : TokenSet)
      → (redeem_opened s256 e v w c r s).1 ≡ granted ts
      → IsBound s256 v w.now c r
        × ((consume_code w c s).1 ≡ proceed)
        × ((redeem_opened s256 e v w c r s).0.codes ≡ (consume_code w c s).0.codes)
  unfolding redeem_opened
  redeem_opened-granted e v w c r s ts g = elim (Check-cases (check_code s256 v w.now c r)) [
    | inl (o, k) ↦ not_granted o ts (rw (redeem_opened, k) at g)
    | inr k ↦ elim (Check-cases (consume_code w c s).1) [
      | inl (o, l) ↦ not_granted o ts (rw (redeem_opened, k, l) at g)
      | inr l ↦ (
        check_code-IsBound s256 v w.now c r k,
        l,
        rw (redeem_opened, k, l) (mint_code-codes e v w c (consume_code w c s).0),
      )
    ]
  ]

module _ (unseal : Bytes → Opened) (s256 : Bytes → Bytes) where
  -- A code that is granted opens.
  pub granted-opened :
      (e : Exchanger) (v : CodeServices) (w : Conditions) (r : CodeRequest) (s : CodeStore)
      (ts : TokenSet) (o : Opened)
      → unseal r.code ≡ o
      → (redeem_authorization_code unseal s256 e v w r s).1 ≡ granted ts
      → (c : AuthorizationCodeClaims) × (unseal r.code ≡ opened c)
        × (redeem_authorization_code unseal s256 e v w r s ≡ redeem_opened s256 e v w c r s)
  unfolding redeem_authorization_code
  granted-opened e v w r s ts malformed h g =
      not_granted _ ts (rw (redeem_authorization_code, h) at g)
  granted-opened e v w r s ts undecryptable h g =
      not_granted _ ts (rw (redeem_authorization_code, h) at g)
  granted-opened e v w r s ts unreadable h g =
      not_granted _ ts (rw (redeem_authorization_code, h) at g)
  granted-opened e v w r s ts (opened c) h g = (c, h, rw (redeem_authorization_code, h) refl)

  -- Where there is a code cache: a redemption that gives tokens presented a code that opens, had not expired
  -- and was made for this client and this redirect, of a subject that was not revoked after it had
  -- authenticated, for a client that exists, with the verifier of its S256 challenge where it has one and a
  -- challenge where the client has to have one; the code's id was held, and is now gone.
  pub redeem_authorization_code-granted :
      (e : Exchanger) (v : CodeServices) (w : Conditions) (r : CodeRequest) (s : CodeStore)
      (codes : GoMap (Kept Bytes)) (ts : TokenSet)
      → s.codes ≡ some codes
      → (redeem_authorization_code unseal s256 e v w r s).1 ≡ granted ts
      → (c : AuthorizationCodeClaims) × (unseal r.code ≡ opened c)
        × IsBound s256 v w.now c r
        × (c.jti ≢ [])
        × ((held : Bytes) × (read w.now c.jti codes ≡ some held))
        × ((redeem_authorization_code unseal s256 e v w r s).0.codes ≡ some (delete c.jti codes))
  redeem_authorization_code-granted e v w r s codes ts h g =
      let (c, o, q) = granted-opened e v w r s ts (unseal r.code) refl g in
      let (bound, k, l) = redeem_opened-granted s256 e v w c r s ts (rw (q) at g) in
      let (id, held, left) = consume_code-proceed w c s codes h k in
      (c, o, bound, id, held, rw (q) (l ∙ left))
