-- ===== src/Auth/ApiToken/Refused.antt =====
-- A revoked token is not accepted again, by any replica, until it expires.
use host_manager.Base.{
  ℕ, ◌+◌, ◌*◌, ◌/◌, ◌≤◌, ◌<◌, Bytes, has_prefix, Bool, true, false, ◌&&◌, Option, none, some, ◌++◌,
  ltb, if◌then◌else◌, ◌≡◌, ◌≢◌, refl, arith, inl, inr, Option-cases,
}
use host_manager.Auth.ApiToken.{KeyPair, get_key}
use host_manager.Auth.ApiToken.Revocation.{Stores, revoked, revoke, revoke_subject, revocation_ttl}
use host_manager.Auth.ApiToken.Cutoff.{After, revoked-After}
use host_manager.Auth.ApiToken.Mint.{
  second, TokenData, Claims, TokenManager, header, unwrap, minted, Failure, accepted, rejected,
  footer_of, generate_jti, claims_of, check_revoked, accept, verify, validate_token, store_failed,
  token_revoked, unreadable, key_not_found, not_parsed,
}
use host_manager.Auth.ApiToken.RoundTrip.{
  unwrap-wrap, minting, validating, mint_stateless_key_sound,
}

not_accepted : (e : Failure) (d : TokenData) → rejected e ≡ accepted d → ⊥
not_accepted e d h = cc

some_not_none : (e : Failure) → some e ≡ none → ⊥
some_not_none e h = cc

answer :
    {o : Option Bool} (x : Bool)
    → o ≡ some x
    → (if x then some token_revoked else none) ≡ none
    → o ≡ some false
answer true r n = absurd (some_not_none token_revoked n)
answer false r n = r

module _ (known : Bytes → Bool) (sign : Bytes → Claims → Bytes → Bytes) (parse : Bytes → Option ℕ)
    (format : ℕ → Bytes) (digest : Bytes → Bytes) (parse_footer json_kid : Bytes → Option Bytes)
    (parse_v4_public : Bytes → Bytes → ℕ → Bytes → Bytes → Option Claims) where
  -- A token that is accepted was parsed, and passed the check of revocations.
  Passed : TokenManager → ℕ → ℕ → Bool → Bool → Bool → Bytes → Bytes → Stores → Type 0
  Passed tm at d f g h expected signed s =
      (k : KeyPair) × (c : Claims) × (parse_v4_public k.public_key tm.token_issuer at expected
          signed
        ≡ some c)
      × (check_revoked parse format digest parse_footer json_kid parse_v4_public tm d f g h c s
          ≡ none)

  accept-Passed :
      (tm : TokenManager) (d : ℕ) (f g h : Bool) (kid : Bytes) (c : Claims) (s : Stores)
      (told : TokenData)
      → accept parse format digest parse_footer json_kid parse_v4_public tm d f g h kid c s
        ≡ accepted told
      → check_revoked parse format digest parse_footer json_kid parse_v4_public tm d f g h c s
        ≡ none
  unfolding accept
  accept-Passed tm d f g h kid c s told a =
      elim (Option-cases
        (check_revoked parse format digest parse_footer json_kid parse_v4_public tm d f g h c s)) [
          | inl n ↦ n
          | inr (e, n) ↦ absurd (not_accepted e told (rw (accept, n) at a))
        ]

  verify-Passed :
      (tm : TokenManager) (at d : ℕ) (f g h : Bool) (expected kid signed : Bytes) (k : KeyPair)
      (s : Stores) (told : TokenData)
      → verify parse format digest parse_footer json_kid parse_v4_public tm at d f g h expected kid
          k signed s
        ≡ accepted told
      → Passed tm at d f g h expected signed s
  unfolding verify Passed
  verify-Passed tm at d f g h expected kid signed k s told v =
      elim (Option-cases (parse_v4_public k.public_key tm.token_issuer at expected signed)) [
        | inl n ↦ absurd (not_accepted not_parsed told (rw (verify, n) at v))
        | inr (c, n) ↦ (k, c, n, accept-Passed tm d f g h kid c s told (rw (verify, n) at v))
      ]

  validate_token-Passed :
      (tm : TokenManager) (at d : ℕ) (f g h : Bool) (expected wire signed : Bytes) (s : Stores)
      (told : TokenData)
      → unwrap tm wire ≡ signed
      → validate_token parse format digest parse_footer json_kid parse_v4_public tm at d f g h
          expected wire s
        ≡ accepted told
      → Passed tm at d f g h expected signed s
  unfolding validate_token
  validate_token-Passed tm at d f g h expected wire signed s told u v =
      elim (Option-cases (parse_footer signed)) [
        | inl n ↦ absurd (not_accepted unreadable told (rw (validate_token, u, n) at v))
        | inr (ft, n) ↦ elim (Option-cases (json_kid ft)) [
          | inl j ↦ absurd (not_accepted unreadable told (rw (validate_token, u, n, j) at v))
          | inr (kid, j) ↦ elim (Option-cases (get_key kid tm.key_pairs)) [
            | inl q ↦
                absurd (not_accepted key_not_found told (rw (validate_token, u, n, j, q) at v))
            | inr (k, q) ↦
                verify-Passed tm at d f g h expected kid signed k s told
                  (rw (validate_token, u, n, j, q, u) at v)
          ]
        ]
      ]

  check_revoked-fresh :
      (tm : TokenManager) (d : ℕ) (f g h : Bool) (c : Claims) (jti subject : Bytes) (s : Stores)
      → tm.has_revocation_cache ≡ true
      → c.token_id ≡ some jti
      → c.sub ≡ some subject
      → check_revoked parse format digest parse_footer json_kid parse_v4_public tm d f g h c s
        ≡ none
      → revoked parse format digest d f g h c.iat jti subject s ≡ some false
  unfolding check_revoked
  check_revoked-fresh tm d f g h c jti subject s cached i b n =
      elim (Option-cases (revoked parse format digest d f g h c.iat jti subject s)) [
        | inl r ↦ absurd (some_not_none store_failed (rw (check_revoked, cached, i, b, r) at n))
        | inr (x, r) ↦ answer x r (rw (check_revoked, cached, i, b, r) at n)
      ]

  -- The end of a minted token comes before the end of a revocation that is made afterwards.
  expires_first :
      (max_ttl now ttl c e at : ℕ)
      → 0 < max_ttl
      → (ltb 0 max_ttl && ltb max_ttl ttl) ≡ false
      → now ≤ c
      → e ≡ (now + ttl) / second * second
      → at ≤ e
      → at ≤ c + revocation_ttl max_ttl
  expires_first max_ttl now ttl c e at p g b q l =
      let whole : e ≤ now + ttl = omega (arith, q) in
      let bounded : ttl ≤ max_ttl = ground (arith, p, g) in ground (arith, whole, bounded, b, l)

  -- A token that a host mints under a maximum lifetime, and that is then revoked through the mint's audience, subject and
  -- action or through its subject, is accepted by no replica again, whatever revocations follow, by replicas with any
  -- clocks and with failures. The assumptions: a written time reads back; the prefix does not make a token look like a bare
  -- one; the library accepts no other claims for the token than those that it signed, and none after their expiration; the
  -- revocation's time, and the cache's clock then, are not before the mint; and the cache's clock is not ahead of the
  -- replica that validates.
  pub revoked-rejected :
      (tm : TokenManager) (now t c at d : ℕ) (f g h g' by_jti : Bool)
      (audience subject kind action scope expected : Bytes) (ttl ttl' : ℕ) (rest wire : Bytes)
      (s u : Stores) (told : TokenData)
      → ((x : ℕ) → parse (format x) ≡ some x)
      → tm.has_revocation_cache ≡ true
      → 0 < tm.max_ttl
      → has_prefix (tm.token_prefix ++ rest) header ≡ false
      → sign tm.active.secret_key
          (claims_of tm digest now audience subject kind action scope ttl)
          (footer_of tm.active.key_id)
        ≡ header ++ rest
      → ((public issuer wanted : Bytes) (x : ℕ) (claims : Claims)
          → parse_v4_public public issuer x wanted (header ++ rest) ≡ some claims
          → (claims_of tm digest now audience subject kind action scope ttl ≡ claims)
            × (x ≤ (now + ttl) / second * second))
      → minting known sign parse format digest parse_footer json_kid parse_v4_public tm now audience
          subject kind action scope ttl
        ≡ minted wire
      → now ≤ t
      → now ≤ c
      → d ≤ at
      → After parse format digest tm.max_ttl c
          (if by_jti
            then (revoke parse format digest tm.max_ttl c t false g'
                (generate_jti digest audience subject action)
                ttl'
                s).0
            else (revoke_subject parse format digest tm.max_ttl c t false subject ttl' s).0)
          d
          u
      → validating known sign parse format digest parse_footer json_kid parse_v4_public tm at d f g
          h expected wire u
        ≢ accepted told
  unfolding Passed
  revoked-rejected tm now t c at d f g h g' by_jti audience subject kind action scope expected ttl
        ttl' rest wire s u told reads cached positive branded signed honest m later cached_later
        behind after v =
      let (_, _, bound, w) =
        mint_stateless_key_sound known sign parse format digest parse_footer json_kid
          parse_v4_public tm now audience subject kind action scope ttl wire m in
      let bare : unwrap tm wire ≡ header ++ rest = rw (w, signed) (unwrap-wrap tm rest branded) in
      let (k, claims, p, n) =
        validate_token-Passed tm at d f g h expected wire (header ++ rest) u told bare v in
      let (same, alive) = honest k.public_key tm.token_issuer expected at claims p in
      let limit =
        expires_first tm.max_ttl now ttl c ((now + ttl) / second * second) at positive bound
          cached_later refl alive in
      let fresh =
        check_revoked-fresh tm d f g h
          (claims_of tm digest now audience subject kind action scope ttl)
          (generate_jti digest audience subject action) subject u cached refl refl
          (rw (← same) at n) in
      revoked-After parse format digest tm.max_ttl reads c t now ttl' d f g h g' by_jti
        (generate_jti digest audience subject action) subject s u later after
        (omega (arith, behind, limit)) fresh
