-- ===== src/Auth/ApiToken/RoundTrip.antt =====
-- A token that a host mints is accepted by it, with what was minted.
use host_manager.Base.{
  ℕ, ◌+◌, ◌*◌, ◌/◌, Bytes, has_prefix, beq, Bool, true, false, not, ◌&&◌, Option, some, [], ◌∷◌,
  ◌++◌, ltb, if◌then◌else◌, ◌≡◌, refl, ◌∙◌, arith, inl, inr, Bool-cases,
}
use host_manager.Auth.ApiToken.{KeyPair, get_key}
use host_manager.Auth.ApiToken.Revocation.{Stores, revoked}
use host_manager.Auth.ApiToken.Mint.{
  second, TokenData, Claims, TokenManager, header, drop_prefix, wrap_with, unwrap_with, wrap,
  unwrap, Minted, minted, not_minted, Failure, subjectless, unknown_subject_kind, ttl_exceeds_max,
  Validated, accepted, footer_of, generate_jti, claims_of, token_data, read_claims,
  mint_stateless_key, check_revoked, accept, verify, validate_token,
}

has_prefix-append : (p s : Bytes) → has_prefix (p ++ s) p ≡ true
unfolding has_prefix
has_prefix-append [] [] = refl
has_prefix-append [] (c ∷ s) = refl
has_prefix-append (c ∷ p) s = ground (arith, has_prefix-append p s)

drop_prefix-append : (p s : Bytes) → drop_prefix (p ++ s) p ≡ s
drop_prefix-append [] [] = refl
drop_prefix-append [] (c ∷ s) = refl
drop_prefix-append (c ∷ p) s = drop_prefix-append p s

wrapped :
    (brand protocol rest : Bytes)
    → has_prefix (brand ++ rest) protocol ≡ false
    → unwrap_with brand protocol (wrap_with brand protocol (protocol ++ rest)) ≡ protocol ++ rest
unfolding wrap_with unwrap_with
wrapped brand protocol rest n =
    let whole = has_prefix-append protocol rest in
    let branded = has_prefix-append brand rest in
    elim (Bool-cases (beq brand [])) [
      | inl e ↦ rw (e) refl
      | inr e ↦
          rw (e, whole, drop_prefix-append protocol rest, n, branded, drop_prefix-append brand rest)
            refl
    ]

pub unwrap-wrap :
    (tm : TokenManager) (rest : Bytes)
    → has_prefix (tm.token_prefix ++ rest) header ≡ false
    → unwrap tm (wrap tm (header ++ rest)) ≡ header ++ rest
unfolding wrap unwrap
unwrap-wrap tm rest n = wrapped tm.token_prefix header rest n

refused_mint : (e : Failure) (w : Bytes) → not_minted e ≡ minted w → ⊥
refused_mint e w h = cc

given : (v w : Bytes) → minted v ≡ minted w → w ≡ v
given v w h = cc

guards :
    (a b c : Bool) (v wire : Bytes)
    → (if a
        then not_minted subjectless
        else if not b
        then not_minted unknown_subject_kind
        else if c
        then not_minted ttl_exceeds_max
        else minted v)
      ≡ minted wire
    → (a ≡ false) × (b ≡ true) × (c ≡ false) × (wire ≡ v)
guards true b c v wire h = absurd (refused_mint subjectless wire h)
guards false false c v wire h = absurd (refused_mint unknown_subject_kind wire h)
guards false true true v wire h = absurd (refused_mint ttl_exceeds_max wire h)
guards false true false v wire h = (refl, refl, refl, given v wire h)

module _ (known : Bytes → Bool) (sign : Bytes → Claims → Bytes → Bytes) (parse : Bytes → Option ℕ)
    (format : ℕ → Bytes) (digest : Bytes → Bytes) (parse_footer json_kid : Bytes → Option Bytes)
    (parse_v4_public : Bytes → Bytes → ℕ → Bytes → Bytes → Option Claims) where
  abbrev pub minting : TokenManager → ℕ → Bytes → Bytes → Bytes → Bytes → Bytes → ℕ → Minted
  minting tm now audience subject kind action scope ttl =
      mint_stateless_key known digest sign tm now audience subject kind action scope ttl

  abbrev pub validating :
      TokenManager → ℕ → ℕ → Bool → Bool → Bool → Bytes → Bytes → Stores → Validated
  validating tm now clock f g h audience wire s =
      validate_token parse format digest parse_footer json_kid parse_v4_public tm now clock f g h
        audience wire s

  -- A mint that gives a token names somebody, of a known kind, and keeps the maximum lifetime.
  pub mint_stateless_key_sound :
      (tm : TokenManager) (now : ℕ) (audience subject kind action scope : Bytes) (ttl : ℕ)
      (wire : Bytes)
      → minting tm now audience subject kind action scope ttl ≡ minted wire
      → (beq subject [] ≡ false)
        × (known kind ≡ true)
        × ((ltb 0 tm.max_ttl && ltb tm.max_ttl ttl) ≡ false)
        × (wire
            ≡ wrap tm (
                sign tm.active.secret_key
                  (claims_of tm digest now audience subject kind action scope ttl)
                  (footer_of tm.active.key_id)))
  unfolding mint_stateless_key
  mint_stateless_key_sound tm now audience subject kind action scope ttl wire h =
      let (a, b, c, w) =
        guards (beq subject []) (known kind) (ltb 0 tm.max_ttl && ltb tm.max_ttl ttl)
          (wrap tm (
            sign tm.active.secret_key
              (claims_of tm digest now audience subject kind action scope ttl)
              (footer_of tm.active.key_id)))
          wire h in
      (a, b, c, w)

  -- What a token says that is read back.
  abbrev pub data_of : TokenManager → ℕ → Bytes → Bytes → Bytes → Bytes → Bytes → ℕ → TokenData
  data_of tm now audience subject kind action scope ttl = record {
    action = action;
    audience = audience;
    expiration = (now + ttl) / second * second / second;
    issued_at = now / second;
    issuer = tm.token_issuer;
    jti = generate_jti digest audience subject action;
    kid = tm.active.key_id;
    not_before = now / second * second / second;
    scope = scope;
    subject = subject;
    subject_kind = kind;
  }

  validate_steps :
      (tm : TokenManager) (at clock : ℕ) (expected signed wire footer kid : Bytes) (s : Stores)
      (k : KeyPair) (c : Claims)
      → unwrap tm wire ≡ signed
      → parse_footer signed ≡ some footer
      → json_kid footer ≡ some kid
      → get_key kid tm.key_pairs ≡ some k
      → parse_v4_public k.public_key tm.token_issuer at expected signed ≡ some c
      → validating tm at clock false false false expected wire s
        ≡ accept parse format digest parse_footer json_kid parse_v4_public tm clock false false
            false kid c s
  unfolding validate_token verify
  validate_steps tm at clock expected signed wire footer kid s k c u f j g p =
      rw (validate_token, u, f, j, g, u, verify, p) refl

  read_minted :
      (tm : TokenManager) (now : ℕ) (audience subject kind action scope : Bytes) (ttl : ℕ)
      → beq subject [] ≡ false
      → read_claims tm.active.key_id
          (claims_of tm digest now audience subject kind action scope ttl)
        ≡ accepted (data_of tm now audience subject kind action scope ttl)
  unfolding read_claims token_data
  read_minted tm now audience subject kind action scope ttl named = rw (read_claims, named) refl

  accept_minted :
      (tm : TokenManager) (now clock : ℕ) (audience subject kind action scope : Bytes) (ttl : ℕ)
      (s : Stores)
      → beq subject [] ≡ false
      → revoked parse format digest clock false false false
          (some now)
          (generate_jti digest audience subject action)
          subject
          s
        ≡ some false
      → accept parse format digest parse_footer json_kid parse_v4_public tm clock false false false
          tm.active.key_id
          (claims_of tm digest now audience subject kind action scope ttl)
          s
        ≡ accepted (data_of tm now audience subject kind action scope ttl)
  unfolding accept check_revoked
  accept_minted tm now clock audience subject kind action scope ttl s named fresh =
      let read = read_minted tm now audience subject kind action scope ttl named in
      elim (Bool-cases tm.has_revocation_cache) [
        | inl e ↦ rw (accept, check_revoked, e, fresh) read
        | inr e ↦ rw (accept, check_revoked, e) read
      ]

  -- A token that a host mints is accepted by it for its audience, or for inspection, and says what was minted: with a prefix
  -- that does not make a token look like a bare one, where the active key is found by its id, no revocation covers the
  -- token, and the library reads back what it signed: the footer, the key's id in it, and, for one whose rules hold at that
  -- time, the claims.
  pub validate_token-mint_stateless_key :
      (tm : TokenManager) (now at clock : ℕ) (audience subject kind action scope expected : Bytes)
      (ttl : ℕ) (rest wire : Bytes) (s : Stores)
      → sign tm.active.secret_key
          (claims_of tm digest now audience subject kind action scope ttl)
          (footer_of tm.active.key_id)
        ≡ header ++ rest
      → has_prefix (tm.token_prefix ++ rest) header ≡ false
      → parse_footer (header ++ rest) ≡ some (footer_of tm.active.key_id)
      → json_kid (footer_of tm.active.key_id) ≡ some tm.active.key_id
      → get_key tm.active.key_id tm.key_pairs ≡ some tm.active
      → parse_v4_public tm.active.public_key tm.token_issuer at expected (header ++ rest)
        ≡ some (claims_of tm digest now audience subject kind action scope ttl)
      → revoked parse format digest clock false false false
          (some now)
          (generate_jti digest audience subject action)
          subject
          s
        ≡ some false
      → minting tm now audience subject kind action scope ttl ≡ minted wire
      → validating tm at clock false false false expected wire s
        ≡ accepted (data_of tm now audience subject kind action scope ttl)
  validate_token-mint_stateless_key tm now at clock audience subject kind action scope expected ttl
        rest wire s signed branded footer kid key parsed fresh m =
      let (named, _, _, w) =
        mint_stateless_key_sound tm now audience subject kind action scope ttl wire m in
      let bare : unwrap tm wire ≡ header ++ rest = rw (w, signed) (unwrap-wrap tm rest branded) in
      validate_steps tm at clock expected (header ++ rest) wire (footer_of tm.active.key_id)
        tm.active.key_id s tm.active
        (claims_of tm digest now audience subject kind action scope ttl) bare footer kid key parsed
      ∙ accept_minted tm now clock audience subject kind action scope ttl s named fresh
