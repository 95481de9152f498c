-- ===== src/Auth/ApiToken/Mint.antt =====
-- internal/auth/apitoken/apitoken.go: a host's tokens, as they are minted and validated. Signing and parsing are go-paseto's
-- and parameters; the rules of the parser are arguments of the parse.
use host_manager.Base.{
  ℕ, ◌+◌, ◌*◌, ◌/◌, Bytes, text, has_prefix, Bool, not, ◌&&◌, ◌||◌, Option, none, some, List, [],
  ◌∷◌, ◌++◌, ltb, beq, if◌then◌else◌, ◌>>=◌,
}
use host_manager.Auth.ApiToken.{KeyPair, get_key}
use host_manager.Auth.ApiToken.Revocation.{Stores, revoked}

abbrev pub second : ℕ
second = 1_000_000_000

pub record TokenData : Type 0 where
  pub action : Bytes
  pub audience : Bytes
  pub expiration : ℕ
  pub issued_at : ℕ
  pub issuer : Bytes
  pub jti : Bytes
  pub kid : Bytes
  pub not_before : ℕ
  pub scope : Bytes
  pub subject : Bytes
  pub subject_kind : Bytes

-- The claim knd: absent, null, not a string, or a kind.
pub data KindClaim : Type 0 where
  absent null not_string : KindClaim
  kind_text : Bytes → KindClaim

-- The claims of a token, each of which may be missing. Times are in nanoseconds.
pub record Claims : Type 0 where
  pub act : Option Bytes
  pub aud : Option Bytes
  pub exp : Option ℕ
  pub iat : Option ℕ
  pub iss : Option Bytes
  pub token_id : Option Bytes
  pub nbf : Option ℕ
  pub scp : Option Bytes
  pub sub : Option Bytes
  pub knd : KindClaim

pub record TokenManager : Type 0 where
  pub active : KeyPair
  pub token_issuer : Bytes
  pub key_pairs : List KeyPair
  pub max_ttl : ℕ
  pub has_revocation_cache : Bool
  pub token_prefix : Bytes

-- pasetoV4PublicHeader
abbrev pub header : Bytes
header = text "v4.public."

abbrev pub drop_prefix : Bytes → Bytes → Bytes
drop_prefix s [] = s
drop_prefix [] (p ∷ ps) = []
drop_prefix (c ∷ s) (p ∷ ps) = drop_prefix s ps

-- What wrap and unwrap do with a brand prefix and the protocol header.
unfoldable pub wrap_with : Bytes → Bytes → Bytes → Bytes
unfolding has_prefix
wrap_with brand protocol signed =
    if beq brand []
    then signed
    else brand ++ (if has_prefix signed protocol then drop_prefix signed protocol else signed)

unfoldable pub unwrap_with : Bytes → Bytes → Bytes → Bytes
unfolding has_prefix
unwrap_with brand protocol signed =
    if beq brand [] || has_prefix signed protocol
    then signed
    else if has_prefix signed brand
    then protocol ++ drop_prefix signed brand
    else signed

unfoldable pub wrap : TokenManager → Bytes → Bytes
unfolding wrap_with
wrap tm signed = wrap_with tm.token_prefix header signed

unfoldable pub unwrap : TokenManager → Bytes → Bytes
unfolding unwrap_with
unwrap tm signed = unwrap_with tm.token_prefix header signed

pub data Failure : Type 0 where
  subjectless unknown_subject_kind ttl_exceeds_max : Failure
  unreadable key_not_found not_parsed malformed store_failed token_revoked : Failure

pub data Minted : Type 0 where
  minted : Bytes → Minted
  not_minted : Failure → Minted

pub data Validated : Type 0 where
  accepted : TokenData → Validated
  rejected : Failure → Validated

-- The footer that names a key.
abbrev pub footer_of : Bytes → Bytes
footer_of kid = text "{\"kid\":\"" ++ (kid ++ text "\"}")

-- GenerateJTI, with the digest in hexadecimal
unfoldable pub generate_jti : (Bytes → Bytes) → Bytes → Bytes → Bytes → Bytes
generate_jti digest aud sub act = digest (aud ++ (58 ∷ (sub ++ (58 ∷ act))))

-- The claims of a token that is minted at `now`; the library writes its times in whole seconds, but for the time of issue.
abbrev pub claims_of :
    TokenManager → (Bytes → Bytes) → ℕ → Bytes → Bytes → Bytes → Bytes → Bytes → ℕ → Claims
claims_of tm digest now audience subject kind action scope ttl = record {
  act = some action;
  aud = some audience;
  exp = some ((now + ttl) / second * second);
  iat = some now;
  iss = some tm.token_issuer;
  token_id = some (generate_jti digest audience subject action);
  nbf = some (now / second * second);
  scp = some scope;
  sub = some subject;
  knd = kind_text kind;
}

-- The kind that a token records, where the claim is well formed.
abbrev pub kind_of : KindClaim → Option Bytes
kind_of absent = some []
kind_of null = none
kind_of not_string = none
kind_of (kind_text k) = some k

unfoldable pub token_data : Bytes → Bytes → Claims → Option TokenData
token_data kid subject c = do
  action ← c.act
  scope ← c.scp
  audience ← c.aud
  exp ← c.exp
  iat ← c.iat
  issuer ← c.iss
  jti ← c.token_id
  nbf ← c.nbf
  kind ← kind_of c.knd
  some (record {
    action = action;
    audience = audience;
    expiration = exp / second;
    issued_at = iat / second;
    issuer = issuer;
    jti = jti;
    kid = kid;
    not_before = nbf / second;
    scope = scope;
    subject = subject;
    subject_kind = kind;
  })

-- ValidateToken after its check of revocations
unfoldable pub read_claims : Bytes → Claims → Validated
unfolding token_data
read_claims kid c = elim c.sub [
  | none ↦ rejected malformed
  | some subject ↦
      if beq subject []
      then rejected subjectless
      else elim (token_data kid subject c) [ none ↦ rejected malformed | some d ↦ accepted d ]
]

module _ (known : Bytes → Bool) (digest : Bytes → Bytes)
    (sign : Bytes → Claims → Bytes → Bytes) where
  -- MintStatelessKey
  unfoldable pub mint_stateless_key :
      TokenManager → ℕ → Bytes → Bytes → Bytes → Bytes → Bytes → ℕ → Minted
  unfolding wrap
  mint_stateless_key tm now audience subject kind action scope ttl =
      if beq subject []
      then not_minted subjectless
      else if not (known kind)
      then not_minted unknown_subject_kind
      else if ltb 0 tm.max_ttl && ltb tm.max_ttl ttl
      then not_minted ttl_exceeds_max
      else minted (
          wrap tm (
            sign tm.active.secret_key
              (claims_of tm digest now audience subject kind action scope ttl)
              (footer_of tm.active.key_id)))

module _ (parse : Bytes → Option ℕ) (format : ℕ → Bytes) (digest : Bytes → Bytes)
    (parse_footer json_kid : Bytes → Option Bytes)
    (parse_v4_public : Bytes → Bytes → ℕ → Bytes → Bytes → Option Claims) where
  -- The check of revocations, with the failures of its lookups; none where the token passes.
  unfoldable pub check_revoked :
      TokenManager → ℕ → Bool → Bool → Bool → Claims → Stores → Option Failure
  unfolding revoked
  check_revoked tm clock f g h c s = if not tm.has_revocation_cache then none else elim c.token_id [
    | none ↦ some malformed
    | some jti ↦ elim c.sub [
      | none ↦ some malformed
      | some subject ↦ elim (revoked parse format digest clock f g h c.iat jti subject s) [
        | none ↦ some store_failed
        | some b ↦ if b then some token_revoked else none
      ]
    ]
  ]

  unfoldable pub accept :
      TokenManager → ℕ → Bool → Bool → Bool → Bytes → Claims → Stores → Validated
  unfolding check_revoked read_claims
  accept tm clock f g h kid c s = elim (check_revoked tm clock f g h c s) [
    | some e ↦ rejected e
    | none ↦ read_claims kid c
  ]

  unfoldable pub verify :
      TokenManager
      → ℕ
      → ℕ
      → Bool
      → Bool
      → Bool
      → Bytes
      → Bytes
      → KeyPair
      → Bytes
      → Stores
      → Validated
  unfolding accept
  verify tm now clock f g h expected_audience kid k signed s =
      elim (parse_v4_public k.public_key tm.token_issuer now expected_audience signed) [
        | none ↦ rejected not_parsed
        | some c ↦ accept tm clock f g h kid c s
      ]

  -- ValidateToken
  unfoldable pub validate_token :
      TokenManager → ℕ → ℕ → Bool → Bool → Bool → Bytes → Bytes → Stores → Validated
  unfolding unwrap verify get_key
  validate_token tm now clock f g h expected_audience wire s =
      let signed = unwrap tm wire in
      elim (parse_footer signed) [
        | none ↦ rejected unreadable
        | some footer ↦ elim (json_kid footer) [
          | none ↦ rejected unreadable
          | some kid ↦ elim (get_key kid tm.key_pairs) [
            | none ↦ rejected key_not_found
            | some k ↦ verify tm now clock f g h expected_audience kid k signed s
          ]
        ]
      ]
