-- ===== src/Auth/CodeGrant.antt =====
-- internal/auth/exchange.go: authorization codes, their creation and their redemption. The sealing of a code, SHA-256, the
-- client lookup, the revocation check and the mint are parameters. A cache call that fails has no effect. Times are
-- nanoseconds, those of claims Unix seconds.
pub mod Bound
pub mod Once
pub mod Cycle
use host_manager.Base.{
  ℕ, ◌+◌, ◌*◌, ◌/◌, Bytes, text, beq, GoMap, lookup, insert, delete, Bool, true, false, not, ◌&&◌,
  ◌||◌, Option, none, some, List, [], ◌∷◌, ltb, ◌==◌, if◌then◌else◌,
}
use host_manager.Auth.Refresh.{
  Answer, failed, answer, TokenSet, RefreshTokenClaims, Kept, Store, Exchanger, Outcome, granted,
  Refusal, refused, rejected, server_error, second, read, keep,
}
use host_manager.Auth.Refresh.Redeem.{
  Mint, mint_fails, mints, Check, refuse, proceed, and_then, refuse_revoked_authentication,
  create_refresh_token,
}

pub record AuthorizationCodeClaims : Type 0 where
  pub auth_method : Bytes
  pub client_id : Bytes
  pub code_challenge : Bytes
  pub code_challenge_method : Bytes
  pub exp : ℕ
  pub idp_claims : Bytes
  pub jti : Bytes
  pub redirect_uri : Bytes
  pub resource : Bytes
  pub scope : Bytes
  pub subject : Bytes
  pub authenticated_at : ℕ

-- What the opening of a presented code gives.
pub data Opened : Type 0 where
  malformed undecryptable unreadable : Opened
  opened : AuthorizationCodeClaims → Opened

-- The code cache, where there is one, and the caches of the refresh tokens
pub record CodeStore : Type 0 where
  pub codes : Option (GoMap (Kept Bytes))
  pub sessions : Store

-- What a redemption reads of an AuthClient.
pub record CodeClient : Type 0 where
  pub require_pkce : Bool

pub record CodeServices : Type 0 where
  pub subject_revoked_since : Bytes → ℕ → Answer Bool
  pub lookup_client : Bytes → Answer (Option CodeClient)
  pub mint_tokens_from_code : AuthorizationCodeClaims → Mint

-- Which cache calls fail, and the id of a new refresh token.
pub record Conditions : Type 0 where
  pub consume_fails : Bool
  pub create_fails : Bool
  pub now : ℕ
  pub refresh_id : Bytes

-- What a token request presents.
pub record CodeRequest : Type 0 where
  pub code : Bytes
  pub client_id : Bytes
  pub redirect_uri : Bytes
  pub code_verifier : Bytes

abbrev pub auth_code_ttl : ℕ
auth_code_ttl = 900 * second

-- PKCE_METHOD_S256
abbrev pub pkce_method_s256 : Bytes
pkce_method_s256 = text "S256"

module _ (s256 : Bytes → Bytes) where
  unfoldable pub check_pkce : AuthorizationCodeClaims → CodeClient → Bytes → Check
  check_pkce c client verifier =
      let deny = refuse (rejected c.subject) in
      if client.require_pkce && beq c.code_challenge []
      then deny
      else if beq c.code_challenge []
      then proceed
      else if beq verifier []
      then deny
      else if not (beq c.code_challenge_method pkce_method_s256)
      then deny
      else if not (beq (s256 verifier) c.code_challenge)
      then deny
      else proceed

  unfoldable pub check_code_client : CodeServices → AuthorizationCodeClaims → CodeRequest → Check
  unfolding check_pkce
  check_code_client v c r = elim (v.lookup_client r.client_id) [
    | failed ↦ refuse (server_error c.subject)
    | answer none ↦ refuse (rejected c.subject)
    | answer (some client) ↦ check_pkce c client r.code_verifier
  ]

  -- The checks of an opened code, in their order.
  unfoldable pub check_code : CodeServices → ℕ → AuthorizationCodeClaims → CodeRequest → Check
  unfolding check_code_client
  check_code v now c r =
      if ltb c.exp (now / second)
      then refuse (rejected c.subject)
      else if not (beq c.client_id r.client_id)
      then refuse (rejected c.subject)
      else if not (beq c.redirect_uri r.redirect_uri)
      then refuse (rejected c.subject)
      else and_then
          (refuse_revoked_authentication v.subject_revoked_since c.subject c.authenticated_at)
          (check_code_client v c r)

-- The consumption of the code's id, by GetAndDelete where there is a cache.
unfoldable pub consume_code : Conditions → AuthorizationCodeClaims → CodeStore → CodeStore × Check
unfolding lookup delete read
consume_code w c s = elim s.codes [
  | none ↦ (s, proceed)
  | some codes ↦
      if beq c.jti []
      then (s, refuse (rejected c.subject))
      else if w.consume_fails
      then (s, refuse (server_error c.subject))
      else elim (read w.now c.jti codes) [
        | none ↦ (record s { codes = some (delete c.jti codes) }, refuse (rejected c.subject))
        | some _ ↦ (record s { codes = some (delete c.jti codes) }, proceed)
      ]
]

-- The refresh record that a code starts, of the granted scope
abbrev pub session_of : AuthorizationCodeClaims → TokenSet → RefreshTokenClaims
session_of c ts = record {
  auth_method = c.auth_method;
  client_id = c.client_id;
  expires_at = 0;
  issued_at = 0;
  original_issued_at = 0;
  predecessor_id = [];
  scope = ts.granted_scope;
  subject = c.subject;
  idp_claims = [];
  upstream_refresh_token = [];
}

-- The end of mintTokensFromCode: the refresh token.
unfoldable pub start_session :
    Exchanger → Conditions → AuthorizationCodeClaims → TokenSet → CodeStore → CodeStore × Outcome
start_session e w c ts s =
    if not e.enabled
    then (s, granted ts)
    else elim (create_refresh_token e w.create_fails w.now w.refresh_id (session_of c ts)
        s.sessions) [
          | none ↦ (s, refused (server_error []))
          | some t ↦
              (record s { sessions = t }, granted (record ts { refresh_token = w.refresh_id }))
        ]

unfoldable pub mint_code :
    Exchanger
    → CodeServices
    → Conditions
    → AuthorizationCodeClaims
    → CodeStore
    → CodeStore × Outcome
unfolding start_session
mint_code e v w c s = elim (v.mint_tokens_from_code c) [
  | mint_fails ours ↦ (s, refused (if ours then server_error c.subject else rejected c.subject))
  | mints ts ↦ start_session e w c ts s
]

module _ (s256 : Bytes → Bytes) where
  -- From the opened code on
  unfoldable pub redeem_opened :
      Exchanger
      → CodeServices
      → Conditions
      → AuthorizationCodeClaims
      → CodeRequest
      → CodeStore
      → CodeStore × Outcome
  unfolding check_code consume_code mint_code
  redeem_opened e v w c r s = elim (check_code s256 v w.now c r) [
    | refuse o ↦ (s, refused o)
    | proceed ↦
        let consumed = consume_code w c s in
        elim consumed.1 [
          | refuse o ↦ (consumed.0, refused o)
          | proceed ↦ mint_code e v w c consumed.0
        ]
  ]

module _ (unseal : Bytes → Opened) (s256 : Bytes → Bytes) where
  -- RedeemAuthorizationCode
  unfoldable pub redeem_authorization_code :
      Exchanger → CodeServices → Conditions → CodeRequest → CodeStore → CodeStore × Outcome
  unfolding redeem_opened
  redeem_authorization_code e v w r s = elim (unseal r.code) [
    | malformed ↦ (s, refused (rejected []))
    | undecryptable ↦ (s, refused (rejected []))
    | unreadable ↦ (s, refused (server_error []))
    | opened c ↦ redeem_opened s256 e v w c r s
  ]

-- The claims that are sealed: with an expiry of ten minutes and a random id where there is none.
abbrev pub complete : ℕ → Bytes → AuthorizationCodeClaims → AuthorizationCodeClaims
complete now id c = record c {
  exp = if c.exp == 0 then (now + 600 * second) / second else c.exp;
  jti = if beq c.jti [] then id else c.jti;
}

-- CreateAuthorizationCode, with the id that the random source gives and whether the write fails; none is an error.
unfoldable pub create_authorization_code :
    (AuthorizationCodeClaims → Bytes)
    → ℕ
    → Bytes
    → Bool
    → AuthorizationCodeClaims
    → CodeStore
    → Option (CodeStore × Bytes)
create_authorization_code seal now id fails c s =
    let full = complete now id c in
    elim s.codes [
      | none ↦ some (s, seal full)
      | some codes ↦
          if fails
          then none
          else some (
            record s { codes = some (keep full.jti (text "1") (now + auth_code_ttl) codes) },
            seal full,
          )
    ]
