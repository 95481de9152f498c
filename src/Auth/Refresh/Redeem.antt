-- ===== src/Auth/Refresh/Redeem.antt =====
-- exchange.go: RedeemRefreshToken, RevokeRefreshToken and what they call.
use host_manager.Base.{
  ℕ, ◌+◌, ◌-◌, ◌*◌, ◌/◌, Bytes, beq, GoMap, delete, Bool, true, not, ◌&&◌, ◌||◌, Option, none, some,
  List, [], ltb, leb, ◌==◌, if◌then◌else◌,
}
use host_manager.Auth.Refresh.{
  Answer, failed, answer, TokenSet, RefreshTokenClaims, Stored, claims, tombstone, Kept, Store,
  Exchanger, Outcome, granted, Refusal, refused, rejected, server_error, second, read, keep,
  tombstone_key, tombstone_ttl,
}
use host_manager.Auth.Refresh.Grace.{
  Read, mark_grace_in_flight, clear_grace_in_flight, publish_to_grace, replay_from_grace,
}

pub record Client : Type 0 where
  pub require_consent : Bool
  pub redirect_uris : List Bytes

-- The identity provider's answer to an upstream refresh.
pub data Upstream : Type 0 where
  grant_revoked unreachable : Upstream
  refreshed : Bytes → Bytes → Upstream

-- A mint that fails says whether the failure is our own.
pub data Mint : Type 0 where
  mint_fails : Bool → Mint
  mints : TokenSet → Mint

-- What a redemption asks of the rest of the exchanger.
pub record Services : Type 0 where
  pub subject_revoked_since : Bytes → ℕ → Answer Bool
  pub lookup_client : Bytes → Answer (Option Client)
  pub has_client : Option (Bytes → Bytes → List Bytes → Answer Bool)
  pub refresh_upstream_claims : Bytes → Bytes → Upstream
  pub mint_tokens_from_subject : RefreshTokenClaims → Bytes → Mint

-- Which cache calls fail.
pub record Faults : Type 0 where
  pub consume : Bool
  pub mark : Bool
  pub create : Bool
  pub publish : Bool
  pub clear : Bool
  pub tombstone_read : Bool
  pub restore : Bool
  pub recheck : Bool

-- Whether a redemption goes on: the claims of the provider and the upstream token to go on with, or the refusal.
pub data Check : Type 0 where
  refuse : Refusal → Check
  proceed : Check

unfoldable pub check_consent : Services → Bytes → Bytes → Client → Check
check_consent v sub client_id c = if not c.require_consent then proceed else elim v.has_client [
  | none ↦ refuse (rejected sub)
  | some has ↦ elim (has sub client_id c.redirect_uris) [
    | failed ↦ refuse (server_error sub)
    | answer held ↦ if held then proceed else refuse (rejected sub)
  ]
]

unfoldable pub check_client : Services → Bytes → Bytes → Check
check_client v sub client_id =
    if beq client_id [] then proceed else elim (v.lookup_client client_id) [
      | failed ↦ refuse (server_error sub)
      | answer none ↦ refuse (rejected sub)
      | answer (some c) ↦ check_consent v sub client_id c
    ]

-- refuseRevokedAuthentication
unfoldable pub refuse_revoked_authentication : (Bytes → ℕ → Answer Bool) → Bytes → ℕ → Check
refuse_revoked_authentication subject_revoked_since sub at = elim (subject_revoked_since sub at) [
  | failed ↦ refuse (server_error sub)
  | answer revoked ↦ if revoked then refuse (rejected sub) else proceed
]

abbrev pub and_then : Check → Check → Check
and_then proceed next = next
and_then (refuse o) next = refuse o

-- The checks of a consumed record, in their order.
unfoldable pub validate : Exchanger → Services → ℕ → RefreshTokenClaims → Bytes → Check
validate e v now c client_id =
    if ltb c.expires_at (now / second)
    then refuse (rejected c.subject)
    else if ltb 0 e.max_session_age && ltb e.max_session_age (now - c.original_issued_at * second)
    then refuse (rejected c.subject)
    else and_then
        (refuse_revoked_authentication v.subject_revoked_since c.subject c.original_issued_at)
        (if beq c.client_id client_id
          then check_client v c.subject client_id
          else refuse (rejected c.subject))

-- The provider's claims and the upstream token that the successor gets; none where the provider has ended the session.
unfoldable pub upstream : Services → RefreshTokenClaims → Option (Bytes × Bytes)
upstream v c =
    if beq c.upstream_refresh_token []
    then some (c.idp_claims, c.upstream_refresh_token)
    else elim (v.refresh_upstream_claims c.upstream_refresh_token c.subject) [
      | grant_revoked ↦ none
      | unreachable ↦ some (c.idp_claims, c.upstream_refresh_token)
      | refreshed idp token ↦ some (idp, token)
    ]

-- The times of a new record.
abbrev pub stamp : Exchanger → ℕ → RefreshTokenClaims → RefreshTokenClaims
stamp e now c = record c {
  issued_at = now / second;
  original_issued_at = if c.original_issued_at == 0 then now / second else c.original_issued_at;
  expires_at = (now + e.refresh_token_ttl) / second;
}

-- createRefreshToken, under the id that rand.Text gives; none where the write fails.
unfoldable pub create_refresh_token :
    Exchanger → Bool → ℕ → Bytes → RefreshTokenClaims → Store → Option Store
create_refresh_token e fails now id c s =
    if fails
    then none
    else some (record s {
      refresh = keep id (claims (stamp e now c)) (now + e.refresh_token_ttl) s.refresh;
    })

-- The record that follows a redeemed one.
abbrev pub successor : Bytes → RefreshTokenClaims → Bytes → Bytes → RefreshTokenClaims
successor token c idp up = record c {
  idp_claims = idp;
  upstream_refresh_token = up;
  predecessor_id = token;
  issued_at = 0;
  expires_at = 0;
}

-- restoreConsumedRefreshToken
unfoldable pub restore_consumed : Faults → ℕ → Bytes → RefreshTokenClaims → Store → Store
restore_consumed f now token c s =
    let marked : Option Stored =
      if f.tombstone_read then none else read now (tombstone_key token) s.refresh in
    elim marked [
      | some _ ↦ s
      | none ↦
          if leb (c.expires_at * second) now || f.restore
          then s
          else record s { refresh = keep token (claims c) (c.expires_at * second) s.refresh }
    ]

-- The deferred cleanup of a redemption that has consumed its record and not published.
unfoldable pub settle :
    Exchanger → Faults → ℕ → Bytes → RefreshTokenClaims → Refusal → Store → Store × Outcome
settle e f now token c o s =
    let t : Store = elim o [ server_error _ ↦ restore_consumed f now token c s | _ ↦ s ] in
    (clear_grace_in_flight e f.clear token t, refused o)

-- The rotation: the successor is stored, then published.
unfoldable pub rotate :
    Exchanger
    → Faults
    → ℕ
    → Bytes
    → Bytes
    → RefreshTokenClaims
    → Bytes
    → Bytes
    → TokenSet
    → Store
    → Store × Outcome
rotate e f now token id c idp up ts s =
    elim (create_refresh_token e f.create now id (successor token c idp up) s) [
      | none ↦ settle e f now token c (server_error c.subject) s
      | some t ↦
          let minted : TokenSet = record ts { refresh_token = id } in
          let (u, published) = publish_to_grace e f.publish now token c.client_id minted t in
          (if published then u else clear_grace_in_flight e f.clear token u, granted minted)
    ]

-- From the mark on.
unfoldable pub redeem_claims :
    Exchanger
    → Services
    → Faults
    → ℕ
    → Bytes
    → Bytes
    → RefreshTokenClaims
    → Bytes
    → Store
    → Store × Outcome
redeem_claims e v f now token id c client_id consumed =
    let s : Store = mark_grace_in_flight e f.mark now token c.client_id consumed in
    elim (validate e v now c client_id) [
      | refuse o ↦ settle e f now token c o s
      | proceed ↦ elim (upstream v c) [
        | none ↦ settle e f now token c (rejected c.subject) s
        | some (idp, up) ↦ elim (v.mint_tokens_from_subject c idp) [
          | mint_fails ours ↦
              settle e f now token c (if ours then server_error c.subject else rejected c.subject) s
          | mints ts ↦ rotate e f now token id c idp up ts s
        ]
      ]
    ]

-- A caller that finds no record.
unfoldable pub redeem_lost :
    Exchanger → Faults → ℕ → (ℕ → Read) → (ℕ → Bool) → Bytes → Bytes → Store → Outcome
redeem_lost e f now reads cancelled token client_id s =
    elim (replay_from_grace e reads cancelled client_id).0 [
      | some o ↦ o
      | none ↦ elim (if f.recheck then none else read now token s.refresh) [
        | some _ ↦ refused (server_error [])
        | none ↦ refused (rejected [])
      ]
    ]

-- RedeemRefreshToken: `id` is the successor's id, `reads` and `cancelled` what the poll of a lost caller sees.
unfoldable pub redeem_refresh_token :
    Exchanger
    → Services
    → Faults
    → ℕ
    → Bytes
    → (ℕ → Read)
    → (ℕ → Bool)
    → Bytes
    → Bytes
    → Store
    → Store × Outcome
redeem_refresh_token e v f now id reads cancelled token client_id s =
    if not e.enabled || f.consume
    then (s, refused (server_error []))
    else elim (read now token s.refresh) [
      | none ↦ (s, redeem_lost e f now reads cancelled token client_id s)
      | some (claims c) ↦
          redeem_claims e v f now token id c client_id
            (record s { refresh = delete token s.refresh })
      | some _ ↦ (record s { refresh = delete token s.refresh }, refused (server_error []))
    ]

-- RevokeRefreshToken, with whether it reports no error.
unfoldable pub revoke_refresh_token : Exchanger → Faults → ℕ → Bytes → Store → Store × Bool
revoke_refresh_token e f now token s =
    let held : Option Stored = if f.consume then none else read now token s.refresh in
    let deleted : GoMap (Kept Stored) = if f.consume then s.refresh else delete token s.refresh in
    let marked : GoMap (Kept Stored) =
      if f.mark
      then deleted
      else keep (tombstone_key token) tombstone (now + tombstone_ttl) deleted in
    let t : Store = clear_grace_in_flight e f.clear token (record s { refresh = marked }) in
    let u : Store = elim held [
      | none ↦ t
      | some (claims c) ↦
          if beq c.predecessor_id [] then t else clear_grace_in_flight e f.clear c.predecessor_id t
      | some _ ↦ t
    ] in
    if e.enabled then (u, not f.consume) else (s, true)
