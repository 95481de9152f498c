-- ===== src/Auth/Refresh.antt =====
-- internal/auth/exchange.go and refreshgrace.go: the redemption and the revocation of refresh tokens, over the refresh
-- and grace caches. A record in a cache stands for its JSON text; a cache call that fails has no effect. Tokens and claims
-- are opaque. Times are nanoseconds, and a redemption reads the clock once.
pub mod Grace
pub mod Redeem
pub mod Poll
pub mod Lineage
pub mod Outcomes
pub mod Refusals
pub mod Revocation
use host_manager.Base.{
  arith, ◌≡◌, ◌<◌, lookup-insert_self, ℕ, ◌+◌, ◌*◌, ◌/◌, Bytes, text, beq, GoMap, lookup, insert,
  delete, Bool, true, false, Option, none, some, List, [], ◌∷◌, ◌++◌, ltb, ◌==◌, if◌then◌else◌,
}

-- The answer of a service that can fail.
pub data Answer {ℓ} (A : Type ℓ) : Type ℓ where
  failed : Answer A
  answer : A → Answer A

pub record TokenSet : Type 0 where
  pub access_token : Bytes
  pub id_token : Bytes
  pub refresh_token : Bytes
  pub granted_scope : Bytes
  pub token_subject : Bytes

pub record RefreshTokenClaims : Type 0 where
  pub auth_method : Bytes
  pub client_id : Bytes
  pub expires_at : ℕ
  pub issued_at : ℕ
  pub original_issued_at : ℕ
  pub predecessor_id : Bytes
  pub scope : Bytes
  pub subject : Bytes
  pub idp_claims : Bytes
  pub upstream_refresh_token : Bytes

-- What the refresh cache holds: a record, a tombstone, or bytes that do not parse as a record.
pub data Stored : Type 0 where
  claims : RefreshTokenClaims → Stored
  tombstone unreadable : Stored

pub record GraceRecord : Type 0 where
  pub owner : Bytes
  pub pending : Bool
  pub token_set : TokenSet

pub record Kept {ℓ} (A : Type ℓ) : Type ℓ where
  pub value : A
  pub until : ℕ

pub record Store : Type 0 where
  pub refresh : GoMap (Kept Stored)
  pub grace : GoMap (Kept GraceRecord)

pub record Exchanger : Type 0 where
  pub enabled : Bool
  pub has_grace : Bool
  pub refresh_token_ttl : ℕ
  pub grace_window : ℕ
  pub max_session_age : ℕ

-- An ErrServerError, or any other error, with the subject where it is known.
pub data Refusal : Type 0 where
  rejected server_error : Bytes → Refusal

pub data Outcome : Type 0 where
  granted : TokenSet → Outcome
  refused : Refusal → Outcome

abbrev pub second : ℕ
second = 1000000000

-- A read at a time.
unfoldable pub read {ℓ} : {A : Type ℓ} → ℕ → Bytes → GoMap (Kept A) → Option A
read now key m = elim (lookup key m) [
  | none ↦ none
  | some k ↦ if ltb now k.until then some k.value else none
]

abbrev pub keep {ℓ} : {A : Type ℓ} → Bytes → A → ℕ → GoMap (Kept A) → GoMap (Kept A)
keep key v until m = insert key (record { value = v; until = until }) m

pub read-keep {ℓ} :
    {A : Type ℓ} (now until : ℕ) (key : Bytes) (value : A) (m : GoMap (Kept A))
    → now < until
    → read now key (keep key value until m) ≡ some value
unfolding read
read-keep now until key value m h =
    let e = lookup-insert_self key (record { value = value; until = until }) m in
    rw (read, e) (ground (arith, h))

-- refreshRevokeTombstoneKey
abbrev pub tombstone_key : Bytes → Bytes
tombstone_key token = text "revoked:" ++ token

abbrev pub tombstone_ttl : ℕ
tombstone_ttl = 300 * second
