-- ===== src/Auth/ApiToken/Revocation.antt =====
-- internal/auth/apitoken/apitoken.go: the revocations of API tokens. The store of a class is a map whose entries expire by
-- the cache's clock. Writing a time and reading one back are parameters, as is the digest of a subject.
use host_manager.Base.{
  ℕ, ◌+◌, ◌*◌, Bytes, text, GoMap, lookup, insert, Bool, true, false, ◌&&◌, ◌||◌, Option, none,
  some, ◌++◌, ltb, leb, if◌then◌else◌,
}
use host_manager.Auth.ClientRegistry.{max}

pub record Entry : Type 0 where
  pub value : Bytes
  pub expires_at : ℕ

abbrev pub Store : Type 0
Store = GoMap Entry

-- Cache.Get
unfoldable pub get : ℕ → Bytes → Store → Option Bytes
get clock key s = elim (lookup key s) [
  | none ↦ none
  | some e ↦ if ltb e.expires_at clock then none else some e.value
]

-- RevocationHorizon
abbrev pub revocation_horizon : ℕ
revocation_horizon = 10 * 365 * 24 * 3_600_000_000_000

-- RevocationTTL
abbrev pub revocation_ttl : ℕ → ℕ
revocation_ttl max_ttl = max revocation_horizon max_ttl

-- CapTTL
unfoldable pub cap_ttl : ℕ → ℕ → ℕ
cap_ttl max_ttl ttl = if ltb 0 max_ttl && ltb max_ttl ttl then max_ttl else ttl

-- The revocation store and, where it is wired, the legacy class.
pub record Stores : Type 0 where
  pub revocations : Store
  pub legacy : Option Store

-- Joined results: an error of any of them is the error.
abbrev pub either_of : Option Bool → Option Bool → Option Bool
either_of none b = none
either_of (some x) none = none
either_of (some x) (some y) = some (x || y)

module _ (parse : Bytes → Option ℕ) (format : ℕ → Bytes) (digest : Bytes → Bytes) where
  -- The update function of recordRevocation: what is stored from now on.
  unfoldable pub stamp : ℕ → Option Bytes → Bytes
  stamp now none = format now
  stamp now (some stored) = elim (parse stored) [
    | none ↦ format now
    | some at ↦ if ltb now at then stored else format now
  ]

  -- recordRevocation, by a replica whose time is `now`
  unfoldable pub record_revocation : ℕ → ℕ → ℕ → Bytes → ℕ → Store → Store
  unfolding stamp get
  record_revocation max_ttl clock now key ttl s =
      insert key
        (record {
          value = stamp now (get clock key s);
          expires_at = clock + max ttl (revocation_ttl max_ttl);
        })
        s

  -- latestRevocation
  unfoldable pub latest_revocation : Bytes → Bytes → Bytes
  latest_revocation a b = elim (parse a) [
    | none ↦ elim (parse b) [ none ↦ a | some bt ↦ b ]
    | some at ↦ elim (parse b) [ none ↦ a | some bt ↦ if ltb at bt then b else a ]
  ]

  -- revokedNoEarlierThan
  unfoldable pub revoked_no_earlier_than : Bytes → ℕ → Bool
  revoked_no_earlier_than revoked_at issued_at = elim (parse revoked_at) [
    | none ↦ true
    | some at ↦ leb issued_at at
  ]

  -- issuedNoLaterThan; a token may lack its time of issue.
  unfoldable pub issued_no_later_than : Option ℕ → Bytes → Bool
  unfolding revoked_no_earlier_than
  issued_no_later_than none revoked_at = true
  issued_no_later_than (some iat) revoked_at = revoked_no_earlier_than revoked_at iat

  -- subjectRevocationKey
  unfoldable pub subject_revocation_key : Bytes → Bytes
  subject_revocation_key sub = text "sub:" ++ digest sub

  -- One lookup of `revoked`; none where the store cannot be read.
  abbrev pub covers : ℕ → Option ℕ → Bool → Bytes → Store → Option Bool
  covers clock iat fails key s =
      if fails
      then none
      else some (elim (get clock key s) [ none ↦ false | some at ↦ issued_no_later_than iat at ])

  -- revoked, of the jti and subject of a token, with the failures of the three lookups
  unfoldable pub revoked : ℕ → Bool → Bool → Bool → Option ℕ → Bytes → Bytes → Stores → Option Bool
  unfolding get issued_no_later_than subject_revocation_key
  revoked clock f g h iat jti sub s =
      let own = covers clock iat f jti s.revocations in
      let of_subject = covers clock iat g (subject_revocation_key sub) s.revocations in
      let both = either_of own of_subject in
      elim s.legacy [ none ↦ both | some l ↦ either_of both (covers clock iat h jti l) ]

  -- SubjectRevokedSince
  unfoldable pub subject_revoked_since : ℕ → Bool → Bytes → ℕ → Store → Option Bool
  unfolding get revoked_no_earlier_than subject_revocation_key
  subject_revoked_since clock fails sub issued_at s =
      if fails
      then none
      else some (elim (get clock (subject_revocation_key sub) s) [
        | none ↦ false
        | some at ↦ revoked_no_earlier_than at issued_at
      ])

  -- revoke, with the failures of its two writes: the stores, and whether it succeeded
  unfoldable pub revoke : ℕ → ℕ → ℕ → Bool → Bool → Bytes → ℕ → Stores → Stores × Bool
  unfolding record_revocation
  revoke max_ttl clock now f g jti ttl s =
      if f
      then (s, false)
      else (let own = record s {
        revocations = record_revocation max_ttl clock now jti ttl s.revocations;
      } in
          elim s.legacy [
            | none ↦ (own, true)
            | some l ↦ if g then (own, false) else (
              record own { legacy = some (record_revocation max_ttl clock now jti ttl l) },
              true,
            )
          ])

  -- RevokeSubject
  unfoldable pub revoke_subject : ℕ → ℕ → ℕ → Bool → Bytes → ℕ → Stores → Stores × Bool
  unfolding record_revocation subject_revocation_key
  revoke_subject max_ttl clock now fails sub ttl s = if fails then (s, false) else (
    record s {
      revocations =
          record_revocation max_ttl clock now (subject_revocation_key sub) ttl s.revocations;
    },
    true,
  )
