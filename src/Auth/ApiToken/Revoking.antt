-- ===== src/Auth/ApiToken/Revoking.antt =====
-- internal/auth/apitoken/apitoken.go: RevokeByMetadata and RevokeToken. The parse of RevokeToken has no rules of the host's.
use host_manager.Base.{
  ℕ, ◌-◌, Bytes, Bool, true, false, not, Option, none, some, leb, if◌then◌else◌,
}
use host_manager.Auth.ApiToken.{get_key}
use host_manager.Auth.ApiToken.Revocation.{Stores, revoke}
use host_manager.Auth.ApiToken.Mint.{Claims, TokenManager, unwrap, generate_jti}

module _ (parse : Bytes → Option ℕ) (format : ℕ → Bytes) (digest : Bytes → Bytes)
    (parse_footer json_kid : Bytes → Option Bytes)
    (parse_v4_public : Bytes → Bytes → Option Claims) where
  -- RevokeByMetadata
  unfoldable pub revoke_by_metadata :
      TokenManager → ℕ → ℕ → Bool → Bool → Bytes → Bytes → Bytes → ℕ → Stores → Stores × Bool
  unfolding generate_jti revoke
  revoke_by_metadata tm clock now f g audience subject action ttl s =
      if not tm.has_revocation_cache
      then (s, false)
      else revoke parse format digest tm.max_ttl clock now f g
          (generate_jti digest audience subject action) ttl s

  -- RevokeToken once the token is parsed; an expired token needs no revocation.
  unfoldable pub revoke_claims :
      TokenManager → ℕ → ℕ → Bool → Bool → Claims → Stores → Stores × Bool
  unfolding revoke
  revoke_claims tm clock now f g c s = elim c.token_id [
    | none ↦ (s, false)
    | some jti ↦ elim c.exp [
      | none ↦ (s, false)
      | some exp ↦
          if leb exp now
          then (s, true)
          else revoke parse format digest tm.max_ttl clock now f g jti (exp - now) s
    ]
  ]

  unfoldable pub revoke_parsed :
      TokenManager → ℕ → ℕ → Bool → Bool → Option Claims → Stores → Stores × Bool
  unfolding revoke_claims
  revoke_parsed tm clock now f g none s = (s, false)
  revoke_parsed tm clock now f g (some c) s = revoke_claims tm clock now f g c s

  -- RevokeToken
  unfoldable pub revoke_token : TokenManager → ℕ → ℕ → Bool → Bool → Bytes → Stores → Stores × Bool
  unfolding unwrap get_key revoke_parsed
  revoke_token tm clock now f g wire s =
      let signed = unwrap tm wire in
      if not tm.has_revocation_cache then (s, false) else elim (parse_footer signed) [
        | none ↦ (s, false)
        | some footer ↦ elim (json_kid footer) [
          | none ↦ (s, false)
          | some kid ↦ elim (get_key kid tm.key_pairs) [
            | none ↦ (s, false)
            | some k ↦ revoke_parsed tm clock now f g (parse_v4_public k.public_key signed) s
          ]
        ]
      ]
