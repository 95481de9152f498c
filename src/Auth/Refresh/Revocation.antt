-- ===== src/Auth/Refresh/Revocation.antt =====
-- What a revocation leaves in the caches.
use host_manager.Base.{
  ℕ, ◌+◌, ◌<◌, Bytes, beq, beq_iff, lookup, delete, lookup-delete_self, lookup-delete_keeps,
  lookup-insert_self, lookup-insert_ne, ◌≡◌, ◌≢◌, refl, sym, ◌∙◌, true, false, none, some, [],
  arith,
}
use host_manager.Auth.Refresh.{
  RefreshTokenClaims, claims, tombstone, Store, Exchanger, read, keep, tombstone_key, tombstone_ttl,
}
use host_manager.Auth.Refresh.Grace.{clear_grace_in_flight}
use host_manager.Auth.Refresh.Redeem.{Faults, revoke_refresh_token}
use host_manager.Auth.Refresh.Refusals.{longer}

-- The state behind a revocation that meets no failure.
revoked-store :
    (e : Exchanger) (f : Faults) (now : ℕ) (token : Bytes) (s : Store) (c : RefreshTokenClaims)
    → e.enabled ≡ true
    → e.has_grace ≡ true
    → f.consume ≡ false
    → f.mark ≡ false
    → f.clear ≡ false
    → read now token s.refresh ≡ some (claims c)
    → c.predecessor_id ≢ []
    → ((revoke_refresh_token e f now token s).0.refresh
        ≡ keep (tombstone_key token) tombstone (now + tombstone_ttl) (delete token s.refresh))
      × ((revoke_refresh_token e f now token s).0.grace
          ≡ delete c.predecessor_id (delete token s.grace))
unfolding revoke_refresh_token clear_grace_in_flight
revoked-store e f now token s c on grace consume mark clear h p =
    let linked : beq c.predecessor_id [] ≡ false = ground (arith, beq_iff c.predecessor_id []) in
    simp (revoke_refresh_token, clear_grace_in_flight, on, grace, consume, mark, clear, h, linked)
      (refl, refl)

-- A revocation of a token that is held and has a predecessor, by a cache that does not fail, removes the record, leaves a tombstone that can be
-- read for five minutes, and removes the grace records of the token and of its predecessor.
pub revoke_refresh_token-dead :
    (e : Exchanger) (f : Faults) (now at : ℕ) (token : Bytes) (s : Store) (c : RefreshTokenClaims)
    → e.enabled ≡ true
    → e.has_grace ≡ true
    → f.consume ≡ false
    → f.mark ≡ false
    → f.clear ≡ false
    → read now token s.refresh ≡ some (claims c)
    → c.predecessor_id ≢ []
    → at < now + tombstone_ttl
    → (lookup token (revoke_refresh_token e f now token s).0.refresh ≡ none)
      × (read at (tombstone_key token) (revoke_refresh_token e f now token s).0.refresh
          ≡ some tombstone)
      × (lookup token (revoke_refresh_token e f now token s).0.grace ≡ none)
      × (lookup c.predecessor_id (revoke_refresh_token e f now token s).0.grace ≡ none)
unfolding read
revoke_refresh_token-dead e f now at token s c on grace consume mark clear h p l =
    let (refresh, graces) = revoked-store e f now token s c on grace consume mark clear h p in
    let gone : lookup token (delete token s.refresh) ≡ none = lookup-delete_self token s.refresh in
    rw (refresh, graces)
      (
        lookup-insert_ne (tombstone_key token) token _ _ (λ q. longer token (sym q)) ∙ gone,
        rw
            (
              read,
              lookup-insert_self (tombstone_key token)
                  (record { value = tombstone; until = now + tombstone_ttl })
                  (delete token s.refresh),
            )
            (ground (arith, l)),
        lookup-delete_keeps c.predecessor_id token (delete token s.grace)
            (lookup-delete_self token s.grace),
        lookup-delete_self c.predecessor_id (delete token s.grace),
      )
