-- ===== src/Auth/Refresh/Outcomes.antt =====
-- What is left in the refresh cache by a redemption that finds its record.
use host_manager.Base.{ℕ, Bytes, delete, ◌≡◌, ◌≢◌, refl, Bool, true, false, some, arith}
use host_manager.Auth.Refresh.{
  TokenSet, RefreshTokenClaims, claims, Store, Exchanger, granted, Refusal, refused, read,
}
use host_manager.Auth.Refresh.Grace.{Read}
use host_manager.Auth.Refresh.Redeem.{Services, Faults, redeem_claims, redeem_refresh_token}

pub redeem-claims :
    (e : Exchanger) (v : Services) (f : Faults) (now : ℕ) (id : Bytes) (reads : ℕ → Read)
    (cancelled : ℕ → Bool) (token client : Bytes) (s : Store) (c : RefreshTokenClaims)
    → e.enabled ≡ true
    → f.consume ≡ false
    → read now token s.refresh ≡ some (claims c)
    → redeem_refresh_token e v f now id reads cancelled token client s
      ≡ redeem_claims e v f now token id c client (record s { refresh = delete token s.refresh })
unfolding redeem_refresh_token
redeem-claims e v f now id reads cancelled token client s c on reads_ok h =
    simp (redeem_refresh_token, on, reads_ok, h) refl

no_confusion : (o : Refusal) (ts : TokenSet) → refused o ≢ granted ts
no_confusion o ts h = ground arith

pub refused_injective : (o p : Refusal) → refused o ≡ refused p → o ≡ p
refused_injective o p h = ground arith

pub not_granted {ℓ} : {A : Type ℓ} (o : Refusal) (ts : TokenSet) → refused o ≡ granted ts → A
not_granted o ts h = absurd (no_confusion o ts h)
