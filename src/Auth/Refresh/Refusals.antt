-- ===== src/Auth/Refresh/Refusals.antt =====
-- What a redemption that gives no tokens leaves of the record that it found.
use host_manager.Base.{
  ℕ, ◌*◌, ◌<◌, Bytes, beq_iff, beq_self, GoMap, lookup, delete, lookup-insert_self, lookup-delete,
  ◌≡◌, ◌≢◌, refl, sym, ap, ◌∙◌, Bool, true, false, none, some, leb, if◌then◌else◌, arith, inl, inr,
  length,
}
use host_manager.Auth.Refresh.{
  RefreshTokenClaims, Stored, claims, Kept, Store, Exchanger, Refusal, refused, rejected,
  server_error, second, read, keep, tombstone_key,
}
use host_manager.Auth.Refresh.Grace.{Read, mark_grace_in_flight}
use host_manager.Auth.Refresh.Redeem.{
  Services, Faults, restore_consumed, settle, redeem_claims, redeem_refresh_token,
}
use host_manager.Auth.Refresh.Outcomes.{redeem-claims, refused_injective, not_granted}
use host_manager.Auth.Refresh.Lineage.{
  clear-refresh, mark-refresh, rotate-cases, redeem_claims-cases,
}

pub longer : (t : Bytes) → t ≢ tombstone_key t
longer t h = omega (arith, ap length h)

read-delete_ne :
    (now : ℕ) (k j : Bytes) (m : GoMap (Kept Stored))
    → k ≢ j
    → read now j (delete k m) ≡ read now j m
unfolding read
read-delete_ne now k j m n = rw (read, lookup-delete k j m) (ground (arith, beq_iff k j))

restored :
    (f : Faults) (now : ℕ) (token : Bytes) (c : RefreshTokenClaims) (s : Store)
    → f.restore ≡ false
    → now < c.expires_at * second
    → read now (tombstone_key token) s.refresh ≡ none
    → (restore_consumed f now token c s).refresh
      ≡ keep token (claims c) (c.expires_at * second) s.refresh
unfolding restore_consumed
restored f now token c s ok live unmarked =
    let sure : (if f.tombstone_read then none else read now (tombstone_key token) s.refresh)
        ≡ none =
      rw (unmarked) (ground arith) in
    let later : leb (c.expires_at * second) now ≡ false = ground (arith, live) in
    rw (restore_consumed, sure, later, ok) refl

stays_dead :
    (f : Faults) (now : ℕ) (token : Bytes) (c : RefreshTokenClaims) (s : Store) (t : Stored)
    → f.tombstone_read ≡ false
    → read now (tombstone_key token) s.refresh ≡ some t
    → (restore_consumed f now token c s).refresh ≡ s.refresh
unfolding restore_consumed
stays_dead f now token c s t ok marked = rw (restore_consumed, ok, marked) refl

two_refusals : (s t : Bytes) → refused (server_error s) ≢ refused (rejected t)
two_refusals s t h = ground arith

another_refusal {ℓ} :
    {A : Type ℓ} (s t : Bytes) → refused (server_error s) ≡ refused (rejected t) → A
another_refusal s t h = absurd (two_refusals s t h)

-- The settling of a failure of our own.
settle-restores :
    (e : Exchanger) (f : Faults) (now : ℕ) (token : Bytes) (c : RefreshTokenClaims) (sub : Bytes)
    (s : Store)
    → f.restore ≡ false
    → now < c.expires_at * second
    → read now (tombstone_key token) s.refresh ≡ none
    → lookup token (settle e f now token c (server_error sub) s).0.refresh
      ≡ some (record { value = claims c; until = c.expires_at * second })
unfolding settle restore_consumed
settle-restores e f now token c sub s ok live unmarked =
    rw (settle, clear-refresh e f.clear token (restore_consumed f now token c s))
      (rw (restored f now token c s ok live unmarked) (lookup-insert_self token _ _))

settle-revoked :
    (e : Exchanger) (f : Faults) (now : ℕ) (token : Bytes) (c : RefreshTokenClaims) (o : Refusal)
    (s : Store) (t : Stored)
    → f.tombstone_read ≡ false
    → read now (tombstone_key token) s.refresh ≡ some t
    → lookup token s.refresh ≡ none
    → lookup token (settle e f now token c o s).0.refresh ≡ none
unfolding settle restore_consumed
settle-revoked e f now token c (rejected sub) s t ok marked gone =
    rw (clear-refresh e f.clear token s) gone
settle-revoked e f now token c (server_error sub) s t ok marked gone =
    rw
      (
        settle,
        clear-refresh e f.clear token (restore_consumed f now token c s),
        stays_dead f now token c s t ok marked,
      )
      gone

claims-restores :
    (e : Exchanger) (v : Services) (f : Faults) (now : ℕ) (token id : Bytes)
    (c : RefreshTokenClaims) (client sub : Bytes) (s : Store)
    → f.restore ≡ false
    → now < c.expires_at * second
    → read now (tombstone_key token) s.refresh ≡ none
    → (redeem_claims e v f now token id c client s).1 ≡ refused (server_error sub)
    → lookup token (redeem_claims e v f now token id c client s).0.refresh
      ≡ some (record { value = claims c; until = c.expires_at * second })
unfolding settle
claims-restores e v f now token id c client sub s written live unmarked r =
    let marked : Store = mark_grace_in_flight e f.mark now token c.client_id s in
    let unmarked' : read now (tombstone_key token) marked.refresh ≡ none =
      rw (mark-refresh e f.mark now token c.client_id s) unmarked in
    elim (redeem_claims-cases e v f now token id c client s) [
      | inl (o, q) ↦
          let ours : o ≡ server_error sub = refused_injective o (server_error sub) (rw (q) at r) in
          rw (q, ours) (settle-restores e f now token c sub marked written live unmarked')
      | inr (valid, (idp, up, minted, q)) ↦
          elim (rotate-cases e f now token id c idp up minted marked) [
            | inl x ↦
                rw (q, x) (settle-restores e f now token c c.subject marked written live unmarked')
            | inr (out, refresh) ↦
                not_granted (server_error sub) (record minted { refresh_token = id })
                  (sym (rw (q) at r) ∙ out)
          ]
    ]

-- A redemption that finds its record and fails for a reason of our own puts the record back under its own expiry, if it
-- has not expired, no revocation has marked the token, and the write does not fail.
pub redeem_refresh_token-restores :
    (e : Exchanger) (v : Services) (f : Faults) (now : ℕ) (id : Bytes) (reads : ℕ → Read)
    (cancelled : ℕ → Bool) (token client sub : Bytes) (s : Store) (c : RefreshTokenClaims)
    → e.enabled ≡ true
    → f.consume ≡ false
    → f.restore ≡ false
    → read now token s.refresh ≡ some (claims c)
    → read now (tombstone_key token) s.refresh ≡ none
    → now < c.expires_at * second
    → (redeem_refresh_token e v f now id reads cancelled token client s).1
      ≡ refused (server_error sub)
    → lookup token (redeem_refresh_token e v f now id reads cancelled token client s).0.refresh
      ≡ some (record { value = claims c; until = c.expires_at * second })
redeem_refresh_token-restores e v f now id reads cancelled token client sub s c on ok written h
      unmarked live r =
    let same = redeem-claims e v f now id reads cancelled token client s c on ok h in
    let unmarked' : read now (tombstone_key token) (delete token s.refresh) ≡ none =
      read-delete_ne now token (tombstone_key token) s.refresh (longer token) ∙ unmarked in
    rw (same) (
      claims-restores e v f now token id c client sub
        (record s { refresh = delete token s.refresh }) written live unmarked' (rw (same) at r))

claims-rejected :
    (e : Exchanger) (v : Services) (f : Faults) (now : ℕ) (token id : Bytes)
    (c : RefreshTokenClaims) (client sub : Bytes) (s : Store)
    → lookup token s.refresh ≡ none
    → (redeem_claims e v f now token id c client s).1 ≡ refused (rejected sub)
    → lookup token (redeem_claims e v f now token id c client s).0.refresh ≡ none
unfolding settle
claims-rejected e v f now token id c client sub s gone r =
    let marked : Store = mark_grace_in_flight e f.mark now token c.client_id s in
    let gone' : lookup token marked.refresh ≡ none =
      rw (mark-refresh e f.mark now token c.client_id s) gone in
    elim (redeem_claims-cases e v f now token id c client s) [
      | inl (o, q) ↦
          let theirs : o ≡ rejected sub = refused_injective o (rejected sub) (rw (q) at r) in
          rw (q, theirs) (rw (clear-refresh e f.clear token marked) gone')
      | inr (valid, (idp, up, minted, q)) ↦
          elim (rotate-cases e f now token id c idp up minted marked) [
            | inl x ↦ another_refusal c.subject sub (rw (q, x) at r)
            | inr (out, refresh) ↦
                not_granted (rejected sub) (record minted { refresh_token = id })
                  (sym (rw (q) at r) ∙ out)
          ]
    ]

-- A redemption that finds its record and is refused for another reason than a failure of our own consumes the record.
pub redeem_refresh_token-rejected :
    (e : Exchanger) (v : Services) (f : Faults) (now : ℕ) (id : Bytes) (reads : ℕ → Read)
    (cancelled : ℕ → Bool) (token client sub : Bytes) (s : Store) (c : RefreshTokenClaims)
    → e.enabled ≡ true
    → f.consume ≡ false
    → read now token s.refresh ≡ some (claims c)
    → (redeem_refresh_token e v f now id reads cancelled token client s).1 ≡ refused (rejected sub)
    → lookup token (redeem_refresh_token e v f now id reads cancelled token client s).0.refresh
      ≡ none
redeem_refresh_token-rejected e v f now id reads cancelled token client sub s c on ok h r =
    let same = redeem-claims e v f now id reads cancelled token client s c on ok h in
    rw (same) (
      claims-rejected e v f now token id c client sub
        (record s { refresh = delete token s.refresh })
        (ground (arith, lookup-delete token token s.refresh, beq_self token)) (rw (same) at r))
