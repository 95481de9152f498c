-- ===== src/Auth/Refresh/Lineage.antt =====
-- What a redemption leaves behind: one successor, or the consumed record again, or nothing.
use host_manager.Base.{
  ℕ, ◌+◌, ◌-◌, ◌*◌, ◌/◌, ◌≤◌, Bytes, beq, beq_iff, ◌≡◌, refl, ◌∙◌, ◌⊎◌, Bool, false, ◌&&◌, ltb,
  if◌then◌else◌, arith, inl, inr, Bool-cases, Option-cases,
}
use host_manager.Auth.Refresh.{
  Answer, failed, answer, TokenSet, RefreshTokenClaims, claims, Store, Exchanger, granted, Refusal,
  rejected, server_error, second, keep,
}
use host_manager.Auth.Refresh.Grace.{
  grace_cache_set, mark_grace_in_flight, clear_grace_in_flight, publish_to_grace,
}
use host_manager.Auth.Refresh.Redeem.{
  Services, Faults, Check, refuse, proceed, check_client, refuse_revoked_authentication, and_then,
  validate, upstream, stamp, create_refresh_token, successor, settle, rotate, redeem_claims, Mint,
  mint_fails, mints,
}

-- What a record that passes the checks is.
abbrev pub Valid : Exchanger → Services → ℕ → RefreshTokenClaims → Bytes → Type 0
Valid e v now c client =
    (c.client_id ≡ client)
    × (now / second ≤ c.expires_at)
    × ((e.max_session_age ≡ 0) ⊎ (now - c.original_issued_at * second ≤ e.max_session_age))
    × (v.subject_revoked_since c.subject c.original_issued_at ≡ answer false)

pub Answer-cases : (a : Answer Bool) → (a ≡ failed) ⊎ ((b : Bool) × (a ≡ answer b))
Answer-cases failed = inl refl
Answer-cases (answer b) = inr (b, refl)

pub refuse_revoked-proceed :
    (since : Bytes → ℕ → Answer Bool) (sub : Bytes) (at : ℕ)
    → refuse_revoked_authentication since sub at ≡ proceed
    → since sub at ≡ answer false
unfolding refuse_revoked_authentication
refuse_revoked-proceed since sub at h = elim (Answer-cases (since sub at)) [
  | inl q ↦ ground (arith, rw (refuse_revoked_authentication, q) at h)
  | inr (b, q) ↦ ground (arith, q, rw (refuse_revoked_authentication, q) at h)
]

pub Mint-cases : (m : Mint) → ((b : Bool) × (m ≡ mint_fails b)) ⊎ ((ts : TokenSet) × (m ≡ mints ts))
Mint-cases (mint_fails b) = inl (b, refl)
Mint-cases (mints ts) = inr (ts, refl)

pub Check-cases : (k : Check) → ((o : Refusal) × (k ≡ refuse o)) ⊎ (k ≡ proceed)
Check-cases (refuse o) = inl (o, refl)
Check-cases proceed = inr refl

and_then-proceed : (k l : Check) → and_then k l ≡ proceed → (k ≡ proceed) × (l ≡ proceed)
and_then-proceed (refuse o) l h = ground arith
and_then-proceed proceed l h = (refl, h)

validate-proceed :
    (e : Exchanger) (v : Services) (now : ℕ) (c : RefreshTokenClaims) (client : Bytes)
    → validate e v now c client ≡ proceed
    → Valid e v now c client
unfolding validate
validate-proceed e v now c client h = elim (Bool-cases (ltb c.expires_at (now / second))) [
  | inl t ↦ ground (arith, t)
  | inr t ↦
      elim (Bool-cases
        (ltb 0 e.max_session_age && ltb e.max_session_age (now - c.original_issued_at * second))) [
          | inl a ↦ ground (arith, t, a)
          | inr a ↦
              let (unrevoked, rest) =
                and_then-proceed
                  (refuse_revoked_authentication v.subject_revoked_since c.subject
                    c.original_issued_at)
                  (if beq c.client_id client
                    then check_client v c.subject client
                    else refuse (rejected c.subject))
                  (rw (validate, t, a) at h) in
              (
                ground (arith, rest, beq_iff c.client_id client),
                ground (arith, t),
                ground (arith, a),
                refuse_revoked-proceed v.subject_revoked_since c.subject c.original_issued_at
                    unrevoked,
              )
        ]
]

-- The caches behind a refresh cache that stays.
pub clear-refresh :
    (e : Exchanger) (fails : Bool) (token : Bytes) (s : Store)
    → (clear_grace_in_flight e fails token s).refresh ≡ s.refresh
unfolding clear_grace_in_flight
clear-refresh e fails token s = ground arith

pub mark-refresh :
    (e : Exchanger) (fails : Bool) (now : ℕ) (token client : Bytes) (s : Store)
    → (mark_grace_in_flight e fails now token client s).refresh ≡ s.refresh
unfolding grace_cache_set
mark-refresh e fails now token client s = ground arith

-- The writes of the grace cache leave the refresh cache.
set-refresh :
    (e : Exchanger) (fails : Bool) (now : ℕ) (token client : Bytes) (ts : TokenSet) (s : Store)
    → (publish_to_grace e fails now token client ts s).0.refresh ≡ s.refresh
unfolding grace_cache_set
set-refresh e fails now token client ts s = ground arith

clear_unless :
    (published : Bool) (e : Exchanger) (fails : Bool) (token : Bytes) (u : Store)
    → (if published then u else clear_grace_in_flight e fails token u).refresh ≡ u.refresh
clear_unless published e fails token u = ground (arith, clear-refresh e fails token u)

-- A rotation either stores the successor and gives its tokens, or is settled as a failure of our own.
pub rotate-cases :
    (e : Exchanger) (f : Faults) (now : ℕ) (token id : Bytes) (c : RefreshTokenClaims)
    (idp up : Bytes) (ts : TokenSet) (s : Store)
    → (rotate e f now token id c idp up ts s ≡ settle e f now token c (server_error c.subject) s)
      ⊎ (((rotate e f now token id c idp up ts s).1 ≡ granted (record ts { refresh_token = id }))
          × ((rotate e f now token id c idp up ts s).0.refresh
              ≡ keep id
                  (claims (stamp e now (successor token c idp up)))
                  (now + e.refresh_token_ttl)
                  s.refresh))
unfolding rotate create_refresh_token
rotate-cases e f now token id c idp up ts s = elim (Bool-cases f.create) [
  | inl x ↦ inl (simp (rotate, create_refresh_token, x) refl)
  | inr x ↦
      let t : Store = record s {
        refresh =
            keep id (claims (stamp e now (successor token c idp up))) (now + e.refresh_token_ttl)
              s.refresh;
      } in
      let minted : TokenSet = record ts { refresh_token = id } in
      let (u, published) = publish_to_grace e f.publish now token c.client_id minted t in
      inr (
        rw (rotate, create_refresh_token, x)
          (
            refl,
            clear_unless published e f.clear token u
                ∙ set-refresh e f.publish now token c.client_id minted t,
          ))
]

-- What a redemption with a record comes to.
pub redeem_claims-cases :
    (e : Exchanger) (v : Services) (f : Faults) (now : ℕ) (token id : Bytes)
    (c : RefreshTokenClaims) (client : Bytes) (s : Store)
    → ((o : Refusal) × (redeem_claims e v f now token id c client s
          ≡ settle e f now token c o (mark_grace_in_flight e f.mark now token c.client_id s)))
      ⊎ (Valid e v now c client
          × ((idp : Bytes) × (up : Bytes) × (ts : TokenSet) × (redeem_claims e v f now token id c
                  client s
                ≡ rotate e f now token id c idp up ts
                    (mark_grace_in_flight e f.mark now token c.client_id s))))
unfolding redeem_claims
redeem_claims-cases e v f now token id c client s = elim (Check-cases (validate e v now c client)) [
  | inl (o, h) ↦ inl (o, rw (redeem_claims, h) refl)
  | inr h ↦ elim (Option-cases (upstream v c)) [
    | inl u ↦ inl (rejected c.subject, rw (redeem_claims, h, u) refl)
    | inr ((idp, up), u) ↦ elim (Mint-cases (v.mint_tokens_from_subject c idp)) [
      | inl (ours, m) ↦ inl (
        if ours then server_error c.subject else rejected c.subject,
        rw (redeem_claims, h, u, m) refl,
      )
      | inr (ts, m) ↦
          inr (validate-proceed e v now c client h, (idp, up, ts, rw (redeem_claims, h, u, m) refl))
    ]
  ]
]
