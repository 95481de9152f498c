-- ===== src/Auth/CodeGrant/Once.antt =====
-- A code is redeemed once, in any order of redemptions and creations: internal/auth/exchange.go.
use host_manager.Base.{
  ℕ, ◌+◌, ◌≤◌, Bytes, text, beq, beq_iff, GoMap, lookup, delete, lookup-delete_self,
  lookup-delete_keeps, lookup-insert_ne, ◌≡◌, ◌≢◌, refl, sym, ◌∙◌, ap, ◌⊎◌, inl, inr, Bool, true,
  false, ◌&&◌, Option, none, some, List, [], ◌∷◌, Bool-cases, Option-cases, All, if◌then◌else◌,
  arith,
}
use host_manager.Auth.Refresh.{TokenSet, Kept, Exchanger, Outcome, granted, refused, read, keep}
use host_manager.Auth.Refresh.Lineage.{Check-cases}
use host_manager.Auth.CodeGrant.{
  AuthorizationCodeClaims, Opened, malformed, undecryptable, unreadable, opened, CodeStore,
  CodeServices, Conditions, CodeRequest, auth_code_ttl, complete, check_code, consume_code,
  redeem_opened, redeem_authorization_code, create_authorization_code,
}
use host_manager.Auth.CodeGrant.Bound.{mint_code-codes, redeem_authorization_code-granted}

-- One call on the exchanger, with what it asks of its surroundings.
pub data Step : Type 0 where
  redeem : CodeServices → Conditions → CodeRequest → Step
  create : ℕ → Bytes → Bool → AuthorizationCodeClaims → Step

-- A creation does not take the id.
abbrev pub IsApart : Bytes → Step → Type 0
IsApart jti (redeem v w r) = Unit {0}
IsApart jti (create now id fails c) = (complete now id c).jti ≢ jti

abbrev pub is_granted : Outcome → Bool
is_granted (granted ts) = true
is_granted (refused o) = false

-- The code cache of a result, where a failed creation leaves the store.
abbrev created : CodeStore → Option (CodeStore × Bytes) → CodeStore
created s none = s
created s (some (t, code)) = t

module _ (unseal : Bytes → Opened) (s256 : Bytes → Bytes) (seal : AuthorizationCodeClaims → Bytes)
    (e : Exchanger) where
  abbrev step : Step → CodeStore → CodeStore
  step (redeem v w r) s = (redeem_authorization_code unseal s256 e v w r s).0
  step (create now id fails c) s = created s (create_authorization_code seal now id fails c s)

  -- Whether a step gives tokens for the code.
  abbrev gives : Bytes → Step → CodeStore → ℕ
  gives code (redeem v w r) s =
      if beq r.code code && is_granted (redeem_authorization_code unseal s256 e v w r s).1
      then 1
      else 0
  gives code (create now id fails c) s = 0

  -- How often a code is granted in a run.
  unfoldable pub grants : Bytes → List Step → CodeStore → ℕ
  grants code [] s = 0
  grants code (x ∷ xs) s = gives code x s + grants code xs (step x s)

  -- The store has a code cache in which the id is not held.
  abbrev Spent : Bytes → CodeStore → Type 0
  Spent jti s = (codes : GoMap (Kept Bytes)) × (s.codes ≡ some codes) × (lookup jti codes ≡ none)

  consume-codes :
      (w : Conditions) (c : AuthorizationCodeClaims) (s : CodeStore) (codes : GoMap (Kept Bytes))
      → s.codes ≡ some codes
      → ((consume_code w c s).0.codes ≡ some codes)
        ⊎ ((consume_code w c s).0.codes ≡ some (delete c.jti codes))
  unfolding consume_code
  consume-codes w c s codes h = elim (Bool-cases (beq c.jti [])) [
    | inl y ↦ inl (rw (consume_code, h, y) h)
    | inr y ↦ elim (Bool-cases w.consume_fails) [
      | inl f ↦ inl (rw (consume_code, h, y, f) h)
      | inr f ↦ elim (Option-cases (read w.now c.jti codes)) [
        | inl n ↦ inr (rw (consume_code, h, y, f, n) refl)
        | inr (held, k) ↦ inr (rw (consume_code, h, y, f, k) refl)
      ]
    ]
  ]

  opened-codes :
      (v : CodeServices) (w : Conditions) (c : AuthorizationCodeClaims) (r : CodeRequest)
      (s : CodeStore)
      → ((redeem_opened s256 e v w c r s).0.codes ≡ s.codes)
        ⊎ ((redeem_opened s256 e v w c r s).0.codes ≡ (consume_code w c s).0.codes)
  unfolding redeem_opened
  opened-codes v w c r s = elim (Check-cases (check_code s256 v w.now c r)) [
    | inl (o, k) ↦ inl (rw (redeem_opened, k) refl)
    | inr k ↦ elim (Check-cases (consume_code w c s).1) [
      | inl (o, l) ↦ inr (rw (redeem_opened, k, l) refl)
      | inr l ↦ inr (rw (redeem_opened, k, l) (mint_code-codes e v w c (consume_code w c s).0))
    ]
  ]

  -- A redemption only removes ids.
  redeem-codes :
      (v : CodeServices) (w : Conditions) (r : CodeRequest) (s : CodeStore)
      (codes : GoMap (Kept Bytes)) (o : Opened)
      → s.codes ≡ some codes
      → unseal r.code ≡ o
      → ((redeem_authorization_code unseal s256 e v w r s).0.codes ≡ some codes)
        ⊎ ((id : Bytes) × ((redeem_authorization_code unseal s256 e v w r s).0.codes
              ≡ some (delete id codes)))
  unfolding redeem_authorization_code
  redeem-codes v w r s codes malformed h u = inl (rw (redeem_authorization_code, u) h)
  redeem-codes v w r s codes undecryptable h u = inl (rw (redeem_authorization_code, u) h)
  redeem-codes v w r s codes unreadable h u = inl (rw (redeem_authorization_code, u) h)
  redeem-codes v w r s codes (opened c) h u = elim (opened-codes v w c r s) [
    | inl k ↦ inl (rw (redeem_authorization_code, u) (k ∙ h))
    | inr k ↦ elim (consume-codes w c s codes h) [
      | inl l ↦ inl (rw (redeem_authorization_code, u) (k ∙ l))
      | inr l ↦ inr (c.jti, rw (redeem_authorization_code, u) (k ∙ l))
    ]
  ]

  -- A spent id stays spent.
  step-Spent :
      (jti : Bytes) (x : Step) (s : CodeStore) → IsApart jti x → Spent jti s → Spent jti (step x s)
  unfolding create_authorization_code
  step-Spent jti (redeem v w r) s a (codes, h, n) =
      elim (redeem-codes v w r s codes (unseal r.code) h refl) [
        | inl k ↦ (codes, k, n)
        | inr (id, k) ↦ (delete id codes, k, lookup-delete_keeps id jti codes n)
      ]
  step-Spent jti (create now id fails c) s a (codes, h, n) = elim (Bool-cases fails) [
    | inl y ↦ (codes, rw (create_authorization_code, h, y) refl, n)
    | inr y ↦
        let full = complete now id c in
        (
          keep full.jti (text "1") (now + auth_code_ttl) codes,
          rw (create_authorization_code, h, y) refl,
          lookup-insert_ne full.jti jti _ codes a ∙ n,
        )
  ]

  read-spent :
      (now : ℕ) (jti : Bytes) (codes : GoMap (Kept Bytes))
      → lookup jti codes ≡ none
      → read now jti codes ≡ none
  unfolding read
  read-spent now jti codes n = rw (read, n) refl

  Outcome-cases : (o : Outcome) → ((ts : TokenSet) × (o ≡ granted ts)) ⊎ (is_granted o ≡ false)
  Outcome-cases (granted ts) = inl (ts, refl)
  Outcome-cases (refused o) = inr refl

  -- A step on a spent id gives nothing for its code.
  gives-Spent :
      (code : Bytes) (c : AuthorizationCodeClaims) (x : Step) (s : CodeStore)
      → unseal code ≡ opened c
      → Spent c.jti s
      → gives code x s ≡ 0
  gives-Spent code c (create now id fails d) s u h = refl
  gives-Spent code c (redeem v w r) s u (codes, h, n) =
      elim (Outcome-cases (redeem_authorization_code unseal s256 e v w r s).1) [
        | inr k ↦ rw (k) (ground arith)
        | inl (ts, k) ↦ elim (Bool-cases (beq r.code code)) [
          | inr m ↦ rw (m) refl
          | inl m ↦
              let (d, o, _, _, (held, l), _) =
                redeem_authorization_code-granted unseal s256 e v w r s codes ts h k in
              let same : opened c ≡ opened d =
                sym u ∙ sym (ap unseal ((beq_iff r.code code).0 m)) ∙ o in
              let id : d.jti ≡ c.jti = ground (arith, same) in
              absurd (ground (arith, rw (id, read-spent w.now c.jti codes n) at l))
        ]
      ]

  grants-Spent :
      (code : Bytes) (c : AuthorizationCodeClaims) (xs : List Step) (s : CodeStore)
      → unseal code ≡ opened c
      → All (IsApart c.jti) xs
      → Spent c.jti s
      → grants code xs s ≡ 0
  unfolding grants
  grants-Spent code c [] s u a h = refl
  grants-Spent code c (x ∷ xs) s u (a, rest) h = omega (
    arith,
    gives-Spent code c x s u h,
    grants-Spent code c xs (step x s) u rest (step-Spent c.jti x s a h),
  )

  still :
      (v : CodeServices) (w : Conditions) (r : CodeRequest) (s : CodeStore)
      (codes : GoMap (Kept Bytes))
      → s.codes ≡ some codes
      → (next : GoMap (Kept Bytes)) × ((redeem_authorization_code unseal s256 e v w r s).0.codes
          ≡ some next)
  still v w r s codes h = elim (redeem-codes v w r s codes (unseal r.code) h refl) [
    | inl k ↦ (codes, k)
    | inr (id, k) ↦ (delete id codes, k)
  ]

  -- A step keeps the cache, and where it gives tokens for a code, the code is spent.
  step-gives :
      (code : Bytes) (c : AuthorizationCodeClaims) (x : Step) (s : CodeStore)
      (codes : GoMap (Kept Bytes))
      → unseal code ≡ opened c
      → s.codes ≡ some codes
      → ((gives code x s ≡ 0) × ((next : GoMap (Kept Bytes)) × ((step x s).codes ≡ some next)))
        ⊎ ((gives code x s ≡ 1) × Spent c.jti (step x s))
  unfolding create_authorization_code
  step-gives code c (create now id fails d) s codes u h = elim (Bool-cases fails) [
    | inl y ↦ inl (refl, (codes, rw (create_authorization_code, h, y) refl))
    | inr y ↦
        let full = complete now id d in
        inl (
          refl,
          (
            keep full.jti (text "1") (now + auth_code_ttl) codes,
            rw (create_authorization_code, h, y) refl,
          ),
        )
  ]
  step-gives code c (redeem v w r) s codes u h =
      elim (Outcome-cases (redeem_authorization_code unseal s256 e v w r s).1) [
        | inr k ↦ inl (rw (k) (ground arith), still v w r s codes h)
        | inl (ts, k) ↦ elim (Bool-cases (beq r.code code)) [
          | inr m ↦ inl (rw (m) refl, still v w r s codes h)
          | inl m ↦
              let (d, o, _, _, _, left) =
                redeem_authorization_code-granted unseal s256 e v w r s codes ts h k in
              let same : opened c ≡ opened d =
                sym u ∙ sym (ap unseal ((beq_iff r.code code).0 m)) ∙ o in
              let id : d.jti ≡ c.jti = ground (arith, same) in
              inr (
                rw (m, k) refl,
                (delete d.jti codes, left, rw (id) (lookup-delete_self c.jti codes)),
              )
        ]
      ]

  -- Where there is a code cache: in any sequence of redemptions, of any codes by any callers, and of creations
  -- that do not draw this code's id, a code gives tokens at most once.
  pub grants-le :
      (code : Bytes) (c : AuthorizationCodeClaims) (xs : List Step) (s : CodeStore)
      (codes : GoMap (Kept Bytes))
      → unseal code ≡ opened c
      → All (IsApart c.jti) xs
      → s.codes ≡ some codes
      → grants code xs s ≤ 1
  unfolding grants
  grants-le code c [] s codes u a h = omega arith
  grants-le code c (x ∷ xs) s codes u (a, rest) h = elim (step-gives code c x s codes u h) [
    | inl (n, (next, k)) ↦ omega (arith, n, grants-le code c xs (step x s) next u rest k)
    | inr (y, spent) ↦ omega (arith, y, grants-Spent code c xs (step x s) u rest spent)
  ]
