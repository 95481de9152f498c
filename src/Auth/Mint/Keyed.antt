-- ===== src/Auth/Mint/Keyed.antt =====
-- The key that internal/auth/binding_key.go chooses.
use host_manager.Base.{
  Bytes, text, beq, beq_iff, lookup, ◌≡◌, ◌≢◌, refl, ◌⊎◌, Bool, true, false, not, ◌&&◌, ◌||◌,
  Option, none, some, [], inl, inr, Bool-cases, Option-cases, arith,
}
use host_manager.Auth.Mint.{Claim, Claims, word, words, items, flag, other}
use host_manager.Auth.Mint.Binding.{usable, email_verified_truthy, resolve_binding_key, is_truthy}

usable-word : (o : Option Claim) (v : Bytes) → usable o ≡ some v → (o ≡ some (word v)) × (v ≢ [])
usable-word none v h = absurd (ground (arith, h))
usable-word (some (words vs)) v h = absurd (ground (arith, h))
usable-word (some (items vs)) v h = absurd (ground (arith, h))
usable-word (some (flag b)) v h = absurd (ground (arith, h))
usable-word (some (other t)) v h = absurd (ground (arith, h))
usable-word (some (word w)) v h = elim (Bool-cases (beq w [])) [
  | inl y ↦ absurd (ground (arith, rw (y) at h))
  | inr n ↦
      let same : some w ≡ some v = rw (n) at h in
      (ground (arith, same), ground (arith, same, n, beq_iff w []))
]

word-usable : (v : Bytes) → v ≢ [] → usable (some (word v)) ≡ some v
word-usable v n = ground (arith, n, beq_iff v [])

same_text : (v w : Bytes) → some v ≡ some w → v ≡ w
same_text v w h = cc

module _ (equal_fold_true : Bytes → Bool) where
  -- What says that an address is verified: the claim true, or a string that is "true" in any case.
  abbrev pub IsVerified : Option Claim → Type 0
  IsVerified o =
      (o ≡ some (flag true)) ⊎ ((v : Bytes) × (o ≡ some (word v)) × (equal_fold_true v ≡ true))

  -- The configured claim has the string as a key.
  abbrev pub IsUsable : Claims → Bytes → Bool → Bytes → Type 0
  IsUsable claims claim required v =
      (claim ≢ [])
      × (claim ≢ text "sub")
      × (lookup claim claims ≡ some (word v))
      × (v ≢ [])
      × ((claim ≢ text "email")
          ⊎ (required ≡ false)
          ⊎ IsVerified (lookup (text "email_verified") claims))

  -- Where a key comes from: the configured claim if it has one, and else the subject.
  abbrev pub IsKey : Claims → Bytes → Bytes → Bool → Bytes → Type 0
  IsKey claims sub claim required key =
      IsUsable claims claim required key
      ⊎ ((key ≡ sub) × ((v : Bytes) → IsUsable claims claim required v → ⊥))

  truthy-IsVerified : (o : Option Claim) → is_truthy equal_fold_true o ≡ true → IsVerified o
  truthy-IsVerified none h = absurd (ground (arith, h))
  truthy-IsVerified (some (words vs)) h = absurd (ground (arith, h))
  truthy-IsVerified (some (items vs)) h = absurd (ground (arith, h))
  truthy-IsVerified (some (other t)) h = absurd (ground (arith, h))
  truthy-IsVerified (some (flag b)) h = inl (rw (h) refl)
  truthy-IsVerified (some (word v)) h = inr (v, refl, h)

  IsVerified-truthy : (o : Option Claim) → IsVerified o → is_truthy equal_fold_true o ≡ true
  IsVerified-truthy o (inl h) = rw (h) refl
  IsVerified-truthy o (inr (v, h, y)) = rw (h) y

  -- Whether verification, where it is required, stands in the way
  abbrev blocked : Claims → Bytes → Bool → Bool
  blocked claims claim required =
      beq claim (text "email")
      && required
      && not (is_truthy equal_fold_true (lookup (text "email_verified") claims))

  open_way :
      (claims : Claims) (claim : Bytes) (required : Bool)
      → blocked claims claim required ≡ false
      → (claim ≢ text "email")
        ⊎ (required ≡ false)
        ⊎ IsVerified (lookup (text "email_verified") claims)
  open_way claims claim required h = elim (Bool-cases (beq claim (text "email"))) [
    | inr n ↦ inl (λ e. ground (arith, n, (beq_iff claim (text "email")).1 e))
    | inl y ↦ elim (Bool-cases required) [
      | inr n ↦ inr (inl n)
      | inl r ↦ inr (inr (truthy-IsVerified (lookup (text "email_verified") claims) (ground arith)))
    ]
  ]

  blocked_way :
      (claims : Claims) (claim : Bytes) (required : Bool) (v : Bytes)
      → blocked claims claim required ≡ true
      → IsUsable claims claim required v
      → ⊥
  blocked_way claims claim required v h (a, b, c, d, inl n) =
      ground (arith, h, n, beq_iff claim (text "email"))
  blocked_way claims claim required v h (a, b, c, d, inr (inl n)) = ground (arith, h, n)
  blocked_way claims claim required v h (a, b, c, d, inr (inr y)) =
      let verified = IsVerified-truthy (lookup (text "email_verified") claims) y in
      ground (arith, h, verified)

  missing :
      (claims : Claims) (claim : Bytes) (required : Bool) (v : Bytes)
      → usable (lookup claim claims) ≡ none
      → IsUsable claims claim required v
      → ⊥
  missing claims claim required v h (a, b, c, d, _) =
      let absent : usable (some (word v)) ≡ none = rw (c) at h in
      ground (arith, absent, word-usable v d)

  subject_configured :
      (claims : Claims) (claim : Bytes) (required : Bool) (v : Bytes)
      → (beq claim [] || beq claim (text "sub")) ≡ true
      → IsUsable claims claim required v
      → ⊥
  subject_configured claims claim required v h (a, b, _, _, _) =
      ground (arith, h, a, b, beq_iff claim [], beq_iff claim (text "sub"))

  -- The key that role bindings are matched against is the configured claim's string if a claim other than the subject is
  -- configured, the string is there and not empty, and, where the claim is the e-mail address and verification is
  -- required, the claims say that it is verified: by the value true or a string equal to it in any case. In all other
  -- cases it is the subject.
  pub resolve_binding_key-IsKey :
      (claims : Claims) (sub claim : Bytes) (required : Bool)
      → IsKey claims sub claim required
          (resolve_binding_key equal_fold_true claims sub claim required)
  unfolding resolve_binding_key email_verified_truthy
  resolve_binding_key-IsKey claims sub claim required =
      elim (Bool-cases (beq claim [] || beq claim (text "sub"))) [
        | inl y ↦ inr (
          rw (resolve_binding_key, y) refl,
          λ v u. subject_configured claims claim required v y u,
        )
        | inr n ↦ elim (Option-cases (usable (lookup claim claims))) [
          | inl m ↦
              inr (rw (resolve_binding_key, n, m) refl, λ v u. missing claims claim required v m u)
          | inr (v, k) ↦ elim (Bool-cases (blocked claims claim required)) [
            | inl z ↦ inr (
              rw (resolve_binding_key, email_verified_truthy, n, k, z) refl,
              λ w u. blocked_way claims claim required w z u,
            )
            | inr z ↦
                let (held, some_text) = usable-word (lookup claim claims) v k in
                rw (resolve_binding_key, email_verified_truthy, n, k, z)
                  (inl (
                    (λ e. ground (arith, n, (beq_iff claim []).1 e)),
                    (λ e. ground (arith, n, (beq_iff claim (text "sub")).1 e)),
                    held,
                    some_text,
                    open_way claims claim required z,
                  ))
          ]
        ]
      ]
