-- ===== src/Auth/Mint/Scoped.antt =====
-- A token that SignScoped of internal/sign/sign.go signs, whatever a host's claim mappings do.
use host_manager.Base.{
  Bytes, text, beq, beq_iff, lookup, lookup-insert, ◌≡◌, refl, sym, ◌∙◌, true, false, Option, none,
  some, List, [], ◌∷◌, inl, inr, Bool-cases, some_inj, contains, arith,
}
use host_manager.Auth.Mint.{Claim, Claims, claim_subject_kind, mint_decided_claims}
use host_manager.Auth.Mint.Token.{
  projected_claims, profile_claims, subject_of, copy_claims, copy_all, unless_granted, SignerConfig,
  own_claims, compacted, with_extra, mapped, compact_all, project_subject, project,
  confine_by_scope, scoped_claims,
}
use host_manager.Auth.Mint.Confined.{
  copy-kept, copy-set, reassert-set, unless-ne, unless-none, unless-gone,
}

-- A claim that neither the scopes nor the compaction touch, and that the projection copies.
abbrev IsCarriedOver : Bytes → Type 0
IsCarriedOver k =
    (contains mint_decided_claims k ≡ true)
    × (contains projected_claims k ≡ true)
    × (contains profile_claims k ≡ false)
    × (contains (text "email" ∷ text "email_verified" ∷ []) k ≡ false)
    × (contains (text "entitlements" ∷ []) k ≡ false)
    × (contains (text "roles" ∷ []) k ≡ false)
    × (contains (text "sub" ∷ text "iss" ∷ text "aud" ∷ []) k ≡ false)

auth_method-IsCarriedOver : IsCarriedOver (text "auth_method")
unfolding beq
auth_method-IsCarriedOver = (refl, refl, refl, refl, refl, refl, refl)

kind-IsCarriedOver : IsCarriedOver claim_subject_kind
unfolding beq
kind-IsCarriedOver = (refl, refl, refl, refl, refl, refl, refl)

decided-IsCarriedOver : (k : Bytes) → contains mint_decided_claims k ≡ true → IsCarriedOver k
decided-IsCarriedOver k h = elim (Bool-cases (beq (text "auth_method") k)) [
  | inl y ↦ rw (sym ((beq_iff (text "auth_method") k).0 y)) auth_method-IsCarriedOver
  | inr n ↦
      let y : beq claim_subject_kind k ≡ true = ground (arith, h, n) in
      rw (sym ((beq_iff claim_subject_kind k).0 y)) kind-IsCarriedOver
]

none-ne-some {ℓ} : {A : Type ℓ} (a : Claims) → none ≡ some a → A
none-ne-some a h = absurd (ground (arith, h))

with_extra-decided :
    (mapper : Option (Claims → Option Claims)) (compact : List Bytes → List Bytes)
    (g : SignerConfig) (k : Bytes) (ctx m q : Claims) (o : Option Claims)
    → contains mint_decided_claims k ≡ true
    → with_extra mapper compact g ctx m o ≡ some q
    → lookup k q ≡ lookup k ctx
with_extra-decided mapper compact g k ctx m q none d e = none-ne-some q e
with_extra-decided mapper compact g k ctx m q (some extra) d e =
    rw (sym (some_inj _ q e)) (reassert-set k mint_decided_claims ctx (copy_all m extra) d)

mapped-decided :
    (mapper : Option (Claims → Option Claims)) (compact : List Bytes → List Bytes)
    (g : SignerConfig) (k : Bytes) (ctx m q : Claims) (sub : Bytes)
    → contains mint_decided_claims k ≡ true
    → lookup k m ≡ lookup k ctx
    → mapped mapper compact g ctx sub m ≡ some q
    → lookup k q ≡ lookup k ctx
unfolding mapped
mapped-decided none compact g k ctx m q sub d h e = rw (sym (some_inj m q e)) h
mapped-decided (some run) compact g k ctx m q sub d h e =
    with_extra-decided (some run) compact g k ctx m q _ d e

module _ (mapper : Option (Claims → Option Claims)) (compact : List Bytes → List Bytes)
    (g : SignerConfig) where
  own-free :
      (sub k : Bytes)
      → contains (text "sub" ∷ text "iss" ∷ text "aud" ∷ []) k ≡ false
      → lookup k (own_claims mapper compact g sub) ≡ none
  unfolding lookup
  own-free sub k h =
      let a : beq (text "sub") k ≡ false = ground (arith, h) in
      let b : beq (text "iss") k ≡ false = ground (arith, h) in
      let c : beq (text "aud") k ≡ false = ground (arith, h) in rw (a, b, c) refl

  compacted-decided :
      (k : Bytes) (o : Option Claim) (m : Claims)
      → contains (text "entitlements" ∷ []) k ≡ false
      → lookup k (compacted mapper compact g o m) ≡ lookup k m
  compacted-decided k none m n = refl
  compacted-decided k (some v) m n =
      let a : beq (text "entitlements") k ≡ false = ground (arith, n) in
      rw (lookup-insert (text "entitlements") k _ m, a) refl

  compact_all-decided :
      (k : Bytes) (ctx p : Claims) (o : Option Claims)
      → contains (text "entitlements" ∷ []) k ≡ false
      → ((q : Claims) → o ≡ some q → lookup k q ≡ lookup k ctx)
      → compact_all mapper compact g o ≡ some p
      → lookup k p ≡ lookup k ctx
  compact_all-decided k ctx p none n h e = none-ne-some p e
  compact_all-decided k ctx p (some q) n h e =
      rw (sym (some_inj _ p e))
        (compacted-decided k (lookup (text "entitlements") q) q n ∙ h q refl)

  project_subject-decided :
      (k : Bytes) (ctx p : Claims) (o : Option Bytes)
      → IsCarriedOver k
      → project_subject mapper compact g ctx o ≡ some p
      → lookup k p ≡ lookup k ctx
  project_subject-decided k ctx p none f e = none-ne-some p e
  project_subject-decided k ctx p (some sub) (d, j, t, _, n, _, o) e =
      elim (Bool-cases (beq sub [])) [
        | inl y ↦ none-ne-some p (rw (y) at e)
        | inr y ↦
            let own = own_claims mapper compact g sub in
            let first = copy_claims projected_claims ctx own in
            let copied =
              copy-kept k profile_claims ctx first
                (copy-set k projected_claims ctx own j (own-free sub k o)) in
            compact_all-decided k ctx p
              (mapped mapper compact g ctx sub (copy_claims profile_claims ctx first)) n
              (λ q s.
                mapped-decided mapper compact g k ctx (copy_claims profile_claims ctx first) q sub d
                  copied s)
              (rw (y) at e)
      ]

  -- The projection, and what the scopes leave of it.
  scoped-project :
      (ctx m : Claims) (granted : List Bytes) (o : Option Claims)
      → project mapper compact g ctx ≡ o
      → scoped_claims mapper compact g ctx granted ≡ some m
      → (p : Claims) × (project mapper compact g ctx ≡ some p) × (m ≡ confine_by_scope granted p)
  unfolding scoped_claims
  scoped-project ctx m granted none e h = none-ne-some m (rw (scoped_claims, e) at h)
  scoped-project ctx m granted (some p) e h =
      (p, e, sym (some_inj _ m (rw (scoped_claims, e) at h)))

  scoped-decided :
      (k : Bytes) (ctx p : Claims) (granted : List Bytes)
      → IsCarriedOver k
      → project mapper compact g ctx ≡ some p
      → lookup k (confine_by_scope granted p) ≡ lookup k ctx
  unfolding confine_by_scope project
  scoped-decided k ctx p granted f e =
      let (_, _, t, u, n, r, _) = f in
      let one =
        unless_granted granted (text "email") (text "email" ∷ text "email_verified" ∷ []) p in
      let two = unless_granted granted (text "profile") profile_claims one in
      let three = unless_granted granted (text "entitlements") (text "entitlements" ∷ []) two in
      unless-ne k (text "roles") granted (text "roles" ∷ []) three r
      ∙ unless-ne k (text "entitlements") granted (text "entitlements" ∷ []) two n
      ∙ unless-ne k (text "profile") granted profile_claims one t
      ∙ unless-ne k (text "email") granted (text "email" ∷ text "email_verified" ∷ []) p u
      ∙ project_subject-decided k ctx p (subject_of (lookup (text "sub") ctx)) f e

-- The claims of the scopes that are not granted are absent.
abbrev pub IsConfined : List Bytes → Claims → Type 0
IsConfined granted m =
    (contains granted (text "email") ≡ false
      → (k : Bytes) → contains (text "email" ∷ text "email_verified" ∷ []) k ≡ true
      → lookup k m ≡ none)
    × (contains granted (text "profile") ≡ false
        → (k : Bytes) → contains profile_claims k ≡ true
        → lookup k m ≡ none)
    × (contains granted (text "entitlements") ≡ false → lookup (text "entitlements") m ≡ none)
    × (contains granted (text "roles") ≡ false → lookup (text "roles") m ≡ none)

confine-IsConfined :
    (granted : List Bytes) (p : Claims) → IsConfined granted (confine_by_scope granted p)
unfolding confine_by_scope beq
confine-IsConfined granted p =
    let one = unless_granted granted (text "email") (text "email" ∷ text "email_verified" ∷ []) p in
    let two = unless_granted granted (text "profile") profile_claims one in
    let three = unless_granted granted (text "entitlements") (text "entitlements" ∷ []) two in
    let last = λ (k : Bytes) (h : lookup k two ≡ none).
      unless-none k (text "roles") granted (text "roles" ∷ []) three
        (unless-none k (text "entitlements") granted (text "entitlements" ∷ []) two h) in
    (
      λ n k c. last k (
          unless-none k (text "profile") granted profile_claims one (
            unless-gone k (text "email") granted (text "email" ∷ text "email_verified" ∷ []) p n
              c)),
      λ n k c. last k (unless-gone k (text "profile") granted profile_claims one n c),
      λ n. unless-none (text "entitlements") (text "roles") granted (text "roles" ∷ []) three (
          unless-gone (text "entitlements") (text "entitlements") granted (text "entitlements" ∷ [])
            two n refl),
      λ n. unless-gone (text "roles") (text "roles") granted (text "roles" ∷ []) three n refl,
    )

-- Whatever a host's claim mappings add: the claims that SignScoped signs have the method of authentication and
-- the subject's kind of the signing context, or not at all where it has none, and no claim of the email,
-- profile, entitlements or roles scope that is not granted.
pub scoped_claims-IsConfined :
    (mapper : Option (Claims → Option Claims)) (compact : List Bytes → List Bytes)
    (g : SignerConfig) (ctx m : Claims) (granted : List Bytes)
    → scoped_claims mapper compact g ctx granted ≡ some m
    → ((k : Bytes) → contains mint_decided_claims k ≡ true → lookup k m ≡ lookup k ctx)
      × IsConfined granted m
scoped_claims-IsConfined mapper compact g ctx m granted h =
    let (p, e, q) =
      scoped-project mapper compact g ctx m granted (project mapper compact g ctx) refl h in
    rw (q) (
      λ k d. scoped-decided mapper compact g k ctx p granted (decided-IsCarriedOver k d) e,
      confine-IsConfined granted p,
    )
