-- ===== src/Auth/Mint/Confined.antt =====
-- What a host's claim mappings cannot change of a token that SignScoped of internal/sign/sign.go signs.
use host_manager.Base.{
  Bytes, beq, beq_iff, lookup, delete, lookup-insert, lookup-insert_self, lookup-insert_ne,
  lookup-delete, lookup-delete_self, lookup-delete_keeps, ◌≡◌, ◌≢◌, refl, ◌∙◌, true, false, Option,
  none, some, List, [], ◌∷◌, inl, inr, Bool-cases, contains, arith,
}
use host_manager.Auth.Mint.{Claim, Claims}
use host_manager.Auth.Mint.Token.{
  set_held, copy_claims, set_or_delete, reassert, delete_claims, unless_granted,
}

lookup-set_held :
    (k : Bytes) (o : Option Claim) (m : Claims) → lookup k m ≡ none → lookup k (set_held k o m) ≡ o
lookup-set_held k none m h = h
lookup-set_held k (some v) m h = lookup-insert_self k v m

set_held-ne :
    (j k : Bytes) (o : Option Claim) (m : Claims) → j ≢ k → lookup k (set_held j o m) ≡ lookup k m
set_held-ne j k none m n = refl
set_held-ne j k (some v) m n = lookup-insert_ne j k v m n

set_held-kept :
    (k : Bytes) (o : Option Claim) (m : Claims) → lookup k m ≡ o → lookup k (set_held k o m) ≡ o
set_held-kept k none m h = h
set_held-kept k (some v) m h = lookup-insert_self k v m

-- A claim that is as the context has it stays so.
pub copy-kept :
    (k : Bytes) (ks : List Bytes) (ctx m : Claims)
    → lookup k m ≡ lookup k ctx
    → lookup k (copy_claims ks ctx m) ≡ lookup k ctx
unfolding copy_claims
copy-kept k [] ctx m h = h
copy-kept k (j ∷ ks) ctx m h =
    copy-kept k ks ctx (set_held j (lookup j ctx) m) (elim (Bool-cases (beq j k)) [
      | inl y ↦ rw ((beq_iff j k).0 y) (set_held-kept k (lookup k ctx) m h)
      | inr n ↦ set_held-ne j k (lookup j ctx) m (λ e. ground (arith, beq_iff j k, n, e)) ∙ h
    ])

-- A listed claim becomes what the context has.
pub copy-set :
    (k : Bytes) (ks : List Bytes) (ctx m : Claims)
    → contains ks k ≡ true
    → lookup k m ≡ none
    → lookup k (copy_claims ks ctx m) ≡ lookup k ctx
unfolding copy_claims
copy-set k [] ctx m c h = absurd (ground (arith, c))
copy-set k (j ∷ ks) ctx m c h = elim (Bool-cases (beq j k)) [
  | inl y ↦
      copy-kept k ks ctx (set_held j (lookup j ctx) m)
        (rw ((beq_iff j k).0 y) (lookup-set_held k (lookup k ctx) m h))
  | inr n ↦
      copy-set k ks ctx (set_held j (lookup j ctx) m) (ground (arith, c, n))
        (set_held-ne j k (lookup j ctx) m (λ e. ground (arith, beq_iff j k, n, e)) ∙ h)
]

lookup-set_or_delete :
    (k : Bytes) (o : Option Claim) (m : Claims) → lookup k (set_or_delete k o m) ≡ o
lookup-set_or_delete k none m = lookup-delete_self k m
lookup-set_or_delete k (some v) m = lookup-insert_self k v m

set_or_delete-ne :
    (j k : Bytes) (o : Option Claim) (m : Claims)
    → beq j k ≡ false
    → lookup k (set_or_delete j o m) ≡ lookup k m
set_or_delete-ne j k none m n = rw (lookup-delete j k m, n) refl
set_or_delete-ne j k (some v) m n = rw (lookup-insert j k v m, n) refl

reassert-kept :
    (k : Bytes) (ks : List Bytes) (ctx m : Claims)
    → lookup k m ≡ lookup k ctx
    → lookup k (reassert ks ctx m) ≡ lookup k ctx
unfolding reassert
reassert-kept k [] ctx m h = h
reassert-kept k (j ∷ ks) ctx m h =
    reassert-kept k ks ctx (set_or_delete j (lookup j ctx) m) (elim (Bool-cases (beq j k)) [
      | inl y ↦ rw ((beq_iff j k).0 y) (lookup-set_or_delete k (lookup k ctx) m)
      | inr n ↦ set_or_delete-ne j k (lookup j ctx) m n ∙ h
    ])

pub reassert-set :
    (k : Bytes) (ks : List Bytes) (ctx m : Claims)
    → contains ks k ≡ true
    → lookup k (reassert ks ctx m) ≡ lookup k ctx
unfolding reassert
reassert-set k [] ctx m c = absurd (ground (arith, c))
reassert-set k (j ∷ ks) ctx m c = elim (Bool-cases (beq j k)) [
  | inl y ↦
      reassert-kept k ks ctx (set_or_delete j (lookup j ctx) m)
        (rw ((beq_iff j k).0 y) (lookup-set_or_delete k (lookup k ctx) m))
  | inr n ↦ reassert-set k ks ctx (set_or_delete j (lookup j ctx) m) (ground (arith, c, n))
]

delete_claims-none :
    (k : Bytes) (ks : List Bytes) (m : Claims)
    → lookup k m ≡ none
    → lookup k (delete_claims ks m) ≡ none
unfolding delete_claims
delete_claims-none k [] m h = h
delete_claims-none k (j ∷ ks) m h =
    delete_claims-none k ks (delete j m) (lookup-delete_keeps j k m h)

delete_claims-gone :
    (k : Bytes) (ks : List Bytes) (m : Claims)
    → contains ks k ≡ true
    → lookup k (delete_claims ks m) ≡ none
unfolding delete_claims
delete_claims-gone k [] m c = absurd (ground (arith, c))
delete_claims-gone k (j ∷ ks) m c = elim (Bool-cases (beq j k)) [
  | inl y ↦ delete_claims-none k ks (delete j m) (rw (lookup-delete j k m, y) refl)
  | inr n ↦ delete_claims-gone k ks (delete j m) (ground (arith, c, n))
]

delete_claims-ne :
    (k : Bytes) (ks : List Bytes) (m : Claims)
    → contains ks k ≡ false
    → lookup k (delete_claims ks m) ≡ lookup k m
unfolding delete_claims
delete_claims-ne k [] m c = refl
delete_claims-ne k (j ∷ ks) m c =
    let n : beq j k ≡ false = ground (arith, c) in
    delete_claims-ne k ks (delete j m) (ground (arith, c)) ∙ rw (lookup-delete j k m, n) refl

pub unless-ne :
    (k scope : Bytes) (granted ks : List Bytes) (m : Claims)
    → contains ks k ≡ false
    → lookup k (unless_granted granted scope ks m) ≡ lookup k m
unless-ne k scope granted ks m c = elim (Bool-cases (contains granted scope)) [
  | inl y ↦ rw (y) refl
  | inr n ↦ rw (n) (delete_claims-ne k ks m c)
]

pub unless-none :
    (k scope : Bytes) (granted ks : List Bytes) (m : Claims)
    → lookup k m ≡ none
    → lookup k (unless_granted granted scope ks m) ≡ none
unless-none k scope granted ks m h = elim (Bool-cases (contains granted scope)) [
  | inl y ↦ rw (y) h
  | inr n ↦ rw (n) (delete_claims-none k ks m h)
]

pub unless-gone :
    (k scope : Bytes) (granted ks : List Bytes) (m : Claims)
    → contains granted scope ≡ false
    → contains ks k ≡ true
    → lookup k (unless_granted granted scope ks m) ≡ none
unless-gone k scope granted ks m n c = rw (n) (delete_claims-gone k ks m c)
