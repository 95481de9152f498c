-- ===== src/Auth/Mint/Reserved.antt =====
-- The reserved claims of a signing context of internal/auth/exchange.go, and its scope.
use host_manager.Base.{
  Bytes, text, beq, beq_iff, lookup, insert, lookup-insert, lookup-insert_self, lookup-insert_ne,
  lookup-delete_self, lookup-delete, ◌≡◌, ◌≢◌, refl, sym, ◌∙◌, Bool, true, false, ◌&&◌, Option,
  none, some, List, [], ◌∷◌, inl, inr, Bool-cases, contains, select, arith,
}
use host_manager.Auth.Mint.{
  Claim, Claims, word, reserved_mint_claims, is_reserved, is_held, merge_backend_claims, replay,
  supported_scopes, join_words, or_default, granted_scopes, set_scope, apply_scope_filter, Resolved,
  code_base, code_context, subject_base, set_idp, set_list, subject_context,
}

apart : (k j : Bytes) → is_reserved k ≡ true → is_reserved j ≡ false → j ≢ k
apart k j h n e = ground (arith, rw (e) at n, h)

roles_free : is_reserved (text "roles") ≡ false
unfolding reserved_mint_claims beq
roles_free = refl

entitlements_free : is_reserved (text "entitlements") ≡ false
unfolding reserved_mint_claims beq
entitlements_free = refl

merge-reserved :
    (k : Bytes) (ctx backend : Claims)
    → is_reserved k ≡ true
    → lookup k (merge_backend_claims ctx backend) ≡ lookup k ctx
unfolding merge_backend_claims
merge-reserved k ctx [] h = refl
merge-reserved k ctx ((j, v) ∷ backend) h = elim (Bool-cases (is_reserved j)) [
  | inl y ↦ rw (y) (merge-reserved k ctx backend h)
  | inr y ↦ elim (Bool-cases (is_held (lookup j ctx))) [
    | inl z ↦ rw (y, z) (merge-reserved k ctx backend h)
    | inr z ↦
        rw (y, z)
          (merge-reserved k (insert j v ctx) backend h ∙ lookup-insert_ne j k v ctx (apart k j h y))
  ]
]

replay-reserved :
    (k : Bytes) (ctx idp : Claims) → is_reserved k ≡ true → lookup k (replay ctx idp) ≡ lookup k ctx
unfolding replay
replay-reserved k ctx [] h = refl
replay-reserved k ctx ((j, v) ∷ idp) h = elim (Bool-cases (is_reserved j)) [
  | inl y ↦ rw (y) (replay-reserved k ctx idp h)
  | inr y ↦
      rw (y) (replay-reserved k (insert j v ctx) idp h ∙ lookup-insert_ne j k v ctx (apart k j h y))
]

set_list-reserved :
    (k claim : Bytes) (internal : List Bytes) (ctx : Claims)
    → is_reserved k ≡ true
    → is_reserved claim ≡ false
    → lookup k (set_list claim internal ctx) ≡ lookup k ctx
set_list-reserved k claim internal ctx h n = lookup-insert_ne claim k _ ctx (apart k claim h n)

-- The provider of the identity is set by the mint alone.
set_idp-same :
    (k auth_method : Bytes) (m n : Claims)
    → lookup k m ≡ lookup k n
    → lookup k (set_idp auth_method m) ≡ lookup k (set_idp auth_method n)
set_idp-same k auth_method m n h = elim (Bool-cases (beq auth_method (text "oidc"))) [
  | inl y ↦
      rw
        (
          y,
          lookup-insert (text "idp") k (word (text "oidc")) m,
          lookup-insert (text "idp") k (word (text "oidc")) n,
          h,
        )
        refl
  | inr y ↦ rw (y) h
]

set_scope-ne :
    (k : Bytes) (granted : List Bytes) (ctx : Claims)
    → k ≢ text "scope"
    → lookup k (set_scope granted ctx) ≡ lookup k ctx
set_scope-ne k [] ctx n =
    rw (lookup-delete (text "scope") k ctx) (ground (arith, beq_iff (text "scope") k, n))
set_scope-ne k (s ∷ ss) ctx n = lookup-insert_ne (text "scope") k _ ctx (λ e. n (sym e))

-- The scope claim of granted scopes
abbrev pub scope_claim : List Bytes → Option Claim
scope_claim [] = none
scope_claim (s ∷ ss) = some (word (join_words (s ∷ ss)))

set_scope-scope :
    (granted : List Bytes) (ctx : Claims)
    → lookup (text "scope") (set_scope granted ctx) ≡ scope_claim granted
set_scope-scope [] ctx = lookup-delete_self (text "scope") ctx
set_scope-scope (s ∷ ss) ctx = lookup-insert_self (text "scope") _ ctx

contains-select :
    (p : Bytes → Bool) (xs : List Bytes) (s : Bytes)
    → contains (select p xs) s ≡ (contains xs s && p s)
unfolding select
contains-select p [] s = refl
contains-select p (x ∷ xs) s = elim (Bool-cases (beq x s)) [
  | inl e ↦
      let same : x ≡ s = (beq_iff x s).0 e in
      elim (Bool-cases (p x)) [
        | inl y ↦ rw (y, e, sym same, y) refl
        | inr y ↦ rw (y, e) (ground (arith, contains-select p xs s, rw (same) at y))
      ]
  | inr n ↦ elim (Bool-cases (p x)) [
    | inl y ↦ rw (y, n) (contains-select p xs s)
    | inr y ↦ rw (y, n) (contains-select p xs s)
  ]
]

-- What the context of a mint has, of the claims that the mint sets itself and the requested and default scopes.
abbrev pub HasOwn : Claims → List Bytes → List Bytes → Claims × List Bytes → Type 0
HasOwn base requested defaults (ctx, granted) =
    ((k : Bytes) → is_reserved k ≡ true → k ≢ text "scope" → lookup k ctx ≡ lookup k base)
    × (lookup (text "scope") ctx ≡ scope_claim granted)
    × ((s : Bytes)
        → contains granted s
          ≡ (contains supported_scopes s && contains (or_default requested defaults) s))

filter-HasOwn :
    (base ctx : Claims) (requested defaults : List Bytes)
    → ((k : Bytes) → is_reserved k ≡ true → lookup k ctx ≡ lookup k base)
    → HasOwn base requested defaults (apply_scope_filter ctx requested defaults)
unfolding apply_scope_filter granted_scopes
filter-HasOwn base ctx requested defaults h =
    let granted = granted_scopes requested defaults in
    (
      λ k r n. set_scope-ne k granted ctx n ∙ h k r,
      set_scope-scope granted ctx,
      λ s. contains-select (contains (or_default requested defaults)) supported_scopes s,
    )

-- Whatever the credential backend answers and whatever claims of the identity provider are replayed, each
-- reserved claim of the signing context of a code's mint and of a refresh's is what the mint sets itself; the
-- scope is the granted scopes joined, or absent where none is; and these are the supported scopes among the
-- requested ones, or among the defaults where none is requested.
pub context-HasOwn :
    (sub auth_method kind : Bytes) (idp : Claims) (r : Resolved) (requested defaults : List Bytes)
    → HasOwn
        (code_base sub auth_method kind r)
        requested
        defaults
        (apply_scope_filter (code_context sub auth_method kind r) requested defaults)
      × HasOwn
          (set_idp auth_method (subject_base sub auth_method kind))
          requested
          defaults
          (apply_scope_filter (subject_context sub auth_method kind idp r) requested defaults)
unfolding code_context subject_context
context-HasOwn sub auth_method kind idp r requested defaults =
    let base = subject_base sub auth_method kind in
    let replayed = set_idp auth_method (replay base idp) in
    let with_roles = set_list (text "roles") r.roles replayed in
    let listed = set_list (text "entitlements") r.entitlements with_roles in
    (
      filter-HasOwn (code_base sub auth_method kind r) (code_context sub auth_method kind r)
          requested defaults
          (λ k h. merge-reserved k (code_base sub auth_method kind r) r.backend h),
      filter-HasOwn (set_idp auth_method base) (subject_context sub auth_method kind idp r)
          requested defaults
          (λ k h.
            merge-reserved k listed r.backend h
            ∙ set_list-reserved k (text "entitlements") r.entitlements with_roles h
                entitlements_free
            ∙ set_list-reserved k (text "roles") r.roles replayed h roles_free
            ∙ set_idp-same k auth_method (replay base idp) base (replay-reserved k base idp h)),
    )
