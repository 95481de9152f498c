-- ===== src/Auth/Mint.antt =====
-- internal/auth/exchange.go and internal/sign/sign.go: the claims of a minted token, from the subject's grants, the claims
-- of the identity provider and those of the credential backend, to what is signed. The mapper of a host's claim mappings,
-- entitlements.Compact, strings.Fields and the signature are parameters.
pub mod Binding
pub mod Keyed
pub mod Token
pub mod Reserved
pub mod Confined
pub mod Scoped
use host_manager.Base.{
  Bytes, text, beq, GoMap, lookup, insert, delete, Bool, true, false, not, ◌&&◌, Option, none, some,
  List, [], ◌∷◌, ◌++◌, if◌then◌else◌, contains, select,
}

-- A claim's value: a string, a list of strings, a list read from JSON (none for an item that is no string), a Boolean, or
-- any other value by its text.
pub data Claim : Type 0 where
  word : Bytes → Claim
  words : List Bytes → Claim
  items : List (Option Bytes) → Claim
  flag : Bool → Claim
  other : Bytes → Claim

abbrev pub Claims : Type 0
Claims = GoMap Claim

-- sign.ClaimSubjectKind
abbrev pub claim_subject_kind : Bytes
claim_subject_kind = text "knd"

-- mintDecidedClaims
abbrev pub mint_decided_claims : List Bytes
mint_decided_claims = text "auth_method" ∷ claim_subject_kind ∷ []

-- reservedMintClaims
unfoldable pub reserved_mint_claims : List Bytes
reserved_mint_claims =
    text "scope"
    ∷ text "scp"
    ∷ text "sub"
    ∷ text "grant_type"
    ∷ text "idp"
    ∷ text "iat"
    ∷ text "exp"
    ∷ text "jti"
    ∷ text "iss"
    ∷ text "aud"
    ∷ text "nbf"
    ∷ text "act"
    ∷ mint_decided_claims

abbrev pub is_reserved : Bytes → Bool
is_reserved k = contains reserved_mint_claims k

abbrev pub is_held : Option Claim → Bool
is_held none = false
is_held (some v) = true

-- mergeBackendClaims
unfoldable pub merge_backend_claims : Claims → Claims → Claims
unfolding lookup insert
merge_backend_claims ctx [] = ctx
merge_backend_claims ctx ((k, v) ∷ backend) =
    merge_backend_claims
      (if is_reserved k then ctx else if is_held (lookup k ctx) then ctx else insert k v ctx)
      backend

-- The replay of the provider's claims in mintTokensFromSubject
unfoldable pub replay : Claims → Claims → Claims
unfolding insert
replay ctx [] = ctx
replay ctx ((k, v) ∷ idp) = replay (if is_reserved k then ctx else insert k v ctx) idp

-- idpClaimSnapshot
unfoldable pub idp_claim_snapshot : Claims → Claims
idp_claim_snapshot [] = []
idp_claim_snapshot ((k, v) ∷ ctx) =
    let rest = idp_claim_snapshot ctx in if is_reserved k then rest else (k, v) ∷ rest

-- The strings of a list read from JSON
abbrev pub strings : List (Option Bytes) → List Bytes
strings [] = []
strings (none ∷ xs) = strings xs
strings (some s ∷ xs) = s ∷ strings xs

-- mergeIDPList
abbrev pub merge_idp_list : Option Claim → List Bytes → Claim
merge_idp_list (some (words vs)) internal = words (vs ++ internal)
merge_idp_list (some (items vs)) internal = words (strings vs ++ internal)
merge_idp_list (some (word v)) internal = words (v ∷ internal)
merge_idp_list _ internal = words internal

-- SupportedScopes
abbrev pub supported_scopes : List Bytes
supported_scopes =
    text "openid" ∷ text "email" ∷ text "profile" ∷ text "entitlements" ∷ text "roles" ∷ []

-- strings.Join with a space
abbrev pub join_words : List Bytes → Bytes
join_words [] = []
join_words (w ∷ []) = w
join_words (w ∷ v ∷ ws) = w ++ b' ' ∷ join_words (v ∷ ws)

abbrev pub or_default : List Bytes → List Bytes → List Bytes
or_default [] defaults = defaults
or_default (s ∷ ss) defaults = s ∷ ss

unfoldable pub granted_scopes : List Bytes → List Bytes → List Bytes
unfolding select
granted_scopes requested defaults =
    select (contains (or_default requested defaults)) supported_scopes

abbrev pub set_scope : List Bytes → Claims → Claims
set_scope [] ctx = delete (text "scope") ctx
set_scope (s ∷ ss) ctx = insert (text "scope") (word (join_words (s ∷ ss))) ctx

-- applyScopeFilter, with the context that it leaves
unfoldable pub apply_scope_filter : Claims → List Bytes → List Bytes → Claims × List Bytes
unfolding granted_scopes lookup insert delete
apply_scope_filter ctx requested defaults =
    (set_scope (granted_scopes requested defaults) ctx, granted_scopes requested defaults)

-- What a mint resolves of a subject
pub record Resolved : Type 0 where
  pub roles : List Bytes
  pub entitlements : List Bytes
  pub backend : Claims

-- The claims that the mint of a code sets itself
abbrev pub code_base : Bytes → Bytes → Bytes → Resolved → Claims
code_base sub auth_method kind r =
    (text "sub", word sub)
    ∷ (text "auth_method", word auth_method)
    ∷ (text "roles", words r.roles)
    ∷ (text "entitlements", words r.entitlements)
    ∷ (claim_subject_kind, word kind)
    ∷ []

-- The signing context of mintTokensFromCode, before the scope filter
unfoldable pub code_context : Bytes → Bytes → Bytes → Resolved → Claims
unfolding merge_backend_claims
code_context sub auth_method kind r =
    merge_backend_claims (code_base sub auth_method kind r) r.backend

-- The claims that the mint of a refresh sets itself
abbrev pub subject_base : Bytes → Bytes → Bytes → Claims
subject_base sub auth_method kind =
    (text "auth_method", word auth_method)
    ∷ (text "sub", word sub)
    ∷ (claim_subject_kind, word kind)
    ∷ []

abbrev pub set_idp : Bytes → Claims → Claims
set_idp auth_method ctx =
    if beq auth_method (text "oidc") then insert (text "idp") (word (text "oidc")) ctx else ctx

abbrev pub set_list : Bytes → List Bytes → Claims → Claims
set_list claim internal ctx = insert claim (merge_idp_list (lookup claim ctx) internal) ctx

-- The signing context of mintTokensFromSubject, before the scope filter
unfoldable pub subject_context : Bytes → Bytes → Bytes → Claims → Resolved → Claims
unfolding merge_backend_claims replay lookup insert
subject_context sub auth_method kind idp r =
    merge_backend_claims
      (set_list (text "entitlements") r.entitlements (
        set_list (text "roles") r.roles
          (set_idp auth_method (replay (subject_base sub auth_method kind) idp))))
      r.backend
