-- ===== src/Examples/Mint.antt =====
-- Concrete runs of the mint's claims.
use host_manager.Base.{
  Bytes, text, beq, lookup, insert, delete, ◌≡◌, refl, true, Option, some, List, [], ◌∷◌, contains,
  select,
}
use host_manager.Auth.Mint.{
  Claims, word, words, reserved_mint_claims, mint_decided_claims, merge_backend_claims, replay,
  granted_scopes, apply_scope_filter, Resolved, code_base, code_context, subject_base, set_idp,
  subject_context,
}
use host_manager.Auth.Mint.Token.{
  SignerConfig, copy_claims, copy_all, reassert, delete_claims, mapped, project, confine_by_scope,
  compact_entitlements, scoped_claims,
}
use host_manager.Auth.Mint.Binding.{resolve_binding_key}
use host_manager.Auth.Mint.Keyed.{IsKey, resolve_binding_key-IsKey}
use host_manager.Auth.Mint.Reserved.{HasOwn, context-HasOwn}
use host_manager.Auth.Mint.Scoped.{IsConfined, scoped_claims-IsConfined}

program : Unit {0}
unfolding lookup insert delete beq select reserved_mint_claims merge_backend_claims replay
    granted_scopes apply_scope_filter code_context subject_context copy_claims copy_all reassert
    delete_claims mapped project confine_by_scope compact_entitlements scoped_claims
program = tt

-- A backend that claims to be another subject and to have a wider scope, next to a grant of its own.
abbrev backend : Claims
backend =
    (text "sub", word (text "root"))
    ∷ (text "scope", word (text "everything"))
    ∷ (text "plan", word (text "gold"))
    ∷ []

abbrev resolved : Resolved
resolved = record { roles = text "reader" ∷ []; entitlements = []; backend = backend }

abbrev idp : Claims
idp = (text "roles", words (text "staff" ∷ [])) ∷ (text "auth_method", word (text "local")) ∷ []

abbrev requested : List Bytes
requested = text "openid" ∷ text "roles" ∷ text "admin" ∷ []

context-HasOwn_example :
    HasOwn (code_base (text "ann") (text "oidc") (text "User") resolved) requested [] (
      apply_scope_filter
        (code_context (text "ann") (text "oidc") (text "User") resolved)
        requested
        [])
    × HasOwn
        (set_idp (text "oidc") (subject_base (text "ann") (text "oidc") (text "User")))
        requested
        []
        (apply_scope_filter
          (subject_context (text "ann") (text "oidc") (text "User") idp resolved)
          requested
          [])
context-HasOwn_example =
    context-HasOwn (text "ann") (text "oidc") (text "User") idp resolved requested []

abbrev context : Claims
context =
    (apply_scope_filter (subject_context (text "ann") (text "oidc") (text "User") idp resolved)
      requested []).0

subject_kept : lookup (text "sub") context ≡ some (word (text "ann"))
unfolding program
subject_kept = refl

roles_merged : lookup (text "roles") context ≡ some (words (text "staff" ∷ text "reader" ∷ []))
unfolding program
roles_merged = refl

scope_narrowed : lookup (text "scope") context ≡ some (word (text "openid roles"))
unfolding program
scope_narrowed = refl

-- A mapper that writes an e-mail address and another method.
abbrev mapper : Claims → Option Claims
mapper ctx =
    some ((text "email", word (text "a@b")) ∷ (text "auth_method", word (text "local")) ∷ [])

abbrev signer : SignerConfig
signer = record { issuer = text "host"; audience = text "host" }

abbrev signed : Claims
signed =
    (text "sub", word (text "ann"))
    ∷ (text "iss", word (text "host"))
    ∷ (text "aud", words (text "host" ∷ []))
    ∷ (text "auth_method", word (text "oidc"))
    ∷ (text "knd", word (text "User"))
    ∷ (text "idp", word (text "oidc"))
    ∷ (text "roles", words (text "staff" ∷ text "reader" ∷ []))
    ∷ (text "scope", word (text "openid roles"))
    ∷ []

scoped_claims-IsConfined_example :
    ((k : Bytes) → contains mint_decided_claims k ≡ true → lookup k signed ≡ lookup k context)
    × IsConfined (text "openid" ∷ text "roles" ∷ []) signed
unfolding program
scoped_claims-IsConfined_example =
    scoped_claims-IsConfined (some mapper) (λ es. es) signer context signed
      (text "openid" ∷ text "roles" ∷ []) refl

resolve_binding_key-IsKey_example :
    IsKey
      (λ v. beq v (text "true"))
      ((text "email", word (text "a@b")) ∷ (text "email_verified", word (text "true")) ∷ [])
      (text "ann")
      (text "email")
      true
      (resolve_binding_key
        (λ v. beq v (text "true"))
        ((text "email", word (text "a@b")) ∷ (text "email_verified", word (text "true")) ∷ [])
        (text "ann")
        (text "email")
        true)
resolve_binding_key-IsKey_example =
    resolve_binding_key-IsKey (λ v. beq v (text "true"))
      ((text "email", word (text "a@b")) ∷ (text "email_verified", word (text "true")) ∷ [])
      (text "ann") (text "email") true

address_used :
    resolve_binding_key
      (λ v. beq v (text "true"))
      ((text "email", word (text "a@b")) ∷ (text "email_verified", word (text "true")) ∷ [])
      (text "ann")
      (text "email")
      true
    ≡ text "a@b"
unfolding resolve_binding_key beq lookup
address_used = refl

-- Without the claim email_verified an address is not verified.
subject_used :
    resolve_binding_key
      (λ v. beq v (text "true"))
      ((text "email", word (text "a@b")) ∷ [])
      (text "ann")
      (text "email")
      true
    ≡ text "ann"
unfolding resolve_binding_key beq lookup
subject_used = refl
