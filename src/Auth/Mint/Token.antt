-- ===== src/Auth/Mint/Token.antt =====
-- internal/sign/sign.go: Project and the confinement of a token by its scopes.
use host_manager.Base.{
  Bytes, text, beq, lookup, insert, delete, Option, none, some, List, [], ◌∷◌, ◌++◌, if◌then◌else◌,
  contains, map,
}
use host_manager.Auth.Mint.{Claim, Claims, word, words, items, mint_decided_claims}

-- projectedClaims
abbrev pub projected_claims : List Bytes
projected_claims =
    mint_decided_claims
    ++ (text "email"
        ∷ text "email_verified"
        ∷ text "entitlements"
        ∷ text "idp"
        ∷ text "roles"
        ∷ text "scope"
        ∷ text "scp"
        ∷ text "grant_type"
        ∷ text "act"
        ∷ [])

-- profileClaims
abbrev pub profile_claims : List Bytes
profile_claims =
    text "birthdate"
    ∷ text "family_name"
    ∷ text "gender"
    ∷ text "given_name"
    ∷ text "locale"
    ∷ text "middle_name"
    ∷ text "name"
    ∷ text "nickname"
    ∷ text "picture"
    ∷ text "preferred_username"
    ∷ text "profile"
    ∷ text "updated_at"
    ∷ text "website"
    ∷ text "zoneinfo"
    ∷ []

-- The strings of a list, none where an item is no string
abbrev pub all_strings : List (Option Bytes) → Option (List Bytes)
all_strings [] = some []
all_strings (none ∷ xs) = none
all_strings (some s ∷ xs) = elim (all_strings xs) [ none ↦ none | some ss ↦ some (s ∷ ss) ]

-- What signingContext.GetSubject gives: none for a subject that is no string, and an empty text where there is none.
abbrev pub subject_of : Option Claim → Option Bytes
subject_of none = some []
subject_of (some (word s)) = some s
subject_of (some _) = none

abbrev pub set_held : Bytes → Option Claim → Claims → Claims
set_held k none m = m
set_held k (some v) m = insert k v m

-- The copy of the listed claims that the context has
unfoldable pub copy_claims : List Bytes → Claims → Claims → Claims
unfolding lookup insert
copy_claims [] ctx m = m
copy_claims (k ∷ ks) ctx m = copy_claims ks ctx (set_held k (lookup k ctx) m)

-- maps.Copy
unfoldable pub copy_all : Claims → Claims → Claims
unfolding insert
copy_all m [] = m
copy_all m ((k, v) ∷ extra) = copy_all (insert k v m) extra

abbrev pub set_or_delete : Bytes → Option Claim → Claims → Claims
set_or_delete k none m = delete k m
set_or_delete k (some v) m = insert k v m

-- The claims that the mint decides, again as the context has them
unfoldable pub reassert : List Bytes → Claims → Claims → Claims
unfolding lookup insert delete
reassert [] ctx m = m
reassert (k ∷ ks) ctx m = reassert ks ctx (set_or_delete k (lookup k ctx) m)

unfoldable pub delete_claims : List Bytes → Claims → Claims
unfolding delete
delete_claims [] m = m
delete_claims (k ∷ ks) m = delete_claims ks (delete k m)

-- The claims of a scope that is not granted are deleted.
abbrev pub unless_granted : List Bytes → Bytes → List Bytes → Claims → Claims
unless_granted granted scope claims m = if contains granted scope then m else delete_claims claims m

pub record SignerConfig : Type 0 where
  pub issuer : Bytes
  pub audience : Bytes

-- confineByScope
unfoldable pub confine_by_scope : List Bytes → Claims → Claims
unfolding delete_claims
confine_by_scope granted m = unless_granted granted (text "roles") (text "roles" ∷ []) (
    unless_granted granted (text "entitlements") (text "entitlements" ∷ []) (
      unless_granted granted (text "profile") profile_claims
        (unless_granted granted (text "email") (text "email" ∷ text "email_verified" ∷ []) m)))

-- The mapper, where there is one, and entitlements.Compact
module _ (mapper : Option (Claims → Option Claims)) (compact : List Bytes → List Bytes)
    (g : SignerConfig) where
  -- compactEntitlements
  unfoldable pub compact_entitlements : Claim → Claim
  compact_entitlements (words vs) = words (compact vs)
  compact_entitlements (items vs) = elim (all_strings vs) [
    | none ↦ items vs
    | some ss ↦ items (map (λ s. some s) (compact ss))
  ]
  compact_entitlements v = v

  abbrev pub own_claims : Bytes → Claims
  own_claims sub =
      (text "sub", word sub)
      ∷ (text "iss", word g.issuer)
      ∷ (text "aud", words (g.audience ∷ []))
      ∷ []

  abbrev pub compacted : Option Claim → Claims → Claims
  compacted none m = m
  compacted (some v) m = insert (text "entitlements") (compact_entitlements v) m

  abbrev pub with_extra : Claims → Claims → Option Claims → Option Claims
  with_extra ctx m none = none
  with_extra ctx m (some extra) = some (reassert mint_decided_claims ctx (copy_all m extra))

  unfoldable pub mapped : Claims → Bytes → Claims → Option Claims
  unfolding copy_all reassert
  mapped ctx sub m = elim mapper [
    | none ↦ some m
    | some run ↦ with_extra ctx m (run (copy_all ctx (own_claims sub)))
  ]

  abbrev pub compact_all : Option Claims → Option Claims
  compact_all none = none
  compact_all (some m) = some (compacted (lookup (text "entitlements") m) m)

  abbrev pub project_subject : Claims → Option Bytes → Option Claims
  project_subject ctx none = none
  project_subject ctx (some sub) =
      if beq sub []
      then none
      else compact_all (
          mapped ctx sub
            (copy_claims profile_claims ctx (copy_claims projected_claims ctx (own_claims sub))))

  -- Project, where none is an error
  unfoldable pub project : Claims → Option Claims
  unfolding mapped copy_claims lookup
  project ctx = project_subject ctx (subject_of (lookup (text "sub") ctx))

  abbrev pub confined : List Bytes → Option Claims → Option Claims
  confined granted none = none
  confined granted (some m) = some (confine_by_scope granted m)

  -- The claims that SignScoped signs
  unfoldable pub scoped_claims : Claims → List Bytes → Option Claims
  unfolding project confine_by_scope
  scoped_claims ctx granted = confined granted (project ctx)
