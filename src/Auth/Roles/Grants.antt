-- ===== src/Auth/Roles/Grants.antt =====
-- internal/auth/roles.go: what a role grants. The grants of a rule are formatted; one whose parts would shift its
-- segments is left out, and reported once for its rule.
pub mod Meaning
pub mod Complete
use host_manager.Base.{
  ℕ, Bytes, text, beq, has_byte, GoMap, lookup, insert, Bool, true, false, not, ◌&&◌, ◌||◌, Option,
  none, some, List, [], ◌∷◌, ◌++◌, if◌then◌else◌,
}

-- A PolicyRule of a KDexRole.
pub record PolicyRule : Type 0 where
  pub resources : List Bytes
  pub resource_names : List Bytes
  pub scopes : List Bytes
  pub verbs : List Bytes

pub record Role : Type 0 where
  pub role_name : Bytes
  pub rules : List PolicyRule

-- Why the parts cannot form a grant, or the empty text.
unfoldable pub malformed_grant_part : Bytes → Bytes → Bytes → Bytes
malformed_grant_part resource name verb =
    if has_byte 58 resource
    then text "resource contains ':'"
    else if has_byte 58 verb
    then text "verb contains ':'"
    else if has_byte 58 name || has_byte 123 name || has_byte 125 name
    then text "resourceName contains ':', '{' or '}'"
    else []

-- The refusals of the parts of one list of a rule.
unfoldable pub refusals : (Bytes → Bytes) → List Bytes → List Bytes
refusals test [] = []
refusals test (x ∷ xs) =
    let rest = refusals test xs in
    if beq (test x) [] then rest else (test x ++ text ": " ++ x) ∷ rest

abbrev pub malformed_scope : Bytes → Bytes
malformed_scope sc = if has_byte 58 sc then text "opaque scope contains ':'" else []

-- ruleRefusals
unfoldable pub rule_refusals : PolicyRule → List Bytes
unfolding refusals malformed_grant_part
rule_refusals rule =
    refusals (λ r. malformed_grant_part r [] []) rule.resources
    ++ refusals (λ n. malformed_grant_part [] n []) rule.resource_names
    ++ refusals (λ v. malformed_grant_part [] [] v) rule.verbs
    ++ refusals malformed_scope rule.scopes

abbrev pub grant : Bytes → Bytes → Bytes → Bytes
grant resource name verb = resource ++ (58 ∷ (name ++ (58 ∷ verb)))

abbrev pub opaque_scopes : List Bytes → List Bytes
opaque_scopes [] = []
opaque_scopes (sc ∷ scs) = if has_byte 58 sc then opaque_scopes scs else sc ∷ opaque_scopes scs

-- The three loops over a rule's parts.
abbrev pub by_verb : Bytes → Bytes → List Bytes → List Bytes
by_verb resource name [] = []
by_verb resource name (v ∷ vs) =
    let rest = by_verb resource name vs in
    if beq (malformed_grant_part resource name v) [] then grant resource name v ∷ rest else rest

abbrev pub by_name : Bytes → List Bytes → List Bytes → List Bytes
by_name resource [] verbs = []
by_name resource (n ∷ ns) verbs = by_verb resource n verbs ++ by_name resource ns verbs

abbrev pub by_resource : List Bytes → List Bytes → List Bytes → List Bytes
by_resource [] names verbs = []
by_resource (r ∷ rs) names verbs = by_name r names verbs ++ by_resource rs names verbs

-- No resource name stands for the empty one.
abbrev pub names_of : List Bytes → List Bytes
names_of [] = [] ∷ []
names_of (n ∷ ns) = n ∷ ns

-- The body of buildMappingTable's loop over rules: a rule with scopes grants those alone.
unfoldable pub rule_grants : PolicyRule → List Bytes
rule_grants rule = elim rule.scopes [
  | [] ↦ by_resource rule.resources (names_of rule.resource_names) rule.verbs
  | sc ∷ scs ↦ opaque_scopes (sc ∷ scs)
]

unfoldable pub role_grants : List PolicyRule → List Bytes
role_grants [] = []
role_grants (rule ∷ rules) = rule_grants rule ++ role_grants rules

-- buildMappingTable
unfoldable pub build_mapping_table : List Role → GoMap (List Bytes) → GoMap (List Bytes)
unfolding role_grants
build_mapping_table [] table = table
build_mapping_table (role ∷ roles) table =
    build_mapping_table roles (insert role.role_name (role_grants role.rules) table)
