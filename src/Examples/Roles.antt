-- ===== src/Examples/Roles.antt =====
-- A host with an exact binding and a pattern, and a role with a name that cannot be granted.
use host_manager.Base.{
  Bytes, text, beq, has_prefix, has_byte, has_infix, lookup, insert, ◌≡◌, refl, Bool, true, false,
  Option, none, some, List, [], ◌∷◌, contains, if◌then◌else◌,
}
use host_manager.Auth.SubjectKind.{client, user, other}
use host_manager.Auth.Roles.{
  RoleBinding, form_of, add_binding, add_bindings, new_role_provider, match_binding, match_exact,
  match_patterns, resolve_roles,
}
use host_manager.Auth.Roles.Resolution.{resolve_roles-new_role_provider}
use host_manager.Auth.Roles.Grants.{
  PolicyRule, Role, malformed_grant_part, rule_refusals, refusals, rule_grants, role_grants,
  build_mapping_table,
}
use host_manager.Auth.Roles.Grants.Meaning.{SomeRole, build_mapping_table-SomeRole}

program : Unit {0}
unfolding beq has_prefix has_byte lookup insert form_of add_binding add_bindings new_role_provider
    match_binding match_exact match_patterns resolve_roles malformed_grant_part refusals
    rule_refusals rule_grants role_grants build_mapping_table
program = tt

-- The expressions of the run are infixes.
abbrev compile : Bytes → Option (Bytes → Bool)
compile re = if beq re [] then none else some (λ s. has_infix s re)

abbrev none_known : Bytes → Bool
none_known k = false

abbrev two_bindings : List RoleBinding
two_bindings =
    record {
      name = text "ann";
      roles = text "admin" ∷ [];
      subject = text "ann";
      subject_kinds = some (user ∷ []);
    }
    ∷ record {
      name = text "all";
      roles = text "reader" ∷ [];
      subject = text "*";
      subject_kinds = none;
    }
    ∷ []

resolve_roles-new_role_provider_example :
    (resolve_roles none_known user true (text "ann") (new_role_provider compile two_bindings)).0
    ≡ text "admin" ∷ text "reader" ∷ []
unfolding program
resolve_roles-new_role_provider_example =
    resolve_roles-new_role_provider none_known user compile true (text "ann") two_bindings

-- A client of that name gets no role that is for users.
client_narrowed :
    (resolve_roles none_known client true (text "ann") (new_role_provider compile two_bindings)).0
    ≡ text "reader" ∷ []
unfolding program
client_narrowed = refl

-- A kind that a release does not know is admitted by no list of kinds.
unknown_narrowed :
    (resolve_roles none_known
      (other (text "robot"))
      false
      (text "ann")
      (new_role_provider compile two_bindings)).0
    ≡ text "reader" ∷ []
unfolding program
unknown_narrowed = refl

abbrev pages : PolicyRule
pages = record {
  resources = text "pages" ∷ [];
  resource_names = [];
  scopes = [];
  verbs = text "read" ∷ text "a:b" ∷ [];
}

abbrev reader : Role
reader = record { role_name = text "reader"; rules = pages ∷ [] }

reader_table :
    lookup (text "reader") (build_mapping_table (reader ∷ []) []) ≡ some (text "pages::read" ∷ [])
unfolding program
reader_table = refl

one_refused : rule_refusals pages ≡ text "verb contains ':': a:b" ∷ []
unfolding program
one_refused = refl

read_given : contains (text "pages::read" ∷ []) (text "pages::read") ≡ true
unfolding program
read_given = refl

build_mapping_table-SomeRole_example : SomeRole (reader ∷ []) (text "reader") (text "pages::read")
build_mapping_table-SomeRole_example =
    build_mapping_table-SomeRole (reader ∷ []) (text "reader") (text "pages::read")
      (text "pages::read" ∷ []) reader_table read_given

abbrev files : PolicyRule
files = record {
  resources = text "files" ∷ [];
  resource_names = text "a" ∷ text "b" ∷ [];
  scopes = [];
  verbs = text "read" ∷ [];
}

none_refused : rule_refusals files ≡ []
unfolding program
none_refused = refl

contained :
    (contains files.resources (text "files") ≡ true)
    × (contains files.resource_names (text "b") ≡ true)
    × (contains files.verbs (text "read") ≡ true)
unfolding program
contained = (refl, refl, refl)
