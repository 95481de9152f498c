-- ===== src/Auth/Roles.antt =====
-- internal/auth/roles.go: the role bindings and roles of a host, as they are compiled when the provider is built and
-- resolved for a subject. A compiled regular expression is its match; regexp.Compile is a parameter.
pub mod Matching
pub mod Resolution
pub mod Grants
use host_manager.Base.{
  ℕ, Bytes, text, beq, has_byte, has_prefix, GoMap, lookup, insert, Bool, true, false, not, ◌&&◌,
  ◌||◌, Option, none, some, List, [], ◌∷◌, ◌++◌, ltb, ◌==◌, if◌then◌else◌, contains, length,
}
use host_manager.Auth.SubjectKind.{Kind, client, user, other}

-- A KDexRoleBinding; no list of kinds stands for any kind.
pub record RoleBinding : Type 0 where
  pub name : Bytes
  pub roles : List Bytes
  pub subject : Bytes
  pub subject_kinds : Option (List Kind)

pub record CompiledBinding : Type 0 where
  pub binding_name : Bytes
  pub bound_roles : List Bytes
  pub narrowed : Bool
  pub kinds : List Kind

pub record PatternBinding : Type 0 where
  pub matches : Bytes → Bool
  pub compiled : CompiledBinding

pub record ScopeProvider : Type 0 where
  pub exact_bindings : GoMap (List CompiledBinding)
  pub pattern_bindings : List PatternBinding

abbrev pub kind_eq : Kind → Kind → Bool
kind_eq client client = true
kind_eq user user = true
kind_eq (other a) (other b) = beq a b
kind_eq _ _ = false

abbrev pub contains_kind : List Kind → Kind → Bool
contains_kind [] k = false
contains_kind (j ∷ js) k = kind_eq j k || contains_kind js k

-- A release knows the client, the user, and what it is told.
abbrev pub is_known : (Bytes → Bool) → Kind → Bool
is_known known client = true
is_known known user = true
is_known known (other k) = known k

-- admits
abbrev pub admits : (Bytes → Bool) → CompiledBinding → Kind → Bool
admits known cb kind = not cb.narrowed || is_known known kind && contains_kind cb.kinds kind

abbrev pub compiled_of : RoleBinding → CompiledBinding
compiled_of b = record {
  binding_name = b.name;
  bound_roles = b.roles;
  narrowed = elim b.subject_kinds [ none ↦ false | some ks ↦ true ];
  kinds = elim b.subject_kinds [ none ↦ [] | some ks ↦ ks ];
}

abbrev pub ends_in : ℕ → Bytes → Bool
ends_in c [] = false
ends_in c (x ∷ []) = x == c
ends_in c (x ∷ y ∷ s) = ends_in c (y ∷ s)

abbrev pub without_last : Bytes → Bytes
without_last [] = []
without_last (x ∷ []) = []
without_last (x ∷ y ∷ s) = x ∷ without_last (y ∷ s)

-- How the subject of a binding is read.
pub data Form : Type 0 where
  wildcard : Form
  regex : Bytes → Form
  exact : Form

abbrev pub inner : Bytes → Bytes
inner [] = []
inner (x ∷ s) = without_last s

unfoldable pub form_of : Bytes → Form
unfolding has_prefix
form_of s =
    if beq s (text "*")
    then wildcard
    else if has_prefix s (text "/") && ends_in 47 s && ltb 2 (length s)
    then regex (inner s)
    else exact

abbrev pub bound_to : Bytes → GoMap (List CompiledBinding) → List CompiledBinding
bound_to key m = elim (lookup key m) [ none ↦ [] | some cbs ↦ cbs ]

-- The resolution's names: of the bindings that contributed, and of those that do not admit the kind.
pub record BindingNames : Type 0 where
  pub contributed : List Bytes
  pub skipped_for_kind : List Bytes

module _ (compile : Bytes → Option (Bytes → Bool)) where
  -- One turn of NewRoleProvider's loop; a regular expression that does not compile is skipped.
  unfoldable pub add_binding : RoleBinding → ScopeProvider → ScopeProvider
  add_binding b p = elim (form_of b.subject) [
    | wildcard ↦ record p {
      pattern_bindings =
          p.pattern_bindings ++ record { matches = λ _. true; compiled = compiled_of b } ∷ [];
    }
    | regex re ↦ elim (compile re) [
      | none ↦ p
      | some m ↦ record p {
        pattern_bindings =
            p.pattern_bindings ++ record { matches = m; compiled = compiled_of b } ∷ [];
      }
    ]
    | exact ↦ record p {
      exact_bindings =
          insert b.subject (bound_to b.subject p.exact_bindings ++ compiled_of b ∷ [])
            p.exact_bindings;
    }
  ]

  unfoldable pub add_bindings : List RoleBinding → ScopeProvider → ScopeProvider
  add_bindings [] p = p
  add_bindings (b ∷ bs) p = add_bindings bs (add_binding b p)

  -- NewRoleProvider, for the bindings
  unfoldable pub new_role_provider : List RoleBinding → ScopeProvider
  unfolding add_bindings
  new_role_provider bs = add_bindings bs (record { exact_bindings = []; pattern_bindings = [] })

module _ (known : Bytes → Bool) (kind : Kind) where
  -- The closure `match` of resolveRoles; names are recorded where there is a collector.
  unfoldable pub match_binding :
      Bool → CompiledBinding → List Bytes × BindingNames → List Bytes × BindingNames
  match_binding collect cb (roles, names) =
      if admits known cb kind
      then (
        roles ++ cb.bound_roles,
        (if collect
            then record names { contributed = names.contributed ++ cb.binding_name ∷ [] }
            else names),
      )
      else (
        roles,
        (if collect
            then record names { skipped_for_kind = names.skipped_for_kind ++ cb.binding_name ∷ [] }
            else names),
      )

  unfoldable pub match_exact :
      Bool → List CompiledBinding → List Bytes × BindingNames → List Bytes × BindingNames
  match_exact collect [] acc = acc
  match_exact collect (cb ∷ cbs) acc = match_exact collect cbs (match_binding collect cb acc)

  unfoldable pub match_patterns :
      Bool → Bytes → List PatternBinding → List Bytes × BindingNames → List Bytes × BindingNames
  match_patterns collect key [] acc = acc
  match_patterns collect key (pb ∷ pbs) acc = match_patterns collect key pbs (
      if not collect && not (admits known pb.compiled kind)
      then acc
      else if pb.matches key
      then match_binding collect pb.compiled acc
      else acc)

  -- resolveRoles
  unfoldable pub resolve_roles : Bool → Bytes → ScopeProvider → List Bytes × BindingNames
  unfolding match_exact match_patterns match_binding
  resolve_roles collect key p = match_patterns collect key p.pattern_bindings (
      match_exact collect (bound_to key p.exact_bindings)
        ([], record { contributed = []; skipped_for_kind = [] }))
