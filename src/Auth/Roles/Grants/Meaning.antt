-- ===== src/Auth/Roles/Grants/Meaning.antt =====
-- A grant means what its rule says: it reads back as the parts it was formatted from.
use host_manager.Base.{
  Bytes, text, beq, beq_self, beq_iff, has_byte, split, split_single, split-append, GoMap, lookup,
  insert, lookup-insert, Bool, true, false, not, ◌||◌, some, List, [], ◌∷◌, ◌++◌, if◌then◌else◌,
  contains, contains_either, ◌≡◌, refl, ◌∙◌, ◌⊎◌, inl, inr, arith, Bool-cases,
}
use host_manager.Auth.Roles.Grants.{
  PolicyRule, Role, malformed_grant_part, grant, opaque_scopes, by_verb, by_name, by_resource,
  names_of, rule_grants, role_grants, build_mapping_table,
}

-- A grant reads back as a resource, a name and a verb of the lists.
Parts : List Bytes → List Bytes → List Bytes → Bytes → Type 0
Parts resources names verbs g =
    (r : Bytes) × (n : Bytes) × (v : Bytes) × (contains resources r ≡ true)
    × (contains names n ≡ true)
    × (contains verbs v ≡ true)
    × (split 58 g ≡ r ∷ n ∷ v ∷ [])

reason_empty :
    (a b c : Bool)
    → beq
        (if a
          then text "resource contains ':'"
          else if b
          then text "verb contains ':'"
          else if c
          then text "resourceName contains ':', '{' or '}'"
          else [])
        []
      ≡ not (a || b || c)
unfolding beq
reason_empty true b c = refl
reason_empty false true c = refl
reason_empty false false true = refl
reason_empty false false false = refl

-- Exactly the parts without these bytes form a grant.
pub malformed_grant_part-empty :
    (r n v : Bytes)
    → beq (malformed_grant_part r n v) []
      ≡ not (has_byte 58 r || has_byte 58 v || (has_byte 58 n || has_byte 123 n || has_byte 125 n))
unfolding malformed_grant_part
malformed_grant_part-empty r n v =
    reason_empty (has_byte 58 r) (has_byte 58 v) (has_byte 58 n || has_byte 123 n || has_byte 125 n)

well_formed :
    (r n v : Bytes)
    → beq (malformed_grant_part r n v) [] ≡ true
    → split 58 (grant r n v) ≡ r ∷ n ∷ v ∷ []
well_formed r n v h =
    let formed = malformed_grant_part-empty r n v in
    let a : has_byte 58 r ≡ false = ground (arith, formed) in
    let b : has_byte 58 n ≡ false = ground (arith, formed) in
    let c : has_byte 58 v ≡ false = ground (arith, formed) in
    split-append 58 r (n ++ (58 ∷ v)) a ∙ rw (split-append 58 n v b, split_single 58 v c) refl

-- Of a rule: an opaque scope of its own, or its parts.
pub Means : PolicyRule → Bytes → Type 0
Means rule g =
    ((contains rule.scopes g ≡ true) × (split 58 g ≡ g ∷ []))
    ⊎ ((rule.scopes ≡ []) × Parts rule.resources (names_of rule.resource_names) rule.verbs g)

pub behind : (x y : Bytes) (xs : List Bytes) → contains xs y ≡ true → contains (x ∷ xs) y ≡ true
behind x y xs h = ground (arith, h)

pub front : (x : Bytes) (xs : List Bytes) → contains (x ∷ xs) x ≡ true
front x xs = rw (beq_self x) refl

by_verb_read :
    (r n : Bytes) (vs : List Bytes) (g : Bytes)
    → contains (by_verb r n vs) g ≡ true
    → (v : Bytes) × (contains vs v ≡ true) × (split 58 g ≡ r ∷ n ∷ v ∷ [])
by_verb_read r n [] g h = absurd (ground arith)
by_verb_read r n (v ∷ vs) g h = elim (Bool-cases (beq (malformed_grant_part r n v) [])) [
  | inl e ↦ elim (Bool-cases (beq (grant r n v) g)) [
    | inl y ↦ (v, front v vs, rw (← (beq_iff (grant r n v) g).0 y) (well_formed r n v e))
    | inr y ↦ let (w, m, s) = by_verb_read r n vs g (rw (e, y) at h) in (w, behind v w vs m, s)
  ]
  | inr e ↦ let (w, m, s) = by_verb_read r n vs g (rw (e) at h) in (w, behind v w vs m, s)
]

by_name_means :
    (r : Bytes) (ns vs : List Bytes) (g : Bytes)
    → contains (by_name r ns vs) g ≡ true
    → Parts (r ∷ []) ns vs g
unfolding Parts
by_name_means r [] vs g h = absurd (ground arith)
by_name_means r (n ∷ ns) vs g h = elim (contains_either (by_verb r n vs) (by_name r ns vs) g h) [
  | inl one ↦ let (v, m, s) = by_verb_read r n vs g one in (r, n, v, front r [], front n ns, m, s)
  | inr rest ↦
      let (r1, n1, v, a, b, c, s) = by_name_means r ns vs g rest in
      (r1, n1, v, a, behind n n1 ns b, c, s)
]

by_resource_means :
    (rs ns vs : List Bytes) (g : Bytes)
    → contains (by_resource rs ns vs) g ≡ true
    → Parts rs ns vs g
unfolding Parts
by_resource_means [] ns vs g h = absurd (ground arith)
by_resource_means (r ∷ rs) ns vs g h =
    elim (contains_either (by_name r ns vs) (by_resource rs ns vs) g h) [
      | inl one ↦
          let (r1, n, v, a, b, c, s) = by_name_means r ns vs g one in
          (r1, n, v, ground (arith, a), b, c, s)
      | inr rest ↦
          let (r1, n, v, a, b, c, s) = by_resource_means rs ns vs g rest in
          (r1, n, v, behind r r1 rs a, b, c, s)
    ]

opaque_means :
    (scs : List Bytes) (g : Bytes)
    → contains (opaque_scopes scs) g ≡ true
    → (contains scs g ≡ true) × (split 58 g ≡ g ∷ [])
opaque_means [] g h = absurd (ground arith)
opaque_means (sc ∷ scs) g h = elim (Bool-cases (has_byte 58 sc)) [
  | inl e ↦ let (m, s) = opaque_means scs g (rw (e) at h) in (behind sc g scs m, s)
  | inr e ↦ elim (Bool-cases (beq sc g)) [
    | inl y ↦ let same = (beq_iff sc g).0 y in (rw (y) refl, rw (← same) (split_single 58 sc e))
    | inr y ↦ let (m, s) = opaque_means scs g (rw (e, y) at h) in (behind sc g scs m, s)
  ]
]

rule-Means :
    (rule : PolicyRule) (scs : List Bytes) (g : Bytes)
    → rule.scopes ≡ scs
    → contains (rule_grants rule) g ≡ true
    → Means rule g
unfolding rule_grants Means
rule-Means rule [] g e h =
    inr (
      e,
      by_resource_means rule.resources (names_of rule.resource_names) rule.verbs g (rw (e) at h),
    )
rule-Means rule (sc ∷ scs) g e h = inl (rw (e) (opaque_means (sc ∷ scs) g (rw (e) at h)))

pub SomeRule : List PolicyRule → Bytes → Type 0
SomeRule [] g = ⊥
SomeRule (rule ∷ rules) g = Means rule g ⊎ SomeRule rules g

-- A rule of a role of this name says so.
pub SomeRole : List Role → Bytes → Bytes → Type 0
SomeRole [] name g = ⊥
SomeRole (role ∷ roles) name g =
    ((role.role_name ≡ name) × SomeRule role.rules g) ⊎ SomeRole roles name g

role_means :
    (rules : List PolicyRule) (g : Bytes) → contains (role_grants rules) g ≡ true → SomeRule rules g
unfolding role_grants SomeRule
role_means [] g h = absurd (ground arith)
role_means (rule ∷ rules) g h = elim (contains_either (rule_grants rule) (role_grants rules) g h) [
  | inl one ↦ inl (rule-Means rule rule.scopes g refl one)
  | inr rest ↦ inr (role_means rules g rest)
]

table_means :
    (roles : List Role) (table : GoMap (List Bytes)) (name g : Bytes) (grants : List Bytes)
    → lookup name (build_mapping_table roles table) ≡ some grants
    → contains grants g ≡ true
    → (lookup name table ≡ some grants) ⊎ SomeRole roles name g
unfolding build_mapping_table SomeRole
table_means [] table name g grants h m = inl h
table_means (role ∷ roles) table name g grants h m =
    elim (table_means roles (insert role.role_name (role_grants role.rules) table) name g grants h
      m) [
        | inr r ↦ inr (inr r)
        | inl l ↦ elim (Bool-cases (beq role.role_name name)) [
          | inl y ↦
              let own : role_grants role.rules ≡ grants =
                ground (arith, lookup-insert role.role_name name (role_grants role.rules) table) in
              inr (inl ((beq_iff role.role_name name).0 y, role_means role.rules g (rw (own) m)))
          | inr n ↦
              inl (ground (arith, lookup-insert role.role_name name (role_grants role.rules) table))
        ]
      ]

-- Every grant of a role, in the table built of a host's roles, means what a rule of a role of that name says: it is one
-- of the rule's scopes and has no ':', or the rule has no scope and the grant, split on ':', is exactly a resource, a
-- resource name and a verb of the rule, where a rule that names no resource stands for the empty name.
pub build_mapping_table-SomeRole :
    (roles : List Role) (name g : Bytes) (grants : List Bytes)
    → lookup name (build_mapping_table roles []) ≡ some grants
    → contains grants g ≡ true
    → SomeRole roles name g
unfolding lookup
build_mapping_table-SomeRole roles name g grants h m =
    elim (table_means roles [] name g grants h m) [ inl n ↦ absurd (ground arith) | inr r ↦ r ]
