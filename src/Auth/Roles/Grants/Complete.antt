-- ===== src/Auth/Roles/Grants/Complete.antt =====
-- A rule of which nothing is refused grants each combination of its parts.
use host_manager.Base.{
  Bytes, beq, beq_iff, has_byte, true, List, [], ◌∷◌, ◌++◌, contains, contains-append, ◌≡◌, refl,
  inl, inr, arith, Bool-cases,
}
use host_manager.Auth.Roles.Grants.{
  PolicyRule, malformed_grant_part, refusals, malformed_scope, rule_refusals, grant, by_verb,
  by_name, by_resource, names_of, rule_grants,
}
use host_manager.Auth.Roles.Grants.Meaning.{malformed_grant_part-empty, behind, front}

cons_not_nil : {x : Bytes} {xs : List Bytes} → x ∷ xs ≡ [] → ⊥
cons_not_nil h = cc

-- Nothing is refused of a list.
refusals_part :
    (test : Bytes → Bytes) (xs : List Bytes) (x : Bytes)
    → refusals test xs ≡ []
    → contains xs x ≡ true
    → beq (test x) [] ≡ true
unfolding refusals
refusals_part test [] x h m = absurd (ground arith)
refusals_part test (y ∷ ys) x h m = elim (Bool-cases (beq (test y) [])) [
  | inl e ↦ elim (Bool-cases (beq y x)) [
    | inl same ↦ rw (← (beq_iff y x).0 same) e
    | inr other ↦ refusals_part test ys x (rw (e) at h) (rw (other) at m)
  ]
  | inr e ↦ absurd (cons_not_nil (rw (e) at h))
]

append_nil_left : (xs ys : List Bytes) → xs ++ ys ≡ [] → xs ≡ []
append_nil_left [] ys h = refl
append_nil_left (x ∷ xs) ys h = absurd (cons_not_nil h)

append_nil_right : (xs ys : List Bytes) → xs ++ ys ≡ [] → ys ≡ []
append_nil_right [] ys h = h
append_nil_right (x ∷ xs) ys h = absurd (cons_not_nil h)

names_part :
    (ns : List Bytes) (n : Bytes)
    → refusals (λ x. malformed_grant_part [] x []) ns ≡ []
    → contains (names_of ns) n ≡ true
    → beq (malformed_grant_part [] n []) [] ≡ true
unfolding malformed_grant_part beq has_byte
names_part [] n h m = rw (← (beq_iff [] n).0 (ground (arith, m))) refl
names_part (x ∷ ns) n h m = refusals_part (λ y. malformed_grant_part [] y []) (x ∷ ns) n h m

contains_left :
    (xs ys : List Bytes) (x : Bytes) → contains xs x ≡ true → contains (xs ++ ys) x ≡ true
contains_left xs ys x h = rw (contains-append xs ys x, h) refl

contains_right :
    (xs ys : List Bytes) (x : Bytes) → contains ys x ≡ true → contains (xs ++ ys) x ≡ true
contains_right xs ys x h = ground (arith, contains-append xs ys x)

in_by_verb :
    (r n v : Bytes) (vs : List Bytes)
    → beq (malformed_grant_part r n v) [] ≡ true
    → contains vs v ≡ true
    → contains (by_verb r n vs) (grant r n v) ≡ true
in_by_verb r n v [] e m = absurd (ground arith)
in_by_verb r n v (w ∷ vs) e m = elim (Bool-cases (beq w v)) [
  | inl y ↦ rw ((beq_iff w v).0 y, e) (front (grant r n v) _)
  | inr o ↦ elim (Bool-cases (beq (malformed_grant_part r n w) [])) [
    | inl k ↦ rw (k) (behind (grant r n w) (grant r n v) _ (in_by_verb r n v vs e (rw (o) at m)))
    | inr k ↦ rw (k) (in_by_verb r n v vs e (rw (o) at m))
  ]
]

in_by_name :
    (r n v : Bytes) (ns vs : List Bytes)
    → beq (malformed_grant_part r n v) [] ≡ true
    → contains ns n ≡ true
    → contains vs v ≡ true
    → contains (by_name r ns vs) (grant r n v) ≡ true
in_by_name r n v [] vs e k m = absurd (ground arith)
in_by_name r n v (x ∷ ns) vs e k m = elim (Bool-cases (beq x n)) [
  | inl y ↦ rw ((beq_iff x n).0 y) (contains_left _ _ (grant r n v) (in_by_verb r n v vs e m))
  | inr o ↦
      contains_right (by_verb r x vs) _ (grant r n v) (in_by_name r n v ns vs e (rw (o) at k) m)
]

in_by_resource :
    (r n v : Bytes) (rs ns vs : List Bytes)
    → beq (malformed_grant_part r n v) [] ≡ true
    → contains rs r ≡ true
    → contains ns n ≡ true
    → contains vs v ≡ true
    → contains (by_resource rs ns vs) (grant r n v) ≡ true
in_by_resource r n v [] ns vs e j k m = absurd (ground arith)
in_by_resource r n v (x ∷ rs) ns vs e j k m = elim (Bool-cases (beq x r)) [
  | inl y ↦ rw ((beq_iff x r).0 y) (contains_left _ _ (grant r n v) (in_by_name r n v ns vs e k m))
  | inr o ↦
      contains_right (by_name x ns vs) _ (grant r n v)
        (in_by_resource r n v rs ns vs e (rw (o) at j) k m)
]

rule_refusals_lem :
    (rule : PolicyRule)
    → rule_refusals rule ≡ []
    → (refusals (λ x. malformed_grant_part x [] []) rule.resources ≡ [])
      × (refusals (λ x. malformed_grant_part [] x []) rule.resource_names ≡ [])
      × (refusals (λ x. malformed_grant_part [] [] x) rule.verbs ≡ [])
unfolding rule_refusals
rule_refusals_lem rule h =
    let three = append_nil_left _ (refusals malformed_scope rule.scopes) h in
    let two = append_nil_left _ (refusals (λ x. malformed_grant_part [] [] x) rule.verbs) three in
    (
      append_nil_left _ (refusals (λ x. malformed_grant_part [] x []) rule.resource_names) two,
      append_nil_right (refusals (λ x. malformed_grant_part x [] []) rule.resources) _ two,
      append_nil_right _ (refusals (λ x. malformed_grant_part [] [] x) rule.verbs) three,
    )

parts_formed :
    (r n v : Bytes)
    → beq (malformed_grant_part r [] []) [] ≡ true
    → beq (malformed_grant_part [] n []) [] ≡ true
    → beq (malformed_grant_part [] [] v) [] ≡ true
    → beq (malformed_grant_part r n v) [] ≡ true
unfolding has_byte
parts_formed r n v a b c = ground (
  arith,
  malformed_grant_part-empty r [] [],
  malformed_grant_part-empty [] n [],
  malformed_grant_part-empty [] [] v,
  malformed_grant_part-empty r n v,
)

-- A rule without scopes of which nothing is refused grants each combination of a resource, a name and a verb of it,
-- where no name stands for the empty one.
pub rule_grants-rule_refusals :
    (rule : PolicyRule) (r n v : Bytes)
    → rule.scopes ≡ []
    → rule_refusals rule ≡ []
    → contains rule.resources r ≡ true
    → contains (names_of rule.resource_names) n ≡ true
    → contains rule.verbs v ≡ true
    → contains (rule_grants rule) (grant r n v) ≡ true
unfolding rule_grants rule_refusals
rule_grants-rule_refusals rule r n v s h i j k =
    let (_, of_names, of_verbs) = rule_refusals_lem rule h in
    let (of_resources, _, _) = rule_refusals_lem rule h in
    let formed : beq (malformed_grant_part r n v) [] ≡ true =
      parts_formed r n v
        (refusals_part (λ x. malformed_grant_part x [] []) rule.resources r of_resources i)
        (names_part rule.resource_names n of_names j)
        (refusals_part (λ x. malformed_grant_part [] [] x) rule.verbs v of_verbs k) in
    rw (s)
      (in_by_resource r n v rule.resources (names_of rule.resource_names) rule.verbs formed i j k)
