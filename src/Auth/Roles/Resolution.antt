-- ===== src/Auth/Roles/Resolution.antt =====
-- The compiled bindings resolve as a scan of all bindings would.
use host_manager.Base.{
  Bytes, beq, beq_iff, GoMap, lookup, insert, lookup-insert, ◌≡◌, refl, sym, ap, ◌∙◌, Bool, true,
  false, ◌&&◌, Option, none, some, List, [], ◌∷◌, ◌++◌, if◌then◌else◌, arith, inl, inr, Bool-cases,
  Option-cases,
}
use mathlib.Core.List.{append-nil, append_assoc}
use host_manager.Auth.SubjectKind.{Kind}
use host_manager.Auth.Roles.Matching.{
  admitted, admitted_patterns, match_exact-admitted, match_patterns-admitted, admitted-append,
  admitted_patterns-append,
}
use host_manager.Auth.Roles.{
  RoleBinding, CompiledBinding, ScopeProvider, admits, compiled_of, Form, wildcard, regex, exact,
  form_of, bound_to, add_binding, add_bindings, new_role_provider, match_exact, resolve_roles,
}

bound_to-insert :
    (k j : Bytes) (v : List CompiledBinding) (m : GoMap (List CompiledBinding))
    → bound_to j (insert k v m) ≡ (if beq k j then v else bound_to j m)
bound_to-insert k j v m =
    ap (λ o. elim o [ none ↦ [] | some cbs ↦ cbs ]) (lookup-insert k j v m)
    ∙ elim (Bool-cases (beq k j)) [ inl e ↦ rw (e) refl | inr n ↦ rw (n) refl ]

module _ (known : Bytes → Bool) (kind : Kind) where
  -- Whether a binding binds a key by its exact subject.
  abbrev pub binds_exactly : Bytes → RoleBinding → Bool
  binds_exactly key b =
      elim (form_of b.subject) [ exact ↦ beq b.subject key | _ ↦ false ]
      && admits known (compiled_of b) kind

  -- The roles of the bindings that pass a test.
  abbrev pub roles_where : (RoleBinding → Bool) → List RoleBinding → List Bytes
  roles_where test [] = []
  roles_where test (b ∷ bs) = (if test b then b.roles else []) ++ roles_where test bs

  module _ (compile : Bytes → Option (Bytes → Bool)) where
    -- Whether a binding binds a key by the pattern that its subject is.
    abbrev pub binds_by_pattern : Bytes → RoleBinding → Bool
    binds_by_pattern key b = admits known (compiled_of b) kind && elim (form_of b.subject) [
      | wildcard ↦ true
      | regex re ↦ elim (compile re) [ none ↦ false | some m ↦ m key ]
      | exact ↦ false
    ]

    Added : RoleBinding → ScopeProvider → ScopeProvider → Type 0
    Added b p q =
        (key : Bytes)
        → (admitted known kind (bound_to key q.exact_bindings)
            ≡ admitted known kind (bound_to key p.exact_bindings)
              ++ (if binds_exactly key b then b.roles else []))
          × (admitted_patterns known kind key q.pattern_bindings
              ≡ admitted_patterns known kind key p.pattern_bindings
                ++ (if binds_by_pattern key b then b.roles else []))

    and_false : (t : Bool) → (t && false) ≡ false
    and_false t = ground arith

    unchanged : (xs : List Bytes) → xs ≡ xs ++ []
    unchanged xs = sym (append-nil xs)

    pattern-Added :
        (b : RoleBinding) (p : ScopeProvider) (m : Bytes → Bool)
        → ((key : Bytes) → binds_exactly key b ≡ false)
        → ((key : Bytes) → binds_by_pattern key b ≡ (admits known (compiled_of b) kind && m key))
        → Added b p (record p {
          pattern_bindings =
              p.pattern_bindings ++ record { matches = m; compiled = compiled_of b } ∷ [];
        })
    unfolding Added admitted_patterns
    pattern-Added b p m x y key = (
      rw (x key) (unchanged _),
      rw (y key) (
          admitted_patterns-append known kind key p.pattern_bindings
            (record { matches = m; compiled = compiled_of b } ∷ [])
          ∙ rw (append-nil (if admits known (compiled_of b) kind && m key then b.roles else []))
              refl),
    )

    shift :
        (b : RoleBinding) (p q : ScopeProvider)
        → add_binding compile b p ≡ q
        → Added b p q
        → Added b p (add_binding compile b p)
    shift b p q e t = rw (e) t

    exact-Added :
        (b : RoleBinding) (p : ScopeProvider)
        → form_of b.subject ≡ exact
        → Added b p (record p {
          exact_bindings =
              insert b.subject
                (bound_to b.subject p.exact_bindings ++ compiled_of b ∷ [])
                p.exact_bindings;
        })
    unfolding Added admitted
    exact-Added b p h key =
        let own = compiled_of b ∷ [] in
        let put =
          bound_to-insert b.subject key (bound_to b.subject p.exact_bindings ++ own)
            p.exact_bindings in
        (
          elim (Bool-cases (beq b.subject key)) [
            | inl e ↦
                rw (put, h, e, (beq_iff b.subject key).0 e)
                  (admitted-append known kind (bound_to key p.exact_bindings) own
                    ∙ rw (append-nil (if admits known (compiled_of b) kind then b.roles else []))
                        refl)
            | inr n ↦ rw (put, h, n) (unchanged _)
          ],
          rw (h, and_false (admits known (compiled_of b) kind)) (unchanged _),
        )

    add_binding-Added :
        (b : RoleBinding) (p : ScopeProvider) (f : Form)
        → form_of b.subject ≡ f
        → Added b p (add_binding compile b p)
    unfolding add_binding Added
    add_binding-Added b p wildcard h =
        shift b p _ (rw (add_binding, h) refl)
          (pattern-Added b p (λ _. true) (λ key. rw (h) refl) (λ key. rw (h) refl))
    add_binding-Added b p (regex re) h = elim (Option-cases (compile re)) [
      | inl n ↦ shift b p p (rw (add_binding, h, n) refl) (λ key. (
        rw (h) (unchanged _),
        rw (h, n, and_false (admits known (compiled_of b) kind)) (unchanged _),
      ))
      | inr (m, e) ↦
          shift b p _ (rw (add_binding, h, e) refl)
            (pattern-Added b p m (λ key. rw (h) refl) (λ key. rw (h, e) refl))
    ]
    add_binding-Added b p exact h = shift b p _ (rw (add_binding, h) refl) (exact-Added b p h)

    roles_where-step :
        (test : RoleBinding → Bool) (xs : List Bytes) (ys : List Bytes) (b : RoleBinding)
        (bs : List RoleBinding)
        → ys ≡ xs ++ (if test b then b.roles else [])
        → ys ++ roles_where test bs ≡ xs ++ roles_where test (b ∷ bs)
    roles_where-step test xs ys b bs e =
        rw (e) (append_assoc xs (if test b then b.roles else []) (roles_where test bs))

    add_bindings-exact :
        (key : Bytes) (bs : List RoleBinding) (p : ScopeProvider)
        → (admitted known kind (bound_to key (add_bindings compile bs p).exact_bindings)
            ≡ admitted known kind (bound_to key p.exact_bindings)
              ++ roles_where (binds_exactly key) bs)
          × (admitted_patterns known kind key (add_bindings compile bs p).pattern_bindings
              ≡ admitted_patterns known kind key p.pattern_bindings
                ++ roles_where (binds_by_pattern key) bs)
    unfolding add_bindings Added
    add_bindings-exact key [] p = (unchanged _, unchanged _)
    add_bindings-exact key (b ∷ bs) p =
        let (x, y) = add_binding-Added b p (form_of b.subject) refl key in
        let (xs, ys) = add_bindings-exact key bs (add_binding compile b p) in
        (
          xs ∙ roles_where-step (binds_exactly key) _ _ b bs x,
          ys ∙ roles_where-step (binds_by_pattern key) _ _ b bs y,
        )

    -- Whatever the bindings are, the roles of a subject are those of a scan of all of them, in their order: of the
    -- bindings of exactly its key, then of those whose pattern matches it, each where it admits the kind. Recording the
    -- names of the bindings changes no role.
    pub resolve_roles-new_role_provider :
        (collect : Bool) (key : Bytes) (bs : List RoleBinding)
        → (resolve_roles known kind collect key (new_role_provider compile bs)).0
          ≡ roles_where (binds_exactly key) bs ++ roles_where (binds_by_pattern key) bs
    unfolding resolve_roles new_role_provider admitted admitted_patterns lookup
    resolve_roles-new_role_provider collect key bs =
        let (x, y) =
          add_bindings-exact key bs (record { exact_bindings = []; pattern_bindings = [] }) in
        let p = add_bindings compile bs (record { exact_bindings = []; pattern_bindings = [] }) in
        rw
          (
            match_patterns-admitted known kind collect key p.pattern_bindings (
                match_exact known kind collect (bound_to key p.exact_bindings)
                  ([], record { contributed = []; skipped_for_kind = [] })),
            match_exact-admitted known kind collect (bound_to key p.exact_bindings)
                ([], record { contributed = []; skipped_for_kind = [] }),
            x,
            y,
          )
          refl
