-- ===== src/Auth/Roles/Matching.antt =====
-- The loops of a resolution add the roles of the compiled bindings that admit the kind.
use host_manager.Base.{
  Bytes, ◌≡◌, refl, sym, ◌∙◌, Bool, not, ◌&&◌, List, [], ◌∷◌, ◌++◌, if◌then◌else◌, inl, inr,
  Bool-cases,
}
use mathlib.Core.List.{append-nil, append_assoc}
use host_manager.Auth.SubjectKind.{Kind}
use host_manager.Auth.Roles.{
  CompiledBinding, PatternBinding, admits, BindingNames, match_binding, match_exact, match_patterns,
}

module _ (known : Bytes → Bool) (kind : Kind) where
  unfoldable pub admitted : List CompiledBinding → List Bytes
  admitted [] = []
  admitted (cb ∷ cbs) = (if admits known cb kind then cb.bound_roles else []) ++ admitted cbs

  match_binding-bound_roles :
      (collect : Bool) (cb : CompiledBinding) (acc : List Bytes × BindingNames)
      → (match_binding known kind collect cb acc).0
        ≡ acc.0 ++ (if admits known cb kind then cb.bound_roles else [])
  unfolding match_binding
  match_binding-bound_roles collect cb (roles, names) = elim (Bool-cases (admits known cb kind)) [
    | inl e ↦ rw (e) refl
    | inr e ↦ rw (e, append-nil roles) refl
  ]

  pub match_exact-admitted :
      (collect : Bool) (cbs : List CompiledBinding) (acc : List Bytes × BindingNames)
      → (match_exact known kind collect cbs acc).0 ≡ acc.0 ++ admitted cbs
  unfolding match_exact admitted
  match_exact-admitted collect [] acc = sym (append-nil acc.0)
  match_exact-admitted collect (cb ∷ cbs) acc =
      match_exact-admitted collect cbs (match_binding known kind collect cb acc)
      ∙ rw (match_binding-bound_roles collect cb acc) (append_assoc acc.0 _ (admitted cbs))

  unfoldable pub admitted_patterns : Bytes → List PatternBinding → List Bytes
  admitted_patterns key [] = []
  admitted_patterns key (pb ∷ pbs) =
      (if admits known pb.compiled kind && pb.matches key then pb.compiled.bound_roles else [])
      ++ admitted_patterns key pbs

  -- One turn of the loop over the patterns.
  abbrev turn :
      Bool → Bytes → PatternBinding → List Bytes × BindingNames → List Bytes × BindingNames
  turn collect key pb acc =
      if not collect && not (admits known pb.compiled kind)
      then acc
      else if pb.matches key
      then match_binding known kind collect pb.compiled acc
      else acc

  turn_lem :
      (collect : Bool) (key : Bytes) (pb : PatternBinding) (acc : List Bytes × BindingNames)
      → (turn collect key pb acc).0
        ≡ acc.0
          ++ (if admits known pb.compiled kind && pb.matches key
              then pb.compiled.bound_roles
              else [])
  turn_lem collect key pb acc =
      let bound = match_binding-bound_roles collect pb.compiled acc in
      elim (Bool-cases (admits known pb.compiled kind)) [
        | inl e ↦ elim (Bool-cases (pb.matches key)) [
          | inl m ↦ elim (Bool-cases collect) [
            | inl c ↦ rw (e, m, c) (rw (e, c) at bound)
            | inr c ↦ rw (e, m, c) (rw (e, c) at bound)
          ]
          | inr m ↦ elim (Bool-cases collect) [
            | inl c ↦ rw (e, m, c) (sym (append-nil acc.0))
            | inr c ↦ rw (e, m, c) (sym (append-nil acc.0))
          ]
        ]
        | inr e ↦ elim (Bool-cases collect) [
          | inl c ↦ elim (Bool-cases (pb.matches key)) [
            | inl m ↦ rw (e, m, c) (rw (e, c) at bound)
            | inr m ↦ rw (e, m, c) (sym (append-nil acc.0))
          ]
          | inr c ↦ rw (e, c) (sym (append-nil acc.0))
        ]
      ]

  pub match_patterns-admitted :
      (collect : Bool) (key : Bytes) (pbs : List PatternBinding) (acc : List Bytes × BindingNames)
      → (match_patterns known kind collect key pbs acc).0 ≡ acc.0 ++ admitted_patterns key pbs
  unfolding match_patterns admitted_patterns
  match_patterns-admitted collect key [] acc = sym (append-nil acc.0)
  match_patterns-admitted collect key (pb ∷ pbs) acc =
      match_patterns-admitted collect key pbs (turn collect key pb acc)
      ∙ rw (turn_lem collect key pb acc) (append_assoc acc.0 _ (admitted_patterns key pbs))

  pub admitted-append :
      (xs bs : List CompiledBinding) → admitted (xs ++ bs) ≡ admitted xs ++ admitted bs
  unfolding admitted
  admitted-append [] bs = refl
  admitted-append (a ∷ xs) bs =
      rw (admitted-append xs bs) (sym (append_assoc _ (admitted xs) (admitted bs)))

  pub admitted_patterns-append :
      (key : Bytes) (xs bs : List PatternBinding)
      → admitted_patterns key (xs ++ bs) ≡ admitted_patterns key xs ++ admitted_patterns key bs
  unfolding admitted_patterns
  admitted_patterns-append key [] bs = refl
  admitted_patterns-append key (a ∷ xs) bs =
      rw (admitted_patterns-append key xs bs)
        (sym (append_assoc _ (admitted_patterns key xs) (admitted_patterns key bs)))
