-- ===== src/Host/ResourceNames/Listed.antt =====
-- What hostNativeNames of internal/host/resource_names.go lists.
use mathlib.Core.Logic.{Lift}
use host_manager.Base.{
  Bytes, text, beq, beq_iff, ◌≡◌, ◌≢◌, ◌↔◌, ◌⊎◌, refl, Bool, true, false, ◌&&◌, ◌||◌, Option, none,
  some, Option-cases, List, [], ◌∷◌, inl, inr, Bool-cases, contains, arith,
}
use host_manager.Host.ResourceNames.Native.{
  TreePage, FunctionEntry, Names, add_name, allows, is_page_visible, add_pages, is_function_visible,
  add_functions, host_native_names,
}
use host_manager.Host.ResourceNames.Collected.{
  names_of, IsProper, IsCollected, add_name-IsCollected, contains-add_name,
}

allows_yes : (o : Option Bool) → allows o ≡ true → o ≡ some true
allows_yes none h = absurd (ground (arith, h))
allows_yes (some b) h = rw (h) refl

module _ {ℓ} {R : Type ℓ} (verify : Bytes → Bytes → R → Option Bool) where
  -- A page with parsed requirements that the gate says yes to has the path.
  abbrev pub HasPage : List (TreePage R) → Bytes → Type ℓ
  HasPage [] b = Lift {0, ℓ} ⊥
  HasPage (p ∷ ps) b =
      ((p.base_path ≡ b)
        × ((r : R) × (p.parsed_requirements ≡ some r)
            × (verify (text "pages") p.base_path r ≡ some true)))
      ⊎ HasPage ps b

  -- A visible page has the path.
  unfoldable pub has_visible_page : List (TreePage R) → Bytes → Bool
  unfolding is_page_visible
  has_visible_page [] b = false
  has_visible_page (p ∷ ps) b =
      (is_page_visible verify p && beq p.base_path b) || has_visible_page ps b

  -- What the gate says, of a page
  gate_of :
      (p : TreePage R)
      → (r : R) → p.parsed_requirements ≡ some r
      → is_page_visible verify p ≡ allows (verify (text "pages") p.base_path r)
  unfolding is_page_visible
  gate_of p r h = rw (is_page_visible, h) refl

  gate_closed : (p : TreePage R) → p.parsed_requirements ≡ none → is_page_visible verify p ≡ false
  unfolding is_page_visible
  gate_closed p h = rw (is_page_visible, h) refl

  page_visible :
      (p : TreePage R)
      → is_page_visible verify p ≡ true
      → (r : R) × (p.parsed_requirements ≡ some r)
        × (verify (text "pages") p.base_path r ≡ some true)
  page_visible p h = elim (Option-cases p.parsed_requirements) [
    | inl n ↦ absurd (ground (arith, h, gate_closed p n))
    | inr (r, k) ↦ (r, k, allows_yes (verify (text "pages") p.base_path r) (rw (← gate_of p r k) h))
  ]

  has_visible_page-HasPage :
      (ps : List (TreePage R)) (b : Bytes) → has_visible_page ps b ≡ true → HasPage ps b
  unfolding has_visible_page
  has_visible_page-HasPage [] b h = absurd (ground (arith, h))
  has_visible_page-HasPage (p ∷ ps) b h =
      elim (Bool-cases (is_page_visible verify p && beq p.base_path b)) [
        | inl y ↦ inl ((beq_iff p.base_path b).0 (ground arith), page_visible p (ground arith))
        | inr n ↦ inr (has_visible_page-HasPage ps b (ground arith))
      ]

  HasPage-has_visible_page :
      (ps : List (TreePage R)) (b : Bytes) → HasPage ps b → has_visible_page ps b ≡ true
  unfolding has_visible_page
  HasPage-has_visible_page [] b h = absurd h.lower
  HasPage-has_visible_page (p ∷ ps) b (inl (same, (r, k, v))) =
      let passes = gate_of p r k in
      let passed : is_page_visible verify p ≡ true = rw (v) at passes in
      ground (arith, passed, (beq_iff p.base_path b).1 same)
  HasPage-has_visible_page (p ∷ ps) b (inr h) = ground (arith, HasPage-has_visible_page ps b h)

  add_pages-IsCollected :
      (ps : List (TreePage R)) (ns : Names) → IsCollected ns → IsCollected (add_pages verify ps ns)
  unfolding add_pages
  add_pages-IsCollected [] ns h = h
  add_pages-IsCollected (p ∷ ps) ns h = elim (Bool-cases (is_page_visible verify p)) [
    | inl y ↦ rw (y) (
        add_pages-IsCollected ps (add_name p.base_path p.label ns)
          (add_name-IsCollected p.base_path p.label ns h))
    | inr y ↦ rw (y) (add_pages-IsCollected ps ns h)
  ]

  contains-add_pages :
      (ps : List (TreePage R)) (ns : Names) (b : Bytes)
      → IsCollected ns
      → b ≢ []
      → contains (names_of (add_pages verify ps ns).out) b
        ≡ (contains (names_of ns.out) b || has_visible_page ps b)
  unfolding add_pages has_visible_page
  contains-add_pages [] ns b h n = ground arith
  contains-add_pages (p ∷ ps) ns b h n = elim (Bool-cases (is_page_visible verify p)) [
    | inl y ↦
        let next = add_name p.base_path p.label ns in
        rw (y) (
          ground (
            arith,
            contains-add_pages ps next b (add_name-IsCollected p.base_path p.label ns h) n,
            contains-add_name p.base_path p.label ns b h n,
          ))
    | inr y ↦ rw (y) (ground (arith, contains-add_pages ps ns b h n))
  ]

  module _ (nothing_required : R) (ready_state : Bytes) where
    -- A ready function that is not internal and that the gate says yes to has the path.
    abbrev pub HasFunction : List FunctionEntry → Bytes → Type 0
    HasFunction [] b = ⊥
    HasFunction (f ∷ fs) b =
        ((f.base_path ≡ b)
          × (f.internal ≡ false)
          × (f.state ≡ ready_state)
          × (verify (text "functions") f.base_path nothing_required ≡ some true))
        ⊎ HasFunction fs b

    -- A visible function has the path.
    unfoldable pub has_visible_function : List FunctionEntry → Bytes → Bool
    unfolding is_function_visible
    has_visible_function [] b = false
    has_visible_function (f ∷ fs) b =
        (is_function_visible verify nothing_required ready_state f && beq f.base_path b)
        || has_visible_function fs b

    has_visible_function-HasFunction :
        (fs : List FunctionEntry) (b : Bytes) → has_visible_function fs b ≡ true → HasFunction fs b
    unfolding has_visible_function is_function_visible
    has_visible_function-HasFunction [] b h = absurd (ground (arith, h))
    has_visible_function-HasFunction (f ∷ fs) b h =
        elim (Bool-cases
          (is_function_visible verify nothing_required ready_state f && beq f.base_path b)) [
            | inl y ↦ inl (
              (beq_iff f.base_path b).0 (ground arith),
              ground arith,
              (beq_iff f.state ready_state).0 (ground arith),
              allows_yes (verify (text "functions") f.base_path nothing_required) (ground arith),
            )
            | inr n ↦ inr (has_visible_function-HasFunction fs b (ground arith))
          ]

    HasFunction-has_visible_function :
        (fs : List FunctionEntry) (b : Bytes) → HasFunction fs b → has_visible_function fs b ≡ true
    unfolding has_visible_function is_function_visible
    HasFunction-has_visible_function [] b h = absurd h
    HasFunction-has_visible_function (f ∷ fs) b (inl (same, outer, ready, v)) =
        let passed : allows (verify (text "functions") f.base_path nothing_required) ≡ true =
          rw (v) refl in
        ground (
          arith,
          passed,
          outer,
          (beq_iff f.base_path b).1 same,
          (beq_iff f.state ready_state).1 ready,
        )
    HasFunction-has_visible_function (f ∷ fs) b (inr h) =
        ground (arith, HasFunction-has_visible_function fs b h)

    add_functions-IsCollected :
        (fs : List FunctionEntry) (ns : Names)
        → IsCollected ns
        → IsCollected (add_functions verify nothing_required ready_state fs ns)
    unfolding add_functions
    add_functions-IsCollected [] ns h = h
    add_functions-IsCollected (f ∷ fs) ns h =
        elim (Bool-cases (is_function_visible verify nothing_required ready_state f)) [
          | inl y ↦ rw (y) (
              add_functions-IsCollected fs (add_name f.base_path f.name ns)
                (add_name-IsCollected f.base_path f.name ns h))
          | inr y ↦ rw (y) (add_functions-IsCollected fs ns h)
        ]

    contains-add_functions :
        (fs : List FunctionEntry) (ns : Names) (b : Bytes)
        → IsCollected ns
        → b ≢ []
        → contains (names_of (add_functions verify nothing_required ready_state fs ns).out) b
          ≡ (contains (names_of ns.out) b || has_visible_function fs b)
    unfolding add_functions has_visible_function
    contains-add_functions [] ns b h n = ground arith
    contains-add_functions (f ∷ fs) ns b h n =
        elim (Bool-cases (is_function_visible verify nothing_required ready_state f)) [
          | inl y ↦
              let next = add_name f.base_path f.name ns in
              rw (y) (
                ground (
                  arith,
                  contains-add_functions fs next b (add_name-IsCollected f.base_path f.name ns h) n,
                  contains-add_name f.base_path f.name ns b h n,
                ))
          | inr y ↦ rw (y) (ground (arith, contains-add_functions fs ns b h n))
        ]

    empty-IsCollected : IsCollected (record { seen = []; out = [] })
    unfolding IsCollected
    empty-IsCollected = (refl, (tt, tt))

    -- Every listed name is listed once and is not empty.
    pub host_native_names-IsProper :
        (resource : Bytes) (pages : List (TreePage R)) (functions : List FunctionEntry)
        → IsProper (host_native_names verify nothing_required ready_state resource pages functions)
    unfolding host_native_names IsCollected
    host_native_names-IsProper resource pages functions =
        elim (Bool-cases (beq resource (text "pages"))) [
          | inl y ↦ rw (y) (add_pages-IsCollected pages _ empty-IsCollected).1
          | inr y ↦ rw (y) (elim (Bool-cases (beq resource (text "functions"))) [
            | inl z ↦ rw (z) (add_functions-IsCollected functions _ empty-IsCollected).1
            | inr z ↦ rw (z) (tt, tt)
          ])
        ]

    -- The names that the listing of a resource has
    abbrev pub listed : Bytes → List (TreePage R) → List FunctionEntry → List Bytes
    listed resource pages functions =
        names_of (host_native_names verify nothing_required ready_state resource pages functions)

    listed_pages :
        (pages : List (TreePage R)) (functions : List FunctionEntry) (b : Bytes)
        → b ≢ []
        → contains (listed (text "pages") pages functions) b ≡ has_visible_page pages b
    unfolding host_native_names beq
    listed_pages pages functions b n = contains-add_pages pages _ b empty-IsCollected n

    listed_functions :
        (pages : List (TreePage R)) (functions : List FunctionEntry) (b : Bytes)
        → b ≢ []
        → contains (listed (text "functions") pages functions) b ≡ has_visible_function functions b
    unfolding host_native_names beq
    listed_functions pages functions b n = contains-add_functions functions _ b empty-IsCollected n

    -- A path that is not empty is listed among the pages exactly if a page has that path and parsed requirements for which
    -- the caller's gate says yes, and among the functions exactly if a ready function that is not internal has that path
    -- and the gate says yes to it with nothing required. An error of the gate is not a yes.
    pub host_native_names-exact :
        (pages : List (TreePage R)) (functions : List FunctionEntry) (b : Bytes)
        → b ≢ []
        → ((contains (listed (text "pages") pages functions) b ≡ true) ↔ HasPage pages b)
          × ((contains (listed (text "functions") pages functions) b ≡ true)
              ↔ HasFunction functions b)
    host_native_names-exact pages functions b n = (
      (
        λ h. has_visible_page-HasPage pages b (rw (listed_pages pages functions b n) at h),
        λ h. rw (listed_pages pages functions b n) (HasPage-has_visible_page pages b h),
      ),
      (
        λ h.
            has_visible_function-HasFunction functions b
              (rw (listed_functions pages functions b n) at h),
        λ h.
            rw (listed_functions pages functions b n)
              (HasFunction-has_visible_function functions b h),
      ),
    )
