-- ===== src/Host/ResourceNames/Paging.antt =====
-- A client that follows the cursors of internal/host/resource_names.go from the first page to the last.
use mathlib.Core.List.{append_assoc}
use host_manager.Base.{
  ℕ, zero, suc, ◌<◌, Bytes, beq, beq_iff, beq_self, ◌≡◌, ◌≢◌, refl, sym, ◌∙◌, ap, false, Option,
  none, some, ◌⊎◌, List, [], ◌∷◌, ◌++◌, inl, inr, Bool-cases, All, All_at, All-select, select,
  length, length-append, ltb, if◌then◌else◌, arith,
}
use host_manager.Host.ResourceNames.{
  ResourceName, sort_names, matches, is_past, take_names, cut, last_name, decode_names_cursor,
  page_of, page_of_names,
}
use host_manager.Host.ResourceNames.Sorted.{
  Distinct, Distinct-select, Ascending, sort_names-Ascending, select-sort_names, All-sort_names,
  select_past,
}

last_name-append :
    (n : ResourceName) (ms : List ResourceName) (x : ResourceName) → last_name n (ms ++ x ∷ []) ≡ x
last_name-append n [] x = refl
last_name-append n (m ∷ ms) x = last_name-append m ms x

-- A prefix that is not empty ends in an item.
take_last :
    (k : ℕ) (ns : List ResourceName)
    → suc k < length ns
    → (ms : List ResourceName) × (x : ResourceName) × (rest : List ResourceName) × (ns
        ≡ ms ++ x ∷ rest)
      × (take_names (suc k) ns ≡ ms ++ x ∷ [])
take_last k [] h = absurd (omega arith)
take_last zero (n ∷ ns) h = ([], n, ns, refl, refl)
take_last (suc k) (n ∷ ns) h =
    let (ms, x, rest, e, t) = take_last k ns (omega arith) in
    (n ∷ ms, x, rest, ap (◌∷◌ n) e, ap (◌∷◌ n) t)

module _ (encode : ResourceName → Bytes) where
  cut-append :
      (ms : List ResourceName) (x : ResourceName)
      → cut encode (ms ++ x ∷ []) ≡ record { items = ms ++ x ∷ []; next = encode x }
  cut-append [] x = refl
  cut-append (m ∷ ms) x = rw (last_name-append m ms x) refl

  -- A page is all that is left, or a part of it and the cursor of its last item.
  page_of_cases :
      (k : ℕ) (ns : List ResourceName)
      → (page_of encode (suc k) ns ≡ record { items = ns; next = [] })
        ⊎ ((ms : List ResourceName) × (x : ResourceName) × (rest : List ResourceName) × (ns
              ≡ ms ++ x ∷ rest)
            × (page_of encode (suc k) ns ≡ record { items = ms ++ x ∷ []; next = encode x }))
  unfolding page_of
  page_of_cases k ns = elim (Bool-cases (ltb (suc k) (length ns))) [
    | inl more ↦
        let (ms, x, rest, e, t) = take_last k ns (ground arith) in
        inr (ms, x, rest, e, rw (more, t) (cut-append ms x))
    | inr done ↦ inl (rw (done) refl)
  ]

-- What the codec gives back for one name.
abbrev pub IsCarried :
    (ResourceName → Bytes) → (Bytes → Option ResourceName) → ResourceName → Type 0
IsCarried encode decode n = (encode n ≢ []) × (decode (encode n) ≡ some n) × (n.name ≢ [])

module _ (encode : ResourceName → Bytes) (decode : Bytes → Option ResourceName)
    (lower : Bytes → Bytes) where
  -- The items of all the pages from a cursor on; none means an invalid cursor, or that the fuel ran out.
  unfoldable pub walk_pages : ℕ → List ResourceName → Bytes → ℕ → Bytes → Option (List ResourceName)
  walk_pages zero all q limit cursor = none
  walk_pages (suc f) all q limit cursor =
      elim (page_of_names encode decode lower all q cursor limit) [
        | none ↦ none
        | some page ↦
            let later = walk_pages f all q limit page.next in
            if beq page.next []
            then some page.items
            else (elim later [ none ↦ none | some ns ↦ some (page.items ++ ns) ])
      ]

  nothing_past : (ns : List ResourceName) → select (is_past lower none) ns ≡ ns
  unfolding select is_past
  nothing_past [] = refl
  nothing_past (n ∷ ns) = ap (◌∷◌ n) (nothing_past ns)

  module _ (all : List ResourceName) (q : Bytes) (d : Distinct all)
      (c : All (IsCarried encode decode) all) where
    -- The page of a cursor is the cut of what is past it in the sorted list.
    page_past :
        (limit : ℕ) (cursor : Bytes) (past : Option ResourceName)
        → decode_names_cursor decode cursor ≡ some past
        → page_of_names encode decode lower all q cursor limit
          ≡ some (
              page_of encode limit
                (select (is_past lower past) (sort_names lower (select (matches lower q) all))))
    unfolding page_of_names
    page_past limit cursor past h =
        rw
          (
            page_of_names,
            h,
            select-sort_names lower (is_past lower past) (select (matches lower q) all)
                (Distinct-select (matches lower q) all d),
          )
          refl

    decode-encode :
        (x : ResourceName)
        → IsCarried encode decode x
        → decode_names_cursor decode (encode x) ≡ some (some x)
    unfolding decode_names_cursor
    decode-encode x (h, e, n) =
        let b : beq (encode x) [] ≡ false = ground (arith, beq_iff (encode x) [], h) in
        let m : beq x.name [] ≡ false = ground (arith, beq_iff x.name [], n) in rw (b, e, m) refl

    carried : All (IsCarried encode decode) (sort_names lower (select (matches lower q) all))
    carried =
        All-sort_names lower (IsCarried encode decode) (select (matches lower q) all)
          (All-select (IsCarried encode decode) (matches lower q) all c)

    ascending : Ascending lower (sort_names lower (select (matches lower q) all))
    ascending =
        sort_names-Ascending lower (select (matches lower q) all)
          (Distinct-select (matches lower q) all d)

    -- After the item x, what stands after x in the sorted list is left.
    resume :
        (ms : List ResourceName) (x : ResourceName) (rest : List ResourceName)
        → sort_names lower (select (matches lower q) all) ≡ ms ++ x ∷ rest
        → (decode_names_cursor decode (encode x) ≡ some (some x))
          × (encode x ≢ [])
          × (select (is_past lower (some x)) (sort_names lower (select (matches lower q) all))
              ≡ rest)
    resume ms x rest l =
        let held : IsCarried encode decode x =
          All_at (IsCarried encode decode) ms x rest (rw (l) at carried) in
        (decode-encode x held, held.0, rw (l) (select_past lower ms x rest (rw (l) at ascending)))

    walk_from :
        (f k : ℕ) (ms ns : List ResourceName) (cursor : Bytes) (past : Option ResourceName)
        → sort_names lower (select (matches lower q) all) ≡ ms ++ ns
        → decode_names_cursor decode cursor ≡ some past
        → select (is_past lower past) (sort_names lower (select (matches lower q) all)) ≡ ns
        → length ns < f
        → walk_pages f all q (suc k) cursor ≡ some ns
    unfolding walk_pages
    walk_from zero k ms ns cursor past l e s h = absurd (omega arith)
    walk_from (suc f) k ms ns cursor past l e s h = elim (page_of_cases encode k ns) [
      | inl whole ↦
          let here =
            page_past (suc k) cursor past e ∙ ap some (ap (page_of encode (suc k)) s ∙ whole) in
          rw (walk_pages, here, beq_self []) refl
      | inr (init, x, rest, cut_at, part) ↦
          let place = l ∙ ap (λ t. ms ++ t) cut_at ∙ sym (append_assoc ms init (x ∷ rest)) in
          let (decoded, opaque, left) = resume (ms ++ init) x rest place in
          let step : beq (encode x) [] ≡ false = ground (arith, beq_iff (encode x) [], opaque) in
          let fuel : length rest < f =
            omega (arith, ap length cut_at, length-append init (x ∷ rest)) in
          let regroup = append_assoc (ms ++ init) (x ∷ []) rest in
          let later =
            walk_from f k ((ms ++ init) ++ x ∷ []) rest (encode x) (some x) (place ∙ sym regroup)
              decoded left fuel in
          let here =
            page_past (suc k) cursor past e ∙ ap some (ap (page_of encode (suc k)) s ∙ part) in
          rw (walk_pages, here, step, later)
            (ap some (append_assoc init (x ∷ []) rest ∙ sym cut_at))
    ]

    -- Following the cursors ends, and gives every matching name once, in order.
    pub walk_pages-sort_names :
        (k f : ℕ)
        → length (sort_names lower (select (matches lower q) all)) < f
        → walk_pages f all q (suc k) [] ≡ some (sort_names lower (select (matches lower q) all))
    unfolding decode_names_cursor beq
    walk_pages-sort_names k f h =
        walk_from f k [] (sort_names lower (select (matches lower q) all)) [] none refl refl
          (nothing_past (sort_names lower (select (matches lower q) all))) h
