-- ===== src/Host/ResourceNames/Sorted.antt =====
-- What sorting by compareNames gives for names that differ.
use mathlib.Core.List.{Perm}
use mathlib.Core.List.Perm
use host_manager.Base.{
  All_at, some, Bytes, ◌≡◌, ◌≢◌, refl, Bool, true, false, List, [], ◌∷◌, ◌++◌, inl, inr, Bool-cases,
  All, All-select, weaken-All, select, select-All, if◌then◌else◌,
}
use host_manager.Host.ResourceNames.{
  ResourceName, before, is_after, compare_names, insert_name, sort_names, is_past,
}
use host_manager.Host.ResourceNames.Compare.{
  turned_after, compare_names-turned, compare_names-apart, compare_names_trans, compare_names_self,
}

-- No name stands twice.
abbrev pub Distinct : List ResourceName → Type 0
Distinct [] = Unit {0}
Distinct (n ∷ ns) = All (λ m. n.name ≢ m.name) ns × Distinct ns

pub Distinct-select :
    (p : ResourceName → Bool) (ns : List ResourceName) → Distinct ns → Distinct (select p ns)
unfolding select
Distinct-select p [] d = tt
Distinct-select p (n ∷ ns) (d, ds) = elim (Bool-cases (p n)) [
  | inl e ↦ rw (e) (All-select (λ m. n.name ≢ m.name) p ns d, Distinct-select p ns ds)
  | inr e ↦ rw (e) (Distinct-select p ns ds)
]

module _ (lower : Bytes → Bytes) where
  -- Each name stands before all that follow it.
  abbrev pub Ascending : List ResourceName → Type 0
  Ascending [] = Unit {0}
  Ascending (n ∷ ns) = All (λ m. compare_names lower n m ≡ before) ns × Ascending ns

  pub All-insert_name {κ} :
      (P : ResourceName → Type κ) (x : ResourceName) (ns : List ResourceName)
      → P x
      → All P ns
      → All P (insert_name lower x ns)
  unfolding insert_name
  All-insert_name P x [] h hs = (h, tt)
  All-insert_name P x (n ∷ ns) h (k, ks) = elim (Bool-cases (is_after (compare_names lower x n))) [
    | inl e ↦ rw (e) (k, All-insert_name P x ns h ks)
    | inr e ↦ rw (e) (h, (k, ks))
  ]

  pub All-sort_names {κ} :
      (P : ResourceName → Type κ) (ns : List ResourceName) → All P ns → All P (sort_names lower ns)
  unfolding sort_names
  All-sort_names P [] h = tt
  All-sort_names P (n ∷ ns) (h, hs) =
      All-insert_name P n (sort_names lower ns) h (All-sort_names P ns hs)

  after_turned :
      (a b : ResourceName)
      → is_after (compare_names lower a b) ≡ true
      → compare_names lower b a ≡ before
  after_turned a b h =
      rw (compare_names-turned lower a b) (turned_after (compare_names lower a b) h)

  insert_name-Ascending :
      (x : ResourceName) (ns : List ResourceName)
      → All (λ m. x.name ≢ m.name) ns
      → Ascending ns
      → Ascending (insert_name lower x ns)
  unfolding insert_name
  insert_name-Ascending x [] d s = (tt, tt)
  insert_name-Ascending x (n ∷ ns) (d, ds) (b, s) =
      elim (Bool-cases (is_after (compare_names lower x n))) [
        | inl e ↦ rw (e) (
          All-insert_name (λ m. compare_names lower n m ≡ before) x ns (after_turned x n e) b,
          insert_name-Ascending x ns ds s,
        )
        | inr e ↦
            let first = compare_names-apart lower x n d e in
            rw (e) (
              (first, weaken-All _ _ (λ m k. compare_names_trans lower x n m first k) ns b),
              (b, s),
            )
      ]

  -- The sorted list ascends strictly.
  pub sort_names-Ascending :
      (ns : List ResourceName) → Distinct ns → Ascending (sort_names lower ns)
  unfolding sort_names
  sort_names-Ascending [] d = tt
  sort_names-Ascending (n ∷ ns) (d, ds) =
      insert_name-Ascending n (sort_names lower ns) (All-sort_names (λ m. n.name ≢ m.name) ns d)
        (sort_names-Ascending ns ds)

  pub insert_name_first :
      (x : ResourceName) (ns : List ResourceName)
      → All (λ m. compare_names lower x m ≡ before) ns
      → insert_name lower x ns ≡ x ∷ ns
  unfolding insert_name
  insert_name_first x [] h = refl
  insert_name_first x (n ∷ ns) (h, hs) = rw (h) refl

  -- Inserting a name and then selecting.
  select-insert_name :
      (p : ResourceName → Bool) (x : ResourceName) (ns : List ResourceName)
      → All (λ m. x.name ≢ m.name) ns
      → Ascending ns
      → select p (insert_name lower x ns)
        ≡ (if p x then insert_name lower x (select p ns) else select p ns)
  unfolding select insert_name
  select-insert_name p x [] d s = refl
  select-insert_name p x (n ∷ ns) (d, ds) (b, s) =
      elim (Bool-cases (is_after (compare_names lower x n))) [
        | inl e ↦ elim (Bool-cases (p n)) [
          | inl k ↦
              rw (e, k, select-insert_name p x ns ds s, e)
                (elim (Bool-cases (p x)) [ inl y ↦ rw (y) refl | inr y ↦ rw (y) refl ])
          | inr k ↦ rw (e, k, select-insert_name p x ns ds s) refl
        ]
        | inr e ↦
            let first = compare_names-apart lower x n d e in
            let all =
              weaken-All _ (λ m. compare_names lower x m ≡ before)
                (λ m k. compare_names_trans lower x n m first k) ns b in
            let kept = All-select (λ m. compare_names lower x m ≡ before) p (n ∷ ns) (first, all) in
            rw (e, insert_name_first x (select p (n ∷ ns)) kept) refl
      ]

  -- Selecting commutes with sorting.
  pub select-sort_names :
      (p : ResourceName → Bool) (ns : List ResourceName)
      → Distinct ns
      → sort_names lower (select p ns) ≡ select p (sort_names lower ns)
  unfolding select sort_names
  select-sort_names p [] d = refl
  select-sort_names p (n ∷ ns) (d, ds) =
      rw
        (select-insert_name p n (sort_names lower ns) (All-sort_names (λ m. n.name ≢ m.name) ns d)
          (sort_names-Ascending ns ds))
        (elim (Bool-cases (p n)) [
          | inl e ↦ rw (e, select-sort_names p ns ds) refl
          | inr e ↦ rw (e, select-sort_names p ns ds) refl
        ])

  is_after_self : (x : ResourceName) → is_after (compare_names lower x x) ≡ false
  is_after_self x = rw (compare_names_self lower x) refl

  is_after_before :
      (x y : ResourceName)
      → compare_names lower x y ≡ before
      → is_after (compare_names lower x y) ≡ false
  is_after_before x y h = rw (h) refl

  is_after_turned :
      (x y : ResourceName)
      → compare_names lower x y ≡ before
      → is_after (compare_names lower y x) ≡ true
  is_after_turned x y h = rw (compare_names-turned lower x y, h) refl

  -- What stands after a name of an ascending list.
  pub select_past :
      (ms : List ResourceName) (x : ResourceName) (ns : List ResourceName)
      → Ascending (ms ++ x ∷ ns)
      → select (is_past lower (some x)) (ms ++ x ∷ ns) ≡ ns
  unfolding select is_past
  select_past [] x ns (b, s) = rw (is_after_self x) (
      select-All (is_past lower (some x)) ns
        (weaken-All _ (λ m. is_past lower (some x) m ≡ true) (λ m k. is_after_turned x m k) ns b))
  select_past (m ∷ ms) x ns (b, s) =
      rw (is_after_before m x (All_at (λ k. compare_names lower m k ≡ before) ms x ns b))
        (select_past ms x ns s)

  insert_name-perm :
      (x : ResourceName) (ns : List ResourceName) → Perm (insert_name lower x ns) (x ∷ ns)
  unfolding insert_name
  insert_name-perm x [] = Perm.rfl
  insert_name-perm x (n ∷ ns) = elim (Bool-cases (is_after (compare_names lower x n))) [
    | inl e ↦ rw (e) (Perm.trans (Perm.cons n (insert_name-perm x ns)) (Perm.swap x n ns))
    | inr e ↦ rw (e) Perm.rfl
  ]

  -- The sorted list is a rearrangement.
  pub sort_names-perm : (ns : List ResourceName) → Perm (sort_names lower ns) ns
  unfolding sort_names
  sort_names-perm [] = Perm.rfl
  sort_names-perm (n ∷ ns) =
      Perm.trans (insert_name-perm n (sort_names lower ns)) (Perm.cons n (sort_names-perm ns))
