-- ===== src/Host/ResourceNames/Compare.antt =====
-- The order of resource names is strict and total: compareNames.
use host_manager.Base.{sym, ◌⊎◌, inl, inr, ◌≢◌, Bytes, ◌≡◌, refl, true, false, [], ◌∷◌, arith}
use host_manager.Host.ResourceNames.{
  ResourceName, Comparison, before, same, after, or_else, is_after, compare, sort_key,
  compare_names,
}

abbrev pub turned : Comparison → Comparison
turned before = after
turned same = same
turned after = before

pub turned_after : (c : Comparison) → is_after c ≡ true → turned c ≡ before
turned_after before h = absurd (ground (arith, h))
turned_after same h = absurd (ground (arith, h))
turned_after after h = refl

compare-turned : (s t : Bytes) → compare t s ≡ turned (compare s t)
unfolding compare
compare-turned [] [] = refl
compare-turned [] (b ∷ t) = refl
compare-turned (a ∷ s) [] = refl
compare-turned (a ∷ s) (b ∷ t) = ground (arith, compare-turned s t)

compare-same : (s t : Bytes) → compare s t ≡ same → s ≡ t
unfolding compare
compare-same [] [] h = refl
compare-same [] (b ∷ t) h = ground arith
compare-same (a ∷ s) [] h = ground arith
compare-same (a ∷ s) (b ∷ t) h = ground (arith, compare-same s t)

compare_self : (s : Bytes) → compare s s ≡ same
unfolding compare
compare_self [] = refl
compare_self (a ∷ s) = ground (arith, compare_self s)

compare_trans : (s t u : Bytes) → compare s t ≡ before → compare t u ≡ before → compare s u ≡ before
unfolding compare
compare_trans [] [] u h k = ground arith
compare_trans [] (b ∷ t) [] h k = ground arith
compare_trans [] (b ∷ t) (c ∷ u) h k = refl
compare_trans (a ∷ s) [] u h k = ground arith
compare_trans (a ∷ s) (b ∷ t) [] h k = ground arith
compare_trans (a ∷ s) (b ∷ t) (c ∷ u) h k = ground (arith, compare_trans s t u)

or_else-turned : (c d : Comparison) → or_else (turned c) (turned d) ≡ turned (or_else c d)
or_else-turned before d = refl
or_else-turned same d = refl
or_else-turned after d = refl

or_else-same : (c d : Comparison) → or_else c d ≡ same → d ≡ same
or_else-same before d h = ground (arith, h)
or_else-same same d h = h
or_else-same after d h = ground (arith, h)

cases : (c : Comparison) → (c ≡ before) ⊎ (c ≡ same) ⊎ (c ≡ after)
cases before = inl refl
cases same = inr (inl refl)
cases after = inr (inr refl)

-- The lexicographic product of two transitive orders is transitive.
or_else_trans :
    (k l m s t u : Bytes)
    → or_else (compare k l) (compare s t) ≡ before
    → or_else (compare l m) (compare t u) ≡ before
    → or_else (compare k m) (compare s u) ≡ before
or_else_trans k l m s t u h i = elim (cases (compare k l)) [
  | inl e ↦ elim (cases (compare l m)) [
    | inl f ↦ rw (compare_trans k l m e f) refl
    | inr (inl f) ↦ let same_key = compare-same l m f in rw (sym same_key, e) refl
    | inr (inr f) ↦ absurd (ground (arith, i, f))
  ]
  | inr (inl e) ↦
      let same_key = compare-same k l e in
      let rest : compare s t ≡ before = rw (e) at h in
      elim (cases (compare l m)) [
        | inl f ↦ rw (same_key, f) refl
        | inr (inl f) ↦
            let next : compare t u ≡ before = rw (f) at i in
            rw (same_key, f) (compare_trans s t u rest next)
        | inr (inr f) ↦ absurd (ground (arith, i, f))
      ]
  | inr (inr e) ↦ absurd (ground (arith, h, e))
]

module _ (lower : Bytes → Bytes) where
  pub compare_names-turned :
      (a b : ResourceName) → compare_names lower b a ≡ turned (compare_names lower a b)
  unfolding compare_names
  compare_names-turned a b =
      let k = compare-turned (sort_key lower a) (sort_key lower b) in
      rw (k, compare-turned a.name b.name)
        (or_else-turned (compare (sort_key lower a) (sort_key lower b)) (compare a.name b.name))

  pub compare_names-apart :
      (a b : ResourceName)
      → a.name ≢ b.name
      → is_after (compare_names lower a b) ≡ false
      → compare_names lower a b ≡ before
  unfolding compare_names
  compare_names-apart a b n h = elim (cases (compare_names lower a b)) [
    | inl e ↦ e
    | inr (inl e) ↦ absurd (
        n (
          compare-same a.name b.name (
            or_else-same (compare (sort_key lower a) (sort_key lower b)) (compare a.name b.name)
              e)))
    | inr (inr e) ↦ absurd (ground (arith, h, e))
  ]

  pub compare_names_trans :
      (a b c : ResourceName)
      → compare_names lower a b ≡ before
      → compare_names lower b c ≡ before
      → compare_names lower a c ≡ before
  unfolding compare_names
  compare_names_trans a b c =
      or_else_trans (sort_key lower a) (sort_key lower b) (sort_key lower c) a.name b.name c.name

  pub compare_names_self : (a : ResourceName) → compare_names lower a a ≡ same
  unfolding compare_names
  compare_names_self a = rw (compare_self (sort_key lower a), compare_self a.name) refl
