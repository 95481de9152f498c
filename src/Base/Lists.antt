-- ===== src/Base/Lists.antt =====
-- Lists measured by native numbers, and membership of a string in a list of strings.
use Prim.Native.Nat.{ℕ, suc, ◌+◌}
use mathlib.Core.Path.{◌≡◌, refl}
use mathlib.Core.Logic.{inl, inr}
use mathlib.Core.Bool.{Bool, true, false, ◌||◌}
use mathlib.Core.List.{List, [], ◌∷◌, ◌++◌}
use native.Mathlib.Omega.{arith}
use host_manager.Base.Tests.{if◌then◌else◌, Bool-cases}
use host_manager.Base.Strings.{Bytes, beq}

module _ {ℓ} {A : Type ℓ} where
  abbrev pub length : List A → ℕ
  length [] = 0
  length (x ∷ xs) = suc (length xs)

  pub length-append : (xs ys : List A) → length (xs ++ ys) ≡ length xs + length ys
  length-append [] ys = omega arith
  length-append (x ∷ xs) ys = omega (arith, length-append xs ys)

-- slices.Contains over strings
abbrev pub contains : List Bytes → Bytes → Bool
contains [] x = false
contains (y ∷ ys) x = beq y x || contains ys x

-- The elements that pass a test, in order.
unfoldable pub select {ℓ} : {A : Type ℓ} → (A → Bool) → List A → List A
select p [] = []
select p (x ∷ xs) = let rest = select p xs in if p x then x ∷ rest else rest

-- Every element has a property.
abbrev pub All {ℓ κ} : {A : Type ℓ} → (A → Type κ) → List A → Type κ
All P [] = Unit {κ}
All P (x ∷ xs) = P x × All P xs

module _ {ℓ κ} {A : Type ℓ} (P : A → Type κ) where
  pub All-select : (p : A → Bool) (xs : List A) → All P xs → All P (select p xs)
  unfolding select
  All-select p [] h = tt
  All-select p (x ∷ xs) (h, hs) = elim (Bool-cases (p x)) [
    | inl e ↦ rw (e) (h, All-select p xs hs)
    | inr n ↦ rw (n) (All-select p xs hs)
  ]

  pub All_at : (xs : List A) (x : A) (ys : List A) → All P (xs ++ x ∷ ys) → P x
  All_at [] x ys (h, hs) = h
  All_at (y ∷ xs) x ys (h, hs) = All_at xs x ys hs

  pub weaken-All {μ} :
      (Q : A → Type μ) (f : (x : A) → P x → Q x) (xs : List A) → All P xs → All Q xs
  weaken-All Q f [] h = tt
  weaken-All Q f (x ∷ xs) (h, hs) = (f x h, weaken-All Q f xs hs)

module _ {ℓ} {A : Type ℓ} (p : A → Bool) where
  pub select-All : (xs : List A) → All (λ x. p x ≡ true) xs → select p xs ≡ xs
  unfolding select
  select-All [] h = refl
  select-All (x ∷ xs) (h, hs) = rw (h, select-All xs hs) refl

  pub select_nothing : (xs : List A) → All (λ x. p x ≡ false) xs → select p xs ≡ []
  unfolding select
  select_nothing [] h = refl
  select_nothing (x ∷ xs) (h, hs) = rw (h, select_nothing xs hs) refl

  pub select-append : (xs ys : List A) → select p (xs ++ ys) ≡ select p xs ++ select p ys
  unfolding select
  select-append [] ys = refl
  select-append (x ∷ xs) ys = ground (arith, select-append xs ys)
