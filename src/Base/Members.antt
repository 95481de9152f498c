-- ===== src/Base/Members.antt =====
-- Membership in joined lists, and splitting a string that is joined on a byte.
use Prim.Native.Nat.{ℕ}
use mathlib.Core.Path.{◌≡◌, refl}
use mathlib.Core.Logic.{◌⊎◌, inl, inr}
use mathlib.Core.Bool.{true, false, ◌||◌}
use mathlib.Core.List.{List, [], ◌∷◌, ◌++◌}
use native.Mathlib.Omega.{arith}
use host_manager.Base.Tests.{Bool-cases, ◌==◌}
use host_manager.Base.Strings.{Bytes, has_byte, split}
use host_manager.Base.Lists.{contains}

pub contains-append :
    (xs ys : List Bytes) (x : Bytes) → contains (xs ++ ys) x ≡ (contains xs x || contains ys x)
contains-append [] ys x = refl
contains-append (y ∷ xs) ys x = ground (arith, contains-append xs ys x)

pub contains_either :
    (xs ys : List Bytes) (x : Bytes)
    → contains (xs ++ ys) x ≡ true
    → (contains xs x ≡ true) ⊎ (contains ys x ≡ true)
contains_either xs ys x h = elim (Bool-cases (contains xs x)) [
  | inl e ↦ inl e
  | inr n ↦ inr (ground (arith, contains-append xs ys x))
]

pub split_single : (b : ℕ) (s : Bytes) → has_byte b s ≡ false → split b s ≡ s ∷ []
unfolding split has_byte
split_single b [] h = refl
split_single b (c ∷ s) h =
    let e : (c == b) ≡ false = ground arith in
    let rest : has_byte b s ≡ false = ground arith in rw (e, split_single b s rest) refl

pub split-append :
    (b : ℕ) (s t : Bytes) → has_byte b s ≡ false → split b (s ++ b ∷ t) ≡ s ∷ split b t
unfolding split has_byte
split-append b [] t h = let e : (b == b) ≡ true = ground arith in rw (e) refl
split-append b (c ∷ s) t h =
    let e : (c == b) ≡ false = ground arith in
    let rest : has_byte b s ≡ false = ground arith in rw (e, split-append b s t rest) refl

-- A split has a part.
pub split_cons : (b : ℕ) (s : Bytes) → (p : Bytes) × (ps : List Bytes) × (split b s ≡ p ∷ ps)
unfolding split
split_cons b [] = ([], [], refl)
split_cons b (c ∷ s) =
    let (p, ps, e) = split_cons b s in
    elim (Bool-cases (c == b)) [
      | inl y ↦ ([], split b s, rw (y) refl)
      | inr n ↦ (c ∷ p, ps, rw (n, e) refl)
    ]
