-- ===== src/Base/Strings.antt =====
-- A Go string is its bytes. Equality of strings is a Boolean test with a reflecting lemma.
use Prim.Native.Nat.{ℕ, ◌+◌}
use Prim.Native.Char.{code}
use Prim.Native.String.{String}
use mathlib.Core.Path.{◌≡◌, refl}
use mathlib.Core.Logic.{◌↔◌}
use mathlib.Core.Bool.{Bool, true, false, ◌&&◌, ◌||◌}
use mathlib.Core.List.{List, [], ◌∷◌, ◌++◌}
use native.Mathlib.Omega.{arith}
use host_manager.Base.Tests.{◌==◌, if◌then◌else◌}

abbrev pub Bytes : Type 0
Bytes = List ℕ

-- The bytes of an ASCII literal.
abbrev pub text : String → Bytes
text String.[] = []
text (String.◌∷◌ c s) = code c ∷ text s

unfoldable pub beq : Bytes → Bytes → Bool
beq [] [] = true
beq (a ∷ s) (b ∷ t) = a == b && beq s t
beq _ _ = false

beq→eq : (s t : Bytes) → beq s t ≡ true → s ≡ t
unfolding beq
beq→eq [] [] h = refl
beq→eq [] (b ∷ t) h = ground arith
beq→eq (a ∷ s) [] h = ground arith
beq→eq (a ∷ s) (b ∷ t) h = ground (arith, beq→eq s t)

pub beq_self : (s : Bytes) → beq s s ≡ true
unfolding beq
beq_self [] = refl
beq_self (a ∷ s) = ground (arith, beq_self s)

eq→beq : (s t : Bytes) → s ≡ t → beq s t ≡ true
eq→beq s t e = ground (arith, beq_self s)

pub beq_iff : (s t : Bytes) → (beq s t ≡ true) ↔ (s ≡ t)
beq_iff s t = (beq→eq s t, eq→beq s t)

-- strings.HasPrefix
unfoldable pub has_prefix : Bytes → Bytes → Bool
has_prefix s [] = true
has_prefix [] (p ∷ ps) = false
has_prefix (c ∷ s) (p ∷ ps) = c == p && has_prefix s ps

-- Whether a byte stands in a string.
unfoldable pub has_byte : ℕ → Bytes → Bool
has_byte b [] = false
has_byte b (c ∷ s) = c == b || has_byte b s

-- strings.Contains
unfoldable pub has_infix : Bytes → Bytes → Bool
unfolding has_prefix
has_infix [] p = has_prefix [] p
has_infix (c ∷ s) p = has_prefix (c ∷ s) p || has_infix s p

-- A byte put in front of the first part.
abbrev pub join_front : ℕ → List Bytes → List Bytes
join_front c [] = (c ∷ []) ∷ []
join_front c (p ∷ ps) = (c ∷ p) ∷ ps

-- strings.Split on one byte
unfoldable pub split : ℕ → Bytes → List Bytes
split b [] = [] ∷ []
split b (c ∷ s) = let parts = split b s in if c == b then [] ∷ parts else join_front c parts

-- strings.TrimPrefix of one byte
abbrev pub trim_prefix : ℕ → Bytes → Bytes
trim_prefix b [] = []
trim_prefix b (c ∷ s) = if c == b then s else c ∷ s

-- strings.TrimSuffix of one byte
abbrev pub trim_suffix : ℕ → Bytes → Bytes
trim_suffix b [] = []
trim_suffix b (c ∷ []) = if c == b then [] else c ∷ []
trim_suffix b (c ∷ d ∷ s) = c ∷ trim_suffix b (d ∷ s)

-- How often a byte stands in a string.
unfoldable pub count : ℕ → Bytes → ℕ
count b [] = 0
count b (c ∷ s) = (if c == b then 1 else 0) + count b s

pub count-append : (b : ℕ) (s t : Bytes) → count b (s ++ t) ≡ count b s + count b t
unfolding count
count-append b [] t = omega arith
count-append b (c ∷ s) t = omega (arith, count-append b s t)

pub count-has_byte : (b : ℕ) (s : Bytes) → has_byte b s ≡ false → count b s ≡ 0
unfolding count has_byte
count-has_byte b [] h = refl
count-has_byte b (c ∷ s) h = ground (arith, count-has_byte b s)
