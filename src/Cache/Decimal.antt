-- ===== src/Cache/Decimal.antt =====
-- strconv.ParseInt(s, 10, 64) and strconv.FormatInt(n, 10) for n at least 0, as
-- internal/cache/memory.go uses them on the entries of a use counter.
use native.Mathlib.Nat.{pow-suc}
use host_manager.Base.{
  ℕ, zero, suc, ◌+◌, ◌-◌, ◌*◌, ◌/◌, ◌%◌, ◌^◌, ◌<◌, Bytes, ◌≡◌, Bool, ◌&&◌, Option, none, some, [],
  ◌∷◌, inl, inr, ◌∙◌, ◌≤◌, Bool-cases, ltb, leb, ◌==◌, if◌then◌else◌, arith,
}

-- `negsuc n` is -(n + 1).
pub data ℤ : Type 0 where
  pos : ℕ → ℤ
  negsuc : ℕ → ℤ

abbrev neg : ℕ → ℤ
neg zero = pos 0
neg (suc n) = negsuc n

abbrev is_digit : ℕ → Bool
is_digit c = leb b'0' c && leb c b'9'

-- The value of the digits, after those that make up `n`.
digits_value : ℕ → Bytes → Option ℕ
digits_value n [] = some n
digits_value n (c ∷ s) =
    let rest = digits_value (n * 10 + (c - 48)) s in if is_digit c then rest else none

-- At least one digit.
unsigned : Bytes → Option ℕ
unfolding digits_value
unsigned [] = none
unsigned (c ∷ s) = digits_value 0 (c ∷ s)

-- int64 range
bound_pos : Option ℕ → Option ℤ
bound_pos none = none
bound_pos (some n) = if ltb n (2 ^ 63) then some (pos n) else none

bound_neg : Option ℕ → Option ℤ
bound_neg none = none
bound_neg (some n) = if leb n (2 ^ 63) then some (neg n) else none

unfoldable pub parse_int : Bytes → Option ℤ
unfolding unsigned bound_pos bound_neg
parse_int [] = none
parse_int (c ∷ s) =
    if c == b'+'
    then bound_pos (unsigned s)
    else if c == b'-'
    then bound_neg (unsigned s)
    else bound_pos (unsigned (c ∷ s))

format_digits : ℕ → ℕ → Bytes → Bytes
format_digits zero n out = out
format_digits (suc f) n out =
    let more = format_digits f (n / 10) ((48 + n % 10) ∷ out) in
    if ltb n 10 then (48 + n) ∷ out else more

-- Twenty digits are more than an int64 has.
unfoldable pub format_int : ℕ → Bytes
unfolding format_digits
format_int n = format_digits 20 n []

digits_value-format_digits :
    (f n : ℕ) (out : Bytes)
    → n < 10 ^ f
    → digits_value 0 (format_digits f n out) ≡ digits_value n out
unfolding digits_value format_digits
digits_value-format_digits zero n out h = let e : n ≡ 0 = omega arith in rw e
digits_value-format_digits (suc f) n out h = elim (Bool-cases (ltb n 10)) [
  | inl one ↦ rw one (ground arith)
  | inr more ↦
      let bound : 10 ^ suc f ≡ 10 ^ f * 10 = pow-suc 10 f in
      rw more
        (digits_value-format_digits f (n / 10) ((48 + n % 10) ∷ out) (omega arith) ∙ ground arith)
]

-- The text of a number is not empty, and its first byte is no sign.
abbrev StartsWithDigit : Bytes → Type 0
StartsWithDigit [] = ⊥
StartsWithDigit (c ∷ s) = b'0' ≤ c

format_digits-StartsWithDigit :
    (f n c : ℕ) (out : Bytes) → b'0' ≤ c → StartsWithDigit (format_digits f n (c ∷ out))
unfolding format_digits
format_digits-StartsWithDigit zero n c out h = h
format_digits-StartsWithDigit (suc f) n c out h = elim (Bool-cases (ltb n 10)) [
  | inl one ↦ rw one (omega arith)
  | inr more ↦
      rw more (format_digits-StartsWithDigit f (n / 10) (48 + n % 10) (c ∷ out) (omega arith))
]

format_int-StartsWithDigit : (n : ℕ) → StartsWithDigit (format_int n)
unfolding format_int
format_int-StartsWithDigit n = elim (Bool-cases (ltb n 10)) [
  | inl one ↦ rw one (omega arith)
  | inr more ↦ rw more (format_digits-StartsWithDigit 19 (n / 10) (48 + n % 10) [] (omega arith))
]

parse_int_digits :
    (s : Bytes) (n : ℕ)
    → StartsWithDigit s
    → digits_value 0 s ≡ some n
    → n < 2 ^ 63
    → parse_int s ≡ some (pos n)
unfolding parse_int
parse_int_digits [] n d v h = absurd d
parse_int_digits (c ∷ s) n d v h = ground arith

-- What FormatInt writes, ParseInt reads back.
pub parse_int-format_int : (n : ℕ) → n < 2 ^ 63 → parse_int (format_int n) ≡ some (pos n)
unfolding format_int digits_value
parse_int-format_int n h =
    parse_int_digits (format_int n) n (format_int-StartsWithDigit n)
      (digits_value-format_digits 20 n [] (omega arith)) h
