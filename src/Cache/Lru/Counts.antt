-- ===== src/Cache/Lru/Counts.antt =====
-- How often an element, or a pointer, stands in a list of elements, and what the operations of the
-- recency list do to these counts.
use host_manager.Base.{
  ℕ, ◌+◌, ◌-◌, ◌≤◌, ◌<◌, Bytes, beq, beq_iff, ◌≡◌, Bool, true, false, ◌&&◌, none, some, List, [],
  ◌∷◌, ◌++◌, length, ◌==◌, if◌then◌else◌, arith,
}
use host_manager.Cache.Lru.{Element, without, find, last}

abbrev pub same : Element → Element → Bool
same a b = a.0 == b.0 && beq a.1 b.1

unfoldable pub count : Element → List Element → ℕ
count t [] = 0
count t (e ∷ l) = (if same e t then 1 else 0) + count t l

-- The occurrences of a pointer.
unfoldable pub uses : ℕ → List Element → ℕ
uses p [] = 0
uses p (e ∷ l) = (if e.0 == p then 1 else 0) + uses p l

pub count-append : (t : Element) (l m : List Element) → count t (l ++ m) ≡ count t l + count t m
unfolding count
count-append t [] m = omega arith
count-append t (e ∷ l) m = ground (arith, count-append t l m)

pub count-le-uses : (t : Element) (l : List Element) → count t l ≤ uses t.0 l
unfolding count uses
count-le-uses t [] = omega arith
count-le-uses t (e ∷ l) = ground (arith, count-le-uses t l)

-- Two elements that share a pointer and differ in their key are counted apart.
pub count_apart :
    (p : ℕ) (k j : Bytes) (l : List Element)
    → beq k j ≡ false
    → count (p, k) l + count (p, j) l ≤ uses p l
unfolding count uses
count_apart p k j [] h = omega arith
count_apart p k j ((q, i) ∷ l) h =
    ground (arith, count_apart p k j l h, beq_iff i k, beq_iff i j, beq_iff k j)

pub count-without :
    (p : ℕ) (t : Element) (l : List Element)
    → count t (without p l) ≡ (if t.0 == p then 0 else count t l)
unfolding count without
count-without p t [] = ground arith
count-without p t ((q, key) ∷ l) = ground (arith, count-without p t l)

pub uses-without :
    (p q : ℕ) (l : List Element) → uses q (without p l) ≡ (if q == p then 0 else uses q l)
unfolding uses without
uses-without p q [] = ground arith
uses-without p q ((r, key) ∷ l) = ground (arith, uses-without p q l)

pub length-without-le : (p : ℕ) (l : List Element) → length (without p l) ≤ length l
unfolding without
length-without-le p [] = omega arith
length-without-le p ((q, key) ∷ l) = ground (arith, length-without-le p l)

pub length-without-lt : (p : ℕ) (l : List Element) → 0 < uses p l → length (without p l) < length l
unfolding without uses
length-without-lt p [] h = absurd (omega arith)
length-without-lt p ((q, key) ∷ l) h = ground (arith, length-without-le p l, length-without-lt p l)

pub find-pointer :
    (p : ℕ) (l : List Element) (e : Element) → find p l ≡ some e → (e.0 ≡ p) × (0 < count e l)
unfolding find count
find-pointer p [] e h = absurd (ground arith)
find-pointer p ((q, key) ∷ l) (r, k) h = ground (arith, find-pointer p l (r, k), beq_iff key k)

pub last-count : (l : List Element) (e : Element) → last l ≡ some e → 0 < count e l
unfolding last count
last-count [] e h = absurd (ground arith)
last-count ((q, key) ∷ []) (r, k) h = ground (arith, beq_iff key k)
last-count (d ∷ f ∷ l) e h = ground (arith, last-count (f ∷ l) e h)

last-ne-none : (e : Element) (l : List Element) → last (e ∷ l) ≡ none → ⊥
unfolding last
last-ne-none e [] h = ground arith
last-ne-none e (f ∷ l) h = last-ne-none f l h

pub last-none : (l : List Element) → last l ≡ none → length l ≡ 0
last-none [] h = omega arith
last-none (e ∷ l) h = absurd (last-ne-none e l h)

-- A list is no longer than one that holds each of its elements at least as often.
drop_one : Element → List Element → List Element
drop_one t [] = []
drop_one t (e ∷ l) = let rest = drop_one t l in if same e t then l else e ∷ rest

count-drop_one :
    (t s : Element) (l : List Element)
    → count s (drop_one t l) ≡ count s l - (if same t s then 1 else 0)
unfolding count drop_one
count-drop_one t s [] = omega arith
count-drop_one (p, k) (q, j) ((r, i) ∷ l) =
    ground (arith, count-drop_one (p, k) (q, j) l, beq_iff i k, beq_iff i j, beq_iff k j)

length-drop_one :
    (t : Element) (l : List Element) → 0 < count t l → length (drop_one t l) + 1 ≡ length l
unfolding count drop_one
length-drop_one t [] h = absurd (omega arith)
length-drop_one t (e ∷ l) h = ground (arith, length-drop_one t l)

pub same_self : (t : Element) → same t t ≡ true
same_self (p, k) = ground (arith, beq_iff k k)

pub length-le_of_count :
    (l m : List Element) → ((t : Element) → count t l ≤ count t m) → length l ≤ length m
unfolding count
length-le_of_count [] m h = omega arith
length-le_of_count (e ∷ l) m h =
    let here : 0 < count e m = ground (arith, h e, same_self e) in
    let rest : length l ≤ length (drop_one e m) =
      length-le_of_count l (drop_one e m) (λ t. ground (arith, h t, count-drop_one e t m)) in
    omega (arith, rest, length-drop_one e m here)
