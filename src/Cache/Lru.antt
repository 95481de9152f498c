-- ===== src/Cache/Lru.antt =====
-- The recency list of internal/cache/memory.go, Go's container/list at element values that are keys.
-- An element pointer is a number: 0 is nil, and a fresh number stands for each allocated element.
pub mod Counts
pub mod Cover
use host_manager.Base.{
  ℕ, suc, ◌+◌, Bytes, Bool, true, false, Option, none, some, List, [], ◌∷◌, length, ◌==◌,
  if◌then◌else◌,
}

-- An element: its pointer and its Value.
abbrev pub Element : Type 0
Element = ℕ × Bytes

-- Front first.
pub record Lru : Type 0 where
  pub elements : List Element
  pub fresh : ℕ

-- list.New()
abbrev pub new : Lru
new = record { elements = []; fresh = 1 }

unfoldable pub without : ℕ → List Element → List Element
without p [] = []
without p ((q, key) ∷ l) = let rest = without p l in if q == p then rest else (q, key) ∷ rest

unfoldable pub find : ℕ → List Element → Option Element
find p [] = none
find p ((q, key) ∷ l) = if q == p then some (q, key) else find p l

-- l.Remove(element): an element that is no longer in the list is left alone.
unfoldable pub remove : ℕ → Lru → Lru
remove p l = record l { elements = without p l.elements }

-- l.MoveToFront(element)
unfoldable pub move_to_front : ℕ → Lru → Lru
move_to_front p l = elim (find p l.elements) [
  | none ↦ l
  | some e ↦ record l { elements = e ∷ without p l.elements }
]

-- l.PushFront(key): the list, and the pointer of the new element.
unfoldable pub push_front : Bytes → Lru → Lru × ℕ
push_front key l = (record { elements = (l.fresh, key) ∷ l.elements; fresh = l.fresh + 1 }, l.fresh)

unfoldable pub last : List Element → Option Element
last [] = none
last (e ∷ []) = some e
last (e ∷ f ∷ l) = last (f ∷ l)

-- l.Back()
unfoldable pub back : Lru → Option Element
unfolding last
back l = last l.elements

-- l.Len()
abbrev pub len : Lru → ℕ
len l = length l.elements
