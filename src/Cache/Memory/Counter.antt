-- ===== src/Cache/Memory/Counter.antt =====
-- internal/cache/memory.go: DecrementIfPositive.
use host_manager.Base.{
  ℕ, ◌-◌, Bytes, Bool, true, false, Option, none, some, [], ◌∷◌, lookup, insert, beq, ◌==◌,
  if◌then◌else◌,
}
use host_manager.Cache.{Generation}
use host_manager.Cache.Lru.{Lru}
use host_manager.Cache.Decimal.{ℤ, pos, negsuc, parse_int, format_int}
use host_manager.Cache.Memory.State.{Segment, Segments, MemoryCache, expired, touch}

-- remaining, ok
pub record Decremented : Type 0 where
  pub remaining : ℤ
  pub ok : Bool

abbrev pub refused : Decremented
refused = record { remaining = negsuc 0; ok = false }

-- The positive case of a parsed counter: its predecessor.
unfoldable pub positive_pred : Option ℤ → Option ℕ
positive_pred none = none
positive_pred (some (negsuc n)) = none
positive_pred (some (pos n)) = if n == 0 then none else some (n - 1)

-- tryDecrementEntry; `none` where it reports handled=false.
unfoldable pub try_decrement_entry :
    ℕ → Segment → Bytes → Lru → Option (Segment × Lru × Decremented)
try_decrement_entry now seg key l = elim (lookup key seg) [
  | none ↦ none
  | some e ↦ if expired now e then none else elim (positive_pred (parse_int e.value)) [
    | none ↦ some (seg, l, refused)
    | some n ↦ some (
      insert key (record e { value = format_int n }) seg,
      touch e l,
      record { remaining = pos n; ok = true },
    )
  ]
]

unfoldable pub decrement_others :
    ℕ → Bytes → Generation → Segments → Lru → Segments × Lru × Decremented
decrement_others now key current [] l = ([], l, refused)
decrement_others now key current ((g, seg) ∷ segs) l =
    let rest = decrement_others now key current segs l in
    let next : Segments × Lru × Decremented = ((g, seg) ∷ rest.0, rest.1, rest.2) in
    if beq g current then next else elim (try_decrement_entry now seg key l) [
      | none ↦ next
      | some (seg', l', r) ↦ ((g, seg') ∷ segs, l', r)
    ]

-- DecrementIfPositive
unfoldable pub decrement_if_positive : ℕ → Bytes → MemoryCache → MemoryCache × Decremented
decrement_if_positive now key c =
    let others = decrement_others now key c.current c.segments c.lru in
    let fall_back : MemoryCache × Decremented =
      (record c { lru = others.1; segments = others.0 }, others.2) in
    elim (lookup c.current c.segments) [
      | none ↦ fall_back
      | some seg ↦ elim (try_decrement_entry now seg key c.lru) [
        | none ↦ fall_back
        | some (seg', l, r) ↦ (record c { lru = l; segments = insert c.current seg' c.segments }, r)
      ]
    ]
