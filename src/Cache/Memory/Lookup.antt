-- ===== src/Cache/Memory/Lookup.antt =====
-- internal/cache/memory.go: lookupLocked, and with it Get and GetAndDelete.
use host_manager.Base.{
  ℕ, Bytes, Bool, true, false, none, some, [], ◌∷◌, lookup, insert, delete, beq, if◌then◌else◌,
}
use host_manager.Cache.{Generation}
use host_manager.Cache.Lru.{Lru}
use host_manager.Cache.Memory.State.{Entry, Segment, Segments, MemoryCache, expired, detach, touch}

-- value, exists, isCurrent
pub record Found : Type 0 where
  pub value : Bytes
  pub exists : Bool
  pub is_current : Bool

abbrev pub not_found : Found
not_found = record { value = []; exists = false; is_current = true }

-- What lookupLocked does with an entry that it found in a segment.
unfoldable pub visit : ℕ → Bool → Bool → Bytes → Entry → Segment → Lru → Segment × Lru × Found
visit now evict is_current key e seg l =
    if expired now e
    then (seg, l, not_found)
    else if evict
    then (
      delete key seg,
      detach e l,
      record { value = e.value; exists = true; is_current = is_current },
    )
    else (seg, touch e l, record { value = e.value; exists = true; is_current = is_current })

-- The second half of lookupLocked: the other generations, in the order of the map.
unfoldable pub visit_others :
    ℕ → Bool → Bytes → Generation → Segments → Lru → Segments × Lru × Found
visit_others now evict key current [] l = ([], l, not_found)
visit_others now evict key current ((g, seg) ∷ segs) l =
    let rest = visit_others now evict key current segs l in
    let next : Segments × Lru × Found = ((g, seg) ∷ rest.0, rest.1, rest.2) in
    if beq g current then next else elim (lookup key seg) [
      | none ↦ next
      | some e ↦ let (seg', l', r) = visit now evict false key e seg l in ((g, seg') ∷ segs, l', r)
    ]

-- The two halves of lookupLocked; the current generation's entry, expired or not, ends the search.
unfoldable pub lookup_locked : ℕ → Bytes → Bool → MemoryCache → MemoryCache × Found
lookup_locked now key evict c =
    let others = visit_others now evict key c.current c.segments c.lru in
    let fall_back : MemoryCache × Found =
      (record c { lru = others.1; segments = others.0 }, others.2) in
    elim (lookup c.current c.segments) [
      | none ↦ fall_back
      | some seg ↦ elim (lookup key seg) [
        | none ↦ fall_back
        | some e ↦
            let (seg', l, r) = visit now evict true key e seg c.lru in
            (record c { lru = l; segments = insert c.current seg' c.segments }, r)
      ]
    ]

abbrev pub get : ℕ → Bytes → MemoryCache → MemoryCache × Found
get now key = lookup_locked now key false

abbrev pub get_and_delete : ℕ → Bytes → MemoryCache → MemoryCache × Found
get_and_delete now key = lookup_locked now key true
