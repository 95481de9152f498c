-- ===== src/Cache/Memory/View.antt =====
-- What a reader sees of a cache: the current generation's entry, or else the first of another
-- generation. The results of the operations in these terms.
use host_manager.Base.{
  ℕ, Bytes, beq, beq_self, ◌≡◌, refl, Bool, true, false, Option, none, some, [], ◌∷◌, lookup,
  insert, lookup-insert, inl, inr, if◌then◌else◌, arith, Bool-cases, Option-cases,
}
use host_manager.Cache.{Generation}
use host_manager.Cache.Lru.{Lru}
use host_manager.Cache.Memory.State.{Entry, Segment, Segments, MemoryCache, expired, segment_of}
use host_manager.Cache.Memory.Lookup.{Found, not_found, visit, visit_others, lookup_locked}

-- The current generation's entry under a key.
abbrev pub entry_of : Bytes → MemoryCache → Option Entry
entry_of k c = lookup k (segment_of c.current c.segments)

-- The first entry under a key in a generation that is not current.
unfoldable pub entry_elsewhere : Bytes → Generation → Segments → Option Entry
entry_elsewhere k g [] = none
entry_elsewhere k g ((h, seg) ∷ segs) =
    let rest = entry_elsewhere k g segs in
    if beq h g then rest else elim (lookup k seg) [ none ↦ rest | some e ↦ some e ]

abbrev pub shown : ℕ → Bool → Option Entry → Found
shown now is_current none = not_found
shown now is_current (some e) =
    if expired now e
    then not_found
    else record { value = e.value; exists = true; is_current = is_current }

-- The current entry decides, expired or not; where there is none, another generation's.
abbrev pub seen : ℕ → Option Entry → Option Entry → Found
seen now (some e) other = shown now true (some e)
seen now none other = shown now false other

visit-shown :
    (now : ℕ) (evict is_current : Bool) (k : Bytes) (e : Entry) (seg : Segment) (l : Lru)
    → (visit now evict is_current k e seg l).2 ≡ shown now is_current (some e)
unfolding visit
visit-shown now evict is_current k e seg l = ground arith

visit_others-shown :
    (now : ℕ) (evict : Bool) (k : Bytes) (g : Generation) (segs : Segments) (l : Lru)
    → (visit_others now evict k g segs l).2 ≡ shown now false (entry_elsewhere k g segs)
unfolding visit_others entry_elsewhere
visit_others-shown now evict k g [] l = refl
visit_others-shown now evict k g ((h, seg) ∷ segs) l = elim (Bool-cases (beq h g)) [
  | inl e ↦ rw e (visit_others-shown now evict k g segs l)
  | inr e ↦ elim (Option-cases (lookup k seg)) [
    | inl m ↦ rw (e, m) (visit_others-shown now evict k g segs l)
    | inr (d, m) ↦ rw (e, m) (visit-shown now evict false k d seg l)
  ]
]

pub segment_of-none :
    (g : Generation) (segs : Segments) → lookup g segs ≡ none → segment_of g segs ≡ []
unfolding segment_of
segment_of-none g segs h = rw (h, segment_of)

pub segment_of-some :
    (g : Generation) (segs : Segments) (seg : Segment)
    → lookup g segs ≡ some seg
    → segment_of g segs ≡ seg
unfolding segment_of
segment_of-some g segs seg h = rw (h, segment_of)

pub segment_of-insert :
    (g h : Generation) (seg : Segment) (segs : Segments)
    → segment_of h (insert g seg segs) ≡ (if beq g h then seg else segment_of h segs)
unfolding segment_of
segment_of-insert g h seg segs = ground (arith, lookup-insert g h seg segs)

pub elsewhere-insert :
    (k : Bytes) (g : Generation) (seg : Segment) (segs : Segments)
    → entry_elsewhere k g (insert g seg segs) ≡ entry_elsewhere k g segs
unfolding entry_elsewhere insert
elsewhere-insert k g seg [] = rw (beq_self g)
elsewhere-insert k g seg ((h, s) ∷ segs) = ground (arith, beq_self g, elsewhere-insert k g seg segs)

-- What Get and GetAndDelete return.
pub lookup_locked-seen :
    (now : ℕ) (k : Bytes) (evict : Bool) (c : MemoryCache)
    → (lookup_locked now k evict c).1
      ≡ seen now (entry_of k c) (entry_elsewhere k c.current c.segments)
unfolding lookup_locked
lookup_locked-seen now k evict c =
    let others = visit_others-shown now evict k c.current c.segments c.lru in
    elim (Option-cases (lookup c.current c.segments)) [
      | inl m ↦
          rw (m, lookup_locked, segment_of-none c.current c.segments m) (unfold lookup in others)
      | inr (seg, m) ↦
          rw (segment_of-some c.current c.segments seg m) (elim (Option-cases (lookup k seg)) [
            | inl n ↦ rw (m, n, lookup_locked) others
            | inr (e, n) ↦ rw (m, n, lookup_locked) (visit-shown now evict true k e seg c.lru)
          ])
    ]

-- A current entry stands in the current segment.
pub present :
    (k : Bytes) (c : MemoryCache) (e : Entry)
    → entry_of k c ≡ some e
    → (seg : Segment) × (lookup c.current c.segments ≡ some seg) × (lookup k seg ≡ some e)
unfolding lookup
present k c e h = elim (Option-cases (lookup c.current c.segments)) [
  | inl m ↦
      let q : lookup k [] ≡ some e = rw (segment_of-none c.current c.segments m) at h in
      absurd (ground arith)
  | inr (seg, m) ↦ (seg, m, rw (segment_of-some c.current c.segments seg m) at h)
]
