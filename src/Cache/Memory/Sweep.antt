-- ===== src/Cache/Memory/Sweep.antt =====
-- internal/cache/memory.go: the reaper, the change of generation, and the scan.
use host_manager.Base.{
  ℕ, ◌-◌, Bool, not, ◌&&◌, ◌||◌, List, [], ◌∷◌, ◌++◌, insert, beq, if◌then◌else◌,
}
use host_manager.Cache.{Generation, Reported}
use host_manager.Cache.Lru.{Lru}
use host_manager.Cache.Memory.State.{Segment, Segments, MemoryCache, expired, detach, segment_of}

unfoldable pub reap_segment : ℕ → Segment → Lru → Segment × Lru
reap_segment now [] l = ([], l)
reap_segment now ((key, e) ∷ seg) l =
    let (seg', l') = reap_segment now seg (if expired now e then detach e l else l) in
    (if expired now e then seg' else (key, e) ∷ seg', l')

unfoldable pub reap_segments : ℕ → Segments → Lru → Segments × Lru
reap_segments now [] l = ([], l)
reap_segments now ((g, seg) ∷ segs) l =
    let (seg', l') = reap_segment now seg l in
    let (segs', l'') = reap_segments now segs l' in ((g, seg') ∷ segs', l'')

-- reap
unfoldable pub reap : ℕ → MemoryCache → MemoryCache
reap now c =
    let (segs, l) = reap_segments now c.segments c.lru in record c { lru = l; segments = segs }

unfoldable pub keep_generations : (Generation → Bool) → Segments → Segments
keep_generations keep [] = []
keep_generations keep ((g, seg) ∷ segs) =
    let rest = keep_generations keep segs in if keep g then (g, seg) ∷ rest else rest

-- The body of the loop of Cycle, at one cache.
unfoldable pub cycle : Generation → Bool → MemoryCache → MemoryCache
cycle checksum force c =
    if c.uncycled || (not force && beq c.current checksum)
    then c
    else let segs = insert checksum (segment_of checksum c.segments) c.segments in
      record c {
        current = checksum;
        segments = keep_generations (λ g. beq g checksum || (not force && beq g c.current)) segs;
      }

-- The entries of one segment that ScanGenerations reports.
unfoldable pub scan_segment : ℕ → Generation → Segment → List Reported
scan_segment now g [] = []
scan_segment now g ((key, e) ∷ seg) =
    let rest = scan_segment now g seg in
    if expired now e
    then rest
    else record { generation = g; key = key; ttl = e.expiry - now; value = e.value } ∷ rest

unfoldable pub scan_segments : ℕ → Segments → List Reported
scan_segments now [] = []
scan_segments now ((g, seg) ∷ segs) = scan_segment now g seg ++ scan_segments now segs
