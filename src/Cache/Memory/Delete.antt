-- ===== src/Cache/Memory/Delete.antt =====
-- internal/cache/memory.go: Delete.
use host_manager.Base.{Bytes, none, some, [], ◌∷◌, lookup, delete}
use host_manager.Cache.Lru.{Lru}
use host_manager.Cache.Memory.State.{Segment, Segments, MemoryCache, detach}

-- The body of the loop of Delete, over one segment.
unfoldable pub purge_segment : Bytes → Segment → Lru → Segment × Lru
purge_segment key seg l = elim (lookup key seg) [
  | none ↦ (seg, l)
  | some e ↦ (delete key seg, detach e l)
]

unfoldable pub purge : Bytes → Segments → Lru → Segments × Lru
purge key [] l = ([], l)
purge key ((g, seg) ∷ segs) l =
    let (seg', l') = purge_segment key seg l in
    let (segs', l'') = purge key segs l' in ((g, seg') ∷ segs', l'')

-- Delete
unfoldable pub remove_key : Bytes → MemoryCache → MemoryCache
remove_key key c =
    let (segs, l) = purge key c.segments c.lru in record c { lru = l; segments = segs }
