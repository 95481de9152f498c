-- ===== src/Cache/Memory/State.antt =====
-- internal/cache/memory.go: the state of one cache class, and its entries in the recency list.
use host_manager.Base.{
  ℕ, Bytes, Bool, Option, none, some, [], GoMap, lookup, ltb, ◌==◌, if◌then◌else◌,
}
use host_manager.Cache.{Generation}
use host_manager.Cache.Lru.{Lru, remove, move_to_front}

-- memoryCacheEntry; `element` is a pointer into the recency list, 0 for nil.
pub record Entry : Type 0 where
  pub element : ℕ
  pub expiry : ℕ
  pub key : Bytes
  pub value : Bytes

abbrev pub Segment : Type 0
Segment = GoMap Entry

abbrev pub Segments : Type 0
Segments = GoMap Segment

-- A limit of 0 items is no limit. `update` is the buffered channel of one interval.
pub record MemoryCache : Type 0 where
  pub class : Bytes
  pub current : Generation
  pub host : Bytes
  pub lru : Lru
  pub max_items : ℕ
  pub segments : Segments
  pub ttl : ℕ
  pub uncycled : Bool
  pub update_chan : Option ℕ

-- now.After(entry.expiry)
abbrev pub expired : ℕ → Entry → Bool
expired now e = ltb e.expiry now

-- if entry.element != nil { c.lru.Remove(entry.element) }
unfoldable pub detach : Entry → Lru → Lru
detach e l = if e.element == 0 then l else remove e.element l

-- if entry.element != nil { c.lru.MoveToFront(entry.element) }
unfoldable pub touch : Entry → Lru → Lru
touch e l = if e.element == 0 then l else move_to_front e.element l

-- The segment of a generation, empty where there is none.
unfoldable pub segment_of : Generation → Segments → Segment
segment_of g segs = elim (lookup g segs) [ none ↦ [] | some seg ↦ seg ]
