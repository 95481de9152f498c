-- ===== src/Cache/Memory/Write.antt =====
-- internal/cache/memory.go: Set and Update, over setLocked.
use host_manager.Base.{
  ℕ, ◌+◌, Bytes, Bool, ◌&&◌, Option, none, some, List, [], ◌∷◌, lookup, insert, delete, ltb, leb,
  if◌then◌else◌,
}
use host_manager.Cache.{SetOptions, SetOption, apply_set_options, never_expires}
use host_manager.Cache.Lru.{Lru, remove, push_front, back, len}
use host_manager.Cache.Memory.State.{Entry, Segments, MemoryCache, expired, touch, segment_of}

-- The expiry that setLocked gives an entry.
unfoldable pub expiry_for : ℕ → ℕ → SetOptions → ℕ
expiry_for now default options =
    if options.no_expiry
    then never_expires
    else elim options.ttl [ none ↦ now + default | some ttl ↦ now + ttl ]

unfoldable pub delete_everywhere : Bytes → Segments → Segments
delete_everywhere key [] = []
delete_everywhere key ((g, seg) ∷ segs) = (g, delete key seg) ∷ delete_everywhere key segs

-- The eviction of setLocked: room for one more item.
unfoldable pub make_room : ℕ → Segments → Lru → Segments × Lru
make_room max_items segs l =
    if ltb 0 max_items && leb max_items (len l)
    then elim (back l) [
      | none ↦ (segs, l)
      | some (p, key) ↦ (delete_everywhere key segs, remove p l)
    ]
    else (segs, l)

-- setLocked
unfoldable pub set_locked : ℕ → Bytes → Bytes → SetOptions → MemoryCache → MemoryCache
set_locked now key value options c =
    let expiry = expiry_for now c.ttl options in
    let segs = insert c.current (segment_of c.current c.segments) c.segments in
    let seg = segment_of c.current segs in
    elim (lookup key seg) [
      | some e ↦ record c {
        lru = touch e c.lru;
        segments =
            insert c.current (insert key (record e { value = value; expiry = expiry }) seg) segs;
      }
      | none ↦
          let (kept, l) = make_room c.max_items segs c.lru in
          let (l', p) = push_front key l in
          let fresh : Entry = record { element = p; expiry = expiry; key = key; value = value } in
          record c {
            lru = l';
            segments = insert c.current (insert key fresh (segment_of c.current kept)) kept;
          }
    ]

-- Set
unfoldable pub set : ℕ → Bytes → Bytes → List SetOption → MemoryCache → MemoryCache
set now key value opts = set_locked now key value (apply_set_options opts)

-- next, write
abbrev pub UpdateFunc : Type 0
UpdateFunc = Option Bytes → Bytes × Bool

-- The live entry of the current generation, as Update hands it to its function.
unfoldable pub held : ℕ → Bytes → MemoryCache → Option Bytes
held now key c = elim (lookup key (segment_of c.current c.segments)) [
  | none ↦ none
  | some e ↦ if expired now e then none else some e.value
]

-- Update
unfoldable pub update : ℕ → Bytes → UpdateFunc → List SetOption → MemoryCache → MemoryCache × Bool
update now key fn opts c =
    let (next, write) = fn (held now key c) in
    (if write then set_locked now key next (apply_set_options opts) c else c, write)
