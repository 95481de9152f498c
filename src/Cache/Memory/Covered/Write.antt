-- ===== src/Cache/Memory/Covered/Write.antt =====
-- Set and Update keep the entries covered, the eviction included.
use host_manager.Base.{
  ℕ, ◌+◌, ◌<◌, ◌≤◌, Bytes, ◌≡◌, refl, ◌&&◌, ltb, leb, some, List, lookup, insert, inl, inr, arith,
  Bool-cases, Option-cases,
}
use host_manager.Cache.{Generation}
use host_manager.Cache.Lru.{Lru, remove}
use host_manager.Cache.Lru.Cover.{Covers, Covers-weaken, Covers-remove, Covers-push}
use host_manager.Cache.Memory.State.{Entry, Segments, MemoryCache, segment_of, touch}
use host_manager.Cache.Memory.Demand.{demand, demand_all, demand-replace, demand-segment}
use host_manager.Cache.Memory.Covered.Steps.{touch-Covers, segment-Covers, IsCovered}
use host_manager.Cache.{SetOption, SetOptions, apply_set_options}
use host_manager.Cache.Lru.{Lru, back, last, len, push_front}
use host_manager.Cache.Lru.Counts.{
  last-count, last-none, count-le-uses, length-without-lt, count_apart,
}
use host_manager.Cache.Memory.Demand.{demand-insert-le, demand-delete_everywhere}
use host_manager.Cache.Memory.Write.{
  expiry_for, delete_everywhere, make_room, set_locked, set, UpdateFunc, held, update,
}

evict-Covers :
    {b : ℕ} (segs : Segments) (l : Lru) (p : ℕ) (k : Bytes)
    → back l ≡ some (p, k)
    → Covers b (demand_all segs) l
    → Covers b (demand_all (delete_everywhere k segs)) (remove p l)
unfolding back
evict-Covers segs l p k h c =
    Covers-remove (demand_all segs) _ p l c (λ t. ground (arith, demand-delete_everywhere k segs t))
      (λ j. ground (
        arith,
        demand-delete_everywhere k segs (p, j),
        last-count l.elements (p, k) h,
        count_apart p k j l.elements,
        c.held (p, j),
        c.sound.distinct p,
      ))

pub make_room-Covers :
    {b : ℕ} (max_items : ℕ) (segs : Segments) (l : Lru)
    → Covers b (demand_all segs) l
    → Covers b (demand_all (make_room max_items segs l).0) (make_room max_items segs l).1
unfolding make_room
make_room-Covers max_items segs l c = elim (Bool-cases (ltb 0 max_items && leb max_items (len l))) [
  | inl full ↦ elim (Option-cases (back l)) [
    | inl b ↦ rw (full, b) c
    | inr ((p, k), b) ↦ rw (full, b) (evict-Covers segs l p k b c)
  ]
  | inr room ↦ rw room c
]

-- After the eviction one more element fits.
make_room-len-lt :
    (b max_items : ℕ) (segs : Segments) (l : Lru)
    → 0 < max_items
    → max_items ≤ b
    → len l ≤ b
    → len (make_room max_items segs l).1 < b
unfolding make_room back remove
make_room-len-lt b max_items segs l h w f = elim (Bool-cases (leb max_items (len l))) [
  | inl full ↦ elim (Option-cases (last l.elements)) [
    | inl e ↦ ground (arith, last-none l.elements e)
    | inr ((p, k), e) ↦ ground (
      arith,
      last-count l.elements (p, k) e,
      count-le-uses (p, k) l.elements,
      length-without-lt p l.elements,
    )
  ]
  | inr room ↦ ground arith
]

-- An entry that is there keeps its element, which becomes the most recent one.
refresh-Covers :
    {b : ℕ} (k : Bytes) (e e' : Entry) (g : Generation) (segs : Segments) (l : Lru)
    → lookup k (segment_of g segs) ≡ some e
    → e'.element ≡ e.element
    → Covers b (demand_all segs) l
    → Covers b (demand_all (insert g (insert k e' (segment_of g segs)) segs)) (touch e l)
refresh-Covers k e e' g segs l h q c =
    segment-Covers g (insert k e' (segment_of g segs)) segs l (touch e l)
      (λ o f. touch-Covers _ e l (
        Covers-weaken (λ t. o t + demand (segment_of g segs) t) _ l
          (λ t. omega (arith, demand-replace k e e' (segment_of g segs) t h q)) f))
      c

-- A new entry comes with the new element.
fresh-Covers :
    {b : ℕ} (k : Bytes) (e : Entry) (g : Generation) (segs : Segments) (l : Lru)
    → e.element ≡ l.fresh
    → len l < b
    → Covers b (demand_all segs) l
    → Covers b (demand_all (insert g (insert k e (segment_of g segs)) segs)) (push_front k l).0
fresh-Covers k e g segs l q room c = Covers-push (demand_all segs) _ k l room c λ t. ground (
  arith,
  demand-segment g (insert k e (segment_of g segs)) segs t,
  demand-insert-le k e (segment_of g segs) t,
)

pub set_locked-IsCovered :
    {b : ℕ} (now : ℕ) (k v : Bytes) (options : SetOptions) (c : MemoryCache)
    → 0 < c.max_items
    → c.max_items ≤ b
    → IsCovered b c
    → IsCovered b (set_locked now k v options c)
unfolding set_locked push_front
set_locked-IsCovered {b} now k v options c n w h =
    let g = c.current in
    let segs = insert g (segment_of g c.segments) c.segments in
    let expiry = expiry_for now c.ttl options in
    let start : Covers b (demand_all segs) c.lru =
      Covers-weaken (demand_all c.segments) _ c.lru
        (λ t. omega (arith, demand-segment g (segment_of g c.segments) c.segments t)) h in
    elim (Option-cases (lookup k (segment_of g segs))) [
      | inl m ↦
          let room = make_room c.max_items segs c.lru in
          rw (m, set_locked)
            (fresh-Covers k (record { element = room.1.fresh; expiry = expiry; key = k; value = v })
              g room.0 room.1 refl (make_room-len-lt b c.max_items segs c.lru n w start.fits)
              (make_room-Covers c.max_items segs c.lru start))
      | inr (e, m) ↦
          rw (m, set_locked)
            (refresh-Covers k e (record e { value = v; expiry = expiry }) g segs c.lru m refl start)
    ]

pub set-IsCovered :
    {b : ℕ} (now : ℕ) (k v : Bytes) (opts : List SetOption) (c : MemoryCache)
    → 0 < c.max_items
    → c.max_items ≤ b
    → IsCovered b c
    → IsCovered b (set now k v opts c)
unfolding set
set-IsCovered now k v opts c n w h = set_locked-IsCovered now k v (apply_set_options opts) c n w h

pub update-IsCovered :
    {b : ℕ} (now : ℕ) (k : Bytes) (fn : UpdateFunc) (opts : List SetOption) (c : MemoryCache)
    → 0 < c.max_items
    → c.max_items ≤ b
    → IsCovered b c
    → IsCovered b (update now k fn opts c).0
unfolding update
update-IsCovered now k fn opts c n w h =
    let (next, write) = fn (held now k c) in
    elim (Bool-cases write) [
      | inl wrote ↦ rw wrote (set_locked-IsCovered now k next (apply_set_options opts) c n w h)
      | inr kept ↦ rw kept h
    ]
