-- ===== src/Cache/Memory/Reads.antt =====
-- What a reader finds after a write, and after a delete.
use host_manager.Base.{
  ℕ, Bytes, beq, beq_iff, beq_self, ◌≡◌, ◌≢◌, ◌∙◌, refl, sym, true, false, ◌&&◌, Option, none, some,
  List, [], ◌∷◌, lookup, insert, delete, lookup-insert, lookup-delete, ltb, leb, inl, inr,
  if◌then◌else◌, arith, Bool-cases, Option-cases,
}
use host_manager.Cache.{Generation, SetOptions, SetOption, apply_set_options}
use host_manager.Cache.Lru.{Lru, back, len, push_front}
use host_manager.Cache.Memory.Demand.{segment_of-cons}
use host_manager.Cache.Memory.State.{Entry, Segment, Segments, MemoryCache, segment_of}
use host_manager.Cache.Memory.Delete.{purge_segment, purge, remove_key}
use host_manager.Cache.Memory.Lookup.{not_found, get}
use host_manager.Cache.Memory.Write.{
  expiry_for, delete_everywhere, make_room, set_locked, set, UpdateFunc, held, update,
}
use host_manager.Cache.Memory.View.{
  entry_of, entry_elsewhere, lookup_locked-seen, segment_of-insert, elsewhere-insert,
}

-- setLocked always leaves an entry with the value and the expiry of the write.
entry_of-set_locked :
    (now : ℕ) (k v : Bytes) (o : SetOptions) (c : MemoryCache)
    → (e : Entry) × (entry_of k (set_locked now k v o c) ≡ some e)
      × (e.value ≡ v)
      × (e.expiry ≡ expiry_for now c.ttl o)
unfolding set_locked
entry_of-set_locked now k v o c =
    let g = c.current in
    let segs = insert g (segment_of g c.segments) c.segments in
    let expiry = expiry_for now c.ttl o in
    elim (Option-cases (lookup k (segment_of g segs))) [
      | inl m ↦
          let kept = make_room c.max_items segs c.lru in
          let e : Entry = record { element = kept.1.fresh; expiry = expiry; key = k; value = v } in
          let seg = insert k e (segment_of g kept.0) in
          (
            e,
            rw (m, set_locked)
                (unfold push_front in
                  rw (
                    segment_of-insert g g seg kept.0,
                    beq_self g,
                    lookup-insert k k e (segment_of g kept.0),
                    beq_self k,
                  )),
            refl,
            refl,
          )
      | inr (d, m) ↦
          let e : Entry = record d { value = v; expiry = expiry } in
          let seg = insert k e (segment_of g segs) in
          (
            e,
            rw (m, set_locked)
                (rw (
                  segment_of-insert g g seg segs,
                  beq_self g,
                  lookup-insert k k e (segment_of g segs),
                  beq_self k,
                )),
            refl,
            refl,
          )
    ]

current-set_locked :
    (now : ℕ) (k v : Bytes) (o : SetOptions) (c : MemoryCache)
    → (set_locked now k v o c).current ≡ c.current
unfolding set_locked
current-set_locked now k v o c = ground arith

-- Get returns what Set stored, as a current value, until the entry expires, also where the write evicted
-- another entry to make room, and nothing from then on.
pub get-set :
    (now later : ℕ) (k v : Bytes) (opts : List SetOption) (c : MemoryCache)
    → (get later k (set now k v opts c)).1 ≡ (
        if ltb (expiry_for now c.ttl (apply_set_options opts)) later
        then not_found
        else record { value = v; exists = true; is_current = true })
unfolding set
get-set now later k v opts c =
    let o = apply_set_options opts in
    let (e, here, value, expiry) = entry_of-set_locked now k v o c in
    rw (lookup_locked-seen later k false (set_locked now k v o c), here) (ground arith)

-- Delete reaches every generation.
lookup-purge_segment :
    (k : Bytes) (seg : Segment) (l : Lru) → lookup k (purge_segment k seg l).0 ≡ none
unfolding purge_segment
lookup-purge_segment k seg l = ground (arith, lookup-delete k k seg, beq_self k)

elsewhere-purge :
    (k : Bytes) (g : Generation) (segs : Segments) (l : Lru)
    → entry_elsewhere k g (purge k segs l).0 ≡ none
unfolding purge entry_elsewhere
elsewhere-purge k g [] l = refl
elsewhere-purge k g ((h, seg) ∷ segs) l =
    ground (arith, elsewhere-purge k g segs (purge_segment k seg l).1, lookup-purge_segment k seg l)

lookup-purge :
    (k : Bytes) (g : Generation) (segs : Segments) (l : Lru)
    → lookup k (segment_of g (purge k segs l).0) ≡ none
unfolding purge
lookup-purge k g [] l = unfold segment_of lookup in refl
lookup-purge k g ((h, seg) ∷ segs) l =
    rw segment_of-cons (
      ground (arith, lookup-purge k g segs (purge_segment k seg l).1, lookup-purge_segment k seg l))

-- After Delete no reader finds the key, in any generation, whenever it reads.
pub get-remove_key :
    (now : ℕ) (k : Bytes) (c : MemoryCache) → (get now k (remove_key k c)).1 ≡ not_found
unfolding remove_key
get-remove_key now k c =
    let e : entry_of k (remove_key k c) ≡ none = lookup-purge k c.current c.segments c.lru in
    rw (lookup_locked-seen now k false (remove_key k c), e)
      (rw (elsewhere-purge k c.current c.segments c.lru))

lookup-delete_everywhere :
    (k j : Bytes) (g : Generation) (segs : Segments)
    → lookup j (segment_of g (delete_everywhere k segs))
      ≡ (if beq k j then none else lookup j (segment_of g segs))
unfolding delete_everywhere
lookup-delete_everywhere k j g [] = unfold segment_of lookup in ground arith
lookup-delete_everywhere k j g ((h, seg) ∷ segs) =
    rw (segment_of-cons g h (delete k seg) (delete_everywhere k segs)) (
      ground (
        arith,
        lookup-delete_everywhere k j g segs,
        lookup-delete k j seg,
        segment_of-cons g h seg segs,
      ))

elsewhere-delete_everywhere :
    (k j : Bytes) (g : Generation) (segs : Segments)
    → beq k j ≡ false
    → entry_elsewhere j g (delete_everywhere k segs) ≡ entry_elsewhere j g segs
unfolding delete_everywhere entry_elsewhere
elsewhere-delete_everywhere k j g [] h = refl
elsewhere-delete_everywhere k j g ((i, seg) ∷ segs) h =
    ground (arith, elsewhere-delete_everywhere k j g segs, lookup-delete k j seg)

-- The key that a write of `k` pushes out, if any: that of the least recent element of a full list, where
-- `k` has no entry yet.
unfoldable pub victim : Bytes → MemoryCache → Option Bytes
victim k c = elim (entry_of k c) [
  | some e ↦ none
  | none ↦
      if ltb 0 c.max_items && leb c.max_items (len c.lru)
      then elim (back c.lru) [ none ↦ none | some (p, key) ↦ some key ]
      else none
]

-- The view of a key that is neither written nor pushed out.
abbrev SameView : Bytes → Generation → Segments → Segments → Type 0
SameView j g segs segs' =
    (lookup j (segment_of g segs') ≡ lookup j (segment_of g segs))
    × (entry_elsewhere j g segs' ≡ entry_elsewhere j g segs)

SameView-insert :
    (k j : Bytes) (e : Entry) (g : Generation) (segs : Segments)
    → beq k j ≡ false
    → SameView j g segs (insert g (insert k e (segment_of g segs)) segs)
SameView-insert k j e g segs h = (
  rw (
    segment_of-insert g g (insert k e (segment_of g segs)) segs,
    beq_self g,
    lookup-insert k j e (segment_of g segs),
    h,
  ),
  elsewhere-insert j g (insert k e (segment_of g segs)) segs,
)

SameView-start :
    (j : Bytes) (g : Generation) (segs : Segments)
    → SameView j g segs (insert g (segment_of g segs) segs)
SameView-start j g segs = (
  rw (segment_of-insert g g (segment_of g segs) segs, beq_self g),
  elsewhere-insert j g (segment_of g segs) segs,
)

SameView-trans :
    (j : Bytes) (g : Generation) (a b c : Segments)
    → SameView j g a b
    → SameView j g b c
    → SameView j g a c
SameView-trans j g a b c (p, q) (r, s) = (r ∙ p, s ∙ q)

SameView-make_room :
    (k j : Bytes) (c : MemoryCache) (segs : Segments)
    → entry_of k c ≡ none
    → victim k c ≢ some j
    → SameView j c.current segs (make_room c.max_items segs c.lru).0
unfolding make_room victim
SameView-make_room k j c segs m h =
    elim (Bool-cases (ltb 0 c.max_items && leb c.max_items (len c.lru))) [
      | inl full ↦ elim (Option-cases (back c.lru)) [
        | inl b ↦ rw (full, b) (refl, refl)
        | inr ((p, key), b) ↦
            let other : beq key j ≡ false = ground (arith, beq_iff key j) in
            rw (full, b)
              (
                rw (lookup-delete_everywhere key j c.current segs, other),
                elsewhere-delete_everywhere key j c.current segs other,
              )
      ]
      | inr room ↦ rw room (refl, refl)
    ]

SameView-set_locked :
    (now : ℕ) (k j v : Bytes) (o : SetOptions) (c : MemoryCache)
    → beq k j ≡ false
    → victim k c ≢ some j
    → SameView j c.current c.segments (set_locked now k v o c).segments
unfolding set_locked
SameView-set_locked now k j v o c h w =
    let g = c.current in
    let segs = insert g (segment_of g c.segments) c.segments in
    let expiry = expiry_for now c.ttl o in
    let start = SameView-start j g c.segments in
    let same_key : lookup k (segment_of g segs) ≡ entry_of k c =
      (SameView-start k g c.segments).0 in
    elim (Option-cases (lookup k (segment_of g segs))) [
      | inl m ↦
          let kept = make_room c.max_items segs c.lru in
          let e : Entry = record { element = kept.1.fresh; expiry = expiry; key = k; value = v } in
          rw (m, set_locked)
            (unfold push_front in
              SameView-trans j g c.segments segs _ start (
                SameView-trans j g segs kept.0 _
                  (SameView-make_room k j c segs (sym same_key ∙ m) w)
                  (SameView-insert k j e g kept.0 h)))
      | inr (d, m) ↦
          let e : Entry = record d { value = v; expiry = expiry } in
          rw (m, set_locked)
            (SameView-trans j g c.segments segs _ start (SameView-insert k j e g segs h))
    ]

-- A write changes what Get returns for another key only if it pushes that key out.
pub get-set_ne :
    (now later : ℕ) (k j v : Bytes) (opts : List SetOption) (c : MemoryCache)
    → k ≢ j
    → victim k c ≢ some j
    → (get later j (set now k v opts c)).1 ≡ (get later j c).1
unfolding set
get-set_ne now later k j v opts c h w =
    let o = apply_set_options opts in
    let other : beq k j ≡ false = ground (arith, beq_iff k j) in
    let (p, q) = SameView-set_locked now k j v o c other w in
    rw (
      lookup_locked-seen later j false (set_locked now k v o c),
      lookup_locked-seen later j false c,
      current-set_locked now k v o c,
      p,
      q,
    )

held-set_locked :
    (now later : ℕ) (k v : Bytes) (o : SetOptions) (c : MemoryCache)
    → held later k (set_locked now k v o c)
      ≡ (if ltb (expiry_for now c.ttl o) later then none else some v)
unfolding held
held-set_locked now later k v o c =
    let (e, here, value, expiry) = entry_of-set_locked now k v o c in rw (here, held) (ground arith)

-- After Update the key holds what the function computed from the live value that it was handed, until
-- the new expiry; where the function declines to write, nothing has changed.
pub update-held :
    (now later : ℕ) (k : Bytes) (fn : UpdateFunc) (opts : List SetOption) (c : MemoryCache)
    → held later k (update now k fn opts c).0 ≡ (
        if (fn (held now k c)).1
        then (if ltb (expiry_for now c.ttl (apply_set_options opts)) later
            then none
            else some (fn (held now k c)).0)
        else held later k c)
unfolding update
update-held now later k fn opts c =
    let (next, write) = fn (held now k c) in
    elim (Bool-cases write) [
      | inl wrote ↦ rw wrote (held-set_locked now later k next (apply_set_options opts) c)
      | inr kept ↦ rw kept
    ]
