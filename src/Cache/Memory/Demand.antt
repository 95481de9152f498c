-- ===== src/Cache/Memory/Demand.antt =====
-- The elements that the entries of the segments point at, and how the operations on maps change them.
use host_manager.Base.{
  ℕ, ◌+◌, ◌≤◌, ◌<◌, Bytes, beq, beq_iff, ◌≡◌, refl, Bool, some, List, [], ◌∷◌, ◌++◌, lookup, insert,
  delete, inl, inr, if◌then◌else◌, arith, Bool-cases,
}
use host_manager.Cache.{Generation}
use host_manager.Cache.Lru.{Element}
use host_manager.Cache.Lru.Counts.{same, count, count-append}
use host_manager.Cache.Memory.State.{Entry, Segment, Segments, segment_of}
use host_manager.Cache.Memory.Write.{delete_everywhere}
use host_manager.Cache.Memory.Sweep.{keep_generations}

unfoldable pub tags : Segment → List Element
tags [] = []
tags ((key, e) ∷ seg) = (e.element, key) ∷ tags seg

unfoldable pub tags_all : Segments → List Element
tags_all [] = []
tags_all ((g, seg) ∷ segs) = tags seg ++ tags_all segs

-- How many entries of a segment, and of all segments, point at an element.
abbrev pub demand : Segment → Element → ℕ
demand seg t = count t (tags seg)

abbrev pub demand_all : Segments → Element → ℕ
demand_all segs t = count t (tags_all segs)

pub demand_all-cons :
    (g : Generation) (seg : Segment) (segs : Segments) (t : Element)
    → demand_all ((g, seg) ∷ segs) t ≡ demand seg t + demand_all segs t
unfolding tags_all
demand_all-cons g seg segs t = count-append t (tags seg) (tags_all segs)

pub demand-delete :
    (k : Bytes) (seg : Segment) (t : Element)
    → demand (delete k seg) t ≡ (if beq k t.1 then 0 else demand seg t)
unfolding tags delete count
demand-delete k [] t = ground arith
demand-delete k ((j, e) ∷ seg) (p, i) =
    ground (arith, demand-delete k seg (p, i), beq_iff j k, beq_iff k i, beq_iff j i)

pub demand-lookup :
    (k : Bytes) (seg : Segment) (e : Entry) → lookup k seg ≡ some e → 0 < demand seg (e.element, k)
unfolding tags lookup count
demand-lookup k [] e h = absurd (ground arith)
demand-lookup k ((j, d) ∷ seg) e h = ground (arith, demand-lookup k seg e, beq_iff j k)

-- A new value for an entry that keeps its element.
pub demand-replace :
    (k : Bytes) (e e' : Entry) (seg : Segment) (t : Element)
    → lookup k seg ≡ some e
    → e'.element ≡ e.element
    → demand (insert k e' seg) t ≡ demand seg t
unfolding tags lookup insert count
demand-replace k e e' [] t h q = absurd (ground arith)
demand-replace k e e' ((j, d) ∷ seg) t h q = elim (Bool-cases (beq j k)) [
  | inl here ↦ ground (arith, beq_iff j k)
  | inr there ↦ ground (arith, demand-replace k e e' seg t)
]

pub demand-insert-le :
    (k : Bytes) (e : Entry) (seg : Segment) (t : Element)
    → demand (insert k e seg) t ≤ (if same (e.element, k) t then 1 else 0) + demand seg t
unfolding tags insert count
demand-insert-le k e [] t = omega arith
demand-insert-le k e ((j, d) ∷ seg) t = ground (arith, demand-insert-le k e seg t)

pub demand-cons :
    (k : Bytes) (e : Entry) (seg : Segment) (t : Element)
    → demand ((k, e) ∷ seg) t ≡ (if same (e.element, k) t then 1 else 0) + demand seg t
unfolding tags count
demand-cons k e seg t = refl

pub segment_of-cons :
    (g h : Generation) (s : Segment) (segs : Segments)
    → segment_of g ((h, s) ∷ segs) ≡ (if beq h g then s else segment_of g segs)
unfolding lookup segment_of
segment_of-cons g h s segs = ground arith

demand-segment_of-nil : (g : Generation) (t : Element) → demand (segment_of g []) t ≡ 0
unfolding segment_of lookup tags count
demand-segment_of-nil g t = refl

pub demand_all-nil : (t : Element) → demand_all [] t ≡ 0
unfolding tags_all count
demand_all-nil t = refl

-- The segment of one generation is replaced.
pub demand-segment :
    (g : Generation) (seg : Segment) (segs : Segments) (t : Element)
    → demand_all (insert g seg segs) t + demand (segment_of g segs) t
      ≡ demand_all segs t + demand seg t
unfolding insert
demand-segment g seg [] t =
    ground (arith, demand_all-cons g seg [] t, demand-segment_of-nil g t, demand_all-nil t)
demand-segment g seg ((h, s) ∷ segs) t = ground (
  arith,
  segment_of-cons g h s segs,
  demand_all-cons g seg segs t,
  demand_all-cons h s (insert g seg segs) t,
  demand_all-cons h s segs t,
  demand-segment g seg segs t,
)

pub demand-segment-le :
    (g : Generation) (segs : Segments) (t : Element)
    → demand (segment_of g segs) t ≤ demand_all segs t
unfolding lookup segment_of tags count
demand-segment-le g [] t = omega arith
demand-segment-le g ((h, s) ∷ segs) t =
    ground (arith, demand_all-cons h s segs t, demand-segment-le g segs t)

pub demand-delete_everywhere :
    (k : Bytes) (segs : Segments) (t : Element)
    → demand_all (delete_everywhere k segs) t ≡ (if beq k t.1 then 0 else demand_all segs t)
unfolding delete_everywhere
demand-delete_everywhere k [] t = unfold tags_all count in ground arith
demand-delete_everywhere k ((g, seg) ∷ segs) t = ground (
  arith,
  demand_all-cons g seg segs t,
  demand_all-cons g (delete k seg) (delete_everywhere k segs) t,
  demand-delete k seg t,
  demand-delete_everywhere k segs t,
)

pub demand-keep_generations-le :
    (keep : Generation → Bool) (segs : Segments) (t : Element)
    → demand_all (keep_generations keep segs) t ≤ demand_all segs t
unfolding keep_generations
demand-keep_generations-le keep [] t = omega arith
demand-keep_generations-le keep ((g, seg) ∷ segs) t = ground (
  arith,
  demand_all-cons g seg segs t,
  demand_all-cons g seg (keep_generations keep segs) t,
  demand-keep_generations-le keep segs t,
)
