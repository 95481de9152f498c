-- ===== src/Cache/Memory/Covered/Steps.antt =====
-- Steps at one segment that keep the entries covered, and how they make up a step at all segments.
use host_manager.Base.{
  ℕ, ◌+◌, ◌-◌, ◌≤◌, Bytes, beq_iff, ◌≡◌, some, ◌∷◌, lookup, insert, delete, ◌==◌, inl, inr, arith,
  Bool-cases,
}
use host_manager.Cache.{Generation}
use host_manager.Cache.Lru.{Element, Lru}
use host_manager.Cache.Lru.Cover.{Demand, Covers, Covers-weaken, sole, Covers-remove, Covers-move}
use host_manager.Cache.Memory.State.{
  Entry, Segment, Segments, MemoryCache, segment_of, detach, touch,
}
use host_manager.Cache.Memory.Demand.{
  demand, demand_all, demand_all-cons, demand-delete, demand-lookup, demand-segment,
  demand-segment-le,
}

pub touch-Covers :
    {b : ℕ} (d : Demand) (e : Entry) (l : Lru) → Covers b d l → Covers b d (touch e l)
unfolding touch
touch-Covers d e l c = elim (Bool-cases (e.element == 0)) [
  | inl z ↦ rw z c
  | inr z ↦ rw z (Covers-move d e.element l c)
]

-- An entry leaves its segment together with its element.
pub detach-Covers :
    {b : ℕ} (o : Demand) (k : Bytes) (e : Entry) (seg : Segment) (l : Lru)
    → lookup k seg ≡ some e
    → Covers b (λ t. o t + demand seg t) l
    → Covers b (λ t. o t + demand (delete k seg) t) (detach e l)
unfolding detach
detach-Covers o k e seg l h c =
    let kept : (t : Element) → o t + demand (delete k seg) t ≤ o t + demand seg t =
      λ t. ground (arith, demand-delete k seg t) in
    elim (Bool-cases (e.element == 0)) [
      | inl z ↦ rw z (Covers-weaken (λ t. o t + demand seg t) _ l kept c)
      | inr z ↦
          let there = demand-lookup k seg e h in
          rw z (
            Covers-remove (λ t. o t + demand seg t) _ e.element l c kept
              λ j. ground (
                arith,
                there,
                sole (λ t. o t + demand seg t) l e.element k j c (omega (arith, there)),
                sole (λ t. o t + demand seg t) l e.element k k c (omega (arith, there)),
                demand-delete k seg (e.element, j),
                beq_iff k j,
                beq_iff k k,
              ))
    ]

-- A step at one segment, among others, is a step at all segments.
pub segment-Covers :
    {b : ℕ} (g : Generation) (seg' : Segment) (segs : Segments) (l l' : Lru)
    → ((o : Demand)
        → Covers b (λ t. o t + demand (segment_of g segs) t) l
        → Covers b (λ t. o t + demand seg' t) l')
    → Covers b (demand_all segs) l
    → Covers b (demand_all (insert g seg' segs)) l'
segment-Covers g seg' segs l l' step c =
    Covers-weaken (λ t. demand_all segs t - demand (segment_of g segs) t + demand seg' t) _ l'
      (λ t. omega (arith, demand-segment g seg' segs t, demand-segment-le g segs t))
      (step (λ t. demand_all segs t - demand (segment_of g segs) t)
        (Covers-weaken (demand_all segs) _ l (λ t. omega (arith, demand-segment-le g segs t)) c))

abbrev pub Around : Demand → Segments → Demand
Around o segs t = o t + demand_all segs t

-- To pass one segment by: it joins what lies around the others.
pub pass-Covers :
    {b : ℕ} (o : Demand) (g : Generation) (seg : Segment) (segs : Segments) (l : Lru)
    → Covers b (Around o ((g, seg) ∷ segs)) l
    → Covers b (Around (λ t. o t + demand seg t) segs) l
pass-Covers o g seg segs l c =
    Covers-weaken (Around o ((g, seg) ∷ segs)) _ l
      (λ t. omega (arith, demand_all-cons g seg segs t)) c

pub unpass-Covers :
    {b : ℕ} (o : Demand) (g : Generation) (seg : Segment) (segs : Segments) (l : Lru)
    → Covers b (Around (λ t. o t + demand seg t) segs) l
    → Covers b (Around o ((g, seg) ∷ segs)) l
unpass-Covers o g seg segs l c =
    Covers-weaken (Around (λ t. o t + demand seg t) segs) _ l
      (λ t. omega (arith, demand_all-cons g seg segs t)) c

-- To stop at the first segment: the others lie around it.
pub stop-Covers :
    {b : ℕ} (o : Demand) (g : Generation) (seg seg' : Segment) (segs : Segments) (l l' : Lru)
    → ((o' : Demand)
        → Covers b (λ t. o' t + demand seg t) l
        → Covers b (λ t. o' t + demand seg' t) l')
    → Covers b (Around o ((g, seg) ∷ segs)) l
    → Covers b (Around o ((g, seg') ∷ segs)) l'
stop-Covers o g seg seg' segs l l' step c =
    Covers-weaken (λ t. Around o segs t + demand seg' t) _ l'
      (λ t. omega (arith, demand_all-cons g seg' segs t))
      (step (Around o segs) (
        Covers-weaken (Around o ((g, seg) ∷ segs)) _ l
          (λ t. omega (arith, demand_all-cons g seg segs t)) c))

-- The entries are covered by a list of at most `b` elements.
abbrev pub IsCovered : ℕ → MemoryCache → Type 0
IsCovered b c = Covers b (demand_all c.segments) c.lru

pub segment_of-lookup :
    (g : Generation) (segs : Segments) (seg : Segment)
    → lookup g segs ≡ some seg
    → segment_of g segs ≡ seg
unfolding segment_of
segment_of-lookup g segs seg h = rw (h, segment_of)
