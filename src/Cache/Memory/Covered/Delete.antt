-- ===== src/Cache/Memory/Covered/Delete.antt =====
-- Delete, the reaper and the change of generation keep the entries covered.
use host_manager.Base.{
  ℕ, ◌+◌, ◌≤◌, ◌<◌, Bytes, beq, beq_iff, Bool, not, ◌&&◌, ◌||◌, [], ◌∷◌, lookup, insert, ◌==◌, inl,
  inr, if◌then◌else◌, arith, Bool-cases, Option-cases,
}
use host_manager.Cache.{Generation}
use host_manager.Cache.Lru.{Element, Lru}
use host_manager.Cache.Lru.Cover.{Demand, Covers, Covers-weaken, sole, Covers-remove}
use host_manager.Cache.Memory.State.{
  Entry, Segment, Segments, MemoryCache, expired, segment_of, detach,
}
use host_manager.Cache.Memory.Delete.{purge_segment, purge, remove_key}
use host_manager.Cache.Memory.Demand.{demand, demand_all, demand-cons, demand-segment}
use host_manager.Cache.Memory.Covered.Steps.{
  detach-Covers, Around, pass-Covers, unpass-Covers, stop-Covers, IsCovered,
}
use host_manager.Cache.Memory.Sweep.{reap_segment, reap_segments, reap, keep_generations, cycle}
use host_manager.Cache.Memory.Demand.{demand-keep_generations-le}
use host_manager.Cache.Lru.Counts.{same, same_self}

purge_segment-Covers :
    {b : ℕ} (k : Bytes) (o : Demand) (seg : Segment) (l : Lru)
    → Covers b (λ t. o t + demand seg t) l
    → Covers b (λ t. o t + demand (purge_segment k seg l).0 t) (purge_segment k seg l).1
unfolding purge_segment
purge_segment-Covers k o seg l c = elim (Option-cases (lookup k seg)) [
  | inl m ↦ rw (m, purge_segment) c
  | inr (e, m) ↦ rw (m, purge_segment) (detach-Covers o k e seg l m c)
]

-- A step at the first segment, then a step at the others.
two-Covers :
    {b : ℕ} (o : Demand) (g : Generation) (seg seg' : Segment) (segs segs' : Segments)
    (l l' l'' : Lru)
    → ((o' : Demand)
        → Covers b (λ t. o' t + demand seg t) l
        → Covers b (λ t. o' t + demand seg' t) l')
    → ((o' : Demand) → Covers b (Around o' segs) l' → Covers b (Around o' segs') l'')
    → Covers b (Around o ((g, seg) ∷ segs)) l
    → Covers b (Around o ((g, seg') ∷ segs')) l''
two-Covers o g seg seg' segs segs' l l' l'' first others c = unpass-Covers o g seg' segs' l'' (
    others (λ t. o t + demand seg' t)
      (pass-Covers o g seg' segs l' (stop-Covers o g seg seg' segs l l' first c)))

purge-Covers :
    {b : ℕ} (k : Bytes) (o : Demand) (segs : Segments) (l : Lru)
    → Covers b (Around o segs) l
    → Covers b (Around o (purge k segs l).0) (purge k segs l).1
unfolding purge
purge-Covers k o [] l c = c
purge-Covers k o ((g, seg) ∷ segs) l c =
    let l' = (purge_segment k seg l).1 in
    two-Covers o g seg (purge_segment k seg l).0 segs (purge k segs l').0 l l' (purge k segs l').1
      (λ o' h. purge_segment-Covers k o' seg l h) (λ o' h. purge-Covers k o' segs l' h) c

abbrev none_around : Demand
none_around t = 0

-- A step on all segments of a cache.
all-Covers :
    {b : ℕ} (segs segs' : Segments) (l l' : Lru)
    → (Covers b (Around none_around segs) l → Covers b (Around none_around segs') l')
    → Covers b (demand_all segs) l
    → Covers b (demand_all segs') l'
all-Covers segs segs' l l' step c =
    Covers-weaken (Around none_around segs') _ l' (λ t. omega arith)
      (step (Covers-weaken (demand_all segs) _ l (λ t. omega arith) c))

pub remove_key-IsCovered :
    {b : ℕ} (k : Bytes) (c : MemoryCache) → IsCovered b c → IsCovered b (remove_key k c)
unfolding remove_key
remove_key-IsCovered k c h =
    all-Covers c.segments (purge k c.segments c.lru).0 c.lru (purge k c.segments c.lru).1
      (purge-Covers k none_around c.segments c.lru) h

drop-Covers :
    {b : ℕ} (o : Demand) (k : Bytes) (e : Entry) (seg : Segment) (l : Lru)
    → Covers b (λ t. o t + demand ((k, e) ∷ seg) t) l
    → Covers b (λ t. o t + demand seg t) (detach e l)
unfolding detach
drop-Covers o k e seg l c =
    let d : Demand = λ t. o t + demand ((k, e) ∷ seg) t in
    let kept : (t : Element) → o t + demand seg t ≤ d t =
      λ t. omega (arith, demand-cons k e seg t) in
    let there : 0 < d (e.element, k) =
      ground (arith, demand-cons k e seg (e.element, k), same_self (e.element, k)) in
    elim (Bool-cases (e.element == 0)) [
      | inl z ↦ rw (z, detach) (Covers-weaken d _ l kept c)
      | inr z ↦
          rw (z, detach)
            (Covers-remove d _ e.element l c kept λ j. ground (
              arith,
              sole d l e.element k j c there,
              demand-cons k e seg (e.element, j),
              same_self (e.element, k),
              beq_iff k j,
            ))
    ]

reap_segment-Covers :
    {b : ℕ} (now : ℕ) (o : Demand) (seg : Segment) (l : Lru)
    → Covers b (λ t. o t + demand seg t) l
    → Covers b (λ t. o t + demand (reap_segment now seg l).0 t) (reap_segment now seg l).1
unfolding reap_segment
reap_segment-Covers now o [] l c = c
reap_segment-Covers now o ((k, e) ∷ seg) l c =
    let one : Demand = λ t. if same (e.element, k) t then 1 else 0 in
    elim (Bool-cases (expired now e)) [
      | inl x ↦ rw x (reap_segment-Covers now o seg (detach e l) (drop-Covers o k e seg l c))
      | inr x ↦ rw x (
          Covers-weaken (λ t. o t + one t + demand (reap_segment now seg l).0 t) _ _
            (λ t. omega (arith, demand-cons k e (reap_segment now seg l).0 t))
            (reap_segment-Covers now (λ t. o t + one t) seg l
              (Covers-weaken (λ t. o t + demand ((k, e) ∷ seg) t) _ l
                (λ t. omega (arith, demand-cons k e seg t)) c)))
    ]

reap_segments-Covers :
    {b : ℕ} (now : ℕ) (o : Demand) (segs : Segments) (l : Lru)
    → Covers b (Around o segs) l
    → Covers b (Around o (reap_segments now segs l).0) (reap_segments now segs l).1
unfolding reap_segments
reap_segments-Covers now o [] l c = c
reap_segments-Covers now o ((g, seg) ∷ segs) l c =
    let l' = (reap_segment now seg l).1 in
    two-Covers o g seg (reap_segment now seg l).0 segs (reap_segments now segs l').0 l l'
      (reap_segments now segs l').1 (λ o' h. reap_segment-Covers now o' seg l h)
      (λ o' h. reap_segments-Covers now o' segs l' h) c

pub reap-IsCovered : {b : ℕ} (now : ℕ) (c : MemoryCache) → IsCovered b c → IsCovered b (reap now c)
unfolding reap
reap-IsCovered now c h =
    all-Covers c.segments (reap_segments now c.segments c.lru).0 c.lru
      (reap_segments now c.segments c.lru).1 (reap_segments-Covers now none_around c.segments c.lru)
      h

pub cycle-IsCovered :
    {b : ℕ} (checksum : Generation) (force : Bool) (c : MemoryCache)
    → IsCovered b c
    → IsCovered b (cycle checksum force c)
unfolding cycle
cycle-IsCovered checksum force c h =
    let segs = insert checksum (segment_of checksum c.segments) c.segments in
    let keep = λ (g : Generation). beq g checksum || (not force && beq g c.current) in
    elim (Bool-cases (c.uncycled || (not force && beq c.current checksum))) [
      | inl e ↦ rw e h
      | inr e ↦ rw e (
          Covers-weaken (demand_all c.segments) (demand_all (keep_generations keep segs)) c.lru
            (λ t. omega (
              arith,
              demand-keep_generations-le keep segs t,
              demand-segment checksum (segment_of checksum c.segments) c.segments t,
            ))
            h)
    ]
