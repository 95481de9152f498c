-- ===== src/Cache/Memory/Covered/Lookup.antt =====
-- Get and GetAndDelete keep the entries covered.
use host_manager.Base.{
  ℕ, ◌+◌, Bytes, beq, ◌≡◌, Bool, true, false, some, [], ◌∷◌, lookup, inl, inr, arith, Bool-cases,
  Option-cases,
}
use host_manager.Cache.{Generation}
use host_manager.Cache.Lru.{Lru}
use host_manager.Cache.Lru.Cover.{Demand, Covers, Covers-weaken}
use host_manager.Cache.Memory.State.{Entry, Segment, Segments, MemoryCache, expired}
use host_manager.Cache.Memory.Lookup.{visit, visit_others, lookup_locked}
use host_manager.Cache.Memory.Demand.{demand, demand_all}
use host_manager.Cache.Memory.Covered.Steps.{
  touch-Covers, detach-Covers, segment-Covers, Around, pass-Covers, unpass-Covers, stop-Covers,
  IsCovered, segment_of-lookup,
}

pub visit-Covers :
    {b : ℕ} (now : ℕ) (evict is_current : Bool) (k : Bytes) (e : Entry) (o : Demand) (seg : Segment)
    (l : Lru)
    → lookup k seg ≡ some e
    → Covers b (λ t. o t + demand seg t) l
    → Covers b
        (λ t. o t + demand (visit now evict is_current k e seg l).0 t)
        (visit now evict is_current k e seg l).1
unfolding visit
visit-Covers now evict is_current k e o seg l h c = elim (Bool-cases (expired now e)) [
  | inl x ↦ rw x c
  | inr x ↦ elim (Bool-cases evict) [
    | inl v ↦ rw (x, v) (detach-Covers o k e seg l h c)
    | inr v ↦ rw (x, v) (touch-Covers _ e l c)
  ]
]

visit_others-Covers :
    {b : ℕ} (now : ℕ) (evict : Bool) (k : Bytes) (current : Generation) (o : Demand)
    (segs : Segments) (l : Lru)
    → Covers b (Around o segs) l
    → Covers b
        (Around o (visit_others now evict k current segs l).0)
        (visit_others now evict k current segs l).1
unfolding visit_others
visit_others-Covers {b} now evict k current o [] l c = c
visit_others-Covers {b} now evict k current o ((g, seg) ∷ segs) l c =
    let next : Covers b (Around o ((g, seg) ∷ (visit_others now evict k current segs l).0))
        (visit_others now evict k current segs l).1 =
      unpass-Covers o g seg _ _ (
        visit_others-Covers now evict k current (λ t. o t + demand seg t) segs l
          (pass-Covers o g seg segs l c)) in
    elim (Bool-cases (beq g current)) [
      | inl e ↦ rw e next
      | inr e ↦ elim (Option-cases (lookup k seg)) [
        | inl m ↦ rw (e, m) next
        | inr (d, m) ↦
            rw (e, m)
              (stop-Covers o g seg (visit now evict false k d seg l).0 segs l
                (visit now evict false k d seg l).1
                (λ o' h. visit-Covers now evict false k d o' seg l m h) c)
      ]
    ]

pub lookup_locked-IsCovered :
    {b : ℕ} (now : ℕ) (k : Bytes) (evict : Bool) (c : MemoryCache)
    → IsCovered b c
    → IsCovered b (lookup_locked now k evict c).0
unfolding lookup_locked
lookup_locked-IsCovered now k evict c h =
    let others =
      visit_others-Covers now evict k c.current (λ t. 0) c.segments c.lru
        (Covers-weaken (demand_all c.segments) _ c.lru (λ t. omega arith) h) in
    let fall_back =
      Covers-weaken _ (demand_all (visit_others now evict k c.current c.segments c.lru).0)
        (visit_others now evict k c.current c.segments c.lru).1 (λ t. omega arith) others in
    elim (Option-cases (lookup c.current c.segments)) [
      | inl m ↦ rw (m, lookup_locked) fall_back
      | inr (seg, m) ↦ elim (Option-cases (lookup k seg)) [
        | inl n ↦ rw (m, n, lookup_locked) fall_back
        | inr (e, n) ↦
            rw (m, n, lookup_locked)
              (segment-Covers c.current (visit now evict true k e seg c.lru).0 c.segments c.lru
                (visit now evict true k e seg c.lru).1
                (λ o g.
                  visit-Covers now evict true k e o seg c.lru n
                    (rw (segment_of-lookup c.current c.segments seg m) at g))
                h)
      ]
    ]
