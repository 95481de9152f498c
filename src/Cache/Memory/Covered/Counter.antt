-- ===== src/Cache/Memory/Covered/Counter.antt =====
-- DecrementIfPositive keeps the entries covered.
use host_manager.Base.{
  ℕ, ◌+◌, Bytes, beq, ◌≡◌, refl, some, [], ◌∷◌, lookup, insert, inl, inr, arith, Bool-cases,
  Option-cases,
}
use host_manager.Cache.{Generation}
use host_manager.Cache.Lru.{Lru}
use host_manager.Cache.Lru.Cover.{Demand, Covers, Covers-weaken}
use host_manager.Cache.Memory.State.{Entry, Segment, Segments, MemoryCache, expired, touch}
use host_manager.Cache.Memory.Demand.{demand, demand_all, demand-replace}
use host_manager.Cache.Memory.Covered.Steps.{
  touch-Covers, segment-Covers, Around, pass-Covers, unpass-Covers, stop-Covers, IsCovered,
  segment_of-lookup,
}
use host_manager.Cache.Decimal.{format_int, parse_int}
use host_manager.Cache.Memory.Counter.{
  Decremented, positive_pred, try_decrement_entry, decrement_others, decrement_if_positive,
}

decrement_entry-Covers :
    {b : ℕ} (now : ℕ) (k : Bytes) (o : Demand) (seg seg' : Segment) (l l' : Lru) (r : Decremented)
    → try_decrement_entry now seg k l ≡ some (seg', l', r)
    → Covers b (λ t. o t + demand seg t) l
    → Covers b (λ t. o t + demand seg' t) l'
unfolding try_decrement_entry
decrement_entry-Covers now k o seg seg' l l' r h c = elim (Option-cases (lookup k seg)) [
  | inl m ↦ absurd (ground arith)
  | inr (e, m) ↦ elim (Bool-cases (expired now e)) [
    | inl x ↦ absurd (ground arith)
    | inr x ↦ elim (Option-cases (positive_pred (parse_int e.value))) [
      | inl z ↦
          let same_segment : seg ≡ seg' = ground arith in
          let same_list : l ≡ l' = ground arith in rw (← same_segment, ← same_list) c
      | inr (n, z) ↦
          let e' : Entry = record e { value = format_int n } in
          let to_segment : insert k e' seg ≡ seg' = ground arith in
          let to_list : touch e l ≡ l' = ground arith in
          rw (← to_segment, ← to_list)
            (touch-Covers _ e l (
              Covers-weaken (λ t. o t + demand seg t) _ l
                (λ t. omega (arith, demand-replace k e e' seg t m refl)) c))
    ]
  ]
]

decrement_others-Covers :
    {b : ℕ} (now : ℕ) (k : Bytes) (current : Generation) (o : Demand) (segs : Segments) (l : Lru)
    → Covers b (Around o segs) l
    → Covers b
        (Around o (decrement_others now k current segs l).0)
        (decrement_others now k current segs l).1
unfolding decrement_others
decrement_others-Covers {b} now k current o [] l c = c
decrement_others-Covers {b} now k current o ((g, seg) ∷ segs) l c =
    let next : Covers b (Around o ((g, seg) ∷ (decrement_others now k current segs l).0))
        (decrement_others now k current segs l).1 =
      unpass-Covers o g seg _ _ (
        decrement_others-Covers now k current (λ t. o t + demand seg t) segs l
          (pass-Covers o g seg segs l c)) in
    elim (Bool-cases (beq g current)) [
      | inl e ↦ rw e next
      | inr e ↦ elim (Option-cases (try_decrement_entry now seg k l)) [
        | inl m ↦ rw (e, m) next
        | inr ((seg', l', r), m) ↦
            rw (e, m)
              (stop-Covers o g seg seg' segs l l'
                (λ o' h. decrement_entry-Covers now k o' seg seg' l l' r m h) c)
      ]
    ]

pub decrement_if_positive-IsCovered :
    {b : ℕ} (now : ℕ) (k : Bytes) (c : MemoryCache)
    → IsCovered b c
    → IsCovered b (decrement_if_positive now k c).0
unfolding decrement_if_positive
decrement_if_positive-IsCovered now k c h =
    let others =
      decrement_others-Covers now k c.current (λ t. 0) c.segments c.lru
        (Covers-weaken (demand_all c.segments) _ c.lru (λ t. omega arith) h) in
    let fall_back =
      Covers-weaken _ (demand_all (decrement_others now k c.current c.segments c.lru).0)
        (decrement_others now k c.current c.segments c.lru).1 (λ t. omega arith) others in
    elim (Option-cases (lookup c.current c.segments)) [
      | inl m ↦ rw (m, decrement_if_positive) fall_back
      | inr (seg, m) ↦ elim (Option-cases (try_decrement_entry now seg k c.lru)) [
        | inl n ↦ rw (m, n, decrement_if_positive) fall_back
        | inr ((seg', l', r), n) ↦
            rw (m, n, decrement_if_positive)
              (segment-Covers c.current seg' c.segments c.lru l'
                (λ o g.
                  decrement_entry-Covers now k o seg seg' c.lru l' r n
                    (rw (segment_of-lookup c.current c.segments seg m) at g))
                h)
      ]
    ]
