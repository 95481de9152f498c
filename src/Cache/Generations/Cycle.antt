-- ===== src/Cache/Generations/Cycle.antt =====
-- What a change of generation leaves readable.
use host_manager.Base.{
  ℕ, Bytes, beq, beq_iff, beq_self, ◌≡◌, ◌≢◌, refl, ◌∙◌, Bool, true, false, not, ◌&&◌, ◌||◌, none,
  [], ◌∷◌, lookup, insert, inl, inr, if◌then◌else◌, arith, Bool-cases, Option-cases,
}
use host_manager.Cache.{Generation}
use host_manager.Cache.Memory.State.{Segments, MemoryCache, segment_of}
use host_manager.Cache.Memory.Lookup.{not_found, get}
use host_manager.Cache.Memory.Sweep.{keep_generations, cycle}
use host_manager.Cache.Memory.Demand.{segment_of-cons}
use host_manager.Cache.Memory.View.{
  entry_of, entry_elsewhere, shown, lookup_locked-seen, segment_of-insert,
}
use host_manager.Cache.Generations.Count.{generations, Fresh, Distinct, Distinct-insert}

segment_of-keep :
    (keep : Generation → Bool) (g : Generation) (segs : Segments)
    → keep g ≡ true
    → segment_of g (keep_generations keep segs) ≡ segment_of g segs
unfolding keep_generations
segment_of-keep keep g [] h = refl
segment_of-keep keep g ((j, seg) ∷ segs) h = ground (
  arith,
  segment_of-keep keep g segs h,
  beq_iff j g,
  segment_of-cons g j seg segs,
  segment_of-cons g j seg (keep_generations keep segs),
)

segment_of-Fresh :
    (g : Generation) (segs : Segments) → Fresh g (generations segs) → segment_of g segs ≡ []
segment_of-Fresh g [] f = unfold segment_of lookup in refl
segment_of-Fresh g ((h, seg) ∷ segs) (f, fs) =
    ground (arith, segment_of-cons g h seg segs, segment_of-Fresh g segs fs)

-- Of the generations other than the new one, only the old one is kept.
elsewhere-keep_old :
    (keep : Generation → Bool) (k : Bytes) (g old : Generation) (segs : Segments)
    → ((j : Generation) → keep j ≡ (beq j g || beq j old))
    → beq old g ≡ false
    → Distinct (generations segs)
    → entry_elsewhere k g (keep_generations keep segs) ≡ lookup k (segment_of old segs)
unfolding keep_generations entry_elsewhere
elsewhere-keep_old keep k g old [] w h d = unfold segment_of lookup in refl
elsewhere-keep_old keep k g old ((j, seg) ∷ segs) w h (f, d) =
    let ih = elsewhere-keep_old keep k g old segs w h d in
    rw (segment_of-cons old j seg segs) (elim (Bool-cases (beq j old)) [
      | inl e ↦
          let is_old = (beq_iff j old).0 e in
          let gone : lookup k (segment_of old segs) ≡ none =
            rw (segment_of-Fresh old segs (rw is_old at f)) (unfold lookup in refl) in
          elim (Option-cases (lookup k seg)) [
            | inl m ↦ ground (arith, ih, gone, w j)
            | inr (d, m) ↦ ground (arith, ih, gone, w j)
          ]
      | inr e ↦ ground (arith, ih, w j)
    ])

elsewhere-keep_none :
    (keep : Generation → Bool) (k : Bytes) (g : Generation) (segs : Segments)
    → ((j : Generation) → keep j ≡ beq j g)
    → entry_elsewhere k g (keep_generations keep segs) ≡ none
unfolding keep_generations entry_elsewhere
elsewhere-keep_none keep k g [] w = refl
elsewhere-keep_none keep k g ((j, seg) ∷ segs) w =
    ground (arith, elsewhere-keep_none keep k g segs w, w j)

-- The keys that the new generation does not hold read as the old generation's, no longer current, after
-- a change that is not forced, and as absent after a forced one.
pub get-cycle :
    (now : ℕ) (k : Bytes) (g : Generation) (force : Bool) (c : MemoryCache)
    → c.uncycled ≡ false
    → c.current ≢ g
    → Distinct (generations c.segments)
    → lookup k (segment_of g c.segments) ≡ none
    → (get now k (cycle g force c)).1
      ≡ (if force then not_found else shown now false (entry_of k c))
unfolding cycle
get-cycle now k g force c u h d m =
    let moved : beq c.current g ≡ false = ground (arith, beq_iff c.current g) in
    let segs = insert g (segment_of g c.segments) c.segments in
    let keep = λ (j : Generation). beq j g || (not force && beq j c.current) in
    let here : lookup k (segment_of g (keep_generations keep segs)) ≡ none =
      rw
        (
          segment_of-keep keep g segs (ground (arith, beq_self g)),
          segment_of-insert g g (segment_of g c.segments) c.segments,
          beq_self g,
        )
        m in
    let c' : MemoryCache = record c { current = g; segments = keep_generations keep segs } in
    let there : entry_elsewhere k g (keep_generations keep segs)
        ≡ (if force then none else entry_of k c) =
      elim (Bool-cases force) [
        | inl f ↦ rw f (elsewhere-keep_none _ k g segs (λ j. ground arith))
        | inr f ↦ rw f (
            elsewhere-keep_old _ k g c.current segs (λ j. ground arith) moved
              (Distinct-insert g (segment_of g c.segments) c.segments d)
            ∙ rw (segment_of-insert g c.current (segment_of g c.segments) c.segments)
                (ground (arith, beq_iff g c.current)))
      ] in
    let result : (get now k c').1 ≡ (if force then not_found else shown now false (entry_of k c)) =
      rw (lookup_locked-seen now k false c', here, there) (ground arith) in
    let moves : (c.uncycled || (not force && beq c.current g)) ≡ false = ground arith in
    rw moves result
