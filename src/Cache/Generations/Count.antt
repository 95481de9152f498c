-- ===== src/Cache/Generations/Count.antt =====
-- The generations of a cache: how many it holds, what a change of generation leaves readable, and the
-- generation that a manager's caches are at.
use host_manager.Base.{
  ℕ, ◌≤◌, Bytes, beq, beq_iff, ◌≡◌, ◌⊎◌, refl, ap, Bool, true, false, not, ◌&&◌, ◌||◌, Option, none,
  some, List, [], ◌∷◌, lookup, insert, length, leb, ◌==◌, inl, inr, arith, Bool-cases, Option-cases,
}
use host_manager.Cache.{
  SetOptions, SetOption, apply_set_options, Generation, CacheOptions, generation_for, min_ttl,
}
use host_manager.Cache.Lru.{Lru, back, push_front}
use host_manager.Cache.Memory.State.{Segment, Segments, MemoryCache, segment_of}
use host_manager.Cache.Memory.Delete.{purge_segment, purge, remove_key}
use host_manager.Cache.Memory.Lookup.{visit, visit_others, lookup_locked}
use host_manager.Cache.Memory.Counter.{try_decrement_entry, decrement_others, decrement_if_positive}
use host_manager.Cache.Memory.Write.{
  delete_everywhere, make_room, set_locked, set, UpdateFunc, held, update,
}
use host_manager.Cache.Memory.Sweep.{reap_segment, reap_segments, reap, keep_generations, cycle}
use host_manager.Cache.Manager.{
  Manager, bool_eq, change_scope, change_ttl, change_max_items, reconfigure, create,
}
use host_manager.Cache.Trace.{
  Op, delete_op, get_op, get_and_delete_op, decrement_op, set_op, update_op, reap_op, cycle_op,
  reconfigure_op, Trace, step, run,
}

-- The generations that have a segment, in the order of the map.
abbrev pub generations : Segments → List Generation
generations [] = []
generations ((g, seg) ∷ segs) = g ∷ generations segs

-- The generations of a map are distinct, and each is one of two.
abbrev pub Fresh : Generation → List Generation → Type 0
Fresh g [] = Unit
Fresh g (h ∷ gs) = (beq h g ≡ false) × Fresh g gs

abbrev pub Distinct : List Generation → Type 0
Distinct [] = Unit
Distinct (g ∷ gs) = Fresh g gs × Distinct gs

abbrev pub OneOf : Generation → Generation → List Generation → Type 0
OneOf a b [] = Unit
OneOf a b (g ∷ gs) = ((g ≡ a) ⊎ (g ≡ b)) × OneOf a b gs

-- Three distinct generations are not one of two.
two_of_Distinct :
    (a b : Generation) (gs : List Generation) → Distinct gs → OneOf a b gs → length gs ≤ 2
two_of_Distinct a b [] d o = omega arith
two_of_Distinct a b (g ∷ []) d o = omega arith
two_of_Distinct a b (g ∷ h ∷ []) d o = omega arith
two_of_Distinct a b (g ∷ h ∷ i ∷ gs) d o =
    absurd (ground (arith, beq_iff h g, beq_iff i g, beq_iff i h))

-- A cache holds its current generation and at most one other.
abbrev pub IsTwo : Generation → MemoryCache → Type 0
IsTwo p c = Distinct (generations c.segments) × OneOf c.current p (generations c.segments)

-- Inserting a segment
Fresh-insert :
    (g h : Generation) (seg : Segment) (segs : Segments)
    → beq h g ≡ false
    → Fresh g (generations segs)
    → Fresh g (generations (insert h seg segs))
unfolding insert
Fresh-insert g h seg [] e f = (e, tt)
Fresh-insert g h seg ((i, s) ∷ segs) e (f, fs) = elim (Bool-cases (beq i h)) [
  | inl q ↦ rw q (e, fs)
  | inr q ↦ rw q (f, Fresh-insert g h seg segs e fs)
]

pub Distinct-insert :
    (g : Generation) (seg : Segment) (segs : Segments)
    → Distinct (generations segs)
    → Distinct (generations (insert g seg segs))
unfolding insert
Distinct-insert g seg [] d = (tt, tt)
Distinct-insert g seg ((h, s) ∷ segs) (f, d) = elim (Bool-cases (beq h g)) [
  | inl q ↦ rw q (rw ((beq_iff h g).0 q) at f, d)
  | inr q ↦ rw q (
    Fresh-insert h g seg segs (ground (arith, beq_iff g h, beq_iff h g)) f,
    Distinct-insert g seg segs d,
  )
]

OneOf-insert :
    (a b g : Generation) (seg : Segment) (segs : Segments)
    → (g ≡ a) ⊎ (g ≡ b)
    → OneOf a b (generations segs)
    → OneOf a b (generations (insert g seg segs))
unfolding insert
OneOf-insert a b g seg [] o h = (o, tt)
OneOf-insert a b g seg ((i, s) ∷ segs) o (p, h) = elim (Bool-cases (beq i g)) [
  | inl q ↦ rw q (o, h)
  | inr q ↦ rw q (p, OneOf-insert a b g seg segs o h)
]

-- Keeping some segments
Fresh-keep :
    (keep : Generation → Bool) (g : Generation) (segs : Segments)
    → Fresh g (generations segs)
    → Fresh g (generations (keep_generations keep segs))
unfolding keep_generations
Fresh-keep keep g [] f = tt
Fresh-keep keep g ((h, s) ∷ segs) (f, fs) = elim (Bool-cases (keep h)) [
  | inl q ↦ rw q (f, Fresh-keep keep g segs fs)
  | inr q ↦ rw q (Fresh-keep keep g segs fs)
]

Distinct-keep :
    (keep : Generation → Bool) (segs : Segments)
    → Distinct (generations segs)
    → Distinct (generations (keep_generations keep segs))
unfolding keep_generations
Distinct-keep keep [] d = tt
Distinct-keep keep ((h, s) ∷ segs) (f, d) = elim (Bool-cases (keep h)) [
  | inl q ↦ rw q (Fresh-keep keep h segs f, Distinct-keep keep segs d)
  | inr q ↦ rw q (Distinct-keep keep segs d)
]

OneOf-keep :
    (a b : Generation) (keep : Generation → Bool) (segs : Segments)
    → ((g : Generation) → keep g ≡ true → (g ≡ a) ⊎ (g ≡ b))
    → OneOf a b (generations (keep_generations keep segs))
unfolding keep_generations
OneOf-keep a b keep [] h = tt
OneOf-keep a b keep ((g, s) ∷ segs) h = elim (Bool-cases (keep g)) [
  | inl q ↦ rw q (h g q, OneOf-keep a b keep segs h)
  | inr q ↦ rw q (OneOf-keep a b keep segs h)
]

-- The operations that keep the generations as they are.
generations-purge :
    (k : Bytes) (segs : Segments) (l : Lru) → generations (purge k segs l).0 ≡ generations segs
unfolding purge
generations-purge k [] l = refl
generations-purge k ((g, seg) ∷ segs) l =
    ap (◌∷◌ g) (generations-purge k segs (purge_segment k seg l).1)

generations-reap :
    (now : ℕ) (segs : Segments) (l : Lru)
    → generations (reap_segments now segs l).0 ≡ generations segs
unfolding reap_segments
generations-reap now [] l = refl
generations-reap now ((g, seg) ∷ segs) l =
    ap (◌∷◌ g) (generations-reap now segs (reap_segment now seg l).1)

generations-delete_everywhere :
    (k : Bytes) (segs : Segments) → generations (delete_everywhere k segs) ≡ generations segs
unfolding delete_everywhere
generations-delete_everywhere k [] = refl
generations-delete_everywhere k ((g, seg) ∷ segs) =
    ap (◌∷◌ g) (generations-delete_everywhere k segs)

generations-visit_others :
    (now : ℕ) (evict : Bool) (k : Bytes) (current : Generation) (segs : Segments) (l : Lru)
    → generations (visit_others now evict k current segs l).0 ≡ generations segs
unfolding visit_others
generations-visit_others now evict k current [] l = refl
generations-visit_others now evict k current ((g, seg) ∷ segs) l =
    ground (arith, generations-visit_others now evict k current segs l)

generations-decrement_others :
    (now : ℕ) (k : Bytes) (current : Generation) (segs : Segments) (l : Lru)
    → generations (decrement_others now k current segs l).0 ≡ generations segs
unfolding decrement_others
generations-decrement_others now k current [] l = refl
generations-decrement_others now k current ((g, seg) ∷ segs) l =
    ground (arith, generations-decrement_others now k current segs l)

generations-make_room :
    (n : ℕ) (segs : Segments) (l : Lru) → generations (make_room n segs l).0 ≡ generations segs
unfolding make_room
generations-make_room n segs l = elim (Option-cases (back l)) [
  | inl b ↦ ground arith
  | inr ((p, k), b) ↦ ground (arith, generations-delete_everywhere k segs)
]

-- Steps that keep the generations, or write the current one.
same-IsTwo :
    (p : Generation) (c : MemoryCache) (segs : Segments)
    → generations segs ≡ generations c.segments
    → IsTwo p c
    → Distinct (generations segs) × OneOf c.current p (generations segs)
same-IsTwo p c segs e h = rw e h

insert-IsTwo :
    (p g : Generation) (seg : Segment) (segs : Segments)
    → Distinct (generations segs) × OneOf g p (generations segs)
    → Distinct (generations (insert g seg segs)) × OneOf g p (generations (insert g seg segs))
insert-IsTwo p g seg segs (d, o) =
    (Distinct-insert g seg segs d, OneOf-insert g p g seg segs (inl refl) o)

lookup_locked-IsTwo :
    (p : Generation) (now : ℕ) (k : Bytes) (evict : Bool) (c : MemoryCache)
    → IsTwo p c
    → IsTwo p (lookup_locked now k evict c).0
unfolding lookup_locked
lookup_locked-IsTwo p now k evict c h =
    let fall_back =
      same-IsTwo p c (visit_others now evict k c.current c.segments c.lru).0
        (generations-visit_others now evict k c.current c.segments c.lru) h in
    elim (Option-cases (lookup c.current c.segments)) [
      | inl m ↦ rw (m, lookup_locked) fall_back
      | inr (seg, m) ↦ elim (Option-cases (lookup k seg)) [
        | inl n ↦ rw (m, n, lookup_locked) fall_back
        | inr (e, n) ↦
            rw (m, n, lookup_locked)
              (insert-IsTwo p c.current (visit now evict true k e seg c.lru).0 c.segments h)
      ]
    ]

decrement-IsTwo :
    (p : Generation) (now : ℕ) (k : Bytes) (c : MemoryCache)
    → IsTwo p c
    → IsTwo p (decrement_if_positive now k c).0
unfolding decrement_if_positive
decrement-IsTwo p now k c h =
    let fall_back =
      same-IsTwo p c (decrement_others now k c.current c.segments c.lru).0
        (generations-decrement_others now k c.current c.segments c.lru) h in
    elim (Option-cases (lookup c.current c.segments)) [
      | inl m ↦ rw (m, decrement_if_positive) fall_back
      | inr (seg, m) ↦ elim (Option-cases (try_decrement_entry now seg k c.lru)) [
        | inl n ↦ rw (m, n, decrement_if_positive) fall_back
        | inr ((seg', l, r), n) ↦
            rw (m, n, decrement_if_positive) (insert-IsTwo p c.current seg' c.segments h)
      ]
    ]

set_locked-IsTwo :
    (p : Generation) (now : ℕ) (k v : Bytes) (o : SetOptions) (c : MemoryCache)
    → IsTwo p c
    → IsTwo p (set_locked now k v o c)
unfolding set_locked push_front
set_locked-IsTwo p now k v o c h =
    let g = c.current in
    let segs = insert g (segment_of g c.segments) c.segments in
    let start = insert-IsTwo p g (segment_of g c.segments) c.segments h in
    elim (Option-cases (lookup k (segment_of g segs))) [
      | inl m ↦
          let room = generations-make_room c.max_items segs c.lru in
          rw (m, set_locked) (insert-IsTwo p g _ _ (rw room start))
      | inr (e, m) ↦ rw (m, set_locked) (insert-IsTwo p g _ segs start)
    ]

update-IsTwo :
    (p : Generation) (now : ℕ) (k : Bytes) (fn : UpdateFunc) (opts : List SetOption)
    (c : MemoryCache)
    → IsTwo p c
    → IsTwo p (update now k fn opts c).0
unfolding update
update-IsTwo p now k fn opts c h =
    let (next, write) = fn (held now k c) in
    elim (Bool-cases write) [
      | inl wrote ↦ rw wrote (set_locked-IsTwo p now k next (apply_set_options opts) c h)
      | inr kept ↦ rw kept h
    ]

cycle-IsTwo :
    (p g : Generation) (force : Bool) (c : MemoryCache)
    → IsTwo p c
    → (q : Generation) × IsTwo q (cycle g force c)
unfolding cycle
cycle-IsTwo p g force c h = elim (Bool-cases (c.uncycled || (not force && beq c.current g))) [
  | inl e ↦ (p, rw e h)
  | inr e ↦
      let keep = λ (j : Generation). beq j g || (not force && beq j c.current) in
      (
        c.current,
        rw e (
          Distinct-keep keep (insert g (segment_of g c.segments) c.segments)
              (Distinct-insert g (segment_of g c.segments) c.segments h.0),
          OneOf-keep g c.current keep (insert g (segment_of g c.segments) c.segments)
              (λ j kept. ground (arith, beq_iff j g, beq_iff j c.current)),
        ),
      )
]

change_scope-IsTwo :
    (p : Generation) (uncycled : Bool) (g : Generation) (c : MemoryCache)
    → IsTwo p c
    → IsTwo p (change_scope uncycled g c)
unfolding change_scope
change_scope-IsTwo p uncycled g c h = elim (Bool-cases (bool_eq c.uncycled uncycled)) [
  | inl e ↦ rw (e, change_scope) h
  | inr e ↦
      let at = generation_for uncycled g in
      let keep = λ (j : Generation). beq j at in
      rw (e, change_scope)
        (
          Distinct-keep keep c.segments h.0,
          OneOf-keep at p keep c.segments (λ j kept. inl ((beq_iff j at).0 kept)),
        )
]

change_limit-IsTwo :
    (p : Generation) (limit : Option ℕ) (c : MemoryCache)
    → IsTwo p c
    → IsTwo p (change_max_items limit c)
unfolding change_max_items
change_limit-IsTwo p none c h = h
change_limit-IsTwo p (some n) c h = h

change_ttl-IsTwo :
    (p : Generation) (ttl : Option ℕ) (c : MemoryCache) → IsTwo p c → IsTwo p (change_ttl ttl c)
unfolding change_ttl
change_ttl-IsTwo p none c h = h
change_ttl-IsTwo p (some t) c h = elim (Bool-cases (not (c.ttl == t) && leb min_ttl t)) [
  | inl e ↦ rw e h
  | inr e ↦ rw e h
]

reconfigure-IsTwo :
    (p : Generation) (opts : CacheOptions) (g : Generation) (c : MemoryCache)
    → IsTwo p c
    → IsTwo p (reconfigure opts g c)
unfolding reconfigure
reconfigure-IsTwo p opts g c h =
    change_ttl-IsTwo p opts.ttl _
      (change_limit-IsTwo p opts.max_items _ (change_scope-IsTwo p opts.uncycled g c h))

step-IsTwo :
    (p : Generation) (now : ℕ) (op : Op) (c : MemoryCache)
    → IsTwo p c
    → (q : Generation) × IsTwo q (step now op c)
unfolding step
step-IsTwo p now (delete_op k) c h =
    (p, unfold remove_key in same-IsTwo p c _ (generations-purge k c.segments c.lru) h)
step-IsTwo p now (get_op k) c h = (p, lookup_locked-IsTwo p now k false c h)
step-IsTwo p now (get_and_delete_op k) c h = (p, lookup_locked-IsTwo p now k true c h)
step-IsTwo p now (decrement_op k) c h = (p, decrement-IsTwo p now k c h)
step-IsTwo p now (set_op k v opts) c h =
    (p, unfold set in set_locked-IsTwo p now k v (apply_set_options opts) c h)
step-IsTwo p now (update_op k fn opts) c h = (p, update-IsTwo p now k fn opts c h)
step-IsTwo p now reap_op c h =
    (p, unfold reap in same-IsTwo p c _ (generations-reap now c.segments c.lru) h)
step-IsTwo p now (cycle_op g force) c h = cycle-IsTwo p g force c h
step-IsTwo p now (reconfigure_op opts g) c h = (p, reconfigure-IsTwo p opts g c h)

run-IsTwo :
    (p : Generation) (ops : Trace) (c : MemoryCache)
    → IsTwo p c
    → (q : Generation) × IsTwo q (run ops c)
unfolding run
run-IsTwo p [] c h = (p, h)
run-IsTwo p ((now, op) ∷ ops) c h =
    let (q, g) = step-IsTwo p now op c h in run-IsTwo q ops (step now op c) g

-- A cache never holds more than two generations, whatever operations run on it.
pub generations-run-le :
    (class : Bytes) (opts : CacheOptions) (m : Manager) (ops : Trace)
    → length (generations (run ops (create class opts m)).segments) ≤ 2
generations-run-le class opts m ops =
    let c = create class opts m in
    let (q, h) = run-IsTwo c.current ops c (unfold create in (tt, tt)) in
    two_of_Distinct (run ops c).current q (generations (run ops c).segments) h.0 h.1
