-- ===== src/Cache/Capacity.antt =====
-- How many entries a cache holds: the refinement of its limit.
use host_manager.Base.{
  ℕ, ◌+◌, ◌≤◌, ◌<◌, Bytes, beq, ◌≡◌, refl, Bool, true, false, not, ◌&&◌, Option, none, some, List,
  [], ◌∷◌, length, length-append, leb, ◌==◌, inl, inr, arith, Bool-cases,
}
use host_manager.Cache.{
  Generation, CacheOptions, SetOptions, SetOption, apply_set_options, generation_for, min_ttl,
}
use host_manager.Cache.Lru.{new}
use host_manager.Cache.Lru.Counts.{uses, count, length-le_of_count}
use host_manager.Cache.Lru.Cover.{Covers-weaken}
use host_manager.Cache.Memory.State.{Segment, Segments, MemoryCache}
use host_manager.Cache.Memory.Delete.{remove_key}
use host_manager.Cache.Memory.Lookup.{lookup_locked}
use host_manager.Cache.Memory.Counter.{decrement_if_positive}
use host_manager.Cache.Memory.Write.{UpdateFunc, held, set_locked, set, update}
use host_manager.Cache.Memory.Sweep.{reap, cycle, keep_generations}
use host_manager.Cache.Memory.Demand.{tags, tags_all, demand-keep_generations-le, demand_all}
use host_manager.Cache.Memory.Covered.Steps.{IsCovered}
use host_manager.Cache.Memory.Covered.Lookup.{lookup_locked-IsCovered}
use host_manager.Cache.Memory.Covered.Counter.{decrement_if_positive-IsCovered}
use host_manager.Cache.Memory.Covered.Write.{set-IsCovered, update-IsCovered}
use host_manager.Cache.Memory.Covered.Delete.{remove_key-IsCovered, reap-IsCovered, cycle-IsCovered}
use host_manager.Cache.Manager.{
  Manager, bool_eq, change_scope, change_ttl, change_max_items, reconfigure, create,
}
use host_manager.Cache.Trace.{
  Op, delete_op, get_op, get_and_delete_op, decrement_op, set_op, update_op, reap_op, cycle_op,
  reconfigure_op, Trace, step, run,
}

-- The entries of all generations.
abbrev pub size : Segments → ℕ
size [] = 0
size ((g, seg) ∷ segs) = length seg + size segs

length-tags : (seg : Segment) → length (tags seg) ≡ length seg
unfolding tags
length-tags [] = refl
length-tags ((k, e) ∷ seg) = omega (arith, length-tags seg)

length-tags_all : (segs : Segments) → length (tags_all segs) ≡ size segs
unfolding tags_all
length-tags_all [] = refl
length-tags_all ((g, seg) ∷ segs) =
    omega (arith, length-append (tags seg) (tags_all segs), length-tags seg, length-tags_all segs)

pub record IsBounded (b : ℕ) (c : MemoryCache) : Type 0 where
  pub covered : IsCovered b c
  pub positive : 0 < c.max_items
  pub within : c.max_items ≤ b

size-le : (b : ℕ) (c : MemoryCache) → IsBounded b c → size c.segments ≤ b
size-le b c h = omega (
  arith,
  length-tags_all c.segments,
  length-le_of_count (tags_all c.segments) c.lru.elements h.covered.held,
  h.covered.fits,
)

-- A limit that a reconfiguration sets lies between 1 and `b`.
abbrev pub LimitFits : ℕ → Option ℕ → Type 0
LimitFits b none = Unit
LimitFits b (some n) = (0 < n) × (n ≤ b)

abbrev pub Fits : ℕ → Op → Type 0
Fits b (reconfigure_op opts current) = LimitFits b opts.max_items
Fits b _ = Unit

abbrev pub AllFit : ℕ → Trace → Type 0
AllFit b [] = Unit
AllFit b ((now, op) ∷ ops) = Fits b op × AllFit b ops

change_scope-IsBounded :
    (b : ℕ) (uncycled : Bool) (g : Generation) (c : MemoryCache)
    → IsBounded b c
    → IsBounded b (change_scope uncycled g c)
unfolding change_scope
change_scope-IsBounded b uncycled g c h = elim (Bool-cases (bool_eq c.uncycled uncycled)) [
  | inl e ↦ rw (e, change_scope) h
  | inr e ↦
      let keep = λ (j : Generation). beq j (generation_for uncycled g) in
      rw (e, change_scope)
        (record {
          covered =
              Covers-weaken (demand_all c.segments) (demand_all (keep_generations keep c.segments))
                c.lru (λ t. demand-keep_generations-le keep c.segments t) h.covered;
          positive = h.positive;
          within = h.within;
        })
]

change_limit-IsBounded :
    (b : ℕ) (limit : Option ℕ) (c : MemoryCache)
    → LimitFits b limit
    → IsBounded b c
    → IsBounded b (change_max_items limit c)
unfolding change_max_items
change_limit-IsBounded b none c f h = h
change_limit-IsBounded b (some n) c f h = record {
  covered = h.covered;
  positive = f.0;
  within = f.1;
}

change_ttl-IsBounded :
    (b : ℕ) (ttl : Option ℕ) (c : MemoryCache) → IsBounded b c → IsBounded b (change_ttl ttl c)
unfolding change_ttl
change_ttl-IsBounded b none c h = h
change_ttl-IsBounded b (some t) c h = elim (Bool-cases (not (c.ttl == t) && leb min_ttl t)) [
  | inl e ↦ rw e (record { covered = h.covered; positive = h.positive; within = h.within })
  | inr e ↦ rw e h
]

max_items-lookup_locked :
    (now : ℕ) (k : Bytes) (evict : Bool) (c : MemoryCache)
    → (lookup_locked now k evict c).0.max_items ≡ c.max_items
unfolding lookup_locked
max_items-lookup_locked now k evict c = ground arith

max_items-decrement :
    (now : ℕ) (k : Bytes) (c : MemoryCache)
    → (decrement_if_positive now k c).0.max_items ≡ c.max_items
unfolding decrement_if_positive
max_items-decrement now k c = ground arith

max_items-set_locked :
    (now : ℕ) (k v : Bytes) (o : SetOptions) (c : MemoryCache)
    → (set_locked now k v o c).max_items ≡ c.max_items
unfolding set_locked
max_items-set_locked now k v o c = ground arith

max_items-cycle :
    (g : Generation) (force : Bool) (c : MemoryCache) → (cycle g force c).max_items ≡ c.max_items
unfolding cycle
max_items-cycle g force c = ground arith

limit-IsBounded :
    (b : ℕ) (c c' : MemoryCache)
    → IsCovered b c'
    → c'.max_items ≡ c.max_items
    → IsBounded b c
    → IsBounded b c'
limit-IsBounded b c c' v e h = record {
  covered = v;
  positive = omega (arith, h.positive);
  within = omega (arith, h.within);
}

max_items-update :
    (now : ℕ) (k : Bytes) (fn : UpdateFunc) (opts : List SetOption) (c : MemoryCache)
    → (update now k fn opts c).0.max_items ≡ c.max_items
unfolding update
max_items-update now k fn opts c =
    let (next, write) = fn (held now k c) in
    ground (arith, max_items-set_locked now k next (apply_set_options opts) c)

step-IsBounded :
    (b now : ℕ) (op : Op) (c : MemoryCache)
    → Fits b op
    → IsBounded b c
    → IsBounded b (step now op c)
unfolding step
step-IsBounded b now (delete_op k) c f h =
    limit-IsBounded b c _ (remove_key-IsCovered k c h.covered) (unfold remove_key in refl) h
step-IsBounded b now (get_op k) c f h =
    limit-IsBounded b c _ (lookup_locked-IsCovered now k false c h.covered)
      (max_items-lookup_locked now k false c) h
step-IsBounded b now (get_and_delete_op k) c f h =
    limit-IsBounded b c _ (lookup_locked-IsCovered now k true c h.covered)
      (max_items-lookup_locked now k true c) h
step-IsBounded b now (decrement_op k) c f h =
    limit-IsBounded b c _ (decrement_if_positive-IsCovered now k c h.covered)
      (max_items-decrement now k c) h
step-IsBounded b now (set_op k v opts) c f h =
    limit-IsBounded b c _ (set-IsCovered now k v opts c h.positive h.within h.covered)
      (unfold set in max_items-set_locked now k v (apply_set_options opts) c) h
step-IsBounded b now (update_op k fn opts) c f h =
    limit-IsBounded b c _ (update-IsCovered now k fn opts c h.positive h.within h.covered)
      (max_items-update now k fn opts c) h
step-IsBounded b now reap_op c f h =
    limit-IsBounded b c _ (reap-IsCovered now c h.covered) (unfold reap in refl) h
step-IsBounded b now (cycle_op g force) c f h =
    limit-IsBounded b c _ (cycle-IsCovered g force c h.covered) (max_items-cycle g force c) h
step-IsBounded b now (reconfigure_op opts g) c f h =
    unfold reconfigure in
    change_ttl-IsBounded b opts.ttl _
      (change_limit-IsBounded b opts.max_items _ f (change_scope-IsBounded b opts.uncycled g c h))

run-IsBounded :
    (b : ℕ) (ops : Trace) (c : MemoryCache) → AllFit b ops → IsBounded b c → IsBounded b (run ops c)
unfolding run
run-IsBounded b [] c f h = h
run-IsBounded b ((now, op) ∷ ops) c f h =
    run-IsBounded b ops (step now op c) f.1 (step-IsBounded b now op c f.0 h)

-- The limit of a new cache: 1000, or what its creator asks for.
abbrev pub StartFits : ℕ → Option ℕ → Type 0
StartFits b none = 1000 ≤ b
StartFits b (some n) = (0 < n) × (n ≤ b)

IsBounded-empty :
    (b limit : ℕ) (c : MemoryCache)
    → c.segments ≡ []
    → c.lru ≡ new
    → c.max_items ≡ limit
    → 0 < limit
    → limit ≤ b
    → IsBounded b c
IsBounded-empty b limit c s l m h w = record {
  covered =
      rw (s, l)
        record {
          sound = record {
            distinct = λ p. unfold uses in omega arith;
            unused = λ p _. unfold uses in refl;
            not_nil = unfold uses in refl;
            positive = omega arith;
          };
          fits = omega arith;
          held = λ t. unfold count tags_all in omega arith;
        };
  positive = omega arith;
  within = omega arith;
}

create-IsBounded :
    (b : ℕ) (class : Bytes) (opts : CacheOptions) (m : Manager)
    → StartFits b opts.max_items
    → IsBounded b (create class opts m)
unfolding create
create-IsBounded b class opts m f = start opts.max_items refl f
  where
    start : (o : Option ℕ) → opts.max_items ≡ o → StartFits b o → IsBounded b (create class opts m)
    start none e g =
        IsBounded-empty b 1000 (create class opts m) refl refl (rw (e, create)) (omega arith) g
    start (some n) e g =
        IsBounded-empty b n (create class opts m) refl refl (rw (e, create)) g.0 g.1

-- A cache whose limit, the one it is made with (1000 where none is asked for) and every later one, lies
-- between 1 and `b` holds at most `b` entries in all its generations together, whatever operations run
-- on it and at whatever times.
pub size-run-le :
    (b : ℕ) (class : Bytes) (opts : CacheOptions) (m : Manager) (ops : Trace)
    → StartFits b opts.max_items
    → AllFit b ops
    → size (run ops (create class opts m)).segments ≤ b
size-run-le b class opts m ops f g =
    size-le b _ (run-IsBounded b ops _ g (create-IsBounded b class opts m f))
