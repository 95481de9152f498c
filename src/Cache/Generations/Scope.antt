-- ===== src/Cache/Generations/Scope.antt =====
-- The generation that each cache of a manager is at.
use host_manager.Base.{
  ℕ, Bytes, beq, beq_iff, ◌≡◌, refl, Bool, true, false, Option, none, some, List, [], ◌∷◌, GoMap,
  lookup, insert, inl, inr, if◌then◌else◌, arith, Bool-cases, Option-cases,
}
use host_manager.Cache.{
  Generation, SetOptions, SetOption, apply_set_options, CacheOptions, generation_for,
}
use host_manager.Cache.Memory.State.{MemoryCache}
use host_manager.Cache.Memory.Delete.{remove_key}
use host_manager.Cache.Memory.Lookup.{lookup_locked}
use host_manager.Cache.Memory.Counter.{decrement_if_positive}
use host_manager.Cache.Memory.Write.{UpdateFunc, set_locked, set, held, update}
use host_manager.Cache.Memory.Sweep.{reap, cycle}
use host_manager.Cache.Manager.{
  Manager, new_manager, change_scope, change_ttl, change_max_items, reconfigure, create, get_cache,
  cycle_caches, cycle_all,
}
use host_manager.Cache.Trace.{
  Op, delete_op, get_op, get_and_delete_op, decrement_op, set_op, update_op, reap_op, cycle_op,
  reconfigure_op, step,
}

-- The surviving scope is at its fixed generation, every other cache at the manager's.
abbrev pub IsInScope : Generation → MemoryCache → Type 0
IsInScope g c = c.current ≡ generation_for c.uncycled g

abbrev AllInScope : Generation → GoMap MemoryCache → Type 0
AllInScope g [] = Unit
AllInScope g ((class, c) ∷ caches) = IsInScope g c × AllInScope g caches

abbrev pub AllAtGeneration : Manager → Type 0
AllAtGeneration m = AllInScope m.current m.caches

-- What happens to a manager: a call of GetCache, a change of generation, or an operation on one of its
-- caches that is neither.
pub data ManagerOp : Type 0 where
  obtain : Bytes → CacheOptions → ManagerOp
  turn : Generation → Bool → ManagerOp
  use_cache : Bytes → ℕ → Op → ManagerOp

abbrev is_use : Op → Bool
is_use (cycle_op g force) = false
is_use (reconfigure_op opts g) = false
is_use _ = true

unfoldable pub manager_step : ManagerOp → Manager → Manager
manager_step (obtain class opts) m = (get_cache class opts m).0
manager_step (turn g force) m = cycle_all g force m
manager_step (use_cache class now op) m = elim (lookup class m.caches) [
  | none ↦ m
  | some c ↦ if is_use op then record m { caches = insert class (step now op c) m.caches } else m
]

unfoldable pub manager_run : List ManagerOp → Manager → Manager
unfolding manager_step
manager_run [] m = m
manager_run (op ∷ ops) m = manager_run ops (manager_step op m)

AllInScope-insert :
    (g : Generation) (class : Bytes) (c : MemoryCache) (caches : GoMap MemoryCache)
    → IsInScope g c
    → AllInScope g caches
    → AllInScope g (insert class c caches)
unfolding insert
AllInScope-insert g class c [] h a = (h, tt)
AllInScope-insert g class c ((d, e) ∷ caches) h (i, a) = elim (Bool-cases (beq d class)) [
  | inl q ↦ rw q (h, a)
  | inr q ↦ rw q (i, AllInScope-insert g class c caches h a)
]

AllInScope-lookup :
    (g : Generation) (class : Bytes) (c : MemoryCache) (caches : GoMap MemoryCache)
    → lookup class caches ≡ some c
    → AllInScope g caches
    → IsInScope g c
unfolding lookup
AllInScope-lookup g class c [] e a = absurd (ground arith)
AllInScope-lookup g class c ((d, x) ∷ caches) e (i, a) = elim (Bool-cases (beq d class)) [
  | inl q ↦ let same : x ≡ c = ground arith in rw same at i
  | inr q ↦ AllInScope-lookup g class c caches (ground arith) a
]

cycle-IsInScope :
    (g g' : Generation) (force : Bool) (c : MemoryCache)
    → IsInScope g c
    → IsInScope g' (cycle g' force c)
unfolding cycle generation_for
cycle-IsInScope g g' force c h = ground (arith, beq_iff c.current g')

AllInScope-cycle :
    (g g' : Generation) (force : Bool) (caches : GoMap MemoryCache)
    → AllInScope g caches
    → AllInScope g' (cycle_caches g' force caches)
unfolding cycle_caches
AllInScope-cycle g g' force [] a = tt
AllInScope-cycle g g' force ((class, c) ∷ caches) (i, a) =
    (cycle-IsInScope g g' force c i, AllInScope-cycle g g' force caches a)

-- The scope and the generation of a cache, which most operations leave alone.
abbrev SamePlace : MemoryCache → MemoryCache → Type 0
SamePlace c c' = (c'.current ≡ c.current) × (c'.uncycled ≡ c.uncycled)

set_locked-SamePlace :
    (now : ℕ) (k v : Bytes) (o : SetOptions) (c : MemoryCache)
    → SamePlace c (set_locked now k v o c)
unfolding set_locked
set_locked-SamePlace now k v o c = ground arith

update-SamePlace :
    (now : ℕ) (k : Bytes) (fn : UpdateFunc) (opts : List SetOption) (c : MemoryCache)
    → SamePlace c (update now k fn opts c).0
unfolding update
update-SamePlace now k fn opts c =
    ground (arith, set_locked-SamePlace now k (fn (held now k c)).0 (apply_set_options opts) c)

lookup_locked-SamePlace :
    (now : ℕ) (k : Bytes) (evict : Bool) (c : MemoryCache)
    → SamePlace c (lookup_locked now k evict c).0
unfolding lookup_locked
lookup_locked-SamePlace now k evict c = ground arith

decrement-SamePlace :
    (now : ℕ) (k : Bytes) (c : MemoryCache) → SamePlace c (decrement_if_positive now k c).0
unfolding decrement_if_positive
decrement-SamePlace now k c = ground arith

step-SamePlace :
    (now : ℕ) (op : Op) (c : MemoryCache) → is_use op ≡ true → SamePlace c (step now op c)
unfolding step
step-SamePlace now (delete_op k) c h = unfold remove_key in (refl, refl)
step-SamePlace now (get_op k) c h = lookup_locked-SamePlace now k false c
step-SamePlace now (get_and_delete_op k) c h = lookup_locked-SamePlace now k true c
step-SamePlace now (decrement_op k) c h = decrement-SamePlace now k c
step-SamePlace now (set_op k v opts) c h =
    unfold set in set_locked-SamePlace now k v (apply_set_options opts) c
step-SamePlace now (update_op k fn opts) c h = update-SamePlace now k fn opts c
step-SamePlace now reap_op c h = unfold reap in (refl, refl)
step-SamePlace now (cycle_op g force) c h = absurd (ground arith)
step-SamePlace now (reconfigure_op opts g) c h = absurd (ground arith)

change_scope-IsInScope :
    (uncycled : Bool) (g : Generation) (c : MemoryCache)
    → IsInScope g c
    → IsInScope g (change_scope uncycled g c)
unfolding change_scope
change_scope-IsInScope uncycled g c h = ground arith

change_limit-IsInScope :
    (limit : Option ℕ) (g : Generation) (c : MemoryCache)
    → IsInScope g c
    → IsInScope g (change_max_items limit c)
unfolding change_max_items
change_limit-IsInScope none g c h = h
change_limit-IsInScope (some n) g c h = h

change_ttl-IsInScope :
    (ttl : Option ℕ) (g : Generation) (c : MemoryCache)
    → IsInScope g c
    → IsInScope g (change_ttl ttl c)
unfolding change_ttl
change_ttl-IsInScope none g c h = h
change_ttl-IsInScope (some t) g c h = ground arith

reconfigure-IsInScope :
    (opts : CacheOptions) (g : Generation) (c : MemoryCache)
    → IsInScope g c
    → IsInScope g (reconfigure opts g c)
unfolding reconfigure
reconfigure-IsInScope opts g c h =
    change_ttl-IsInScope opts.ttl g _
      (change_limit-IsInScope opts.max_items g _ (change_scope-IsInScope opts.uncycled g c h))

get_cache-AllAtGeneration :
    (class : Bytes) (opts : CacheOptions) (m : Manager)
    → AllAtGeneration m
    → AllAtGeneration (get_cache class opts m).0
unfolding get_cache
get_cache-AllAtGeneration class opts m a = elim (Option-cases (lookup class m.caches)) [
  | inl e ↦
      rw e
        (AllInScope-insert m.current class (create class opts m) m.caches (unfold create in refl) a)
  | inr (c, e) ↦ rw e (
      AllInScope-insert m.current class (reconfigure opts m.current c) m.caches
        (reconfigure-IsInScope opts m.current c (AllInScope-lookup m.current class c m.caches e a))
        a)
]

use_cache-AllAtGeneration :
    (class : Bytes) (now : ℕ) (op : Op) (m : Manager)
    → AllAtGeneration m
    → AllAtGeneration (manager_step (use_cache class now op) m)
unfolding manager_step
use_cache-AllAtGeneration class now op m a = elim (Option-cases (lookup class m.caches)) [
  | inl e ↦ rw (e, manager_step) a
  | inr (c, e) ↦ elim (Bool-cases (is_use op)) [
    | inl u ↦
        let i = AllInScope-lookup m.current class c m.caches e a in
        let place = step-SamePlace now op c u in
        rw (e, u, manager_step)
          (AllInScope-insert m.current class (step now op c) m.caches (rw (place.0, place.1) i) a)
    | inr u ↦ rw (e, u, manager_step) a
  ]
]

manager_step-AllAtGeneration :
    (op : ManagerOp) (m : Manager) → AllAtGeneration m → AllAtGeneration (manager_step op m)
unfolding manager_step
manager_step-AllAtGeneration (obtain class opts) m a = get_cache-AllAtGeneration class opts m a
manager_step-AllAtGeneration (turn g force) m a =
    unfold cycle_all in AllInScope-cycle m.current g force m.caches a
manager_step-AllAtGeneration (use_cache class now op) m a =
    use_cache-AllAtGeneration class now op m a

manager_run-AllAtGeneration :
    (ops : List ManagerOp) (m : Manager) → AllAtGeneration m → AllAtGeneration (manager_run ops m)
unfolding manager_run
manager_run-AllAtGeneration [] m a = a
manager_run-AllAtGeneration (op ∷ ops) m a =
    manager_run-AllAtGeneration ops (manager_step op m) (manager_step-AllAtGeneration op m a)

-- Whatever caches are obtained under whatever options, whatever changes of generation there are, forced
-- or not, and however the caches are used, each cache of the surviving scope is at its fixed generation
-- and each other cache at the manager's current one.
pub run-AllAtGeneration :
    (host : Bytes) (ttl : Option ℕ) (ops : List ManagerOp)
    → AllAtGeneration (manager_run ops (new_manager host ttl))
run-AllAtGeneration host ttl ops =
    manager_run-AllAtGeneration ops (new_manager host ttl) (unfold new_manager in tt)
