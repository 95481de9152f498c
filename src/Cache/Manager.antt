-- ===== src/Cache/Manager.antt =====
-- internal/cache/memory.go, `InMemoryCacheManager`, and the reaper of a cache.
use host_manager.Base.{
  ℕ, Bytes, Bool, true, false, not, ◌&&◌, Option, none, some, List, [], ◌∷◌, GoMap, lookup, insert,
  beq, leb, ◌==◌, if◌then◌else◌,
}
use host_manager.Cache.{
  Generation, initial_generation, min_ttl, CacheOptions, generation_for, Reported,
}
use host_manager.Cache.Lru.{new}
use host_manager.Cache.Memory.State.{MemoryCache}
use host_manager.Cache.Memory.Sweep.{keep_generations, cycle, reap, scan_segments}

pub record Manager : Type 0 where
  pub caches : GoMap MemoryCache
  pub current : Generation
  pub host : Bytes
  pub ttl : ℕ

-- NewCacheManager for an empty address; the default lifetime is 24 hours.
unfoldable pub new_manager : Bytes → Option ℕ → Manager
new_manager host ttl = record {
  caches = [];
  current = initial_generation;
  host = host;
  ttl = elim ttl [ none ↦ 86_400_000_000_000 | some t ↦ t ];
}

pub bool_eq : Bool → Bool → Bool
bool_eq true b = b
bool_eq false b = not b

-- The scope of a cache moves: the old generations are abandoned.
unfoldable pub change_scope : Bool → Generation → MemoryCache → MemoryCache
unfolding bool_eq
change_scope uncycled current c =
    if bool_eq c.uncycled uncycled
    then c
    else let g = generation_for uncycled current in
      record c {
        uncycled = uncycled;
        current = g;
        segments = keep_generations (λ h. beq h g) c.segments;
      }

-- A lifetime that differs and is long enough is taken over, and offered to the reaper; a full channel
-- drops it.
unfoldable pub change_ttl : Option ℕ → MemoryCache → MemoryCache
change_ttl none c = c
change_ttl (some t) c =
    if not (c.ttl == t) && leb min_ttl t
    then record c { ttl = t; update_chan = elim c.update_chan [ none ↦ some t | some u ↦ some u ] }
    else c

unfoldable pub change_max_items : Option ℕ → MemoryCache → MemoryCache
change_max_items none c = c
change_max_items (some n) c = record c { max_items = n }

-- What GetCache does to a cache that exists.
unfoldable pub reconfigure : CacheOptions → Generation → MemoryCache → MemoryCache
unfolding change_scope change_ttl change_max_items
reconfigure opts current c =
    change_ttl opts.ttl (change_max_items opts.max_items (change_scope opts.uncycled current c))

-- What GetCache makes where there is none.
unfoldable pub create : Bytes → CacheOptions → Manager → MemoryCache
create class opts m = record {
  class = class;
  current = generation_for opts.uncycled m.current;
  host = m.host;
  lru = new;
  max_items = elim opts.max_items [ none ↦ 1000 | some n ↦ n ];
  segments = [];
  ttl = elim opts.ttl [ none ↦ m.ttl | some t ↦ if leb min_ttl t then t else m.ttl ];
  uncycled = opts.uncycled;
  update_chan = none;
}

-- GetCache
unfoldable pub get_cache : Bytes → CacheOptions → Manager → Manager × MemoryCache
get_cache class opts m =
    let c : MemoryCache = elim (lookup class m.caches) [
      | none ↦ create class opts m
      | some c ↦ reconfigure opts m.current c
    ] in
    (record m { caches = insert class c m.caches }, c)

unfoldable pub cycle_caches : Generation → Bool → GoMap MemoryCache → GoMap MemoryCache
cycle_caches checksum force [] = []
cycle_caches checksum force ((class, c) ∷ caches) =
    (class, cycle checksum force c) ∷ cycle_caches checksum force caches

-- Cycle
unfoldable pub cycle_all : Generation → Bool → Manager → Manager
cycle_all checksum force m = record m {
  current = checksum;
  caches = cycle_caches checksum force m.caches;
}

-- The entries that ScanGenerations hands to its function, at the time of the call.
unfoldable pub scan : ℕ → Bytes → Manager → List Reported
scan now class m = elim (lookup class m.caches) [
  | none ↦ []
  | some c ↦ scan_segments now c.segments
]

-- fn runs on each reported entry, until it fails.
unfoldable pub for_each {ℓ} :
    {S E : Type ℓ} → (Reported → S → S × Option E) → List Reported → S → S × Option E
for_each fn [] s = (s, none)
for_each fn (entry ∷ entries) s =
    let (s', err) = fn entry s in elim err [ none ↦ for_each fn entries s' | some e ↦ (s', some e) ]

-- The reaper's loop: a tick, or a new interval that it takes from the channel.
unfoldable pub on_tick : ℕ → ℕ × MemoryCache → ℕ × MemoryCache
on_tick now (interval, c) = (interval, reap now c)

unfoldable pub on_update : ℕ → ℕ × MemoryCache → ℕ × MemoryCache
on_update now (interval, c) = elim c.update_chan [
  | none ↦ (interval, c)
  | some i ↦ (i, reap now (record c { update_chan = none }))
]
