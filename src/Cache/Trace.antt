-- ===== src/Cache/Trace.antt =====
-- The life of one in-memory cache: any sequence of operations, each at its time, in the order in which
-- they take the lock.
use host_manager.Base.{ℕ, Bytes, Bool, true, false, List, [], ◌∷◌}
use host_manager.Cache.{Generation, SetOption, CacheOptions}
use host_manager.Cache.Memory.State.{MemoryCache}
use host_manager.Cache.Memory.Delete.{remove_key}
use host_manager.Cache.Memory.Lookup.{lookup_locked}
use host_manager.Cache.Memory.Counter.{decrement_if_positive}
use host_manager.Cache.Memory.Write.{UpdateFunc, set, update}
use host_manager.Cache.Memory.Sweep.{reap, cycle}
use host_manager.Cache.Manager.{reconfigure}

pub data Op : Type 0 where
  delete_op : Bytes → Op
  get_op : Bytes → Op
  get_and_delete_op : Bytes → Op
  decrement_op : Bytes → Op
  set_op : Bytes → Bytes → List SetOption → Op
  update_op : Bytes → UpdateFunc → List SetOption → Op
  reap_op : Op
  cycle_op : Generation → Bool → Op
  reconfigure_op : CacheOptions → Generation → Op

unfoldable pub step : ℕ → Op → MemoryCache → MemoryCache
step now (delete_op key) c = remove_key key c
step now (get_op key) c = (lookup_locked now key false c).0
step now (get_and_delete_op key) c = (lookup_locked now key true c).0
step now (decrement_op key) c = (decrement_if_positive now key c).0
step now (set_op key value opts) c = set now key value opts c
step now (update_op key fn opts) c = (update now key fn opts c).0
step now reap_op c = reap now c
step now (cycle_op checksum force) c = cycle checksum force c
step now (reconfigure_op opts current) c = reconfigure opts current c

abbrev pub Trace : Type 0
Trace = List (ℕ × Op)

unfoldable pub run : Trace → MemoryCache → MemoryCache
unfolding step
run [] c = c
run ((now, op) ∷ ops) c = run ops (step now op c)
