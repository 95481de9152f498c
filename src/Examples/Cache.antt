-- ===== src/Examples/Cache.antt =====
-- A small cache run through its operations, and the theorems at it.
use host_manager.Base.{
  ℕ, ◌≤◌, text, beq, beq_iff, ◌≡◌, ◌≢◌, refl, Bool, true, false, Option, none, some, List, [], ◌∷◌,
  ◌++◌, insert, length, lookup, arith, if◌then◌else◌, ltb,
}
use host_manager.Cache.{
  CacheOptions, initial_generation, generation_for, apply_set_options, apply_from, with_ttl,
}
use host_manager.Cache.Lru.{without, find, remove, move_to_front, push_front, last, back}
use host_manager.Cache.Decimal.{parse_int, format_int}
use host_manager.Cache.Memory.State.{MemoryCache, Entry, detach, touch, segment_of}
use host_manager.Cache.Memory.Delete.{remove_key, purge, purge_segment}
use host_manager.Cache.Memory.Lookup.{not_found, visit, visit_others, lookup_locked, get}
use host_manager.Cache.Memory.Write.{
  expiry_for, delete_everywhere, make_room, set_locked, set, held, update,
}
use host_manager.Cache.Memory.Sweep.{keep_generations, cycle}
use host_manager.Cache.Memory.View.{entry_of, entry_elsewhere}
use host_manager.Cache.Memory.Winner.{IsAlone, race, prize, race-prize, race-two}
use host_manager.Cache.Memory.Budget.{Grants, AllLive, spend, spend-exact}
use host_manager.Cache.Memory.Reads.{get-set, victim}
use host_manager.Cache.Manager.{Manager, new_manager, create}
use host_manager.Cache.Trace.{Trace, run, set_op, get_op}
use host_manager.Cache.Capacity.{size, size-run-le}
use host_manager.Cache.Generations.Count.{generations, Distinct, generations-run-le}
use host_manager.Cache.Generations.Scope.{
  AllAtGeneration, manager_run, obtain, turn, run-AllAtGeneration,
}

program : Unit {0}
unfolding generation_for apply_set_options apply_from without find remove move_to_front push_front
    last back detach touch segment_of purge purge_segment remove_key visit visit_others
    lookup_locked expiry_for delete_everywhere make_room set_locked set held update keep_generations
    cycle create lookup beq entry_elsewhere victim parse_int format_int new_manager
program = tt

abbrev two_items : CacheOptions
two_items = record { max_items = some 2; ttl = some 1_000_000_000; uncycled = false }

abbrev empty_manager : Manager
empty_manager = record {
  caches = [];
  current = initial_generation;
  host = text "h";
  ttl = 5_000_000_000;
}

fresh_cache : MemoryCache
fresh_cache = create (text "sessions") two_items empty_manager

one_item : MemoryCache
unfolding fresh_cache
one_item = set 0 (text "a") (text "3") [] fresh_cache

a_found :
    (get 5 (text "a") one_item).1 ≡ record { value = text "3"; exists = true; is_current = true }
unfolding program one_item fresh_cache insert
a_found = refl

-- Evictions at a limit of two: "c" pushes out "b", since "a" was read after "b" was written.
abbrev some_ops : Trace
some_ops =
    (1, set_op (text "a") (text "1") [])
    ∷ (2, set_op (text "b") (text "2") [])
    ∷ (3, get_op (text "a"))
    ∷ (4, set_op (text "c") (text "3") [])
    ∷ []

size-run-le_example : size (run some_ops (create (text "s") two_items empty_manager)).segments ≤ 2
size-run-le_example =
    size-run-le 2 (text "s") two_items empty_manager some_ops (omega arith) (omega arith)

a-IsAlone : IsAlone (text "a") one_item
unfolding program one_item fresh_cache insert
a-IsAlone = refl

race-prize_example :
    race (9 ∷ 5 ∷ []) (text "a") one_item ≡ prize (9 ∷ 5 ∷ []) (entry_of (text "a") one_item)
race-prize_example = race-prize (9 ∷ 5 ∷ []) (text "a") one_item a-IsAlone

a_entry : Entry
a_entry = record { element = 1; expiry = 1_000_000_000; key = text "a"; value = text "3" }

a_Grants : Grants (text "a") 3 a_entry one_item
unfolding program one_item fresh_cache a_entry insert
a_Grants = (refl, refl, refl, omega arith)

abbrev four_times : List ℕ
four_times = 5 ∷ 6 ∷ 7 ∷ 8 ∷ []

a_AllLive : AllLive four_times a_entry
unfolding a_entry
a_AllLive = omega arith

spend-exact_example :
    spend four_times (text "a") one_item
    ≡ (if ltb 3 (length four_times) then 3 else length four_times)
spend-exact_example = spend-exact four_times (text "a") 3 a_entry one_item a_Grants a_AllLive

b_ne_a : text "b" ≢ text "a"
unfolding beq
b_ne_a e = cc ((beq_iff (text "b") (text "a")).1 e)

no_victim : victim (text "b") one_item ≢ some (text "a")
unfolding program one_item fresh_cache insert
no_victim e = cc e

get-set_example : (get 9 (text "a") (set 8 (text "a") (text "x") (with_ttl 10 ∷ []) one_item)).1 ≡ (
    if ltb (expiry_for 8 one_item.ttl (apply_set_options (with_ttl 10 ∷ []))) 9
    then not_found
    else record { value = text "x"; exists = true; is_current = true })
get-set_example = get-set 8 9 (text "a") (text "x") (with_ttl 10 ∷ []) one_item

abbrev append_x : Option (List ℕ) → List ℕ × Bool
append_x none = (text "x", true)
append_x (some v) = (v ++ text "x", true)

one_cycled : one_item.uncycled ≡ false
unfolding program one_item fresh_cache insert
one_cycled = refl

one_moves : one_item.current ≢ text "g"
unfolding program one_item fresh_cache insert
one_moves e = cc ((beq_iff (text "0") (text "g")).1 e)

one-Distinct : Distinct (generations one_item.segments)
unfolding program one_item fresh_cache insert
one-Distinct = (tt, tt)

nothing_new : lookup (text "a") (segment_of (text "g") one_item.segments) ≡ none
unfolding program one_item fresh_cache insert
nothing_new = refl

generations-run-le_example :
    length (generations (run some_ops (create (text "s") two_items empty_manager)).segments) ≤ 2
generations-run-le_example = generations-run-le (text "s") two_items empty_manager some_ops

run-AllAtGeneration_example : AllAtGeneration (
    manager_run
      (obtain (text "s") two_items ∷ turn (text "g") true ∷ [])
      (new_manager (text "h") none))
run-AllAtGeneration_example =
    run-AllAtGeneration (text "h") none (obtain (text "s") two_items ∷ turn (text "g") true ∷ [])

-- "a" in two generations.
two_generations : MemoryCache
unfolding one_item fresh_cache
two_generations = set 8 (text "a") (text "new") [] (cycle (text "g") false one_item)

new_entry : Entry
new_entry = record { element = 2; expiry = 1_000_000_008; key = text "a"; value = text "new" }

new_here : entry_of (text "a") two_generations ≡ some new_entry
unfolding program two_generations new_entry insert
new_here = refl

old_there :
    entry_elsewhere (text "a") two_generations.current two_generations.segments ≡ some a_entry
unfolding program two_generations a_entry insert
old_there = refl

new_live : 9 ≤ new_entry.expiry
unfolding new_entry
new_live = omega arith

old_live : 10 ≤ a_entry.expiry
unfolding a_entry
old_live = omega arith

race-two_example :
    race (9 ∷ 10 ∷ []) (text "a") two_generations ≡ new_entry.value ∷ a_entry.value ∷ []
race-two_example =
    race-two 9 10 (text "a") two_generations new_entry a_entry new_here old_there new_live old_live
