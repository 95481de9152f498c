-- ===== src/Auth/ClientRegistry/Builds.antt =====
-- Any builds of exchangers, by any replicas with any configurations and clocks, and what the registry keeps through them.
use host_manager.Base.{
  ℕ, ◌≤◌, Bytes, GoMap, lookup, ◌≡◌, refl, Bool, true, false, Option, none, some, List, [],
  if◌then◌else◌, contains, arith, inl, inr, Bool-cases,
}
use host_manager.Auth.ClientRegistry.{
  ClientRecord, RegistryMerge, merge_client_registry, is_changed, registered_ids, Stored, absent,
  corrupt, stored, load_client_registry,
}
use host_manager.Auth.ClientRegistry.Merge.{added, left_out, merged, lookup-merge, merge-unchanged}

-- The stored record of an id.
abbrev pub record_of : Stored → Bytes → Option ClientRecord
record_of absent id = none
record_of corrupt id = none
record_of (stored m) id = lookup id m

-- One build, with a cache that may fail.
pub data Build (s t : Stored) : Type 0 where
  build :
      (fails : Bool) (configured : List Bytes) (now : ℕ)
      → t ≡ (load_client_registry fails configured now s).1
      → Build s t

pub data Builds (s : Stored) : Stored → Type 0 where
  here : Builds s s
  next : {t u : Stored} → Builds s t → Build t u → Builds s u

-- A record is kept, and its cutoff does not move back.
abbrev pub Grew : Option ClientRecord → Option ClientRecord → Type 0
Grew none b = true ≡ true
Grew (some r) none = true ≡ false
Grew (some r) (some q) = r.removed_at ≤ q.removed_at

Grew-refl : (o : Option ClientRecord) → Grew o o
Grew-refl none = refl
Grew-refl (some r) = omega arith

pub Grew-trans : (a b c : Option ClientRecord) → Grew a b → Grew b c → Grew a c
Grew-trans none b c h k = refl
Grew-trans (some r) none c h k = ground (arith, h)
Grew-trans (some r) (some q) none h k = k
Grew-trans (some r) (some q) (some p) h k = omega (arith, h, k)

added-Grew : (now : ℕ) (o : Option ClientRecord) → Grew o (added now o)
added-Grew now none = refl
added-Grew now (some r) = ground arith

left_out-Grew : (now : ℕ) (o : Option ClientRecord) → Grew o (left_out now o)
left_out-Grew now none = refl
left_out-Grew now (some r) = ground arith

pub merged-Grew :
    (configured : List Bytes) (now : ℕ) (id : Bytes) (o : Option ClientRecord)
    → Grew o (merged configured now id o)
merged-Grew configured now id o = elim (Bool-cases (contains configured id)) [
  | inl y ↦ simp y (added-Grew now o)
  | inr n ↦ simp n (left_out-Grew now o)
]

-- A build's registry and the stored one hold the merged records.
pub load-merged :
    (configured : List Bytes) (now : ℕ) (s t : Stored) (registry : GoMap ClientRecord) (id : Bytes)
    → load_client_registry false configured now s ≡ (some registry, t)
    → (lookup id registry ≡ merged (registered_ids configured) now id (record_of s id))
      × (record_of t id ≡ merged (registered_ids configured) now id (record_of s id))
unfolding load_client_registry lookup
load-merged configured now absent t registry id h =
    let m : RegistryMerge = merge_client_registry [] (registered_ids configured) now in
    let built : m.registry ≡ registry = cc in
    let kept : stored m.registry ≡ t = cc in
    let made = lookup-merge [] (registered_ids configured) now id in
    (rw (← built) made, rw (← kept) made)
load-merged configured now corrupt t registry id h = ground (arith, h)
load-merged configured now (stored have) t registry id h =
    let m : RegistryMerge = merge_client_registry have (registered_ids configured) now in
    let built : m.registry ≡ registry = cc in
    let kept : (if is_changed m then stored m.registry else stored have) ≡ t = cc in
    let made = lookup-merge have (registered_ids configured) now id in
    (
      rw (← built) made,
      rw (← kept) (elim (Bool-cases (is_changed m)) [
        | inl y ↦ simp y made
        | inr n ↦ simp n (rw (merge-unchanged have (registered_ids configured) now n) at made)
      ]),
    )

load-Grew :
    (id : Bytes) (configured : List Bytes) (now : ℕ) (s : Stored)
    → Grew (record_of s id) (record_of (load_client_registry false configured now s).1 id)
unfolding load_client_registry
load-Grew id configured now absent = refl
load-Grew id configured now corrupt = refl
load-Grew id configured now (stored have) =
    let m : RegistryMerge = merge_client_registry have (registered_ids configured) now in
    let made = load-merged configured now (stored have) _ m.registry id refl in
    rw (made.1) (merged-Grew (registered_ids configured) now id (lookup id have))

Build-Grew : (id : Bytes) {s t : Stored} → Build s t → Grew (record_of s id) (record_of t id)
unfolding load_client_registry
Build-Grew id {s} {t} (build true configured now e) = rw (e) (Grew-refl (record_of s id))
Build-Grew id {s} {t} (build false configured now e) = rw (e) (load-Grew id configured now s)

pub Builds-Grew : (id : Bytes) {s t : Stored} → Builds s t → Grew (record_of s id) (record_of t id)
Builds-Grew id {s} here = Grew-refl (record_of s id)
Builds-Grew id {s} {t} (next {t = m} r st) =
    Grew-trans (record_of s id) (record_of m id) (record_of t id) (Builds-Grew id r)
      (Build-Grew id st)
