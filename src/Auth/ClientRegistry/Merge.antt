-- ===== src/Auth/ClientRegistry/Merge.antt =====
-- What a merge makes of each record, and that a merge that changes nothing leaves the registry.
use host_manager.Base.{
  ℕ, Bytes, beq, beq_iff, GoMap, lookup, lookup-insert, ◌≡◌, refl, ap, ◌∙◌, Bool, true, false,
  Option, none, some, List, [], ◌∷◌, ◌++◌, if◌then◌else◌, contains, arith, inl, inr, Bool-cases,
  Option-cases, ◌||◌,
}
use host_manager.Auth.ClientRegistry.{
  ClientRecord, max, RegistryMerge, add_configured, add_all, is_dropped, mark, mark_removed,
  dropped_ids, merge_client_registry, beq_nil, is_changed,
}

-- What becomes of a configured id's record.
abbrev pub added : ℕ → Option ClientRecord → Option ClientRecord
added now none = some (record { present = true; removed_at = 0 })
added now (some r) =
    some (if r.present then r else record { present = true; removed_at = max r.removed_at now })

-- What becomes of the record of an id that is not configured.
abbrev pub left_out : ℕ → Option ClientRecord → Option ClientRecord
left_out now none = none
left_out now (some r) =
    some (if r.present then record { present = false; removed_at = max r.removed_at now } else r)

abbrev pub merged : List Bytes → ℕ → Bytes → Option ClientRecord → Option ClientRecord
merged configured now id o = if contains configured id then added now o else left_out now o

-- A change at one key, where the key is looked up.
same_key :
    (id j : Bytes) (m : GoMap ClientRecord) (f : Option ClientRecord → Option ClientRecord)
    (o : Option ClientRecord)
    → lookup id m ≡ o
    → (if beq id j then f o else lookup j m) ≡ (if beq id j then f (lookup j m) else lookup j m)
same_key id j m f o h = elim (Bool-cases (beq id j)) [
  | inl y ↦
      let same : id ≡ j = (beq_iff id j).0 y in
      let found : lookup j m ≡ o = rw (same) at h in rw (y, found) refl
  | inr n ↦ rw (n) refl
]

added_twice :
    (b c : Bool) (now : ℕ) (o : Option ClientRecord)
    → (if c then added now (if b then added now o else o) else (if b then added now o else o))
      ≡ (if b || c then added now o else o)
added_twice b c now none = ground arith
added_twice b c now (some r) = ground arith

lookup-add_configured :
    (now : ℕ) (id j : Bytes) (m : RegistryMerge)
    → lookup j (add_configured now id m).registry
      ≡ (if beq id j then added now (lookup j m.registry) else lookup j m.registry)
unfolding add_configured
lookup-add_configured now id j m = elim (Option-cases (lookup id m.registry)) [
  | inl n ↦
      rw (add_configured, n)
        (lookup-insert id j _ m.registry ∙ same_key id j m.registry (λ o. added now o) none n)
  | inr (r, e) ↦ elim (Bool-cases r.present) [
    | inl p ↦
        simp (add_configured, e, p)
          (elim (Bool-cases (beq id j)) [
            | inl y ↦
                let found : lookup j m.registry ≡ some r = rw (← (beq_iff id j).0 y) e in
                rw (y, found) (ground (arith, p))
            | inr n ↦ rw (n) refl
          ])
    | inr p ↦
        let again : some (record { present = true; removed_at = max r.removed_at now })
            ≡ added now (some r) =
          ground (arith, p) in
        simp (add_configured, e, p)
          (lookup-insert id j _ m.registry
            ∙ ap (λ (o : Option ClientRecord). if beq id j then o else lookup j m.registry) again
            ∙ same_key id j m.registry (λ o. added now o) (some r) e)
  ]
]

lookup-add_all :
    (now : ℕ) (ids : List Bytes) (j : Bytes) (m : RegistryMerge)
    → lookup j (add_all now ids m).registry
      ≡ (if contains ids j then added now (lookup j m.registry) else lookup j m.registry)
unfolding add_all
lookup-add_all now [] j m = refl
lookup-add_all now (id ∷ ids) j m =
    rw (lookup-add_all now ids j (add_configured now id m), lookup-add_configured now id j m)
      (added_twice (beq id j) (contains ids j) now (lookup j m.registry))

lookup-mark_removed :
    (configured : List Bytes) (now : ℕ) (j : Bytes) (m : GoMap ClientRecord)
    → lookup j (mark_removed configured now m)
      ≡ elim (lookup j m) [ none ↦ none | some r ↦ some (mark configured now j r) ]
unfolding lookup mark_removed
lookup-mark_removed configured now j [] = refl
lookup-mark_removed configured now j ((id, r) ∷ m) = elim (Bool-cases (beq id j)) [
  | inl y ↦ let same : id ≡ j = (beq_iff id j).0 y in rw (y, same) refl
  | inr n ↦ rw (n) (lookup-mark_removed configured now j m)
]

marked :
    (configured : List Bytes) (now : ℕ) (j : Bytes) (o : Option ClientRecord)
    → elim (if contains configured j then added now o else o) as (λ _. Option ClientRecord) [
      | none ↦ none
      | some r ↦ some (mark configured now j r)
    ]
      ≡ merged configured now j o
marked configured now j none = elim (Bool-cases (contains configured j)) [
  | inl y ↦ simp y refl
  | inr n ↦ simp n refl
]
marked configured now j (some r) = elim (Bool-cases (contains configured j)) [
  | inl y ↦ ground (arith, y)
  | inr n ↦ ground (arith, n)
]

nil-append : (xs : List Bytes) (x : Bytes) → beq_nil (xs ++ x ∷ []) ≡ false
nil-append [] x = refl
nil-append (y ∷ xs) x = refl

add_configured-quiet :
    (now : ℕ) (id : Bytes) (m : RegistryMerge)
    → beq_nil (add_configured now id m).recorded ≡ true
    → beq_nil (add_configured now id m).readded ≡ true
    → add_configured now id m ≡ m
unfolding add_configured
add_configured-quiet now id m h k =
    ground (arith, nil-append m.recorded id, nil-append m.readded id)

add_all-quiet :
    (now : ℕ) (ids : List Bytes) (m : RegistryMerge)
    → beq_nil (add_all now ids m).recorded ≡ true
    → beq_nil (add_all now ids m).readded ≡ true
    → add_all now ids m ≡ m
unfolding add_all
add_all-quiet now [] m h k = refl
add_all-quiet now (id ∷ ids) m h k =
    let rest : add_all now ids (add_configured now id m) ≡ add_configured now id m =
      add_all-quiet now ids (add_configured now id m) h k in
    rest ∙ add_configured-quiet now id m (rw rest at h) (rw rest at k)

mark_removed-quiet :
    (configured : List Bytes) (now : ℕ) (m : GoMap ClientRecord)
    → beq_nil (dropped_ids configured m) ≡ true
    → mark_removed configured now m ≡ m
unfolding mark_removed dropped_ids
mark_removed-quiet configured now [] h = refl
mark_removed-quiet configured now ((id, r) ∷ m) h = elim (Bool-cases (is_dropped configured id r)) [
  | inl d ↦ ground (arith, d)
  | inr d ↦ rw (d, mark_removed-quiet configured now m (ground (arith, d))) refl
]

-- Merged, each record is as its id is configured or not.
pub lookup-merge :
    (have : GoMap ClientRecord) (configured : List Bytes) (now : ℕ) (j : Bytes)
    → lookup j (merge_client_registry have configured now).registry
      ≡ merged configured now j (lookup j have)
unfolding merge_client_registry
lookup-merge have configured now j =
    rw
      (
        lookup-mark_removed configured now j
            (add_all now configured
              (record { registry = have; recorded = []; readded = []; removed = [] })).registry,
        lookup-add_all now configured j
            (record { registry = have; recorded = []; readded = []; removed = [] }),
      )
      (marked configured now j (lookup j have))

-- A merge that reports no change has kept the registry.
pub merge-unchanged :
    (have : GoMap ClientRecord) (configured : List Bytes) (now : ℕ)
    → is_changed (merge_client_registry have configured now) ≡ false
    → (merge_client_registry have configured now).registry ≡ have
unfolding merge_client_registry
merge-unchanged have configured now h =
    let m : RegistryMerge =
      add_all now configured
        (record { registry = have; recorded = []; readded = []; removed = [] }) in
    let (new, back, gone) : (beq_nil m.recorded ≡ true)
        × (beq_nil m.readded ≡ true)
        × (beq_nil (dropped_ids configured m.registry) ≡ true) =
      ground arith in
    let quiet : m ≡ record { registry = have; recorded = []; readded = []; removed = [] } =
      add_all-quiet now configured
        (record { registry = have; recorded = []; readded = []; removed = [] }) new back in
    mark_removed-quiet configured now m.registry gone ∙ ap (λ (r : RegistryMerge). r.registry) quiet
