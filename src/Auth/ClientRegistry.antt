-- ===== src/Auth/ClientRegistry.antt =====
-- internal/auth/client_registry.go: the record of every client id that a host has ever had configured. Times are Unix
-- seconds. A build reads the stored registry and updates it in one step: the update is atomic, and a build that writes
-- nothing acts at its read.
pub mod Merge
pub mod Builds
use host_manager.Base.{
  ℕ, Bytes, text, beq, has_prefix, GoMap, lookup, insert, Bool, true, false, not, ◌&&◌, ◌||◌,
  Option, none, some, List, [], ◌∷◌, ◌++◌, leb, if◌then◌else◌, contains,
}

pub record ClientRecord : Type 0 where
  pub present : Bool
  pub removed_at : ℕ

abbrev pub max : ℕ → ℕ → ℕ
max a b = if leb a b then b else a

-- dcr.ClientIDPrefix
abbrev pub client_id_prefix : Bytes
client_id_prefix = text "dcr_"

-- The removed ids stand in the order of the map: their order is only logged.
pub record RegistryMerge : Type 0 where
  pub registry : GoMap ClientRecord
  pub recorded : List Bytes
  pub readded : List Bytes
  pub removed : List Bytes

-- One configured id.
unfoldable pub add_configured : ℕ → Bytes → RegistryMerge → RegistryMerge
add_configured now id m = elim (lookup id m.registry) [
  | none ↦ record m {
    registry = insert id (record { present = true; removed_at = 0 }) m.registry;
    recorded = m.recorded ++ id ∷ [];
  }
  | some r ↦ if r.present then m else record m {
    registry = insert id (record { present = true; removed_at = max r.removed_at now }) m.registry;
    readded = m.readded ++ id ∷ [];
  }
]

unfoldable pub add_all : ℕ → List Bytes → RegistryMerge → RegistryMerge
add_all now [] m = m
add_all now (id ∷ ids) m = add_all now ids (add_configured now id m)

-- A record that is present and not configured is marked.
abbrev pub is_dropped : List Bytes → Bytes → ClientRecord → Bool
is_dropped configured id r = r.present && not (contains configured id)

abbrev pub mark : List Bytes → ℕ → Bytes → ClientRecord → ClientRecord
mark configured now id r =
    if is_dropped configured id r
    then record { present = false; removed_at = max r.removed_at now }
    else r

-- The loop over the registry.
unfoldable pub mark_removed : List Bytes → ℕ → GoMap ClientRecord → GoMap ClientRecord
mark_removed configured now [] = []
mark_removed configured now ((id, r) ∷ m) =
    (id, mark configured now id r) ∷ mark_removed configured now m

unfoldable pub dropped_ids : List Bytes → GoMap ClientRecord → List Bytes
dropped_ids configured [] = []
dropped_ids configured ((id, r) ∷ m) =
    let rest = dropped_ids configured m in if is_dropped configured id r then id ∷ rest else rest

-- mergeClientRegistry
unfoldable pub merge_client_registry : GoMap ClientRecord → List Bytes → ℕ → RegistryMerge
unfolding add_all mark_removed dropped_ids
merge_client_registry have configured now =
    let m =
      add_all now configured
        (record { registry = have; recorded = []; readded = []; removed = [] }) in
    record m {
      registry = mark_removed configured now m.registry;
      removed = dropped_ids configured m.registry;
    }

abbrev pub beq_nil : List Bytes → Bool
beq_nil [] = true
beq_nil (x ∷ xs) = false

abbrev pub is_changed : RegistryMerge → Bool
is_changed m = not (beq_nil m.recorded && beq_nil m.readded && beq_nil m.removed)

-- The ids of a configuration that the registry records.
unfoldable pub registered_ids : List Bytes → List Bytes
registered_ids [] = []
registered_ids (id ∷ ids) =
    let rest = registered_ids ids in
    if beq id [] || has_prefix id client_id_prefix then rest else id ∷ rest

-- The value of the registry's key: none yet, one that does not decode, or a registry.
pub data Stored : Type 0 where
  absent corrupt : Stored
  stored : GoMap ClientRecord → Stored

-- loadClientRegistry with a cache: the registry of the build and what is stored after it; none where the build fails.
unfoldable pub load_client_registry :
    Bool → List Bytes → ℕ → Stored → Option (GoMap ClientRecord) × Stored
unfolding merge_client_registry
load_client_registry fails configured now s = if fails then (none, s) else elim s [
  | corrupt ↦ (none, corrupt)
  | absent ↦
      (let m = merge_client_registry [] (registered_ids configured) now in
        (some m.registry, stored m.registry))
  | stored have ↦
      (let m = merge_client_registry have (registered_ids configured) now in
        (some m.registry, if is_changed m then stored m.registry else stored have))
]
