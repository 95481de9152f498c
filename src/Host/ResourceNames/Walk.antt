-- ===== src/Host/ResourceNames/Walk.antt =====
-- A client pages through the names that the host lists itself: internal/host/resource_names.go.
use mathlib.Core.List.{Perm}
use host_manager.Base.{
  ℕ, suc, ◌≤◌, ◌<◌, Bytes, ◌≡◌, ◌≢◌, refl, Bool, Option, some, List, [], ◌∷◌, inl, inr, Bool-cases,
  All, select, length, arith,
}
use host_manager.Host.ResourceNames.{
  ResourceName, is_after, compare_names, insert_name, sort_names, matches,
}
use host_manager.Host.ResourceNames.Sorted.{
  Distinct-select, Ascending, sort_names-Ascending, sort_names-perm,
}
use host_manager.Host.ResourceNames.Native.{TreePage, FunctionEntry, host_native_names}
use host_manager.Host.ResourceNames.Listed.{host_native_names-IsProper}
use host_manager.Host.ResourceNames.Paging.{IsCarried, walk_pages, walk_pages-sort_names}

pub length-select-le :
    (p : ResourceName → Bool) (ns : List ResourceName) → length (select p ns) ≤ length ns
unfolding select
length-select-le p [] = omega arith
length-select-le p (n ∷ ns) = ground (arith, length-select-le p ns)

module _ (lower : Bytes → Bytes) where
  length-insert_name :
      (x : ResourceName) (ns : List ResourceName)
      → length (insert_name lower x ns) ≡ suc (length ns)
  unfolding insert_name
  length-insert_name x [] = refl
  length-insert_name x (n ∷ ns) = elim (Bool-cases (is_after (compare_names lower x n))) [
    | inl e ↦ rw (e) (omega (arith, length-insert_name x ns))
    | inr e ↦ rw (e) refl
  ]

  pub length-sort_names : (ns : List ResourceName) → length (sort_names lower ns) ≡ length ns
  unfolding sort_names
  length-sort_names [] = refl
  length-sort_names (n ∷ ns) =
      omega (arith, length-insert_name n (sort_names lower ns), length-sort_names ns)

pub All-IsCarried :
    (encode : ResourceName → Bytes) (decode : Bytes → Option ResourceName) (ns : List ResourceName)
    → ((n : ResourceName) → encode n ≢ [])
    → All (λ n. decode (encode n) ≡ some n) ns
    → All (λ n. n.name ≢ []) ns
    → All (IsCarried encode decode) ns
All-IsCarried encode decode [] o c p = tt
All-IsCarried encode decode (n ∷ ns) o (c, cs) (p, ps) =
    ((o n, c, p), All-IsCarried encode decode ns o cs ps)

module _ {ℓ} {R : Type ℓ} (verify : Bytes → Bytes → R → Option Bool) (nothing_required : R)
    (ready_state : Bytes) (encode : ResourceName → Bytes) (decode : Bytes → Option ResourceName)
    (lower : Bytes → Bytes) where
  -- If a cursor's text is never empty and gives back the listed name that it was made of: a client that
  -- follows the cursors of the pages or functions that the host lists, from the first page on with any page
  -- size from 1, gets to a last page, in no more pages than there are names and one, and the pages together
  -- list the names that match the search, each once, in strictly ascending order.
  pub walk_pages-host_native_names :
      (resource : Bytes) (pages : List (TreePage R)) (functions : List FunctionEntry) (q : Bytes)
      (k f : ℕ)
      → ((n : ResourceName) → encode n ≢ [])
      → All
          (λ n. decode (encode n) ≡ some n)
          (host_native_names verify nothing_required ready_state resource pages functions)
      → length (host_native_names verify nothing_required ready_state resource pages functions) < f
      → (listed : List ResourceName) × (walk_pages encode decode lower f
            (host_native_names verify nothing_required ready_state resource pages functions)
            q
            (suc k)
            []
          ≡ some listed)
        × Ascending lower listed
        × Perm listed (
            select
              (matches lower q)
              (host_native_names verify nothing_required ready_state resource pages functions))
  walk_pages-host_native_names resource pages functions q k f o c h =
      let all = host_native_names verify nothing_required ready_state resource pages functions in
      let (d, p) =
        host_native_names-IsProper verify nothing_required ready_state resource pages functions in
      let found = select (matches lower q) all in
      let fuel : length (sort_names lower found) < f =
        omega (arith, length-sort_names lower found, length-select-le (matches lower q) all) in
      (
        sort_names lower found,
        walk_pages-sort_names encode decode lower all q d (All-IsCarried encode decode all o c p) k
            f fuel,
        sort_names-Ascending lower found (Distinct-select (matches lower q) all d),
        sort_names-perm lower found,
      )
