-- ===== src/Host/ResourceNames/Routes.antt =====
-- The route that listingRoute of internal/host/resource_names.go gives for a resource.
use host_manager.Base.{
  Bytes, beq, beq_iff, beq_self, GoMap, ◌≡◌, ◌≢◌, refl, sym, Bool, true, false, ◌&&◌, ◌||◌, List,
  [], ◌∷◌, ◌++◌, inl, inr, Bool-cases, contains, contains-append, arith,
}
use host_manager.Host.ResourceNames.Handler.{
  PathItem, PathInfo, Route, unclaimed, ambiguous, claimed, is_listing, add_route, collect_items,
  collect_routes, pick, listing_route, host_native_resources,
}

-- A function declares that the route lists the resource.
unfoldable pub has_item : Bytes → GoMap PathItem → Bytes → Bool
unfolding is_listing
has_item resource [] r = false
has_item resource ((route, item) ∷ items) r =
    (is_listing resource route item && beq route r) || has_item resource items r

unfoldable pub declares : Bytes → GoMap PathInfo → Bytes → Bool
unfolding has_item
declares resource [] r = false
declares resource ((path, info) ∷ infos) r =
    (info.is_function && has_item resource info.paths r) || declares resource infos r

-- The route given is the only one declared; none is given where none is declared, and where two are.
abbrev pub Decides : (Bytes → Bool) → Route → Type 0
Decides d unclaimed = (r : Bytes) → d r ≡ false
Decides d (claimed route) = (r : Bytes) → d r ≡ beq route r
Decides d ambiguous = (r : Bytes) × (s : Bytes) × (r ≢ s) × (d r ≡ true) × (d s ≡ true)

abbrev Unique : List Bytes → Type 0
Unique [] = Unit {0}
Unique (r ∷ rs) = (contains rs r ≡ false) × Unique rs

Unique-append :
    (rs : List Bytes) (r : Bytes) → Unique rs → contains rs r ≡ false → Unique (rs ++ r ∷ [])
Unique-append [] r u h = (refl, tt)
Unique-append (s ∷ rs) r (k, u) h = (
  rw (contains-append) (ground (arith, k, h, beq_iff r s, beq_iff s r)),
  Unique-append rs r u (ground (arith, h)),
)

add_route-Unique : (r : Bytes) (rs : List Bytes) → Unique rs → Unique (add_route r rs)
unfolding add_route
add_route-Unique r rs u = elim (Bool-cases (contains rs r)) [
  | inl y ↦ rw (y) u
  | inr y ↦ rw (y) (Unique-append rs r u y)
]

contains-add_route :
    (r : Bytes) (rs : List Bytes) (s : Bytes)
    → contains (add_route r rs) s ≡ (contains rs s || beq r s)
unfolding add_route
contains-add_route r rs s = elim (Bool-cases (contains rs r)) [
  | inl y ↦ rw (y) (ground (arith, y, beq_iff r s))
  | inr y ↦ rw (y, contains-append) (ground arith)
]

collect_items-Unique :
    (resource : Bytes) (items : GoMap PathItem) (rs : List Bytes)
    → Unique rs
    → Unique (collect_items resource items rs)
unfolding collect_items
collect_items-Unique resource [] rs u = u
collect_items-Unique resource ((route, item) ∷ items) rs u =
    elim (Bool-cases (is_listing resource route item)) [
      | inl y ↦
          rw (y)
            (collect_items-Unique resource items (add_route route rs) (add_route-Unique route rs u))
      | inr y ↦ rw (y) (collect_items-Unique resource items rs u)
    ]

contains-collect_items :
    (resource : Bytes) (items : GoMap PathItem) (rs : List Bytes) (r : Bytes)
    → contains (collect_items resource items rs) r ≡ (contains rs r || has_item resource items r)
unfolding collect_items has_item
contains-collect_items resource [] rs r = ground arith
contains-collect_items resource ((route, item) ∷ items) rs r =
    elim (Bool-cases (is_listing resource route item)) [
      | inl y ↦ rw (y) (
          ground (
            arith,
            contains-collect_items resource items (add_route route rs) r,
            contains-add_route route rs r,
          ))
      | inr y ↦ rw (y) (ground (arith, contains-collect_items resource items rs r))
    ]

collect_routes-Unique :
    (resource : Bytes) (infos : GoMap PathInfo) (rs : List Bytes)
    → Unique rs
    → Unique (collect_routes resource infos rs)
unfolding collect_routes
collect_routes-Unique resource [] rs u = u
collect_routes-Unique resource ((path, info) ∷ infos) rs u = elim (Bool-cases info.is_function) [
  | inl y ↦ rw (y) (
      collect_routes-Unique resource infos (collect_items resource info.paths rs)
        (collect_items-Unique resource info.paths rs u))
  | inr y ↦ rw (y) (collect_routes-Unique resource infos rs u)
]

contains-collect_routes :
    (resource : Bytes) (infos : GoMap PathInfo) (rs : List Bytes) (r : Bytes)
    → contains (collect_routes resource infos rs) r ≡ (contains rs r || declares resource infos r)
unfolding collect_routes declares
contains-collect_routes resource [] rs r = ground arith
contains-collect_routes resource ((path, info) ∷ infos) rs r = elim (Bool-cases info.is_function) [
  | inl y ↦ rw (y) (
      ground (
        arith,
        contains-collect_routes resource infos (collect_items resource info.paths rs) r,
        contains-collect_items resource info.paths rs r,
      ))
  | inr y ↦ rw (y) (ground (arith, contains-collect_routes resource infos rs r))
]

pick-Decides :
    (rs : List Bytes) (d : Bytes → Bool)
    → Unique rs
    → ((r : Bytes) → contains rs r ≡ d r)
    → Decides d (pick rs)
pick-Decides [] d u h = λ r. sym (h r)
pick-Decides (r ∷ []) d u h = λ s. ground (arith, h s)
pick-Decides (r ∷ s ∷ rs) d (k, u) h = (
  r,
  s,
  ground (arith, k, beq_iff s r),
  ground (arith, h r, beq_self r),
  ground (arith, h s, beq_self s),
)

-- For a resource that the host does not list itself: a route is chosen only if it is the one route that
-- functions declare for the resource, none is found only if none is declared, and the declaration is ambiguous
-- only if two different routes are.
pub listing_route-Decides :
    (paths : GoMap PathInfo) (resource : Bytes)
    → contains host_native_resources resource ≡ false
    → Decides (declares resource paths) (listing_route paths resource)
unfolding listing_route
listing_route-Decides paths resource n = rw (n) (
    pick-Decides (collect_routes resource paths []) (declares resource paths)
      (collect_routes-Unique resource paths [] tt)
      (λ r. contains-collect_routes resource paths [] r))
