-- ===== src/Examples/Listing.antt =====
-- Concrete runs of the listing of resource names.
use mathlib.Core.List.{Perm}
use host_manager.Base.{
  has_infix, ℕ, zero, suc, ◌+◌, Bytes, text, beq, GoMap, ◌≡◌, ◌↔◌, refl, Bool, true, false, ◌&&◌,
  Option, none, some, List, [], ◌∷◌, ◌++◌, select, length, leb, contains, if◌then◌else◌, arith,
}
use host_manager.Host.ResourceNames.{ResourceName, matches, page_of_names}
use host_manager.Host.ResourceNames.Sorted.{Ascending}
use host_manager.Host.ResourceNames.Native.{TreePage, FunctionEntry, host_native_names}
use host_manager.Host.ResourceNames.Listed.{listed, HasPage, HasFunction, host_native_names-exact}
use host_manager.Host.ResourceNames.Paging.{walk_pages}
use host_manager.Host.ResourceNames.Walk.{walk_pages-host_native_names}
use host_manager.Host.ResourceNames.Handler.{
  PathInfo, BufferedResponse, ListingRequest, resource_names_handler, listing_route,
}
use host_manager.Host.ResourceNames.Answers.{IsSafe, answered, resource_names_handler-IsSafe}
use host_manager.Host.ResourceNames.Routes.{Decides, declares, listing_route-Decides}

-- A codec: the length of the name, the name and the label.
abbrev encode : ResourceName → Bytes
encode n = length n.name ∷ n.name ++ n.label

abbrev cut_at : ℕ → Bytes → Bytes → Option ResourceName
cut_at zero name rest = some (record { name = name; label = rest })
cut_at (suc k) name [] = none
cut_at (suc k) name (c ∷ rest) = cut_at k (name ++ c ∷ []) rest

abbrev decode : Bytes → Option ResourceName
decode [] = none
decode (k ∷ s) = cut_at k [] s

abbrev lower : Bytes → Bytes
lower [] = []
lower (c ∷ s) = (if leb 65 c && leb c 90 then c + 32 else c) ∷ lower s

-- The gate lets a page through that requires nothing.
abbrev verify : Bytes → Bytes → Bool → Option Bool
verify resource name required = if required then some false else some true

abbrev page : Bytes → Bytes → Option Bool → TreePage Bool
page path label required = record {
  parsed_requirements = required;
  base_path = path;
  label = label;
}

abbrev pages : List (TreePage Bool)
pages =
    page (text "/shop") (text "Shop") (some false)
    ∷ page (text "/admin") (text "Admin") (some true)
    ∷ page (text "/about") (text "About") (some false)
    ∷ page (text "/shop") (text "Again") (some false)
    ∷ page (text "/new") (text "New") none
    ∷ []

abbrev functions : List FunctionEntry
functions =
    record { internal = false; state = text "Ready"; base_path = text "/v1/pay"; name = text "pay" }
    ∷ record {
      internal = true;
      state = text "Ready";
      base_path = text "/v1/ops";
      name = text "ops";
    }
    ∷ []

abbrev listed_pages : List ResourceName
listed_pages = host_native_names verify false (text "Ready") (text "pages") pages functions

walk_pages-host_native_names_example :
    (listed : List ResourceName) × (walk_pages encode decode lower 3 listed_pages [] 1 []
      ≡ some listed)
    × Ascending lower listed
    × Perm listed (select (matches lower []) listed_pages)
unfolding host_native_names beq
walk_pages-host_native_names_example =
    walk_pages-host_native_names verify false (text "Ready") encode decode lower (text "pages")
      pages functions [] 0 3 (λ n. ground arith) (refl, (refl, tt)) (omega arith)

-- Two pages of one name each, in the order of the labels
paged :
    walk_pages encode decode lower 3 listed_pages [] 1 []
    ≡ some (
        (record { name = text "/about"; label = text "About" })
        ∷ (record { name = text "/shop"; label = text "Shop" })
        ∷ [])
unfolding walk_pages page_of_names host_native_names beq
paged = refl

host_native_names-exact_example :
    ((contains (listed verify false (text "Ready") (text "pages") pages functions) (text "/v1/ops")
        ≡ true)
      ↔ HasPage verify pages (text "/v1/ops"))
    × ((contains
            (listed verify false (text "Ready") (text "functions") pages functions)
            (text "/v1/ops")
          ≡ true)
        ↔ HasFunction verify false (text "Ready") functions (text "/v1/ops"))
host_native_names-exact_example =
    host_native_names-exact verify false (text "Ready") pages functions (text "/v1/ops")
      (ground arith)

-- The internal function is not listed, and the other one is.
pay_only :
    listed verify false (text "Ready") (text "functions") pages functions ≡ text "/v1/pay" ∷ []
unfolding host_native_names beq
pay_only = refl

abbrev paths : GoMap PathInfo
paths =
    (
      text "/v1/roles",
      record {
        is_function = true;
        paths =
            (text "/v1/roles/names", record { get = some (text "roles") })
            ∷ (text "/v1/roles/{id}", record { get = some (text "roles") })
            ∷ [];
      },
    )
    ∷ []

listing_route-Decides_example :
    Decides (declares (text "roles") paths) (listing_route paths (text "roles"))
unfolding beq
listing_route-Decides_example = listing_route-Decides paths (text "roles") refl

abbrev asked : ListingRequest
asked = record {
  resource = text "pages";
  q = text "SH";
  cursor = [];
  verb = text "read";
  limit = text "1";
}

abbrev attenuates : Bytes → Bool
attenuates e = beq e (text "pages:/shop:read")

abbrev serve : Bytes → Bytes → Bytes → ℕ → BufferedResponse
serve route q cursor limit = record { status = 404; challenge = []; overflow = false; body = [] }

resource_names_handler-IsSafe_example : IsSafe attenuates asked 200 (
    answered (
      resource_names_handler encode decode lower attenuates
        (λ body. none)
        serve
        true
        listed_pages
        paths
        asked))
unfolding host_native_names beq
resource_names_handler-IsSafe_example =
    resource_names_handler-IsSafe encode decode lower attenuates (λ body. none) serve true
      listed_pages paths asked (ground arith, (ground arith, tt))

answers_shop :
    answered (
      resource_names_handler encode decode lower attenuates
        (λ body. none)
        serve
        true
        listed_pages
        paths
        asked)
    ≡ (record { name = text "/shop"; label = text "Shop" }) ∷ []
unfolding resource_names_handler host_native_names beq has_infix
answers_shop = refl
