-- ===== src/Host/ResourceNames/Handler.antt =====
-- internal/host/resource_names.go: the handler, the route of a function that lists a resource, and the answer of its
-- owner. The host's own mux, the decoding of JSON and the attenuation test are parameters.
use host_manager.Base.{
  ℕ, Bytes, text, beq, has_byte, GoMap, Bool, false, not, ◌&&◌, ◌||◌, Option, none, some, List, [],
  ◌∷◌, ◌++◌, ltb, ◌==◌, if◌then◌else◌, length, contains, select,
}
use host_manager.Host.ResourceNames.{ResourceName, NamesPage, page_of_names, listing_limit}

abbrev pub host_native_resources : List Bytes
host_native_resources = text "pages" ∷ text "functions" ∷ []

-- The GET operation of a path, with what listingResource reads from its extension.
pub record PathItem : Type 0 where
  pub get : Option Bytes

pub record PathInfo : Type 0 where
  pub is_function : Bool
  pub paths : GoMap PathItem

-- The answer of listingRoute
pub data Route : Type 0 where
  unclaimed ambiguous : Route
  claimed : Bytes → Route

unfoldable pub is_listing : Bytes → Bytes → PathItem → Bool
is_listing resource route item = elim item.get [
  | none ↦ false
  | some declared ↦ not (has_byte b'{' route) && beq declared resource
]

unfoldable pub add_route : Bytes → List Bytes → List Bytes
add_route route routes = if contains routes route then routes else routes ++ route ∷ []

unfoldable pub collect_items : Bytes → GoMap PathItem → List Bytes → List Bytes
unfolding is_listing add_route
collect_items resource [] routes = routes
collect_items resource ((route, item) ∷ items) routes =
    collect_items resource items
      (if is_listing resource route item then add_route route routes else routes)

unfoldable pub collect_routes : Bytes → GoMap PathInfo → List Bytes → List Bytes
unfolding collect_items
collect_routes resource [] routes = routes
collect_routes resource ((path, info) ∷ infos) routes =
    collect_routes resource infos
      (if info.is_function then collect_items resource info.paths routes else routes)

abbrev pub pick : List Bytes → Route
pick [] = unclaimed
pick (route ∷ []) = claimed route
pick (route ∷ other ∷ routes) = ambiguous

unfoldable pub listing_route : GoMap PathInfo → Bytes → Route
unfolding collect_routes
listing_route paths resource =
    if contains host_native_resources resource
    then unclaimed
    else pick (collect_routes resource paths [])

-- A re-dispatched response, as bufferedResponse captures it.
pub record BufferedResponse : Type 0 where
  pub status : ℕ
  pub challenge : Bytes
  pub overflow : Bool
  pub body : Bytes

unfoldable pub has_unnamed : List ResourceName → Bool
has_unnamed [] = false
has_unnamed (n ∷ ns) = beq n.name [] || has_unnamed ns

-- The test of a parsed page
unfoldable pub check_page : ℕ → Option NamesPage → Option NamesPage
unfolding has_unnamed
check_page limit none = none
check_page limit (some page) =
    if ltb limit (length page.items) || has_unnamed page.items then none else some page

-- The page and the status that dispatchListing returns
unfoldable pub read_listing :
    (Bytes → Option NamesPage) → BufferedResponse → ℕ → Option NamesPage × ℕ
unfolding check_page
read_listing unmarshal r limit =
    if not (r.status == 200)
    then (none, r.status)
    else if r.overflow
    then (none, 200)
    else (check_page limit (unmarshal r.body), 200)

pub data Response : Type 0 where
  unauthenticated limit_refused cursor_refused misconfigured not_found bad_gateway : Response
  passed_on : ℕ → Bytes → Response
  listed : List ResourceName → Bytes → Response

pub record ListingRequest : Type 0 where
  pub resource : Bytes
  pub q : Bytes
  pub cursor : Bytes
  pub verb : Bytes
  pub limit : Bytes

abbrev pub entitlement : ListingRequest → ResourceName → Bytes
entitlement r n = r.resource ++ text ":" ++ n.name ++ text ":" ++ r.verb

module _ (encode : ResourceName → Bytes) (decode : Bytes → Option ResourceName)
    (lower : Bytes → Bytes) (attenuates : Bytes → Bool) (unmarshal : Bytes → Option NamesPage)
    (serve : Bytes → Bytes → Bytes → ℕ → BufferedResponse) where
  -- The narrowing to the names that the caller can grant
  unfoldable pub answer_page : ListingRequest → NamesPage → Response
  unfolding select
  answer_page r page =
      if beq r.verb []
      then listed page.items page.next
      else listed (select (λ n. attenuates (entitlement r n)) page.items) page.next

  -- The answer to what dispatchListing returns
  abbrev pub answer_read : ListingRequest → Bytes → Option NamesPage → ℕ → Response
  answer_read r challenge none status =
      if not (status == 200) then passed_on status challenge else bad_gateway
  answer_read r challenge (some page) status =
      if not (status == 200) then passed_on status challenge else answer_page r page

  unfoldable pub answer_route : ListingRequest → ℕ → Route → Response
  unfolding read_listing
  answer_route r limit unclaimed = not_found
  answer_route r limit ambiguous = misconfigured
  answer_route r limit (claimed route) =
      let response = serve route r.q r.cursor limit in
      let read = read_listing unmarshal response limit in
      answer_read r response.challenge read.0 read.1

  abbrev pub answer_native : ListingRequest → Option NamesPage → Response
  answer_native r none = cursor_refused
  answer_native r (some page) = answer_page r page

  -- resourceNamesHandler of a request that carries an identity, or none; native are the host's own names.
  unfoldable pub resource_names_handler :
      Bool → List ResourceName → GoMap PathInfo → ListingRequest → Response
  unfolding page_of_names answer_page answer_route listing_limit listing_route
  resource_names_handler authenticated native paths r =
      if not authenticated then unauthenticated else elim (listing_limit r.limit) [
        | none ↦ limit_refused
        | some limit ↦
            if contains host_native_resources r.resource
            then answer_native r (page_of_names encode decode lower native r.q r.cursor limit)
            else answer_route r limit (listing_route paths r.resource)
      ]
