-- ===== src/Host/ResourceNames/Answers.antt =====
-- What resourceNamesHandler of internal/host/resource_names.go may answer with.
use host_manager.Base.{
  ℕ, zero, suc, ◌≤◌, Bytes, beq, beq_iff, GoMap, ◌≡◌, ◌≢◌, refl, sym, Bool, true, false, not, ◌||◌,
  Option, none, some, List, [], ◌∷◌, inl, inr, Bool-cases, Option-cases, some_inj, All, All-select,
  select, length, contains, ltb, ◌==◌, arith,
}
use host_manager.Cache.Decimal.{ℤ, pos, negsuc, parse_int}
use host_manager.Host.ResourceNames.{
  ResourceName, NamesPage, sort_names, matches, is_past, take_names, cut, page_of,
  decode_names_cursor, page_of_names, bounded, listing_limit,
}
use host_manager.Host.ResourceNames.Sorted.{All-sort_names}
use host_manager.Host.ResourceNames.Walk.{length-select-le}
use host_manager.Host.ResourceNames.Handler.{
  PathInfo, Route, unclaimed, ambiguous, claimed, host_native_resources, BufferedResponse,
  has_unnamed, read_listing, Response, listed, ListingRequest, entitlement, answer_page,
  answer_read, answer_route, answer_native, check_page, resource_names_handler,
}

-- A number of items that a limit allows, each with a name.
abbrev pub IsAllowed : ℕ → List ResourceName → Type 0
IsAllowed limit ns = (length ns ≤ limit) × All (λ n. n.name ≢ []) ns

bounded-le : (o : Option ℤ) (k : ℕ) → bounded o ≡ some k → (1 ≤ k) × (k ≤ 200)
bounded-le none k h = absurd (ground (arith, h))
bounded-le (some (pos n)) k h = ground (arith, h)
bounded-le (some (negsuc n)) k h = absurd (ground (arith, h))

listing_limit-le : (v : Bytes) (k : ℕ) → listing_limit v ≡ some k → (1 ≤ k) × (k ≤ 200)
unfolding listing_limit
listing_limit-le v k h = elim (Bool-cases (beq v [])) [
  | inl e ↦ let same : some 50 ≡ some k = rw (e) at h in ground (arith, same)
  | inr e ↦ bounded-le (parse_int v) k (rw (e) at h)
]

length-take_names-le : (k : ℕ) (ns : List ResourceName) → length (take_names k ns) ≤ k
length-take_names-le zero ns = omega arith
length-take_names-le (suc k) [] = omega arith
length-take_names-le (suc k) (n ∷ ns) = omega (arith, length-take_names-le k ns)

All-take_names {ℓ} :
    (P : ResourceName → Type ℓ) (k : ℕ) (ns : List ResourceName)
    → All P ns
    → All P (take_names k ns)
All-take_names P zero ns h = tt
All-take_names P (suc k) [] h = tt
All-take_names P (suc k) (n ∷ ns) (h, hs) = (h, All-take_names P k ns hs)

items-cut : (encode : ResourceName → Bytes) (ns : List ResourceName) → (cut encode ns).items ≡ ns
items-cut encode [] = refl
items-cut encode (n ∷ ns) = refl

page_of-IsAllowed :
    (encode : ResourceName → Bytes) (k : ℕ) (ns : List ResourceName)
    → All (λ n. n.name ≢ []) ns
    → IsAllowed k (page_of encode k ns).items
unfolding page_of
page_of-IsAllowed encode k ns h = elim (Bool-cases (ltb k (length ns))) [
  | inl more ↦ rw (more, items-cut) (length-take_names-le k ns, All-take_names _ k ns h)
  | inr done ↦ rw (done) (ground (arith, done), h)
]

has_unnamed-All : (ns : List ResourceName) → has_unnamed ns ≡ false → All (λ n. n.name ≢ []) ns
unfolding has_unnamed
has_unnamed-All [] h = tt
has_unnamed-All (n ∷ ns) h =
    (ground (arith, beq_iff n.name []), has_unnamed-All ns (ground (arith, h)))

-- What an answer may hold: an allowed number of names, each grantable for the verb that was asked for.
module _ (attenuates : Bytes → Bool) where
  abbrev pub IsSafe : ListingRequest → ℕ → List ResourceName → Type 0
  IsSafe r k ns = IsAllowed k ns × (r.verb ≢ [] → All (λ n. attenuates (entitlement r n) ≡ true) ns)

-- The items of an answer
abbrev pub answered : Response → List ResourceName
answered (listed ns next) = ns
answered _ = []

All-self : (p : ResourceName → Bool) (ns : List ResourceName) → All (λ n. p n ≡ true) (select p ns)
unfolding select
All-self p [] = tt
All-self p (n ∷ ns) = elim (Bool-cases (p n)) [
  | inl y ↦ rw (y) (y, All-self p ns)
  | inr y ↦ rw (y) (All-self p ns)
]

none-ne-some : {page : NamesPage} → none ≡ some page → ⊥
none-ne-some h = ground (arith, h)

check_page-IsAllowed :
    (k : ℕ) (o : Option NamesPage) (page : NamesPage)
    → check_page k o ≡ some page
    → IsAllowed k page.items
unfolding check_page
check_page-IsAllowed k none page h = absurd (none-ne-some h)
check_page-IsAllowed k (some p) page h =
    elim (Bool-cases (ltb k (length p.items) || has_unnamed p.items)) [
      | inl y ↦ absurd (none-ne-some (rw (y) at h))
      | inr y ↦
          let same : some p ≡ some page = rw (y) at h in
          rw (sym (some_inj _ _ same))
            (ground (arith, y), has_unnamed-All p.items (ground (arith, y)))
    ]

read_listing-IsAllowed :
    (unmarshal : Bytes → Option NamesPage) (response : BufferedResponse) (k : ℕ) (page : NamesPage)
    → (read_listing unmarshal response k).0 ≡ some page
    → IsAllowed k page.items
unfolding read_listing
read_listing-IsAllowed unmarshal response k page h =
    elim (Bool-cases (not (response.status == 200))) [
      | inl y ↦ absurd (none-ne-some (rw (y) at h))
      | inr y ↦ elim (Bool-cases response.overflow) [
        | inl z ↦ absurd (none-ne-some (rw (y, z) at h))
        | inr z ↦ check_page-IsAllowed k (unmarshal response.body) page (rw (y, z) at h)
      ]
    ]

module _ (encode : ResourceName → Bytes) (decode : Bytes → Option ResourceName)
    (lower : Bytes → Bytes) (attenuates : Bytes → Bool) (unmarshal : Bytes → Option NamesPage)
    (serve : Bytes → Bytes → Bytes → ℕ → BufferedResponse) where
  answer_page-IsSafe :
      (r : ListingRequest) (k : ℕ) (page : NamesPage)
      → IsAllowed k page.items
      → IsSafe attenuates r k
          (answered (answer_page encode decode lower attenuates unmarshal serve r page))
  unfolding answer_page
  answer_page-IsSafe r k page (le, p) = elim (Bool-cases (beq r.verb [])) [
    | inl y ↦ rw (y) ((le, p), λ v. absurd (v ((beq_iff r.verb []).0 y)))
    | inr y ↦
        let grantable : ResourceName → Bool = λ n. attenuates (entitlement r n) in
        rw (y) (
          (
            omega (arith, le, length-select-le grantable page.items),
            All-select (λ n. n.name ≢ []) grantable page.items p,
          ),
          λ v. All-self grantable page.items,
        )
  ]

  widen :
      (r : ListingRequest) (k : ℕ) (ns : List ResourceName)
      → k ≤ 200
      → IsSafe attenuates r k ns
      → IsSafe attenuates r 200 ns
  widen r k ns h ((le, p), v) = ((omega (arith, le, h), p), v)

  nothing-IsSafe : (r : ListingRequest) (k : ℕ) → IsSafe attenuates r k []
  nothing-IsSafe r k = ((omega arith, tt), λ v. tt)

  answer_read-IsSafe :
      (r : ListingRequest) (challenge : Bytes) (o : Option NamesPage) (status k : ℕ)
      → ((page : NamesPage) → o ≡ some page → IsAllowed k page.items)
      → IsSafe attenuates r k (
          answered
            (answer_read encode decode lower attenuates unmarshal serve r challenge o status))
  answer_read-IsSafe r challenge none status k h = elim (Bool-cases (not (status == 200))) [
    | inl y ↦ rw (y) (nothing-IsSafe r k)
    | inr y ↦ rw (y) (nothing-IsSafe r k)
  ]
  answer_read-IsSafe r challenge (some page) status k h = elim (Bool-cases (not (status == 200))) [
    | inl y ↦ rw (y) (nothing-IsSafe r k)
    | inr y ↦ rw (y) (answer_page-IsSafe r k page (h page refl))
  ]

  answer_route-IsSafe :
      (r : ListingRequest) (k : ℕ) (route : Route)
      → IsSafe attenuates r k
          (answered (answer_route encode decode lower attenuates unmarshal serve r k route))
  unfolding answer_route
  answer_route-IsSafe r k unclaimed = nothing-IsSafe r k
  answer_route-IsSafe r k ambiguous = nothing-IsSafe r k
  answer_route-IsSafe r k (claimed route) =
      let response = serve route r.q r.cursor k in
      let read = read_listing unmarshal response k in
      answer_read-IsSafe r response.challenge read.0 read.1 k
        (λ page e. read_listing-IsAllowed unmarshal response k page e)

  page_of_names-IsAllowed :
      (native : List ResourceName) (q cursor : Bytes) (k : ℕ) (page : NamesPage)
      → All (λ n. n.name ≢ []) native
      → page_of_names encode decode lower native q cursor k ≡ some page
      → IsAllowed k page.items
  unfolding page_of_names
  page_of_names-IsAllowed native q cursor k page p h =
      elim (Option-cases (decode_names_cursor decode cursor)) [
        | inl n ↦ absurd (none-ne-some (rw (page_of_names, n) at h))
        | inr (past, e) ↦
            let found = select (is_past lower past) (select (matches lower q) native) in
            let kept =
              All-select (λ n. n.name ≢ []) (is_past lower past) (select (matches lower q) native)
                (All-select (λ n. n.name ≢ []) (matches lower q) native p) in
            let made : some (page_of encode k (sort_names lower found)) ≡ some page =
              rw (page_of_names, e) at h in
            rw (sym (some_inj _ _ made)) (
              page_of-IsAllowed encode k (sort_names lower found)
                (All-sort_names lower (λ n. n.name ≢ []) found kept))
      ]

  answer_native-IsSafe :
      (r : ListingRequest) (k : ℕ) (o : Option NamesPage)
      → ((page : NamesPage) → o ≡ some page → IsAllowed k page.items)
      → IsSafe attenuates r k
          (answered (answer_native encode decode lower attenuates unmarshal serve r o))
  answer_native-IsSafe r k none h = nothing-IsSafe r k
  answer_native-IsSafe r k (some page) h = answer_page-IsSafe r k page (h page refl)

  -- If no name that the host lists itself is empty, then an answer to a listing request, the host's own or
  -- passed on from an owner, has at most 200 items, each with a name, and where a verb is asked for, each is one
  -- that the caller can grant for the verb.
  pub resource_names_handler-IsSafe :
      (authenticated : Bool) (native : List ResourceName) (paths : GoMap PathInfo)
      (r : ListingRequest)
      → All (λ n. n.name ≢ []) native
      → IsSafe attenuates r 200 (
          answered (
            resource_names_handler encode decode lower attenuates unmarshal serve authenticated
              native paths r))
  unfolding resource_names_handler
  resource_names_handler-IsSafe false native paths r p = nothing-IsSafe r 200
  resource_names_handler-IsSafe true native paths r p =
      elim (Option-cases (listing_limit r.limit)) [
        | inl n ↦ rw (n) (nothing-IsSafe r 200)
        | inr (k, e) ↦ rw (e) (elim (Bool-cases (contains host_native_resources r.resource)) [
          | inl y ↦ rw (y) (
              widen r k _ (listing_limit-le r.limit k e).1 (
                answer_native-IsSafe r k _
                  (λ page h. page_of_names-IsAllowed native r.q r.cursor k page p h)))
          | inr y ↦
              rw (y) (widen r k _ (listing_limit-le r.limit k e).1 (answer_route-IsSafe r k _))
        ])
      ]
