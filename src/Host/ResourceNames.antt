-- ===== src/Host/ResourceNames.antt =====
-- internal/host/resource_names.go: the listing of the names of a resource. strings.ToLower, the JSON and base64 codec of a
-- cursor, the gate of the authorization checker, the attenuation test and the host's own mux are parameters.
-- slices.SortFunc is an insertion sort: names differ, so the sorted list is the same for every sort.
pub mod Compare
pub mod Sorted
pub mod Native
pub mod Collected
pub mod Paging
pub mod Listed
pub mod Walk
pub mod Handler
pub mod Answers
pub mod Routes
pub mod Buffer
use host_manager.Base.{
  ℕ, suc, zero, ◌+◌, ◌*◌, Bytes, text, beq, has_infix, has_byte, Bool, true, false, not, ◌&&◌, ◌||◌,
  Option, none, some, List, [], ◌∷◌, ◌++◌, ltb, leb, ◌==◌, if◌then◌else◌, length, contains, select,
}
use host_manager.Cache.Decimal.{ℤ, pos, negsuc, parse_int}

pub record ResourceName : Type 0 where
  pub name : Bytes
  pub label : Bytes

pub record NamesPage : Type 0 where
  pub items : List ResourceName
  pub next : Bytes

-- The answer of a comparison function: negative, zero or positive.
pub data Comparison : Type 0 where
  before same after : Comparison

-- The second comparison decides if the first does not.
abbrev pub or_else : Comparison → Comparison → Comparison
or_else before d = before
or_else same d = d
or_else after d = after

-- strings.Compare
unfoldable pub compare : Bytes → Bytes → Comparison
compare [] [] = same
compare [] (b ∷ t) = before
compare (a ∷ s) [] = after
compare (a ∷ s) (b ∷ t) =
    let rest = compare s t in if ltb a b then before else if ltb b a then after else rest

abbrev pub is_after : Comparison → Bool
is_after before = false
is_after same = false
is_after after = true

module _ (lower : Bytes → Bytes) where
  unfoldable pub sort_key : ResourceName → Bytes
  sort_key n = if beq n.label [] then lower n.name else lower n.label

  unfoldable pub compare_names : ResourceName → ResourceName → Comparison
  unfolding compare sort_key
  compare_names a b = or_else (compare (sort_key a) (sort_key b)) (compare a.name b.name)

  unfoldable pub insert_name : ResourceName → List ResourceName → List ResourceName
  unfolding compare_names
  insert_name x [] = x ∷ []
  insert_name x (y ∷ ys) =
      let rest = insert_name x ys in if is_after (compare_names x y) then y ∷ rest else x ∷ y ∷ ys

  -- slices.SortFunc(items, compareNames)
  unfoldable pub sort_names : List ResourceName → List ResourceName
  unfolding insert_name
  sort_names [] = []
  sort_names (x ∷ xs) = insert_name x (sort_names xs)

  -- The test of q
  unfoldable pub matches : Bytes → ResourceName → Bool
  matches q n =
      beq (lower q) [] || has_infix (lower n.name) (lower q) || has_infix (lower n.label) (lower q)

  -- The test of the cursor
  unfoldable pub is_past : Option ResourceName → ResourceName → Bool
  unfolding compare_names
  is_past none n = true
  is_past (some last) n = is_after (compare_names n last)

abbrev pub take_names : ℕ → List ResourceName → List ResourceName
take_names zero ns = []
take_names (suc k) [] = []
take_names (suc k) (n ∷ ns) = n ∷ take_names k ns

abbrev pub last_name : ResourceName → List ResourceName → ResourceName
last_name n [] = n
last_name n (m ∷ ms) = last_name m ms

-- The items of a page that is not the last, with the cursor of the last of them. A limit below 1 would index out of range;
-- the handler refuses it.
abbrev pub cut : (ResourceName → Bytes) → List ResourceName → NamesPage
cut encode [] = record { items = []; next = [] }
cut encode (n ∷ ns) = record { items = n ∷ ns; next = encode (last_name n ns) }

unfoldable pub page_of : (ResourceName → Bytes) → ℕ → List ResourceName → NamesPage
page_of encode limit ns =
    if ltb limit (length ns)
    then cut encode (take_names limit ns)
    else record { items = ns; next = [] }

-- decodeNamesCursor: an error, no cursor, or the last item of the page before.
unfoldable pub decode_names_cursor :
    (Bytes → Option ResourceName) → Bytes → Option (Option ResourceName)
decode_names_cursor decode cursor = if beq cursor [] then some none else elim (decode cursor) [
  | none ↦ none
  | some last ↦ if beq last.name [] then none else some (some last)
]

module _ (encode : ResourceName → Bytes) (decode : Bytes → Option ResourceName) where
  module _ (lower : Bytes → Bytes) where
    -- pageOfNames, where none is an invalid cursor
    unfoldable pub page_of_names : List ResourceName → Bytes → Bytes → ℕ → Option NamesPage
    unfolding decode_names_cursor page_of sort_names matches is_past select
    page_of_names all q cursor limit = elim (decode_names_cursor decode cursor) [
      | none ↦ none
      | some past ↦ some (
          page_of encode limit
            (sort_names lower (select (is_past lower past) (select (matches lower q) all))))
    ]

-- A parsed limit, where none is refused
abbrev pub bounded : Option ℤ → Option ℕ
bounded none = none
bounded (some (pos n)) = if ltb n 1 || ltb 200 n then none else some n
bounded (some (negsuc n)) = none

-- The parameter limit
unfoldable pub listing_limit : Bytes → Option ℕ
unfolding parse_int
listing_limit v = if beq v [] then some 50 else bounded (parse_int v)
