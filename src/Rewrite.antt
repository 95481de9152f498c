-- ===== src/Rewrite.antt =====
-- internal/rewrite/rewrite.go: the wildcards of a path template, and the path that a rewrite dispatches to.
pub mod Segments
pub mod Known
use host_manager.Base.{
  ℕ, zero, suc, ◌+◌, Bytes, text, beq, has_prefix, has_byte, has_infix, split, trim_prefix,
  trim_suffix, Bool, true, false, not, ◌&&◌, ◌||◌, Option, none, some, List, [], ◌∷◌, ◌++◌, map,
  leb, ◌==◌, if◌then◌else◌, contains,
}

-- wildcardRE: `{name}` or `{name...}`. A template is read as its bytes and wildcards.
pub data Piece : Type 0 where
  byte : ℕ → Piece
  wildcard : Bytes → Bool → Piece

-- Where a left-to-right match of wildcardRE stands: in no wildcard, behind `{` and a part of a name, or behind
-- `{name` and one to three dots.
pub data Scan : Type 0 where
  outside : Scan
  in_name : Bytes → Scan
  in_dots : Bytes → ℕ → Scan

abbrev pub is_letter : ℕ → Bool
is_letter c = leb 65 c && leb c 90 || leb 97 c && leb c 122 || c == 95

abbrev pub is_digit : ℕ → Bool
is_digit c = leb 48 c && leb c 57

abbrev pub dots : ℕ → Bytes
dots zero = []
dots (suc n) = 46 ∷ dots n

-- The bytes that are read already and turn out not to be a wildcard.
abbrev pub held : Scan → Bytes
held outside = []
held (in_name name) = 123 ∷ name
held (in_dots name n) = 123 ∷ name ++ dots n

-- A byte that does not continue a match: what was held is plain, and the byte may open a wildcard itself.
abbrev pub restart : Scan → ℕ → Scan × List Piece
restart st c =
    if c == 123 then (in_name [], map byte (held st)) else (outside, map byte (held st ++ c ∷ []))

unfoldable pub step : Scan → ℕ → Scan × List Piece
step outside c = restart outside c
step (in_name name) c =
    if is_letter c || is_digit c && not (beq name [])
    then (in_name (name ++ c ∷ []), [])
    else if beq name []
    then restart (in_name name) c
    else if c == 46
    then (in_dots name 1, [])
    else if c == 125
    then (outside, wildcard name false ∷ [])
    else restart (in_name name) c
step (in_dots name n) c =
    if c == 46 && leb n 2
    then (in_dots name (n + 1), [])
    else if c == 125 && n == 3
    then (outside, wildcard name true ∷ [])
    else restart (in_dots name n) c

unfoldable pub scan : Scan → Bytes → List Piece
scan st [] = map byte (held st)
scan st (c ∷ s) = let (st', out) = step st c in out ++ scan st' s

-- FindAllStringSubmatch and ReplaceAllStringFunc see these pieces.
abbrev pub pieces : Bytes → List Piece
pieces tmpl = scan outside tmpl

abbrev pub names : List Piece → List Bytes
names [] = []
names (byte c ∷ ps) = names ps
names (wildcard name d ∷ ps) = name ∷ names ps

-- Placeholders
unfoldable pub placeholders : Bytes → List Bytes
placeholders tmpl = names (pieces tmpl)

abbrev pub missing : List Bytes → List Bytes → List Bytes
missing known [] = []
missing known (name ∷ rest) =
    let unknown = missing known rest in if contains known name then unknown else name ∷ unknown

-- UnknownPlaceholders
unfoldable pub unknown_placeholders : Bytes → Bytes → List Bytes
unknown_placeholders tmpl pattern_path = missing (placeholders pattern_path) (placeholders tmpl)

abbrev pub spans_segments : List Piece → Bytes → Bool
spans_segments [] name = false
spans_segments (byte c ∷ ps) name = spans_segments ps name
spans_segments (wildcard n d ∷ ps) name = if beq n name then d else spans_segments ps name

-- multiSegment
unfoldable pub multi_segment : Bytes → Bytes → Bool
multi_segment pattern_path name = spans_segments (pieces pattern_path) name

-- The replacement of the wildcards; `fill_empty` puts `x` for an empty value.
unfoldable pub substitute : (Bytes → Bytes) → Bool → List Piece → Bytes
substitute value fill_empty [] = []
substitute value fill_empty (byte c ∷ ps) = c ∷ substitute value fill_empty ps
substitute value fill_empty (wildcard name d ∷ ps) =
    (if beq (value name) [] && fill_empty then text "x" else value name)
    ++ substitute value fill_empty ps

-- Whether a value that is for one segment holds a slash.
unfoldable pub spans : (Bytes → Bytes) → Bytes → List Piece → Bool
spans value pattern_path [] = false
spans value pattern_path (byte c ∷ ps) = spans value pattern_path ps
spans value pattern_path (wildcard name d ∷ ps) =
    has_byte 47 (value name) && not (multi_segment pattern_path name) || spans value pattern_path ps

unfoldable pub build : (Bytes → Bytes) → Bytes → Bytes → Bool → Bytes
build value base_path tmpl fill_empty =
    trim_suffix 47 base_path ++ 47 ∷ substitute value fill_empty (pieces (trim_prefix 47 tmpl))

-- Whether no segment is a dot segment.
unfoldable pub no_dots : List Bytes → Bool
no_dots [] = true
no_dots (seg ∷ segs) = not (beq seg (text ".") || beq seg (text "..")) && no_dots segs

unfoldable pub safe : Bytes → Bool
safe p = not (has_infix p (text "//")) && no_dots (split 47 p)

pub data Target : Type 0 where
  path : Bytes → Target
  not_found unsafe : Target

-- Target
unfoldable pub target : Bytes → Bytes → Bytes → Bytes → (Bytes → Bytes) → Target
target base_path exact tmpl pattern_path value =
    let p = build value base_path tmpl false in
    if beq tmpl []
    then path exact
    else if not (safe p)
    then (if safe (build value base_path tmpl true) then not_found else unsafe)
    else if spans value pattern_path (pieces (trim_prefix 47 tmpl))
    then not_found
    else path p
