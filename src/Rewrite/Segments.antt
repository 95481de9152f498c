-- ===== src/Rewrite/Segments.antt =====
-- Where a rewritten path can lead: how many segments it has, and which.
use host_manager.Base.{
  ℕ, zero, suc, ◌+◌, Bytes, text, beq, beq_iff, beq_self, has_byte, has_infix, split, count,
  count-append, count-has_byte, trim_prefix, trim_suffix, ◌≡◌, ◌≢◌, refl, sym, true, false, List,
  [], ◌∷◌, ◌++◌, map, ◌==◌, if◌then◌else◌, contains, arith, inl, inr, Bool-cases,
}
use host_manager.Rewrite.{
  Piece, byte, wildcard, Scan, outside, in_name, in_dots, dots, held, restart, step, scan, pieces,
  names, multi_segment, substitute, spans, build, no_dots, safe, path, target,
}

-- The slashes among the plain bytes.
abbrev slashes : List Piece → ℕ
slashes [] = 0
slashes (byte c ∷ ps) = (if c == 47 then 1 else 0) + slashes ps
slashes (wildcard name d ∷ ps) = slashes ps

slashes-append : (ps qs : List Piece) → slashes (ps ++ qs) ≡ slashes ps + slashes qs
slashes-append [] qs = omega arith
slashes-append (byte c ∷ ps) qs = omega (arith, slashes-append ps qs)
slashes-append (wildcard name d ∷ ps) qs = slashes-append ps qs

slashes-map : (s : Bytes) → slashes (map byte s) ≡ count 47 s
unfolding count
slashes-map [] = refl
slashes-map (c ∷ s) = omega (arith, slashes-map s)

-- What a match holds has no slash.
abbrev NoSlash : Scan → Type 0
NoSlash st = count 47 (held st) ≡ 0

restart-slashes :
    (st : Scan) (c : ℕ)
    → NoSlash st
    → (slashes (restart st c).1 ≡ (if c == 47 then 1 else 0)) × NoSlash (restart st c).0
unfolding count
restart-slashes st c h = ground (
  arith,
  slashes-map (held st),
  slashes-map (held st ++ c ∷ []),
  count-append 47 (held st) (c ∷ []),
)

count-dots : (n : ℕ) → count 47 (dots n) ≡ 0
unfolding count
count-dots zero = refl
count-dots (suc n) = omega (arith, count-dots n)

step-slashes :
    (st : Scan) (c : ℕ)
    → NoSlash st
    → (slashes (step st c).1 ≡ (if c == 47 then 1 else 0)) × NoSlash (step st c).0
unfolding count step
step-slashes outside c h = restart-slashes outside c refl
step-slashes (in_name name) c h =
    ground (arith, restart-slashes (in_name name) c h, count-append 47 name (c ∷ []))
step-slashes (in_dots name n) c h = ground (
  arith,
  restart-slashes (in_dots name n) c h,
  count-append 47 name (dots n),
  count-append 47 name (dots (n + 1)),
  count-dots n,
  count-dots (n + 1),
)

slashes-scan : (st : Scan) (s : Bytes) → NoSlash st → slashes (scan st s) ≡ count 47 s
unfolding scan count
slashes-scan st [] h = omega (arith, slashes-map (held st), h)
slashes-scan st (c ∷ s) h =
    let (out, kept) = step-slashes st c h in
    omega (
      arith,
      slashes-append (step st c).1 (scan (step st c).0 s),
      out,
      slashes-scan (step st c).0 s kept,
    )

slashes-pieces : (s : Bytes) → slashes (pieces s) ≡ count 47 s
unfolding count
slashes-pieces s = slashes-scan outside s refl

-- The wildcards of these pieces are for one segment each.
abbrev pub OneSegment : Bytes → List Piece → Type 0
OneSegment pattern_path ps =
    (name : Bytes) → contains (names ps) name ≡ true → multi_segment pattern_path name ≡ false

count-substitute :
    (value : Bytes → Bytes) (pattern_path : Bytes) (ps : List Piece)
    → OneSegment pattern_path ps
    → spans value pattern_path ps ≡ false
    → count 47 (substitute value false ps) ≡ slashes ps
unfolding count substitute spans
count-substitute value pat [] one h = refl
count-substitute value pat (byte c ∷ ps) one h = omega (arith, count-substitute value pat ps one h)
count-substitute value pat (wildcard name d ∷ ps) one h =
    let single : multi_segment pat name ≡ false = one name (ground (arith, beq_self name)) in
    let (clean, rest) : (has_byte 47 (value name) ≡ false) × (spans value pat ps ≡ false) =
      ground (arith, single) in
    ground (
      arith,
      count-append 47 (value name) (substitute value false ps),
      count-has_byte 47 (value name) clean,
      count-substitute value pat ps (λ n m. one n (ground (arith, m))) rest,
    )

dots-safe :
    (segs : List Bytes)
    → no_dots segs ≡ true
    → (seg : Bytes) → contains segs seg ≡ true
    → (seg ≢ text ".") × (seg ≢ text "..")
unfolding no_dots
dots-safe [] h seg m = ground arith
dots-safe (s ∷ segs) h seg m = elim (Bool-cases (beq s seg)) [
  | inl e ↦ ground (
    arith,
    beq_iff s seg,
    beq_iff seg (text "."),
    beq_iff seg (text ".."),
    beq_iff s (text "."),
    beq_iff s (text ".."),
  )
  | inr n ↦ dots-safe segs (ground arith) seg (ground arith)
]

-- What a dispatch has passed.
target-passed :
    (base exact tmpl pat : Bytes) (value : Bytes → Bytes) (p : Bytes)
    → tmpl ≢ []
    → target base exact tmpl pat value ≡ path p
    → (build value base tmpl false ≡ p)
      × (safe (build value base tmpl false) ≡ true)
      × (spans value pat (pieces (trim_prefix 47 tmpl)) ≡ false)
unfolding target
target-passed base exact tmpl pat value p n h = ground (arith, beq_iff tmpl [])

-- Where a rewrite has a template (it is not empty), a path that it dispatches to keeps the base path, without
-- one trailing slash, and a slash in front, has no empty segment inside, and none of its segments is a dot
-- segment.
pub target-confined :
    (base_path exact tmpl pattern_path : Bytes) (value : Bytes → Bytes) (p seg : Bytes)
    → tmpl ≢ []
    → target base_path exact tmpl pattern_path value ≡ path p
    → contains (split 47 p) seg ≡ true
    → ((rest : Bytes) × (p ≡ trim_suffix 47 base_path ++ 47 ∷ rest))
      × (has_infix p (text "//") ≡ false)
      × (seg ≢ text ".")
      × (seg ≢ text "..")
unfolding build safe
target-confined base exact tmpl pat value p seg n h m =
    let (built, sound, single) = target-passed base exact tmpl pat value p n h in
    let (clean, plain) : (has_infix (build value base tmpl false) (text "//") ≡ false)
        × (no_dots (split 47 (build value base tmpl false)) ≡ true) =
      ground arith in
    let (one, two) = dots-safe (split 47 (build value base tmpl false)) plain seg (rw built m) in
    (
      (substitute value false (pieces (trim_prefix 47 tmpl)), sym built),
      rw (sym built) clean,
      one,
      two,
    )

-- Where a rewrite's template is not empty and its wildcards are for one segment each in the alias's pattern, a
-- path that it dispatches to has as many slashes as the base path without one trailing slash and the template
-- without one leading slash together, and one more: no value spans segments.
pub target-slashes :
    (base_path exact tmpl pattern_path : Bytes) (value : Bytes → Bytes) (p : Bytes)
    → tmpl ≢ []
    → OneSegment pattern_path (pieces (trim_prefix 47 tmpl))
    → target base_path exact tmpl pattern_path value ≡ path p
    → count 47 p ≡ count 47 (trim_suffix 47 base_path) + 1 + count 47 (trim_prefix 47 tmpl)
unfolding build count
target-slashes base exact tmpl pat value p n one h =
    let (built, sound, single) = target-passed base exact tmpl pat value p n h in
    rw (sym built) (
      omega (
        arith,
        count-append 47 (trim_suffix 47 base)
            (47 ∷ substitute value false (pieces (trim_prefix 47 tmpl))),
        count-substitute value pat (pieces (trim_prefix 47 tmpl)) one single,
        slashes-pieces (trim_prefix 47 tmpl),
      ))
