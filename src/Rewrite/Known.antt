-- ===== src/Rewrite/Known.antt =====
-- The static check of a template against the alias's pattern, and the values that a template can take.
use host_manager.Base.{
  Bytes, beq_iff, beq_self, trim_prefix, ◌≡◌, ◌≢◌, refl, sym, Bool, true, false, List, [], ◌∷◌,
  ◌==◌, if◌then◌else◌, contains, arith, inl, inr, Bool-cases,
}
use host_manager.Rewrite.{
  Piece, byte, wildcard, step, scan, pieces, names, placeholders, missing, unknown_placeholders,
  substitute, spans, build, safe, path, not_found, unsafe, target,
}

-- A leading slash is no part of a wildcard.
names-trim_prefix : (tmpl : Bytes) → names (pieces (trim_prefix 47 tmpl)) ≡ names (pieces tmpl)
unfolding scan step
names-trim_prefix [] = refl
names-trim_prefix (c ∷ s) = elim (Bool-cases (c == 47)) [
  | inl e ↦ let slash : c ≡ 47 = ground arith in rw (slash) refl
  | inr n ↦ rw (n) refl
]

missing-none :
    (known ns : List Bytes) (name : Bytes)
    → missing known ns ≡ []
    → contains ns name ≡ true
    → contains known name ≡ true
missing-none known [] name h m = ground arith
missing-none known (n ∷ ns) name h m = elim (Bool-cases (contains known n)) [
  | inl k ↦ ground (arith, missing-none known ns name, beq_iff n name)
  | inr k ↦ ground arith
]

-- Two ways to give values that agree on some names.
abbrev pub Agree : (Bytes → Bytes) → (Bytes → Bytes) → List Bytes → Type 0
Agree v v' ns = (name : Bytes) → contains ns name ≡ true → v name ≡ v' name

substitute-Agree :
    (v v' : Bytes → Bytes) (fill : Bool) (ps : List Piece)
    → Agree v v' (names ps)
    → substitute v fill ps ≡ substitute v' fill ps
unfolding substitute
substitute-Agree v v' fill [] a = refl
substitute-Agree v v' fill (byte c ∷ ps) a = rw (substitute-Agree v v' fill ps a) refl
substitute-Agree v v' fill (wildcard name d ∷ ps) a =
    rw
      (
        a name (ground (arith, beq_self name)),
        substitute-Agree v v' fill ps (λ n m. a n (ground (arith, m))),
      )
      refl

spans-Agree :
    (v v' : Bytes → Bytes) (pat : Bytes) (ps : List Piece)
    → Agree v v' (names ps)
    → spans v pat ps ≡ spans v' pat ps
unfolding spans
spans-Agree v v' pat [] a = refl
spans-Agree v v' pat (byte c ∷ ps) a = spans-Agree v v' pat ps a
spans-Agree v v' pat (wildcard name d ∷ ps) a =
    rw
      (
        a name (ground (arith, beq_self name)),
        spans-Agree v v' pat ps (λ n m. a n (ground (arith, m))),
      )
      refl

-- A template whose placeholders are all known to the alias's pattern is dispatched by the values of the pattern's wildcards
-- alone: two requests that agree on those get the same path or the same error.
pub target-unknown_placeholders :
    (base_path exact tmpl pattern_path : Bytes) (v v' : Bytes → Bytes)
    → unknown_placeholders tmpl pattern_path ≡ []
    → Agree v v' (placeholders pattern_path)
    → target base_path exact tmpl pattern_path v ≡ target base_path exact tmpl pattern_path v'
unfolding target build unknown_placeholders placeholders
target-unknown_placeholders base exact tmpl pat v v' known a =
    let agree : Agree v v' (names (pieces (trim_prefix 47 tmpl))) = λ n m. a n (
      missing-none (names (pieces pat)) (names (pieces tmpl)) n known
        (rw (sym (names-trim_prefix tmpl)) m)) in
    let ps : List Piece = pieces (trim_prefix 47 tmpl) in
    rw
      (
        substitute-Agree v v' false ps agree,
        substitute-Agree v v' true ps agree,
        spans-Agree v v' pat ps agree,
      )
      refl

-- The placeholder in use has a value.
abbrev pub AllGiven : (Bytes → Bytes) → List Bytes → Type 0
AllGiven value ns = (name : Bytes) → contains ns name ≡ true → value name ≢ []

substitute-AllGiven :
    (value : Bytes → Bytes) (ps : List Piece)
    → AllGiven value (names ps)
    → substitute value true ps ≡ substitute value false ps
unfolding substitute
substitute-AllGiven value [] g = refl
substitute-AllGiven value (byte c ∷ ps) g = rw (substitute-AllGiven value ps g) refl
substitute-AllGiven value (wildcard name d ∷ ps) g =
    let given : value name ≢ [] = g name (ground (arith, beq_self name)) in
    rw (substitute-AllGiven value ps (λ n m. g n (ground (arith, m))))
      (ground (arith, beq_iff (value name) []))

-- Where no value of the template's placeholders is empty, the only not-found answer is for a value that spans segments:
-- a path that is not safe is refused as unsafe.
pub target-AllGiven :
    (base_path exact tmpl pattern_path : Bytes) (value : Bytes → Bytes)
    → tmpl ≢ []
    → AllGiven value (placeholders tmpl)
    → target base_path exact tmpl pattern_path value ≡ (
        if safe (build value base_path tmpl false)
        then (if spans value pattern_path (pieces (trim_prefix 47 tmpl))
            then not_found
            else path (build value base_path tmpl false))
        else unsafe)
unfolding target build placeholders
target-AllGiven base exact tmpl pat value n g =
    let given : AllGiven value (names (pieces (trim_prefix 47 tmpl))) =
      λ m c. g m (rw (sym (names-trim_prefix tmpl)) c) in
    rw (target, build, substitute-AllGiven value (pieces (trim_prefix 47 tmpl)) given)
      (ground (arith, beq_iff tmpl []))
