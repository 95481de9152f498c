-- ===== src/Examples/Rewrite.antt =====
-- Runs of the rewrite of paths.
use host_manager.Base.{
  ◌+◌, Bytes, text, beq, beq_iff, beq_self, has_prefix, has_byte, has_infix, split, count,
  trim_prefix, trim_suffix, ◌≡◌, ◌≢◌, refl, true, false, [], ◌∷◌, ◌++◌, if◌then◌else◌, contains,
  arith,
}
use host_manager.Rewrite.{
  pieces, step, scan, placeholders, unknown_placeholders, multi_segment, substitute, no_dots, build,
  spans, safe, path, not_found, unsafe, target,
}
use host_manager.Rewrite.Segments.{OneSegment, target-confined, target-slashes}
use host_manager.Rewrite.Known.{Agree, AllGiven}

abbrev pattern : Bytes
pattern = text "/team/{team}/{$}"

abbrev tmpl : Bytes
tmpl = text "/v/{team}"

abbrev blue : Bytes → Bytes
blue name = text "blue"

-- A value that differs from `blue` at another name only.
abbrev blue_team : Bytes → Bytes
blue_team name = if beq name (text "team") then text "blue" else []

program : Unit {0}
unfolding target build safe no_dots spans substitute multi_segment scan step placeholders
    unknown_placeholders beq has_prefix has_byte has_infix split count
program = tt

rewritten : target (text "/base/") [] tmpl pattern blue ≡ path (text "/base/v/blue")
unfolding program
rewritten = refl

climbing : target (text "/base") [] tmpl pattern (λ n. text "..") ≡ unsafe
unfolding program
climbing = refl

spanning : target (text "/base") [] tmpl pattern (λ n. text "a/b") ≡ not_found
unfolding program
spanning = refl

empty_value : target (text "/base") [] (text "/{team}/x") pattern (λ n. []) ≡ not_found
unfolding program
empty_value = refl

-- The one wildcard of `tmpl` is for one segment.
one_segment : OneSegment pattern (pieces (trim_prefix 47 tmpl))
unfolding program
one_segment name m = ground arith

base_IsTemplate : tmpl ≢ []
base_IsTemplate h = ground (arith, h)

blue_segment : contains (split 47 (text "/base/v/blue")) (text "blue") ≡ true
unfolding program
blue_segment = refl

target-confined_example :
    ((rest : Bytes) × (text "/base/v/blue" ≡ trim_suffix 47 (text "/base/") ++ 47 ∷ rest))
    × (has_infix (text "/base/v/blue") (text "//") ≡ false)
    × (text "blue" ≢ text ".")
    × (text "blue" ≢ text "..")
target-confined_example =
    target-confined (text "/base/") [] tmpl pattern blue (text "/base/v/blue") (text "blue")
      base_IsTemplate rewritten blue_segment

target-slashes_example :
    count 47 (text "/base/v/blue")
    ≡ count 47 (trim_suffix 47 (text "/base/")) + 1 + count 47 (trim_prefix 47 tmpl)
target-slashes_example =
    target-slashes (text "/base/") [] tmpl pattern blue (text "/base/v/blue") base_IsTemplate
      one_segment rewritten

all_known : unknown_placeholders tmpl pattern ≡ []
unfolding program
all_known = refl

blue-Agree : Agree blue blue_team (placeholders pattern)
unfolding program
blue-Agree name m =
    ground (arith, beq_iff (text "team") name, beq_iff name (text "team"), beq_self (text "team"))

blue-AllGiven : AllGiven blue (placeholders tmpl)
blue-AllGiven name m = λ h. ground (arith, h)
