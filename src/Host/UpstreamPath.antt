-- ===== src/Host/UpstreamPath.antt =====
-- internal/host/proxy.go: the escaped path that a request is sent upstream with. url.PathUnescape is a parameter.
pub mod Kept
use host_manager.Base.{
  ℕ, Bytes, text, beq, split, trim_prefix, trim_suffix, Bool, true, false, not, ◌&&◌, ◌||◌, Option,
  none, some, List, [], ◌∷◌, ◌++◌, ltb, if◌then◌else◌, length, ◌==◌,
}

-- strings.Join on one byte
unfoldable pub join : ℕ → List Bytes → Bytes
join b [] = []
join b (p ∷ []) = p
join b (p ∷ q ∷ ps) = p ++ (b ∷ join b (q ∷ ps))

-- strings.Trim of one byte
unfoldable pub trim_left : ℕ → Bytes → Bytes
trim_left b [] = []
trim_left b (c ∷ s) = let rest = trim_left b s in if c == b then rest else c ∷ s

unfoldable pub trim_right : ℕ → Bytes → Bytes
trim_right b [] = []
trim_right b (c ∷ s) = let rest = trim_right b s in if c == b && beq rest [] then [] else c ∷ rest

unfoldable pub trim : ℕ → Bytes → Bytes
unfolding trim_left trim_right
trim b s = trim_right b (trim_left b s)

-- A path of the segments that are left.
unfoldable pub path_of : List Bytes → Bytes
unfolding join
path_of [] = []
path_of (s ∷ segs) = 47 ∷ join 47 (s ∷ segs)

module _ (path_unescape : Bytes → Option Bytes) where
  -- The loop over the base path's segments; none where one does not match, or else what follows.
  unfoldable pub strip : List Bytes → List Bytes → Option (List Bytes)
  strip [] segs = some segs
  strip (w ∷ want) [] = none
  strip (w ∷ want) (s ∷ segs) =
      let rest = strip want segs in
      elim (path_unescape s) [ none ↦ none | some got ↦ if beq got w then rest else none ]

  -- trimBasePathSegments
  unfoldable pub trim_base_path_segments : Bytes → Bytes → Bytes
  unfolding trim strip path_of
  trim_base_path_segments p base_path =
      let base = trim 47 base_path in
      if beq base [] then p else elim (strip (split 47 base) (split 47 (trim_prefix 47 p))) [
        | none ↦ p
        | some rest ↦ path_of rest
      ]

  -- upstreamEscapedPath
  unfoldable pub upstream_escaped_path : Bytes → Bytes → Bytes → Bool → Bytes
  unfolding trim_base_path_segments
  upstream_escaped_path request_escaped target_escaped base_path strip_base =
      let rest =
        if strip_base then trim_base_path_segments request_escaped base_path else request_escaped in
      let p = trim_suffix 47 target_escaped ++ rest in if beq p [] then text "/" else p

-- hasDotDotSegment
unfoldable pub has_dot_dot : List Bytes → Bool
has_dot_dot [] = false
has_dot_dot (s ∷ segs) = beq s (text "..") || has_dot_dot segs

unfoldable pub has_dot_dot_segment : Bytes → Bool
unfolding has_dot_dot
has_dot_dot_segment decoded = has_dot_dot (split 47 decoded)
