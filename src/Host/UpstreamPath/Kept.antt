-- ===== src/Host/UpstreamPath/Kept.antt =====
-- The segments that are sent upstream are the request's own, after the base path's.
use host_manager.Base.{
  split_cons, ℕ, Bytes, text, beq, beq_iff, split, trim_suffix, Bool, true, false, Option, none,
  some, List, [], ◌∷◌, ◌++◌, if◌then◌else◌, ◌==◌, join_front, ◌≡◌, refl, sym, ap, ◌∙◌, arith, inl,
  inr, ◌⊎◌, Bool-cases, Option-cases,
}
use mathlib.Core.List.{append-nil, append_assoc}
use host_manager.Host.UpstreamPath.{
  join, trim, strip, path_of, trim_base_path_segments, upstream_escaped_path,
}

join_front_lem :
    (b c : ℕ) (ps : List Bytes) (p : Bytes) → join b (join_front c (p ∷ ps)) ≡ c ∷ join b (p ∷ ps)
unfolding join
join_front_lem b c [] p = refl
join_front_lem b c (q ∷ ps) p = refl

join-split : (b : ℕ) (s : Bytes) → join b (split b s) ≡ s
unfolding split join
join-split b [] = refl
join-split b (c ∷ s) =
    let (p, ps, e) = split_cons b s in
    let rest : join b (p ∷ ps) ≡ s = rw (e) at (join-split b s) in
    elim (Bool-cases (c == b)) [
      | inl y ↦ let same : c ≡ b = ground (arith, y) in rw (y, e, same) (ap (λ t. b ∷ t) rest)
      | inr n ↦ rw (n, e) (join_front_lem b c ps p ∙ ap (λ t. c ∷ t) rest)
    ]

join-append :
    (f : Bytes) (fs rest : List Bytes)
    → join 47 ((f ∷ fs) ++ rest) ≡ join 47 (f ∷ fs) ++ path_of rest
unfolding join path_of
join-append f [] [] = sym (append-nil f)
join-append f [] (r ∷ rest) = refl
join-append f (g ∷ fs) rest =
    rw (join-append g fs rest) (sym (append_assoc f (47 ∷ join 47 (g ∷ fs)) (path_of rest)))

nothing_left : (rest : List Bytes) → none ≡ some rest → ⊥
nothing_left rest h = cc

left_over : (a b : List Bytes) → some a ≡ some b → a ≡ b
left_over a b h = cc

module _ (path_unescape : Bytes → Option Bytes) where
  -- Segments that spell others, in whatever encoding.
  abbrev pub Spells : List Bytes → List Bytes → Type 0
  Spells [] [] = true ≡ true
  Spells [] (s ∷ segs) = true ≡ false
  Spells (w ∷ want) [] = true ≡ false
  Spells (w ∷ want) (s ∷ segs) = (path_unescape s ≡ some w) × Spells want segs

  strip-Spells :
      (want segs rest : List Bytes)
      → strip path_unescape want segs ≡ some rest
      → (front : List Bytes) × (segs ≡ front ++ rest) × Spells want front
  unfolding strip
  strip-Spells [] segs rest h = ([], left_over segs rest h, refl)
  strip-Spells (w ∷ want) [] rest h = absurd (nothing_left rest h)
  strip-Spells (w ∷ want) (s ∷ segs) rest h = elim (Option-cases (path_unescape s)) [
    | inl n ↦ absurd (nothing_left rest (rw (strip, n) at h))
    | inr (got, e) ↦ elim (Bool-cases (beq got w)) [
      | inl y ↦
          let (front, same, spelt) = strip-Spells want segs rest (rw (strip, e, y) at h) in
          (s ∷ front, ap (λ t. s ∷ t) same, (rw (← (beq_iff got w).0 y) e, spelt))
      | inr n ↦ absurd (nothing_left rest (rw (strip, e, n) at h))
    ]
  ]

  -- What is cut off a request path: nothing, or segments that spell the base path's.
  pub Cut : Bool → Bytes → List Bytes → Type 0
  Cut strip_base base_path front =
      (front ≡ []) ⊎ ((strip_base ≡ true) × Spells (split 47 (trim 47 base_path)) front)

  cut_off :
      (w : Bytes) (want front rest : List Bytes) (s : Bytes)
      → split 47 s ≡ front ++ rest
      → Spells (w ∷ want) front
      → 47 ∷ s ≡ path_of front ++ path_of rest
  unfolding path_of
  cut_off w want [] rest s e h = absurd (ground (arith, h))
  cut_off w want (f ∷ fs) rest s e h =
      let whole : join 47 ((f ∷ fs) ++ rest) ≡ s = rw (e) at (join-split 47 s) in
      ap (λ t. 47 ∷ t) (sym whole ∙ join-append f fs rest)

  respelt : (a b front : List Bytes) → a ≡ b → Spells a front → Spells b front
  respelt a b front e h = rw (← e) h

  -- Empty, or the start of a segment.
  Whole : Bytes → Type 0
  Whole rest = (rest ≡ []) ⊎ ((t : Bytes) × (rest ≡ 47 ∷ t))

  path_of-Whole : (segs : List Bytes) → Whole (path_of segs)
  unfolding Whole path_of
  path_of-Whole [] = inl refl
  path_of-Whole (s ∷ segs) = inr (join 47 (s ∷ segs), refl)

  -- A request path as a front that is cut off and the rest.
  pub Parted : Bool → Bytes → Bytes → Bytes → Type 0
  Parted strip_base base_path request rest =
      (front : List Bytes) × (request ≡ path_of front ++ rest)
      × Whole rest
      × Cut strip_base base_path front

  kept_whole :
      (strip_base : Bool) (base_path s : Bytes) → Parted strip_base base_path (47 ∷ s) (47 ∷ s)
  unfolding Parted Whole Cut path_of
  kept_whole strip_base base_path s = ([], refl, inr (s, refl), inl refl)

  trimmed :
      (s base_path : Bytes)
      → Parted true base_path (47 ∷ s) (trim_base_path_segments path_unescape (47 ∷ s) base_path)
  unfolding trim_base_path_segments Parted Cut
  trimmed s base_path = elim (Bool-cases (beq (trim 47 base_path) [])) [
    | inl y ↦ rw (y) (kept_whole true base_path s)
    | inr n ↦
        elim (Option-cases (strip path_unescape (split 47 (trim 47 base_path)) (split 47 s))) [
          | inl e ↦ rw (trim_base_path_segments, n, e) (kept_whole true base_path s)
          | inr (rest, e) ↦
              let (w, want, whole) = split_cons 47 (trim 47 base_path) in
              let (front, same, spelt) =
                strip-Spells (split 47 (trim 47 base_path)) (split 47 s) rest e in
              rw (trim_base_path_segments, n, e)
                (
                  front,
                  cut_off w want front rest s same
                      (respelt (split 47 (trim 47 base_path)) (w ∷ want) front whole spelt),
                  path_of-Whole rest,
                  inr (refl, spelt),
                )
        ]
  ]

  -- What is sent for a request path: the target's path without its last slash and the rest; or the root.
  pub Sent : Bool → Bytes → Bytes → Bytes → Bytes → Type 0
  Sent strip_base base_path target request sent =
      (rest : Bytes) × Parted strip_base base_path request rest
      × (sent ≡ (
          if beq (trim_suffix 47 target ++ rest) []
          then text "/"
          else trim_suffix 47 target ++ rest))

  -- Of a request's escaped path, which starts with '/', a front of whole segments is cut off, and what follows is sent
  -- upstream as it is, after the target's path without its last slash; nothing at all is sent as the root. The front is
  -- empty, or, where the base path is to be stripped, its segments spell exactly the base path's, in whatever encoding.
  pub upstream_escaped_path-Sent :
      (s target base_path : Bytes) (strip_base : Bool)
      → Sent strip_base base_path target
          (47 ∷ s)
          (upstream_escaped_path path_unescape (47 ∷ s) target base_path strip_base)
  unfolding upstream_escaped_path Sent
  upstream_escaped_path-Sent s target base_path false = (47 ∷ s, kept_whole false base_path s, refl)
  upstream_escaped_path-Sent s target base_path true =
      (trim_base_path_segments path_unescape (47 ∷ s) base_path, trimmed s base_path, refl)
