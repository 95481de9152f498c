-- ===== src/Dcr/Filter.antt =====
-- What the filters of grants and redirects keep.
use mathlib.Core.List.{append-nil, append_assoc}
use host_manager.Base.{
  Bytes, beq, beq_iff, beq_self, ◌≡◌, ◌≢◌, refl, sym, ◌∙◌, Bool, true, false, not, ◌&&◌, ◌||◌,
  Option, List, [], ◌∷◌, ◌++◌, if◌then◌else◌, contains, arith, inl, inr, Bool-cases,
}
use host_manager.Dcr.{
  keep, supported_grant_types, filter_grant_types, Url, redirect_allowed, filter_redirect_uris,
}

-- No string stands twice.
unfoldable pub is_unique : List Bytes → Bool
is_unique [] = true
is_unique (x ∷ xs) = not (contains xs x) && is_unique xs

contains-append :
    (xs ys : List Bytes) (u : Bytes) → contains (xs ++ ys) u ≡ (contains xs u || contains ys u)
contains-append [] ys u = refl
contains-append (x ∷ xs) ys u = ground (arith, contains-append xs ys u)

is_unique-append :
    (xs : List Bytes) (x : Bytes)
    → is_unique xs ≡ true
    → contains xs x ≡ false
    → is_unique (xs ++ x ∷ []) ≡ true
unfolding is_unique
is_unique-append [] x h n = refl
is_unique-append (y ∷ xs) x h n =
    ground (arith, is_unique-append xs x, contains-append xs (x ∷ []) y, beq_iff x y, beq_iff y x)

contains-keep :
    (test : Bytes → Bool) (kept xs : List Bytes) (u : Bytes)
    → contains (keep test kept xs) u ≡ (contains kept u || contains xs u && test u)
unfolding keep
contains-keep test kept [] u = ground arith
contains-keep test kept (x ∷ xs) u =
    rw (contains-keep test (if test x && not (contains kept x) then kept ++ x ∷ [] else kept) xs u)
      (elim (Bool-cases (beq x u)) [
        | inl e ↦
            let same : x ≡ u = (beq_iff x u).0 e in
            rw (same) (ground (arith, contains-append kept (u ∷ []) u, beq_self u))
        | inr n ↦ ground (arith, contains-append kept (x ∷ []) u)
      ])

is_unique-keep :
    (test : Bytes → Bool) (kept xs : List Bytes)
    → is_unique kept ≡ true
    → is_unique (keep test kept xs) ≡ true
unfolding keep
is_unique-keep test kept [] h = h
is_unique-keep test kept (x ∷ xs) h =
    is_unique-keep test (if test x && not (contains kept x) then kept ++ x ∷ [] else kept) xs
      (ground (arith, is_unique-append kept x))

keep-kept :
    (test : Bytes → Bool) (kept xs : List Bytes)
    → ((u : Bytes) → contains xs u ≡ true → test u ≡ true)
    → is_unique xs ≡ true
    → ((u : Bytes) → contains xs u ≡ true → contains kept u ≡ false)
    → keep test kept xs ≡ kept ++ xs
unfolding keep is_unique
keep-kept test kept [] t u n = sym (append-nil kept)
keep-kept test kept (x ∷ xs) t u n =
    let fresh : contains kept x ≡ false = n x (ground (arith, beq_self x)) in
    let admitted : test x ≡ true = t x (ground (arith, beq_self x)) in
    let alone : contains xs x ≡ false = ground arith in
    rw (keep, admitted, fresh)
      (keep-kept test (kept ++ x ∷ []) xs (λ v m. t v (ground (arith, m))) (ground arith)
          (λ v m. ground (arith, contains-append kept (x ∷ []) v, n v, beq_iff x v, alone))
        ∙ append_assoc kept (x ∷ []) xs)

-- Filtering again what a filter kept changes nothing.
keep_again :
    (test : Bytes → Bool) (xs : List Bytes) → keep test [] (keep test [] xs) ≡ keep test [] xs
unfolding is_unique
keep_again test xs =
    keep-kept test [] (keep test [] xs)
      (λ u m.
        let both : (contains xs u && test u) ≡ true = sym (contains-keep test [] xs u) ∙ m in
        ground arith)
      (is_unique-keep test [] xs refl) (λ u m. refl)

-- A redirect is kept exactly where the client gave it and the policy admits it, none is kept twice, and what was kept when
-- a client registered is kept as it is when the client is read back under the same policy.
pub filter_redirect_uris-exact :
    (parse : Bytes → Option Url) (uris schemes : List Bytes) (u : Bytes)
    → (contains (filter_redirect_uris parse uris schemes) u
        ≡ (contains uris u && redirect_allowed parse u schemes))
      × (is_unique (filter_redirect_uris parse uris schemes) ≡ true)
      × (filter_redirect_uris parse (filter_redirect_uris parse uris schemes) schemes
          ≡ filter_redirect_uris parse uris schemes)
unfolding filter_redirect_uris is_unique
filter_redirect_uris-exact parse uris schemes u =
    let test : Bytes → Bool = λ raw. redirect_allowed parse raw schemes in
    (contains-keep test [] uris u, is_unique-keep test [] uris refl, keep_again test uris)

again_nonempty :
    (kept : List Bytes)
    → kept ≢ []
    → keep (contains supported_grant_types) [] kept ≡ kept
    → filter_grant_types kept ≡ kept
unfolding filter_grant_types
again_nonempty [] n e = ground arith
again_nonempty (x ∷ xs) n e = e

-- Of given grants exactly the supported ones are kept, none twice; and where one is kept, filtering again what was kept
-- changes nothing.
pub filter_grant_types-exact :
    (gs : List Bytes) (g : Bytes)
    → gs ≢ []
    → filter_grant_types gs ≢ []
    → (contains (filter_grant_types gs) g ≡ (contains gs g && contains supported_grant_types g))
      × (is_unique (filter_grant_types gs) ≡ true)
      × (filter_grant_types (filter_grant_types gs) ≡ filter_grant_types gs)
unfolding filter_grant_types is_unique
filter_grant_types-exact [] g n k = ground arith
filter_grant_types-exact (x ∷ xs) g n k =
    let test : Bytes → Bool = contains supported_grant_types in
    (
      contains-keep test [] (x ∷ xs) g,
      is_unique-keep test [] (x ∷ xs) refl,
      again_nonempty (keep test [] (x ∷ xs)) k (keep_again test (x ∷ xs)),
    )
