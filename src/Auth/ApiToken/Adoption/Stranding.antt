-- ===== src/Auth/ApiToken/Adoption/Stranding.antt =====
-- AdoptStrandedRevocations of internal/auth/apitoken/apitoken.go: what is stranded under a key, after a scan of all generations.
use host_manager.Base.{
  ℕ, ◌≤◌, Bytes, beq, beq_iff, GoMap, lookup, insert, lookup-insert, lookup-insert_self, Option,
  none, some, List, [], ◌∷◌, ◌++◌, ltb, if◌then◌else◌, ◌≡◌, refl, arith, inl, inr, Bool-cases,
  Option-cases,
}
use host_manager.Auth.ClientRegistry.{max}
use host_manager.Auth.ApiToken.Revocation.{latest_revocation}
use host_manager.Auth.ApiToken.Adoption.{Stranded, strand, strand_all}

lookup_empty {ℓ} : {V : Type ℓ} → (key : Bytes) → lookup {V = V} key [] ≡ none
unfolding lookup
lookup_empty key = refl

longer_left : (d : ℕ) (f e : Stranded) → d ≤ f.ttl → d ≤ max f.ttl e.ttl
longer_left d f e h = ground arith

longer_right : (d : ℕ) (f e : Stranded) → d ≤ e.ttl → d ≤ max f.ttl e.ttl
longer_right d f e h = ground arith

module _ (parse : Bytes → Option ℕ) (format : ℕ → Bytes) (digest : Bytes → Bytes) where
  -- A text that reads as a time of at least `t`.
  abbrev pub Reads : ℕ → Bytes → Type 0
  Reads t v = (at : ℕ) × (parse v ≡ some at) × (t ≤ at)

  abbrev latest : Bytes → Bytes → Bytes
  latest a b = latest_revocation parse format digest a b

  latest_untimed_left : (a b : Bytes) (bt : ℕ) → parse a ≡ none → parse b ≡ some bt → latest a b ≡ b
  unfolding latest_revocation
  latest_untimed_left a b bt e h = rw (latest_revocation, e, h) refl

  latest_untimed_right :
      (a b : Bytes) (at : ℕ) → parse a ≡ some at → parse b ≡ none → latest a b ≡ a
  unfolding latest_revocation
  latest_untimed_right a b at e h = rw (latest_revocation, e, h) refl

  latest_timed :
      (a b : Bytes) (at bt : ℕ)
      → parse a ≡ some at
      → parse b ≡ some bt
      → latest a b ≡ (if ltb at bt then b else a)
  unfolding latest_revocation
  latest_timed a b at bt e h = rw (latest_revocation, e, h) refl

  pub latest_left : (t : ℕ) (a b : Bytes) → Reads t a → Reads t (latest a b)
  latest_left t a b (at, p, l) = elim (Option-cases (parse b)) [
    | inl n ↦ rw (latest_untimed_right a b at p n) (at, p, l)
    | inr (bt, h) ↦ elim (Bool-cases (ltb at bt)) [
      | inl y ↦ rw (latest_timed a b at bt p h, y) (bt, h, ground arith)
      | inr y ↦ rw (latest_timed a b at bt p h, y) (at, p, l)
    ]
  ]

  pub latest_right : (t : ℕ) (a b : Bytes) → Reads t b → Reads t (latest a b)
  latest_right t a b (bt, h, l) = elim (Option-cases (parse a)) [
    | inl n ↦ rw (latest_untimed_left a b bt n h) (bt, h, l)
    | inr (at, p) ↦ elim (Bool-cases (ltb at bt)) [
      | inl y ↦ rw (latest_timed a b at bt p h, y) (bt, h, l)
      | inr y ↦ rw (latest_timed a b at bt p h, y) (at, p, ground arith)
    ]
  ]

  -- What two entries of a key are stranded as
  abbrev joined : Stranded → Stranded → Stranded
  joined f e = record { text_of = latest f.text_of e.text_of; ttl = max f.ttl e.ttl }

  -- An entry that reads as a time of at least `t` and has a time to live of at least `d`
  abbrev pub Covers : ℕ → ℕ → Stranded → Type 0
  Covers t d e = Reads t e.text_of × (d ≤ e.ttl)

  abbrev pub Outlasts : ℕ → Stranded → Type 0
  Outlasts d e = d ≤ e.ttl

  strand_fresh :
      (key : Bytes) (e : Stranded) (m : GoMap Stranded)
      → lookup key m ≡ none
      → strand parse format digest key e m ≡ insert key e m
  unfolding strand
  strand_fresh key e m n = rw (strand, n) refl

  strand_joins :
      (key : Bytes) (e f : Stranded) (m : GoMap Stranded)
      → lookup key m ≡ some f
      → strand parse format digest key e m ≡ insert key (joined f e) m
  unfolding strand
  strand_joins key e f m h = rw (strand, h) refl

  -- No key is stranded twice.
  pub IsUnique : GoMap Stranded → Type 0
  IsUnique [] = Unit {0}
  IsUnique ((k, e) ∷ m) = (lookup k m ≡ none) × IsUnique m

  pub IsUnique-parts :
      (k : Bytes) (e : Stranded) (m : GoMap Stranded)
      → IsUnique ((k, e) ∷ m)
      → (lookup k m ≡ none) × IsUnique m
  unfolding IsUnique
  IsUnique-parts k e m h = h

  insert-IsUnique :
      (key : Bytes) (e : Stranded) (m : GoMap Stranded) → IsUnique m → IsUnique (insert key e m)
  unfolding IsUnique insert
  insert-IsUnique key e [] h = (lookup_empty key, tt)
  insert-IsUnique key e ((j, w) ∷ m) (n, u) = elim (Bool-cases (beq j key)) [
    | inl y ↦ let same : j ≡ key = (beq_iff j key).0 y in rw (y) (rw (same) at n, u)
    | inr d ↦ rw (d) (
      rw (lookup-insert key j e m) (ground (arith, d, n, beq_iff j key, beq_iff key j)),
      insert-IsUnique key e m u,
    )
  ]

  strand_all-IsUnique :
      (es : List (Bytes × Stranded)) (m : GoMap Stranded)
      → IsUnique m
      → IsUnique (strand_all parse format digest es m)
  unfolding strand_all
  strand_all-IsUnique [] m h = h
  strand_all-IsUnique ((key, e) ∷ es) m h = elim (Option-cases (lookup key m)) [
    | inl n ↦
        strand_all-IsUnique es (strand parse format digest key e m)
          (rw (strand_fresh key e m n) (insert-IsUnique key e m h))
    | inr (f, k) ↦
        strand_all-IsUnique es (strand parse format digest key e m)
          (rw (strand_joins key e f m k) (insert-IsUnique key (joined f e) m h))
  ]

  pub stranded-IsUnique :
      (es : List (Bytes × Stranded)) → IsUnique (strand_all parse format digest es [])
  unfolding IsUnique
  stranded-IsUnique es = strand_all-IsUnique es [] tt

  -- What holds of an entry also if it is joined with another one holds of what is stranded under its key.
  module _ (P : Stranded → Type 0) (on_left : (f e : Stranded) → P f → P (joined f e))
      (on_right : (f e : Stranded) → P e → P (joined f e)) where
    abbrev Has : Option Stranded → Type 0
    Has o = (e : Stranded) × (o ≡ some e) × P e

    strand_keeps :
        (j key : Bytes) (e : Stranded) (m : GoMap Stranded)
        → Has (lookup j m)
        → Has (lookup j (strand parse format digest key e m))
    strand_keeps j key e m (f, h, r) = elim (Bool-cases (beq key j)) [
      | inl y ↦
          let same : key ≡ j = (beq_iff key j).0 y in
          let found : lookup key m ≡ some f = rw (same) h in
          rw (strand_joins key e f m found, lookup-insert key j (joined f e) m, y)
            (joined f e, refl, on_left f e r)
      | inr n ↦ elim (Option-cases (lookup key m)) [
        | inl d ↦ rw (strand_fresh key e m d, lookup-insert key j e m, n) (f, h, r)
        | inr (g, k) ↦
            rw (strand_joins key e g m k, lookup-insert key j (joined g e) m, n) (f, h, r)
      ]
    ]

    strand_gains :
        (key : Bytes) (e : Stranded) (m : GoMap Stranded)
        → P e
        → Has (lookup key (strand parse format digest key e m))
    strand_gains key e m r = elim (Option-cases (lookup key m)) [
      | inl n ↦ rw (strand_fresh key e m n) (e, lookup-insert_self key e m, r)
      | inr (f, h) ↦
          rw (strand_joins key e f m h)
            (joined f e, lookup-insert_self key (joined f e) m, on_right f e r)
    ]

    strand_all-keeps :
        (j : Bytes) (es : List (Bytes × Stranded)) (m : GoMap Stranded)
        → Has (lookup j m)
        → Has (lookup j (strand_all parse format digest es m))
    unfolding strand_all
    strand_all-keeps j [] m h = h
    strand_all-keeps j ((key, e) ∷ es) m h =
        strand_all-keeps j es (strand parse format digest key e m) (strand_keeps j key e m h)

    strand_all-gains :
        (key : Bytes) (e : Stranded) (before after : List (Bytes × Stranded)) (m : GoMap Stranded)
        → P e
        → Has (lookup key (strand_all parse format digest (before ++ (key, e) ∷ after) m))
    unfolding strand_all
    strand_all-gains key e [] after m r =
        strand_all-keeps key after (strand parse format digest key e m) (strand_gains key e m r)
    strand_all-gains key e ((k, f) ∷ before) after m r =
        strand_all-gains key e before after (strand parse format digest k f m) r

  -- What a scan strands under the key of an entry lives at least as long.
  pub stranded-Outlasts :
      (d : ℕ) (key : Bytes) (e : Stranded) (before after : List (Bytes × Stranded))
      → Outlasts d e
      → (g : Stranded) × (lookup key
            (strand_all parse format digest (before ++ (key, e) ∷ after) [])
          ≡ some g)
        × Outlasts d g
  stranded-Outlasts d key e before after h =
      strand_all-gains (Outlasts d) (λ f g k. longer_left d f g k) (λ f g k. longer_right d f g k)
        key e before after [] h

  -- And it reads as a time that is not before the entry's.
  pub stranded-Covers :
      (t d : ℕ) (key : Bytes) (e : Stranded) (before after : List (Bytes × Stranded))
      → Covers t d e
      → (g : Stranded) × (lookup key
            (strand_all parse format digest (before ++ (key, e) ∷ after) [])
          ≡ some g)
        × Covers t d g
  stranded-Covers t d key e before after h =
      strand_all-gains (Covers t d)
        (λ f g (r, k). (latest_left t f.text_of g.text_of r, longer_left d f g k))
        (λ f g (r, k). (latest_right t f.text_of g.text_of r, longer_right d f g k)) key e before
        after [] h
