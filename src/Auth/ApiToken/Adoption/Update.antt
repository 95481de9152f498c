-- ===== src/Auth/ApiToken/Adoption/Update.antt =====
-- internal/auth/apitoken/apitoken.go, AdoptStrandedRevocations: what the update of one key leaves in force, and how long. An
-- entry that is written has the lifetime of what was stranded, which may be shorter than that of the entry that it replaces.
use host_manager.Base.{
  ℕ, ◌+◌, ◌≤◌, Bytes, beq, beq_iff, beq_self, lookup, insert, lookup-insert, true, false, Option,
  none, some, ltb, if◌then◌else◌, ◌==◌, ◌≡◌, refl, arith, inl, inr, ◌⊎◌, Bool-cases, Option-cases,
}
use host_manager.Auth.ApiToken.Revocation.{Store, get, latest_revocation, revocation_ttl}
use host_manager.Auth.ApiToken.Adoption.{Stranded, Adopted, merge, adopt}
use host_manager.Auth.ApiToken.Adoption.Stranding.{Reads, Covers, latest_left, latest_right}

-- An entry is read back until it expires; the other keys are read as they were.
get-insert :
    (later x : ℕ) (key j v : Bytes) (s : Store)
    → get later j (insert key (record { value = v; expires_at = x }) s)
      ≡ (if beq key j then (if ltb x later then none else some v) else get later j s)
unfolding get
get-insert later x key j v s = elim (Bool-cases (beq key j)) [
  | inl y ↦ rw (get, lookup-insert key j (record { value = v; expires_at = x }) s, y) refl
  | inr n ↦ rw (get, lookup-insert key j (record { value = v; expires_at = x }) s, n) refl
]

-- What is read later is read now.
get_earlier :
    (clock d : ℕ) (key v : Bytes) (s : Store)
    → get (clock + d) key s ≡ some v
    → get clock key s ≡ some v
unfolding get
get_earlier clock d key v s h = elim (Option-cases (lookup key s)) [
  | inl n ↦
      let missed : get (clock + d) key s ≡ none = rw (get, n) refl in
      absurd (ground (arith, h, missed))
  | inr (f, k) ↦
      let late : get (clock + d) key s
          ≡ (if ltb f.expires_at (clock + d) then none else some f.value) =
        rw (get, k) refl in
      let soon : get clock key s ≡ (if ltb f.expires_at clock then none else some f.value) =
        rw (get, k) refl in
      ground (arith, h, late, soon)
]

-- The lifetime of what an adoption writes
abbrev life : ℕ → Stranded → ℕ
life max_ttl e = if e.ttl == 0 then revocation_ttl max_ttl else e.ttl

alive :
    (max_ttl clock d : ℕ) (e : Stranded)
    → d ≤ e.ttl
    → ltb (clock + life max_ttl e) (clock + d) ≡ false
alive max_ttl clock d e h = ground arith

same_value : (v w : Bytes) → some v ≡ some w → v ≡ w
same_value v w h = cc

module _ (parse : Bytes → Option ℕ) (format : ℕ → Bytes) (digest : Bytes → Bytes)
    (max_ttl clock : ℕ) where
  abbrev latest : Bytes → Bytes → Bytes
  latest a b = latest_revocation parse format digest a b

  abbrev merged : Option Bytes → Bytes → Option Bytes
  merged o v = merge parse format digest o v

  abbrev pub adopting : Bytes → Stranded → Adopted → Adopted
  adopting key e a = adopt parse format digest max_ttl clock key e a

  unfoldable pub From : ℕ → Option Bytes → Type 0
  From t o = (v : Bytes) × (o ≡ some v) × Reads parse format digest t v

  -- An earlier revocation is none of at least `t`.
  pub earlier-From :
      (t at : ℕ) (v : Bytes) → parse v ≡ some at → ltb at t ≡ true → From t (some v) → ⊥
  unfolding From
  earlier-From t at v p l (w, e, (other, q, r)) =
      let same : v ≡ w = same_value v w e in
      let read : parse v ≡ some other = rw (same) q in ground (arith, p, read, l, r)

  -- A revocation of at least `t` is in force at a time.
  abbrev pub InForce : ℕ → ℕ → Bytes → Adopted → Type 0
  InForce t at key a = From t (get at key a.store)

  merge_cases :
      (c v : Bytes)
      → ((merged (some c) v ≡ none) × (latest c v ≡ c)) ⊎ (merged (some c) v ≡ some (latest c v))
  unfolding merge
  merge_cases c v = elim (Bool-cases (beq (latest c v) c)) [
    | inl y ↦ inl (rw (merge, y) refl, (beq_iff (latest c v) c).0 y)
    | inr n ↦ inr (rw (merge, n) refl)
  ]

  adopt_same :
      (key : Bytes) (e : Stranded) (a : Adopted)
      → merged (get clock key a.store) e.text_of ≡ none
      → adopting key e a ≡ a
  unfolding adopt
  adopt_same key e a n = rw (adopt, n) refl

  adopt_writes :
      (key w : Bytes) (e : Stranded) (a : Adopted)
      → merged (get clock key a.store) e.text_of ≡ some w
      → (adopting key e a).store
        ≡ insert key (record { value = w; expires_at = clock + life max_ttl e }) a.store
  unfolding adopt
  adopt_writes key w e a h = rw (adopt, h) refl

  -- What is written is read for the time to live of what was stranded.
  get-adopt :
      (d : ℕ) (key w : Bytes) (e : Stranded) (a : Adopted)
      → d ≤ e.ttl
      → merged (get clock key a.store) e.text_of ≡ some w
      → get (clock + d) key (adopting key e a).store ≡ some w
  get-adopt d key w e a l h =
      rw
        (
          adopt_writes key w e a h,
          get-insert (clock + d) (clock + life max_ttl e) key key w a.store,
          beq_self key,
          alive max_ttl clock d e l,
        )
        refl

  -- The other keys are read as they were.
  pub get-adopt_other :
      (at : ℕ) (key j : Bytes) (e : Stranded) (a : Adopted)
      → beq key j ≡ false
      → get at j (adopting key e a).store ≡ get at j a.store
  get-adopt_other at key j e a n = elim (Option-cases (merged (get clock key a.store) e.text_of)) [
    | inl m ↦ rw (adopt_same key e a m) refl
    | inr (w, h) ↦
        rw (adopt_writes key w e a h, get-insert at (clock + life max_ttl e) key j w a.store, n)
          refl
  ]

  pub adopt_keeps :
      (t d : ℕ) (key : Bytes) (e : Stranded) (a : Adopted)
      → d ≤ e.ttl
      → InForce t (clock + d) key a
      → InForce t (clock + d) key (adopting key e a)
  unfolding From
  adopt_keeps t d key e a l (c, h, r) =
      let now : get clock key a.store ≡ some c = get_earlier clock d key c a.store h in
      elim (merge_cases c e.text_of) [
        | inl (n, _) ↦
            let same : merged (get clock key a.store) e.text_of ≡ none = rw (now) n in
            rw (adopt_same key e a same) (c, h, r)
        | inr w ↦
            let written : merged (get clock key a.store) e.text_of ≡ some (latest c e.text_of) =
              rw (now) w in
            (
              latest c e.text_of,
              get-adopt d key (latest c e.text_of) e a l written,
              latest_left parse format digest t c e.text_of r,
            )
      ]

  pub adopt_gains :
      (t d : ℕ) (key : Bytes) (e : Stranded) (a : Adopted)
      → Covers parse format digest t d e
      → (InForce t clock key a → ⊥)
      → InForce t (clock + d) key (adopting key e a)
  unfolding From merge
  adopt_gains t d key e a (r, l) empty = elim (Option-cases (get clock key a.store)) [
    | inl n ↦
        let written : merged (get clock key a.store) e.text_of ≡ some e.text_of = rw (n) refl in
        (e.text_of, get-adopt d key e.text_of e a l written, r)
    | inr (c, h) ↦
        let newer = latest_right parse format digest t c e.text_of r in
        elim (merge_cases c e.text_of) [
          | inl (_, same) ↦ absurd (empty (c, h, rw (same) at newer))
          | inr w ↦
              let written : merged (get clock key a.store) e.text_of ≡ some (latest c e.text_of) =
                rw (h) w in
              (latest c e.text_of, get-adopt d key (latest c e.text_of) e a l written, newer)
        ]
  ]
