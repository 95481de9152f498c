-- ===== src/Auth/ApiToken/Adoption/Covered.antt =====
-- internal/auth/apitoken/apitoken.go, AdoptStrandedRevocations: what an adoption leaves in force, and how long.
use host_manager.Base.{
  ℕ, ◌+◌, ◌≤◌, ◌∙◌, Bytes, beq, beq_iff, GoMap, lookup, Bool, true, false, Option, none, some, List,
  [], ◌∷◌, ◌++◌, ◌≡◌, refl, arith, inl, inr, ◌⊎◌, Bool-cases,
}
use host_manager.Auth.ApiToken.Revocation.{Store, get, latest_revocation}
use host_manager.Auth.ApiToken.Adoption.{
  Stranded, Adopted, strand_all, is_current, adopt_all, adopt_stranded_revocations,
}
use host_manager.Auth.ApiToken.Adoption.Stranding.{
  Reads, Covers, latest_right, IsUnique, IsUnique-parts, stranded-IsUnique, stranded-Outlasts,
  stranded-Covers,
}
use host_manager.Auth.ApiToken.Adoption.Update.{
  From, InForce, adopting, get-adopt_other, adopt_keeps, adopt_gains,
}

not_found : (e : Stranded) → none ≡ some e → ⊥
not_found e h = cc

same_stranded : (g e : Stranded) → some g ≡ some e → e ≡ g
same_stranded g e h = cc

module _ (parse : Bytes → Option ℕ) (format : ℕ → Bytes) (digest : Bytes → Bytes)
    (max_ttl clock : ℕ) (reads updates : Bytes → Bool) where
  abbrev adopting_all : GoMap Stranded → Adopted → Adopted
  adopting_all m a = adopt_all parse format digest max_ttl clock reads updates m a

  -- One turn: nothing to be done, an update, or a failure.
  turn_cases :
      (key : Bytes) (e : Stranded) (m : GoMap Stranded) (a : Adopted)
      → ((is_current parse format digest (reads key) (get clock key a.store) e.text_of ≡ true)
          × (adopting_all ((key, e) ∷ m) a ≡ adopting_all m a))
        ⊎ (adopting_all ((key, e) ∷ m) a
            ≡ adopting_all m (adopting parse format digest max_ttl clock key e a))
        ⊎ (adopting_all ((key, e) ∷ m) a ≡ record a { failed = true })
  unfolding adopt_all
  turn_cases key e m a =
      elim (Bool-cases
        (is_current parse format digest (reads key) (get clock key a.store) e.text_of)) [
          | inl y ↦ inl (y, rw (adopt_all, y) refl)
          | inr n ↦ elim (Bool-cases (updates key)) [
            | inl y ↦ inr (inl (rw (adopt_all, n, y) refl))
            | inr f ↦ inr (inr (rw (adopt_all, n, f) refl))
          ]
        ]

  adopt_all_none : (a : Adopted) → adopting_all [] a ≡ a
  unfolding adopt_all
  adopt_all_none a = refl

  -- A key under which nothing is stranded is read as it was.
  adopt_all_other :
      (at : ℕ) (j : Bytes) (m : GoMap Stranded) (a : Adopted)
      → lookup j m ≡ none
      → get at j (adopting_all m a).store ≡ get at j a.store
  unfolding lookup
  adopt_all_other at j [] a h = rw (adopt_all_none a) refl
  adopt_all_other at j ((key, e) ∷ m) a h =
      let other : beq key j ≡ false = ground (arith, h) in
      let rest : lookup j m ≡ none = rw (other) at h in
      elim (turn_cases key e m a) [
        | inl (_, same) ↦ rw (same) (adopt_all_other at j m a rest)
        | inr (inl next) ↦ rw (next) (
            adopt_all_other at j m (adopting parse format digest max_ttl clock key e a) rest
            ∙ get-adopt_other parse format digest max_ttl clock at key j e a other)
        | inr (inr stop) ↦ rw (stop) refl
      ]

  current-From :
      (t : ℕ) (b : Bool) (v : Bytes) (o : Option Bytes)
      → is_current parse format digest b o v ≡ true
      → Reads parse format digest t v
      → From parse format digest max_ttl clock t o
  unfolding is_current From
  current-From t b v none h r = absurd (ground (arith, h))
  current-From t b v (some c) h r =
      let same : latest_revocation parse format digest c v ≡ c =
        (beq_iff (latest_revocation parse format digest c v) c).0 (ground (arith, h)) in
      (c, refl, rw (same) at (latest_right parse format digest t c v r))

  -- The first failure ends the loop.
  stopped : (a : Adopted) → (record a { failed = true }).failed ≡ false → ⊥
  stopped a h = ground (arith, h)

  adopt_all-keeps :
      (t d : ℕ) (key : Bytes) (e : Stranded) (m : GoMap Stranded) (a : Adopted)
      → IsUnique parse format digest m
      → lookup key m ≡ some e
      → d ≤ e.ttl
      → InForce parse format digest max_ttl clock t (clock + d) key a
      → InForce parse format digest max_ttl clock t (clock + d) key (adopting_all m a)
  unfolding lookup
  adopt_all-keeps t d key e [] a u h l f = absurd (not_found e h)
  adopt_all-keeps t d key e ((k, g) ∷ m) a u h l f =
      let (alone, distinct) = IsUnique-parts parse format digest k g m u in
      elim (turn_cases k g m a) [
        | inr (inr stop) ↦ rw (stop) f
        | inl (_, same) ↦ elim (Bool-cases (beq k key)) [
          | inl y ↦
              let here : k ≡ key = (beq_iff k key).0 y in
              rw (same, adopt_all_other (clock + d) key m a (rw (here) at alone)) f
          | inr n ↦ rw (same) (adopt_all-keeps t d key e m a distinct (rw (n) at h) l f)
        ]
        | inr (inl next) ↦ elim (Bool-cases (beq k key)) [
          | inl y ↦
              let here : k ≡ key = (beq_iff k key).0 y in
              let own : e ≡ g = same_stranded g e (rw (y) at h) in
              rw
                (
                  next,
                  here,
                  ← own,
                  adopt_all_other (clock + d) key m
                      (adopting parse format digest max_ttl clock key e a) (rw (here) at alone),
                )
                (adopt_keeps parse format digest max_ttl clock t d key e a l f)
          | inr n ↦ rw (next) (
              adopt_all-keeps t d key e m (adopting parse format digest max_ttl clock k g a)
                distinct (rw (n) at h) l
                (rw (get-adopt_other parse format digest max_ttl clock (clock + d) k key g a n) f))
        ]
      ]

  adopt_all-gains :
      (t d : ℕ) (key : Bytes) (e : Stranded) (m : GoMap Stranded) (a : Adopted)
      → IsUnique parse format digest m
      → lookup key m ≡ some e
      → Covers parse format digest t d e
      → (InForce parse format digest max_ttl clock t clock key a → ⊥)
      → (adopting_all m a).failed ≡ false
      → InForce parse format digest max_ttl clock t (clock + d) key (adopting_all m a)
  unfolding lookup
  adopt_all-gains t d key e [] a u h c empty f = absurd (not_found e h)
  adopt_all-gains t d key e ((k, g) ∷ m) a u h c empty f =
      let (alone, distinct) = IsUnique-parts parse format digest k g m u in
      elim (turn_cases k g m a) [
        | inr (inr stop) ↦ absurd (stopped a (rw (stop) at f))
        | inl (current, same) ↦ elim (Bool-cases (beq k key)) [
          | inl y ↦
              let here : k ≡ key = (beq_iff k key).0 y in
              let own : e ≡ g = same_stranded g e (rw (y) at h) in
              absurd (
                empty (
                  current-From t (reads key) e.text_of (get clock key a.store)
                    (rw (here, ← own) at current) c.0))
          | inr n ↦
              rw (same)
                (adopt_all-gains t d key e m a distinct (rw (n) at h) c empty (rw (same) at f))
        ]
        | inr (inl next) ↦ elim (Bool-cases (beq k key)) [
          | inl y ↦
              let here : k ≡ key = (beq_iff k key).0 y in
              let own : e ≡ g = same_stranded g e (rw (y) at h) in
              rw
                (
                  next,
                  here,
                  ← own,
                  adopt_all_other (clock + d) key m
                      (adopting parse format digest max_ttl clock key e a) (rw (here) at alone),
                )
                (adopt_gains parse format digest max_ttl clock t d key e a c empty)
          | inr n ↦ rw (next) (
              adopt_all-gains t d key e m (adopting parse format digest max_ttl clock k g a)
                distinct (rw (n) at h) c
                (λ held. empty (
                  rw (get-adopt_other parse format digest max_ttl clock clock k key g a n) at held))
                (rw (next) at f))
        ]
      ]

  abbrev adopted : List (Bytes × Stranded) → Store → Adopted
  adopted es s = adopt_stranded_revocations parse format digest max_ttl clock reads updates es s

  -- When a time d has passed since an adoption, a revocation of at least a time t is in force in the store,
  -- where an entry that was scanned under its key has a time to live of at least d, in two cases, whatever
  -- reads fail: the store had such a revocation when the adoption started, one that would still be in force
  -- if there were no adoption (then also if the adoption ends with a failure); or the entry is such a
  -- revocation, the store had none when the adoption started, and the adoption ends without a failure.
  pub adopt_stranded_revocations-From :
      (t d : ℕ) (key : Bytes) (e : Stranded) (before after : List (Bytes × Stranded)) (s : Store)
      → d ≤ e.ttl
      → From parse format digest max_ttl clock t (get (clock + d) key s)
        ⊎ (Reads parse format digest t e.text_of
            × (From parse format digest max_ttl clock t (get clock key s) → ⊥)
            × ((adopted (before ++ (key, e) ∷ after) s).failed ≡ false))
      → From parse format digest max_ttl clock t
          (get (clock + d) key (adopted (before ++ (key, e) ∷ after) s).store)
  unfolding adopt_stranded_revocations
  adopt_stranded_revocations-From t d key e before after s l (inl h) =
      let (g, found, own) = stranded-Outlasts parse format digest d key e before after l in
      adopt_all-keeps t d key g (strand_all parse format digest (before ++ (key, e) ∷ after) []) _
        (stranded-IsUnique parse format digest (before ++ (key, e) ∷ after)) found own h
  adopt_stranded_revocations-From t d key e before after s l (inr (r, empty, f)) =
      let (g, found, own) = stranded-Covers parse format digest t d key e before after (r, l) in
      adopt_all-gains t d key g (strand_all parse format digest (before ++ (key, e) ∷ after) []) _
        (stranded-IsUnique parse format digest (before ++ (key, e) ∷ after)) found own empty f
