-- ===== src/Auth/ApiToken/Adoption.antt =====
-- internal/auth/apitoken/apitoken.go: AdoptStrandedRevocations, which brings the revocations of every host generation into
-- the store.
pub mod Stranding
pub mod Update
pub mod Covered
use host_manager.Base.{
  ℕ, ◌+◌, Bytes, beq, GoMap, lookup, insert, Bool, true, false, not, ◌&&◌, Option, none, some, List,
  [], ◌∷◌, ltb, if◌then◌else◌, ◌==◌,
}
use host_manager.Auth.ClientRegistry.{max}
use host_manager.Auth.ApiToken.Revocation.{Entry, Store, get, latest_revocation, revocation_ttl}

-- A cache.Entry of a scan, and what is stranded under its key.
pub record Stranded : Type 0 where
  pub text_of : Bytes
  pub ttl : ℕ

-- How many entries were strengthened, and whether an update failed.
pub record Adopted : Type 0 where
  pub store : Store
  pub count : ℕ
  pub failed : Bool

module _ (parse : Bytes → Option ℕ) (format : ℕ → Bytes) (digest : Bytes → Bytes) where
  -- The callback of ScanGenerations
  unfoldable pub strand : Bytes → Stranded → GoMap Stranded → GoMap Stranded
  strand key e m =
      insert key
        (elim (lookup key m) [
          | none ↦ e
          | some prev ↦ record {
            text_of = latest_revocation parse format digest prev.text_of e.text_of;
            ttl = max prev.ttl e.ttl;
          }
        ])
        m

  unfoldable pub strand_all : List (Bytes × Stranded) → GoMap Stranded → GoMap Stranded
  unfolding strand
  strand_all [] m = m
  strand_all ((key, e) ∷ es) m = strand_all es (strand key e m)

  -- Whether the plain read shows that nothing is to be done.
  unfoldable pub is_current : Bool → Option Bytes → Bytes → Bool
  is_current reads none v = false
  is_current reads (some current) v =
      reads && beq (latest_revocation parse format digest current v) current

  -- The update function: what is written, if anything is.
  unfoldable pub merge : Option Bytes → Bytes → Option Bytes
  merge none v = some v
  merge (some current) v =
      if beq (latest_revocation parse format digest current v) current
      then none
      else some (latest_revocation parse format digest current v)

  -- The update of one key.
  unfoldable pub adopt : ℕ → ℕ → Bytes → Stranded → Adopted → Adopted
  unfolding get merge
  adopt max_ttl clock key e a = elim (merge (get clock key a.store) e.text_of) [
    | none ↦ a
    | some v ↦ record a {
      store =
          insert key
            (record {
              value = v;
              expires_at = clock + (if e.ttl == 0 then revocation_ttl max_ttl else e.ttl);
            })
            a.store;
      count = a.count + 1;
    }
  ]

  -- The loop over the stranded keys; a read or an update may fail.
  unfoldable pub adopt_all :
      ℕ → ℕ → (Bytes → Bool) → (Bytes → Bool) → GoMap Stranded → Adopted → Adopted
  unfolding is_current get adopt
  adopt_all max_ttl clock reads updates [] a = a
  adopt_all max_ttl clock reads updates ((key, e) ∷ m) a =
      elim (is_current (reads key) (get clock key a.store) e.text_of) [
        | true ↦ adopt_all max_ttl clock reads updates m a
        | false ↦
            if updates key
            then adopt_all max_ttl clock reads updates m (adopt max_ttl clock key e a)
            else record a { failed = true }
      ]

  -- AdoptStrandedRevocations, of what a scan of all generations gave
  unfoldable pub adopt_stranded_revocations :
      ℕ → ℕ → (Bytes → Bool) → (Bytes → Bool) → List (Bytes × Stranded) → Store → Adopted
  unfolding strand_all adopt_all
  adopt_stranded_revocations max_ttl clock reads updates es s =
      adopt_all max_ttl clock reads updates (strand_all es [])
        (record { store = s; count = 0; failed = false })
