-- ===== src/Host/ResourceNames/Collected.antt =====
-- internal/host/resource_names.go, the function add of hostNativeNames: what is collected.
use host_manager.Base.{
  Bytes, beq, beq_iff, ◌≡◌, ◌≢◌, refl, sym, ap, ◌∙◌, true, false, ◌||◌, List, [], ◌∷◌, ◌++◌, inl,
  inr, Bool-cases, contains, contains-append, All, arith,
}
use host_manager.Host.ResourceNames.{ResourceName}
use host_manager.Host.ResourceNames.Sorted.{Distinct}
use host_manager.Host.ResourceNames.Native.{Names, add_name}

abbrev pub names_of : List ResourceName → List Bytes
names_of [] = []
names_of (n ∷ ns) = n.name ∷ names_of ns

names_of-append :
    (ms : List ResourceName) (n : ResourceName)
    → names_of (ms ++ n ∷ []) ≡ names_of ms ++ n.name ∷ []
names_of-append [] n = refl
names_of-append (m ∷ ms) n = ap (◌∷◌ m.name) (names_of-append ms n)

-- The names differ and none is empty.
abbrev pub IsProper : List ResourceName → Type 0
IsProper ns = Distinct ns × All (λ n. n.name ≢ []) ns

All-append {ℓ} :
    (P : ResourceName → Type ℓ) (ms : List ResourceName) (n : ResourceName)
    → All P ms
    → P n
    → All P (ms ++ n ∷ [])
All-append P [] n h k = (k, tt)
All-append P (m ∷ ms) n (h, hs) k = (h, All-append P ms n hs k)

Distinct-append :
    (ms : List ResourceName) (n : ResourceName)
    → Distinct ms
    → contains (names_of ms) n.name ≡ false
    → Distinct (ms ++ n ∷ [])
Distinct-append [] n d h = (tt, tt)
Distinct-append (m ∷ ms) n (d, ds) h =
    let differ : m.name ≢ n.name = ground (arith, beq_iff m.name n.name) in
    let later : contains (names_of ms) n.name ≡ false = ground (arith, h) in
    (All-append (λ k. m.name ≢ k.name) ms n d differ, Distinct-append ms n ds later)

-- What is seen is what is collected.
unfoldable pub IsCollected : Names → Type 0
IsCollected ns = (ns.seen ≡ names_of ns.out) × IsProper ns.out

pub add_name-IsCollected :
    (name label : Bytes) (ns : Names) → IsCollected ns → IsCollected (add_name name label ns)
unfolding add_name IsCollected
add_name-IsCollected name label ns (s, (d, e)) =
    elim (Bool-cases (beq name [] || contains ns.seen name)) [
      | inl y ↦ rw (y) (s, (d, e))
      | inr n ↦
          let item : ResourceName = record { name = name; label = label } in
          let unseen : contains ns.seen name ≡ false = ground (arith, n) in
          let fresh : contains (names_of ns.out) name ≡ false = rw (s) at unseen in
          let proper : name ≢ [] = ground (arith, n, beq_iff name []) in
          rw (n) (
            ap (λ t. t ++ name ∷ []) s ∙ sym (names_of-append ns.out item),
            (
              Distinct-append ns.out item d fresh,
              All-append (λ m. m.name ≢ []) ns.out item e proper,
            ),
          )
    ]

-- A name is listed if it was, or if it is the one added.
pub contains-add_name :
    (name label : Bytes) (ns : Names) (b : Bytes)
    → IsCollected ns
    → b ≢ []
    → contains (names_of (add_name name label ns).out) b
      ≡ (contains (names_of ns.out) b || beq name b)
unfolding add_name IsCollected
contains-add_name name label ns b (s, h) n =
    elim (Bool-cases (beq name [] || contains ns.seen name)) [
      | inl y ↦ rw (y) (elim (Bool-cases (beq name b)) [
        | inl e ↦
            let same : name ≡ b = (beq_iff name b).0 e in
            let seen : contains ns.seen b ≡ true = ground (arith, y, same, beq_iff name []) in
            let held : contains (names_of ns.out) b ≡ true = rw (s) at seen in rw (held) refl
        | inr e ↦ rw (e) (ground arith)
      ])
      | inr e ↦ rw (e, names_of-append, contains-append) (ground arith)
    ]
