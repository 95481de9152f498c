-- ===== src/Cache/Memory/Budget.antt =====
-- A use counter: DecrementIfPositive spends exactly the uses that were granted.
use host_manager.Base.{
  ℕ, ◌+◌, ◌-◌, ◌^◌, ◌≤◌, ◌<◌, Bytes, beq_self, ◌≡◌, refl, true, ◌||◌, Option, none, some, List, [],
  ◌∷◌, length, lookup, insert, lookup-insert, ltb, ◌==◌, ◌⊎◌, inl, inr, if◌then◌else◌, arith,
  Bool-cases, Option-cases,
}
use host_manager.Cache.{Generation}
use host_manager.Cache.Lru.{Lru}
use host_manager.Cache.Decimal.{pos, parse_int, format_int, parse_int-format_int}
use host_manager.Cache.Memory.State.{Entry, Segment, Segments, MemoryCache, expired, touch}
use host_manager.Cache.Memory.Counter.{
  Decremented, refused, positive_pred, try_decrement_entry, decrement_others, decrement_if_positive,
}
use host_manager.Cache.Memory.View.{
  entry_of, entry_elsewhere, present, segment_of-insert, elsewhere-insert,
}
use host_manager.Cache.Memory.Winner.{IsAlone}

decrement_others-none :
    (now : ℕ) (k : Bytes) (g : Generation) (segs : Segments) (l : Lru)
    → entry_elsewhere k g segs ≡ none
    → decrement_others now k g segs l ≡ (segs, l, refused)
unfolding decrement_others entry_elsewhere try_decrement_entry
decrement_others-none now k g [] l h = refl
decrement_others-none now k g ((j, seg) ∷ segs) l h =
    ground (arith, decrement_others-none now k g segs l)

-- The entry after a decrement, and the answer.
abbrev spend_entry : ℕ → Entry → Option ℕ → Entry × Decremented
spend_entry now e none = (e, refused)
spend_entry now e (some n) =
    if expired now e
    then (e, refused)
    else (record e { value = format_int n }, record { remaining = pos n; ok = true })

try_decrement-spend :
    (now : ℕ) (k : Bytes) (seg : Segment) (l : Lru) (e : Entry)
    → lookup k seg ≡ some e
    → (try_decrement_entry now seg k l ≡ none)
        × (spend_entry now e (positive_pred (parse_int e.value)) ≡ (e, refused))
      ⊎ ((seg' : Segment) × (l' : Lru) × (try_decrement_entry now seg k l
            ≡ some (seg', l', (spend_entry now e (positive_pred (parse_int e.value))).1))
          × (lookup k seg' ≡ some (spend_entry now e (positive_pred (parse_int e.value))).0))
unfolding try_decrement_entry
try_decrement-spend now k seg l e h = elim (Bool-cases (expired now e)) [
  | inl x ↦ inl (ground arith, ground arith)
  | inr x ↦ elim (Option-cases (positive_pred (parse_int e.value))) [
    | inl z ↦ inr (seg, l, ground arith, ground arith)
    | inr (n, z) ↦
        let e' : Entry = record e { value = format_int n } in
        inr (
          insert k e' seg,
          touch e l,
          ground arith,
          ground (arith, lookup-insert k k e' seg, beq_self k),
        )
  ]
]

-- A decrement of a key that only the current generation holds.
decrement-IsAlone :
    (now : ℕ) (k : Bytes) (c : MemoryCache) (e : Entry)
    → IsAlone k c
    → entry_of k c ≡ some e
    → (entry_of k (decrement_if_positive now k c).0
        ≡ some (spend_entry now e (positive_pred (parse_int e.value))).0)
      × IsAlone k (decrement_if_positive now k c).0
      × ((decrement_if_positive now k c).1
          ≡ (spend_entry now e (positive_pred (parse_int e.value))).1)
unfolding decrement_if_positive
decrement-IsAlone now k c e h q =
    let others = decrement_others-none now k c.current c.segments c.lru h in
    let (seg, m, there) = present k c e q in
    elim (try_decrement-spend now k seg c.lru e there) [
      | inl (t, s) ↦ rw (m, t, decrement_if_positive, others, s) (q, h, refl)
      | inr (seg', l', t, s) ↦
          rw (m, t, decrement_if_positive)
            (
              rw (segment_of-insert c.current c.current seg' c.segments, beq_self c.current) s,
              rw (elsewhere-insert k c.current seg' c.segments) h,
              refl,
            )
    ]

-- How many of the calls succeed, in the order in which they take the lock.
unfoldable pub spend : List ℕ → Bytes → MemoryCache → ℕ
spend [] k c = 0
spend (now ∷ times) k c =
    let (c', r) = decrement_if_positive now k c in (if r.ok then 1 else 0) + spend times k c'

-- A counter of `n` uses, as it was granted.
abbrev pub Grants : Bytes → ℕ → Entry → MemoryCache → Type 0
Grants k n e c =
    IsAlone k c × (entry_of k c ≡ some e) × (parse_int e.value ≡ some (pos n)) × (n < 2 ^ 63)

abbrev pub AllLive : List ℕ → Entry → Type 0
AllLive [] e = Unit
AllLive (now ∷ times) e = (now ≤ e.expiry) × AllLive times e

AllLive-expiry :
    (times : List ℕ) (e e' : Entry) → e'.expiry ≡ e.expiry → AllLive times e → AllLive times e'
AllLive-expiry [] e e' h live = tt
AllLive-expiry (now ∷ times) e e' h (live, later) = (omega arith, AllLive-expiry times e e' h later)

-- The counter after a call, whether it was in time or not.
spend_step :
    (now : ℕ) (k : Bytes) (n : ℕ) (e : Entry) (c : MemoryCache)
    → Grants k n e c
    → (e' : Entry) × (n' : ℕ) × Grants k n' e' (decrement_if_positive now k c).0
      × (e'.expiry ≡ e.expiry)
      × ((if (decrement_if_positive now k c).1.ok then 1 else 0) + n' ≡ n)
      × (now ≤ e.expiry → 0 < n → n' < n)
unfolding positive_pred
spend_step now k n e c (alone, here, value, range) =
    let (here', alone', r) = decrement-IsAlone now k c e alone here in
    elim (Bool-cases (expired now e || n == 0)) [
      | inl x ↦
          let s : spend_entry now e (positive_pred (parse_int e.value)) ≡ (e, refused) =
            ground arith in
          (e, n, (alone', rw s at here', value, range), refl, rw (r, s) (omega arith), ground arith)
      | inr x ↦
          let e' : Entry = record e { value = format_int (n - 1) } in
          let s : spend_entry now e (positive_pred (parse_int e.value))
              ≡ (e', record { remaining = pos (n - 1); ok = true }) =
            ground arith in
          (
            e',
            n - 1,
            (alone', rw s at here', parse_int-format_int (n - 1) (omega arith), omega arith),
            refl,
            rw (r, s) (ground arith),
            ground arith,
          )
    ]

-- Of any number of calls on a counter of `n` uses, at most `n` succeed, whenever they run.
pub spend-le :
    (times : List ℕ) (k : Bytes) (n : ℕ) (e : Entry) (c : MemoryCache)
    → Grants k n e c
    → spend times k c ≤ n
unfolding spend
spend-le [] k n e c g = omega arith
spend-le (now ∷ times) k n e c g =
    let (e', n', g', _, spent, _) = spend_step now k n e c g in
    omega (arith, spent, spend-le times k n' e' (decrement_if_positive now k c).0 g')

-- Of calls that all run before the counter expires, the first `n` succeed and no other.
pub spend-exact :
    (times : List ℕ) (k : Bytes) (n : ℕ) (e : Entry) (c : MemoryCache)
    → Grants k n e c
    → AllLive times e
    → spend times k c ≡ (if ltb n (length times) then n else length times)
unfolding spend
spend-exact [] k n e c g live = ground arith
spend-exact (now ∷ times) k n e c g (live, later) =
    let (e', n', g', same, spent, falls) = spend_step now k n e c g in
    let ih =
      spend-exact times k n' e' (decrement_if_positive now k c).0 g'
        (AllLive-expiry times e e' same later) in
    ground (arith, ih, spent, falls live)
