-- ===== src/Cache/Memory/Winner.antt =====
-- Callers that race to consume one entry: GetAndDelete has a single winner.
use host_manager.Base.{
  ◌≤◌, ◌∙◌, ℕ, Bytes, beq_self, ◌≡◌, refl, sym, Bool, true, false, not, ◌||◌, Option, none, some,
  List, [], ◌∷◌, lookup, lookup-delete, inl, inr, if◌then◌else◌, arith, Option-cases,
}
use host_manager.Cache.{Generation}
use host_manager.Cache.Lru.{Lru}
use host_manager.Cache.Memory.State.{Entry, Segment, Segments, MemoryCache, expired}
use host_manager.Cache.Memory.Lookup.{not_found, visit, visit_others, lookup_locked, get_and_delete}
use host_manager.Cache.Memory.View.{
  entry_of, entry_elsewhere, present, seen, lookup_locked-seen, segment_of-none, segment_of-some,
  segment_of-insert, elsewhere-insert,
}

-- No generation but the current one holds the key. It is so for every key of a cache of the surviving
-- scope, which has one generation.
abbrev pub IsAlone : Bytes → MemoryCache → Type 0
IsAlone k c = entry_elsewhere k c.current c.segments ≡ none

visit_others-none :
    (now : ℕ) (evict : Bool) (k : Bytes) (g : Generation) (segs : Segments) (l : Lru)
    → entry_elsewhere k g segs ≡ none
    → visit_others now evict k g segs l ≡ (segs, l, not_found)
unfolding visit_others entry_elsewhere
visit_others-none now evict k g [] l h = refl
visit_others-none now evict k g ((j, seg) ∷ segs) l h =
    ground (arith, visit_others-none now evict k g segs l)

-- What a lookup leaves of the entry that it looked at.
abbrev left : ℕ → Bool → Option Entry → Option Entry
left now evict none = none
left now evict (some e) = if expired now e then some e else if evict then none else some e

visit-left :
    (now : ℕ) (evict is_current : Bool) (k : Bytes) (e : Entry) (seg : Segment) (l : Lru)
    → lookup k seg ≡ some e
    → lookup k (visit now evict is_current k e seg l).0 ≡ left now evict (some e)
unfolding visit
visit-left now evict is_current k e seg l h = ground (arith, lookup-delete k k seg, beq_self k)

pub lookup_locked-left :
    (now : ℕ) (evict : Bool) (k : Bytes) (c : MemoryCache)
    → IsAlone k c
    → (entry_of k (lookup_locked now k evict c).0 ≡ left now evict (entry_of k c))
      × IsAlone k (lookup_locked now k evict c).0
unfolding lookup_locked
lookup_locked-left now evict k c h =
    let others = visit_others-none now evict k c.current c.segments c.lru h in
    elim (Option-cases (lookup c.current c.segments)) [
      | inl m ↦
          rw (m, lookup_locked, others, segment_of-none c.current c.segments m)
            (unfold lookup in (refl, h))
      | inr (seg, m) ↦
          rw (segment_of-some c.current c.segments seg m) (elim (Option-cases (lookup k seg)) [
            | inl n ↦
                rw (m, n, lookup_locked, others, segment_of-some c.current c.segments seg m) (n, h)
            | inr (e, n) ↦
                let v = visit now evict true k e seg c.lru in
                rw (m, n, lookup_locked)
                  (
                    rw (segment_of-insert c.current c.current v.0 c.segments, beq_self c.current)
                        (visit-left now evict true k e seg c.lru n),
                    rw (elsewhere-insert k c.current v.0 c.segments) h,
                  )
          ])
    ]

-- The values that the callers receive, in the order in which they take the lock.
unfoldable pub race : List ℕ → Bytes → MemoryCache → List Bytes
race [] k c = []
race (now ∷ times) k c =
    let (c', r) = get_and_delete now k c in
    let rest = race times k c' in if r.exists then r.value ∷ rest else rest

abbrev pub any_live : List ℕ → Entry → Bool
any_live [] e = false
any_live (now ∷ times) e = not (expired now e) || any_live times e

-- One value, if any caller comes in time.
abbrev pub prize : List ℕ → Option Entry → List Bytes
prize times none = []
prize times (some e) = if any_live times e then e.value ∷ [] else []

prize-nil : (o : Option Entry) → prize [] o ≡ []
prize-nil none = refl
prize-nil (some e) = refl

prize-left :
    (now : ℕ) (times : List ℕ) (o : Option Entry)
    → (if (seen now o none).exists
        then (seen now o none).value ∷ prize times (left now true o)
        else prize times (left now true o))
      ≡ prize (now ∷ times) o
prize-left now times none = refl
prize-left now times (some e) = ground arith

-- Of any number of callers that consume a key which only the current generation holds, one receives the
-- entry's value if some caller comes before it expires, and nobody otherwise.
pub race-prize :
    (times : List ℕ) (k : Bytes) (c : MemoryCache)
    → IsAlone k c
    → race times k c ≡ prize times (entry_of k c)
unfolding race
race-prize [] k c h = sym (prize-nil (entry_of k c))
race-prize (now ∷ times) k c h =
    let (kept, alone) = lookup_locked-left now true k c h in
    let ih = race-prize times k (get_and_delete now k c).0 alone in
    rw (lookup_locked-seen now k true c, h, ih, kept) (prize-left now times (entry_of k c))

-- A lookup that meets a current entry leaves the other generations alone.
current-left :
    (now : ℕ) (evict : Bool) (k : Bytes) (c : MemoryCache) (e : Entry)
    → entry_of k c ≡ some e
    → (entry_of k (lookup_locked now k evict c).0 ≡ left now evict (some e))
      × (entry_elsewhere k
            (lookup_locked now k evict c).0.current
            (lookup_locked now k evict c).0.segments
          ≡ entry_elsewhere k c.current c.segments)
unfolding lookup_locked
current-left now evict k c e h =
    let (seg, m, n) = present k c e h in
    let v = visit now evict true k e seg c.lru in
    rw (m, n, lookup_locked)
      (
        rw (segment_of-insert c.current c.current v.0 c.segments, beq_self c.current)
            (visit-left now evict true k e seg c.lru n),
        elsewhere-insert k c.current v.0 c.segments,
      )

-- A key that the current generation and an older one both hold has two winners: the first caller gets
-- the current value and the second one the old value.
pub race-two :
    (now later : ℕ) (k : Bytes) (c : MemoryCache) (e d : Entry)
    → entry_of k c ≡ some e
    → entry_elsewhere k c.current c.segments ≡ some d
    → now ≤ e.expiry
    → later ≤ d.expiry
    → race (now ∷ later ∷ []) k c ≡ e.value ∷ d.value ∷ []
unfolding race
race-two now later k c e d here there live live' =
    let (gone, kept) = current-left now true k c e here in
    let c' = (get_and_delete now k c).0 in
    let taken : entry_of k c' ≡ none = gone ∙ ground arith in
    rw
      (
        lookup_locked-seen now k true c,
        here,
        lookup_locked-seen later k true c',
        taken,
        kept,
        there,
      )
      (ground arith)
