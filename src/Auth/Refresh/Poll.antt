-- ===== src/Auth/Refresh/Poll.antt =====
-- The poll of a caller that lost the rotation: what it reads, how often, and what it can answer.
use host_manager.Base.{
  ℕ, zero, suc, ◌+◌, ◌-◌, ◌≤◌, ◌<◌, Bytes, beq, beq_iff, ◌≡◌, refl, ap, ◌∙◌, [], ◌⊎◌, Bool, true,
  false, none, some, ◌==◌, if◌then◌else◌, arith, inl, inr, Bool-cases,
}
use host_manager.Auth.Refresh.{TokenSet, GraceRecord, Exchanger, granted, refused, server_error}
use host_manager.Auth.Refresh.Grace.{
  Read, read_fails, absent, garbled, found, Replayed, Poll, stop, go_on, attempt, poll,
  replay_from_grace,
}

-- How an attempt ended.
Poll-cases : (p : Poll) → ((r : Replayed) × (p ≡ stop r)) ⊎ ((b : Bool) × (p ≡ go_on b))
Poll-cases (stop r) = inl (r, refl)
Poll-cases (go_on b) = inr (b, refl)

poll-bound :
    (reads : ℕ → Read) (cancelled : ℕ → Bool) (client : Bytes) (left : ℕ) (seen : Bool) (i : ℕ)
    → left + i ≡ 10
    → ((poll reads cancelled client left seen i).1 ≤ left)
      × ((poll reads cancelled client left seen i).2 ≤ left - 1)
unfolding poll
poll-bound reads cancelled client zero seen i h = (ground arith, ground arith)
poll-bound reads cancelled client (suc left) seen i h =
    elim (Poll-cases (attempt client seen i (reads i))) [
      | inl (r, e) ↦ rw (poll, e) (ground arith)
      | inr (b, e) ↦ rw (poll, e) ground (arith, poll-bound reads cancelled client left b (i + 1))
    ]

-- A record that a caller may be given.
abbrev pub Published : Read → Bytes → TokenSet → Type 0
Published r client ts =
    (g : GraceRecord) × (r ≡ found g)
    × (g.pending ≡ false)
    × (g.owner ≡ client)
    × (g.token_set ≡ ts)

attempt-granted :
    (client : Bytes) (seen : Bool) (i : ℕ) (r : Read) (ts : TokenSet)
    → attempt client seen i r ≡ stop (some (granted ts))
    → Published r client ts
unfolding attempt
attempt-granted client seen i read_fails ts h = ground arith
attempt-granted client seen i garbled ts h = ground arith
attempt-granted client seen i absent ts h = ground arith
attempt-granted client seen i (found g) ts h = elim (Bool-cases g.pending) [
  | inl p ↦ ground (arith, p)
  | inr p ↦ elim (Bool-cases (beq g.owner client)) [
    | inl o ↦ (g, refl, p, (beq_iff g.owner client).0 o, ground (arith, p, o))
    | inr o ↦ ground (arith, p, o)
  ]
]

goes_on :
    (last cancel : Bool) (rest : Replayed × ℕ × ℕ) (ts : TokenSet)
    → (if◌then◌else◌ {A = Replayed × ℕ × ℕ} last
        (none, 1, 0)
        (if◌then◌else◌ {A = Replayed × ℕ × ℕ} cancel
          (some (refused (server_error [])), 1, 1)
          (rest.0, rest.1 + 1, rest.2 + 1))).0
      ≡ some (granted ts)
    → rest.0 ≡ some (granted ts)
goes_on last cancel rest ts h = ground arith

poll-granted :
    (reads : ℕ → Read) (cancelled : ℕ → Bool) (client : Bytes) (left : ℕ) (seen : Bool) (i : ℕ)
    (ts : TokenSet)
    → left + i ≡ 10
    → (poll reads cancelled client left seen i).0 ≡ some (granted ts)
    → (j : ℕ) × (j < 10) × Published (reads j) client ts
unfolding poll
poll-granted reads cancelled client zero seen i ts h g = ground arith
poll-granted reads cancelled client (suc left) seen i ts h g =
    elim (Poll-cases (attempt client seen i (reads i))) [
      | inl (r, e) ↦
          let last : r ≡ some (granted ts) = rw (poll, e) at g in
          (i, omega (arith, h), attempt-granted client seen i (reads i) ts (e ∙ ap stop last))
      | inr (b, e) ↦ poll-granted reads cancelled client left b (i + 1) ts (omega (arith, h)) (
          goes_on (i == 9) (cancelled i) (poll reads cancelled client left b (i + 1)) ts
            (rw (poll, e) at g))
    ]

-- Tokens that a poll answers with are those of a record that one of its first ten reads found, published and not pending,
-- of the client that asks.
pub replay_from_grace_sound :
    (e : Exchanger) (reads : ℕ → Read) (cancelled : ℕ → Bool) (client : Bytes) (ts : TokenSet)
    → (replay_from_grace e reads cancelled client).0 ≡ some (granted ts)
    → (e.has_grace ≡ true) × ((j : ℕ) × (j < 10) × Published (reads j) client ts)
unfolding replay_from_grace
replay_from_grace_sound e reads cancelled client ts h = elim (Bool-cases e.has_grace) [
  | inl g ↦ (g, poll-granted reads cancelled client 10 false 0 ts refl (rw (g) at h))
  | inr g ↦ ground (arith, g)
]

-- A poll reads the grace cache at most ten times and waits at most nine times, whatever it reads.
pub replay_from_grace-bound :
    (e : Exchanger) (reads : ℕ → Read) (cancelled : ℕ → Bool) (client : Bytes)
    → ((replay_from_grace e reads cancelled client).1 ≤ 10)
      × ((replay_from_grace e reads cancelled client).2 ≤ 9)
unfolding replay_from_grace
replay_from_grace-bound e reads cancelled client =
    ground (arith, poll-bound reads cancelled client 10 false 0)

-- A read that leaves a poll waiting: the marker of a redemption under way.
abbrev pub IsPending : Read → Type 0
IsPending r = (g : GraceRecord) × (r ≡ found g) × (g.pending ≡ true)

attempt-Published :
    (client : Bytes) (seen : Bool) (i : ℕ) (r : Read) (ts : TokenSet)
    → Published r client ts
    → attempt client seen i r ≡ stop (some (granted ts))
unfolding attempt
attempt-Published client seen i r ts (g, e, p, o, t) =
    rw (attempt, e) ground (arith, p, t, (beq_iff g.owner client).1 o)

attempt-IsPending :
    (client : Bytes) (seen : Bool) (i : ℕ) (r : Read)
    → IsPending r
    → attempt client seen i r ≡ go_on true
unfolding attempt
attempt-IsPending client seen i r (g, e, p) = rw (attempt, e) ground (arith, p)

poll-Published :
    (reads : ℕ → Read) (cancelled : ℕ → Bool) (client : Bytes) (ts : TokenSet) (m i left : ℕ)
    (seen : Bool)
    → left + i ≡ 10
    → m < 10
    → i ≤ m
    → ((j : ℕ) → j < m → IsPending (reads j) × (cancelled j ≡ false))
    → Published (reads m) client ts
    → (poll reads cancelled client left seen i).0 ≡ some (granted ts)
unfolding poll
poll-Published reads cancelled client ts m i zero seen h u l p d = ground (arith, h, u, l)
poll-Published reads cancelled client ts m i (suc left) seen h u l p d =
    elim (Bool-cases (i == m)) [
      | inl s ↦
          let here : i ≡ m = ground (arith, s) in
          let published : Published (reads i) client ts = rw (here) d in
          rw (poll, attempt-Published client seen i (reads i) ts published) refl
      | inr s ↦
          let before : i < m = ground (arith, s, l) in
          let (waiting, live) = p i before in
          let later : (i == 9) ≡ false = ground (arith, before, u) in
          rw (poll, attempt-IsPending client seen i (reads i) waiting, later, live)
            (poll-Published reads cancelled client ts m (i + 1) left true (omega (arith, h)) u
              (omega (arith, before)) p d)
    ]

-- A caller whose context lasts and that keeps seeing the marker of a redemption under way gets the tokens that are then
-- published for its client, if that is by the tenth read.
pub replay_from_grace-Published :
    (e : Exchanger) (reads : ℕ → Read) (cancelled : ℕ → Bool) (client : Bytes) (ts : TokenSet)
    (m : ℕ)
    → e.has_grace ≡ true
    → m < 10
    → ((j : ℕ) → j < m → IsPending (reads j) × (cancelled j ≡ false))
    → Published (reads m) client ts
    → (replay_from_grace e reads cancelled client).0 ≡ some (granted ts)
unfolding replay_from_grace
replay_from_grace-Published e reads cancelled client ts m g u p d =
    rw (g) (poll-Published reads cancelled client ts m 0 10 false refl u (omega arith) p d)
