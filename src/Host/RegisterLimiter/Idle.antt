-- ===== src/Host/RegisterLimiter/Idle.antt =====
-- No address is remembered for long.
use host_manager.Base.{
  ℕ, ◌+◌, ◌-◌, ◌≤◌, Bytes, beq, GoMap, insert, ◌≡◌, refl, Bool, true, false, Option, none, some,
  List, [], ◌∷◌, ltb, arith, inl, inr, Bool-cases,
}
use host_manager.Host.RegisterLimiter.{
  PerIpEntry, Limiter, eviction_interval, max_idle_time, evict, gc_locked, new_register_limiter,
  allow_ip, register_all,
}

module _ {ℓ} {L : Type ℓ} where
  -- Every address was seen at `t` or later.
  abbrev pub SeenSince : ℕ → GoMap (PerIpEntry L) → Type 0
  SeenSince t [] = true ≡ true
  SeenSince t ((ip, e) ∷ m) = (t ≤ e.last_seen) × SeenSince t m

  -- What the last collection left was seen at most the idle time before it, and it is not later than `now`.
  abbrev Tidy : ℕ → Option ℕ → GoMap (PerIpEntry L) → Type 0
  Tidy now none m = true ≡ true
  Tidy now (some g) m = (g ≤ now) × SeenSince (g - max_idle_time) m

  Tidy-later : (t u : ℕ) (o : Option ℕ) (m : GoMap (PerIpEntry L)) → t ≤ u → Tidy t o m → Tidy u o m
  Tidy-later t u none m l h = refl
  Tidy-later t u (some g) m l (a, h) = (omega (arith, a, l), h)

  evict-SeenSince :
      (now : ℕ) (m : GoMap (PerIpEntry L)) → SeenSince (now - max_idle_time) (evict now m)
  unfolding evict
  evict-SeenSince now [] = refl
  evict-SeenSince now ((ip, e) ∷ m) = elim (Bool-cases (ltb max_idle_time (now - e.last_seen))) [
    | inl old ↦ rw (evict, old) (evict-SeenSince now m)
    | inr young ↦ rw (evict, young) (ground (arith, young), evict-SeenSince now m)
  ]

  insert-SeenSince :
      (t : ℕ) (ip : Bytes) (e : PerIpEntry L) (m : GoMap (PerIpEntry L))
      → t ≤ e.last_seen
      → SeenSince t m
      → SeenSince t (insert ip e m)
  unfolding insert
  insert-SeenSince t ip e [] l h = (l, refl)
  insert-SeenSince t ip e ((j, x) ∷ m) l (a, h) = elim (Bool-cases (beq j ip)) [
    | inl s ↦ rw (insert, s) (l, h)
    | inr s ↦ rw (insert, s) (a, insert-SeenSince t ip e m l h)
  ]

  SeenSince-weaken : (t u : ℕ) (m : GoMap (PerIpEntry L)) → u ≤ t → SeenSince t m → SeenSince u m
  SeenSince-weaken t u [] l h = refl
  SeenSince-weaken t u ((ip, e) ∷ m) l (a, h) = (omega arith, SeenSince-weaken t u m l h)

  -- A collection was due less than an interval ago.
  abbrev IsRecent : ℕ → Limiter L → Type 0
  IsRecent now rl =
      (g : ℕ) × (rl.last_gc ≡ some g)
      × (g ≤ now)
      × (now - g ≤ eviction_interval)
      × SeenSince (g - max_idle_time) rl.per_ip

  gc_locked-IsRecent :
      (t now : ℕ) (o : Option ℕ) (rl : Limiter L)
      → rl.last_gc ≡ o
      → t ≤ now
      → Tidy t o rl.per_ip
      → IsRecent now (gc_locked now rl)
  unfolding gc_locked
  gc_locked-IsRecent t now none rl same l h =
      rw (gc_locked, same) (now, refl, omega arith, omega arith, evict-SeenSince now rl.per_ip)
  gc_locked-IsRecent t now (some g) rl same l (u, h) =
      elim (Bool-cases (ltb (now - g) eviction_interval)) [
        | inl r ↦ rw (gc_locked, same, r) (g, refl, omega (arith, u, l), ground (arith, r), h)
        | inr r ↦
            rw (gc_locked, same, r)
              (now, refl, omega arith, omega arith, evict-SeenSince now rl.per_ip)
      ]

-- Calls whose times do not decrease, from a time to another.
abbrev pub IsOrdered : ℕ → List (ℕ × Bytes) → ℕ → Type 0
IsOrdered t [] u = t ≤ u
IsOrdered t ((now, ip) ∷ cs) u = (t ≤ now) × IsOrdered now cs u

module _ {ℓ} {L : Type ℓ} (new_limiter : ℕ → ℕ → L) (allow : ℕ → L → L × Bool) where
  allow_ip-IsRecent :
      (t now : ℕ) (ip : Bytes) (rl : Limiter L)
      → beq ip [] ≡ false
      → t ≤ now
      → Tidy t rl.last_gc rl.per_ip
      → IsRecent now (allow_ip new_limiter allow now ip rl).0
  unfolding allow_ip
  allow_ip-IsRecent t now ip rl given l h =
      let (g, e, u, d, kept) = gc_locked-IsRecent t now rl.last_gc rl refl l h in
      rw (allow_ip, given)
        (
          g,
          e,
          u,
          d,
          insert-SeenSince (g - max_idle_time) ip _ (gc_locked now rl).per_ip (omega (arith, u))
              kept,
        )

  allow_ip-Tidy :
      (t now : ℕ) (ip : Bytes) (rl : Limiter L)
      → t ≤ now
      → Tidy t rl.last_gc rl.per_ip
      → Tidy now
          (allow_ip new_limiter allow now ip rl).0.last_gc
          (allow_ip new_limiter allow now ip rl).0.per_ip
  unfolding allow_ip
  allow_ip-Tidy t now ip rl l h = elim (Bool-cases (beq ip [])) [
    | inl empty ↦ rw (allow_ip, empty) (Tidy-later t now rl.last_gc rl.per_ip l h)
    | inr given ↦
        let (g, e, u, d, kept) = allow_ip-IsRecent t now ip rl given l h in rw (e) (u, kept)
  ]

  register_all-Tidy :
      (t u : ℕ) (cs : List (ℕ × Bytes)) (rl : Limiter L)
      → IsOrdered t cs u
      → Tidy t rl.last_gc rl.per_ip
      → Tidy u
          (register_all new_limiter allow cs rl).last_gc
          (register_all new_limiter allow cs rl).per_ip
  unfolding register_all
  register_all-Tidy t u [] rl l h = Tidy-later t u rl.last_gc rl.per_ip l h
  register_all-Tidy t u ((now, ip) ∷ cs) rl (l, rest) h =
      register_all-Tidy now u cs (allow_ip new_limiter allow now ip rl).0 rest
        (allow_ip-Tidy t now ip rl l h)

  -- Whatever addresses have registered, at times that do not decrease, when a call with an address has been admitted or
  -- refused, every address that is still remembered was seen in the twenty minutes before it.
  pub register_all-SeenSince :
      (max_clients : ℕ) (cs : List (ℕ × Bytes)) (now : ℕ) (ip : Bytes)
      → beq ip [] ≡ false
      → IsOrdered 0 cs now
      → SeenSince
          (now - (eviction_interval + max_idle_time))
          (allow_ip new_limiter allow now ip (
            register_all new_limiter allow cs
              (new_register_limiter new_limiter allow max_clients))).0.per_ip
  unfolding new_register_limiter
  register_all-SeenSince max_clients cs now ip given order =
      let rl : Limiter L =
        register_all new_limiter allow cs (new_register_limiter new_limiter allow max_clients) in
      let (g, e, u, d, kept) = allow_ip-IsRecent now now ip rl given (omega arith) (
        register_all-Tidy 0 now cs (new_register_limiter new_limiter allow max_clients) order
          refl) in
      SeenSince-weaken (g - max_idle_time) (now - (eviction_interval + max_idle_time))
        (allow_ip new_limiter allow now ip rl).0.per_ip (omega (arith, u, d)) kept
