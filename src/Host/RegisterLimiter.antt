-- ===== src/Host/RegisterLimiter.antt =====
-- internal/host/register_limiter.go: the limits of anonymous client registration. Times are nanoseconds; a limit on clients
-- of 0 stands for one of zero or less, and rates are registrations in ten seconds.
pub mod Idle
use host_manager.Base.{
  ℕ, ◌-◌, ◌*◌, Bytes, beq, GoMap, lookup, insert, Bool, true, false, ◌&&◌, Option, none, some, List,
  [], ◌∷◌, ltb, if◌then◌else◌,
}

pub record PerIpEntry {ℓ} (L : Type ℓ) : Type ℓ where
  pub limiter : L
  pub last_seen : ℕ

-- No garbage collection has run where `last_gc` is none, the zero time.
pub record Limiter {ℓ} (L : Type ℓ) : Type ℓ where
  pub global : L
  pub per_ip : GoMap (PerIpEntry L)
  pub last_gc : Option ℕ

abbrev pub eviction_interval : ℕ
eviction_interval = 600_000_000_000

abbrev pub max_idle_time : ℕ
max_idle_time = 600_000_000_000

abbrev pub burst : ℕ → ℕ
burst max_clients =
    let asked : ℕ = if ltb 0 max_clients && ltb max_clients 10 then max_clients else 10 in
    if ltb asked 1 then 1 else asked

module _ {ℓ} {L : Type ℓ} where
  -- The loop over the addresses.
  unfoldable pub evict : ℕ → GoMap (PerIpEntry L) → GoMap (PerIpEntry L)
  evict now [] = []
  evict now ((ip, e) ∷ m) =
      let rest = evict now m in
      if ltb max_idle_time (now - e.last_seen) then rest else (ip, e) ∷ rest

  -- gcLocked
  unfoldable pub gc_locked : ℕ → Limiter L → Limiter L
  gc_locked now rl =
      let recent : Bool = elim rl.last_gc [
        | none ↦ false
        | some g ↦ ltb (now - g) eviction_interval
      ] in
      if recent then rl else record rl { last_gc = some now; per_ip = evict now rl.per_ip }

-- golang.org/x/time/rate is the parameter: a new bucket of a rate and a burst, and Allow.
module _ {ℓ} {L : Type ℓ} (new_limiter : ℕ → ℕ → L) (allow : ℕ → L → L × Bool) where
  -- newRegisterLimiter
  unfoldable pub new_register_limiter : ℕ → Limiter L
  new_register_limiter max_clients = record {
    global = new_limiter 10 (burst max_clients);
    per_ip = [];
    last_gc = none;
  }

  unfoldable pub allow_global : ℕ → Limiter L → Limiter L × Bool
  allow_global now rl = let (g, ok) = allow now rl.global in (record rl { global = g }, ok)

  -- allowIP
  unfoldable pub allow_ip : ℕ → Bytes → Limiter L → Limiter L × Bool
  allow_ip now ip rl =
      let kept : Limiter L = gc_locked now rl in
      let bucket : L = elim (lookup ip kept.per_ip) [
        | none ↦ new_limiter 2 5
        | some e ↦ e.limiter
      ] in
      let (taken, ok) = allow now bucket in
      if beq ip [] then (rl, true) else (
        record kept {
          per_ip = insert ip (record { limiter = taken; last_seen = now }) kept.per_ip;
        },
        ok,
      )

  -- A sequence of registrations, each with its time and address.
  unfoldable pub register_all : List (ℕ × Bytes) → Limiter L → Limiter L
  register_all [] rl = rl
  register_all ((now, ip) ∷ cs) rl = register_all cs (allow_ip now ip rl).0
