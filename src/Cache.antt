-- ===== src/Cache.antt =====
-- internal/cache/cache.go: the options and the generations of a cache. The in-memory backend is
-- below. Times and durations are numbers of nanoseconds; a duration is taken not to be negative.
pub mod Lru
pub mod Decimal
pub mod Memory
pub mod Manager
pub mod Trace
pub mod Capacity
pub mod Generations
use host_manager.Base.{
  ℕ, ◌*◌, ◌^◌, Bytes, text, Bool, true, false, Option, none, some, List, [], ◌∷◌,
}

abbrev pub Generation : Type 0
Generation = Bytes

abbrev pub initial_generation : Generation
initial_generation = text "0"

abbrev pub surviving_generation : Generation
surviving_generation = initial_generation

-- 1 ms
abbrev pub min_ttl : ℕ
min_ttl = 1_000_000

-- 9999-01-01 UTC
abbrev pub never_expires : ℕ
never_expires = 253_370_764_800 * 10 ^ 9

pub record CacheOptions : Type 0 where
  pub max_items : Option ℕ
  pub ttl : Option ℕ
  pub uncycled : Bool

pub record SetOptions : Type 0 where
  pub ttl : Option ℕ
  pub no_expiry : Bool

abbrev pub SetOption : Type 0
SetOption = SetOptions → SetOptions

unfoldable pub apply_from : SetOptions → List SetOption → SetOptions
apply_from options [] = options
apply_from options (opt ∷ opts) = apply_from (opt options) opts

unfoldable pub apply_set_options : List SetOption → SetOptions
unfolding apply_from
apply_set_options opts = apply_from (record { ttl = none; no_expiry = false }) opts

abbrev pub with_ttl : ℕ → SetOption
with_ttl ttl o = record o { ttl = some ttl }

abbrev pub without_expiry : SetOption
without_expiry o = record o { no_expiry = true }

unfoldable pub generation_for : Bool → Generation → Generation
generation_for true current = surviving_generation
generation_for false current = current

-- One entry as ScanGenerations reports it.
pub record Reported : Type 0 where
  pub generation : Generation
  pub key : Bytes
  pub ttl : ℕ
  pub value : Bytes
