-- ===== src/Examples/Host.antt =====
-- Runs of the registration limiter.
use host_manager.Base.{
  split, Option, none, ℕ, ◌-◌, ◌*◌, Bytes, text, beq, lookup, insert, ◌≡◌, refl, Bool, false, List,
  [], ◌∷◌, ltb, arith,
}
use host_manager.Host.RegisterLimiter.{
  evict, gc_locked, new_register_limiter, allow_ip, register_all,
}
use host_manager.Host.ClientAddress.{
  drop_blanks, drop_last_blanks, trim_blanks, emit, read_segments, split_and_trim, client_ip,
}
use host_manager.Host.ClientAddress.Parts.{client_ip-last}
use host_manager.Host.RegisterLimiter.Idle.{IsOrdered}

program : Unit {0}
unfolding evict gc_locked new_register_limiter allow_ip register_all lookup insert beq split
    drop_blanks drop_last_blanks trim_blanks emit read_segments split_and_trim client_ip
program = tt

-- A bucket that never refills.
abbrev new_bucket : ℕ → ℕ → ℕ
new_bucket rate burst = burst

abbrev take_one : ℕ → ℕ → ℕ × Bool
take_one now left = (left - 1, ltb 0 left)

abbrev minute : ℕ
minute = 60_000_000_000

abbrev two_calls : List (ℕ × Bytes)
two_calls = (minute, text "1.1.1.1") ∷ (11 * minute, text "2.2.2.2") ∷ []

-- At minute 22 both earlier addresses have been idle for more than ten minutes.
first_forgotten :
    (allow_ip new_bucket take_one (22 * minute) (text "3.3.3.3") (
      register_all new_bucket take_one two_calls
        (new_register_limiter new_bucket take_one 4))).0.per_ip
    ≡ (text "3.3.3.3", record { limiter = 4; last_seen = 22 * minute }) ∷ []
unfolding program
first_forgotten = refl

two_given : beq (text "3.3.3.3") [] ≡ false
unfolding program
two_given = refl

two_calls-IsOrdered : IsOrdered 0 two_calls (22 * minute)
two_calls-IsOrdered = ground arith

-- The peers of the run have no port.
abbrev no_port : Bytes → Option Bytes
no_port s = none

client_ip-last_example :
    client_ip no_port (text "10.0.0.1,\t 2.2.2.2 , ,") (text "10.0.0.9") ≡ text "2.2.2.2"
unfolding program
client_ip-last_example = client_ip-last no_port (text "10.0.0.1,\t 2.2.2.2 , ,") (text "10.0.0.9")

blank_header : client_ip no_port (text " , ") (text "10.0.0.9") ≡ text "10.0.0.9"
unfolding program
blank_header = refl
