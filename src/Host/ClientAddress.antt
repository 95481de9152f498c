-- ===== src/Host/ClientAddress.antt =====
-- internal/host/register_limiter.go: the client address that the limiter keys on. net.SplitHostPort is a parameter.
pub mod Parts
use host_manager.Base.{
  ℕ, Bytes, beq, Bool, true, false, not, ◌&&◌, ◌||◌, Option, none, some, List, [], ◌∷◌, ◌++◌,
  if◌then◌else◌, ◌==◌,
}

-- A space or a tab
abbrev pub is_blank : ℕ → Bool
is_blank c = c == 32 || c == 9

unfoldable pub drop_blanks : Bytes → Bytes
drop_blanks [] = []
drop_blanks (c ∷ s) = let rest = drop_blanks s in if is_blank c then rest else c ∷ s

unfoldable pub drop_last_blanks : Bytes → Bytes
drop_last_blanks [] = []
drop_last_blanks (c ∷ s) =
    let rest = drop_last_blanks s in if is_blank c && beq rest [] then [] else c ∷ rest

-- The two inner loops of splitAndTrim
unfoldable pub trim_blanks : Bytes → Bytes
unfolding drop_blanks drop_last_blanks
trim_blanks seg = drop_last_blanks (drop_blanks seg)

unfoldable pub emit : Bytes → List Bytes → List Bytes
unfolding trim_blanks
emit seg out = if beq (trim_blanks seg) [] then out else trim_blanks seg ∷ out

-- The loop of splitAndTrim, with the segment s[start:i] that is being read.
unfoldable pub read_segments : Bytes → Bytes → List Bytes
unfolding emit
read_segments seg [] = emit seg []
read_segments seg (c ∷ s) =
    let next = read_segments [] s in
    let more = read_segments (seg ++ c ∷ []) s in if c == 44 then emit seg next else more

-- splitAndTrim
unfoldable pub split_and_trim : Bytes → List Bytes
unfolding read_segments
split_and_trim s = read_segments [] s

abbrev pub last : List Bytes → Option Bytes
last [] = none
last (p ∷ []) = some p
last (p ∷ q ∷ ps) = last (q ∷ ps)

module _ (split_host_port : Bytes → Option Bytes) where
  abbrev pub remote_host : Bytes → Bytes
  remote_host remote_addr = elim (split_host_port remote_addr) [
    | none ↦ remote_addr
    | some host ↦ host
  ]

  -- clientIP, of the header X-Forwarded-For and the peer's address
  unfoldable pub client_ip : Bytes → Bytes → Bytes
  unfolding split_and_trim
  client_ip forwarded remote_addr =
      if beq forwarded [] then remote_host remote_addr else elim (last (split_and_trim forwarded)) [
        | none ↦ remote_host remote_addr
        | some ip ↦ if beq ip [] then remote_host remote_addr else ip
      ]
