-- ===== src/Host/ClientAddress/Parts.antt =====
-- The address is the last part of the header that is not blank.
use host_manager.Base.{
  Bytes, beq, split, split_cons, true, false, Option, none, some, List, [], ◌∷◌, ◌++◌,
  if◌then◌else◌, ◌==◌, ◌≡◌, refl, ◌∙◌, inl, inr, Bool-cases,
}
use mathlib.Core.List.{append-nil, append_assoc}
use host_manager.Host.ClientAddress.{
  trim_blanks, emit, read_segments, split_and_trim, last, remote_host, client_ip,
}

-- The parts that are not blank, trimmed.
abbrev pub kept : List Bytes → List Bytes
kept [] = []
kept (p ∷ ps) = if beq (trim_blanks p) [] then kept ps else trim_blanks p ∷ kept ps

-- A segment put in front of the first part.
abbrev onto_first : Bytes → List Bytes → List Bytes
onto_first seg [] = seg ∷ []
onto_first seg (p ∷ ps) = (seg ++ p) ∷ ps

read_segments-split : (seg s : Bytes) → read_segments seg s ≡ kept (onto_first seg (split 44 s))
unfolding read_segments split emit
read_segments-split seg [] = rw (append-nil seg) refl
read_segments-split seg (c ∷ s) =
    let (p, ps, e) = split_cons 44 s in
    elim (Bool-cases (c == 44)) [
      | inl y ↦ rw (y, append-nil seg, read_segments-split [] s, e) refl
      | inr n ↦ rw (n, read_segments-split (seg ++ c ∷ []) s, e, append_assoc seg (c ∷ []) p) refl
    ]

abbrev AllGiven : List Bytes → Type 0
AllGiven [] = true ≡ true
AllGiven (p ∷ ps) = (beq p [] ≡ false) × AllGiven ps

kept-AllGiven : (parts : List Bytes) → AllGiven (kept parts)
kept-AllGiven [] = refl
kept-AllGiven (p ∷ ps) = elim (Bool-cases (beq (trim_blanks p) [])) [
  | inl y ↦ rw (y) (kept-AllGiven ps)
  | inr n ↦ rw (n) (n, kept-AllGiven ps)
]

none_last : (ip : Bytes) → none ≡ some ip → ⊥
none_last ip h = cc

same_part : (p ip : Bytes) → some p ≡ some ip → p ≡ ip
same_part p ip h = cc

last_given :
    (parts : List Bytes) (ip : Bytes) → AllGiven parts → last parts ≡ some ip → beq ip [] ≡ false
last_given [] ip g h = absurd (none_last ip h)
last_given (p ∷ []) ip (g, _) h = rw (same_part p ip h) at g
last_given (p ∷ q ∷ ps) ip (_, g) h = last_given (q ∷ ps) ip g h

split_and_trim_lem : (s : Bytes) → split_and_trim s ≡ kept (split 44 s)
unfolding split_and_trim
split_and_trim_lem s = let (p, ps, e) = split_cons 44 s in read_segments-split [] s ∙ rw (e) refl

module _ (split_host_port : Bytes → Option Bytes) where
  -- The last part, where there is one, or else the peer's host.
  abbrev pub last_or_host : Option Bytes → Bytes → Bytes
  last_or_host none remote_addr = remote_host split_host_port remote_addr
  last_or_host (some ip) remote_addr = ip

  by_last :
      (o : Option Bytes) (forwarded remote_addr : Bytes)
      → last (split_and_trim forwarded) ≡ o
      → beq forwarded [] ≡ false
      → client_ip split_host_port forwarded remote_addr ≡ last_or_host o remote_addr
  unfolding client_ip
  by_last none forwarded remote_addr h n = rw (client_ip, n, h) refl
  by_last (some ip) forwarded remote_addr h n =
      let given =
        last_given (kept (split 44 forwarded)) ip (kept-AllGiven (split 44 forwarded))
          (rw (split_and_trim_lem forwarded) at h) in
      rw (client_ip, n, h, given) refl

  -- The address that a registration is limited by is the last of the header's comma-separated parts that is not blank,
  -- without the blanks around it; where all are blank, or the header is absent, it is the host of the peer's address, or
  -- that address itself where it has no port.
  pub client_ip-last :
      (forwarded remote_addr : Bytes)
      → client_ip split_host_port forwarded remote_addr
        ≡ last_or_host (last (kept (split 44 forwarded))) remote_addr
  unfolding client_ip split trim_blanks beq
  client_ip-last [] remote_addr = refl
  client_ip-last (c ∷ s) remote_addr =
      by_last (last (split_and_trim (c ∷ s))) (c ∷ s) remote_addr refl refl
      ∙ rw (split_and_trim_lem (c ∷ s)) refl
