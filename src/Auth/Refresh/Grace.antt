-- ===== src/Auth/Refresh/Grace.antt =====
-- refreshgrace.go: the grace records, and the poll of a caller that lost the rotation.
use host_manager.Base.{
  ℕ, zero, suc, ◌+◌, ◌-◌, Bytes, beq, delete, Bool, true, false, Option, none, some, [], ◌==◌,
  if◌then◌else◌,
}
use host_manager.Auth.Refresh.{
  TokenSet, GraceRecord, Store, Exchanger, Outcome, granted, refused, rejected, server_error, keep,
}

abbrev pub no_tokens : TokenSet
no_tokens = record {
  access_token = [];
  id_token = [];
  refresh_token = [];
  granted_scope = [];
  token_subject = [];
}

-- graceCacheSet: the new store, and whether the write landed.
unfoldable pub grace_cache_set : Exchanger → Bool → ℕ → Bytes → GraceRecord → Store → Store × Bool
grace_cache_set e fails now token r s =
    if e.has_grace
    then (if fails
        then (s, false)
        else (record s { grace = keep token r (now + e.grace_window) s.grace }, true))
    else (s, true)

-- markGraceInFlight
abbrev pub mark_grace_in_flight : Exchanger → Bool → ℕ → Bytes → Bytes → Store → Store
mark_grace_in_flight e fails now token client s =
    (grace_cache_set e fails now token
      (record { owner = client; pending = true; token_set = no_tokens }) s).0

-- clearGraceInFlight
unfoldable pub clear_grace_in_flight : Exchanger → Bool → Bytes → Store → Store
clear_grace_in_flight e fails token s =
    if e.has_grace then (if fails then s else record s { grace = delete token s.grace }) else s

-- publishToGrace
abbrev pub publish_to_grace : Exchanger → Bool → ℕ → Bytes → Bytes → TokenSet → Store → Store × Bool
publish_to_grace e fails now token client ts s =
    grace_cache_set e fails now token (record { owner = client; pending = false; token_set = ts }) s

-- What one read of the grace cache gives: a failure, nothing, bytes that do not parse, or a record.
pub data Read : Type 0 where
  read_fails absent garbled : Read
  found : GraceRecord → Read

-- The answer of a poll: a decision, or nothing published.
abbrev pub Replayed : Type 0
Replayed = Option Outcome

abbrev pub attempts : ℕ
attempts = 10

abbrev pub fast_bailout : ℕ
fast_bailout = 3

-- What one attempt decides; none goes on to the next, and says whether the marker has been seen.
pub data Poll : Type 0 where
  stop : Replayed → Poll
  go_on : Bool → Poll

unfoldable pub attempt : Bytes → Bool → ℕ → Read → Poll
attempt client seen i read_fails = stop (some (refused (server_error [])))
attempt client seen i garbled = stop (some (refused (server_error [])))
attempt client seen i absent =
    if seen then stop none else if i == fast_bailout - 1 then stop none else go_on false
attempt client seen i (found r) =
    if r.pending
    then go_on true
    else if beq r.owner client
    then stop (some (granted r.token_set))
    else stop (some (refused (rejected r.token_set.token_subject)))

-- The loop from attempt `i` on, with the attempts left, what each read gives, and whether the caller's context ends in the
-- wait behind an attempt. It gives the answer with the numbers of reads and of waits.
unfoldable pub poll : (ℕ → Read) → (ℕ → Bool) → Bytes → ℕ → Bool → ℕ → Replayed × ℕ × ℕ
unfolding attempt
poll reads cancelled client zero seen i = (none, 0, 0)
poll reads cancelled client (suc left) seen i = elim (attempt client seen i (reads i)) [
  | stop r ↦ (r, 1, 0)
  | go_on seen' ↦
      if i == attempts - 1
      then (none, 1, 0)
      else if cancelled i
      then (some (refused (server_error [])), 1, 1)
      else (let (r, n, w) = poll reads cancelled client left seen' (i + 1) in (r, n + 1, w + 1))
]

-- replayFromGrace
unfoldable pub replay_from_grace : Exchanger → (ℕ → Read) → (ℕ → Bool) → Bytes → Replayed × ℕ × ℕ
unfolding poll
replay_from_grace e reads cancelled client =
    if e.has_grace then poll reads cancelled client attempts false 0 else (none, 0, 0)
