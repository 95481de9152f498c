-- ===== src/Examples/Refresh.antt =====
-- A session through the redemption of its refresh token.
use host_manager.Base.{
  ℕ, ◌*◌, ◌<◌, Bytes, text, beq, lookup, insert, delete, ◌≡◌, ◌≢◌, refl, Bool, true, false, none,
  some, [], ltb, arith,
}
use host_manager.Auth.Refresh.{
  Answer, failed, answer, TokenSet, RefreshTokenClaims, claims, tombstone, GraceRecord, Store,
  Exchanger, granted, refused, rejected, server_error, second, read, keep, tombstone_key,
}
use host_manager.Auth.Refresh.Grace.{
  grace_cache_set, clear_grace_in_flight, Read, absent, found, attempt, poll, replay_from_grace,
}
use host_manager.Auth.Refresh.Redeem.{
  Services, Faults, unreachable, mints, check_consent, check_client, refuse_revoked_authentication,
  validate, upstream, create_refresh_token, restore_consumed, settle, rotate, redeem_claims,
  redeem_lost, redeem_refresh_token, revoke_refresh_token,
}
use host_manager.Auth.Refresh.Poll.{
  Published, IsPending, replay_from_grace_sound, replay_from_grace-Published,
}
use host_manager.Auth.Refresh.Revocation.{revoke_refresh_token-dead}
use host_manager.Auth.Refresh.Refusals.{
  redeem_refresh_token-restores, redeem_refresh_token-rejected,
}

program : Unit {0}
unfolding grace_cache_set clear_grace_in_flight attempt poll replay_from_grace check_consent
    check_client refuse_revoked_authentication validate upstream create_refresh_token
    restore_consumed settle rotate redeem_claims redeem_lost redeem_refresh_token read lookup insert
    delete beq
program = tt

abbrev exchanger : Exchanger
exchanger = record {
  enabled = true;
  has_grace = true;
  refresh_token_ttl = 100 * second;
  grace_window = 10 * second;
  max_session_age = 1000 * second;
}

abbrev app : Bytes
app = text "app"

abbrev first : Bytes
first = text "T1"

abbrev second_id : Bytes
second_id = text "T2"

abbrev session : RefreshTokenClaims
session = record {
  auth_method = text "oidc";
  client_id = app;
  expires_at = 90;
  issued_at = 5;
  original_issued_at = 5;
  predecessor_id = [];
  scope = text "openid";
  subject = text "ann";
  idp_claims = [];
  upstream_refresh_token = [];
}

abbrev minted : TokenSet
minted = record {
  access_token = text "A";
  id_token = text "I";
  refresh_token = [];
  granted_scope = text "openid";
  token_subject = text "ann";
}

-- The rest of the exchanger, with or without a readable revocation store.
abbrev services : Answer Bool → Services
services revoked = record {
  subject_revoked_since = λ sub at. revoked;
  lookup_client = λ id. answer (some (record { require_consent = false; redirect_uris = [] }));
  has_client = none;
  refresh_upstream_claims = λ token sub. unreachable;
  mint_tokens_from_subject = λ c idp. mints minted;
}

abbrev no_faults : Faults
no_faults = record {
  consume = false;
  mark = false;
  create = false;
  publish = false;
  clear = false;
  tombstone_read = false;
  restore = false;
  recheck = false;
}

abbrev signed_in : Store
signed_in = record { refresh = keep first (claims session) (105 * second) []; grace = [] }

abbrev no_reads : ℕ → Read
no_reads i = absent

abbrev stays : ℕ → Bool
stays i = false

abbrev handed : TokenSet
handed = record minted { refresh_token = second_id }

first_record : read (20 * second) first signed_in.refresh ≡ some (claims session)
unfolding program
first_record = refl

unreadable_store :
    (redeem_refresh_token exchanger
      (services failed)
      no_faults
      (20 * second)
      second_id
      no_reads
      stays
      first
      app
      signed_in).1
    ≡ refused (server_error (text "ann"))
unfolding program
unreadable_store = refl

not_marked : read (20 * second) (tombstone_key first) signed_in.refresh ≡ none
unfolding program
not_marked = refl

redeem_refresh_token-restores_example :
    lookup first
      (redeem_refresh_token exchanger
        (services failed)
        no_faults
        (20 * second)
        second_id
        no_reads
        stays
        first
        app
        signed_in).0.refresh
    ≡ some (record { value = claims session; until = session.expires_at * second })
redeem_refresh_token-restores_example =
    redeem_refresh_token-restores exchanger (services failed) no_faults (20 * second) second_id
      no_reads stays first app (text "ann") signed_in session refl refl refl first_record not_marked
      (ground arith) unreadable_store

wrong_client :
    (redeem_refresh_token exchanger
      (services (answer false))
      no_faults
      (20 * second)
      second_id
      no_reads
      stays
      first
      (text "other")
      signed_in).1
    ≡ refused (rejected (text "ann"))
unfolding program
wrong_client = refl

redeem_refresh_token-rejected_example :
    lookup first
      (redeem_refresh_token exchanger
        (services (answer false))
        no_faults
        (20 * second)
        second_id
        no_reads
        stays
        first
        (text "other")
        signed_in).0.refresh
    ≡ none
redeem_refresh_token-rejected_example =
    redeem_refresh_token-rejected exchanger (services (answer false)) no_faults (20 * second)
      second_id no_reads stays first (text "other") (text "ann") signed_in session refl refl
      first_record wrong_client

-- The winner's marker at the first two reads, then its result.
abbrev record_of : Bool → GraceRecord
record_of waiting = record { owner = app; pending = waiting; token_set = handed }

abbrev winner_reads : ℕ → Read
winner_reads i = found (record_of (ltb i 2))

replayed : (replay_from_grace exchanger winner_reads stays app).0 ≡ some (granted handed)
unfolding program
replayed = refl

replay_from_grace_sound_example :
    (exchanger.has_grace ≡ true) × ((j : ℕ) × (j < 10) × Published (winner_reads j) app handed)
replay_from_grace_sound_example =
    replay_from_grace_sound exchanger winner_reads stays app handed replayed

waits_for : (j : ℕ) → j < 2 → IsPending (winner_reads j) × (stays j ≡ false)
waits_for j l = ((record_of (ltb j 2), refl, ground (arith, l)), refl)

shows : Published (winner_reads 2) app handed
shows = (record_of false, refl, refl, refl, refl)

replay_from_grace-Published_example :
    (replay_from_grace exchanger winner_reads stays app).0 ≡ some (granted handed)
replay_from_grace-Published_example =
    replay_from_grace-Published exchanger winner_reads stays app handed 2 refl (ground arith)
      waits_for shows

-- A session that has been refreshed once, and a revocation of it.
abbrev refreshed_session : RefreshTokenClaims
refreshed_session = record session { predecessor_id = first }

abbrev refreshed : Store
refreshed = record {
  refresh = keep second_id (claims refreshed_session) (120 * second) [];
  grace = keep first (record_of false) (30 * second) [];
}

second_record : read (25 * second) second_id refreshed.refresh ≡ some (claims refreshed_session)
unfolding program
second_record = refl

first_linked : first ≢ []
first_linked h = ground (arith, h)

revoke_refresh_token-dead_example :
    (lookup second_id
        (revoke_refresh_token exchanger no_faults (25 * second) second_id refreshed).0.refresh
      ≡ none)
    × (read
          (200 * second)
          (tombstone_key second_id)
          (revoke_refresh_token exchanger no_faults (25 * second) second_id refreshed).0.refresh
        ≡ some tombstone)
    × (lookup second_id
          (revoke_refresh_token exchanger no_faults (25 * second) second_id refreshed).0.grace
        ≡ none)
    × (lookup first
          (revoke_refresh_token exchanger no_faults (25 * second) second_id refreshed).0.grace
        ≡ none)
revoke_refresh_token-dead_example =
    revoke_refresh_token-dead exchanger no_faults (25 * second) (200 * second) second_id refreshed
      refreshed_session refl refl refl refl refl second_record first_linked (ground arith)
