-- ===== src/Examples/Tokens.antt =====
-- A host with two keys that mints, revokes and validates tokens. A time is written as one code, and the library of the run
-- signs one payload.
use host_manager.Base.{
  ℕ, ◌+◌, ◌*◌, ◌/◌, ◌≤◌, Bytes, text, has_prefix, beq, lookup, insert, Bool, true, false, Option,
  none, some, List, [], ◌∷◌, ◌++◌, leb, if◌then◌else◌, ◌≡◌, ◌≢◌, refl, arith, inl, inr, Bool-cases,
}
use host_manager.Auth.ApiToken.{
  KeyPair, Secret, get_key, active_key_of, add_pairs, choose_active, load_keys_from_secret,
  load_all, load_key_pairs,
}
use host_manager.Auth.ApiToken.Keys.{HasActive, load_key_pairs-HasActive}
use host_manager.Auth.ApiToken.Revocation.{
  Store, Stores, get, stamp, record_revocation, revoked_no_earlier_than, issued_no_later_than,
  subject_revocation_key, revoked, revoke, revoke_subject,
}
use host_manager.Auth.ApiToken.Cutoff.{here, later, revoked-After}
use host_manager.Auth.ApiToken.Mint.{
  second, TokenData, Claims, TokenManager, header, wrap_with, wrap, unwrap_with, unwrap, minted,
  accepted, rejected, token_revoked, footer_of, generate_jti, claims_of, token_data, read_claims,
  mint_stateless_key, check_revoked, accept, verify, validate_token,
}
use host_manager.Auth.ApiToken.Adoption.{
  Stranded, strand, strand_all, is_current, merge, adopt, adopt_all, adopt_stranded_revocations,
}
use host_manager.Auth.ApiToken.Adoption.Stranding.{Reads}
use host_manager.Auth.ApiToken.Adoption.Update.{From, earlier-From}
use host_manager.Auth.ApiToken.Adoption.Covered.{adopt_stranded_revocations-From}
use host_manager.Auth.ApiToken.Revocation.{latest_revocation}
use host_manager.Auth.ApiToken.RoundTrip.{data_of, validate_token-mint_stateless_key}
use host_manager.Auth.ApiToken.Refused.{revoked-rejected}

program : Unit {0}
unfolding generate_jti latest_revocation strand strand_all is_current merge adopt adopt_all
    adopt_stranded_revocations has_prefix beq lookup insert get_key active_key_of add_pairs
    choose_active load_keys_from_secret load_all load_key_pairs get stamp record_revocation
    revoked_no_earlier_than issued_no_later_than subject_revocation_key revoked revoke
    revoke_subject wrap_with wrap unwrap_with unwrap token_data read_claims mint_stateless_key
    check_revoked accept verify validate_token
program = tt

abbrev secret_of : Bool → Bytes → Secret
secret_of active key = record {
  is_active = active;
  private_key_data = some key;
  public_key_data = none;
}

abbrev pair_of : Bool → Bytes → KeyPair
pair_of active key = record {
  active_key = active;
  key_id = key;
  public_key = key;
  secret_key = key;
}

abbrev import_any : Bytes → Option Bytes
import_any key = some key

abbrev same : Bytes → Bytes
same key = key

abbrev three_secrets : List Secret
three_secrets =
    secret_of true (text "a") ∷ secret_of false (text "b") ∷ secret_of true (text "c") ∷ []

abbrev three_pairs : List KeyPair
three_pairs = pair_of true (text "a") ∷ pair_of false (text "b") ∷ pair_of true (text "c") ∷ []

three_loaded : load_all import_any same same three_secrets ≡ some three_pairs
unfolding program
three_loaded = refl

three_chosen : load_key_pairs import_any same same false [] three_secrets ≡ some three_pairs
unfolding program
three_chosen = refl

-- Two keys stay active here, and the oldest signs.
load_key_pairs-HasActive_example : HasActive three_pairs (text "a")
load_key_pairs-HasActive_example =
    load_key_pairs-HasActive import_any same same false [] three_pairs three_pairs
      (secret_of true (text "a")) (secret_of false (text "b") ∷ secret_of true (text "c") ∷ [])
      three_loaded three_chosen

abbrev jti : Bytes
jti = text "web:ann:login"

abbrev format : ℕ → Bytes
format t = t ∷ []

abbrev parse : Bytes → Option ℕ
parse [] = none
parse (t ∷ []) = some t
parse (t ∷ c ∷ s) = none

abbrev none_stored : Stores
none_stored = record { revocations = []; legacy = some [] }

abbrev cut : Stores
cut =
    (revoke parse format same (1000 * second) (20 * second) (20 * second) false false jti 0
      none_stored).0

revoked-After_example :
    revoked parse format same
      (30 * second)
      false
      false
      false
      (some (15 * second))
      jti
      (text "ann")
      cut
    ≢ some false
revoked-After_example =
    revoked-After parse format same (1000 * second) (λ t. refl) (20 * second) (20 * second)
      (15 * second) 0 (30 * second) false false false false true jti (text "ann") none_stored cut
      (omega arith) (later here (30 * second) (omega arith)) (omega arith)

abbrev blue : TokenManager
blue = record {
  active = pair_of true (text "k");
  token_issuer = text "blue";
  key_pairs = pair_of true (text "k") ∷ [];
  max_ttl = 1000 * second;
  has_revocation_cache = true;
  token_prefix = text "kp_";
}

abbrev any_kind : Bytes → Bool
any_kind k = true

abbrev sign : Bytes → Claims → Bytes → Bytes
sign secret c footer = header ++ text "x"

abbrev claims : Claims
claims =
    claims_of blue same (10 * second) (text "web") (text "ann") (text "User") (text "login") []
      (100 * second)

abbrev parse_footer : Bytes → Option Bytes
parse_footer signed = some (footer_of (text "k"))

abbrev json_kid : Bytes → Option Bytes
json_kid footer = some (text "k")

abbrev parse_v4_public : Bytes → Bytes → ℕ → Bytes → Bytes → Option Claims
parse_v4_public key issuer at audience signed = if leb at (110 * second) then some claims else none

kp_x :
    mint_stateless_key any_kind same sign blue
      (10 * second)
      (text "web")
      (text "ann")
      (text "User")
      (text "login")
      []
      (100 * second)
    ≡ minted (text "kp_x")
unfolding program
kp_x = refl

abbrev told : TokenData
told =
    data_of any_kind sign parse format same parse_footer json_kid parse_v4_public blue (10 * second)
      (text "web") (text "ann") (text "User") (text "login") [] (100 * second)

unbranded : has_prefix (text "kp_x") header ≡ false
unfolding program
unbranded = refl

key_held : get_key (text "k") blue.key_pairs ≡ some blue.active
unfolding program
key_held = refl

unrevoked :
    revoked parse format same
      (20 * second)
      false
      false
      false
      (some (10 * second))
      jti
      (text "ann")
      none_stored
    ≡ some false
unfolding program
unrevoked = refl

validate_token-mint_stateless_key_example :
    validate_token parse format same parse_footer json_kid parse_v4_public blue
      (20 * second)
      (20 * second)
      false
      false
      false
      (text "web")
      (text "kp_x")
      none_stored
    ≡ accepted told
unfolding program
validate_token-mint_stateless_key_example =
    validate_token-mint_stateless_key any_kind sign parse format same parse_footer json_kid
      parse_v4_public blue (10 * second) (20 * second) (20 * second) (text "web") (text "ann")
      (text "User") (text "login") [] (text "web") (100 * second) (text "x") (text "kp_x")
      none_stored refl unbranded refl refl key_held refl unrevoked kp_x

some_inj : {a b : Claims} → some a ≡ some b → a ≡ b
some_inj h = cc

none_given : (c : Claims) → none ≡ some c → ⊥
none_given c h = cc

honest :
    (public issuer wanted : Bytes) (x : ℕ) (c : Claims)
    → parse_v4_public public issuer x wanted (header ++ text "x") ≡ some c
    → (claims ≡ c) × (x ≤ (10 * second + 100 * second) / second * second)
honest public issuer wanted x c h = elim (Bool-cases (leb x (110 * second))) [
  | inl e ↦ (some_inj (rw (e) at h), ground (arith, e))
  | inr e ↦ absurd (none_given c (rw (e) at h))
]

revoked-rejected_example :
    validate_token parse format same parse_footer json_kid parse_v4_public blue
      (30 * second)
      (30 * second)
      false
      false
      false
      (text "web")
      (text "kp_x")
      cut
    ≢ accepted told
unfolding program
revoked-rejected_example =
    revoked-rejected any_kind sign parse format same parse_footer json_kid parse_v4_public blue
      (10 * second) (20 * second) (20 * second) (30 * second) (30 * second) false false false false
      true (text "web") (text "ann") (text "User") (text "login") [] (text "web") (100 * second) 0
      (text "x") (text "kp_x") none_stored cut told (λ t. refl) refl (omega arith) unbranded refl
      honest kp_x (omega arith) (omega arith) (omega arith) (later here (30 * second) (omega arith))

-- The token is refused as revoked, and before the revocation it is not.
kp_x_refused :
    validate_token parse format same parse_footer json_kid parse_v4_public blue
      (30 * second)
      (30 * second)
      false
      false
      false
      (text "web")
      (text "kp_x")
      cut
    ≡ rejected token_revoked
unfolding program
kp_x_refused = refl

abbrev always : Bytes → Bool
always key = true

abbrev scanned : List (Bytes × Stranded)
scanned =
    (jti, record { text_of = format 3; ttl = 50 })
    ∷ (jti, record { text_of = format 8; ttl = 20 })
    ∷ []

-- The later of two generations' revocations is written, with the longer lifetime.
one_adopted : adopt_stranded_revocations parse format same 0 100 always always scanned [] ≡ record {
  store = (jti, record { value = format 8; expires_at = 150 }) ∷ [];
  count = 1;
  failed = false;
}
unfolding program
one_adopted = refl

-- A store that holds an earlier revocation for longer.
abbrev holding : Store
holding = (jti, record { value = format 5; expires_at = 1000 }) ∷ []

none_failed :
    (adopt_stranded_revocations parse format same 0 100 always always scanned holding).failed
    ≡ false
unfolding program
none_failed = refl

eight : Reads parse format same 8 (format 8)
eight = (8, refl, omega arith)

held_is_earlier : From parse format same 0 100 8 (get 100 jti holding) → ⊥
unfolding program
held_is_earlier = earlier-From parse format same 0 100 8 5 (format 5) refl refl

adopt_stranded_revocations-From_example : From parse format same 0 100 8 (
    get
      (100 + 20)
      jti
      (adopt_stranded_revocations parse format same 0 100 always always scanned holding).store)
adopt_stranded_revocations-From_example =
    adopt_stranded_revocations-From parse format same 0 100 always always 8 20 jti
      (record { text_of = format 8; ttl = 20 })
      ((jti, record { text_of = format 3; ttl = 50 }) ∷ []) [] holding (omega arith)
      (inr (eight, held_is_earlier, none_failed))

-- The adoption's entry replaces the held one and its expiry.
shorter_than_held :
    (adopt_stranded_revocations parse format same 0 100 always always scanned holding).store
    ≡ (jti, record { value = format 8; expires_at = 150 }) ∷ []
unfolding program
shorter_than_held = refl
