-- ===== src/Examples/Codes.antt =====
-- Concrete runs of the authorization codes and of the lookup of registered clients.
use host_manager.Base.{
  ◌*◌, ◌≤◌, Bytes, text, beq, GoMap, lookup, insert, delete, ◌≡◌, ◌≢◌, refl, true, false, Option,
  none, some, List, [], ◌∷◌, if◌then◌else◌, has_byte, arith,
}
use host_manager.Auth.Refresh.{answer, TokenSet, Kept, Exchanger, granted, second, read}
use host_manager.Auth.Refresh.Redeem.{mints, refuse_revoked_authentication, create_refresh_token}
use host_manager.Auth.CodeGrant.{
  AuthorizationCodeClaims, Opened, malformed, opened, CodeStore, CodeServices, Conditions,
  CodeRequest, redeem_authorization_code, create_authorization_code,
}
use host_manager.Auth.CodeGrant.Bound.{IsBound, redeem_authorization_code-granted}
use host_manager.Auth.CodeGrant.Once.{redeem, grants, grants-le}
use host_manager.Auth.CodeGrant.Cycle.{issued, create-redeem}
use host_manager.Dcr.{
  Url, filter_grant_types, filter_redirect_uris, redirect_allowed, is_ascii, entry_admits,
  any_entry, url_admits,
}
use host_manager.Dcr.Store.{Client, ClientStore, registered, register}
use host_manager.Auth.LookupClient.{ClientConfig, StoreFaults, admitted, lookup_client}
use host_manager.Auth.LookupClient.Policy.{IsRestricted, lookup_client-IsRestricted}
use host_manager.Auth.LookupClient.Stored.{lookup_client-purged, register-lookup_client}

program : Unit {0}
unfolding redeem_authorization_code create_authorization_code refuse_revoked_authentication
    create_refresh_token lookup_client register lookup insert delete beq read has_byte url_admits
    is_ascii any_entry entry_admits filter_grant_types filter_redirect_uris redirect_allowed
program = tt

abbrev code_claims : AuthorizationCodeClaims
code_claims = record {
  auth_method = text "oauth2";
  client_id = text "app";
  code_challenge = text "abc";
  code_challenge_method = text "S256";
  exp = 700;
  idp_claims = [];
  jti = text "id1";
  redirect_uri = text "https://app/cb";
  resource = [];
  scope = text "openid";
  subject = text "ann";
  authenticated_at = 90;
}

-- A code is its subject, and only this one opens.
abbrev seal : AuthorizationCodeClaims → Bytes
seal c = c.subject

abbrev unseal : Bytes → Opened
unseal code = if beq code (text "ann") then opened code_claims else malformed

abbrev s256 : Bytes → Bytes
s256 v = v

abbrev tokens : TokenSet
tokens = record {
  access_token = text "at";
  id_token = [];
  refresh_token = [];
  granted_scope = text "openid";
  token_subject = text "ann";
}

abbrev services : CodeServices
services = record {
  subject_revoked_since = λ sub at. answer false;
  lookup_client = λ id. answer (some (record { require_pkce = true }));
  mint_tokens_from_code = λ c. mints tokens;
}

abbrev exchanger : Exchanger
exchanger = record {
  enabled = true;
  has_grace = false;
  refresh_token_ttl = 3600 * second;
  grace_window = 0;
  max_session_age = 0;
}

abbrev conditions : Conditions
conditions = record {
  consume_fails = false;
  create_fails = false;
  now = 120 * second;
  refresh_id = text "r1";
}

abbrev request : CodeRequest
request = record {
  code = text "ann";
  client_id = text "app";
  redirect_uri = text "https://app/cb";
  code_verifier = text "abc";
}

abbrev no_codes : CodeStore
no_codes = record { codes = some []; sessions = record { refresh = []; grace = [] } }

abbrev held_codes : GoMap (Kept Bytes)
held_codes = (text "id1", record { value = text "1"; until = 1000 * second }) ∷ []

abbrev one_code : CodeStore
one_code = record { codes = some held_codes; sessions = record { refresh = []; grace = [] } }

redeem_authorization_code-granted_example :
    (c : AuthorizationCodeClaims) × (unseal request.code ≡ opened c)
    × IsBound s256 services conditions.now c request
    × (c.jti ≢ [])
    × ((held : Bytes) × (read conditions.now c.jti held_codes ≡ some held))
    × ((redeem_authorization_code unseal s256 exchanger services conditions request
          one_code).0.codes
        ≡ some (delete c.jti held_codes))
unfolding program
redeem_authorization_code-granted_example =
    redeem_authorization_code-granted unseal s256 exchanger services conditions request one_code
      held_codes (record tokens { refresh_token = text "r1" }) refl refl

grants-le_example :
    grants unseal s256 seal exchanger
      (text "ann")
      (redeem services conditions request ∷ redeem services conditions request ∷ [])
      one_code
    ≤ 1
unfolding program
grants-le_example =
    grants-le unseal s256 seal exchanger (text "ann") code_claims
      (redeem services conditions request ∷ redeem services conditions request ∷ []) one_code
      held_codes refl (tt, (tt, tt)) refl

create-redeem_example :
    (t : CodeStore) × (create_authorization_code seal
        (100 * second)
        (text "x")
        false
        code_claims
        no_codes
      ≡ some (t, request.code))
    × ((redeem_authorization_code unseal s256 exchanger services conditions request t).1
        ≡ granted (issued exchanger conditions tokens))
unfolding program
create-redeem_example =
    create-redeem seal unseal s256 exchanger services conditions request (100 * second) (text "x")
      code_claims no_codes [] tokens refl (λ e. ground (arith, e)) refl refl
      (
        omega arith,
        refl,
        refl,
        refl,
        (
          record { require_pkce = true },
          refl,
          (λ on e. ground (arith, e), λ some. (λ e. ground (arith, e), refl, refl)),
        ),
      )
      (omega arith) refl refl refl

-- A parser that reads no user information and takes every URL for https.
abbrev parse : Bytes → Option Url
parse raw = some (record { scheme = text "https"; has_user = false; hostname = text "app" })

abbrev fields : Bytes → List Bytes
fields scope = scope ∷ []

abbrev policy : ClientConfig
policy = record { clients = []; has_store = true; allowed_redirect_schemes = []; ttl = 1000 }

abbrev strict : ClientConfig
strict = record {
  clients = [];
  has_store = true;
  allowed_redirect_schemes = text "private-use" ∷ [];
  ttl = 1000;
}

abbrev no_faults : StoreFaults
no_faults = record { unread = false; unkept = false; undeleted = false }

abbrev asking : Client
asking = record {
  client_id = [];
  redirect_uris = text "https://app/cb" ∷ [];
  grant_types = text "authorization_code" ∷ [];
  response_types = [];
  scope = text "openid";
  client_name = text "App";
  token_endpoint_auth_method = [];
  created_at = 0;
}

abbrev stored : ClientStore
stored = (text "dcr_1", record { value = some (registered 0 (text "1") asking); until = 50 }) ∷ []

lookup_client-IsRestricted_example :
    IsRestricted parse fields policy (
      admitted parse fields
        (registered 0 (text "1") asking)
        asking.redirect_uris
        asking.grant_types)
unfolding program
lookup_client-IsRestricted_example =
    lookup_client-IsRestricted parse fields policy no_faults 10 (text "dcr_1") stored
      (admitted parse fields (registered 0 (text "1") asking) asking.redirect_uris
        asking.grant_types)
      refl refl

lookup_client-purged_example :
    ((lookup_client parse fields strict no_faults 10 (text "dcr_1") stored).1 ≡ answer none)
    × ((lookup_client parse fields policy no_faults 20
          (text "dcr_1")
          (lookup_client parse fields strict no_faults 10 (text "dcr_1") stored).0).1
        ≡ answer none)
unfolding program
lookup_client-purged_example =
    lookup_client-purged parse fields strict no_faults 10 (text "dcr_1") stored
      (registered 0 (text "1") asking) policy no_faults 20 refl refl refl refl refl refl refl refl

register-lookup_client_example :
    (t : ClientStore) × (register 0 50 (text "1") false asking []
      ≡ some (t, registered 0 (text "1") asking))
    × ((lookup_client parse fields policy no_faults 10 (text "dcr_1") t).1
        ≡ answer (
            some (
              admitted parse fields
                (registered 0 (text "1") asking)
                asking.redirect_uris
                asking.grant_types)))
unfolding program
register-lookup_client_example =
    register-lookup_client parse fields policy no_faults 0 10 50 (text "1") asking []
      asking.redirect_uris asking.grant_types refl refl refl refl (λ e. ground (arith, e)) refl
      (λ e. ground (arith, e)) (omega arith)
