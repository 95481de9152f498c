-- ===== src/Auth/LookupClient.antt =====
-- internal/auth/exchange.go, LookupClient: an operator's client, or a dynamically registered one as the current policy
-- allows it. url.Parse and strings.Fields are parameters.
pub mod Policy
pub mod Stored
use host_manager.Base.{
  ℕ, Bytes, GoMap, lookup, Bool, true, false, not, Option, none, some, List, [], ◌∷◌, if◌then◌else◌,
  text,
}
use host_manager.Auth.Refresh.{Answer, failed, answer}
use host_manager.Auth.ClientRegistry.{beq_nil}
use host_manager.Dcr.{Url, filter_grant_types, filter_redirect_uris}
use host_manager.Dcr.Store.{Client, ClientStore, get, remove}

pub record AuthClient : Type 0 where
  pub client_id : Bytes
  pub public : Bool
  pub require_consent : Bool
  pub require_pkce : Bool
  pub redirect_uris : List Bytes
  pub allowed_grant_types : List Bytes
  pub allowed_scopes : List Bytes
  pub allowed_resources : List Bytes
  pub client_secret : Bytes
  pub description : Bytes
  pub name : Bytes

-- DefaultRedirectSchemes
abbrev pub default_redirect_schemes : List Bytes
default_redirect_schemes = text "https" ∷ text "http-loopback" ∷ []

-- The configuration of the clients: those of the operator, and whether and how clients may register.
pub record ClientConfig : Type 0 where
  pub clients : GoMap AuthClient
  pub has_store : Bool
  pub allowed_redirect_schemes : List Bytes
  pub ttl : ℕ

-- Which cache calls fail
pub record StoreFaults : Type 0 where
  pub unread : Bool
  pub unkept : Bool
  pub undeleted : Bool

abbrev pub schemes_of : ClientConfig → List Bytes
schemes_of g =
    if beq_nil g.allowed_redirect_schemes
    then default_redirect_schemes
    else g.allowed_redirect_schemes

module _ (parse : Bytes → Option Url) (fields : Bytes → List Bytes) where
  -- The client that a stored record is as the policy allows it.
  abbrev pub admitted : Client → List Bytes → List Bytes → AuthClient
  admitted dc redirects grants = record {
    client_id = dc.client_id;
    public = true;
    require_consent = true;
    require_pkce = true;
    redirect_uris = redirects;
    allowed_grant_types = grants;
    allowed_scopes = fields dc.scope;
    allowed_resources = [];
    client_secret = [];
    description = [];
    name = dc.client_name;
  }

  -- What becomes of a stored record
  unfoldable pub admit :
      ClientConfig
      → StoreFaults
      → Bytes
      → Client
      → ClientStore
      → ClientStore × Answer (Option AuthClient)
  unfolding filter_grant_types filter_redirect_uris remove
  admit g f id dc s =
      let grants = filter_grant_types dc.grant_types in
      let redirects = filter_redirect_uris parse dc.redirect_uris (schemes_of g) in
      if beq_nil redirects
      then ((remove f.undeleted id s).0, answer none)
      else if beq_nil grants
      then (s, answer none)
      else (s, answer (some (admitted dc redirects grants)))

  -- LookupClient
  unfoldable pub lookup_client :
      ClientConfig
      → StoreFaults
      → ℕ
      → Bytes
      → ClientStore
      → ClientStore × Answer (Option AuthClient)
  unfolding lookup get admit
  lookup_client g f now id s = elim (lookup id g.clients) [
    | some c ↦ (s, answer (some c))
    | none ↦
        if not g.has_store
        then (s, answer none)
        else let found = get now g.ttl f.unread f.unkept id s in
          elim found.1 [
            | failed ↦ (found.0, failed)
            | answer none ↦ (found.0, answer none)
            | answer (some dc) ↦ admit g f id dc found.0
          ]
  ]
