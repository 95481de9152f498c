-- ===== src/Dcr.antt =====
-- internal/auth/dcr/grants.go and redirects.go: what a dynamically registered client may hold.
pub mod Filter
pub mod Redirects
pub mod Store
use host_manager.Base.{
  ℕ, Bytes, text, beq, has_byte, Bool, true, false, not, ◌&&◌, ◌||◌, Option, none, some, List, [],
  ◌∷◌, ◌++◌, map, length, ltb, leb, ◌+◌, if◌then◌else◌, contains,
}

-- The loop of both filters: what passes the test and is not kept yet is appended.
unfoldable pub keep : (Bytes → Bool) → List Bytes → List Bytes → List Bytes
keep test kept [] = kept
keep test kept (x ∷ xs) =
    keep test (if test x && not (contains kept x) then kept ++ x ∷ [] else kept) xs

-- SupportedGrantTypes
abbrev pub supported_grant_types : List Bytes
supported_grant_types = text "authorization_code" ∷ text "refresh_token" ∷ []

-- FilterGrantTypes
unfoldable pub filter_grant_types : List Bytes → List Bytes
unfolding keep
filter_grant_types [] = supported_grant_types
filter_grant_types (g ∷ gs) = keep (contains supported_grant_types) [] (g ∷ gs)

-- What the policy reads of a parsed URL.
pub record Url : Type 0 where
  pub scheme : Bytes
  pub has_user : Bool
  pub hostname : Bytes

abbrev pub http : Bytes
http = text "http"

abbrev pub https : Bytes
https = text "https"

abbrev pub dangerous_schemes : List Bytes
dangerous_schemes =
    text "javascript" ∷ text "data" ∷ text "file" ∷ text "vbscript" ∷ text "blob" ∷ []

-- isASCII
unfoldable pub is_ascii : Bytes → Bool
is_ascii [] = true
is_ascii (c ∷ s) = if leb 128 c then false else is_ascii s

-- strings.EqualFold, on ASCII hosts, the only ones that get to it.
abbrev pub lower : ℕ → ℕ
lower c = if leb 65 c && leb c 90 then c + 32 else c

abbrev pub is_loopback : Bytes → Bool
is_loopback host =
    beq host (text "127.0.0.1") || beq host (text "::1") || beq (map lower host) (text "localhost")

-- What one entry of allowedRedirectSchemes admits.
unfoldable pub entry_admits : Url → Bytes → Bool
entry_admits u s =
    if beq s (text "http-loopback")
    then beq u.scheme http && is_loopback u.hostname
    else if beq s (text "private-use")
    then not (beq u.scheme [])
      && not (beq u.scheme http)
      && not (beq u.scheme https)
      && has_byte 46 u.scheme
    else if beq s [] || beq s http || contains dangerous_schemes s
    then false
    else beq u.scheme s

unfoldable pub any_entry : Url → List Bytes → Bool
any_entry u [] = false
any_entry u (s ∷ ss) = entry_admits u s || any_entry u ss

-- What the policy says of a parsed URL, none for one that does not parse.
unfoldable pub url_admits : Option Url → List Bytes → Bool
url_admits none schemes = false
url_admits (some u) schemes =
    if u.has_user
    then false
    else if not (beq u.hostname []) && not (is_ascii u.hostname)
    then false
    else if (beq u.scheme http || beq u.scheme https) && beq u.hostname []
    then false
    else any_entry u schemes

-- url.Parse is the parameter.
module _ (parse : Bytes → Option Url) where
  unfoldable pub redirect_allowed : Bytes → List Bytes → Bool
  redirect_allowed raw schemes =
      if beq raw [] || ltb 2048 (length raw) || has_byte 35 raw
      then false
      else url_admits (parse raw) schemes

  -- FilterRedirectURIs
  unfoldable pub filter_redirect_uris : List Bytes → List Bytes → List Bytes
  filter_redirect_uris uris schemes = keep (λ u. redirect_allowed u schemes) [] uris
