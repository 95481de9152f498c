-- ===== src/Examples/Dcr.antt =====
-- Runs of the registration policies.
use host_manager.Base.{
  ◌≤◌, Bytes, text, beq, has_byte, ◌≡◌, ◌≢◌, refl, true, false, ◌&&◌, ◌||◌, Option, some, List, [],
  ◌∷◌, length, arith,
}
use host_manager.Dcr.{
  keep, filter_grant_types, Url, http, https, is_ascii, entry_admits, any_entry, url_admits,
  redirect_allowed, filter_redirect_uris,
}
use host_manager.Dcr.Redirects.{SchemeOk, redirect_allowed_sound}

program : Unit {0}
unfolding keep filter_grant_types is_ascii entry_admits any_entry url_admits redirect_allowed
    filter_redirect_uris beq has_byte
program = tt

-- A parser that knows one loopback redirect.
abbrev local : Bytes
local = text "http://localhost:8/cb"

abbrev parse_local : Bytes → Option Url
parse_local raw =
    some (record { scheme = text "http"; has_user = false; hostname = text "LocalHost" })

abbrev loopback : List Bytes
loopback = text "http" ∷ text "http-loopback" ∷ []

local_allowed : redirect_allowed parse_local local loopback ≡ true
unfolding program
local_allowed = refl

redirect_allowed_sound_example :
    (local ≢ [])
    × (length local ≤ 2048)
    × (has_byte 35 local ≡ false)
    × ((u : Url) × (parse_local local ≡ some u)
        × (u.has_user ≡ false)
        × SchemeOk u
        × ((beq u.scheme http || beq u.scheme https) && beq u.hostname [] ≡ false))
redirect_allowed_sound_example = redirect_allowed_sound parse_local local loopback local_allowed

abbrev asked : List Bytes
asked = text "password" ∷ text "refresh_token" ∷ text "refresh_token" ∷ []

refresh_kept : filter_grant_types asked ≡ text "refresh_token" ∷ []
unfolding program
refresh_kept = refl

some_asked : asked ≢ []
some_asked h = ground (arith, h)

some_kept : filter_grant_types asked ≢ []
some_kept h = ground (arith, refresh_kept, h)
