-- ===== src/Dcr/Store.antt =====
-- internal/auth/dcr/store.go: the store of dynamically registered clients. A stored client stands for its JSON text, none
-- for a text that does not parse; random bytes come as their hexadecimal text. A cache call that fails has no effect.
use host_manager.Base.{
  ℕ, ◌+◌, ◌/◌, Bytes, text, beq, GoMap, delete, Bool, true, false, Option, none, some, List, [],
  ◌++◌, if◌then◌else◌,
}
use host_manager.Auth.Refresh.{Answer, failed, answer, Kept, second, read, keep}
use host_manager.Auth.ClientRegistry.{client_id_prefix}

pub record Client : Type 0 where
  pub client_id : Bytes
  pub redirect_uris : List Bytes
  pub grant_types : List Bytes
  pub response_types : List Bytes
  pub scope : Bytes
  pub client_name : Bytes
  pub token_endpoint_auth_method : Bytes
  pub created_at : ℕ

abbrev pub ClientStore : Type 0
ClientStore = GoMap (Kept (Option Client))

-- The record that a registration stores
abbrev pub registered : ℕ → Bytes → Client → Client
registered now random c = record c {
  client_id = client_id_prefix ++ random;
  token_endpoint_auth_method =
      if beq c.token_endpoint_auth_method [] then text "none" else c.token_endpoint_auth_method;
  created_at = now / second;
}

-- Register, where none is an error
unfoldable pub register :
    ℕ → ℕ → Bytes → Bool → Client → ClientStore → Option (ClientStore × Client)
register now ttl random fails c s =
    let full = registered now random c in
    if fails then none else some (keep full.client_id (some full) (now + ttl) s, full)

-- Get, which keeps what it finds for another ttl; `unread` and `unkept` say which cache calls fail.
unfoldable pub get :
    ℕ → ℕ → Bool → Bool → Bytes → ClientStore → ClientStore × Answer (Option Client)
get now ttl unread unkept id s = if unread then (s, failed) else elim (read now id s) [
  | none ↦ (s, answer none)
  | some none ↦ (s, failed)
  | some (some c) ↦ (if unkept then s else keep id (some c) (now + ttl) s, answer (some c))
]

-- Delete, with whether it reports no error
unfoldable pub remove : Bool → Bytes → ClientStore → ClientStore × Bool
remove fails id s = if fails then (s, false) else (delete id s, true)
