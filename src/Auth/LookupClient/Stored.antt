-- ===== src/Auth/LookupClient/Stored.antt =====
-- What becomes of a stored registration when LookupClient of internal/auth/exchange.go reads it.
use host_manager.Base.{
  ℕ, ◌+◌, ◌<◌, Bytes, beq, lookup, delete, lookup-delete_self, ◌≡◌, ◌≢◌, refl, ◌∙◌, inl, inr, Bool,
  true, false, Option, none, some, List, [], ◌∷◌, Bool-cases, arith,
}
use host_manager.Auth.Refresh.{answer, read, keep, read-keep}
use host_manager.Auth.ClientRegistry.{beq_nil}
use host_manager.Dcr.{Url, filter_grant_types, filter_redirect_uris}
use host_manager.Dcr.Filter.{filter_redirect_uris-exact, filter_grant_types-exact}
use host_manager.Dcr.Store.{Client, ClientStore, registered, register, get, remove}
use host_manager.Auth.LookupClient.{
  ClientConfig, StoreFaults, schemes_of, admitted, admit, lookup_client,
}

ne-beq_nil : (xs : List Bytes) → xs ≢ [] → beq_nil xs ≡ false
ne-beq_nil [] n = absurd (n refl)
ne-beq_nil (x ∷ xs) n = refl

again :
    (gs : List Bytes)
    → filter_grant_types gs ≢ []
    → filter_grant_types (filter_grant_types gs) ≡ filter_grant_types gs
unfolding filter_grant_types beq
again [] n = refl
again (x ∷ xs) n = (filter_grant_types-exact (x ∷ xs) [] (λ e. ground (arith, e)) n).2

grants_again :
    (c : Client) (grants : List Bytes)
    → c.grant_types ≡ filter_grant_types grants
    → c.grant_types ≢ []
    → filter_grant_types c.grant_types ≡ c.grant_types
grants_again c grants t n = rw (t) (again grants (rw (t) at n))

module _ (parse : Bytes → Option Url) (fields : Bytes → List Bytes) where
  -- A record that the policy leaves no redirect is gone after it is looked up.
  get-found :
      (now ttl : ℕ) (unkept : Bool) (id : Bytes) (s : ClientStore) (dc : Client)
      → read now id s ≡ some (some dc)
      → (get now ttl false unkept id s).1 ≡ answer (some dc)
  unfolding get
  get-found now ttl unkept id s dc h = rw (get, h) refl

  gone :
      (now ttl : ℕ) (unread unkept : Bool) (id : Bytes) (s : ClientStore)
      → lookup id s ≡ none
      → unread ≡ false
      → (get now ttl unread unkept id s).1 ≡ answer none
  unfolding get read
  gone now ttl unread unkept id s h u = rw (get, u, read, h) refl

  -- The lookup of a stored client
  lookup_client-found :
      (g : ClientConfig) (f : StoreFaults) (now : ℕ) (id : Bytes) (s : ClientStore) (dc : Client)
      → lookup id g.clients ≡ none
      → g.has_store ≡ true
      → f.unread ≡ false
      → read now id s ≡ some (some dc)
      → lookup_client parse fields g f now id s
        ≡ admit parse fields g f id dc (get now g.ttl f.unread f.unkept id s).0
  unfolding lookup_client
  lookup_client-found g f now id s dc n y u h =
      let found : (get now g.ttl f.unread f.unkept id s).1 ≡ answer (some dc) =
        rw (u) (get-found now g.ttl f.unkept id s dc h) in
      rw (lookup_client, n, y, found) refl

  lookup_client-gone :
      (g : ClientConfig) (f : StoreFaults) (now : ℕ) (id : Bytes) (s : ClientStore)
      → lookup id g.clients ≡ none
      → f.unread ≡ false
      → lookup id s ≡ none
      → (lookup_client parse fields g f now id s).1 ≡ answer none
  unfolding lookup_client
  lookup_client-gone g f now id s n u h = elim (Bool-cases g.has_store) [
    | inl y ↦ rw (lookup_client, n, y, gone now g.ttl f.unread f.unkept id s h u) refl
    | inr y ↦ rw (lookup_client, n, y) refl
  ]

  admit-purged :
      (g : ClientConfig) (f : StoreFaults) (id : Bytes) (dc : Client) (s : ClientStore)
      → f.undeleted ≡ false
      → filter_redirect_uris parse dc.redirect_uris (schemes_of g) ≡ []
      → admit parse fields g f id dc s ≡ (delete id s, answer none)
  unfolding admit remove
  admit-purged g f id dc s d e = rw (admit, e, remove, d) refl

  admit-kept :
      (g : ClientConfig) (f : StoreFaults) (id : Bytes) (dc : Client) (s : ClientStore)
      → filter_redirect_uris parse dc.redirect_uris (schemes_of g) ≡ dc.redirect_uris
      → dc.redirect_uris ≢ []
      → filter_grant_types dc.grant_types ≡ dc.grant_types
      → dc.grant_types ≢ []
      → admit parse fields g f id dc s
        ≡ (s, answer (some (admitted parse fields dc dc.redirect_uris dc.grant_types)))
  unfolding admit
  admit-kept g f id dc s r rn t tn =
      rw (admit, r, t, ne-beq_nil dc.redirect_uris rn, ne-beq_nil dc.grant_types tn) refl

  -- A stored client, not one of the operator's, that the policy leaves no redirect is not found, and in the
  -- store that this lookup leaves it is not found either, under any policy and at any time, unless a cache
  -- call fails or an operator configures the id.
  pub lookup_client-purged :
      (g : ClientConfig) (f : StoreFaults) (now : ℕ) (id : Bytes) (s : ClientStore) (dc : Client)
      (later : ClientConfig) (k : StoreFaults) (time : ℕ)
      → lookup id g.clients ≡ none
      → lookup id later.clients ≡ none
      → g.has_store ≡ true
      → f.unread ≡ false
      → f.undeleted ≡ false
      → k.unread ≡ false
      → read now id s ≡ some (some dc)
      → filter_redirect_uris parse dc.redirect_uris (schemes_of g) ≡ []
      → ((lookup_client parse fields g f now id s).1 ≡ answer none)
        × ((lookup_client parse fields later k time id
              (lookup_client parse fields g f now id s).0).1
            ≡ answer none)
  unfolding lookup_client
  lookup_client-purged g f now id s dc later k time n m y u d v h e =
      let kept = (get now g.ttl f.unread f.unkept id s).0 in
      let result = lookup_client-found g f now id s dc n y u h ∙ admit-purged g f id dc kept d e in
      rw (result)
        (refl, lookup_client-gone later k time id (delete id kept) m v (lookup-delete_self id kept))

  -- On a host that lets clients register: a client that is registered with redirects and grants that the
  -- policy kept, some of each, is found under the same policy within the time of its record, with exactly
  -- these redirects and grants, if no read fails and the new id is not one of the operator's.
  pub register-lookup_client :
      (g : ClientConfig) (f : StoreFaults) (now time ttl : ℕ) (random : Bytes) (c : Client)
      (s : ClientStore) (uris grants : List Bytes)
      → lookup (registered now random c).client_id g.clients ≡ none
      → g.has_store ≡ true
      → f.unread ≡ false
      → c.redirect_uris ≡ filter_redirect_uris parse uris (schemes_of g)
      → c.redirect_uris ≢ []
      → c.grant_types ≡ filter_grant_types grants
      → c.grant_types ≢ []
      → time < now + ttl
      → (t : ClientStore) × (register now ttl random false c s ≡ some (t, registered now random c))
        × ((lookup_client parse fields g f time (registered now random c).client_id t).1
            ≡ answer (
                some
                  (admitted parse fields (registered now random c) c.redirect_uris c.grant_types)))
  unfolding register
  register-lookup_client g f now time ttl random c s uris grants n y u r rn t tn h =
      let full = registered now random c in
      let store = keep full.client_id (some full) (now + ttl) s in
      let again : filter_redirect_uris parse c.redirect_uris (schemes_of g) ≡ c.redirect_uris =
        rw (r) (filter_redirect_uris-exact parse uris (schemes_of g) []).2 in
      let found =
        lookup_client-found g f time full.client_id store full n y u
          (read-keep time (now + ttl) full.client_id (some full) s h) in
      let kept = (get time g.ttl f.unread f.unkept full.client_id store).0 in
      (
        store,
        refl,
        rw (found, admit-kept g f full.client_id full kept again rn (grants_again c grants t tn) tn)
            refl,
      )
