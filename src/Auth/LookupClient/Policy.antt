-- ===== src/Auth/LookupClient/Policy.antt =====
-- What LookupClient of internal/auth/exchange.go gives for a client that registered itself.
use host_manager.Base.{
  ℕ, Bytes, lookup, ◌≡◌, ◌≢◌, refl, sym, ◌∙◌, inl, inr, true, false, Option, none, some, List, [],
  ◌∷◌, Bool-cases, contains, arith,
}
use host_manager.Auth.Refresh.{Answer, failed, answer}
use host_manager.Auth.ClientRegistry.{beq_nil}
use host_manager.Dcr.{
  Url, supported_grant_types, filter_grant_types, redirect_allowed, filter_redirect_uris,
}
use host_manager.Dcr.Filter.{filter_redirect_uris-exact, filter_grant_types-exact}
use host_manager.Dcr.Store.{Client, ClientStore, get}
use host_manager.Auth.LookupClient.{
  AuthClient, ClientConfig, StoreFaults, schemes_of, admitted, admit, lookup_client,
}

beq_nil-ne : (xs : List Bytes) → beq_nil xs ≡ false → xs ≢ []
beq_nil-ne [] h e = ground (arith, h)
beq_nil-ne (x ∷ xs) h e = ground (arith, e)

module _ (parse : Bytes → Option Url) (fields : Bytes → List Bytes) where
  -- What the policy leaves of a client that registered itself.
  abbrev pub IsRestricted : ClientConfig → AuthClient → Type 0
  IsRestricted g c =
      (c.require_consent ≡ true)
      × (c.require_pkce ≡ true)
      × (c.redirect_uris ≢ [])
      × ((u : Bytes)
          → contains c.redirect_uris u ≡ true
          → redirect_allowed parse u (schemes_of g) ≡ true)
      × (c.allowed_grant_types ≢ [])
      × ((t : Bytes)
          → contains c.allowed_grant_types t ≡ true
          → contains supported_grant_types t ≡ true)

  grants-supported :
      (gs : List Bytes) (t : Bytes)
      → filter_grant_types gs ≢ []
      → contains (filter_grant_types gs) t ≡ true
      → contains supported_grant_types t ≡ true
  unfolding filter_grant_types
  grants-supported [] t k h = h
  grants-supported (x ∷ xs) t k h =
      let (both, _, _) = filter_grant_types-exact (x ∷ xs) t (λ e. ground (arith, e)) k in
      (ground (arith, sym both ∙ h))

  redirects-allowed :
      (g : ClientConfig) (us : List Bytes) (u : Bytes)
      → contains (filter_redirect_uris parse us (schemes_of g)) u ≡ true
      → redirect_allowed parse u (schemes_of g) ≡ true
  redirects-allowed g us u h =
      let (both, _, _) = filter_redirect_uris-exact parse us (schemes_of g) u in
      ground (arith, sym both ∙ h)

  admitted-IsRestricted :
      (g : ClientConfig) (dc : Client)
      → beq_nil (filter_redirect_uris parse dc.redirect_uris (schemes_of g)) ≡ false
      → beq_nil (filter_grant_types dc.grant_types) ≡ false
      → IsRestricted g (
          admitted parse fields dc
            (filter_redirect_uris parse dc.redirect_uris (schemes_of g))
            (filter_grant_types dc.grant_types))
  admitted-IsRestricted g dc r t =
      let kept = beq_nil-ne (filter_grant_types dc.grant_types) t in
      (
        refl,
        refl,
        beq_nil-ne (filter_redirect_uris parse dc.redirect_uris (schemes_of g)) r,
        redirects-allowed g dc.redirect_uris,
        kept,
        λ x h. grants-supported dc.grant_types x kept h,
      )

  answer_inj : (a b : AuthClient) → answer (some a) ≡ answer (some b) → a ≡ b
  answer_inj a b h = cc

  no_answer {ℓ} : {A : Type ℓ} (c : AuthClient) → answer none ≡ answer (some c) → A
  no_answer c h = absurd (ground (arith, h))

  admit-IsRestricted :
      (g : ClientConfig) (f : StoreFaults) (id : Bytes) (dc : Client) (s : ClientStore)
      (c : AuthClient)
      → (admit parse fields g f id dc s).1 ≡ answer (some c)
      → IsRestricted g c
  unfolding admit
  admit-IsRestricted g f id dc s c h =
      elim (Bool-cases (beq_nil (filter_redirect_uris parse dc.redirect_uris (schemes_of g)))) [
        | inl y ↦ no_answer c (rw (admit, y) at h)
        | inr y ↦ elim (Bool-cases (beq_nil (filter_grant_types dc.grant_types))) [
          | inl z ↦ no_answer c (rw (admit, y, z) at h)
          | inr z ↦
              rw (sym (answer_inj _ c (rw (admit, y, z) at h))) (admitted-IsRestricted g dc y z)
        ]
      ]

  found-IsRestricted :
      (g : ClientConfig) (f : StoreFaults) (now : ℕ) (id : Bytes) (s : ClientStore) (c : AuthClient)
      (o : Answer (Option Client))
      → (get now g.ttl f.unread f.unkept id s).1 ≡ o
      → lookup id g.clients ≡ none
      → g.has_store ≡ true
      → (lookup_client parse fields g f now id s).1 ≡ answer (some c)
      → IsRestricted g c
  unfolding lookup_client
  found-IsRestricted g f now id s c failed e n y h =
      absurd (ground (arith, rw (lookup_client, n, y, e) at h))
  found-IsRestricted g f now id s c (answer none) e n y h =
      no_answer c (rw (lookup_client, n, y, e) at h)
  found-IsRestricted g f now id s c (answer (some dc)) e n y h =
      admit-IsRestricted g f id dc (get now g.ttl f.unread f.unkept id s).0 c
        (rw (lookup_client, n, y, e) at h)

  -- A client that is found and is not one of the operator's requires consent and PKCE, has at least one
  -- redirect and one grant, and each of its redirects and grants is one that the current policy admits.
  pub lookup_client-IsRestricted :
      (g : ClientConfig) (f : StoreFaults) (now : ℕ) (id : Bytes) (s : ClientStore) (c : AuthClient)
      → lookup id g.clients ≡ none
      → (lookup_client parse fields g f now id s).1 ≡ answer (some c)
      → IsRestricted g c
  unfolding lookup_client
  lookup_client-IsRestricted g f now id s c n h = elim (Bool-cases g.has_store) [
    | inl y ↦ found-IsRestricted g f now id s c (get now g.ttl f.unread f.unkept id s).1 refl n y h
    | inr y ↦ no_answer c (rw (lookup_client, n, y) at h)
  ]
