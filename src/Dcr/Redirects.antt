-- ===== src/Dcr/Redirects.antt =====
-- What the redirect policy admits, whatever schemes are listed.
use host_manager.Base.{
  ◌≤◌, Bytes, text, beq, beq_iff, has_byte, ◌≡◌, ◌≢◌, refl, ◌⊎◌, Bool, true, false, not, ◌&&◌, ◌||◌,
  Option, none, some, List, [], ◌∷◌, ltb, length, contains, arith, inl, inr, Bool-cases,
  if◌then◌else◌,
}
use host_manager.Dcr.{
  Url, http, https, dangerous_schemes, is_ascii, is_loopback, entry_admits, any_entry, url_admits,
  redirect_allowed,
}

-- What an admitted scheme is.
abbrev pub SchemeOk : Url → Type 0
SchemeOk u =
    (u.scheme ≢ [])
    × (contains dangerous_schemes u.scheme ≡ false)
    × ((beq u.scheme http ≡ false) ⊎ (is_loopback u.hostname ≡ true))

no_dot-dangerous : (s : Bytes) → contains dangerous_schemes s ≡ true → has_byte 46 s ≡ false
unfolding has_byte
no_dot-dangerous s h = ground (
  arith,
  beq_iff (text "javascript") s,
  beq_iff (text "data") s,
  beq_iff (text "file") s,
  beq_iff (text "vbscript") s,
  beq_iff (text "blob") s,
)

http-not_dangerous : contains dangerous_schemes http ≡ false
unfolding beq
http-not_dangerous = refl

guards :
    (a b c d : Bool)
    → (if a || b || c then false else d) ≡ true
    → (a ≡ false) × (b ≡ false) × (c ≡ false) × (d ≡ true)
guards a b c d h = ground arith

absurd_test : (s : Bytes) → beq s [] ≡ false → s ≢ []
absurd_test s n e = ground (arith, beq_iff s [])

-- An entry that is the scheme itself.
literal_entry :
    (u : Url) (s : Bytes)
    → (if beq s [] || beq s http || contains dangerous_schemes s then false else beq u.scheme s)
      ≡ true
    → SchemeOk u
literal_entry u s h =
    let (empty, cleartext, listed, same) : (beq s [] ≡ false)
        × (beq s http ≡ false)
        × (contains dangerous_schemes s ≡ false)
        × (beq u.scheme s ≡ true) =
      guards (beq s []) (beq s http) (contains dangerous_schemes s) (beq u.scheme s) h in
    let scheme : u.scheme ≡ s = (beq_iff u.scheme s).0 same in
    rw (scheme) (λ e. absurd_test s empty e, listed, inl cleartext)

private_guards :
    (a b c d : Bool)
    → (not a && not b && not c && d) ≡ true
    → (a ≡ false) × (b ≡ false) × (d ≡ true)
private_guards a b c d h = ground arith

private_entry :
    (u : Url)
    → (not (beq u.scheme [])
        && not (beq u.scheme http)
        && not (beq u.scheme https)
        && has_byte 46 u.scheme)
      ≡ true
    → SchemeOk u
private_entry u h =
    let (empty, cleartext, dotted) =
      private_guards (beq u.scheme []) (beq u.scheme http) (beq u.scheme https)
        (has_byte 46 u.scheme) h in
    (
      absurd_test u.scheme empty,
      elim (Bool-cases (contains dangerous_schemes u.scheme)) [
        | inl d ↦ ground (arith, no_dot-dangerous u.scheme d, dotted)
        | inr d ↦ d
      ],
      inl cleartext,
    )

entry_admits-SchemeOk : (u : Url) (s : Bytes) → entry_admits u s ≡ true → SchemeOk u
unfolding entry_admits
entry_admits-SchemeOk u s h = elim (Bool-cases (beq s (text "http-loopback"))) [
  | inl l ↦
      let (cleartext, local) : (beq u.scheme http ≡ true) × (is_loopback u.hostname ≡ true) =
        ground (arith, l) in
      let scheme : u.scheme ≡ http = (beq_iff u.scheme http).0 cleartext in
      rw (scheme) (ground arith, http-not_dangerous, inr local)
  | inr l ↦ elim (Bool-cases (beq s (text "private-use"))) [
    | inl p ↦ private_entry u (ground (arith, l, p))
    | inr p ↦ literal_entry u s (ground (arith, l, p))
  ]
]

any_entry-SchemeOk : (u : Url) (ss : List Bytes) → any_entry u ss ≡ true → SchemeOk u
unfolding any_entry
any_entry-SchemeOk u [] h = ground arith
any_entry-SchemeOk u (s ∷ ss) h = elim (Bool-cases (entry_admits u s)) [
  | inl y ↦ entry_admits-SchemeOk u s y
  | inr n ↦ any_entry-SchemeOk u ss (ground arith)
]

url_guards :
    (a b c d : Bool)
    → (if a then false else if b then false else if c then false else d) ≡ true
    → (a ≡ false) × (c ≡ false) × (d ≡ true)
url_guards a b c d h = ground arith

url_admits_sound :
    (parsed : Option Url) (schemes : List Bytes)
    → url_admits parsed schemes ≡ true
    → (u : Url) × (parsed ≡ some u)
      × (u.has_user ≡ false)
      × SchemeOk u
      × ((beq u.scheme http || beq u.scheme https) && beq u.hostname [] ≡ false)
unfolding url_admits
url_admits_sound none schemes h = ground arith
url_admits_sound (some u) schemes h =
    let (user, host, admitted) =
      url_guards u.has_user (not (beq u.hostname []) && not (is_ascii u.hostname))
        ((beq u.scheme http || beq u.scheme https) && beq u.hostname []) (any_entry u schemes) h in
    (u, refl, user, any_entry-SchemeOk u schemes admitted, host)

-- Whatever schemes a host lists, an admitted redirect has between 1 and 2048 bytes and no fragment, parses, without
-- userinfo; its scheme is not empty and not a dangerous one, http leads to a loopback host only, and http and https have
-- a host.
pub redirect_allowed_sound :
    (parse : Bytes → Option Url) (raw : Bytes) (schemes : List Bytes)
    → redirect_allowed parse raw schemes ≡ true
    → (raw ≢ [])
      × (length raw ≤ 2048)
      × (has_byte 35 raw ≡ false)
      × ((u : Url) × (parse raw ≡ some u)
          × (u.has_user ≡ false)
          × SchemeOk u
          × ((beq u.scheme http || beq u.scheme https) && beq u.hostname [] ≡ false))
unfolding redirect_allowed
redirect_allowed_sound parse raw schemes h =
    let (empty, long, fragment, rest) =
      guards (beq raw []) (ltb 2048 (length raw)) (has_byte 35 raw) (url_admits (parse raw) schemes)
        h in
    (
      absurd_test raw empty,
      ground (arith, long),
      fragment,
      url_admits_sound (parse raw) schemes rest,
    )
