-- ===== src/Auth/ApiToken/Keys.antt =====
-- Which key signs a host's API tokens.
use host_manager.Base.{
  Bytes, Bool, true, false, not, ◌&&◌, Option, none, some, List, [], ◌∷◌, ◌++◌, if◌then◌else◌, ◌≡◌,
  refl, ◌∙◌, inl, inr, ◌⊎◌, ◌≢◌, Bool-cases, Option-cases, some_inj, arith,
}
use mathlib.Core.List.{append_assoc}
use host_manager.Auth.ApiToken.{
  KeyPair, first_active, active_key_of, deactivate, activate, change_last, add_pairs, choose_active,
  Secret, load_keys_from_secret, load_all, load_key_pairs,
}

-- The first key that is marked active and whose successor is not, or else the newest.
abbrev pub chosen_id : List KeyPair → Bytes
chosen_id [] = []
chosen_id (p ∷ []) = p.key_id
chosen_id (p ∷ q ∷ ps) = if p.active_key && not q.active_key then p.key_id else chosen_id (q ∷ ps)

abbrev cleared : List KeyPair → List KeyPair
cleared [] = []
cleared (p ∷ []) = p ∷ []
cleared (p ∷ q ∷ ps) = (if q.active_key then deactivate p else p) ∷ cleared (q ∷ ps)

change_last-append :
    (f : KeyPair → KeyPair) (ps : List KeyPair) (p : KeyPair)
    → change_last f (ps ++ p ∷ []) ≡ ps ++ f p ∷ []
change_last-append f [] p = refl
change_last-append f (q ∷ []) p = refl
change_last-append f (q ∷ r ∷ ps) p = rw (change_last-append f (r ∷ ps) p) refl

add_pairs-cleared :
    (before : List KeyPair) (p : KeyPair) (ps : List KeyPair)
    → add_pairs (before ++ p ∷ []) ps ≡ before ++ cleared (p ∷ ps)
unfolding add_pairs
add_pairs-cleared before p [] = refl
add_pairs-cleared before p (q ∷ ps) =
    let own = if q.active_key then deactivate p else p in
    let put : (if q.active_key then change_last deactivate (before ++ p ∷ []) else before ++ p ∷ [])
        ≡ before ++ own ∷ [] =
      elim (Bool-cases q.active_key) [
        | inl e ↦ rw (e) (change_last-append deactivate before p)
        | inr n ↦ rw (n) refl
      ] in
    rw (put) (
      add_pairs-cleared (before ++ own ∷ []) q ps
      ∙ append_assoc before (own ∷ []) (cleared (q ∷ ps)))

-- The key that ActiveKey finds in the pairs, once the newest is marked where none is, has this id.
Picks : List KeyPair → Bytes → Type 0
Picks l id =
    ((k : KeyPair) × (first_active l ≡ some k) × (k.key_id ≡ id))
    ⊎ ((first_active l ≡ none)
        × ((k : KeyPair) × (first_active (change_last activate l) ≡ some k) × (k.key_id ≡ id)))

skip :
    (p q : KeyPair) (l : List KeyPair) (id : Bytes)
    → p.active_key ≡ false
    → Picks (q ∷ l) id
    → Picks (p ∷ q ∷ l) id
unfolding Picks
skip p q l id e (inl (k, f, i)) = inl (k, rw (e) f, i)
skip p q l id e (inr (n, (k, f, i))) = inr (rw (e) n, (k, rw (e) f, i))

skip_cleared :
    (x q : KeyPair) (ps : List KeyPair) (id : Bytes)
    → x.active_key ≡ false
    → Picks (cleared (q ∷ ps)) id
    → Picks (x ∷ cleared (q ∷ ps)) id
skip_cleared x q [] id e h = skip x q [] id e h
skip_cleared x q (r ∷ ps) id e h =
    skip x (if r.active_key then deactivate q else q) (cleared (r ∷ ps)) id e h

single-Picks : (p : KeyPair) → Picks (p ∷ []) p.key_id
unfolding Picks
single-Picks p = elim (Bool-cases p.active_key) [
  | inl e ↦ inl (p, simp (e) refl, refl)
  | inr n ↦ inr (simp (n) refl, (activate p, refl, refl))
]

front-Picks : (p : KeyPair) (l : List KeyPair) → p.active_key ≡ true → Picks (p ∷ l) p.key_id
unfolding Picks
front-Picks p l e = inl (p, simp (e) refl, refl)

turn-Picks :
    (p q : KeyPair) (ps : List KeyPair) (b : Bool) (id : Bytes)
    → Picks (cleared (q ∷ ps)) id
    → Picks
        ((if b then deactivate p else p) ∷ cleared (q ∷ ps))
        (if p.active_key && not b then p.key_id else id)
turn-Picks p q ps true id h =
    let gone : (p.active_key && false) ≡ false = ground arith in
    rw (gone) (skip_cleared (deactivate p) q ps id refl h)
turn-Picks p q ps false id h = elim (Bool-cases p.active_key) [
  | inl e ↦ simp (e) (front-Picks p (cleared (q ∷ ps)) e)
  | inr n ↦ simp (n) (skip_cleared p q ps id n h)
]

cleared-Picks : (p : KeyPair) (ps : List KeyPair) → Picks (cleared (p ∷ ps)) (chosen_id (p ∷ ps))
cleared-Picks p [] = single-Picks p
cleared-Picks p (q ∷ ps) = turn-Picks p q ps q.active_key (chosen_id (q ∷ ps)) (cleared-Picks q ps)

add_pairs-first : (p : KeyPair) (ps : List KeyPair) → add_pairs [] (p ∷ ps) ≡ cleared (p ∷ ps)
unfolding add_pairs
add_pairs-first p ps = elim (Bool-cases p.active_key) [
  | inl e ↦ simp (e) (add_pairs-cleared [] p ps)
  | inr n ↦ simp (n) (add_pairs-cleared [] p ps)
]

none_not_some : (k : KeyPair) → none ≡ some k → ⊥
none_not_some k h = cc

first_active-active_key_of :
    (l : List KeyPair) (k : KeyPair) → first_active l ≡ some k → active_key_of l ≡ some k
unfolding active_key_of
first_active-active_key_of [] k h = h
first_active-active_key_of (p ∷ []) k h = elim (Bool-cases p.active_key) [
  | inl e ↦ simp (e) at h
  | inr n ↦ absurd (none_not_some k (simp (n) at h))
]
first_active-active_key_of (p ∷ q ∷ l) k h = h

-- The active key of some pairs is the one with an id.
pub HasActive : List KeyPair → Bytes → Type 0
HasActive l id = (k : KeyPair) × (active_key_of l ≡ some k) × (k.key_id ≡ id)

choose_kept : (l : List KeyPair) (k : KeyPair) → active_key_of l ≡ some k → choose_active l ≡ l
unfolding choose_active
choose_kept l k h = rw (choose_active, h) refl

choose_newest :
    (l : List KeyPair) → active_key_of l ≡ none → choose_active l ≡ change_last activate l
unfolding choose_active
choose_newest l h = rw (choose_active, h) refl

choose_Picks :
    (x y : KeyPair) (l : List KeyPair) (id : Bytes)
    → Picks (x ∷ y ∷ l) id
    → HasActive (choose_active (x ∷ y ∷ l)) id
unfolding Picks HasActive active_key_of
choose_Picks x y l id (inl (k, f, i)) = (k, rw (choose_kept (x ∷ y ∷ l) k f) f, i)
choose_Picks x y l id (inr (n, (k, f, i))) = (
  k,
  rw (choose_newest (x ∷ y ∷ l) n)
      (first_active-active_key_of (change_last activate (x ∷ y ∷ l)) k f),
  i,
)

choose_cleared :
    (p : KeyPair) (ps : List KeyPair)
    → HasActive (choose_active (cleared (p ∷ ps))) (chosen_id (p ∷ ps))
unfolding HasActive active_key_of choose_active
choose_cleared p [] = (p, refl, refl)
choose_cleared p (q ∷ []) =
    choose_Picks (if q.active_key then deactivate p else p) q [] (chosen_id (p ∷ q ∷ []))
      (cleared-Picks p (q ∷ []))
choose_cleared p (q ∷ r ∷ ps) =
    choose_Picks (if q.active_key then deactivate p else p)
      (if r.active_key then deactivate q else q) (cleared (r ∷ ps)) (chosen_id (p ∷ q ∷ r ∷ ps))
      (cleared-Picks p (q ∷ r ∷ ps))

by_loaded :
    (loaded pairs : List KeyPair)
    → loaded ≢ []
    → choose_active (add_pairs [] loaded) ≡ pairs
    → HasActive pairs (chosen_id loaded)
by_loaded [] pairs n e = absurd (n refl)
by_loaded (p ∷ ps) pairs n e =
    let whole : choose_active (cleared (p ∷ ps)) ≡ pairs = rw (add_pairs-first p ps) at e in
    rw (← whole) (choose_cleared p ps)

not_loaded : (l : List KeyPair) → none ≡ some l → ⊥
not_loaded l h = cc

cons_loaded : (p : KeyPair) (ps l : List KeyPair) → p ∷ ps ≡ l → l ≡ [] → ⊥
cons_loaded p ps l h e = cc

module _ (import_key : Bytes → Option Bytes) (public_of kid_of : Bytes → Bytes) where
  load_all_ne :
      (s : Secret) (ss : List Secret) (loaded : List KeyPair)
      → load_all import_key public_of kid_of (s ∷ ss) ≡ some loaded
      → loaded ≢ []
  unfolding load_all
  load_all_ne s ss loaded a e =
      elim (Option-cases (load_keys_from_secret import_key public_of kid_of s)) [
        | inl n ↦ not_loaded loaded (rw (load_all, n) at a)
        | inr (p, h) ↦ elim (Option-cases (load_all import_key public_of kid_of ss)) [
          | inl n ↦ not_loaded loaded (rw (load_all, h, n) at a)
          | inr (ps, k) ↦
              cons_loaded p ps loaded (some_inj (p ∷ ps) loaded (rw (load_all, h, k) at a)) e
        ]
      ]

  -- Where the secrets of a host load, it has an active key: the oldest one that is marked active and whose successor is
  -- not, or else the newest.
  pub load_key_pairs-HasActive :
      (dev_mode : Bool) (dev_keys pairs loaded : List KeyPair) (s : Secret) (ss : List Secret)
      → load_all import_key public_of kid_of (s ∷ ss) ≡ some loaded
      → load_key_pairs import_key public_of kid_of dev_mode dev_keys (s ∷ ss) ≡ some pairs
      → HasActive pairs (chosen_id loaded)
  unfolding load_key_pairs
  load_key_pairs-HasActive dev_mode dev_keys pairs loaded s ss a h =
      let own : choose_active (add_pairs [] loaded) ≡ pairs =
        some_inj _ pairs (rw (load_key_pairs, a) at h) in
      by_loaded loaded pairs (load_all_ne s ss loaded a) own
