-- ===== src/Auth/ApiToken.antt =====
-- internal/auth/apitoken/apitoken.go: the keys of a host's API tokens and their prefix. The key material is bytes; what
-- go-paseto makes of it is a parameter.
pub mod Keys
pub mod Revocation
pub mod Cutoff
pub mod Mint
pub mod Revoking
pub mod Adoption
pub mod Refused
pub mod RoundTrip
use host_manager.Base.{
  ℕ, Bytes, text, beq, has_prefix, Bool, true, false, not, ◌&&◌, Option, none, some, List, [], ◌∷◌,
  ◌++◌, ltb, leb, if◌then◌else◌, length,
}

pub record KeyPair : Type 0 where
  pub active_key : Bool
  pub key_id : Bytes
  pub public_key : Bytes
  pub secret_key : Bytes

abbrev pub first_active : List KeyPair → Option KeyPair
first_active [] = none
first_active (p ∷ ps) = if p.active_key then some p else first_active ps

-- KeyPairs.ActiveKey
unfoldable pub active_key_of : List KeyPair → Option KeyPair
active_key_of [] = none
active_key_of (p ∷ []) = some p
active_key_of (p ∷ q ∷ ps) = first_active (p ∷ q ∷ ps)

-- KeyPairs.GetKey
unfoldable pub get_key : Bytes → List KeyPair → Option KeyPair
get_key kid [] = none
get_key kid (p ∷ ps) = if beq p.key_id kid then some p else get_key kid ps

-- A secret of the type api-key.
pub record Secret : Type 0 where
  pub is_active : Bool
  pub private_key_data : Option Bytes
  pub public_key_data : Option Bytes

abbrev pub deactivate : KeyPair → KeyPair
deactivate p = record p { active_key = false }

abbrev pub activate : KeyPair → KeyPair
activate p = record p { active_key = true }

abbrev pub change_last : (KeyPair → KeyPair) → List KeyPair → List KeyPair
change_last f [] = []
change_last f (p ∷ []) = f p ∷ []
change_last f (p ∷ q ∷ ps) = p ∷ change_last f (q ∷ ps)

-- One turn of the loader's loop, with the pair that was loaded.
abbrev pub add_pair : List KeyPair → KeyPair → List KeyPair
add_pair pairs p = (if p.active_key then change_last deactivate pairs else pairs) ++ p ∷ []

unfoldable pub add_pairs : List KeyPair → List KeyPair → List KeyPair
add_pairs pairs [] = pairs
add_pairs pairs (p ∷ ps) = add_pairs (add_pair pairs p) ps

-- The choice after the loop.
unfoldable pub choose_active : List KeyPair → List KeyPair
choose_active pairs = elim (active_key_of pairs) [
  | some _ ↦ pairs
  | none ↦ change_last activate pairs
]

module _ (import_key : Bytes → Option Bytes) (public_of kid_of : Bytes → Bytes) where
  -- LoadKeysFromSecret
  unfoldable pub load_keys_from_secret : Secret → Option KeyPair
  load_keys_from_secret s = elim s.private_key_data [
    | none ↦ none
    | some [] ↦ none
    | some (b ∷ bs) ↦ elim (import_key (b ∷ bs)) [
      | none ↦ none
      | some secret ↦
          (let pair : KeyPair = record {
            active_key = s.is_active;
            key_id = kid_of (public_of secret);
            public_key = public_of secret;
            secret_key = secret;
          } in
            elim s.public_key_data [
              | none ↦ some pair
              | some given ↦ if beq (public_of secret) given then some pair else none
            ])
    ]
  ]

  unfoldable pub load_all : List Secret → Option (List KeyPair)
  unfolding load_keys_from_secret
  load_all [] = some []
  load_all (s ∷ ss) = elim (load_keys_from_secret s) [
    | none ↦ none
    | some p ↦ elim (load_all ss) [ none ↦ none | some ps ↦ some (p ∷ ps) ]
  ]

  -- APITokenManagerLoader up to NewTokenManager, for the secrets from the oldest to the newest; dev mode has a key of its own.
  unfoldable pub load_key_pairs : Bool → List KeyPair → List Secret → Option (List KeyPair)
  unfolding load_all add_pairs choose_active
  load_key_pairs dev_mode dev_keys [] = if dev_mode then some dev_keys else none
  load_key_pairs dev_mode dev_keys (s ∷ ss) = elim (load_all (s ∷ ss)) [
    | none ↦ none
    | some ps ↦ some (choose_active (add_pairs [] ps))
  ]
