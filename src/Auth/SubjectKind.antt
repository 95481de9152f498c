-- ===== src/Auth/SubjectKind.antt =====
-- internal/auth/subject_kind.go: the kind of a credential's subject, and the veto of the current configuration on it. The
-- kinds of the custom resources are client, user, and others, some of which a release may know.
pub mod Revival
use host_manager.Base.{
  ℕ, Bytes, beq, has_prefix, GoMap, lookup, Bool, true, false, not, ◌&&◌, Option, none, some, List,
  [], ◌∷◌, leb, ltb, if◌then◌else◌, contains,
}
use host_manager.Auth.ClientRegistry.{ClientRecord, client_id_prefix}

pub data Kind : Type 0 where
  client user : Kind
  other : Bytes → Kind

-- What the veto reads of an Exchanger: the configured client ids, and the registry of its build.
pub record Exchanger : Type 0 where
  pub clients : List Bytes
  pub client_registry : GoMap ClientRecord

-- NamesClient
unfoldable pub names_client : Exchanger → Bytes → Bool
names_client e key = if beq key [] then false else elim (lookup key e.client_registry) [
  | some _ ↦ true
  | none ↦ has_prefix key client_id_prefix
]

-- SubjectKindOf
unfoldable pub subject_kind_of : Exchanger → Bytes → Kind
subject_kind_of e sub = if names_client e sub then client else user

-- kindOrLegacy; no recorded kind is the empty one.
unfoldable pub kind_or_legacy : Exchanger → Kind → Bytes → Kind
kind_or_legacy e (other []) sub = subject_kind_of e sub
kind_or_legacy e k sub = k

-- The claims of a credential's context that its kind depends on.
pub record AuthContext : Type 0 where
  pub kind : Kind
  pub is_client_credentials : Bool
  pub sub : Bytes

-- ContextSubjectKind
unfoldable pub context_subject_kind : Exchanger → AuthContext → Kind
unfolding kind_or_legacy
context_subject_kind e ac = elim ac.kind [
  | client ↦ client
  | user ↦ user
  | other k ↦
      if beq k [] && ac.is_client_credentials && not (beq ac.sub [])
      then client
      else kind_or_legacy e (other k) ac.sub
]

-- IsConfiguredClient
abbrev pub is_configured_client : Exchanger → Bytes → Bool
is_configured_client e id = contains e.clients id

-- clientRemovedAt
unfoldable pub client_removed_at : Exchanger → Bytes → ℕ
client_removed_at e id = elim (lookup id e.client_registry) [ none ↦ 0 | some r ↦ r.removed_at ]

pub data Veto : Type 0 where
  passes refused : Veto

-- vetoClient
unfoldable pub veto_client : Exchanger → Bytes → ℕ → Veto
veto_client e sub iat =
    if not (is_configured_client e sub)
    then refused
    else if ltb 0 (client_removed_at e sub) && leb iat (client_removed_at e sub)
    then refused
    else passes

-- vetoUser
unfoldable pub veto_user : Exchanger → Bytes → Veto
veto_user e sub = if names_client e sub then refused else passes

-- vetoSubjectKind; which other kinds a release knows is its argument.
unfoldable pub veto_subject_kind : (Bytes → Bool) → Exchanger → Bytes → Kind → ℕ → Veto
veto_subject_kind known e sub client iat = veto_client e sub iat
veto_subject_kind known e sub user iat = veto_user e sub
veto_subject_kind known e sub (other k) iat = if known k then refused else passes

-- refuseClientNamedIdentity
unfoldable pub refuse_client_named_identity : Exchanger → List Bytes → Veto
refuse_client_named_identity e [] = passes
refuse_client_named_identity e (key ∷ keys) =
    let rest = refuse_client_named_identity e keys in if names_client e key then refused else rest
