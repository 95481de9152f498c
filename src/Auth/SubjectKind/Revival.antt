-- ===== src/Auth/SubjectKind/Revival.antt =====
-- No configuration revives what a client held before it was removed, and none turns a client's name into a user's.
use host_manager.Base.{
  ℕ, ◌≤◌, ◌<◌, Bytes, beq, beq_iff, has_prefix, GoMap, lookup, ◌≡◌, refl, ◌∙◌, Bool, true, false,
  not, ◌&&◌, ◌||◌, Option, none, some, List, [], ◌∷◌, if◌then◌else◌, contains, arith, inl, inr,
  Bool-cases,
}
use host_manager.Auth.ClientRegistry.{
  ClientRecord, max, client_id_prefix, registered_ids, Stored, load_client_registry,
}
use host_manager.Auth.ClientRegistry.Merge.{added, merged}
use host_manager.Auth.ClientRegistry.Builds.{
  record_of, Builds, Grew, Grew-trans, merged-Grew, load-merged, Builds-Grew,
}
use host_manager.Auth.SubjectKind.{
  client, user, Exchanger, names_client, subject_kind_of, client_removed_at, veto_client, veto_user,
  veto_subject_kind, refused,
}

-- The exchanger of a build.
abbrev pub exchanger : List Bytes → GoMap ClientRecord → Exchanger
exchanger configured registry = record { clients = configured; client_registry = registry }

contains-registered_ids :
    (ids : List Bytes) (id : Bytes)
    → contains (registered_ids ids) id
      ≡ (contains ids id && not (beq id [] || has_prefix id client_id_prefix))
unfolding registered_ids
contains-registered_ids [] id = refl
contains-registered_ids (x ∷ ids) id = elim (Bool-cases (beq x id)) [
  | inl y ↦
      let same : x ≡ id = (beq_iff x id).0 y in
      rw (same) (ground (arith, contains-registered_ids ids id, beq_iff id id))
  | inr n ↦ ground (arith, n, contains-registered_ids ids id)
]

-- A record with a cutoff makes every later exchanger refuse what was issued until then.
cutoff_refuses :
    (r : ClientRecord) (now iat : ℕ) (o : Option ClientRecord) (known : Bytes → Bool)
    (configured : List Bytes) (registry : GoMap ClientRecord) (id : Bytes)
    → lookup id registry ≡ o
    → Grew (some r) o
    → now ≤ r.removed_at
    → 0 < now
    → iat ≤ now
    → veto_subject_kind known (exchanger configured registry) id client iat ≡ refused
unfolding veto_subject_kind veto_client client_removed_at
cutoff_refuses r now iat none known configured registry id h g c p i = ground (arith, g)
cutoff_refuses r now iat (some q) known configured registry id h g c p i =
    let cutoff : client_removed_at (exchanger configured registry) id ≡ q.removed_at =
      rw (client_removed_at, h) refl in
    ground (arith, cutoff)

-- The record of a later build's registry.
later_record :
    (r : ClientRecord) (id : Bytes) {t u : Stored} (w : Stored) (later : List Bytes) (now : ℕ)
    (registry : GoMap ClientRecord)
    → record_of t id ≡ some r
    → Builds t u
    → load_client_registry false later now u ≡ (some registry, w)
    → Grew (some r) (lookup id registry)
later_record r id {t} {u} w later now registry h b l =
    Grew-trans (some r) (record_of u id) (lookup id registry) (rw h at (Builds-Grew id b)) (
      rw ((load-merged later now u w registry id l).0)
        (merged-Grew (registered_ids later) now id (record_of u id)))

-- A build at `now` that finds a recorded client gone from its configuration: whatever builds follow, with any
-- configurations and clocks, every exchanger that a later build makes refuses the client's credentials that were issued at
-- `now` or before, also where it configures the client again.
pub removed-refused :
    (known : Bytes → Bool) (s t u w : Stored) (configured later : List Bytes) (now now' iat : ℕ)
    (id : Bytes) (r : ClientRecord) (built registry : GoMap ClientRecord)
    → record_of s id ≡ some r
    → r.present ≡ true
    → contains configured id ≡ false
    → load_client_registry false configured now s ≡ (some built, t)
    → Builds t u
    → load_client_registry false later now' u ≡ (some registry, w)
    → 0 < now
    → iat ≤ now
    → veto_subject_kind known (exchanger later registry) id client iat ≡ refused
removed-refused known s t u w configured later now now' iat id r built registry h p c l b k pos
      old =
    let gone : contains (registered_ids configured) id ≡ false =
      ground (arith, contains-registered_ids configured id) in
    let marked : record_of t id
        ≡ some (record { present = false; removed_at = max r.removed_at now }) =
      (load-merged configured now s t built id l).1 ∙ (rw (h) (ground (arith, gone, p))) in
    cutoff_refuses (record { present = false; removed_at = max r.removed_at now }) now iat
      (lookup id registry) known later registry id refl
      (later_record _ id w later now' registry marked b k) (ground arith) pos old

-- A build at `now` that configures a removed client again: it and every later one refuse the client's credentials that were
-- issued at `now` or before.
pub readded-refused :
    (known : Bytes → Bool) (s t u w : Stored) (configured later : List Bytes) (now now' iat : ℕ)
    (id : Bytes) (r : ClientRecord) (built registry : GoMap ClientRecord)
    → record_of s id ≡ some r
    → r.present ≡ false
    → contains (registered_ids configured) id ≡ true
    → load_client_registry false configured now s ≡ (some built, t)
    → Builds t u
    → load_client_registry false later now' u ≡ (some registry, w)
    → 0 < now
    → iat ≤ now
    → (veto_subject_kind known (exchanger configured built) id client iat ≡ refused)
      × (veto_subject_kind known (exchanger later registry) id client iat ≡ refused)
readded-refused known s t u w configured later now now' iat id r built registry h p c l b k pos
      old =
    let back : merged (registered_ids configured) now id (some r)
        ≡ some (record { present = true; removed_at = max r.removed_at now }) =
      ground (arith, c, p) in
    let (own, kept) = load-merged configured now s t built id l in
    (
      cutoff_refuses (record { present = true; removed_at = max r.removed_at now }) now iat
          (some (record { present = true; removed_at = max r.removed_at now })) known configured
          built id (rw (h) at own ∙ back) (omega arith) (ground arith) pos old,
      cutoff_refuses (record { present = true; removed_at = max r.removed_at now }) now iat
          (lookup id registry) known later registry id refl
          (later_record _ id w later now' registry (rw (h) at kept ∙ back) b k) (ground arith) pos
          old,
    )

added-some : (now : ℕ) (o : Option ClientRecord) → (r : ClientRecord) × (added now o ≡ some r)
added-some now none = (record { present = true; removed_at = 0 }, refl)
added-some now (some r) =
    (if r.present then r else record { present = true; removed_at = max r.removed_at now }, refl)

recorded_names :
    (r : ClientRecord) (e : Exchanger) (id : Bytes) (o : Option ClientRecord)
    → lookup id e.client_registry ≡ o
    → Grew (some r) o
    → beq id [] ≡ false
    → names_client e id ≡ true
unfolding names_client
recorded_names r e id none h g n = ground (arith, g)
recorded_names r e id (some q) h g n = rw (names_client, h, n) refl

-- An id that a build has registered names a client for every exchanger that a later build makes: it is classified as a
-- client, and a user's credential for it is refused, whatever is configured then.
pub registered-names_client :
    (known : Bytes → Bool) (s t u w : Stored) (configured later : List Bytes) (now now' iat : ℕ)
    (id : Bytes) (built registry : GoMap ClientRecord)
    → contains (registered_ids configured) id ≡ true
    → load_client_registry false configured now s ≡ (some built, t)
    → Builds t u
    → load_client_registry false later now' u ≡ (some registry, w)
    → (subject_kind_of (exchanger later registry) id ≡ client)
      × (veto_subject_kind known (exchanger later registry) id user iat ≡ refused)
unfolding subject_kind_of veto_subject_kind veto_user
registered-names_client known s t u w configured later now now' iat id built registry c l b k =
    let (r, h) = added-some now (record_of s id) in
    let kept : record_of t id ≡ some r =
      (load-merged configured now s t built id l).1 ∙ (simp c h) in
    let named : names_client (exchanger later registry) id ≡ true =
      recorded_names r (exchanger later registry) id (lookup id registry) refl
        (later_record r id w later now' registry kept b k)
        (ground (arith, contains-registered_ids configured id)) in
    (rw (subject_kind_of, named) refl, rw (veto_user, named) refl)
