-- ===== src/Examples/Clients.antt =====
-- Builds of the client registry: the client blue is removed and configured again.
use host_manager.Base.{
  ℕ, Bytes, text, beq, has_prefix, GoMap, lookup, insert, ◌≡◌, refl, Bool, true, false, some, [],
  ◌∷◌, contains, arith,
}
use host_manager.Auth.ClientRegistry.{
  ClientRecord, registered_ids, stored, absent, load_client_registry, merge_client_registry,
  add_all, mark_removed, dropped_ids, add_configured,
}
use host_manager.Auth.ClientRegistry.Builds.{record_of, here}
use host_manager.Auth.SubjectKind.{
  client, subject_kind_of, veto_subject_kind, refused, names_client, veto_client, veto_user,
  client_removed_at,
}
use host_manager.Auth.SubjectKind.Revival.{exchanger, removed-refused}

program : Unit {0}
unfolding beq has_prefix lookup insert registered_ids load_client_registry merge_client_registry
    add_all mark_removed dropped_ids add_configured subject_kind_of veto_subject_kind names_client
    veto_client veto_user client_removed_at
program = tt

abbrev blue : Bytes
blue = text "blue"

abbrev none_known : Bytes → Bool
none_known k = false

abbrev held : Bool → ℕ → GoMap ClientRecord
held there at = (blue, record { present = there; removed_at = at }) ∷ []

blue_gone :
    load_client_registry false [] 10 (stored (held true 0))
    ≡ (some (held false 10), stored (held false 10))
unfolding program
blue_gone = refl

blue_back :
    load_client_registry false (blue ∷ []) 20 (stored (held false 10))
    ≡ (some (held true 20), stored (held true 20))
unfolding program
blue_back = refl

blue_kept :
    load_client_registry false (blue ∷ []) 30 (stored (held true 20))
    ≡ (some (held true 20), stored (held true 20))
unfolding program
blue_kept = refl

blue_new :
    load_client_registry false (blue ∷ []) 10 absent ≡ (some (held true 0), stored (held true 0))
unfolding program
blue_new = refl

blue_recorded :
    (b : Bool) (at : ℕ)
    → record_of (stored (held b at)) blue ≡ some (record { present = b; removed_at = at })
unfolding program
blue_recorded b at = refl

blue_registered : contains (registered_ids (blue ∷ [])) blue ≡ true
unfolding program
blue_registered = refl

removed-refused_example :
    veto_subject_kind none_known (exchanger (blue ∷ []) (held true 20)) blue client 10 ≡ refused
removed-refused_example =
    removed-refused none_known (stored (held true 0)) (stored (held false 10))
      (stored (held false 10)) (stored (held true 20)) [] (blue ∷ []) 10 20 10 blue
      (record { present = true; removed_at = 0 }) (held false 10) (held true 20)
      (blue_recorded true 0) refl refl blue_gone here blue_back (omega arith) (omega arith)
