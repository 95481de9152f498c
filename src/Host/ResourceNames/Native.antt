-- ===== src/Host/ResourceNames/Native.antt =====
-- internal/host/resource_names.go, hostNativeNames: the pages and the functions whose gate the caller passes. The checker's
-- VerifyResourceParsedEntitlements, the requirements it takes and the name of the ready state are parameters.
use host_manager.Base.{
  Bytes, text, beq, Bool, false, not, ◌&&◌, ◌||◌, Option, none, some, List, [], ◌∷◌, ◌++◌, contains,
  if◌then◌else◌,
}
use host_manager.Host.ResourceNames.{ResourceName}

-- A page of the page tree, with its requirements where they are parsed.
pub record TreePage {ℓ} (R : Type ℓ) : Type ℓ where
  pub parsed_requirements : Option R
  pub base_path : Bytes
  pub label : Bytes

pub record FunctionEntry : Type 0 where
  pub internal : Bool
  pub state : Bytes
  pub base_path : Bytes
  pub name : Bytes

-- The names seen and the items collected
pub record Names : Type 0 where
  pub seen : List Bytes
  pub out : List ResourceName

-- add
unfoldable pub add_name : Bytes → Bytes → Names → Names
add_name name label ns = if beq name [] || contains ns.seen name then ns else record {
  seen = ns.seen ++ name ∷ [];
  out = ns.out ++ (record { name = name; label = label }) ∷ [];
}

abbrev pub allows : Option Bool → Bool
allows none = false
allows (some ok) = ok

module _ {ℓ} {R : Type ℓ} (verify : Bytes → Bytes → R → Option Bool) where
  unfoldable pub is_page_visible : TreePage R → Bool
  is_page_visible p = elim p.parsed_requirements [
    | none ↦ false
    | some r ↦ allows (verify (text "pages") p.base_path r)
  ]

  unfoldable pub add_pages : List (TreePage R) → Names → Names
  unfolding add_name is_page_visible
  add_pages [] ns = ns
  add_pages (p ∷ ps) ns =
      add_pages ps (if is_page_visible p then add_name p.base_path p.label ns else ns)

  module _ (nothing_required : R) (ready_state : Bytes) where
    unfoldable pub is_function_visible : FunctionEntry → Bool
    is_function_visible f =
        not f.internal
        && beq f.state ready_state
        && allows (verify (text "functions") f.base_path nothing_required)

    unfoldable pub add_functions : List FunctionEntry → Names → Names
    unfolding add_name is_function_visible
    add_functions [] ns = ns
    add_functions (f ∷ fs) ns =
        add_functions fs (if is_function_visible f then add_name f.base_path f.name ns else ns)

    -- hostNativeNames
    unfoldable pub host_native_names :
        Bytes → List (TreePage R) → List FunctionEntry → List ResourceName
    unfolding add_pages add_functions
    host_native_names resource pages functions =
        let start : Names = record { seen = []; out = [] } in
        if beq resource (text "pages")
        then (add_pages pages start).out
        else if beq resource (text "functions")
        then (add_functions functions start).out
        else []
