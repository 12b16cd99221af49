-- ===== src/Manifest/Samples.antt =====
-- Small manifests, and the theorems at them.
use msys_core.Common.{
  All, Option, Bool, ◌≡◌, ◌↔◌, refl, true, none, some, List, [], ◌∷◌, nat_eq, IsNodup,
}
use msys_core.Common.Int.{ℤ, pos}
use msys_core.Common.Result.{ok}
use msys_core.Common.Text.{Text, codes, text_eq}
use msys_core.Common.Dict.{get, put, keys}
use msys_core.Manifest.Entries.{idle_timeout, idle_value, component_reference, provide, provide_of}
use msys_core.Isolation.Parse.{parse_isolation}
use msys_core.Manifest.Document.{
  each, load_package, load_references, load_isolation, load_head, load_links, load_provides,
  load_component, load_manifest,
}
use msys_core.Manifest.Loaded.{IsLoaded, load_manifest-IsLoaded}
use msys_core.Manifest.Example.{provider}
use msys_core.Manifest.Packages.{
  add_components, add_manifests, add_manifests_iff, entries, concat, update, keep_packages,
  replace_package_components, replace_package_components_lem, or_else, unless_replaced, package_ids,
}
use msys_core.Manifest.Types.{Component, component_key}
use msys_core.Value.{Value, Fields, int, str, list, dict, nil, cons, field, end, truth}

program : Unit {0}
unfolding get put idle_timeout idle_value component_reference provide provide_of add_components
    add_manifests update keep_packages replace_package_components component_key each load_package
    load_references load_isolation load_head load_links load_provides load_component load_manifest
    parse_isolation
program = tt

abbrev to_text : Value → Text
to_text (str t) = t
to_text _ = []

abbrev launcher_entry : Fields
launcher_entry = field (str (codes "idle_timeout_ms")) (int (pos 30000)) end

reference : component_reference to_text (codes "shell") (str (codes "main")) ≡ codes "shell:main"
unfolding program
reference = refl

abbrev shell : List Component
shell = provider (codes "main") [] ∷ provider (codes "panel") [] ∷ []

abbrev upgraded : List Component
upgraded = provider (codes "main") [] ∷ []

add_manifests_iff_example :
    (add_manifests [] (shell ∷ upgraded ∷ []) ≡ ok (entries shell))
    ↔ ((entries shell ≡ entries (concat (shell ∷ upgraded ∷ []))) × IsNodup (keys (entries shell)))
add_manifests_iff_example = add_manifests_iff (shell ∷ upgraded ∷ []) (entries shell)

replace_package_components_lem_example :
    get (codes "shell:panel") (replace_package_components (entries shell) (entries upgraded))
    ≡ or_else (get (codes "shell:panel") (entries upgraded)) (
        unless_replaced
          (package_ids (entries upgraded))
          (get (codes "shell:panel") (entries shell)))
unfolding program
replace_package_components_lem_example =
    replace_package_components_lem (entries shell) (entries upgraded) (codes "shell:panel")
      (refl, (refl, tt)) (refl, tt)

dropped :
    get (codes "shell:panel") (replace_package_components (entries shell) (entries upgraded)) ≡ none
unfolding program
dropped = refl

abbrev to_int : Value → Option ℤ
to_int (int n) = some n
to_int _ = none

abbrev to_dict : Value → Option Fields
to_dict (dict fs) = some fs
to_dict _ = none

abbrev has_constant : Text → Bool
has_constant t = true

abbrev at : Text → Value → Fields → Fields
at t v fs = field (str t) v fs

abbrev main_entry : Value
main_entry = dict (
    at (codes "id") (str (codes "main"))
      (at (codes "exec") (list nil) (at (codes "lifecycle") (str (codes "on-demand")) end)))

abbrev document : Value
document = dict (
    at (codes "schema") (str (codes "msys.manifest.v1")) (
      at (codes "package")
        (dict (at (codes "id") (str (codes "shell")) (at (codes "version") (str (codes "1")) end)))
        (at (codes "components") (list (cons main_entry nil)) end)))

abbrev loaded : List Component
loaded =
    record (provider (codes "main") []) { raw = main_entry; manifest_path = some (codes "m.json") }
    ∷ []

loads : load_manifest to_text to_int to_dict has_constant (codes "m.json") document ≡ ok loaded
unfolding program truth
loads = refl

load_manifest-IsLoaded_example : All (IsLoaded has_constant) loaded
load_manifest-IsLoaded_example =
    load_manifest-IsLoaded to_text to_int to_dict has_constant (codes "m.json") document loads
