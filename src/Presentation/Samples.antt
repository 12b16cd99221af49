-- ===== src/Presentation/Samples.antt =====
-- A cache of one entry, a chain of locales, and the theorems at them.
use msys_core.Common.{
  ℕ, ◌≡◌, refl, ◌||◌, Option, some, List, [], ◌∷◌, length, elem, head?, pair_eq, IsNodup,
}
use msys_core.Common.Int.{negsuc}
use msys_core.Common.Text.{Text, codes, text_eq, text_beq}
use msys_core.Common.Dict.{Dict, get, put, remove}
use msys_core.Presentation.Cache.{
  CacheKey, PresentationCatalogCache, init_cache, evict, refresh, lookup, get_catalog,
}
use msys_core.Presentation.Chains.{locale_chain_lem}
use msys_core.Presentation.Locales.{parent, climb, chain_from, locale_chain, first_message}
use msys_core.Presentation.Parents.{is_ancestor}
use msys_core.Presentation.Paths.{at_segment, is_relative_path}
use msys_core.Presentation.Recency.{IsBounded, lookup_lem, or_loaded, used}
use msys_core.Presentation.Runs.{run, run-IsBounded}
use msys_core.Value.{Value, str, null}

program : Unit {0}
unfolding get put remove init_cache evict refresh lookup get_catalog parent climb chain_from
    locale_chain first_message at_segment is_relative_path
program = tt

abbrev path : Text
path = codes "i18n/names.json"

abbrev shell : Text
shell = codes "/opt/shell/manifest.json"

abbrev files : CacheKey → Option ℕ
files key = some (length key.0)

abbrev calls : List ((CacheKey → Option ℕ) × (Text × Value))
calls = (files, (shell, str path)) ∷ (files, (codes "/m", str path)) ∷ (files, (shell, null)) ∷ []

abbrev new_cache : PresentationCatalogCache ℕ
new_cache = init_cache (negsuc 3)

evicted : run new_cache calls ≡ record { limit = 1; entries = ((codes "/m", path), some 2) ∷ [] }
unfolding program
evicted = refl

run-IsBounded_example : IsBounded (run new_cache calls)
run-IsBounded_example = run-IsBounded (negsuc 3) calls

new_cache-IsBounded : IsBounded new_cache
new_cache-IsBounded = run-IsBounded (negsuc 3) []

lookup_lem_example : lookup (shell, path) (some 7) (run new_cache calls) ≡ (
  or_loaded (some 7) (get (shell, path) (run new_cache calls).entries),
  used
      (shell, path)
      (or_loaded (some 7) (get (shell, path) (run new_cache calls).entries))
      (run new_cache calls),
)
lookup_lem_example =
    lookup_lem (shell, path) (some 7) (run new_cache calls) (run-IsBounded (negsuc 3) calls)

abbrev asked_locale : Option Text
asked_locale = some (codes "zh-Hant-TW")

chain :
    locale_chain asked_locale (codes "en")
    ≡ codes "zh-Hant-TW" ∷ codes "zh-Hant" ∷ codes "zh" ∷ codes "en" ∷ []
unfolding program
chain = refl

locale_chain_lem_example :
    IsNodup (locale_chain asked_locale (codes "en"))
    × (head? (locale_chain asked_locale (codes "en")) ≡ some (codes "zh-Hant-TW"))
    × ((l : Text)
        → elem l (locale_chain asked_locale (codes "en"))
          ≡ (is_ancestor l (codes "zh-Hant-TW") || text_beq l (codes "en")))
locale_chain_lem_example = locale_chain_lem asked_locale (codes "en")

abbrev messages : Dict Text (Dict Text Text)
messages =
    (codes "zh-Hant", (codes "name", []) ∷ [])
    ∷ (codes "zh", (codes "name", codes "Shell") ∷ [])
    ∷ []

abbrev tried : List Text
tried = codes "zh-Hant" ∷ codes "zh" ∷ codes "en" ∷ []

found : first_message messages (codes "name") tried ≡ some (codes "Shell")
unfolding program
found = refl
