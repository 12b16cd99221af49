-- ===== src/Services/Samples.antt =====
-- The catalog of two components that provide one interface, and the theorems at it.
use msys_core.Common.{ℕ, ◌≡◌, ◌⊎◌, refl, false, none, some, List, [], ◌∷◌}
use msys_core.Common.Int.{pos}
use msys_core.Common.Result.{ok, err}
use msys_core.Common.Text.{Text, codes, text_eq}
use msys_core.Common.Dict.{get, put}
use msys_core.Common.Sorting.{sorted}
use msys_core.Manifest.Example.{provider}
use msys_core.Manifest.Types.{Components, Provide}
use msys_core.Services.{
  ServiceProvider, unknown_service, unknown_provider, build, fold_components, fold_provides,
  fold_provide, order_all, merge_provider, providers, checked_kind, choose_provider, get_provider,
  names, provider_ids, before, is_service_kind,
}
use msys_core.Services.Folding.{summary, provides_of, highest}
use msys_core.Services.Providers.{IsCatalogued, providers_lem}

program : Unit {0}
unfolding get put sorted build fold_components fold_provides fold_provide order_all merge_provider
    providers checked_kind is_service_kind before choose_provider get_provider names provider_ids
    highest
program = tt

abbrev interface : Text
interface = codes "interface"

abbrev audio : Text
audio = codes "audio"

abbrev mixer : Text
mixer = codes "mixer:main"

abbrev beeper : Text
beeper = codes "beeper:main"

abbrev audio_provide : ℕ → Provide
audio_provide n = record { kind = interface; name = audio; exclusive = false; priority = pos n }

abbrev components : Components
components =
    (beeper, provider (codes "beeper") (audio_provide 2 ∷ []))
    ∷ (mixer, provider (codes "mixer") (audio_provide 1 ∷ audio_provide 7 ∷ []))
    ∷ []

mixer_provider : ServiceProvider
mixer_provider = record {
  kind = interface;
  name = audio;
  component = mixer;
  priority = pos 7;
  exclusive = false;
}

built :
    (provider_ids (build components) interface audio ≡ ok (mixer ∷ beeper ∷ []))
    × (names (build components) interface ≡ ok (audio ∷ []))
    × (get_provider (build components) interface audio (some audio)
        ≡ err (unknown_provider audio interface audio))
unfolding program
built = (refl, refl, refl)

providers_lem_example :
    ((providers (build components) interface audio ≡ err (unknown_service interface audio))
      × ((pid : Text)
          → summary (interface, audio) pid (provides_of (interface, audio) (get pid components))
            ≡ none))
    ⊎ ((found : List ServiceProvider) × (providers (build components) interface audio ≡ ok found)
        × IsCatalogued components interface audio found)
unfolding program
providers_lem_example = providers_lem components (refl, (refl, tt)) interface audio refl
