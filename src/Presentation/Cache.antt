-- ===== src/Presentation/Cache.antt =====
-- `PresentationCatalogCache`: the entries in the order of their use, oldest first. A catalog that
-- could not be loaded is an entry as well. Loading reads the package's files, which may change: it
-- is an argument of each call. `A` stands for the catalogs.
use Prim.Native.Nat.{max}
use msys_core.Common.{ℕ, not, Option, none, some, [], ◌∷◌, leb, length, pair_eq, if◌then◌else◌}
use msys_core.Common.Int.{ℤ, pos_part}
use msys_core.Common.Text.{Text, text_eq}
use msys_core.Common.Dict.{Dict, get, put, remove}
use msys_core.Presentation.Paths.{is_relative_path}
use msys_core.Value.{Value, str}

-- The absolute path of the manifest, and the path of the catalog.
abbrev pub CacheKey : Type 0
CacheKey = Text × Text

pub record PresentationCatalogCache {ℓ} (A : Type ℓ) : Type ℓ where
  pub limit : ℕ
  pub entries : Dict CacheKey (Option A)

abbrev pub path_text : Value → Text
path_text (str t) = t
path_text _ = []

module _ {ℓ} {A : Type ℓ} where
  -- `__init__`
  unfoldable pub init_cache : ℤ → PresentationCatalogCache A
  init_cache limit = record { limit = max 1 (pos_part limit); entries = [] }

  -- The loop that pops the oldest entries.
  unfoldable pub evict : ℕ → Dict CacheKey (Option A) → Dict CacheKey (Option A)
  evict limit [] = []
  evict limit (entry ∷ rest) =
      let shorter = evict limit rest in
      if leb (length (entry ∷ rest)) limit then entry ∷ rest else shorter

  -- A key that is in the cache becomes the most recent one.
  unfoldable pub refresh : CacheKey → Option A → Dict CacheKey (Option A) → Dict CacheKey (Option A)
  refresh key value entries = put key value (remove key entries)

  unfoldable pub lookup :
      CacheKey → Option A → PresentationCatalogCache A → Option A × PresentationCatalogCache A
  unfolding refresh evict
  lookup key loaded cache = elim (get key cache.entries) [
    | some value ↦ (value, record cache { entries = refresh key value cache.entries })
    | none ↦ (loaded, record cache { entries = evict cache.limit (put key loaded cache.entries) })
  ]

  -- `get`, where `load` is what loading the catalog of a key gives at the time of the call.
  unfoldable pub get_catalog :
      (CacheKey → Option A)
      → Text
      → Value
      → PresentationCatalogCache A
      → Option A × PresentationCatalogCache A
  unfolding lookup
  get_catalog load manifest_path relative_path cache =
      if not (is_relative_path relative_path)
      then (none, cache)
      else (let key : CacheKey = (manifest_path, path_text relative_path) in
          lookup key (load key) cache)
