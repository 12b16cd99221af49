-- ===== src/Presentation/Runs.antt =====
-- Calls of `get` in sequence.
use msys_core.Common.{◌≡◌, true, Option, List, [], ◌∷◌, arith, pair_eq, inl, inr, Bool-cases}
use msys_core.Common.Int.{ℤ}
use msys_core.Common.Text.{Text, text_eq}
use msys_core.Common.Dict.{get}
use msys_core.Presentation.Cache.{
  CacheKey, PresentationCatalogCache, path_text, init_cache, get_catalog,
}
use msys_core.Presentation.Paths.{is_relative_path}
use msys_core.Value.{Value, str}
use msys_core.Presentation.Recency.{IsBounded, or_loaded, lookup_lem, lookup-IsBounded, lookup-used}

module _ {ℓ} {A : Type ℓ} where
  -- The cache after any calls, each with what its files hold at that time.
  abbrev pub run :
      PresentationCatalogCache A
      → List ((CacheKey → Option A) × (Text × Value))
      → PresentationCatalogCache A
  run cache [] = cache
  run cache ((load, (manifest_path, relative_path)) ∷ calls) =
      run (get_catalog load manifest_path relative_path cache).1 calls

  get_catalog-IsBounded :
      (load : CacheKey → Option A) (manifest_path : Text) (relative_path : Value)
      → (cache : PresentationCatalogCache A) → IsBounded cache
      → IsBounded (get_catalog load manifest_path relative_path cache).1
  unfolding get_catalog
  get_catalog-IsBounded load manifest_path relative_path cache b =
      elim (Bool-cases (is_relative_path relative_path)) [
        | inl valid ↦ rw (valid) (
            lookup-IsBounded (manifest_path, path_text relative_path)
              (load (manifest_path, path_text relative_path)) cache b)
        | inr invalid ↦ rw (invalid) b
      ]

  run_from-IsBounded :
      (cache : PresentationCatalogCache A) (calls : List ((CacheKey → Option A) × (Text × Value)))
      → IsBounded cache
      → IsBounded (run cache calls)
  run_from-IsBounded cache [] b = b
  run_from-IsBounded cache ((load, (manifest_path, relative_path)) ∷ calls) b =
      run_from-IsBounded (get_catalog load manifest_path relative_path cache).1 calls
        (get_catalog-IsBounded load manifest_path relative_path cache b)

  -- After any calls on a new cache, whatever its limit was asked to be, it has room for an entry,
  -- holds at most its limit, and no key twice.
  pub run-IsBounded :
      (limit : ℤ) (calls : List ((CacheKey → Option A) × (Text × Value)))
      → IsBounded (run (init_cache limit) calls)
  unfolding init_cache
  run-IsBounded limit calls =
      run_from-IsBounded (init_cache limit) calls
        (record { room = ground arith; held = ground arith; once = tt })

  -- A second call for a valid path, on a bounded cache, returns what the first one did, whatever
  -- the files hold by then, and changes nothing: a catalog in use is not read again.
  pub get_catalog_again :
      (load later : CacheKey → Option A) (manifest_path relative_path : Text)
      → (cache : PresentationCatalogCache A) → IsBounded cache
      → is_relative_path (str relative_path) ≡ true
      → get_catalog later manifest_path
          (str relative_path)
          (get_catalog load manifest_path (str relative_path) cache).1
        ≡ get_catalog load manifest_path (str relative_path) cache
  unfolding get_catalog
  get_catalog_again load later manifest_path relative_path cache b valid =
      let key : CacheKey = (manifest_path, relative_path) in
      let first = lookup_lem key (load key) cache b in
      rw (valid, first)
        (lookup-used key (or_loaded (load key) (get key cache.entries)) (later key) cache b)
