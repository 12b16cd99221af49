-- ===== src/Presentation/Recency.antt =====
-- The cache holds the catalogs used last: bounds, order, and what a second call returns.
use msys_core.Common.{
  ℕ, suc, ◌≤◌, ◌<◌, ◌≡◌, refl, ap, ◌∙◌, subst, false, Option, none, some, [], ◌∷◌, ◌++◌, ltb,
  length, arith, pair_eq, if◌then◌else◌, IsNodup, inl, inr, Option-cases, Bool-cases, length-append,
  is_some,
}
use msys_core.Common.Text.{text_eq}
use msys_core.Common.Dict.{
  Dict, get, put, remove, has, keys, put_new, get-last, remove-last, length-remove, has-remove,
  keys-remove-IsNodup, keys-put-IsNodup,
}
use msys_core.Presentation.Cache.{CacheKey, PresentationCatalogCache, evict, refresh, lookup}

module _ {ℓ} {A : Type ℓ} where
  -- At most `limit` entries, at least one of them possible, and no key twice.
  pub record IsBounded (cache : PresentationCatalogCache A) : Type ℓ where
    pub room : 1 ≤ cache.limit
    pub held : length cache.entries ≤ cache.limit
    pub once : IsNodup (keys cache.entries)

  abbrev drop_oldest : Dict CacheKey (Option A) → Dict CacheKey (Option A)
  drop_oldest [] = []
  drop_oldest (entry ∷ rest) = rest

  -- The entries that stay before the one that is used.
  abbrev pub others : CacheKey → PresentationCatalogCache A → Dict CacheKey (Option A)
  others key cache =
      if has key cache.entries
      then remove key cache.entries
      else if ltb (length cache.entries) cache.limit
      then cache.entries
      else drop_oldest cache.entries

  abbrev pub or_loaded : Option A → Option (Option A) → Option A
  or_loaded loaded none = loaded
  or_loaded loaded (some value) = value

  abbrev pub used : CacheKey → Option A → PresentationCatalogCache A → PresentationCatalogCache A
  used key value cache = record cache { entries = others key cache ++ ((key, value) ∷ []) }

  evict_low : (limit : ℕ) (d : Dict CacheKey (Option A)) → length d ≤ limit → evict limit d ≡ d
  unfolding evict
  evict_low limit [] h = refl
  evict_low limit (entry ∷ rest) h = ground arith

  evict_full :
      (limit : ℕ) (d : Dict CacheKey (Option A))
      → length d ≡ suc limit
      → evict limit d ≡ drop_oldest d
  unfolding evict
  evict_full limit [] h = refl
  evict_full limit (entry ∷ rest) h = ground (arith, evict_low limit rest)

  drop_oldest-append :
      (d : Dict CacheKey (Option A)) (key : CacheKey) (value : Option A)
      → 1 ≤ length d
      → drop_oldest (d ++ ((key, value) ∷ [])) ≡ drop_oldest d ++ ((key, value) ∷ [])
  drop_oldest-append [] key value h = absurd (omega (arith, h))
  drop_oldest-append (entry ∷ rest) key value h = refl

  evicted :
      (key : CacheKey) (loaded : Option A) (cache : PresentationCatalogCache A)
      → IsBounded cache
      → get key cache.entries ≡ none
      → evict cache.limit (put key loaded cache.entries)
        ≡ (if ltb (length cache.entries) cache.limit
            then cache.entries
            else drop_oldest cache.entries)
          ++ ((key, loaded) ∷ [])
  evicted key loaded cache b e =
      let last = put_new key loaded cache.entries (ap is_some e) in
      let size = length-append cache.entries ((key, loaded) ∷ []) in
      elim (Bool-cases (ltb (length cache.entries) cache.limit)) [
        | inl low ↦
            rw (last, low)
              (evict_low cache.limit (cache.entries ++ ((key, loaded) ∷ [])) (ground (arith, size)))
        | inr full ↦
            rw (last, full)
              (evict_full cache.limit (cache.entries ++ ((key, loaded) ∷ []))
                  (ground (arith, size, b.held))
                ∙ drop_oldest-append cache.entries key loaded (ground (arith, b.room)))
      ]

  -- A lookup in a bounded cache answers with the entry of the key, or, without one, with what is
  -- loaded; the key and its answer come last, after the other entries in their order, from which
  -- only a new key in a full cache takes the oldest.
  pub lookup_lem :
      (key : CacheKey) (loaded : Option A) (cache : PresentationCatalogCache A)
      → IsBounded cache
      → lookup key loaded cache ≡ (
        or_loaded loaded (get key cache.entries),
        used key (or_loaded loaded (get key cache.entries)) cache,
      )
  unfolding lookup refresh
  lookup_lem key loaded cache b = elim (Option-cases (get key cache.entries)) [
    | inl e ↦
        rw (e, lookup)
          (ap (λ d. (loaded, record cache { entries = d })) (evicted key loaded cache b e))
    | inr (value, e) ↦
        rw (e, lookup)
          (ap (λ d. (value, record cache { entries = d }))
            (put_new key value (remove key cache.entries) (has-remove key cache.entries b.once)))
  ]

  has-drop_oldest :
      (key : CacheKey) (d : Dict CacheKey (Option A))
      → has key d ≡ false
      → has key (drop_oldest d) ≡ false
  unfolding get
  has-drop_oldest key [] h = refl
  has-drop_oldest key ((k, v) ∷ d) h = ground arith

  length-drop_oldest :
      (limit : ℕ) (d : Dict CacheKey (Option A))
      → 1 ≤ limit
      → length d ≤ limit
      → length (drop_oldest d) < limit
  length-drop_oldest limit [] p h = omega (arith, p)
  length-drop_oldest limit (entry ∷ d) p h = omega (arith, h)

  drop_oldest-IsNodup :
      (d : Dict CacheKey (Option A)) → IsNodup (keys d) → IsNodup (keys (drop_oldest d))
  drop_oldest-IsNodup [] h = tt
  drop_oldest-IsNodup (entry ∷ d) h = h.1

  -- What the entries before the used one are like.
  record IsRest (key : CacheKey) (limit : ℕ) (d : Dict CacheKey (Option A)) : Type ℓ where
    fresh : has key d ≡ false
    below : length d < limit
    single : IsNodup (keys d)

  others-IsRest :
      (key : CacheKey) (cache : PresentationCatalogCache A)
      → IsBounded cache
      → IsRest key cache.limit (others key cache)
  others-IsRest key cache b = elim (Bool-cases (has key cache.entries)) [
    | inl old ↦ rw (old) (record {
      fresh = has-remove key cache.entries b.once;
      below = ground (arith, length-remove key cache.entries old, b.held);
      single = keys-remove-IsNodup key cache.entries b.once;
    })
    | inr new ↦ elim (Bool-cases (ltb (length cache.entries) cache.limit)) [
      | inl low ↦ rw (new, low) (record { fresh = new; below = ground arith; single = b.once })
      | inr full ↦
          rw (new, full)
            (record {
              fresh = has-drop_oldest key cache.entries new;
              below = length-drop_oldest cache.limit cache.entries b.room b.held;
              single = drop_oldest-IsNodup cache.entries b.once;
            })
    ]
  ]

  used-IsBounded :
      (key : CacheKey) (value : Option A) (cache : PresentationCatalogCache A)
      → IsBounded cache
      → IsBounded (used key value cache)
  used-IsBounded key value cache b =
      let rest = others-IsRest key cache b in
      record {
        room = b.room;
        held = ground (arith, length-append (others key cache) ((key, value) ∷ []), rest.below);
        once =
            subst (λ d. IsNodup (keys d)) (put_new key value (others key cache) rest.fresh)
              (keys-put-IsNodup key value (others key cache) rest.single);
      }

  pub lookup-IsBounded :
      (key : CacheKey) (loaded : Option A) (cache : PresentationCatalogCache A)
      → IsBounded cache
      → IsBounded (lookup key loaded cache).1
  lookup-IsBounded key loaded cache b =
      rw (lookup_lem key loaded cache b)
        (used-IsBounded key (or_loaded loaded (get key cache.entries)) cache b)

  -- Used again, a key gives the same value, whatever would be loaded then, and nothing changes.
  pub lookup-used :
      (key : CacheKey) (value loaded : Option A) (cache : PresentationCatalogCache A)
      → IsBounded cache
      → lookup key loaded (used key value cache) ≡ (value, used key value cache)
  unfolding lookup refresh
  lookup-used key value loaded cache b =
      let rest = others-IsRest key cache b in
      rw (get-last key value (others key cache) rest.fresh, lookup)
        (ap (λ d. (value, record cache { entries = d }))
          (ap (put key value) (remove-last key value (others key cache) rest.fresh)
            ∙ put_new key value (others key cache) rest.fresh))
