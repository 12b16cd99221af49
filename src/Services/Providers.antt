-- ===== src/Services/Providers.antt =====
-- The providers of a service in a built catalog, and the one that a call gets.
use msys_core.Common.{
  ◌≡◌, ◌≢◌, refl, sym, ◌∙◌, Bool, true, false, Option, none, some, List, [], ◌∷◌, map, arith, find,
  all, IsNodup, pair_eq, ◌⊎◌, inl, inr, Option-cases,
}
use msys_core.Common.Result.{Result, ok, err}
use msys_core.Common.Text.{Text, text_eq}
use msys_core.Common.Dict.{Dict, get, put, keys, values, get-put, keys-put-IsNodup}
use msys_core.Common.Sorting.{sorted, insert_sorted, IsSorted, sorted-IsSorted, sorted-IsNodup}
use msys_core.Manifest.Types.{Component, Components, Provide}
use msys_core.Services.{
  ServiceError, unknown_service, unknown_provider, ServiceProvider, ServiceKey, Folded,
  is_service_kind, or_empty, merge_provider, provider_of, fold_provide, fold_provides,
  fold_components, before, build, checked_kind, providers, get_provider,
}
use msys_core.Services.Folding.{collected, summary, provides_of, collected_lem}
use msys_core.Services.Catalog.{
  before_total, before_trans, component_of, is_component, find-sorted, find-values,
  components-values, IsNamed, get-order_all,
}

abbrev is_filled : Option (Dict Text ServiceProvider) → Bool
is_filled none = true
is_filled (some []) = false
is_filled (some (x ∷ d)) = true

-- A service is collected with at least one component, and with no component twice.
record IsClean (f : Folded) : Type 0 where
  once : (key : ServiceKey) → IsNodup (keys (or_empty (get key f)))
  filled : (key : ServiceKey) → is_filled (get key f) ≡ true

put-is_filled :
    (k : Text) (v : ServiceProvider) (d : Dict Text ServiceProvider)
    → is_filled (some (put k v d)) ≡ true
unfolding put
put-is_filled k v [] = refl
put-is_filled k v ((j, w) ∷ d) = ground arith

fold_provide-IsClean :
    (cid : Text) (f : Folded) (p : Provide) → IsClean f → IsClean (fold_provide cid f p)
unfolding fold_provide
fold_provide-IsClean cid f p h =
    let old = or_empty (get (p.kind, p.name) f) in
    let new = merge_provider (get cid old) (provider_of cid p) in
    record {
      once = λ key. ground (
        arith,
        get-put (p.kind, p.name) key (put cid new old) f,
        keys-put-IsNodup cid new old,
        h.once key,
        h.once (p.kind, p.name),
      );
      filled = λ key. ground (
        arith,
        get-put (p.kind, p.name) key (put cid new old) f,
        put-is_filled cid new old,
        h.filled key,
      );
    }

fold_provides-IsClean :
    (cid : Text) (f : Folded) (ps : List Provide) → IsClean f → IsClean (fold_provides cid f ps)
unfolding fold_provides
fold_provides-IsClean cid f [] h = h
fold_provides-IsClean cid f (p ∷ ps) h =
    fold_provides-IsClean cid (fold_provide cid f p) ps (fold_provide-IsClean cid f p h)

fold_components-IsClean :
    (f : Folded) (components : Components) → IsClean f → IsClean (fold_components f components)
unfolding fold_components
fold_components-IsClean f [] h = h
fold_components-IsClean f ((k, c) ∷ rest) h =
    fold_components-IsClean (fold_provides k f c.provides) rest
      (fold_provides-IsClean k f c.provides h)

empty-IsClean : IsClean []
unfolding get
empty-IsClean = record { once = λ key. tt; filled = λ key. refl }

abbrev pub or_refused : ServiceError → Option ServiceProvider → Result ServiceError ServiceProvider
or_refused e none = err e
or_refused e (some p) = ok p

-- The providers of a service, against the provides of the components.
pub record IsCatalogued (components : Components) (kind name : Text) (found : List ServiceProvider)
    : Type 0 where
  -- by descending priority, then by component id, each component once
  pub sorted_providers : IsSorted before found
  pub once : IsNodup (map component_of found)
  -- a component is found exactly when it provides the service, with its provides folded
  pub complete :
      (pid : Text)
      → find (is_component pid) found
        ≡ summary (kind, name) pid (provides_of (kind, name) (get pid components))
  pub nonempty : found ≢ []

insert_nonempty : (a : ServiceProvider) (xs : List ServiceProvider) → insert_sorted before a xs ≢ []
unfolding insert_sorted
insert_nonempty a [] = λ e. cc
insert_nonempty a (x ∷ xs) = λ e. ground arith

get_nil : (pid : Text) → get {V = ServiceProvider} pid [] ≡ none
unfolding get
get_nil pid = refl

sorted_nonempty :
    (d : Dict Text ServiceProvider) → is_filled (some d) ≡ true → sorted before (values d) ≢ []
unfolding sorted
sorted_nonempty [] h = cc
sorted_nonempty ((k, v) ∷ d) h = insert_nonempty v (sorted before (values d))

module _ (components : Components) (distinct : IsNodup (keys components)) (kind name : Text)
    (valid : is_service_kind kind ≡ true) where
  clean : IsClean (fold_components [] components)
  clean = fold_components-IsClean [] components empty-IsClean

  summary_named :
      (pid : Text) (c : Option Component) (s : ServiceProvider)
      → summary (kind, name) pid (provides_of (kind, name) c) ≡ some s
      → s.component ≡ pid
  summary_named pid c s e = go (provides_of (kind, name) c) e
    where
      go : (ps : List Provide) → summary (kind, name) pid ps ≡ some s → s.component ≡ pid
      go [] e = cc
      go (p ∷ ps) e = ground arith

  entry-IsCatalogued :
      (d : Dict Text ServiceProvider)
      → get (kind, name) (fold_components [] components) ≡ some d
      → IsCatalogued components kind name (sorted before (values d))
  unfolding collected
  entry-IsCatalogued d e =
      let per_component : (pid : Text)
          → get pid d ≡ summary (kind, name) pid (provides_of (kind, name) (get pid components)) =
        λ pid. ground (arith, collected_lem kind name pid valid components distinct) in
      let n : IsNodup (keys d) = ground (arith, clean.once (kind, name)) in
      let named : IsNamed d =
        λ pid s g. summary_named pid (get pid components) s (sym (per_component pid) ∙ g) in
      let once : IsNodup (map component_of (values d)) = rw (components-values d n named) n in
      record {
        sorted_providers = sorted-IsSorted before before_total before_trans (values d);
        once = sorted-IsNodup before component_of (values d) once;
        complete =
            λ pid. find-sorted pid (values d) once ∙ find-values pid d n named ∙ per_component pid;
        nonempty = sorted_nonempty d (ground (arith, clean.filled (kind, name)));
      }

  -- A service of a valid kind in the catalog of components with distinct ids: either no component
  -- provides it, and it is unknown; or its providers are the components that provide it.
  pub providers_lem :
      ((providers (build components) kind name ≡ err (unknown_service kind name))
        × ((pid : Text)
            → summary (kind, name) pid (provides_of (kind, name) (get pid components)) ≡ none))
      ⊎ ((found : List ServiceProvider) × (providers (build components) kind name ≡ ok found)
          × IsCatalogued components kind name found)
  unfolding providers build checked_kind collected
  providers_lem = elim (Option-cases (get (kind, name) (fold_components [] components))) [
    | inl e ↦ inl (
      ground (arith, get-order_all (kind, name) (fold_components [] components)),
      λ pid. ground (arith, collected_lem kind name pid valid components distinct, get_nil pid),
    )
    | inr (d, e) ↦ inr (
      sorted before (values d),
      ground (arith, get-order_all (kind, name) (fold_components [] components)),
      entry-IsCatalogued d e,
    )
  ]

  -- The default of `get_provider`, for a service of a valid kind and components with distinct ids:
  -- it returns a provider, before all others of the service in the order by priority and id, or
  -- the service is unknown. It raises nothing else.
  pub get_provider_default :
      ((get_provider (build components) kind name none ≡ err (unknown_service kind name))
        × ((pid : Text)
            → summary (kind, name) pid (provides_of (kind, name) (get pid components)) ≡ none))
      ⊎ ((p : ServiceProvider) × (rest : List ServiceProvider) × (get_provider
              (build components)
              kind
              name
              none
            ≡ ok p)
          × (all (before p) rest ≡ true)
          × IsCatalogued components kind name (p ∷ rest))
  unfolding get_provider
  get_provider_default = elim providers_lem [
    | inl (e, n) ↦ inl (rw (e, get_provider) refl, n)
    | inr (found, e, c) ↦ inr (first found e c)
  ]
    where
      first :
          (found : List ServiceProvider)
          → providers (build components) kind name ≡ ok found
          → IsCatalogued components kind name found
          → (p : ServiceProvider) × (rest : List ServiceProvider) × (get_provider
                (build components)
                kind
                name
                none
              ≡ ok p)
            × (all (before p) rest ≡ true)
            × IsCatalogued components kind name (p ∷ rest)
      first [] e c = absurd (c.nonempty refl)
      first (p ∷ rest) e c = (p, rest, rw (e, get_provider) refl, c.sorted_providers.0, c)

  -- A named component of a known service is found exactly when it provides the service, and what
  -- is returned has its highest priority; else the component is refused, or the service unknown.
  pub get_provider_named :
      (pid : Text)
      → ((get_provider (build components) kind name (some pid) ≡ err (unknown_service kind name))
          × ((q : Text)
              → summary (kind, name) q (provides_of (kind, name) (get q components)) ≡ none))
        ⊎ (get_provider (build components) kind name (some pid)
            ≡ or_refused
                (unknown_provider pid kind name)
                (summary (kind, name) pid (provides_of (kind, name) (get pid components))))
  unfolding get_provider
  get_provider_named pid = elim providers_lem [
    | inl (e, n) ↦ inl (rw (e, get_provider) refl, n)
    | inr (found, e, c) ↦ inr (rw (e, get_provider) (ground (arith, c.complete pid)))
  ]
