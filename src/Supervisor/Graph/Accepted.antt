-- ===== src/Supervisor/Graph/Accepted.antt =====
-- What `_validate_dependency_graph` accepts: catalogs that can be put in order.
use msys_core.Common.{
  ℕ, zero, suc, ◌<◌, ◌≡◌, ◌≢◌, ◌↔◌, refl, sym, ap, ◌∙◌, subst, true, false, not, List, [], ◌∷◌,
  ◌++◌, all, elem, filter, length, length-map, arith, IsNodup, ◌==◌, Bool-cases, Option-cases, inl,
  inr,
}
use msys_core.Common.Result.{Result, Result-cases, bind-ok, ok, err}
use msys_core.Common.Text.{Text, text_eq, text_beq_iff}
use msys_core.Common.Dict.{get, has, keys, has-elem-keys}
use msys_core.Manifest.Types.{Components}
use msys_core.Supervisor.Graph.{
  GraphError, out_of_fuel, requires_missing, Visits, check_requires, ordering_dependencies, Visit,
  visit_each, enter, leave, visit, no_visits, validate_dependency_graph,
}
use msys_core.Supervisor.Graph.Closed.{
  are_closed, check_requires-closed, closed-check_requires, closed_at, all-append, all-filter,
}
use msys_core.Supervisor.Graph.Order.{
  depends_on, IsOrdered, after, elem_of_all, after_irrefl, after_trans, depends_after,
}
use msys_core.Supervisor.Graph.Search.{
  IsVisited, visit-Extends, visit_each-Extends, visit_each_lasts, visit_lasts, free_among,
  free_fewer, length-filter_all,
}

-- A list of all components in which each stands before what it requires or comes after.
pub record IsStartOrder (components : Components) (order : List Text) : Type 0 where
  pub ordered : IsOrdered components order
  pub once : IsNodup order
  pub covers : all (λ k. elem k order) (keys components) ≡ true

module _ (components : Components) where
  abbrev fuel_of : ℕ
  fuel_of = suc (length components)

  abbrev visit_all : Result GraphError Visits
  visit_all = visit_each (visit components fuel_of []) (keys components) no_visits

  start : IsVisited components no_visits
  start = record { ordered = tt; once = tt }

  free_at_start : free_among components [] (keys components) < fuel_of
  free_at_start =
      omega
        (arith, length-filter_all components (keys components), length-map (λ e. e.0) components)

  visits_end : visit_all ≢ err out_of_fuel
  visits_end =
      visit_each_lasts components [] fuel_of (visit components fuel_of [])
        (visit-Extends components fuel_of []) (visit_lasts components fuel_of [] [] free_at_start)
        (keys components) no_visits start refl

  requires_error : (checked : Components) → check_requires components checked ≢ err out_of_fuel
  unfolding check_requires
  requires_error [] = λ h. cc
  requires_error ((key, c) ∷ checked) =
      elim (filter (λ d. not (has d components)) c.requires)
        as (λ ms.
          (elim ms [
            | [] ↦ check_requires components checked
            | m ∷ ms ↦ err (requires_missing key (m ∷ ms))
          ])
          ≢ err out_of_fuel) [ [] ↦ requires_error checked | m ∷ ms ↦ λ h. cc ]

  -- The search always ends, on any catalog: the fuel of the model never runs out.
  pub validate_ends : validate_dependency_graph components ≢ err out_of_fuel
  unfolding validate_dependency_graph
  validate_ends = elim (Result-cases (check_requires components components)) [
    | inr (x, e) ↦ λ h. requires_error components (ground arith)
    | inl (u, e) ↦ elim (Result-cases visit_all) [
      | inl (t, f) ↦ λ h. absurd (ground arith)
      | inr (x, f) ↦ λ h. visits_end (ground arith)
    ]
  ]

  -- From here on, a catalog that has an order.
  module _ (order : List Text) (good : IsStartOrder components order)
      (closed : are_closed components components ≡ true) where
    -- A key that stands after all that are being visited.
    abbrev Deeper : Text → List Text → Type 0
    Deeper key visiting = (v : Text) → elem v visiting ≡ true → elem key (after v order) ≡ true

    Deeper-free :
        (key : Text) (visiting : List Text) → Deeper key visiting → elem key visiting ≡ false
    Deeper-free key visiting deep = elim (Bool-cases (elem key visiting)) [
      | inl busy ↦ absurd (ground (arith, deep key busy, after_irrefl key order good.once))
      | inr free ↦ free
    ]

    covered : (key : Text) → has key components ≡ true → elem key order ≡ true
    covered key h =
        elem_of_all (λ k. elem k order) key (keys components) good.covers
          (ground (arith, has-elem-keys key components))

    deps_known : (key : Text) → all (λ d. has d components) (depends_on components key) ≡ true
    deps_known key = elim (Option-cases (get key components)) [
      | inl n ↦ rw (n, depends_on) refl
      | inr (c, k) ↦
          rw (k, depends_on)
            (ground (
              arith,
              all-append (λ d. has d components) c.requires
                  (filter (λ d. has d components) c.after),
              all-filter (λ d. has d components) c.after,
              closed_at components components key {c = c} closed k,
            ))
    ]

    deps-Deeper :
        (key d : Text) (visiting : List Text)
        → has key components ≡ true
        → Deeper key visiting
        → elem d (depends_on components key) ≡ true
        → Deeper d (key ∷ visiting)
    deps-Deeper key d visiting h deep p v q =
        let next = depends_after components key d order good.ordered (covered key h) p in
        elim (Bool-cases (key == v)) [
          | inl same ↦ subst (λ w. elem d (after w order) ≡ true) ((text_beq_iff key v).0 same) next
          | inr other ↦ after_trans v key d order good.once (deep v (ground arith)) next
        ]

    abbrev Returning : (visiting : List Text) → (Text → Visit) → Type 0
    Returning visiting visit_one =
        (d : Text) (s : Visits)
        → IsVisited components s
        → s.visiting ≡ visiting
        → has d components ≡ true
        → Deeper d visiting
        → (t : Visits) × (visit_one d s ≡ ok t)

    visit_each_returns :
        (visiting : List Text) (fuel : ℕ) (path : List Text)
        → Returning visiting (visit components fuel path)
        → (ds : List Text) (s : Visits) → IsVisited components s
        → s.visiting ≡ visiting
        → all (λ d. has d components) ds ≡ true
        → ((d : Text) → elem d ds ≡ true → Deeper d visiting)
        → (t : Visits) × (visit_each (visit components fuel path) ds s ≡ ok t)
    unfolding visit_each
    visit_each_returns visiting fuel path f [] s h same known deep = (s, refl)
    visit_each_returns visiting fuel path f (d ∷ ds) s h same known deep =
        let (t, e) = f d s h same (ground arith) (deep d (ground (arith, text_beq_iff d d))) in
        let (first, here) = visit-Extends components fuel path d s t h e in
        let (u, k) =
          visit_each_returns visiting fuel path f ds t first.visited (first.back ∙ same)
            (ground arith) (λ x q. deep x (ground arith)) in
        (u, rw (e, visit_each) k)

    visit_returns :
        (fuel : ℕ) (path visiting : List Text)
        → free_among components visiting (keys components) < fuel
        → Returning visiting (visit components fuel path)
    unfolding visit
    visit_returns zero path visiting low d s h same known deep = absurd (omega (arith, low))
    visit_returns (suc fuel) path visiting low key s h same known deep =
        let absent = Deeper-free key visiting deep in
        let free : elem key s.visiting ≡ false = rw (same) absent in
        elim (Bool-cases (elem key s.visited)) [
          | inl old ↦ (s, rw (free, old, visit) refl)
          | inr new ↦ elim (Option-cases (get key components)) [
            | inl n ↦ absurd (ground arith)
            | inr (c, k) ↦
                let fewer =
                  free_fewer components key visiting (keys components)
                    (ground (arith, has-elem-keys key components)) absent in
                let deps : depends_on components key ≡ ordering_dependencies components c =
                  rw (k, depends_on) refl in
                let (u, e) =
                  visit_each_returns (key ∷ visiting) fuel (path ++ (key ∷ []))
                    (visit_returns fuel (path ++ (key ∷ [])) (key ∷ visiting) (omega arith))
                    (depends_on components key) (enter key s)
                    (record { ordered = h.ordered; once = h.once }) (ap (◌∷◌ key) same)
                    (deps_known key) (λ d p. deps-Deeper key d visiting known deep p) in
                (leave key u, rw (free, new, k, visit, sym deps, e) refl)
          ]
        ]

    all_known :
        (ks : List Text)
        → ((k : Text) → elem k ks ≡ true → has k components ≡ true)
        → all (λ k. has k components) ks ≡ true
    all_known [] h = refl
    all_known (k ∷ ks) h =
        ground
          (arith, h k (ground (arith, text_beq_iff k k)), all_known ks (λ j p. h j (ground arith)))

    returned : (t : Visits) × (visit_all ≡ ok t)
    returned =
        visit_each_returns [] fuel_of [] (visit_returns fuel_of [] [] free_at_start)
          (keys components) no_visits start refl
          (all_known (keys components) (λ k p. ground (arith, has-elem-keys k components)))
          (λ d p v q. cc)

  -- A catalog is accepted exactly when every required component is there, and some list of all
  -- components, none twice, has each before those that it requires or comes after: read from its
  -- end, an order to start them in.
  pub validate_dependency_graph_iff : (validate_dependency_graph components ≡ ok tt) ↔ (
      (are_closed components components ≡ true)
      × (order : List Text) × IsStartOrder components order)
  unfolding validate_dependency_graph
  validate_dependency_graph_iff = (
    λ h.
        let (u, e1, h1) = bind-ok (check_requires components components) _ h in
        let (t, e2, h2) = bind-ok visit_all _ h1 in
        let (f, covers) =
          visit_each-Extends components (visit components fuel_of [])
            (visit-Extends components fuel_of []) (keys components) no_visits t start e2 in
        (
          check_requires-closed components components e1,
          t.visited,
          record { ordered = f.visited.ordered; once = f.visited.once; covers = covers },
        ),
    λ (closed, order, good).
        let (t, e) = returned order good closed in
        rw (closed-check_requires components components closed, e) refl,
  )
