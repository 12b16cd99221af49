-- ===== src/Supervisor/Graph/Search.antt =====
-- The search returns its sets as it should, and its fuel is enough.
use msys_core.Common.{
  remove_all_absent, ℕ, zero, suc, ◌≤◌, ◌<◌, ◌≡◌, ◌≢◌, refl, sym, ap, ◌∙◌, subst, true, false, not,
  List, [], ◌∷◌, ◌++◌, all, elem, filter, length, remove_all, arith, IsNodup, Bool-cases,
  Option-cases, inl, inr,
}
use msys_core.Common.Result.{Result, Result-cases, bind-ok, ok_injective, ok, err, ◌>>=◌}
use msys_core.Common.Text.{Text, text_eq, text_beq_iff}
use msys_core.Common.Dict.{get, keys, has-elem-keys}
use msys_core.Manifest.Types.{Components}
use msys_core.Supervisor.Graph.{
  GraphError, out_of_fuel, Visits, ordering_dependencies, Visit, visit_each, enter, leave, visit,
}
use msys_core.Supervisor.Graph.Order.{depends_on, IsOrdered}

module _ (components : Components) where
  -- The keys visited so far make an order, without repetition.
  pub record IsVisited (s : Visits) : Type 0 where
    pub ordered : IsOrdered components s.visited
    pub once : IsNodup s.visited

  -- From `s` to `t` the search comes back to where it was, and visits more.
  pub record Extends (s t : Visits) : Type 0 where
    pub back : t.visiting ≡ s.visiting
    pub visited : IsVisited t
    pub kept : (k : Text) → elem k s.visited ≡ true → elem k t.visited ≡ true
    -- what is being visited is not visited meanwhile
    pub pending : (k : Text) → elem k s.visiting ≡ true → elem k t.visited ≡ elem k s.visited

  Extends-refl : (s : Visits) → IsVisited s → Extends s s
  Extends-refl s h = record { back = refl; visited = h; kept = λ k e. e; pending = λ k e. refl }

  Extends-trans : {s t u : Visits} → Extends s t → Extends t u → Extends s u
  Extends-trans {s} {t} {u} f g = record {
    back = g.back ∙ f.back;
    visited = g.visited;
    kept = λ k e. g.kept k (f.kept k e);
    pending = λ k e. g.pending k (subst (λ v. elem k v ≡ true) (sym f.back) e) ∙ f.pending k e;
  }

  -- One call of a visit that extends its state, and visits its key.
  abbrev Extending : (Text → Visit) → Type 0
  Extending visit_one =
      (d : Text) (s t : Visits)
      → IsVisited s
      → visit_one d s ≡ ok t
      → Extends s t × (elem d t.visited ≡ true)

  pub visit_each-Extends :
      (visit_one : Text → Visit)
      → Extending visit_one
      → (ds : List Text) (s t : Visits) → IsVisited s
      → visit_each visit_one ds s ≡ ok t
      → Extends s t × (all (λ d. elem d t.visited) ds ≡ true)
  unfolding visit_each
  visit_each-Extends visit_one f [] s t h e =
      subst (λ u. Extends s u × (true ≡ true)) (ok_injective e) (Extends-refl s h, refl)
  visit_each-Extends visit_one f (d ∷ ds) s t h e =
      let (u, e1, e2) = bind-ok (visit_one d s) _ e in
      let (first, here) = f d s u h e1 in
      let (rest, there) = visit_each-Extends visit_one f ds u t first.visited e2 in
      (Extends-trans first rest, ground (arith, rest.kept d here))

  abbrev pub inner : ℕ → List Text → Text → Text → Visit
  inner fuel path key = visit components fuel (path ++ (key ∷ []))

  -- A call that returns a new state has visited what the key depends on.
  visit_new :
      (fuel : ℕ) (path : List Text) (key : Text) (s t : Visits)
      → elem key s.visiting ≡ false
      → elem key s.visited ≡ false
      → visit components (suc fuel) path key s ≡ ok t
      → (u : Visits) × (visit_each (inner fuel path key) (depends_on components key) (enter key s)
          ≡ ok u)
        × (leave key u ≡ t)
  unfolding visit
  visit_new fuel path key s t free new e = elim (Option-cases (get key components)) [
    | inl n ↦ absurd (ground arith)
    | inr (c, k) ↦
        let h : (visit_each (inner fuel path key) (ordering_dependencies components c) (enter key s)
              >>= λ u. ok (leave key u))
            ≡ ok t =
          rw (free, new, k, visit) at e in
        let (u, e1, e2) =
          bind-ok
            (visit_each (inner fuel path key) (ordering_dependencies components c) (enter key s)) _
            h in
        (u, rw (k, depends_on) e1, ok_injective e2)
  ]

  leave-Extends :
      (key : Text) (s u : Visits)
      → elem key s.visiting ≡ false
      → elem key s.visited ≡ false
      → Extends (enter key s) u
      → all (λ d. elem d u.visited) (depends_on components key) ≡ true
      → Extends s (leave key u)
  leave-Extends key s u free new f deps = record {
    back =
        ap (remove_all key) f.back
        ∙ ground (arith, text_beq_iff key key, remove_all_absent key s.visiting free);
    visited = record {
      ordered = (deps, f.visited.ordered);
      once = ground (arith, f.pending key, text_beq_iff key key, f.visited.once);
    };
    kept = λ k e. ground (arith, f.kept k e);
    pending = λ k e. ground (arith, f.pending k, text_beq_iff key k);
  }

  pub visit-Extends : (fuel : ℕ) (path : List Text) → Extending (visit components fuel path)
  unfolding visit
  visit-Extends zero path key s t h e = cc
  visit-Extends (suc fuel) path key s t h e = elim (Bool-cases (elem key s.visiting)) [
    | inl busy ↦ absurd (ground arith)
    | inr free ↦ elim (Bool-cases (elem key s.visited)) [
      | inl old ↦
          let same : s ≡ t = ground arith in
          subst (λ u. Extends s u × (elem key u.visited ≡ true)) same (Extends-refl s h, old)
      | inr new ↦
          let (u, e1, same) = visit_new fuel path key s t free new e in
          let (f, deps) =
            visit_each-Extends (inner fuel path key) (visit-Extends fuel (path ++ (key ∷ [])))
              (depends_on components key) (enter key s) u
              (record { ordered = h.ordered; once = h.once }) e1 in
          subst (λ v. Extends s v × (elem key v.visited ≡ true)) same
            (leave-Extends key s u free new f deps, ground (arith, text_beq_iff key key))
    ]
  ]

  -- How many components are not being visited.
  abbrev pub free_among : List Text → List Text → ℕ
  free_among visiting ks = length (filter (λ k. not (elem k visiting)) ks)

  free_more :
      (key : Text) (visiting ks : List Text)
      → free_among (key ∷ visiting) ks ≤ free_among visiting ks
  free_more key visiting [] = omega arith
  free_more key visiting (k ∷ ks) = ground (arith, free_more key visiting ks)

  pub free_fewer :
      (key : Text) (visiting ks : List Text)
      → elem key ks ≡ true
      → elem key visiting ≡ false
      → free_among (key ∷ visiting) ks < free_among visiting ks
  free_fewer key visiting [] p q = cc
  free_fewer key visiting (k ∷ ks) p q = ground (
    arith,
    free_more key visiting ks,
    free_fewer key visiting ks,
    text_beq_iff k key,
    text_beq_iff key k,
  )

  -- Only so many visits are open that the fuel lasts.
  abbrev Lasting : ℕ → List Text → (Text → Visit) → Type 0
  Lasting fuel visiting visit_one =
      (d : Text) (s : Visits)
      → IsVisited s
      → s.visiting ≡ visiting
      → visit_one d s ≢ err out_of_fuel

  pub visit_each_lasts :
      (visiting : List Text) (fuel : ℕ) (visit_one : Text → Visit)
      → Extending visit_one
      → Lasting fuel visiting visit_one
      → (ds : List Text) (s : Visits) → IsVisited s
      → s.visiting ≡ visiting
      → visit_each visit_one ds s ≢ err out_of_fuel
  unfolding visit_each
  visit_each_lasts visiting fuel visit_one f l [] s h same = λ e. cc
  visit_each_lasts visiting fuel visit_one f l (d ∷ ds) s h same =
      elim (Result-cases (visit_one d s)) [
        | inl (t, e) ↦
            let (first, here) = f d s t h e in
            rw (e, visit_each)
              (visit_each_lasts visiting fuel visit_one f l ds t first.visited (first.back ∙ same))
        | inr (x, e) ↦ λ k. l d s h same (ground arith)
      ]

  leaves_lasting :
      (key : Text) (m : Result GraphError Visits)
      → m ≢ err out_of_fuel
      → (m >>= λ u. ok (leave key u)) ≢ err out_of_fuel
  leaves_lasting key (ok u) h = λ e. cc
  leaves_lasting key (err x) h = λ e. h (ground arith)

  -- The fuel is enough for any catalog, with cycles or without.
  pub visit_lasts :
      (fuel : ℕ) (path visiting : List Text)
      → free_among visiting (keys components) < fuel
      → Lasting fuel visiting (visit components fuel path)
  unfolding visit
  visit_lasts zero path visiting low key s h same = absurd (omega (arith, low))
  visit_lasts (suc fuel) path visiting low key s h same = elim (Bool-cases (elem key s.visiting)) [
    | inl busy ↦ rw (busy, visit) (λ e. cc)
    | inr free ↦ elim (Bool-cases (elem key s.visited)) [
      | inl old ↦ rw (free, old, visit) (λ e. cc)
      | inr new ↦ elim (Option-cases (get key components)) [
        | inl n ↦ rw (free, new, n, visit) (λ e. cc)
        | inr (c, k) ↦
            let known : elem key (keys components) ≡ true =
              ground (arith, has-elem-keys key components, k) in
            let absent : elem key visiting ≡ false = subst (λ v. elem key v ≡ false) same free in
            let fewer = free_fewer key visiting (keys components) known absent in
            let deep =
              visit_each_lasts (key ∷ visiting) fuel (inner fuel path key)
                (visit-Extends fuel (path ++ (key ∷ [])))
                (visit_lasts fuel (path ++ (key ∷ [])) (key ∷ visiting) (omega arith))
                (ordering_dependencies components c) (enter key s)
                (record { ordered = h.ordered; once = h.once }) (ap (◌∷◌ key) same) in
            rw (free, new, k, visit) (leaves_lasting key _ deep)
      ]
    ]
  ]

  pub length-filter_all : (ks : List Text) → free_among [] ks ≡ length ks
  length-filter_all [] = refl
  length-filter_all (k ∷ ks) = ground (arith, length-filter_all ks)
