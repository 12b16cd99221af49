-- ===== src/Manifest/Loaded.antt =====
-- What `load_manifest` guarantees of every component that it returns.
use msys_core.Common.{
  ℕ, ◌≤◌, ◌≡◌, refl, subst, Bool, true, not, ◌&&◌, Option, some, List, [], ◌∷◌, map, All, all, elem,
  nat_eq, elem-append, arith,
}
use msys_core.Common.Int.{ℤ, pos}
use msys_core.Common.Result.{Result, ok, err, require, bind-ok, ok_injective}
use msys_core.Common.Text.{Text, codes}
use msys_core.Isolation.Accepted.{IsSound, parse_isolation-IsSound}
use msys_core.Isolation.Parse.{parse_isolation}
use msys_core.Isolation.Spec.{IsolationSpec}
use msys_core.Manifest.Document.{
  DocumentError, Loaded, lift_error, entry_error, isolation_error, declared_twice, as_dict, item,
  iterate, each, Package, Head, Links, lifecycle_of, load_head, load_links, load_provides, mapping,
  as_integer, load_package, load_references, load_isolation, load_component, load_manifest,
  not_manifest,
}
use msys_core.Manifest.Entries.{component_reference, colon, idle_timeout, idle_timeout_iff}
use msys_core.Manifest.Types.{Component}
use msys_core.Value.{Value, Fields, null, int, list, dict, nil, end, get_or, has_field, is_str}

pub record IsLoaded (has_constant : Text → Bool) (c : Component) : Type 0 where
  pub sound_isolation : IsSound has_constant c.isolation
  pub global_requires : all (elem colon) c.requires ≡ true
  pub global_wants : all (elem colon) c.wants ≡ true
  pub global_after : all (elem colon) c.after ≡ true
  pub bounded_idle :
      (n : ℕ)
      → c.idle_timeout_ms ≡ some n
      → (c.lifecycle ≡ codes "on-demand") × (1000 ≤ n) × (n ≤ 86400000)

lift_error-ok {ℓ κ} :
    {E : Type ℓ} {A : Type κ} (f : E → DocumentError) (r : Result E A) {a : A}
    → lift_error f r ≡ ok a
    → r ≡ ok a
lift_error-ok f (ok b) h = cc
lift_error-ok f (err x) h = cc

each-All {ℓ κ μ} :
    {A : Type ℓ} {B : Type κ} (P : B → Type μ) (f : A → Loaded B)
    → ((x : A) (y : B) → f x ≡ ok y → P y)
    → (xs : List A) {ys : List B} → each f xs ≡ ok ys
    → All P ys
unfolding each
each-All P f each_ok [] h = subst (λ ys. All P ys) (ok_injective h) tt
each-All P f each_ok (x ∷ xs) h =
    let (y, e1, h1) = bind-ok (f x) _ h in
    let (ys, e2, h2) = bind-ok (each f xs) _ h1 in
    subst (λ zs. All P zs) (ok_injective h2) (each_ok x y e1, each-All P f each_ok xs e2)

module _ (to_text : Value → Text) (to_int : Value → Option ℤ) (to_dict : Value → Option Fields)
    (has_constant : Text → Bool) where
  references_global :
      (package_id : Text) (vs : List Value)
      → all (elem colon) (map (component_reference to_text package_id) vs) ≡ true
  unfolding component_reference
  references_global package_id [] = refl
  references_global package_id (v ∷ vs) =
      ground
        (arith, elem-append colon package_id (colon ∷ to_text v), references_global package_id vs)

  load_references-global :
      (package_id t : Text) (raw : Fields) {ts : List Text}
      → load_references to_text to_int to_dict has_constant package_id t raw ≡ ok ts
      → all (elem colon) ts ≡ true
  unfolding load_references
  load_references-global package_id t raw h =
      let (vs, e1, h1) = bind-ok (iterate (get_or t (list nil) raw)) _ h in
      subst (λ ts. all (elem colon) ts ≡ true) (ok_injective h1) (references_global package_id vs)

  load_isolation-IsSound :
      (raw : Fields) {spec : IsolationSpec}
      → load_isolation to_text to_int to_dict has_constant raw ≡ ok spec
      → IsSound has_constant spec
  unfolding load_isolation
  load_isolation-IsSound raw h =
      let (u, e1, h1) =
        bind-ok
          (require
            (not (has_field (codes "isolation") raw && has_field (codes "x-msys-isolation") raw))
            declared_twice)
          _ h in
      let value = get_or (codes "isolation") (get_or (codes "x-msys-isolation") null raw) raw in
      parse_isolation-IsSound to_text has_constant value
        (lift_error-ok isolation_error (parse_isolation to_text has_constant value) h1)

  load_head-IsSound :
      (pkg : Package) (raw : Fields) {head : Head}
      → load_head to_text to_int to_dict has_constant pkg raw ≡ ok head
      → IsSound has_constant head.isolation
        × (idle_timeout raw (lifecycle_of to_text to_int to_dict has_constant raw)
            ≡ ok head.idle_timeout_ms)
  unfolding load_head
  load_head-IsSound pkg raw h =
      let (isolation, e2, h2) =
        bind-ok (load_isolation to_text to_int to_dict has_constant raw) _ h in
      let (icons, e3, h3) = bind-ok (iterate (get_or (codes "icons") (list nil) pkg.fields)) _ h2 in
      let (id, e4, h4) = bind-ok (item (codes "id") raw) _ h3 in
      let (exec, e5, h5) = bind-ok (item (codes "exec") raw) _ h4 in
      let (args, e6, h6) = bind-ok (iterate exec) _ h5 in
      let timeout = idle_timeout raw (lifecycle_of to_text to_int to_dict has_constant raw) in
      let (idle, e7, h7) = bind-ok (lift_error entry_error timeout) _ h6 in
      subst (λ head. IsSound has_constant head.isolation × (timeout ≡ ok head.idle_timeout_ms))
        (ok_injective h7) (load_isolation-IsSound raw e2, lift_error-ok entry_error timeout e7)

  load_links-global :
      (package_id : Text) (raw : Fields) {links : Links}
      → load_links to_text to_int to_dict has_constant package_id raw ≡ ok links
      → (all (elem colon) links.requires ≡ true)
        × (all (elem colon) links.wants ≡ true)
        × (all (elem colon) links.after ≡ true)
  unfolding load_links
  load_links-global package_id raw h =
      let (requires, e1, h1) =
        bind-ok
          (load_references to_text to_int to_dict has_constant package_id (codes "requires") raw) _
          h in
      let (wants, e2, h2) =
        bind-ok (load_references to_text to_int to_dict has_constant package_id (codes "wants") raw)
          _ h1 in
      let (after, e3, h3) =
        bind-ok (load_references to_text to_int to_dict has_constant package_id (codes "after") raw)
          _ h2 in
      subst
        (λ links.
          (all (elem colon) links.requires ≡ true)
          × (all (elem colon) links.wants ≡ true)
          × (all (elem colon) links.after ≡ true))
        (ok_injective h3)
        (
          load_references-global package_id (codes "requires") raw e1,
          load_references-global package_id (codes "wants") raw e2,
          load_references-global package_id (codes "after") raw e3,
        )

  load_component-IsLoaded :
      (path : Text) (pkg : Package) (value : Value) {c : Component}
      → load_component to_text to_int to_dict has_constant path pkg value ≡ ok c
      → IsLoaded has_constant c
  unfolding load_component
  load_component-IsLoaded path pkg value h =
      let (raw, e1, h1) = bind-ok (as_dict value) _ h in
      let (head, e2, h2) = bind-ok (load_head to_text to_int to_dict has_constant pkg raw) _ h1 in
      let (env, e3, h3) = bind-ok (as_dict (get_or (codes "env") (dict end) raw)) _ h2 in
      let (readiness, e4, h4) =
        bind-ok (as_dict (get_or (codes "readiness") (dict end) raw)) _ h3 in
      let (timeout_ms, e5, h5) =
        bind-ok
          (as_integer to_text to_int to_dict has_constant
            (get_or (codes "timeout_ms") (int (pos 5000)) readiness))
          _ h4 in
      let (provides, e6, h6) =
        bind-ok (load_provides to_text to_int to_dict has_constant raw) _ h5 in
      let (links, e7, h7) =
        bind-ok (load_links to_text to_int to_dict has_constant pkg.id raw) _ h6 in
      let (windowing, e8, h8) =
        bind-ok (mapping to_text to_int to_dict has_constant (codes "windowing") raw) _ h7 in
      let (activation, e9, h9) =
        bind-ok (mapping to_text to_int to_dict has_constant (codes "activation") raw) _ h8 in
      let (permissions, e10, h10) =
        bind-ok (iterate (get_or (codes "permissions") (list nil) raw)) _ h9 in
      let (sound, timeout) = load_head-IsSound pkg raw e2 in
      let (requires, wants, after) = load_links-global pkg.id raw e7 in
      subst (λ c. IsLoaded has_constant c) (ok_injective h10)
        (record {
          sound_isolation = sound;
          global_requires = requires;
          global_wants = wants;
          global_after = after;
          bounded_idle = λ n same.
              (let declared : idle_timeout raw
                      (lifecycle_of to_text to_int to_dict has_constant raw)
                    ≡ ok (some n) =
                  subst
                    (λ m.
                      idle_timeout raw (lifecycle_of to_text to_int to_dict has_constant raw)
                      ≡ ok m)
                    same timeout in
                let (field, on_demand, low, high) =
                  (idle_timeout_iff raw (lifecycle_of to_text to_int to_dict has_constant raw) n).0
                    declared in
                (on_demand, low, high));
        })

  -- Every component of a manifest that loads has a sound isolation request, refers to others by
  -- global ids only, and an idle timeout from a second to a day only if it is on-demand.
  pub load_manifest-IsLoaded :
      (path : Text) (document : Value) {components : List Component}
      → load_manifest to_text to_int to_dict has_constant path document ≡ ok components
      → All (IsLoaded has_constant) components
  unfolding load_manifest
  load_manifest-IsLoaded path document h =
      let (data_, e1, h1) = bind-ok (as_dict document) _ h in
      let (u, e2, h2) =
        bind-ok
          (require (is_str (codes "msys.manifest.v1") (get_or (codes "schema") null data_))
            not_manifest)
          _ h1 in
      let (pkg, e3, h3) = bind-ok (load_package to_text to_int to_dict has_constant data_) _ h2 in
      let (values, e4, h4) =
        bind-ok (iterate (get_or (codes "components") (list nil) data_)) _ h3 in
      each-All (IsLoaded has_constant) (load_component to_text to_int to_dict has_constant path pkg)
        (λ value c. load_component-IsLoaded path pkg value) values h4
