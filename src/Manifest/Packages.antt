-- ===== src/Manifest/Packages.antt =====
-- The component sets of several manifests: no id is declared twice, and a package is replaced as a
-- whole.
use mathlib.Core.List.{append-nil, append_assoc}
use msys_core.Common.{
  ◌≡◌, refl, sym, ap, ◌∙◌, subst, ◌↔◌, true, false, ◌||◌, Option, none, some, List, [], ◌∷◌, ◌++◌,
  map, arith, elem, if◌then◌else◌, Bool-cases, inl, inr, IsNodup,
}
use msys_core.Common.Result.{Result, Result-cases, ok, err, ◌>>=◌}
use msys_core.Common.Text.{Text, text_beq_iff, text_eq}
use msys_core.Common.Dict.{
  get, put, keys, values, has, put_new, get-put, keys-put-IsNodup, has-elem-keys,
}
use msys_core.Manifest.Types.{Component, Components, component_key}
use msys_core.Manifest.Entries.{ManifestError, duplicate_component}

-- The loop over the components of one manifest.
unfoldable pub add_components : Components → List Component → Result ManifestError Components
add_components result [] = ok result
add_components result (c ∷ cs) = elim (has (component_key c) result) [
  | true ↦ err (duplicate_component (component_key c))
  | false ↦ add_components (put (component_key c) c result) cs
]

-- `load_manifests` and `load_manifest_paths`, from the components of each manifest in turn.
unfoldable pub add_manifests : Components → List (List Component) → Result ManifestError Components
add_manifests result [] = ok result
add_manifests result (m ∷ ms) = do result' ← add_components result m; add_manifests result' ms

-- `result.update(replacements)`
unfoldable pub update : Components → Components → Components
update result [] = result
update result ((k, c) ∷ rest) = update (put k c result) rest

abbrev pub package_ids : Components → List Text
package_ids replacements = map (λ c. c.package_id) (values replacements)

-- The base without the packages that are replaced.
unfoldable pub keep_packages : List Text → Components → Components
keep_packages ids [] = []
keep_packages ids ((k, c) ∷ rest) =
    let later = keep_packages ids rest in if elem c.package_id ids then later else (k, c) ∷ later

unfoldable pub replace_package_components : Components → Components → Components
unfolding update keep_packages
replace_package_components base replacements =
    update (keep_packages (package_ids replacements) base) replacements

abbrev pub unless_replaced : List Text → Option Component → Option Component
unless_replaced ids none = none
unless_replaced ids (some c) = if elem c.package_id ids then none else some c

abbrev pub or_else : Option Component → Option Component → Option Component
or_else none b = b
or_else (some a) b = some a

get-keep_packages :
    (ids : List Text) (key : Text) (base : Components)
    → IsNodup (keys base)
    → get key (keep_packages ids base) ≡ unless_replaced ids (get key base)
unfolding keep_packages get
get-keep_packages ids key [] h = refl
get-keep_packages ids key ((k, c) ∷ base) h =
    ground (arith, get-keep_packages ids key base h.1, has-elem-keys key base, text_beq_iff k key)

get-update :
    (key : Text) (result replacements : Components)
    → IsNodup (keys replacements)
    → get key (update result replacements) ≡ or_else (get key replacements) (get key result)
unfolding update get
get-update key result [] h = refl
get-update key result ((k, c) ∷ rest) h = ground (
  arith,
  get-update key (put k c result) rest h.1,
  get-put k key c result,
  has-elem-keys key rest,
  text_beq_iff k key,
)

-- With distinct ids on both sides, a component of the merged set is the replacement under its id,
-- or, where there is none, the one of the base whose package is not replaced: a component that the
-- new manifest of its package dropped is gone.
pub replace_package_components_lem :
    (base replacements : Components) (key : Text)
    → IsNodup (keys base)
    → IsNodup (keys replacements)
    → get key (replace_package_components base replacements)
      ≡ or_else (get key replacements) (unless_replaced (package_ids replacements) (get key base))
unfolding replace_package_components
replace_package_components_lem base replacements key h k = ground (
  arith,
  get-update key (keep_packages (package_ids replacements) base) replacements k,
  get-keep_packages (package_ids replacements) key base h,
)

-- The components of all manifests, in order.
abbrev pub concat : List (List Component) → List Component
concat [] = []
concat (m ∷ ms) = m ++ concat ms

abbrev pub entries : List Component → Components
entries = map (λ c. (component_key c, c))

elem-keys-append :
    (k : Text) (d e : Components) → elem k (keys (d ++ e)) ≡ (elem k (keys d) || elem k (keys e))
elem-keys-append k [] e = refl
elem-keys-append k ((j, x) ∷ d) e = ground (arith, elem-keys-append k d e)

key_is_new :
    (k : Text) (c : Component) (d rest : Components)
    → IsNodup (keys (d ++ ((k, c) ∷ rest)))
    → has k d ≡ false
unfolding get
key_is_new k c [] rest h = refl
key_is_new k c ((j, x) ∷ d) rest h = ground (
  arith,
  key_is_new k c d rest h.1,
  elem-keys-append j d ((k, c) ∷ rest),
  text_beq_iff j k,
  text_beq_iff k j,
)

-- Read from a start with distinct keys, the components follow it, with distinct keys.
accepted :
    (start : Components) (cs : List Component) {r : Components}
    → IsNodup (keys start)
    → add_components start cs ≡ ok r
    → (r ≡ start ++ entries cs) × IsNodup (keys r)
unfolding add_components
accepted start [] {r} h e =
    let same : start ≡ r = ground arith in
    (sym same ∙ sym (append-nil start), subst (λ d. IsNodup (keys d)) same h)
accepted start (c ∷ cs) {r} h e = elim (Bool-cases (has (component_key c) start)) [
  | inl old ↦ absurd (ground arith)
  | inr new ↦
      let (same, distinct) =
        accepted (put (component_key c) c start) cs (keys-put-IsNodup (component_key c) c start h)
          (ground arith) in
      (
        same
            ∙ ap (λ d. d ++ entries cs) (put_new (component_key c) c start new)
            ∙ append_assoc start ((component_key c, c) ∷ []) (entries cs),
        distinct,
      )
]

reads :
    (start : Components) (cs : List Component)
    → IsNodup (keys (start ++ entries cs))
    → add_components start cs ≡ ok (start ++ entries cs)
unfolding add_components
reads start [] h = ap ok (sym (append-nil start))
reads start (c ∷ cs) h =
    let new = key_is_new (component_key c) c start (entries cs) h in
    let again = append_assoc start ((component_key c, c) ∷ []) (entries cs) in
    rw (new, add_components, put_new (component_key c) c start new)
      (reads (start ++ ((component_key c, c) ∷ [])) cs (subst (λ d. IsNodup (keys d)) (sym again) h)
        ∙ ap ok again)

add_components-append :
    (start : Components) (m n : List Component)
    → add_components start (m ++ n) ≡ (add_components start m >>= λ r. add_components r n)
unfolding add_components
add_components-append start [] n = refl
add_components-append start (c ∷ m) n = elim (Bool-cases (has (component_key c) start)) [
  | inl old ↦ rw (old, add_components) refl
  | inr new ↦ rw (new, add_components) (add_components-append (put (component_key c) c start) m n)
]

add_manifests-concat :
    (start : Components) (ms : List (List Component))
    → add_manifests start ms ≡ add_components start (concat ms)
unfolding add_manifests
add_manifests-concat start [] = unfold add_components in refl
add_manifests-concat start (m ∷ ms) = elim (Result-cases (add_components start m)) [
  | inl (r, e) ↦ rw (add_components-append start m (concat ms), e) (add_manifests-concat r ms)
  | inr (x, e) ↦ rw (add_components-append start m (concat ms), e) refl
]

-- Manifests are loaded exactly when no two of their components have the same id, and the result
-- holds the components of all of them in order.
pub add_manifests_iff :
    (ms : List (List Component)) (r : Components)
    → (add_manifests [] ms ≡ ok r) ↔ ((r ≡ entries (concat ms)) × IsNodup (keys r))
add_manifests_iff ms r = (
  λ h. accepted [] (concat ms) tt (sym (add_manifests-concat [] ms) ∙ h),
  λ (same, distinct).
      add_manifests-concat [] ms
      ∙ reads [] (concat ms) (subst (λ d. IsNodup (keys d)) same distinct)
      ∙ ap ok (sym same),
)
