-- ===== src/Manifest/Entries.antt =====
-- The entries of one component: its provides, its references and its idle timeout. `to_text` and
-- `to_int` are Python's `str` and `int` on JSON values; `int` may raise.
use msys_core.Common.{
  ℕ, ◌≤◌, ◌≡◌, refl, ◌↔◌, Bool, true, false, not, ◌&&◌, Option, none, some, ◌∷◌, ◌++◌, arith, leb,
  elem, if◌then◌else◌, elem-append, nat_eq,
}
use msys_core.Common.Int.{ℤ, pos, negsuc}
use msys_core.Common.Result.{Result, ok, err}
use msys_core.Common.Text.{Text, codes, text_beq, text_beq_iff}
use msys_core.Manifest.Types.{Provide}
use msys_core.Value.{Value, bool, int, str, Fields, get_field, get_or, truth}

pub data ManifestError : Type 0 where
  unknown_provide not_an_integer : ManifestError
  idle_not_integer idle_out_of_range idle_not_on_demand : ManifestError
  duplicate_component : Text → ManifestError

-- `idle_timeout_ms`, in milliseconds: a second to a day
abbrev pub min_idle_timeout_ms : ℕ
min_idle_timeout_ms = 1000

abbrev pub max_idle_timeout_ms : ℕ
max_idle_timeout_ms = 86400000

abbrev pub colon : ℕ
colon = b':'

module _ (to_text : Value → Text) (to_int : Value → Option ℤ) where
  -- A provide of a kind, with the kind's default for `exclusive`.
  unfoldable pub provide_of : Text → Bool → Fields → Value → Result ManifestError Provide
  provide_of kind exclusive raw name = elim (to_int (get_or (codes "priority") (int (pos 0)) raw)) [
    | none ↦ err not_an_integer
    | some priority ↦ ok (record {
      kind = kind;
      name = to_text name;
      exclusive = truth (get_or (codes "exclusive") (bool exclusive) raw);
      priority = priority;
    })
  ]

  -- `_provide`
  unfoldable pub provide : Fields → Result ManifestError Provide
  unfolding provide_of
  provide raw = elim (get_field (codes "role") raw) [
    | some name ↦ provide_of (codes "role") true raw name
    | none ↦ elim (get_field (codes "interface") raw) [
      | some name ↦ provide_of (codes "interface") false raw name
      | none ↦ elim (get_field (codes "capability") raw) [
        | some name ↦ provide_of (codes "capability") false raw name
        | none ↦ err unknown_provide
      ]
    ]
  ]

module _ (to_text : Value → Text) where
  -- `_component_reference`
  unfoldable pub component_reference : Text → Value → Text
  component_reference package_id value =
      let reference = to_text value in
      if elem colon reference then reference else package_id ++ (colon ∷ reference)

  -- Where `str` leaves strings as they are, a reference is global, and stays as it is when it is
  -- normalised again, for any package.
  pub component_reference_lem :
      ((t : Text) → to_text (str t) ≡ t)
      → (package_id other : Text) (value : Value)
      → (elem colon (component_reference package_id value) ≡ true)
        × (component_reference other (str (component_reference package_id value))
            ≡ component_reference package_id value)
  unfolding component_reference
  component_reference_lem same package_id other value = ground (
    arith,
    elem-append colon package_id (colon ∷ to_text value),
    same (to_text value),
    same (package_id ++ (colon ∷ to_text value)),
  )

-- The checks on a declared timeout.
unfoldable pub idle_value : Value → Text → Result ManifestError (Option ℕ)
idle_value (int (pos n)) lifecycle =
    if not (leb min_idle_timeout_ms n && leb n max_idle_timeout_ms)
    then err idle_out_of_range
    else if not (text_beq lifecycle (codes "on-demand"))
    then err idle_not_on_demand
    else ok (some n)
idle_value (int (negsuc n)) lifecycle = err idle_out_of_range
idle_value _ lifecycle = err idle_not_integer

-- `_idle_timeout`
unfoldable pub idle_timeout : Fields → Text → Result ManifestError (Option ℕ)
idle_timeout raw lifecycle = elim (get_field (codes "idle_timeout_ms") raw) [
  | none ↦ ok none
  | some value ↦ idle_value value lifecycle
]

-- A timeout is accepted exactly where it is declared as an integer from a second to a day, for an
-- on-demand component.
pub idle_timeout_iff :
    (raw : Fields) (lifecycle : Text) (n : ℕ)
    → (idle_timeout raw lifecycle ≡ ok (some n)) ↔ (
        (get_field (codes "idle_timeout_ms") raw ≡ some (int (pos n)))
        × (lifecycle ≡ codes "on-demand")
        × (1000 ≤ n)
        × (n ≤ 86400000))
unfolding idle_timeout idle_value
idle_timeout_iff raw lifecycle n = (
  λ h. accepted (get_field (codes "idle_timeout_ms") raw) refl h,
  λ (e, on_demand, low, high). ground (arith, text_beq_iff lifecycle (codes "on-demand")),
)
  where
    accepted :
        (declared : Option Value)
        → get_field (codes "idle_timeout_ms") raw ≡ declared
        → idle_timeout raw lifecycle ≡ ok (some n)
        → (get_field (codes "idle_timeout_ms") raw ≡ some (int (pos n)))
          × (lifecycle ≡ codes "on-demand")
          × (1000 ≤ n)
          × (n ≤ 86400000)
    accepted none e h = absurd (ground arith)
    accepted (some (int (pos m))) e h = ground (arith, text_beq_iff lifecycle (codes "on-demand"))
    accepted (some (int (negsuc m))) e h = absurd (ground arith)
    accepted (some _) e h = absurd (ground arith)
