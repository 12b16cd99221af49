-- ===== src/Supervisor/Access/Required.antt =====
-- What the error for a call that is not authorised says is missing.
use msys_core.Common.{
  ◌≡◌, refl, ◌∙◌, true, none, some, List, [], ◌∷◌, ◌++◌, arith, Bool-cases, inl, inr,
}
use msys_core.Common.Text.{Text, codes, text_beq, text_eq, text_beq_iff}
use msys_core.Acl.{allows_call, call_permission_candidates, permission_set, narrowed}
use msys_core.Manifest.Types.{Component, Components}
use msys_core.Supervisor.Access.{
  text_field, allows_provider, required_permission, authorize_component_call,
}
use msys_core.Supervisor.Errors.{ComponentError, access_denied, component_error, nonempty}
use msys_core.Supervisor.Policies.{permissions_of}
use msys_core.Value.{Value, Fields, str}

narrowed_starts :
    (target method : Text)
    → (resource : Text) × (rest : List Text) × (narrowed target method ≡ resource ∷ rest)
unfolding narrowed
narrowed_starts target method = elim (Bool-cases (text_beq method [])) [
  | inl e ↦ rw (e) (target, [], refl)
  | inr n ↦ rw (n) (target ++ (b'.' ∷ method), target ∷ [], refl)
]

-- The candidates begin with the one that is required.
candidates_start :
    (target method : Text)
    → (resource : Text) × (rest : List Text) × (call_permission_candidates target method
        ≡ (codes "mipc.call:" ++ resource) ∷ rest)
unfolding call_permission_candidates
candidates_start target method =
    let (resource, more, e) = narrowed_starts target method in rw (e) (resource, _, refl)

required_first :
    (target method resource : Text) (rest : List Text)
    → call_permission_candidates target method ≡ (codes "mipc.call:" ++ resource) ∷ rest
    → required_permission target method ≡ codes "mipc.call:" ++ resource
unfolding required_permission
required_first target method resource rest e = rw (e, required_permission) refl

required_suffices :
    (permissions : List Value) (target method : Text)
    → allows_call (str (required_permission target method) ∷ permissions) target method ≡ true
unfolding allows_call permission_set
required_suffices permissions target method =
    let required = required_permission target method in
    let (resource, rest, e) = candidates_start target method in
    let first = required_first target method resource rest e in
    ground (arith, e, first, text_beq_iff (codes "mipc.call:" ++ resource) required)

error_names :
    (to_text : Value → Text) (components : Components) (c : Component) (message : Fields)
    → (error : ComponentError) → authorize_component_call to_text components c message ≡ some error
    → error.required
      ≡ nonempty (
          required_permission
            (text_field to_text (codes "target") message)
            (text_field to_text (codes "method") message))
unfolding authorize_component_call access_denied component_error
error_names to_text components c message error h =
    let target = text_field to_text (codes "target") message in
    let method = text_field to_text (codes "method") message in
    elim (Bool-cases (allows_call (permissions_of c) target method)) [
      | inl e ↦ absurd (ground arith)
      | inr n ↦ elim (Bool-cases (allows_provider components (permissions_of c) target method)) [
        | inl e ↦ absurd (ground arith)
        | inr m ↦ ground arith
      ]
    ]

-- The permission that the error for a call names is what its sender lacks: with it in the manifest,
-- the same call is authorised.
pub authorize_component_call-required :
    (to_text : Value → Text) (components : Components) (c : Component) (message : Fields)
    → (error : ComponentError) → authorize_component_call to_text components c message ≡ some error
    → (permission : Text) × (error.required ≡ some permission)
      × (authorize_component_call to_text components
            (record c { permissions = permission ∷ c.permissions })
            message
          ≡ none)
unfolding authorize_component_call nonempty
authorize_component_call-required to_text components c message error h =
    let target = text_field to_text (codes "target") message in
    let method = text_field to_text (codes "method") message in
    let (resource, rest, e) = candidates_start target method in
    let first = required_first target method resource rest e in
    let suffices = required_suffices (permissions_of c) target method in
    (
      required_permission target method,
      error_names to_text components c message error h ∙ rw (first) refl,
      rw (suffices) refl,
    )
