-- ===== src/Supervisor/Access/Authorised.antt =====
-- When a call is authorised, and what an error says is missing.
use msys_core.Common.{
  ◌≡◌, refl, ap, ◌⊎◌, ◌↔◌, Bool, true, none, some, List, [], ◌∷◌, ◌++◌, any, arith, Bool-cases,
  Option-cases, inl, inr,
}
use msys_core.Common.Text.{Text, codes, text_eq, text_beq_iff, starts_with}
use msys_core.Common.Dict.{get}
use msys_core.Acl.{allows_call, after_colon}
use msys_core.Manifest.Types.{Provide, Component, Components}
use msys_core.Supervisor.Access.{
  text_field, grants_interface, allows_provider, authorize_component_call,
}
use msys_core.Supervisor.Policies.{permissions_of}
use msys_core.Value.{Value, Fields}

-- The target is a component that provides an interface whose calls are permitted.
pub record Provided (components : Components) (permissions : List Value) (target method : Text)
    : Type 0 where
  pub direct : starts_with (codes "component:") target ≡ true
  pub provider : Component
  pub found : get (after_colon target) components ≡ some provider
  pub before : List Provide
  pub provide : Provide
  pub later : List Provide
  pub declared : provider.provides ≡ before ++ (provide ∷ later)
  pub interface : provide.kind ≡ codes "interface"
  pub permitted : allows_call permissions (codes "interface:" ++ provide.name) method ≡ true

any_split :
    (p : Provide → Bool) (ps : List Provide)
    → any p ps ≡ true
    → (before : List Provide) × (provide : Provide) × (later : List Provide) × (ps
        ≡ before ++ (provide ∷ later))
      × (p provide ≡ true)
any_split p [] h = cc
any_split p (x ∷ ps) h = elim (Bool-cases (p x)) [
  | inl e ↦ ([], x, ps, refl, e)
  | inr n ↦ let (b, y, l, e, q) = any_split p ps (ground arith) in (x ∷ b, y, l, ap (◌∷◌ x) e, q)
]

any-append :
    (p : Provide → Bool) (before : List Provide) (provide : Provide) (later : List Provide)
    → p provide ≡ true
    → any p (before ++ (provide ∷ later)) ≡ true
any-append p [] provide later h = ground arith
any-append p (x ∷ before) provide later h = ground (arith, any-append p before provide later h)

module _ (components : Components) (permissions : List Value) (target method : Text) where
  Provided-of :
      allows_provider components permissions target method ≡ true
      → Provided components permissions target method
  unfolding allows_provider grants_interface
  Provided-of h = elim (Option-cases (get (after_colon target) components)) [
    | inl n ↦ absurd (ground arith)
    | inr (c, e) ↦
        let (before, provide, later, split, granted) =
          any_split (grants_interface permissions method) c.provides (ground arith) in
        record {
          direct = ground arith;
          provider = c;
          found = e;
          before = before;
          provide = provide;
          later = later;
          declared = split;
          interface = ground (arith, text_beq_iff provide.kind (codes "interface"));
          permitted = ground arith;
        }
  ]

  of_Provided :
      Provided components permissions target method
      → allows_provider components permissions target method ≡ true
  unfolding allows_provider grants_interface
  of_Provided g =
      let granted : grants_interface permissions method g.provide ≡ true =
        ground (arith, text_beq_iff g.provide.kind (codes "interface"), g.interface, g.permitted) in
      rw (g.direct, g.found, g.declared)
        (any-append (grants_interface permissions method) g.before g.provide g.later granted)

-- A call is dispatched exactly when the permissions of its sender allow it, or its target is a
-- component of the catalog that declares an interface of which they allow that method.
pub authorize_component_call_iff :
    (to_text : Value → Text) (components : Components) (c : Component) (message : Fields)
    → let target = text_field to_text (codes "target") message in
      let method = text_field to_text (codes "method") message in
      (authorize_component_call to_text components c message ≡ none) ↔ (
        (allows_call (permissions_of c) target method ≡ true)
        ⊎ Provided components (permissions_of c) target method)
unfolding authorize_component_call
authorize_component_call_iff to_text components c message =
    let target = text_field to_text (codes "target") message in
    let method = text_field to_text (codes "method") message in
    (
      λ h. elim (Bool-cases (allows_call (permissions_of c) target method)) [
        | inl e ↦ inl e
        | inr n ↦ inr (Provided-of components (permissions_of c) target method (ground arith))
      ],
      λ h. elim h [
        | inl e ↦ rw (e) refl
        | inr g ↦ ground (arith, of_Provided components (permissions_of c) target method g)
      ],
    )
