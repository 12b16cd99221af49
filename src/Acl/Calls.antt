-- ===== src/Acl/Calls.antt =====
-- Call grants: which calls a list of permissions authorises.
use native.Mathlib.Omega.{arith}
use msys_core.Common.{
  distinct, ◌≡◌, ◌≢◌, refl, ap, ◌⊎◌, ◌↔◌, inl, inr, Bool, true, false, ◌||◌, List, [], ◌∷◌, ◌++◌,
  map, any, elem, remove_all, Bool-cases,
}
use msys_core.Common.Text.{
  Text, codes, text_beq, text_beq_iff, text_eq, starts_with, append-drop_length,
}
use msys_core.Value.{Value, str}
use msys_core.Acl.{permission_set, after_colon, narrowed, interface_resources, allows_call}
use msys_core.Acl.Events.{Contains}

Contains-of_elem :
    (t : Text) (ps : List Value) → elem t (permission_set ps) ≡ true → Contains (str t) ps
unfolding permission_set
Contains-of_elem t [] h = cc
Contains-of_elem t (str s ∷ ps) h = elim (Bool-cases (text_beq s t)) [
  | inl e ↦ inl (ap str ((text_beq_iff s t).0 e))
  | inr n ↦ inr (Contains-of_elem t ps (ground arith))
]
Contains-of_elem t (_ ∷ ps) h = inr (Contains-of_elem t ps h)

elem_of_Contains :
    (t : Text) (ps : List Value) → Contains (str t) ps → elem t (permission_set ps) ≡ true
unfolding permission_set
elem_of_Contains t [] h = absurd h
elem_of_Contains t (str s ∷ ps) (inl e) = ground (arith, text_beq_iff s t)
elem_of_Contains t (_ ∷ ps) (inl e) = cc
elem_of_Contains t (str s ∷ ps) (inr h) = ground (arith, elem_of_Contains t ps h)
elem_of_Contains t (_ ∷ ps) (inr h) = elem_of_Contains t ps h

any-remove_all :
    (p : Text → Bool) (x : Text) (xs : List Text) → p x ≡ false → any p (remove_all x xs) ≡ any p xs
any-remove_all p x [] n = refl
any-remove_all p x (y ∷ xs) n = ground (arith, text_beq_iff y x, any-remove_all p x xs n)

-- Dropping repeated resources changes no test of any of them.
any-distinct : (p : Text → Bool) (xs : List Text) → any p (distinct xs) ≡ any p xs
any-distinct p [] = refl
any-distinct p (x ∷ xs) = ground (arith, any-distinct p xs, any-remove_all p x (distinct xs))

any-append : (p : Text → Bool) (xs ys : List Text) → any p (xs ++ ys) ≡ (any p xs || any p ys)
any-append p [] ys = refl
any-append p (x ∷ xs) ys = ground (arith, any-append p xs ys)

any-map :
    (p : Text → Bool) (f : Text → Text) (xs : List Text) → any p (map f xs) ≡ any (λ x. p (f x)) xs
any-map p f [] = refl
any-map p f (x ∷ xs) = ground (arith, any-map p f xs)

-- The permission for a resource.
abbrev pub call_permission : Text → Text
call_permission resource = codes "mipc.call:" ++ resource

-- The permissions grant the resource, or the method of it.
abbrev pub Granted : List Value → Text → Text → Type 0
Granted ps resource method =
    Contains (str (call_permission resource)) ps
    ⊎ ((method ≢ []) × Contains (str (call_permission (resource ++ (b'.' ∷ method)))) ps)

module _ (ps : List Value) where
  abbrev declares : Text → Bool
  declares resource = elem (call_permission resource) (permission_set ps)

  Granted-of_any :
      (resource method : Text)
      → any declares (narrowed resource method) ≡ true
      → Granted ps resource method
  unfolding narrowed
  Granted-of_any resource [] h = inl (Contains-of_elem _ ps (ground arith))
  Granted-of_any resource (c ∷ m) h = elim (Bool-cases (declares resource)) [
    | inl e ↦ inl (Contains-of_elem _ ps e)
    | inr n ↦ inr (λ e. cc, Contains-of_elem _ ps (ground arith))
  ]

  any_of_Granted :
      (resource method : Text)
      → Granted ps resource method
      → any declares (narrowed resource method) ≡ true
  unfolding narrowed
  any_of_Granted resource [] (inl g) =
      ground (arith, elem_of_Contains (call_permission resource) ps g)
  any_of_Granted resource (c ∷ m) (inl g) =
      ground (arith, elem_of_Contains (call_permission resource) ps g)
  any_of_Granted resource [] (inr (n, g)) = absurd (n refl)
  any_of_Granted resource (c ∷ m) (inr (n, g)) =
      ground (arith, elem_of_Contains (call_permission (resource ++ (b'.' ∷ c ∷ m))) ps g)

  allows_call-any :
      (target method : Text)
      → allows_call ps target method ≡ (
          declares (codes "*")
          || any declares (narrowed target method)
          || any declares (interface_resources target method))
  unfolding allows_call
  allows_call-any target method = ground (
    arith,
    any-map (λ p. elem p (permission_set ps)) call_permission
        (distinct (narrowed target method ++ interface_resources target method)),
    any-distinct declares (narrowed target method ++ interface_resources target method),
    any-append declares (narrowed target method) (interface_resources target method),
  )

  -- The resource after `interface:`, if that names one.
  abbrev pub Interface : Text → Text → Type 0
  Interface target method =
      (interface : Text) × (target ≡ codes "interface:" ++ interface)
      × (interface ≢ [])
      × Granted ps interface method

  interface_split :
      (target : Text)
      → starts_with (codes "interface:") target ≡ true
      → target ≡ codes "interface:" ++ after_colon target
  unfolding after_colon
  interface_split target h =
      let e = append-drop_length (codes "interface:") target h in rw (← e) refl

  Interface-of_any :
      (target method : Text)
      → any declares (interface_resources target method) ≡ true
      → Interface target method
  unfolding interface_resources
  Interface-of_any target method h = elim (Bool-cases (starts_with (codes "interface:") target)) [
    | inr n ↦ absurd (ground arith)
    | inl e ↦ elim (Bool-cases (text_beq (after_colon target) [])) [
      | inl none_left ↦ absurd (ground arith)
      | inr some_left ↦ (
        after_colon target,
        interface_split target e,
        ground (arith, text_beq_iff (after_colon target) []),
        Granted-of_any (after_colon target) method (ground arith),
      )
    ]
  ]

  any_of_Interface :
      (target method : Text)
      → Interface target method
      → any declares (interface_resources target method) ≡ true
  unfolding interface_resources
  any_of_Interface target method (interface, e, n, g) =
      rw (e, interface_resources)
        (ground (arith, any_of_Granted interface method g, text_beq_iff interface []))

-- A call is authorised exactly when the permissions hold `mipc.call:*`, or grant the target or the
-- method of it, or, for a target `interface:<name>` with a name, grant the name or the method of
-- it. No permission is read as a prefix.
pub allows_call_iff :
    (ps : List Value) (target method : Text)
    → (allows_call ps target method ≡ true) ↔ (
        Contains (str (call_permission (codes "*"))) ps
        ⊎ (Granted ps target method ⊎ Interface ps target method))
allows_call_iff ps target method = (
  λ h. elim (Bool-cases (declares ps (codes "*"))) [
    | inl e ↦ inl (Contains-of_elem _ ps e)
    | inr n ↦ elim (Bool-cases (any (declares ps) (narrowed target method))) [
      | inl e ↦ inr (inl (Granted-of_any ps target method e))
      | inr m ↦ inr (
          inr
            (Interface-of_any ps target method (ground (arith, allows_call-any ps target method))))
    ]
  ],
  λ h. elim h [
    | inl g ↦
        ground
          (arith, allows_call-any ps target method, elem_of_Contains (codes "mipc.call:*") ps g)
    | inr (inl g) ↦
        ground (arith, allows_call-any ps target method, any_of_Granted ps target method g)
    | inr (inr g) ↦
        ground (arith, allows_call-any ps target method, any_of_Interface ps target method g)
  ],
)
