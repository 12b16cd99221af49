-- ===== src/Roles/Profile.antt =====
-- `from_profile`: a registry from a whole profile, and that a validated profile always gives one.
use msys_core.Common.{
  ◌≡◌, refl, subst, Bool, true, false, ◌&&◌, Option, none, some, List, [], ◌∷◌, map, arith, ℕ, inl,
  inr, Option-cases,
}
use msys_core.Common.Result.{Result, Result-cases, bind-ok, ok, err, ◌>>=◌}
use msys_core.Common.Text.{Text, text_eq, codes}
use msys_core.Common.Dict.{Dict, get, put}
use msys_core.Manifest.Types.{Components}
use msys_core.ProfileContract.Checks.{as_object, unique_strings, check_keys}
use msys_core.ProfileContract.Patterns.{is_name, is_component_ref}
use msys_core.ProfileContract.Validate.{
  check_role_entries, check_roles, check_disabled, validate_profile, check_schema, check_id,
  check_rest, allowed_fields, required_fields,
}
use msys_core.ProfileContract.Accepted.{unique_strings_iff}
use msys_core.Roles.Build.{
  init, build_roles, role_states, role_state, profile_candidate_ids, Declarations, declarations,
  role_names,
}
use msys_core.Roles.Types.{RoleError, type_error, RoleRegistry, RoleState}
use msys_core.Value.{
  Value, Fields, null, str, list, dict, nil, end, field, items, get_field, get_or,
}

-- `dict(roles)`: the keys of a JSON object are strings.
unfoldable pub text_fields : Fields → Dict Text Value
text_fields end = []
text_fields (field (str k) v fs) = (k, v) ∷ text_fields fs
text_fields (field _ v fs) = text_fields fs

unfoldable pub roles_of : Fields → Result RoleError (Dict Text Value)
unfolding text_fields
roles_of profile = elim (get_or (codes "roles") (dict end) profile) [
  | dict fs ↦ ok (text_fields fs)
  | _ ↦ err type_error
]

module _ (to_text : Value → Text) where
  unfoldable pub disabled_of : Fields → Result RoleError (List Text)
  disabled_of profile = elim (get_or (codes "disabled_roles") (list nil) profile) [
    | list xs ↦ ok (map to_text (items xs))
    | _ ↦ err type_error
  ]

  unfoldable pub from_profile : Components → Fields → Result RoleError RoleRegistry
  unfolding roles_of
  from_profile components profile = do
    roles ← roles_of profile
    disabled ← disabled_of profile
    init to_text components roles disabled

abbrev is_list : Value → Bool
is_list (list xs) = true
is_list _ = false

-- Every role of the profile lists its candidates.
abbrev all_lists : Dict Text Value → Bool
all_lists [] = true
all_lists ((k, v) ∷ d) = is_list v && all_lists d

unique_strings-is_list :
    (pattern : Text → Bool) (maximum_items : ℕ) (v : Value) (ts : List Text)
    → unique_strings pattern maximum_items v ≡ ok ts
    → is_list v ≡ true
unique_strings-is_list pattern maximum_items v ts h =
    let (xs, same, texts, low, once, fine) = (unique_strings_iff pattern maximum_items v ts).0 h in
    rw (same) refl

check_role_entries-all_lists :
    (fs : Fields) (d : Dict Text (List Text))
    → check_role_entries fs ≡ ok d
    → all_lists (text_fields fs) ≡ true
unfolding check_role_entries text_fields
check_role_entries-all_lists end d h = refl
check_role_entries-all_lists (field (str k) v fs) d h =
    elim (Result-cases (unique_strings is_component_ref 64 v)) [
      | inl (ids, e) ↦ elim (Result-cases (check_role_entries fs)) [
        | inl (rest, f) ↦ ground (
          arith,
          unique_strings-is_list is_component_ref 64 v ids e,
          check_role_entries-all_lists fs rest f,
        )
        | inr (x, f) ↦ absurd (ground arith)
      ]
      | inr (x, e) ↦ absurd (ground arith)
    ]
check_role_entries-all_lists (field null v fs) d h = absurd (ground arith)
check_role_entries-all_lists (field _ v fs) d h = absurd (ground arith)

abbrev is_listed : Option Value → Bool
is_listed none = true
is_listed (some v) = is_list v

get-is_list :
    (role : Text) (d : Dict Text Value) → all_lists d ≡ true → is_listed (get role d) ≡ true
unfolding get
get-is_list role [] h = refl
get-is_list role ((k, v) ∷ d) h = ground (arith, get-is_list role d)

module _ (to_text : Value → Text) (profile_roles : Dict Text Value)
    (lists : all_lists profile_roles ≡ true) where
  listed :
      (v : Option Value)
      → is_listed v ≡ true
      → (ids : List Text) × (profile_candidate_ids to_text v ≡ ok ids)
  unfolding profile_candidate_ids
  listed none h = ([], refl)
  listed (some (list xs)) h = (map to_text (items xs), refl)
  listed (some null) h = cc
  listed (some _) h = absurd (ground arith)

  ids-returns :
      (role : Text)
      → (ids : List Text) × (profile_candidate_ids to_text (get role profile_roles) ≡ ok ids)
  ids-returns role = listed (get role profile_roles) (get-is_list role profile_roles lists)

  role_state-returns :
      (components : Components) (declared : Declarations) (role : Text)
      → (s : RoleState) × (role_state to_text components profile_roles declared role ≡ ok s)
  unfolding role_state
  role_state-returns components declared role =
      let (ids, e) = ids-returns role in
      elim (Result-cases (role_state to_text components profile_roles declared role)) [
        | inl (s, f) ↦ (s, f)
        | inr (x, f) ↦ absurd (ground arith)
      ]

  role_states-returns :
      (components : Components) (declared : Declarations) (roles : List Text)
      (result : Dict Text RoleState)
      → (r : Dict Text RoleState) × (role_states to_text components profile_roles declared roles
            result
          ≡ ok r)
  unfolding role_states
  role_states-returns components declared [] result = (result, refl)
  role_states-returns components declared (role ∷ roles) result =
      let (s, e) = role_state-returns components declared role in
      let (r, f) = role_states-returns components declared roles (put role s result) in
      (r, rw (e) f)

  init-returns :
      (components : Components) (disabled : List Text)
      → (r : RoleRegistry) × (init to_text components profile_roles disabled ≡ ok r)
  unfolding init build_roles
  init-returns components disabled =
      let declared = declarations disabled [] components in
      let (r, e) =
        role_states-returns components declared (role_names disabled profile_roles declared) [] in
      elim (Result-cases (init to_text components profile_roles disabled)) [
        | inl (s, f) ↦ (s, f)
        | inr (x, f) ↦ absurd (ground arith)
      ]

roles_of-validated :
    (profile : Fields) (d : Dict Text (List Text))
    → check_roles profile ≡ ok d
    → (roles : Dict Text Value) × (roles_of profile ≡ ok roles) × (all_lists roles ≡ true)
unfolding check_roles roles_of as_object
roles_of-validated profile d h = elim (Option-cases (get_field (codes "roles") profile)) [
  | inl e ↦ absurd (ground arith)
  | inr (dict fs, e) ↦
      (text_fields fs, rw (e, roles_of) refl, check_role_entries-all_lists fs d (ground arith))
  | inr (null, e) ↦ absurd (ground arith)
  | inr (_, e) ↦ absurd (ground arith)
]

disabled_of-validated :
    (to_text : Value → Text) (profile : Fields) (d : Dict Text (List Text)) (ts : List Text)
    → check_disabled d profile ≡ ok ts
    → (disabled : List Text) × (disabled_of to_text profile ≡ ok disabled)
unfolding check_disabled disabled_of
disabled_of-validated to_text profile d ts h =
    elim (Result-cases
      (unique_strings is_name 256 (get_or (codes "disabled_roles") (list nil) profile))) [
        | inl (ids, e) ↦ disabled_list (get_or (codes "disabled_roles") (list nil) profile) refl (
            unique_strings-is_list is_name 256 (get_or (codes "disabled_roles") (list nil) profile)
              ids e)
        | inr (x, e) ↦ absurd (ground arith)
      ]
  where
    disabled_list :
        (v : Value)
        → get_or (codes "disabled_roles") (list nil) profile ≡ v
        → is_list v ≡ true
        → (disabled : List Text) × (disabled_of to_text profile ≡ ok disabled)
    disabled_list (list xs) e l = (map to_text (items xs), rw (e, disabled_of) refl)
    disabled_list null e l = cc
    disabled_list _ e l = absurd (ground arith)

-- A profile that the contract accepts, for any id asked for, always builds a registry: none of the
-- type errors of the constructors is raised, whatever the components are.
pub from_profile-validated :
    (to_text : Value → Text) (expected : Option Value) (value : Value) (components : Components)
    {profile : Fields}
    → validate_profile expected value ≡ ok profile
    → (r : RoleRegistry) × (from_profile to_text components profile ≡ ok r)
unfolding validate_profile from_profile
from_profile-validated to_text expected value components {profile} h =
    let (fs, e0, h0) = bind-ok (as_object value) _ h in
    let (u1, e1, h1) = bind-ok (check_keys allowed_fields required_fields fs) _ h0 in
    let (u2, e2, h2) = bind-ok (check_schema fs) _ h1 in
    let (id, e3, h3) = bind-ok (check_id expected fs) _ h2 in
    let (d, e4, h4) = bind-ok (check_roles fs) _ h3 in
    let (ts, e5, h5) = bind-ok (check_disabled d fs) _ h4 in
    let (u6, e6, h6) = bind-ok (check_rest fs) _ h5 in
    let (roles, f, lists) = roles_of-validated fs d e4 in
    let (disabled, g) = disabled_of-validated to_text fs d ts e5 in
    let (r, k) = init-returns to_text roles lists components disabled in
    let same : fs ≡ profile = ground arith in
    (r, subst (λ p. from_profile to_text components p ≡ ok r) same (rw (f, g, from_profile) k))
