-- ===== src/Supervisor/Eager.antt =====
-- Which providers of roles start with the session. A component with a role starts early if one of
-- its roles is enabled and, where its roles are exclusive, prefers it.
mod Dormant
use msys_core.Common.{
  Bool, true, false, not, ◌&&◌, ◌||◌, Option, none, some, List, [], ◌∷◌, any, filter, map,
  if◌then◌else◌,
}
use msys_core.Common.Result.{Result, ok, err, ◌>>=◌}
use msys_core.Common.Text.{Text, codes, text_beq, text_eq}
use msys_core.Common.Dict.{get}
use msys_core.Manifest.Types.{Component, Components}
use msys_core.Roles.Leases.{list_role_info}
use msys_core.Roles.Types.{RoleError, RoleInfo, RoleRegistry}
use msys_core.Value.{Value, dict, get_field, is_str}

-- `candidate.provider_id == key`, for a candidate of the role
abbrev pub is_candidate : Text → RoleInfo → Bool
is_candidate key info = any (λ candidate. text_beq candidate.provider_id key) info.candidates

abbrev pub is_preferred : Text → RoleInfo → Bool
is_preferred key info = elim info.preferred_provider [
  | none ↦ false
  | some provider ↦ text_beq provider key
]

pub preferred_exclusive_roles : Text → RoleRegistry → Result RoleError (List Text)
preferred_exclusive_roles key registry = do
  infos ← list_role_info registry
  ok (map (λ info. info.name) (filter (λ info. info.exclusive && is_preferred key info) infos))

pub exclusive_candidate_roles : Text → RoleRegistry → Result RoleError (List Text)
exclusive_candidate_roles key registry = do
  infos ← list_role_info registry
  ok (map (λ info. info.name) (filter (λ info. info.exclusive && is_candidate key info) infos))

pub enabled_candidate_roles : Text → RoleRegistry → Result RoleError (List Text)
enabled_candidate_roles key registry = do
  infos ← list_role_info registry
  ok (map (λ info. info.name) (filter (is_candidate key) infos))

-- `component.raw.get("x-msys-role-activation") == "always"`
abbrev pub is_always : Value → Bool
is_always (dict fields) = elim (get_field (codes "x-msys-role-activation") fields) [
  | none ↦ false
  | some v ↦ is_str (codes "always") v
]
is_always _ = false

abbrev pub declares_role : Component → Bool
declares_role c = any (λ provide. text_beq provide.kind (codes "role")) c.provides

abbrev pub is_empty : List Text → Bool
is_empty [] = true
is_empty (r ∷ rs) = false

pub is_eager_role_provider : Text → Components → RoleRegistry → Result RoleError Bool
unfolding preferred_exclusive_roles exclusive_candidate_roles enabled_candidate_roles
is_eager_role_provider key components registry =
    let component = get key components in
    let always : Bool = elim component [ none ↦ false | some c ↦ is_always c.raw ] in
    let declared : Bool = elim component [ none ↦ false | some c ↦ declares_role c ] in
    if always then ok true else do
      enabled ← enabled_candidate_roles key registry
      candidates ← exclusive_candidate_roles key registry
      preferred ← preferred_exclusive_roles key registry
      ok (
          if declared && is_empty enabled
          then false
          else if is_empty candidates
          then true
          else not (is_empty preferred))
