-- ===== src/Supervisor/Eager/Dormant.antt =====
-- Providers that stay dormant.
use msys_core.Common.{◌≡◌, refl, Bool, true, false, not, some, List, [], ◌∷◌, all, filter, arith}
use msys_core.Common.Result.{ok}
use msys_core.Common.Text.{Text, text_eq}
use msys_core.Common.Dict.{get}
use msys_core.Manifest.Types.{Component, Components}
use msys_core.Roles.Leases.{list_role_info}
use msys_core.Roles.Types.{RoleInfo, RoleRegistry}
use msys_core.Supervisor.Eager.{
  is_candidate, preferred_exclusive_roles, exclusive_candidate_roles, enabled_candidate_roles,
  is_always, declares_role, is_eager_role_provider,
}

none_kept :
    (p : RoleInfo → Bool) (infos : List RoleInfo)
    → all (λ info. not (p info)) infos ≡ true
    → filter p infos ≡ []
none_kept p [] h = refl
none_kept p (info ∷ infos) h = ground (arith, none_kept p infos)

-- A component that declares a role, and is a candidate of none, as when the profile disables them,
-- is not started with the session, unless its manifest asks for that.
pub is_eager_role_provider-disabled :
    (key : Text) (components : Components) (registry : RoleRegistry) (c : Component)
    → (infos : List RoleInfo) → get key components ≡ some c
    → list_role_info registry ≡ ok infos
    → is_always c.raw ≡ false
    → declares_role c ≡ true
    → all (λ info. not (is_candidate key info)) infos ≡ true
    → is_eager_role_provider key components registry ≡ ok false
unfolding is_eager_role_provider enabled_candidate_roles exclusive_candidate_roles
    preferred_exclusive_roles
is_eager_role_provider-disabled key components registry c infos k i a d n =
    rw (k, i, a, d, none_kept (is_candidate key) infos n) refl
