-- ===== src/Roles/Types.antt =====
-- The data of roles.py: errors, candidates, leases and the registry.
use msys_core.Common.{
  ℕ, Bool, true, false, ◌&&◌, Option, none, some, List, ◌≡◌, refl, arith, nat_eq, nat_beq,
}
use msys_core.Common.Int.{ℤ}
use msys_core.Common.Text.{Text, text_beq, text_beq_iff}
use msys_core.Common.Dict.{Dict}
use msys_core.Manifest.Types.{Components}
use msys_core.Value.{Value}

-- The exceptions of the module, and those that Python's containers raise.
pub data RoleError : Type 0 where
  unknown_role : Text → RoleError
  unknown_candidate : Text → Text → RoleError
  no_candidate : Text → RoleError
  lease_conflict : Text → Text → RoleError
  unknown_lease : ℕ → RoleError
  type_error : RoleError
  key_error : RoleError
  value_error : RoleError

pub record RoleCandidate : Type 0 where
  pub role : Text
  pub provider_id : Text
  pub priority : ℤ
  pub exclusive : Bool
  pub profile_rank : Option ℕ
  pub declared : Bool

pub record RoleLease : Type 0 where
  pub token : ℕ
  pub role : Text
  pub provider_id : Text
  pub holder : Option Text

pub record RoleState : Type 0 where
  pub candidates : List RoleCandidate
  pub exclusive : Bool

pub record RoleRegistry : Type 0 where
  pub components : Components
  pub profile_roles : Dict Text Value
  pub disabled_roles : List Text
  pub roles : Dict Text RoleState
  pub preferred : Dict Text Text
  pub leases : Dict ℕ RoleLease
  pub role_leases : Dict Text (List ℕ)
  pub next_lease_token : ℕ

pub record RoleInfo : Type 0 where
  pub name : Text
  pub exclusive : Bool
  pub candidates : List RoleCandidate
  pub preferred_provider : Option Text
  pub active_provider : Option Text
  pub active_providers : List Text
  pub lease_count : ℕ

abbrev pub holder_beq : Option Text → Option Text → Bool
holder_beq none none = true
holder_beq none (some b) = false
holder_beq (some a) none = false
holder_beq (some a) (some b) = text_beq a b

-- `==` on the frozen dataclass.
unfoldable pub lease_beq : RoleLease → RoleLease → Bool
lease_beq a b =
    nat_beq a.token b.token
    && text_beq a.role b.role
    && text_beq a.provider_id b.provider_id
    && holder_beq a.holder b.holder

pub lease_beq_refl : (a : RoleLease) → lease_beq a a ≡ true
unfolding lease_beq
lease_beq_refl a = ground (
  arith,
  text_beq_iff a.role a.role,
  text_beq_iff a.provider_id a.provider_id,
  holder_beq_refl a.holder,
)
  where
    holder_beq_refl : (h : Option Text) → holder_beq h h ≡ true
    holder_beq_refl none = refl
    holder_beq_refl (some t) = (text_beq_iff t t).1 refl
