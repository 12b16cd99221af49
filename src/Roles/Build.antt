-- ===== src/Roles/Build.antt =====
-- `RoleRegistry.__init__` and `_build_roles`: the catalog of candidates from the components and the
-- profile. `to_text` is Python's `str` on the items of a profile entry, which need not be strings.
use msys_core.Common.{
  ℕ, suc, Bool, true, false, not, ◌&&◌, ◌||◌, Option, none, some, List, [], ◌∷◌, ◌++◌, map, any,
  elem, filter, if◌then◌else◌, is_some,
}
use msys_core.Common.Int.{ℤ, pos, ltb_ℤ, ℤ_beq, max_ℤ}
use msys_core.Common.Result.{Result, ok, err, ◌>>=◌}
use msys_core.Common.Text.{Text, text_eq, text_beq, text_leb, codes}
use msys_core.Common.Dict.{Dict, get, put, keys, has}
use msys_core.Common.Sorting.{sorted}
use msys_core.Manifest.Types.{Components, Provide}
use msys_core.Roles.Types.{RoleError, type_error, RoleCandidate, RoleState, RoleRegistry}
use msys_core.Value.{Value, null, str, list, items}

-- What a component declares for a role: its priority, and whether it is exclusive.
abbrev pub Declared : Type 0
Declared = ℤ × Bool

-- For each role, the components that declare it.
abbrev pub Declarations : Type 0
Declarations = Dict Text (Dict Text Declared)

abbrev pub or_empty {ℓ} : {A : Type ℓ} → Option (List A) → List A
or_empty none = []
or_empty (some xs) = xs

-- Duplicate provides of one component are folded: the highest priority, and the strict claim.
unfoldable pub fold_declared : Option Declared → Provide → Declared
fold_declared none p = (p.priority, p.exclusive)
fold_declared (some (priority, exclusive)) p = (max_ℤ priority p.priority, exclusive || p.exclusive)

-- One turn of the loop over the provides of a component.
unfoldable pub declare : List Text → Text → Declarations → Provide → Declarations
unfolding fold_declared
declare disabled provider_id declared p =
    if not (text_beq p.kind (codes "role"))
    then declared
    else if elem p.name disabled
    then declared
    else (let per_role = or_empty (get p.name declared) in
        put p.name (put provider_id (fold_declared (get provider_id per_role) p) per_role) declared)

unfoldable pub declare_all : List Text → Text → Declarations → List Provide → Declarations
unfolding declare
declare_all disabled provider_id declared [] = declared
declare_all disabled provider_id declared (p ∷ ps) =
    declare_all disabled provider_id (declare disabled provider_id declared p) ps

unfoldable pub declarations : List Text → Declarations → Components → Declarations
unfolding declare_all
declarations disabled declared [] = declared
declarations disabled declared ((provider_id, component) ∷ rest) =
    declarations disabled (declare_all disabled provider_id declared component.provides) rest

-- The roles of the profile in its order, then the declared ones by name.
unfoldable pub role_names : List Text → Dict Text Value → Declarations → List Text
role_names disabled profile_roles declared =
    let named = filter (λ role. not (elem role disabled)) (keys profile_roles) in
    named ++ sorted text_leb (filter (λ role. not (elem role named)) (keys declared))

abbrev pub priority_of : Option Declared → ℤ
priority_of none = pos 0
priority_of (some d) = d.0

-- Roles are exclusive by default in the manifest model.
abbrev pub exclusive_of : Option Declared → Bool
exclusive_of none = true
exclusive_of (some d) = d.1

unfoldable pub explicit_candidate : Text → Text → ℕ → Option Declared → RoleCandidate
explicit_candidate role provider_id rank provided = record {
  role = role;
  provider_id = provider_id;
  priority = priority_of provided;
  exclusive = exclusive_of provided;
  profile_rank = some rank;
  declared = is_some provided;
}

-- The loop over the profile's entries; `seen` holds the ids that are candidates already.
unfoldable pub explicit_candidates :
    Components → Text → Dict Text Declared → ℕ → List Text → List Text → List RoleCandidate
unfolding explicit_candidate
explicit_candidates components role metadata rank seen [] = []
explicit_candidates components role metadata rank seen (provider_id ∷ ids) =
    elim (elem provider_id seen || not (has provider_id components)) [
      | true ↦ explicit_candidates components role metadata (suc rank) seen ids
      | false ↦
          explicit_candidate role provider_id rank (get provider_id metadata)
          ∷ explicit_candidates components role metadata (suc rank) (provider_id ∷ seen) ids
    ]

-- The key `(-priority, provider_id)`
unfoldable pub before : Text × Declared → Text × Declared → Bool
before (a, (p, _)) (b, (q, _)) = ltb_ℤ q p || ℤ_beq p q && text_leb a b

unfoldable pub remaining_candidate : Text → Text × Declared → RoleCandidate
remaining_candidate role (provider_id, (priority, exclusive)) = record {
  role = role;
  provider_id = provider_id;
  priority = priority;
  exclusive = exclusive;
  profile_rank = none;
  declared = true;
}

unfoldable pub remaining_candidates : Text → Dict Text Declared → List Text → List RoleCandidate
unfolding before remaining_candidate
remaining_candidates role metadata seen =
    map (remaining_candidate role)
      (sorted before (filter (λ item. not (elem item.0 seen)) metadata))

-- The candidates of one role, from the ids that the profile lists.
unfoldable pub candidates_of :
    Components → Text → Dict Text Declared → List Text → List RoleCandidate
unfolding explicit_candidates remaining_candidates
candidates_of components role metadata ids =
    let explicit = explicit_candidates components role metadata 0 [] ids in
    explicit ++ remaining_candidates role metadata (map (λ c. c.provider_id) explicit)

-- `{role: [] for role in self._roles}`
abbrev pub no_leases : List Text → Dict Text (List ℕ)
no_leases [] = []
no_leases (role ∷ roles) = (role, []) ∷ no_leases roles

module _ (to_text : Value → Text) where
  unfoldable pub profile_candidate_ids : Option Value → Result RoleError (List Text)
  profile_candidate_ids none = ok []
  profile_candidate_ids (some null) = ok []
  profile_candidate_ids (some (str t)) = ok (t ∷ [])
  profile_candidate_ids (some (list xs)) = ok (map to_text (items xs))
  profile_candidate_ids (some _) = err type_error

  unfoldable pub role_state :
      Components → Dict Text Value → Declarations → Text → Result RoleError RoleState
  unfolding profile_candidate_ids candidates_of
  role_state components profile_roles declared role = do
    ids ← profile_candidate_ids (get role profile_roles)
    let candidates = candidates_of components role (or_empty (get role declared)) ids
    ok (record { candidates = candidates; exclusive = any (λ c. c.exclusive) candidates })

  unfoldable pub role_states :
      Components
      → Dict Text Value
      → Declarations
      → List Text
      → Dict Text RoleState
      → Result RoleError (Dict Text RoleState)
  unfolding role_state
  role_states components profile_roles declared [] result = ok result
  role_states components profile_roles declared (role ∷ roles) result = do
    state ← role_state components profile_roles declared role
    role_states components profile_roles declared roles (put role state result)

  unfoldable pub build_roles :
      Components → Dict Text Value → List Text → Result RoleError (Dict Text RoleState)
  unfolding declarations role_names role_states
  build_roles components profile_roles disabled =
      let declared = declarations disabled [] components in
      role_states components profile_roles declared (role_names disabled profile_roles declared) []

  -- `__init__`
  unfoldable pub init : Components → Dict Text Value → List Text → Result RoleError RoleRegistry
  init components profile_roles disabled = do
    roles ← build_roles components profile_roles disabled
    ok (record {
      components = components;
      profile_roles = profile_roles;
      disabled_roles = disabled;
      roles = roles;
      preferred = [];
      leases = [];
      role_leases = no_leases (keys roles);
      next_lease_token = 1;
    })
