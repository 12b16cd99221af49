-- ===== src/Roles/Registry.antt =====
-- The methods of `RoleRegistry` on the catalog of candidates and the preferences. A method that
-- changes the registry returns its outcome and the new registry; a raise keeps what was written
-- before it.
use msys_core.Common.{Bool, Option, none, some, List, [], ◌∷◌, map, any, find, nat_eq}
use msys_core.Common.Result.{Result, ok, err, ◌>>=◌}
use msys_core.Common.Text.{Text, text_eq, text_beq, text_leb}
use msys_core.Common.Dict.{get, put, remove, keys}
use msys_core.Common.Sorting.{sorted}
use msys_core.Roles.Types.{
  RoleError, unknown_role, unknown_candidate, no_candidate, RoleCandidate, RoleState, RoleRegistry,
}

abbrev pub Outcome : Type 0 → Type 0
Outcome A = Result RoleError A × RoleRegistry

-- `_state`
unfoldable pub get_state : RoleRegistry → Text → Result RoleError RoleState
get_state reg role = elim (get role reg.roles) [ none ↦ err (unknown_role role) | some s ↦ ok s ]

unfoldable pub list_roles : RoleRegistry → List Text
list_roles reg = keys reg.roles

unfoldable pub disabled_roles : RoleRegistry → List Text
disabled_roles reg = sorted text_leb reg.disabled_roles

unfoldable pub list_candidates : RoleRegistry → Text → Result RoleError (List RoleCandidate)
unfolding get_state
list_candidates reg role = do state ← get_state reg role; ok state.candidates

unfoldable pub candidate_ids : RoleRegistry → Text → Result RoleError (List Text)
unfolding list_candidates
candidate_ids reg role = do
  candidates ← list_candidates reg role
  ok (map (λ c. c.provider_id) candidates)

abbrev pub is_provider : Text → RoleCandidate → Bool
is_provider provider_id c = text_beq c.provider_id provider_id

unfoldable pub is_candidate : RoleRegistry → Text → Text → Result RoleError Bool
unfolding list_candidates
is_candidate reg role provider_id = do
  candidates ← list_candidates reg role
  ok (any (is_provider provider_id) candidates)

unfoldable pub find_candidate : Text → Text → List RoleCandidate → Result RoleError RoleCandidate
find_candidate role provider_id candidates = elim (find (is_provider provider_id) candidates) [
  | none ↦ err (unknown_candidate role provider_id)
  | some c ↦ ok c
]

unfoldable pub get_candidate : RoleRegistry → Text → Text → Result RoleError RoleCandidate
unfolding list_candidates find_candidate
get_candidate reg role provider_id = do
  candidates ← list_candidates reg role
  find_candidate role provider_id candidates

abbrev pub first_provider : List RoleCandidate → Option Text
first_provider [] = none
first_provider (c ∷ cs) = some c.provider_id

unfoldable pub preferred_provider : RoleRegistry → Text → Result RoleError (Option Text)
unfolding get_state
preferred_provider reg role = do
  state ← get_state reg role
  elim (get role reg.preferred) [
    | none ↦ ok (first_provider state.candidates)
    | some selected ↦ ok (some selected)
  ]

unfoldable pub select_preferred : RoleRegistry → Text → Text → Outcome Text
select_preferred reg role provider_id = elim (get_candidate reg role provider_id) [
  | err e ↦ (err e, reg)
  | ok c ↦ (ok provider_id, record reg { preferred = put role provider_id reg.preferred })
]

unfoldable pub reset_preferred : RoleRegistry → Text → Outcome (Option Text)
reset_preferred reg role = elim (get_state reg role) [
  | err e ↦ (err e, reg)
  | ok s ↦
      let reg' = record reg { preferred = remove role reg.preferred } in
      (preferred_provider reg' role, reg')
]

unfoldable pub resolve_candidate : RoleRegistry → Text → Result RoleError RoleCandidate
resolve_candidate reg role = do
  preferred ← preferred_provider reg role
  elim preferred [
    | none ↦ err (no_candidate role)
    | some provider_id ↦ get_candidate reg role provider_id
  ]

unfoldable pub resolve : RoleRegistry → Text → Result RoleError Text
unfolding resolve_candidate
resolve reg role = do c ← resolve_candidate reg role; ok c.provider_id
