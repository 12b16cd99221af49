-- ===== src/Roles/Leases.antt =====
-- The methods of `RoleRegistry` that grant and release leases.
use msys_core.Common.{
  distinct, ℕ, ◌+◌, Bool, false, not, Option, none, some, List, [], ◌∷◌, ◌++◌, map, ◌==◌, elem,
  length, filter, head?, nat_eq, if◌then◌else◌,
}
use msys_core.Common.Result.{Result, ok, err, ◌>>=◌, ◌>>◌}
use msys_core.Common.Text.{Text, text_eq, text_beq}
use msys_core.Common.Dict.{get, put, remove, values}
use msys_core.Roles.Types.{
  RoleError, lease_conflict, unknown_lease, key_error, value_error, RoleCandidate, RoleLease,
  RoleState, RoleRegistry, RoleInfo, lease_beq,
}
use msys_core.Roles.Registry.{
  Outcome, get_state, get_candidate, resolve_candidate, preferred_provider, list_roles,
}

-- `resolve_candidate(role) if provider_id is None else get_candidate(role, provider_id)`
unfoldable pub chosen_candidate : RoleRegistry → Text → Option Text → Result RoleError RoleCandidate
chosen_candidate reg role none = resolve_candidate reg role
chosen_candidate reg role (some provider_id) = get_candidate reg role provider_id

-- `d[k]`
abbrev pub item {ℓ} : {A : Type ℓ} → Option A → Result RoleError A
item none = err key_error
item (some a) = ok a

-- The test for a conflict: the provider of the first active lease is named in the error.
unfoldable pub check_conflict :
    RoleRegistry → Text → RoleState → List ℕ → Result RoleError (Unit {0})
check_conflict reg role state [] = ok tt
check_conflict reg role state (token ∷ tokens) =
    if state.exclusive
    then (do active ← item (get token reg.leases); err (lease_conflict role active.provider_id))
    else ok tt

-- The checks of `acquire`, which leave the registry as it is.
unfoldable pub acquire_checks :
    RoleRegistry → Text → Option Text → Result RoleError (RoleCandidate × List ℕ)
acquire_checks reg role provider_id = do
  state ← get_state reg role
  candidate ← chosen_candidate reg role provider_id
  active_tokens ← item (get role reg.role_leases)
  check_conflict reg role state active_tokens
  ok (candidate, active_tokens)

-- The grant of `acquire`.
unfoldable pub grant : RoleRegistry → Text → Text → List ℕ → Option Text → RoleLease × RoleRegistry
grant reg role provider_id active_tokens holder =
    let token = reg.next_lease_token in
    let lease : RoleLease = record {
      token = token;
      role = role;
      provider_id = provider_id;
      holder = holder;
    } in
    (
      lease,
      record reg {
        next_lease_token = token + 1;
        leases = put token lease reg.leases;
        role_leases = put role (active_tokens ++ (token ∷ [])) reg.role_leases;
      },
    )

unfoldable pub acquire : RoleRegistry → Text → Option Text → Option Text → Outcome RoleLease
acquire reg role provider_id holder = elim (acquire_checks reg role provider_id) [
  | err e ↦ (err e, reg)
  | ok (candidate, active_tokens) ↦
      let (lease, reg') = grant reg role candidate.provider_id active_tokens holder in
      (ok lease, reg')
]

-- The argument of `release`: a lease, or its token.
pub data LeaseRef : Type 0 where
  by_lease : RoleLease → LeaseRef
  by_token : ℕ → LeaseRef

abbrev pub ref_token : LeaseRef → ℕ
ref_token (by_lease lease) = lease.token
ref_token (by_token token) = token

-- `isinstance(lease, RoleLease) and stored != lease`
abbrev pub is_other : LeaseRef → RoleLease → Bool
is_other (by_lease lease) stored = not (lease_beq stored lease)
is_other (by_token token) stored = false

-- `tokens.remove(token)`
abbrev pub remove_first : ℕ → List ℕ → List ℕ
remove_first token [] = []
remove_first token (t ∷ ts) = if t == token then ts else t ∷ remove_first token ts

-- `del self._leases[token]`, then the token is taken from the list of its role.
unfoldable pub drop_lease : RoleRegistry → ℕ → RoleLease → Outcome RoleLease
drop_lease reg token stored =
    let reg' = record reg { leases = remove token reg.leases } in
    elim (get stored.role reg.role_leases) [
      | none ↦ (err key_error, reg')
      | some tokens ↦
          if elem token tokens
          then (
            ok stored,
            record reg' {
              role_leases = put stored.role (remove_first token tokens) reg.role_leases;
            },
          )
          else (err value_error, reg')
    ]

unfoldable pub release : RoleRegistry → LeaseRef → Outcome RoleLease
release reg ref = elim (get (ref_token ref) reg.leases) [
  | none ↦ (err (unknown_lease (ref_token ref)), reg)
  | some stored ↦
      if is_other ref stored
      then (err (unknown_lease (ref_token ref)), reg)
      else drop_lease reg (ref_token ref) stored
]

-- The loop of `release_provider` over the matching leases.
unfoldable pub release_all : RoleRegistry → List RoleLease → Outcome (Unit {0})
release_all reg [] = (ok tt, reg)
release_all reg (lease ∷ rest) = elim (release reg (by_lease lease)).0 [
  | err e ↦ (err e, (release reg (by_lease lease)).1)
  | ok l ↦ release_all (release reg (by_lease lease)).1 rest
]

unfoldable pub release_provider : RoleRegistry → Text → Outcome (List RoleLease)
release_provider reg provider_id =
    let matching = filter (λ lease. text_beq lease.provider_id provider_id) (values reg.leases) in
    let (done, reg') = release_all reg matching in
    elim done [ err e ↦ (err e, reg') | ok u ↦ (ok matching, reg') ]

-- The reads of the active leases.
unfoldable pub leases_of : RoleRegistry → List ℕ → Result RoleError (List RoleLease)
leases_of reg [] = ok []
leases_of reg (token ∷ tokens) = do
  lease ← item (get token reg.leases)
  rest ← leases_of reg tokens
  ok (lease ∷ rest)

unfoldable pub active_leases : RoleRegistry → Text → Result RoleError (List RoleLease)
unfolding get_state leases_of
active_leases reg role = do
  get_state reg role
  tokens ← item (get role reg.role_leases)
  leases_of reg tokens

unfoldable pub active_providers : RoleRegistry → Text → Result RoleError (List Text)
unfolding active_leases
active_providers reg role = do
  leases ← active_leases reg role
  ok (distinct (map (λ lease. lease.provider_id) leases))

unfoldable pub active_provider : RoleRegistry → Text → Result RoleError (Option Text)
unfolding active_providers
active_provider reg role = do providers ← active_providers reg role; ok (head? providers)

unfoldable pub info : RoleRegistry → Text → Result RoleError RoleInfo
info reg role = do
  state ← get_state reg role
  leases ← active_leases reg role
  providers ← active_providers reg role
  preferred ← preferred_provider reg role
  ok (record {
    name = role;
    exclusive = state.exclusive;
    candidates = state.candidates;
    preferred_provider = preferred;
    active_provider = head? providers;
    active_providers = providers;
    lease_count = length leases;
  })

unfoldable pub infos : RoleRegistry → List Text → Result RoleError (List RoleInfo)
unfolding info
infos reg [] = ok []
infos reg (role ∷ roles) = do i ← info reg role; rest ← infos reg roles; ok (i ∷ rest)

unfoldable pub list_role_info : RoleRegistry → Result RoleError (List RoleInfo)
unfolding list_roles infos
list_role_info reg = infos reg (list_roles reg)
