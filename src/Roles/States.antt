-- ===== src/Roles/States.antt =====
-- The roles of a new registry: which there are, and the state of each.
use msys_core.Common.{
  All, ◌≡◌, refl, ◌∙◌, true, false, not, ◌&&◌, ◌||◌, Option, none, some, List, [], ◌∷◌, map, arith,
  any, elem, filter, IsNodup, if◌then◌else◌, is_some, inl, inr, elem-append, elem-filter,
}
use msys_core.Common.Result.{Result, Result-cases, ok, err}
use msys_core.Common.Text.{Text, text_eq, text_beq_iff, text_leb}
use msys_core.Common.Dict.{Dict, get, put, keys, has, get-put, keys-put-IsNodup, has-elem-keys}
use msys_core.Common.Sorting.{IsSorted, elem-sorted, sorted}
use msys_core.Manifest.Types.{Components, Provide}
use msys_core.Roles.Types.{RoleError, RoleState}
use msys_core.Roles.Build.{
  Declarations, or_empty, fold_declared, declare, declare_all, declarations, role_names,
  profile_candidate_ids, candidates_of, role_state, role_states,
}
use msys_core.Roles.Catalog.{provider_of, precedes}
use msys_core.Roles.Order.{candidates_of-IsSorted, elem-candidates_of, candidates_of-IsNodup}
use msys_core.Roles.Ranks.{All-map, candidate_for, candidate_for-declared, candidates_of-All}
use msys_core.Roles.Declarations.{declared_for, provides_of, summary, declarations_lem}
use msys_core.Value.{Value}

-- No component is collected twice for a role, and nothing for a disabled role.
record IsClean (disabled : List Text) (d : Declarations) : Type 0 where
  once : (role : Text) → IsNodup (keys (or_empty (get role d)))
  enabled : (role : Text) → elem role disabled ≡ true → get role d ≡ none

module _ (disabled : List Text) (provider : Text) where
  declare-IsClean :
      (d : Declarations) (p : Provide)
      → IsClean disabled d
      → IsClean disabled (declare disabled provider d p)
  unfolding declare
  declare-IsClean d p h = record {
    once = λ role. ground (
      arith,
      get-put p.name role
          (put provider (fold_declared (get provider (or_empty (get p.name d))) p)
            (or_empty (get p.name d)))
          d,
      keys-put-IsNodup provider (fold_declared (get provider (or_empty (get p.name d))) p)
          (or_empty (get p.name d)),
      h.once role,
      h.once p.name,
    );
    enabled = λ role e. ground (
      arith,
      get-put p.name role
          (put provider (fold_declared (get provider (or_empty (get p.name d))) p)
            (or_empty (get p.name d)))
          d,
      h.enabled role,
      text_beq_iff p.name role,
    );
  }

  declare_all-IsClean :
      (d : Declarations) (ps : List Provide)
      → IsClean disabled d
      → IsClean disabled (declare_all disabled provider d ps)
  unfolding declare_all
  declare_all-IsClean d [] h = h
  declare_all-IsClean d (p ∷ ps) h =
      declare_all-IsClean (declare disabled provider d p) ps (declare-IsClean d p h)

declarations-IsClean :
    (disabled : List Text) (d : Declarations) (components : Components)
    → IsClean disabled d
    → IsClean disabled (declarations disabled d components)
unfolding declarations
declarations-IsClean disabled d [] h = h
declarations-IsClean disabled d ((k, c) ∷ rest) h =
    declarations-IsClean disabled (declare_all disabled k d c.provides) rest
      (declare_all-IsClean disabled k d c.provides h)

empty-IsClean : (disabled : List Text) → IsClean disabled []
unfolding get
empty-IsClean disabled = record { once = λ role. tt; enabled = λ role e. refl }

abbrev pub to_option : Result RoleError RoleState → Option RoleState
to_option (ok s) = some s
to_option (err e) = none

module _ (to_text : Value → Text) (components : Components) (profile_roles : Dict Text Value) where
  pub get-role_states :
      (declared : Declarations) (names : List Text) (start roles : Dict Text RoleState)
      (role : Text)
      → role_states to_text components profile_roles declared names start ≡ ok roles
      → get role roles ≡ (
          if elem role names
          then to_option (role_state to_text components profile_roles declared role)
          else get role start)
  unfolding role_states
  get-role_states declared [] start roles role h = ground arith
  get-role_states declared (n ∷ names) start roles role h =
      elim (Result-cases (role_state to_text components profile_roles declared n)) [
        | inr (x, e) ↦ absurd (ground arith)
        | inl (s, e) ↦ ground (
          arith,
          get-role_states declared names (put n s start) roles role,
          get-put n role s start,
          text_beq_iff n role,
        )
      ]

  module _ (disabled : List Text) where
    abbrev declared_roles : Declarations
    declared_roles = declarations disabled [] components

    pub elem-role_names :
        (role : Text)
        → elem role (role_names disabled profile_roles declared_roles)
          ≡ (not (elem role disabled) && (has role profile_roles || has role declared_roles))
    unfolding role_names
    elem-role_names role = ground (
      arith,
      elem-append role (filter (λ r. not (elem r disabled)) (keys profile_roles)) (
          sorted text_leb (
            filter (λ r. not (elem r (filter (λ r. not (elem r disabled)) (keys profile_roles))))
              (keys declared_roles))),
      elem-sorted text_leb role (
          filter (λ r. not (elem r (filter (λ r. not (elem r disabled)) (keys profile_roles))))
            (keys declared_roles)),
      elem-filter (λ r. not (elem r (filter (λ r. not (elem r disabled)) (keys profile_roles))))
          role (keys declared_roles),
      elem-filter (λ r. not (elem r disabled)) role (keys profile_roles),
      has-elem-keys role profile_roles,
      has-elem-keys role declared_roles,
      (declarations-IsClean disabled [] components (empty-IsClean disabled)).enabled role,
    )

    declared_for_lem :
        (role pid : Text)
        → IsNodup (keys components)
        → elem role disabled ≡ false
        → get pid (or_empty (get role declared_roles))
          ≡ summary (provides_of role (get pid components))
    unfolding declared_for
    declared_for_lem role pid n en = ground (arith, declarations_lem disabled role pid components n)

    -- The state of a role in a registry that was built, from the profile's ids for the role.
    pub record IsRoleState (role : Text) (state : RoleState) : Type 0 where
      pub ids : List Text
      pub listed : profile_candidate_ids to_text (get role profile_roles) ≡ ok ids
      pub enabled : elem role disabled ≡ false
      -- once each, in the order of the profile, then by priority and id
      pub sorted_candidates : IsSorted precedes state.candidates
      pub once : IsNodup (map provider_of state.candidates)
      -- the installed components that the profile lists, and those that provide the role
      pub members :
          (pid : Text)
          → elem pid (map provider_of state.candidates) ≡ (
              (elem pid ids && has pid components)
              || is_some (summary (provides_of role (get pid components))))
      -- each with the place of its component in the profile's ids as its rank, if it is installed,
      -- and the folded provides of the component as its declaration
      pub as_listed :
          All
            (λ c.
              c
              ≡ candidate_for components role
                  (λ pid. summary (provides_of role (get pid components)))
                  0
                  ids
                  c.provider_id)
            state.candidates
      -- exclusive as soon as one candidate is
      pub strict : state.exclusive ≡ any (λ c. c.exclusive) state.candidates

    pub role_state-IsRoleState :
        (role : Text) (state : RoleState)
        → IsNodup (keys components)
        → elem role disabled ≡ false
        → role_state to_text components profile_roles declared_roles role ≡ ok state
        → IsRoleState role state
    unfolding role_state
    role_state-IsRoleState role state n en h =
        elim (Result-cases (profile_candidate_ids to_text (get role profile_roles))) [
          | inr (x, e) ↦ absurd (ground arith)
          | inl (ids, e) ↦
              let metadata = or_empty (get role declared_roles) in
              let made : state ≡ record {
                candidates = candidates_of components role metadata ids;
                exclusive = any (λ c. c.exclusive) (candidates_of components role metadata ids);
              } =
                ground arith in
              rw made (record {
                ids = ids;
                listed = e;
                enabled = en;
                sorted_candidates = candidates_of-IsSorted components role metadata ids;
                once = candidates_of-IsNodup components role metadata ids (
                    (declarations-IsClean disabled [] components (empty-IsClean disabled)).once
                      role);
                members = λ pid. ground (
                  arith,
                  elem-candidates_of components role metadata ids pid,
                  declared_for_lem role pid n en,
                );
                as_listed =
                    All-map
                      (λ c h.
                        h
                        ∙ candidate_for-declared components role _ _ 0 ids c.provider_id
                            (declared_for_lem role c.provider_id n en))
                      (candidates_of components role metadata ids)
                      (candidates_of-All components role metadata ids (
                        (declarations-IsClean disabled [] components (empty-IsClean disabled)).once
                          role));
                strict = refl;
              })
        ]
