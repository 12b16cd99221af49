-- ===== src/Isolation/Accepted.antt =====
-- What a parsed isolation request guarantees to the code that applies it.
use msys_core.Common.{
  ◌≡◌, refl, sym, ◌∙◌, subst, Bool, true, not, ◌&&◌, ◌||◌, none, List, [], ◌∷◌, arith, leb, all,
  distinct, IsNodup, is_some, inl, inr, Option-cases, distinct-IsNodup,
}
use msys_core.Common.Result.{bind-ok, require-ok, ok, require}
use msys_core.Common.Text.{Text, codes, text_beq, text_eq, text_beq_iff}
use msys_core.Common.Dict.{Dict}
use msys_core.Common.Int.{pos}
use msys_core.Isolation.Parse.{
  unsupported_rlimit, empty_rlimit, soft_exceeds_hard, unsupported_namespaces, unknown_field,
  helper_needs_no_new_privs, is_namespace, is_rlimit, profile_defaults, boolean, limit_value, knows,
  parse_soft_hard, parse_limit, namespace_names, parse_namespaces, asserted, is_policy,
  allowed_fields, raw_dict, parse_rlimit, parse_rlimits, parse_seccomp, parse_limits, dict_of,
  parse_profile, parse_failure, parse_raw, parse_isolation,
}
use msys_core.Isolation.Spec.{RlimitSpec, IsolationSpec, fail_closed, default_isolation}
use msys_core.Value.{
  Value, Fields, null, bool, int, float, str, list, dict, object, nil, end, field, get_field,
  get_or, has_field,
}

-- A limit of the platform whose soft value is at most its hard value.
abbrev pub is_sound_limit : (Text → Bool) → Text → RlimitSpec → Bool
is_sound_limit has_constant name limit =
    is_rlimit name && has_constant name && leb limit.soft limit.hard

abbrev pub are_sound : (Text → Bool) → Dict Text RlimitSpec → Bool
are_sound has_constant [] = true
are_sound has_constant ((name, limit) ∷ d) =
    is_sound_limit has_constant name limit && are_sound has_constant d

pub record IsSound (has_constant : Text → Bool) (spec : IsolationSpec) : Type 0 where
  pub known_profile : is_some (profile_defaults spec.profile) ≡ true
  pub known_policy : is_policy spec.failure ≡ true
  pub namespaces_once : IsNodup spec.namespaces
  pub known_namespaces : all is_namespace spec.namespaces ≡ true
  pub sound_limits : are_sound has_constant spec.rlimits ≡ true
  pub confined_helper : spec.seccomp.mode ≡ codes "helper" → spec.no_new_privs ≡ true

parse_soft_hard-ordered :
    (fs : Fields) (l : RlimitSpec) → parse_soft_hard fs ≡ ok l → leb l.soft l.hard ≡ true
unfolding parse_soft_hard
parse_soft_hard-ordered fs l h =
    let (u, e1, h1) = bind-ok (require (knows (codes "soft" ∷ codes "hard" ∷ []) fs) _) _ h in
    let (v, e2, h2) =
      bind-ok (require (has_field (codes "soft") fs || has_field (codes "hard") fs) empty_rlimit) _
        h1 in
    let (hard, e3, h3) =
      bind-ok (limit_value (get_or (codes "hard") (get_or (codes "soft") null fs) fs)) _ h2 in
    let (soft, e4, h4) = bind-ok (limit_value (get_or (codes "soft") (int (pos hard)) fs)) _ h3 in
    let (w, e5, h5) = bind-ok (require (leb soft hard) soft_exceeds_hard) _ h4 in
    ground (arith, require-ok (leb soft hard) soft_exceeds_hard e5)

parse_limit-ordered : (v : Value) (l : RlimitSpec) → parse_limit v ≡ ok l → leb l.soft l.hard ≡ true
unfolding parse_limit limit_value
parse_limit-ordered (dict fs) l h = parse_soft_hard-ordered fs l h
parse_limit-ordered (int n) l h =
    let (limit, e1, h1) = bind-ok (limit_value (int n)) _ h in ground arith
parse_limit-ordered null l h = cc
parse_limit-ordered _ l h = cc

module _ (to_text : Value → Text) (has_constant : Text → Bool) where
  parse_rlimits-are_sound :
      (raw : Dict Text Value) (d : Dict Text RlimitSpec)
      → parse_rlimits to_text has_constant raw ≡ ok d
      → are_sound has_constant d ≡ true
  unfolding parse_rlimits parse_rlimit
  parse_rlimits-are_sound [] d h = ground arith
  parse_rlimits-are_sound ((name, limit) ∷ raw) d h =
      let (l, e, h1) = bind-ok (parse_rlimit to_text has_constant name limit) _ h in
      let (rest, e2, h2) = bind-ok (parse_rlimits to_text has_constant raw) _ h1 in
      let (u, e3, h3) = bind-ok (require (is_rlimit name && has_constant name) _) _ e in
      ground (
        arith,
        require-ok (is_rlimit name && has_constant name) unsupported_rlimit e3,
        parse_limit-ordered limit l h3,
        parse_rlimits-are_sound raw rest e2,
      )

parse_namespaces-known :
    (defaults raw : Fields) (ts : List Text)
    → parse_namespaces defaults raw ≡ ok ts
    → IsNodup ts × (all is_namespace ts ≡ true)
unfolding parse_namespaces
parse_namespaces-known defaults raw ts h =
    let (names, e1, h1) =
      bind-ok
        (namespace_names
          (get_or (codes "namespaces") (get_or (codes "namespaces") (list nil) defaults) raw))
        _ h in
    let (u, e2, h2) =
      bind-ok (require (all is_namespace (distinct names)) unsupported_namespaces) _ h1 in
    let same : distinct names ≡ ts = ground arith in
    (
      subst (λ xs. IsNodup xs) same (distinct-IsNodup names),
      rw (sym same) (require-ok (all is_namespace (distinct names)) unsupported_namespaces e2),
    )

module _ (to_text : Value → Text) (has_constant : Text → Bool) where
  parse_profile-known :
      (raw defaults : Fields) (profile : Text)
      → parse_profile to_text has_constant raw ≡ ok (profile, defaults)
      → is_some (profile_defaults profile) ≡ true
  unfolding parse_profile
  parse_profile-known raw defaults profile h =
      elim (Option-cases
        (profile_defaults (to_text (get_or (codes "profile") (str (codes "custom")) raw)))) [
          | inl e ↦ absurd (ground arith)
          | inr (d, e) ↦ ground arith
        ]

  parse_limits-are_sound :
      (defaults raw : Fields) (d : Dict Text RlimitSpec)
      → parse_limits to_text has_constant defaults raw ≡ ok d
      → are_sound has_constant d ≡ true
  unfolding parse_limits
  parse_limits-are_sound defaults raw d h =
      let (raw_limits, e1, h1) =
        bind-ok (dict_of (get_or (codes "rlimits") (dict end) defaults)) _ h in
      let (overrides, e2, h2) = bind-ok (dict_of (get_or (codes "rlimits") (dict end) raw)) _ h1 in
      parse_rlimits-are_sound to_text has_constant _ d h2

  parse_failure-known :
      (raw : Fields) (failure : Text)
      → parse_failure to_text has_constant raw ≡ ok failure
      → (is_policy failure ≡ true)
        × (failure ≡ to_text (get_or (codes "failure") (str fail_closed) raw))
  unfolding parse_failure
  parse_failure-known raw failure h = ground arith

  -- The same for a dict, and its failure policy is the declared one, or fail-closed.
  parse_raw-IsSound :
      (raw : Fields) {spec : IsolationSpec}
      → parse_raw to_text has_constant raw ≡ ok spec
      → IsSound has_constant spec
        × (spec.failure ≡ to_text (get_or (codes "failure") (str fail_closed) raw))
  unfolding parse_raw
  parse_raw-IsSound raw {spec} h =
      let (u, e1, h1) = bind-ok (require (knows allowed_fields raw) unknown_field) _ h in
      let ((profile, defaults), e2, h2) = bind-ok (parse_profile to_text has_constant raw) _ h1 in
      let (failure, e3, h3) = bind-ok (parse_failure to_text has_constant raw) _ h2 in
      let (ns, e4, h4) = bind-ok (parse_namespaces defaults raw) _ h3 in
      let (declared, e5, h5) = bind-ok (boolean raw (codes "no_new_privs") _) _ h4 in
      let (dumpable, e6, h6) = bind-ok (boolean raw (codes "dumpable") _) _ h5 in
      let (privs, e7, h7) = bind-ok (asserted declared) _ h6 in
      let (limits, e8, h8) = bind-ok (parse_limits to_text has_constant defaults raw) _ h7 in
      let (seccomp, e9, h9) = bind-ok (parse_seccomp to_text has_constant _) _ h8 in
      let (w, e10, h10) =
        bind-ok
          (require (not (text_beq seccomp.mode (codes "helper")) || privs)
            helper_needs_no_new_privs)
          _ h9 in
      let confined =
        require-ok (not (text_beq seccomp.mode (codes "helper")) || privs) helper_needs_no_new_privs
          e10 in
      let (once, known) = parse_namespaces-known defaults raw ns e4 in
      let (policy, declared_policy) = parse_failure-known raw failure e3 in
      let limited : are_sound has_constant limits ≡ true =
        parse_limits-are_sound defaults raw limits e8 in
      let built : IsolationSpec = record {
        profile = profile;
        failure = failure;
        namespaces = ns;
        no_new_privs = privs;
        dumpable = dumpable;
        rlimits = limits;
        seccomp = seccomp;
      } in
      let same : built ≡ spec = ground arith in
      subst
        (λ s.
          IsSound has_constant s
          × (s.failure ≡ to_text (get_or (codes "failure") (str fail_closed) raw)))
        same
        (
          record {
            known_profile = parse_profile-known raw defaults profile e2;
            known_policy = policy;
            namespaces_once = once;
            known_namespaces = known;
            sound_limits = limited;
            confined_helper =
                λ m. ground (arith, confined, text_beq_iff seccomp.mode (codes "helper"));
          },
          declared_policy,
        )

  -- A parsed request names a known profile and policy; its namespaces are known, none twice; each
  -- limit exists on the platform, with a soft value up to the hard one; and a seccomp helper comes
  -- only with no_new_privs.
  pub parse_isolation-IsSound :
      (value : Value) {spec : IsolationSpec}
      → parse_isolation to_text has_constant value ≡ ok spec
      → IsSound has_constant spec
  unfolding parse_isolation profile_defaults
  parse_isolation-IsSound null {spec} h =
      let same : default_isolation ≡ spec = ground arith in
      subst (λ s. IsSound has_constant s) same
        (record {
          known_profile = refl;
          known_policy = refl;
          namespaces_once = tt;
          known_namespaces = refl;
          sound_limits = refl;
          confined_helper = λ m. cc;
        })
  parse_isolation-IsSound (str t) h =
      (parse_raw-IsSound (field (str (codes "profile")) (str t) end) h).0
  parse_isolation-IsSound (dict fs) h = (parse_raw-IsSound fs h).0
  parse_isolation-IsSound (bool b) h = cc
  parse_isolation-IsSound (int n) h = cc
  parse_isolation-IsSound (float b t) h = cc
  parse_isolation-IsSound (list xs) h = cc
  parse_isolation-IsSound (object t) h = cc

  raw_fails_closed :
      ((t : Text) → to_text (str t) ≡ t)
      → (raw : Fields) {spec : IsolationSpec} → get_field (codes "failure") raw ≡ none
      → parse_raw to_text has_constant raw ≡ ok spec
      → spec.failure ≡ fail_closed
  raw_fails_closed same raw f h =
      let policy = (parse_raw-IsSound raw h).1 in policy ∙ rw (f, get_or) (same fail_closed)

  -- Where `str` leaves strings as they are, a component that declares isolation, by a profile or
  -- by a dict without a failure policy, fails closed.
  pub parse_isolation-fail_closed :
      ((t : Text) → to_text (str t) ≡ t)
      → (value : Value) (raw : Fields) {spec : IsolationSpec} → raw_dict value ≡ ok raw
      → get_field (codes "failure") raw ≡ none
      → parse_isolation to_text has_constant value ≡ ok spec
      → spec.failure ≡ fail_closed
  unfolding parse_isolation
  parse_isolation-fail_closed same (str t) raw d f h =
      raw_fails_closed same (field (str (codes "profile")) (str t) end) refl h
  parse_isolation-fail_closed same (dict fs) raw d f h =
      let e : fs ≡ raw = ground arith in raw_fails_closed same fs (rw (e) f) h
  parse_isolation-fail_closed same null raw d f h = cc
  parse_isolation-fail_closed same _ raw d f h = cc
