-- ===== src/Services/Folding.antt =====
-- What the loops of `_build` collect for a service and a component.
use msys_core.Common.{
  ◌≡◌, refl, ◌∙◌, Bool, true, ◌&&◌, ◌||◌, Option, none, some, List, [], ◌∷◌, arith, any, filter,
  IsNodup, pair_eq, if◌then◌else◌,
}
use msys_core.Common.Int.{ℤ, max_ℤ}
use msys_core.Common.Text.{Text, text_eq, text_beq, text_beq_iff}
use msys_core.Common.Dict.{get, put, keys, get-put, has-elem-keys}
use msys_core.Manifest.Types.{Component, Components, Provide}
use msys_core.Services.{
  ServiceProvider, ServiceKey, Folded, is_service_kind, or_empty, merge_provider, provider_of,
  fold_provide, fold_provides, fold_components,
}

unfoldable pub collected : ServiceKey → Text → Folded → Option ServiceProvider
collected key pid folded = get pid (or_empty (get key folded))

abbrev pub provides_service : ServiceKey → Provide → Bool
provides_service key p = text_beq p.kind key.0 && text_beq p.name key.1

abbrev pub provides_of : ServiceKey → Option Component → List Provide
provides_of key none = []
provides_of key (some c) = filter (provides_service key) c.provides

-- The highest priority of the provides.
unfoldable pub highest : ℤ → List Provide → ℤ
highest m [] = m
highest m (p ∷ ps) = highest (max_ℤ m p.priority) ps

-- The provides of one component for one service as one provider: the highest priority, exclusive
-- if any of them is.
abbrev pub summary : ServiceKey → Text → List Provide → Option ServiceProvider
summary key pid [] = none
summary key pid (p ∷ ps) = some (record {
  kind = key.0;
  name = key.1;
  component = pid;
  priority = highest p.priority ps;
  exclusive = any (λ q. q.exclusive) (p ∷ ps);
})

merged : Text → Option ServiceProvider → List Provide → Option ServiceProvider
merged pid acc [] = acc
merged pid acc (p ∷ ps) = merged pid (some (merge_provider acc (provider_of pid p))) ps

merged-some :
    (key : ServiceKey) (pid : Text) (s : ServiceProvider) (ps : List Provide)
    → s.kind ≡ key.0
    → s.name ≡ key.1
    → s.component ≡ pid
    → merged pid (some s) (filter (provides_service key) ps)
      ≡ some (record {
        kind = key.0;
        name = key.1;
        component = pid;
        priority = highest s.priority (filter (provides_service key) ps);
        exclusive = s.exclusive || any (λ q. q.exclusive) (filter (provides_service key) ps);
      })
unfolding merged highest merge_provider
merged-some key pid s [] k n c = ground arith
merged-some key pid s (p ∷ ps) k n c = ground (
  arith,
  text_beq_iff p.kind key.0,
  text_beq_iff p.name key.1,
  merged-some key pid s ps k n c,
  merged-some key pid (merge_provider (some s) (provider_of pid p)) ps,
)

merged-none :
    (key : ServiceKey) (pid : Text) (ps : List Provide)
    → merged pid none (filter (provides_service key) ps)
      ≡ summary key pid (filter (provides_service key) ps)
unfolding merged merge_provider
merged-none key pid [] = refl
merged-none key pid (p ∷ ps) = ground (
  arith,
  text_beq_iff p.kind key.0,
  text_beq_iff p.name key.1,
  merged-none key pid ps,
  merged-some key pid (provider_of pid p) ps,
)

module _ (kind name pid : Text) (valid : is_service_kind kind ≡ true) where
  abbrev here : Folded → Option ServiceProvider
  here f = collected (kind, name) pid f

  abbrev matches : Provide → Bool
  matches = provides_service (kind, name)

  collected-fold_provide :
      (cid : Text) (f : Folded) (p : Provide)
      → here (fold_provide cid f p) ≡ (
          if text_beq cid pid && matches p
          then some (merge_provider (here f) (provider_of pid p))
          else here f)
  unfolding collected fold_provide
  collected-fold_provide cid f p =
      let old = or_empty (get (p.kind, p.name) f) in
      let merged_here = merge_provider (get cid old) (provider_of cid p) in
      ground (
        arith,
        get-put (p.kind, p.name) (kind, name) (put cid merged_here old) f,
        get-put cid pid merged_here old,
        text_beq_iff p.kind kind,
        text_beq_iff p.name name,
        text_beq_iff cid pid,
      )

  collected-fold_provides :
      (cid : Text) (f : Folded) (ps : List Provide)
      → here (fold_provides cid f ps)
        ≡ (if text_beq cid pid then merged pid (here f) (filter matches ps) else here f)
  unfolding fold_provides merged
  collected-fold_provides cid f [] = ground arith
  collected-fold_provides cid f (p ∷ ps) =
      ground (
        arith,
        collected-fold_provide cid f p,
        collected-fold_provides cid (fold_provide cid f p) ps,
      )

  collected-fold_components :
      (f : Folded) (components : Components)
      → IsNodup (keys components)
      → here (fold_components f components)
        ≡ merged pid (here f) (provides_of (kind, name) (get pid components))
  unfolding fold_components get merged
  collected-fold_components f [] h = refl
  collected-fold_components f ((k, c) ∷ rest) h = ground (
    arith,
    collected-fold_provides k f c.provides,
    collected-fold_components (fold_provides k f c.provides) rest h.1,
    text_beq_iff k pid,
    has-elem-keys pid rest,
  )

  provides_of-summary :
      (c : Option Component)
      → merged pid none (provides_of (kind, name) c)
        ≡ summary (kind, name) pid (provides_of (kind, name) c)
  unfolding merged
  provides_of-summary none = refl
  provides_of-summary (some c) = merged-none (kind, name) pid c.provides

  -- What is collected is the summary of the component's provides.
  pub collected_lem :
      (components : Components)
      → IsNodup (keys components)
      → here (fold_components [] components)
        ≡ summary (kind, name) pid (provides_of (kind, name) (get pid components))
  unfolding collected get
  collected_lem components h =
      unfold collected in
      (collected-fold_components [] components h ∙ provides_of-summary (get pid components))
