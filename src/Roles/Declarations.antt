-- ===== src/Roles/Declarations.antt =====
-- What the loops over the components collect: for a role and a component, the component's provides
-- of the role, folded.
use msys_core.Common.{
  ◌≡◌, refl, Bool, not, ◌&&◌, ◌||◌, Option, none, some, List, [], ◌∷◌, arith, any, elem, filter,
  IsNodup, if◌then◌else◌,
}
use msys_core.Common.Int.{ℤ, max_ℤ}
use msys_core.Common.Text.{Text, text_eq, text_beq, text_beq_iff, codes}
use msys_core.Common.Dict.{get, put, keys, get-put, has-elem-keys}
use msys_core.Manifest.Types.{Component, Components, Provide}
use msys_core.Roles.Build.{
  Declared, Declarations, or_empty, fold_declared, declare, declare_all, declarations,
}

-- What is collected for a role and a component.
unfoldable pub declared_for : Text → Text → Declarations → Option Declared
declared_for role pid d = get pid (or_empty (get role d))

abbrev pub provides_role : Text → Provide → Bool
provides_role role p = text_beq p.kind (codes "role") && text_beq p.name role

-- The provides folded from the left, onto what is there.
unfoldable pub folded : Option Declared → List Provide → Option Declared
folded d [] = d
folded d (p ∷ ps) = folded (some (fold_declared d p)) ps

-- The highest priority, and whether any provide is exclusive.
unfoldable pub highest : ℤ → List Provide → ℤ
highest m [] = m
highest m (p ∷ ps) = highest (max_ℤ m p.priority) ps

abbrev pub summary : List Provide → Option Declared
summary [] = none
summary (p ∷ ps) = some (highest p.priority ps, any (λ q. q.exclusive) (p ∷ ps))

folded-summary :
    (m : ℤ) (x : Bool) (ps : List Provide)
    → folded (some (m, x)) ps ≡ some (highest m ps, x || any (λ q. q.exclusive) ps)
unfolding folded highest fold_declared
folded-summary m x [] = ground arith
folded-summary m x (p ∷ ps) =
    ground (arith, folded-summary (max_ℤ m p.priority) (x || p.exclusive) ps)

folded-none : (ps : List Provide) → folded none ps ≡ summary ps
unfolding folded fold_declared
folded-none [] = refl
folded-none (p ∷ ps) = folded-summary p.priority p.exclusive ps

none_declared : (role pid : Text) → declared_for role pid [] ≡ none
unfolding declared_for get
none_declared role pid = refl

abbrev pub provides_of : Text → Option Component → List Provide
provides_of role none = []
provides_of role (some c) = filter (provides_role role) c.provides

module _ (disabled : List Text) (role pid : Text) where
  abbrev enabled_here : Text → Bool
  enabled_here provider = not (elem role disabled) && text_beq provider pid

  declared_for-declare :
      (provider : Text) (d : Declarations) (p : Provide)
      → declared_for role pid (declare disabled provider d p) ≡ (
          if enabled_here provider && provides_role role p
          then some (fold_declared (declared_for role pid d) p)
          else declared_for role pid d)
  unfolding declared_for declare
  declared_for-declare provider d p = ground (
    arith,
    get-put p.name role
        (put provider (fold_declared (get provider (or_empty (get p.name d))) p)
          (or_empty (get p.name d)))
        d,
    get-put provider pid (fold_declared (get provider (or_empty (get p.name d))) p)
        (or_empty (get p.name d)),
    text_beq_iff p.name role,
    text_beq_iff provider pid,
  )

  declared_for-declare_all :
      (provider : Text) (d : Declarations) (ps : List Provide)
      → declared_for role pid (declare_all disabled provider d ps) ≡ (
          if enabled_here provider
          then folded (declared_for role pid d) (filter (provides_role role) ps)
          else declared_for role pid d)
  unfolding declare_all folded
  declared_for-declare_all provider d [] = ground arith
  declared_for-declare_all provider d (p ∷ ps) = ground (
    arith,
    declared_for-declare provider d p,
    declared_for-declare_all provider (declare disabled provider d p) ps,
  )

  declared_for-declarations :
      (d : Declarations) (components : Components)
      → IsNodup (keys components)
      → declared_for role pid (declarations disabled d components) ≡ (
          if elem role disabled
          then declared_for role pid d
          else folded (declared_for role pid d) (provides_of role (get pid components)))
  unfolding declarations get folded
  declared_for-declarations d [] h = ground arith
  declared_for-declarations d ((k, c) ∷ rest) h = ground (
    arith,
    declared_for-declare_all k d c.provides,
    declared_for-declarations (declare_all disabled k d c.provides) rest h.1,
    text_beq_iff k pid,
    has-elem-keys pid rest,
  )

  -- For a role that the profile does not disable, the catalog holds for a component the highest
  -- priority of its provides of the role, exclusive if any of them is; nothing for a component
  -- that does not provide the role, and nothing at all for a disabled role.
  pub declarations_lem :
      (components : Components)
      → IsNodup (keys components)
      → declared_for role pid (declarations disabled [] components)
        ≡ (if elem role disabled then none else summary (provides_of role (get pid components)))
  declarations_lem components h = ground (
    arith,
    declared_for-declarations [] components h,
    folded-none (provides_of role (get pid components)),
    none_declared role pid,
  )
