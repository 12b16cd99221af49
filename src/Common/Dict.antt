-- ===== src/Common/Dict.antt =====
-- Python's `dict` as its list of items, in insertion order.
use mathlib.Core.Path.{◌≡◌, refl}
use Prim.Native.Nat.{suc}
use mathlib.Core.Bool.{Bool, true, false, ◌||◌}
use mathlib.Core.Option.{Option, none, some}
use mathlib.Core.List.{List, [], ◌∷◌, ◌++◌, map}
use native.Mathlib.Omega.{arith}
use msys_core.Common.Tests.{PyEq, ◌==◌, if◌then◌else◌, is_some}
use msys_core.Common.Lists.{elem, IsNodup, length}

abbrev pub Dict {ℓ κ} : Type ℓ → Type κ → Type (ℓ ⊔ κ)
Dict K V = List (K × V)

module _ {ℓ κ} {K : Type ℓ} {V : Type κ} where
  -- `list(d)` and `list(d.values())`
  abbrev pub keys : Dict K V → List K
  keys = map (λ e. e.0)

  abbrev pub values : Dict K V → List V
  values = map (λ e. e.1)

  module _ ⦃e : PyEq K⦄ where
    -- `d.get(k)`
    unfoldable pub get : K → Dict K V → Option V
    get k [] = none
    get k ((j, v) ∷ d) = if j == k then some v else get k d

    -- `k in d`
    abbrev pub has : K → Dict K V → Bool
    has k d = is_some (get k d)

    -- `d[k] = v`: an old key keeps its place.
    unfoldable pub put : K → V → Dict K V → Dict K V
    put k v [] = (k, v) ∷ []
    put k v ((j, w) ∷ d) = if j == k then (j, v) ∷ d else (j, w) ∷ put k v d

    -- `d.pop(k, None)`
    unfoldable pub remove : K → Dict K V → Dict K V
    remove k [] = []
    remove k ((j, v) ∷ d) = if j == k then d else (j, v) ∷ remove k d

    pub get-put :
        (k j : K) (v : V) (d : Dict K V) → get j (put k v d) ≡ (if k == j then some v else get j d)
    unfolding get put
    get-put k j v [] = refl
    get-put k j v ((i, w) ∷ d) =
        ground (arith, e.same_iff k j, e.same_iff i k, e.same_iff i j, get-put k j v d)

    pub has-elem-keys : (k : K) (d : Dict K V) → has k d ≡ elem k (keys d)
    unfolding get
    has-elem-keys k [] = refl
    has-elem-keys k ((j, v) ∷ d) = ground (arith, has-elem-keys k d)

    pub elem-keys-put :
        (k j : K) (v : V) (d : Dict K V) → elem j (keys (put k v d)) ≡ (k == j || elem j (keys d))
    unfolding put
    elem-keys-put k j v [] = refl
    elem-keys-put k j v ((i, w) ∷ d) =
        ground (arith, e.same_iff k j, e.same_iff i k, e.same_iff i j, elem-keys-put k j v d)

    pub keys-put-IsNodup :
        (k : K) (v : V) (d : Dict K V) → IsNodup (keys d) → IsNodup (keys (put k v d))
    unfolding put
    keys-put-IsNodup k v [] h = (refl, tt)
    keys-put-IsNodup k v ((i, w) ∷ d) h =
        ground
          (arith, e.same_iff i k, e.same_iff k i, elem-keys-put k i v d, keys-put-IsNodup k v d h.1)

    pub elem-keys-remove_ne :
        (k j : K) (d : Dict K V) → elem j (keys (remove k d)) ≡ true → elem j (keys d) ≡ true
    unfolding remove
    elem-keys-remove_ne k j [] h = h
    elem-keys-remove_ne k j ((i, w) ∷ d) h = ground (arith, elem-keys-remove_ne k j d)

    -- A new key stands last.
    pub put_new : (k : K) (v : V) (d : Dict K V) → has k d ≡ false → put k v d ≡ d ++ ((k, v) ∷ [])
    unfolding get put
    put_new k v [] h = refl
    put_new k v ((i, w) ∷ d) h = ground (arith, put_new k v d)

    pub get-last :
        (k : K) (v : V) (d : Dict K V) → has k d ≡ false → get k (d ++ ((k, v) ∷ [])) ≡ some v
    unfolding get
    get-last k v [] h = ground (arith, e.same_iff k k)
    get-last k v ((i, w) ∷ d) h = ground (arith, get-last k v d)

    pub remove-last :
        (k : K) (v : V) (d : Dict K V) → has k d ≡ false → remove k (d ++ ((k, v) ∷ [])) ≡ d
    unfolding get remove
    remove-last k v [] h = ground (arith, e.same_iff k k)
    remove-last k v ((i, w) ∷ d) h = ground (arith, remove-last k v d)

    pub length-remove :
        (k : K) (d : Dict K V) → has k d ≡ true → suc (length (remove k d)) ≡ length d
    unfolding get remove
    length-remove k [] h = cc
    length-remove k ((i, w) ∷ d) h = ground (arith, length-remove k d)

    -- Where no key stands twice, `pop` forgets the key and no other.
    pub get-remove :
        (k j : K) (d : Dict K V)
        → IsNodup (keys d)
        → get j (remove k d) ≡ (if k == j then none else get j d)
    unfolding get remove
    get-remove k j [] h = ground arith
    get-remove k j ((i, w) ∷ d) h = ground (
      arith,
      e.same_iff k j,
      e.same_iff i k,
      e.same_iff i j,
      get-remove k j d h.1,
      has-elem-keys j d,
    )

    pub has-remove : (k : K) (d : Dict K V) → IsNodup (keys d) → has k (remove k d) ≡ false
    has-remove k d h = ground (arith, e.same_iff k k, get-remove k k d h)

    pub keys-remove-IsNodup :
        (k : K) (d : Dict K V) → IsNodup (keys d) → IsNodup (keys (remove k d))
    unfolding remove
    keys-remove-IsNodup k [] h = h
    keys-remove-IsNodup k ((i, w) ∷ d) h =
        ground (arith, elem-keys-remove_ne k i d, keys-remove-IsNodup k d h.1)
