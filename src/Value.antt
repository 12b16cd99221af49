-- ===== src/Value.antt =====
-- The values that Python's `json` returns, and those that only Python code can pass: what an
-- argument annotated `object` or `Any` may be.
use mathlib.Core.Bool.{Bool, true, false, not, ◌||◌}
use mathlib.Core.Option.{Option, none, some}
use mathlib.Core.List.{List, [], ◌∷◌}
use msys_core.Common.{is_some}
use msys_core.Common.Text.{Text, codes, text_beq}
use msys_core.Common.Int.{ℤ, pos, ℤ_beq}

mutual
  pub data Value : Type 0 where
    null : Value
    bool : Bool → Value
    int : ℤ → Value
    -- a float: whether it is finite, and a text that tells floats apart
    float : Bool → Text → Value
    str : Text → Value
    list : Items → Value
    dict : Fields → Value
    -- any other object, by the name of its class
    object : Text → Value

  pub data Items : Type 0 where
    nil : Items
    cons : Value → Items → Items

  -- the items of a dict in insertion order; a key need not be a string
  pub data Fields : Type 0 where
    end : Fields
    field : Value → Value → Fields → Fields

abbrev pub items : Items → List Value
items nil = []
items (cons v vs) = v ∷ items vs

-- `value == t` for a string `t`
abbrev pub is_str : Text → Value → Bool
is_str t (str s) = text_beq s t
is_str t _ = false

-- `value.get(t)` for a string `t`
abbrev pub get_field : Text → Fields → Option Value
get_field t end = none
get_field t (field k v fs) = elim (is_str t k) [ true ↦ some v | false ↦ get_field t fs ]

-- `value.get(t, default)`
abbrev pub get_or : Text → Value → Fields → Value
get_or t default fs = elim (get_field t fs) [ none ↦ default | some v ↦ v ]

-- `t in value`
abbrev pub has_field : Text → Fields → Bool
has_field t fs = is_some (get_field t fs)

-- `value[name] = new`
unfoldable pub put_field : Text → Value → Fields → Fields
put_field name value end = field (str name) value end
put_field name value (field k v fields) = elim (is_str name k) [
  | true ↦ field k value fields
  | false ↦ field k v (put_field name value fields)
]

-- `bool(value)`: a float is false if it is a zero, and an object of another class is true.
unfoldable pub truth : Value → Bool
truth null = false
truth (bool b) = b
truth (int n) = not (ℤ_beq n (pos 0))
truth (float finite t) = not (text_beq t (codes "0.0") || text_beq t (codes "-0.0"))
truth (str []) = false
truth (str (c ∷ t)) = true
truth (list nil) = false
truth (list (cons v vs)) = true
truth (dict end) = false
truth (dict (field k v fs)) = true
truth (object t) = true
