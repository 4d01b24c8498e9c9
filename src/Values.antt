-- ===== src/Values.antt =====
-- The Python values that pass through channels, and `_get_overwrite` of
-- libs/langgraph/langgraph/channels/binop.py. `overwrite` is an instance of the dataclass
-- `Overwrite` (libs/langgraph/langgraph/types.py), `snapshot` one of `_DeltaSnapshot`, and `send` one
-- of `Send`. A dict is the list of its items in insertion order.
use Prim.Native.Nat.{ℕ}
use mathlib.Core.Bool.{decide, decide_iff}
use native.Mathlib.Decide.{ℕ_discrete}
use langgraph_study.Prelude.{
  Bool, true, ◌≡◌, ◌↔◌, String, List, [], ◌∷◌, Option, none, some, Bool-cases, inl, inr, str_eq,
  eq_iff, if◌then◌else◌,
}

mutual
  pub data Value : Type 0 where
    null : Value
    bool : Bool → Value
    num : ℕ → Value
    str : String → Value
    list : Items → Value
    tuple : Items → Value
    set : Items → Value
    dict : Fields → Value
    overwrite : Value → Value
    snapshot : Value → Value
    send : String → Value → Value

  pub data Items : Type 0 where
    nil : Items
    cons : Value → Items → Items

  pub data Fields : Type 0 where
    end : Fields
    field : String → Value → Fields → Fields

unfoldable pub String-discrete : Discrete String
String-discrete s t = elim (Bool-cases (str_eq s t)) [
  | inl e ↦ yes ((eq_iff s t).0 e)
  | inr e ↦ no (λ p. cc (e, (eq_iff s t).1 p))
]

unfoldable pub Value-discrete : Discrete Value
Value-discrete = hlevel (ℕ_discrete, String-discrete)

-- `a == b`, on values with no dict or set inside, where Python ignores the order.
unfoldable pub value_eq : Value → Value → Bool
unfolding Value-discrete String-discrete ℕ_discrete
value_eq a b = decide (Value-discrete a b)

pub value_eq_iff : (a b : Value) → (value_eq a b ≡ true) ↔ (a ≡ b)
unfolding value_eq
value_eq_iff a b = decide_iff (Value-discrete a b)

abbrev pub to_list : Items → List Value
to_list nil = []
to_list (cons v vs) = v ∷ to_list vs

abbrev pub from_list : List Value → Items
from_list [] = nil
from_list (v ∷ vs) = cons v (from_list vs)

-- `d.get(k)`, with `none` for an absent key
abbrev pub field? : String → Fields → Option Value
field? k end = none
field? k (field j v fs) = if str_eq j k then some v else field? k fs

-- `OVERWRITE` of libs/langgraph/langgraph/_internal/_constants.py
abbrev pub overwrite_key : String
overwrite_key = "__overwrite__"

-- `value.get("type") == OVERWRITE and "value" in value`
typed_overwrite : Option Value → Option Value → Option Value
typed_overwrite (some (str t)) (some v) = if str_eq t overwrite_key then some v else none
typed_overwrite _ _ = none

dict_overwrite : Fields → Option Value
unfolding typed_overwrite
dict_overwrite end = none
dict_overwrite (field k v end) =
    if str_eq k overwrite_key
    then some v
    else typed_overwrite (field? "type" (field k v end)) (field? "value" (field k v end))
dict_overwrite (field k v fs) =
    typed_overwrite (field? "type" (field k v fs)) (field? "value" (field k v fs))

-- `(True, v)` is `some v`, and `(False, None)` is `none`.
unfoldable pub get_overwrite : Value → Option Value
unfolding dict_overwrite
get_overwrite (overwrite v) = some v
get_overwrite (dict fs) = dict_overwrite fs
get_overwrite v = none
