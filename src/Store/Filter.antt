-- ===== src/Store/Filter.antt =====
-- `_compare_values` and `_apply_operator` of libs/checkpoint/langgraph/store/memory/__init__.py. The
-- floats of Python, and what `float` makes of a value, are arguments.
use Prim.Native.Char.{code}
use langgraph_study.Prelude.{
  String, Bool, true, false, ◌||◌, ◌&&◌, not, Option, none, some, [], ◌∷◌, str_eq, if◌then◌else◌,
  nat_eq,
}
use langgraph_study.Method.{Result, ok, err, value_error, ◌>>=◌}
use langgraph_study.Values.{
  Value, null, dict, list, tuple, Items, nil, cons, Fields, Fields.end, field, field?, value_eq,
}
use langgraph_study.Dict.{Dict, get_or}

pub record Floats : Type 1 where
  pub Float : Type 0
  pub float : Value → Result Float
  pub greater : Float → Float → Bool
  pub greater_eq : Float → Float → Bool

-- `k.startswith("$")`
abbrev pub starts_operator : String → Bool
starts_operator String.[] = false
starts_operator (String.◌∷◌ c s) = nat_eq (code c) 36

abbrev pub any_operator : Fields → Bool
any_operator end = false
any_operator (field k v fs) = starts_operator k || any_operator fs

abbrev pub same_length : Items → Items → Bool
same_length nil nil = true
same_length (cons x xs) (cons y ys) = same_length xs ys
same_length xs ys = false

abbrev pub is_dict : Value → Bool
is_dict (dict fs) = true
is_dict v = false

abbrev pub fields_of : Value → Fields
fields_of (dict fs) = fs
fields_of v = end

abbrev pub is_sequence : Value → Bool
is_sequence (list vs) = true
is_sequence (tuple vs) = true
is_sequence v = false

abbrev pub elements_of : Value → Items
elements_of (list vs) = vs
elements_of (tuple vs) = vs
elements_of v = nil

abbrev pub or_null : Option Value → Value
or_null none = null
or_null (some v) = v

-- `all(...)` stops at the first test that fails.
abbrev pub and_also : Result Bool → Result Bool → Result Bool
and_also (ok true) rest = rest
and_also (ok false) rest = ok false
and_also (err e) rest = err e

module _ (floats : Floats) where
  abbrev pub compare_floats : (floats.Float → floats.Float → Bool) → Value → Value → Result Bool
  compare_floats test a b = do x ← floats.float a; y ← floats.float b; ok (test x y)

  unfoldable pub apply_operator : Value → String → Value → Result Bool
  apply_operator value operator op_value =
      if str_eq operator "$eq"
      then ok (value_eq value op_value)
      else if str_eq operator "$gt"
      then compare_floats floats.greater value op_value
      else if str_eq operator "$gte"
      then compare_floats floats.greater_eq value op_value
      else if str_eq operator "$lt"
      then compare_floats (λ x y. floats.greater y x) value op_value
      else if str_eq operator "$lte"
      then compare_floats (λ x y. floats.greater_eq y x) value op_value
      else if str_eq operator "$ne"
      then ok (not (value_eq value op_value))
      else err value_error

  unfoldable pub apply_operators : Value → Fields → Result Bool
  unfolding apply_operator
  apply_operators item end = ok true
  apply_operators item (field k v fs) = and_also (apply_operator item k v) (apply_operators item fs)

  unfoldable mutual
    unfolding apply_operators

    pub compare_values : Value → Value → Result Bool
    compare_values item (dict fs) =
        let operators = apply_operators item fs in
        let fields = compare_fields (fields_of item) fs in
        if any_operator fs then operators else if is_dict item then fields else ok false
    compare_values item (list vs) =
        let elements = compare_elements (elements_of item) vs in
        if is_sequence item && same_length (elements_of item) vs then elements else ok false
    compare_values item (tuple vs) =
        let elements = compare_elements (elements_of item) vs in
        if is_sequence item && same_length (elements_of item) vs then elements else ok false
    compare_values item v = ok (value_eq item v)

    pub compare_fields : Fields → Fields → Result Bool
    compare_fields found end = ok true
    compare_fields found (field k v fs) =
        and_also (compare_values (or_null (field? k found)) v) (compare_fields found fs)

    -- `zip(item_value, filter_value)`
    pub compare_elements : Items → Items → Result Bool
    compare_elements found nil = ok true
    compare_elements nil (cons v vs) = ok true
    compare_elements (cons i found) (cons v vs) =
        and_also (compare_values i v) (compare_elements found vs)

  -- `filter_func`
  unfoldable pub filter_func : Dict Value → Dict Value → Result Bool
  unfolding compare_values
  filter_func value [] = ok true
  filter_func value ((key, filter_value) ∷ filter) =
      and_also (compare_values (get_or key value null) filter_value) (filter_func value filter)
