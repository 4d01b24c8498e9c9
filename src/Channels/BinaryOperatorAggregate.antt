-- ===== src/Channels/BinaryOperatorAggregate.antt =====
-- `BinaryOperatorAggregate` of libs/langgraph/langgraph/channels/binop.py. `none` is MISSING. `empty`
-- is what the call `typ()` of the constructor gives, `none` where it raises.
use langgraph_study.Prelude.{
  Bool, true, false, Option, none, some, List, [], ◌∷◌, is_some, if◌then◌else◌,
}
use langgraph_study.Method.{invalid_update, Result, ok, err, or_empty}
use langgraph_study.Values.{Value, get_overwrite}

pub record BinaryOperatorAggregate : Type 0 where
  pub value : Option Value
  pub operator : Value → Value → Value
  pub empty : Option Value

unfoldable pub new : (Value → Value → Value) → Option Value → BinaryOperatorAggregate
new operator empty = record { value = empty; operator = operator; empty = empty }

unfoldable pub copy : BinaryOperatorAggregate → BinaryOperatorAggregate
unfolding new
copy self = record (new self.operator self.empty) { value = self.value }

unfoldable pub checkpoint : BinaryOperatorAggregate → Option Value
checkpoint self = self.value

unfoldable pub from_checkpoint : BinaryOperatorAggregate → Option Value → BinaryOperatorAggregate
unfolding new
from_checkpoint self none = new self.operator self.empty
from_checkpoint self (some checkpoint) = record (new self.operator self.empty) {
  value = some checkpoint;
}

-- The loop of `update` over the values that are left, from the current value and `seen_overwrite`.
-- The value stands beside an error too, as it was when the error was raised.
unfoldable pub update_loop :
    (Value → Value → Value) → Bool → Value → List Value → Result Bool × Value
update_loop operator seen_overwrite current [] = (ok true, current)
update_loop operator seen_overwrite current (v ∷ vs) = elim (get_overwrite v) [
  | some overwrite_value ↦ elim seen_overwrite [
    | true ↦ (err invalid_update, current)
    | false ↦ update_loop operator true overwrite_value vs
  ]
  | none ↦
      update_loop operator seen_overwrite (if seen_overwrite then current else operator current v)
        vs
]

unfoldable pub set_value :
    BinaryOperatorAggregate → Result Bool × Value → Result Bool × BinaryOperatorAggregate
set_value self (r, v) = (r, record self { value = some v })

unfoldable pub update_from :
    BinaryOperatorAggregate → Option Value → List Value → Result Bool × BinaryOperatorAggregate
unfolding update_loop set_value
update_from self none [] = (ok false, self)
update_from self (some current) [] = (ok false, self)
-- `self.value = values[0]; values = values[1:]`
update_from self none (v ∷ vs) = set_value self (update_loop self.operator false v vs)
update_from self (some current) (v ∷ vs) =
    set_value self (update_loop self.operator false current (v ∷ vs))

unfoldable pub update : BinaryOperatorAggregate → List Value → Result Bool × BinaryOperatorAggregate
unfolding update_from
update self values = update_from self self.value values

unfoldable pub get : BinaryOperatorAggregate → Result Value
get self = or_empty self.value

unfoldable pub is_available : BinaryOperatorAggregate → Bool
is_available self = is_some self.value
