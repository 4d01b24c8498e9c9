-- ===== src/Channels/AnyValue.antt =====
-- `AnyValue` of libs/langgraph/langgraph/channels/any_value.py. `none` is MISSING.
use langgraph_study.Prelude.{
  Bool, true, false, Option, none, some, List, [], ◌∷◌, is_some, get_last?, if◌then◌else◌,
}
use langgraph_study.Method.{Result, ok, or_empty}
use langgraph_study.Values.{Value}

pub record AnyValue : Type 0 where
  pub value : Option Value

unfoldable pub new : AnyValue
new = record { value = none }

unfoldable pub copy : AnyValue → AnyValue
unfolding new
copy self = record new { value = self.value }

unfoldable pub checkpoint : AnyValue → Option Value
checkpoint self = self.value

unfoldable pub from_checkpoint : AnyValue → Option Value → AnyValue
unfolding new
from_checkpoint self none = new
from_checkpoint self (some checkpoint) = record new { value = some checkpoint }

unfoldable pub update : AnyValue → List Value → Result Bool × AnyValue
update self [] =
    if is_some self.value then (ok true, record self { value = none }) else (ok false, self)
update self (v ∷ vs) = (ok true, record self { value = get_last? (v ∷ vs) })

unfoldable pub get : AnyValue → Result Value
get self = or_empty self.value

unfoldable pub is_available : AnyValue → Bool
is_available self = is_some self.value
