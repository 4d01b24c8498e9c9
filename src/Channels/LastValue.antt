-- ===== src/Channels/LastValue.antt =====
-- `LastValue` of libs/langgraph/langgraph/channels/last_value.py. `none` is MISSING.
use langgraph_study.Prelude.{Bool, true, false, Option, none, some, List, [], ◌∷◌, is_some}
use langgraph_study.Method.{invalid_update, Result, ok, err, or_empty}
use langgraph_study.Values.{Value}

pub record LastValue : Type 0 where
  pub value : Option Value

unfoldable pub new : LastValue
new = record { value = none }

unfoldable pub copy : LastValue → LastValue
copy self = record { value = self.value }

unfoldable pub checkpoint : LastValue → Option Value
checkpoint self = self.value

unfoldable pub from_checkpoint : LastValue → Option Value → LastValue
unfolding new
from_checkpoint self none = new
from_checkpoint self (some checkpoint) = record new { value = some checkpoint }

unfoldable pub update : LastValue → List Value → Result Bool × LastValue
update self [] = (ok false, self)
update self (v ∷ []) = (ok true, record self { value = some v })
update self (v ∷ w ∷ vs) = (err invalid_update, self)

unfoldable pub get : LastValue → Result Value
get self = or_empty self.value

unfoldable pub is_available : LastValue → Bool
is_available self = is_some self.value
