-- ===== src/Channels/EphemeralValue.antt =====
-- `EphemeralValue` of libs/langgraph/langgraph/channels/ephemeral_value.py. `none` is MISSING.
use langgraph_study.Prelude.{
  Bool, true, false, Option, none, some, List, [], ◌∷◌, is_some, get_last?, if◌then◌else◌,
}
use langgraph_study.Method.{invalid_update, Result, ok, err, or_empty}
use langgraph_study.Values.{Value}

pub record EphemeralValue : Type 0 where
  pub value : Option Value
  pub guard : Bool

unfoldable pub new : Bool → EphemeralValue
new guard = record { value = none; guard = guard }

unfoldable pub copy : EphemeralValue → EphemeralValue
unfolding new
copy self = record (new self.guard) { value = self.value }

unfoldable pub checkpoint : EphemeralValue → Option Value
checkpoint self = self.value

unfoldable pub from_checkpoint : EphemeralValue → Option Value → EphemeralValue
unfolding new
from_checkpoint self none = new self.guard
from_checkpoint self (some checkpoint) = record (new self.guard) { value = some checkpoint }

unfoldable pub update : EphemeralValue → List Value → Result Bool × EphemeralValue
update self [] =
    if is_some self.value then (ok true, record self { value = none }) else (ok false, self)
update self (v ∷ []) = (ok true, record self { value = some v })
update self (v ∷ w ∷ vs) =
    if self.guard
    then (err invalid_update, self)
    else (ok true, record self { value = get_last? (v ∷ w ∷ vs) })

unfoldable pub get : EphemeralValue → Result Value
get self = or_empty self.value

unfoldable pub is_available : EphemeralValue → Bool
is_available self = is_some self.value
