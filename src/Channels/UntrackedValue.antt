-- ===== src/Channels/UntrackedValue.antt =====
-- `UntrackedValue` of libs/langgraph/langgraph/channels/untracked_value.py. `none` is MISSING.
use langgraph_study.Prelude.{
  Bool, true, false, Option, none, some, List, [], ◌∷◌, is_some, get_last?, if◌then◌else◌,
}
use langgraph_study.Method.{invalid_update, Result, ok, err, or_empty}
use langgraph_study.Values.{Value}

pub record UntrackedValue : Type 0 where
  pub value : Option Value
  pub guard : Bool

unfoldable pub new : Bool → UntrackedValue
new guard = record { value = none; guard = guard }

unfoldable pub copy : UntrackedValue → UntrackedValue
unfolding new
copy self = record (new self.guard) { value = self.value }

unfoldable pub checkpoint : UntrackedValue → Option Value
checkpoint self = none

unfoldable pub from_checkpoint : UntrackedValue → Option Value → UntrackedValue
unfolding new
from_checkpoint self checkpoint = new self.guard

unfoldable pub update : UntrackedValue → List Value → Result Bool × UntrackedValue
update self [] = (ok false, self)
update self (v ∷ []) = (ok true, record self { value = some v })
update self (v ∷ w ∷ vs) =
    if self.guard
    then (err invalid_update, self)
    else (ok true, record self { value = get_last? (v ∷ w ∷ vs) })

unfoldable pub get : UntrackedValue → Result Value
get self = or_empty self.value

unfoldable pub is_available : UntrackedValue → Bool
is_available self = is_some self.value
