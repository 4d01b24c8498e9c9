-- ===== src/Channels/LastValueAfterFinish.antt =====
-- `LastValueAfterFinish` of libs/langgraph/langgraph/channels/last_value.py. `none` is MISSING. A
-- checkpoint that is no pair of a value and a Boolean comes from no `checkpoint()`; unpacking it is a
-- `type_error`.
use langgraph_study.Prelude.{
  Bool, true, false, ◌&&◌, not, Option, none, some, List, [], ◌∷◌, is_some, get_last?,
  if◌then◌else◌,
}
use langgraph_study.Method.{empty_channel, type_error, Result, ok, err, or_empty}
use langgraph_study.Values.{Value, bool, tuple, nil, cons}

pub record LastValueAfterFinish : Type 0 where
  pub value : Option Value
  pub finished : Bool

unfoldable pub new : LastValueAfterFinish
new = record { value = none; finished = false }

pack : Option Value → Bool → Option Value
pack none finished = none
pack (some v) finished = some (tuple (cons v (cons (bool finished) nil)))

unfoldable pub checkpoint : LastValueAfterFinish → Option Value
unfolding pack
checkpoint self = pack self.value self.finished

unfoldable pub from_checkpoint : LastValueAfterFinish → Option Value → Result LastValueAfterFinish
unfolding new
from_checkpoint self none = ok new
from_checkpoint self (some (tuple (cons v (cons (bool finished) nil)))) =
    ok (record { value = some v; finished = finished })
from_checkpoint self (some v) = err type_error

-- The inherited `BaseChannel.copy` is `from_checkpoint(checkpoint())`.
unfoldable pub copy : LastValueAfterFinish → Result LastValueAfterFinish
unfolding checkpoint from_checkpoint
copy self = from_checkpoint self (checkpoint self)

unfoldable pub update : LastValueAfterFinish → List Value → Result Bool × LastValueAfterFinish
update self [] = (ok false, self)
update self (v ∷ vs) = (ok true, record { value = get_last? (v ∷ vs); finished = false })

unfoldable pub consume : LastValueAfterFinish → Bool × LastValueAfterFinish
consume self =
    if self.finished then (true, record { value = none; finished = false }) else (false, self)

unfoldable pub finish : LastValueAfterFinish → Bool × LastValueAfterFinish
finish self =
    if not self.finished && is_some self.value
    then (true, record self { finished = true })
    else (false, self)

unfoldable pub get : LastValueAfterFinish → Result Value
get self =
    if not (is_some self.value)
    then err empty_channel
    else if not self.finished
    then err empty_channel
    else or_empty self.value

unfoldable pub is_available : LastValueAfterFinish → Bool
is_available self = is_some self.value && self.finished
