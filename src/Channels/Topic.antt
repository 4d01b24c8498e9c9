-- ===== src/Channels/Topic.antt =====
-- `Topic` of libs/langgraph/langgraph/channels/topic.py. A checkpoint is the list of values, or the
-- pair of an older version whose second part is that list; any other comes from no `checkpoint()`,
-- and is a `type_error` here.
use langgraph_study.Prelude.{
  Bool, true, false, not, Option, none, some, List, [], ◌∷◌, ◌++◌, nonempty, if◌then◌else◌,
}
use langgraph_study.Method.{empty_channel, type_error, Result, ok, err}
use langgraph_study.Values.{Value, list, tuple, cons, to_list, from_list}

pub record Topic : Type 0 where
  pub values : List Value
  pub accumulate : Bool

unfoldable pub new : Bool → Topic
new accumulate = record { values = []; accumulate = accumulate }

unfoldable pub flatten : List Value → List Value
flatten [] = []
flatten (list vs ∷ values) = to_list vs ++ flatten values
flatten (v ∷ values) = v ∷ flatten values

unfoldable pub copy : Topic → Topic
unfolding new
copy self = record (new self.accumulate) { values = self.values }

unfoldable pub checkpoint : Topic → Option Value
checkpoint self = some (list (from_list self.values))

unfoldable pub from_checkpoint : Topic → Option Value → Result Topic
unfolding new
from_checkpoint self none = ok (new self.accumulate)
from_checkpoint self (some (tuple (cons _ (cons (list vs) _)))) =
    ok (record (new self.accumulate) { values = to_list vs })
from_checkpoint self (some (list vs)) = ok (record (new self.accumulate) { values = to_list vs })
from_checkpoint self (some v) = err type_error

-- The flag and the list after `if not self.accumulate: ...`.
cleared : Topic → Bool × List Value
cleared self = if not self.accumulate then (nonempty self.values, []) else (false, self.values)

unfoldable pub update : Topic → List Value → Result Bool × Topic
unfolding cleared flatten
update self values =
    let (updated, kept) = cleared self in
    let flat_values = flatten values in
    if nonempty flat_values
    then (ok true, record self { values = kept ++ flat_values })
    else (ok updated, record self { values = kept })

unfoldable pub get : Topic → Result Value
get self = if nonempty self.values then ok (list (from_list self.values)) else err empty_channel

unfoldable pub is_available : Topic → Bool
is_available self = nonempty self.values
