-- ===== src/Channels/NamedBarrierValueAfterFinish.antt =====
-- `NamedBarrierValueAfterFinish` of libs/langgraph/langgraph/channels/named_barrier_value.py, with
-- the sets and the loop of `NamedBarrierValue`, whose `update` is the same text.
use langgraph_study.Prelude.{
  Bool, true, false, ◌&&◌, ◌||◌, not, Option, none, some, List, [], if◌then◌else◌,
}
use langgraph_study.Method.{empty_channel, type_error, Result, ok, err}
use langgraph_study.Values.{Value, null, bool, set, tuple, nil, cons, to_list, from_list}
use langgraph_study.Channels.NamedBarrierValue.{set_eq, update_loop}

pub record NamedBarrierValueAfterFinish : Type 0 where
  pub names : List Value
  pub seen : List Value
  pub finished : Bool

unfoldable pub new : List Value → NamedBarrierValueAfterFinish
new names = record { names = names; seen = []; finished = false }

unfoldable pub copy : NamedBarrierValueAfterFinish → NamedBarrierValueAfterFinish
unfolding new
copy self = record (new self.names) { seen = self.seen; finished = self.finished }

unfoldable pub checkpoint : NamedBarrierValueAfterFinish → Option Value
checkpoint self = some (tuple (cons (set (from_list self.seen)) (cons (bool self.finished) nil)))

unfoldable pub from_checkpoint :
    NamedBarrierValueAfterFinish → Option Value → Result NamedBarrierValueAfterFinish
unfolding new
from_checkpoint self none = ok (new self.names)
from_checkpoint self (some (tuple (cons (set vs) (cons (bool finished) nil)))) =
    ok (record (new self.names) { seen = to_list vs; finished = finished })
from_checkpoint self (some v) = err type_error

unfoldable pub update :
    NamedBarrierValueAfterFinish → List Value → Result Bool × NamedBarrierValueAfterFinish
unfolding update_loop
update self values =
    let (r, seen) = update_loop self.names false self.seen values in
    (r, record self { seen = seen })

unfoldable pub get : NamedBarrierValueAfterFinish → Result Value
get self =
    if not self.finished || not (set_eq self.seen self.names) then err empty_channel else ok null

unfoldable pub is_available : NamedBarrierValueAfterFinish → Bool
is_available self = self.finished && set_eq self.seen self.names

unfoldable pub consume : NamedBarrierValueAfterFinish → Bool × NamedBarrierValueAfterFinish
consume self =
    if self.finished && set_eq self.seen self.names
    then (true, record self { finished = false; seen = [] })
    else (false, self)

unfoldable pub finish : NamedBarrierValueAfterFinish → Bool × NamedBarrierValueAfterFinish
finish self =
    if not self.finished && set_eq self.seen self.names
    then (true, record self { finished = true })
    else (false, self)
