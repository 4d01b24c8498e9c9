-- ===== src/Channels/Reached.antt =====
-- The channels that a graph reaches from its start, with the methods of libs/langgraph/langgraph/channels.
use langgraph_study.Prelude.{◌≡◌, List, [], ◌∷◌, none, subst, ap}
use langgraph_study.Method.{Result, ok, err}
use langgraph_study.Values.{Value}
use langgraph_study.Channels.BinaryOperatorAggregate
use langgraph_study.Channels.LastValueAfterFinish
use langgraph_study.Channels.Channel.{
  Channel, last_value, last_value_after_finish, binary_operator_aggregate, checkpoint,
  from_checkpoint, update, consume, finish,
}
use langgraph_study.Channels.Persistence.{
  IsValid, IsTracked, update-IsValid, consume-IsValid, finish-IsValid, from_checkpoint-checkpoint,
}

-- The methods that change a channel.
pub data Change : Type 0 where
  updates : List Value → Change
  consumes : Change
  finishes : Change

abbrev pub change : Change → Channel → Channel
change (updates values) c = (update c values).1
change consumes c = (consume c).1
change finishes c = (finish c).1

abbrev pub change_all : List Change → Channel → Channel
change_all [] c = c
change_all (s ∷ steps) c = change_all steps (change s c)

change-IsValid : (s : Change) (c : Channel) → IsValid c → IsValid (change s c)
change-IsValid (updates values) c v = update-IsValid c values v
change-IsValid consumes c v = consume-IsValid c v
change-IsValid finishes c v = finish-IsValid c v

update-IsTracked : (c : Channel) (values : List Value) → IsTracked c → IsTracked (update c values).1
unfolding update
update-IsTracked (last_value c) values t = tt
update-IsTracked _ values t = t

consume-IsTracked : (c : Channel) → IsTracked c → IsTracked (consume c).1
unfolding consume
consume-IsTracked (last_value c) t = t
consume-IsTracked _ t = t

finish-IsTracked : (c : Channel) → IsTracked c → IsTracked (finish c).1
unfolding finish
finish-IsTracked (last_value c) t = t
finish-IsTracked _ t = t

change-IsTracked : (s : Change) (c : Channel) → IsTracked c → IsTracked (change s c)
change-IsTracked (updates values) c t = update-IsTracked c values t
change-IsTracked consumes c t = consume-IsTracked c t
change-IsTracked finishes c t = finish-IsTracked c t

channel_or : Channel → Result Channel → Channel
channel_or c (ok d) = d
channel_or c (err e) = c

start-IsValid : (c d : Channel) → from_checkpoint c none ≡ ok d → IsValid d
unfolding from_checkpoint channel_or BinaryOperatorAggregate.from_checkpoint
    LastValueAfterFinish.from_checkpoint
start-IsValid (last_value c) d e = subst IsValid (ap (channel_or d) e) tt
start-IsValid (last_value_after_finish c) d e = subst IsValid (ap (channel_or d) e) (λ h. cc)
start-IsValid (binary_operator_aggregate c) d e = subst IsValid (ap (channel_or d) e) (λ h. h)
start-IsValid _ d e = subst IsValid (ap (channel_or d) e) tt

-- Whatever updates, consumptions and ends a channel has gone through, each of which may raise, since it
-- was made without a checkpoint, its own checkpoint restores it with its state. This is for every class
-- but UntrackedValue and DeltaChannel.
pub from_checkpoint-change_all :
    (c d : Channel) (steps : List Change)
    → from_checkpoint c none ≡ ok d
    → IsTracked d
    → from_checkpoint (change_all steps d) (checkpoint (change_all steps d))
      ≡ ok (change_all steps d)
from_checkpoint-change_all c d steps e t = restored steps d (start-IsValid c d e) t
  where
    restored :
        (steps : List Change) (d : Channel)
        → IsValid d
        → IsTracked d
        → from_checkpoint (change_all steps d) (checkpoint (change_all steps d))
          ≡ ok (change_all steps d)
    restored [] d v t = from_checkpoint-checkpoint d v t
    restored (s ∷ steps) d v t =
        restored steps (change s d) (change-IsValid s d v) (change-IsTracked s d t)
