-- ===== src/Channels/Persistence.antt =====
-- What a checkpoint of a channel keeps.
use langgraph_study.Prelude.{◌≡◌, refl, true, List, [], ◌∷◌, Option, none, some, is_some, arith, ap}
use langgraph_study.Method.{ok}
use langgraph_study.Values.{Value, to_list, from_list}
use langgraph_study.Channels.BinaryOperatorAggregate
use langgraph_study.Channels.BinaryOperatorAggregate.{BinaryOperatorAggregate}
use langgraph_study.Channels.Channel.{
  Channel, last_value, last_value_after_finish, untracked_value, topic, binary_operator_aggregate,
  named_barrier_value, named_barrier_value_after_finish, delta_channel, copy, checkpoint,
  from_checkpoint, update, consume, finish,
}

pub to_list-from_list : (vs : List Value) → to_list (from_list vs) ≡ vs
to_list-from_list [] = refl
to_list-from_list (v ∷ vs) = ap (λ l. v ∷ l) (to_list-from_list vs)

-- The classes whose checkpoint is their state. UntrackedValue and DeltaChannel write no checkpoint.
abbrev pub IsTracked : Channel → Type 0
IsTracked (untracked_value c) = ⊥
IsTracked (delta_channel c) = ⊥
IsTracked _ = Unit

-- What every channel made by a constructor and changed by its methods satisfies: a finished
-- LastValueAfterFinish has a value, and a BinaryOperatorAggregate has one if `typ()` gives one.
abbrev pub IsValid : Channel → Type 0
IsValid (last_value_after_finish c) = c.finished ≡ true → is_some c.value ≡ true
IsValid (binary_operator_aggregate c) = is_some c.empty ≡ true → is_some c.value ≡ true
IsValid _ = Unit

-- The copy of a valid channel has the state of the channel.
copy-eq-ok : (c : Channel) → IsValid c → copy c ≡ ok c
unfolding copy
copy-eq-ok (last_value c) v = ground arith
copy-eq-ok _ v = ground arith

-- Restoring a valid channel from its own checkpoint gives back its state, in every class but
-- UntrackedValue and DeltaChannel.
pub from_checkpoint-checkpoint :
    (c : Channel) → IsValid c → IsTracked c → from_checkpoint c (checkpoint c) ≡ ok c
unfolding checkpoint from_checkpoint
from_checkpoint-checkpoint (topic c) v t = rw to_list-from_list
from_checkpoint-checkpoint (named_barrier_value c) v t = rw to_list-from_list
from_checkpoint-checkpoint (named_barrier_value_after_finish c) v t = rw to_list-from_list
from_checkpoint-checkpoint _ v t = ground arith

update_from-value :
    (self : BinaryOperatorAggregate) (current : Option Value) (values : List Value)
    → is_some current ≡ true
    → is_some self.value ≡ true
    → is_some (BinaryOperatorAggregate.update_from self current values).1.value ≡ true
unfolding BinaryOperatorAggregate.update_from
update_from-value self none values h k = cc
update_from-value self (some current) [] h k = k
update_from-value self (some current) (v ∷ vs) h k = refl

update-empty :
    (self : BinaryOperatorAggregate) (current : Option Value) (values : List Value)
    → (BinaryOperatorAggregate.update_from self current values).1.empty ≡ self.empty
unfolding BinaryOperatorAggregate.update_from
update-empty self none [] = refl
update-empty self none (v ∷ vs) = refl
update-empty self (some current) [] = refl
update-empty self (some current) (v ∷ vs) = refl

-- A valid channel stays valid, also where `update` raises.
pub update-IsValid : (c : Channel) (values : List Value) → IsValid c → IsValid (update c values).1
unfolding update
update-IsValid (last_value_after_finish c) values v = ground arith
update-IsValid (binary_operator_aggregate c) values v =
    λ h. let given = v (rw update-empty at h) in update_from-value c c.value values given given
update-IsValid (last_value c) values v = tt
update-IsValid _ values v = tt

pub consume-IsValid : (c : Channel) → IsValid c → IsValid (consume c).1
unfolding consume
consume-IsValid (last_value_after_finish c) v = ground arith
consume-IsValid (last_value c) v = v
consume-IsValid _ v = v

pub finish-IsValid : (c : Channel) → IsValid c → IsValid (finish c).1
unfolding finish
finish-IsValid (last_value_after_finish c) v = ground arith
finish-IsValid (last_value c) v = v
finish-IsValid _ v = v
