-- ===== src/Channels/Steps.antt =====
-- How a channel behaves over the calls of a step.
use langgraph_study.Prelude.{◌≡◌, refl, true, false, none, List, [], ◌∷◌, get_last?, is_some, arith}
use langgraph_study.Method.{Error, err, or_empty}
use langgraph_study.Values.{Value}
use langgraph_study.Channels.LastValueAfterFinish
use langgraph_study.Channels.LastValueAfterFinish.{LastValueAfterFinish}
use langgraph_study.Channels.Channel.{
  Channel, update, last_value, binary_operator_aggregate, named_barrier_value,
  named_barrier_value_after_finish,
}

get_last?-cons : (v : Value) (vs : List Value) → is_some (get_last? (v ∷ vs)) ≡ true
get_last?-cons v [] = refl
get_last?-cons v (w ∷ vs) = get_last?-cons w vs

-- A LastValueAfterFinish hides what a step writes until `finish`, then gives the last value written,
-- and `consume` takes it away: the checkpoint is empty again.
finish-consume_cycle :
    (self : LastValueAfterFinish) (v : Value) (vs : List Value)
    → let written = (LastValueAfterFinish.update self (v ∷ vs)).1 in
      let finished = (LastValueAfterFinish.finish written).1 in
      let consumed = (LastValueAfterFinish.consume finished).1 in
      (LastValueAfterFinish.is_available written ≡ false)
      × (LastValueAfterFinish.is_available finished ≡ true)
      × (LastValueAfterFinish.get finished ≡ or_empty (get_last? (v ∷ vs)))
      × (LastValueAfterFinish.is_available consumed ≡ false)
      × (LastValueAfterFinish.checkpoint consumed ≡ none)
unfolding LastValueAfterFinish.update LastValueAfterFinish.finish LastValueAfterFinish.consume
    LastValueAfterFinish.is_available LastValueAfterFinish.get LastValueAfterFinish.checkpoint
finish-consume_cycle self v vs = ground (arith, get_last?-cons v vs)

-- The classes whose `update` checks its values before it changes anything.
abbrev pub ChecksFirst : Channel → Type 0
ChecksFirst (binary_operator_aggregate c) = ⊥
ChecksFirst (named_barrier_value c) = ⊥
ChecksFirst (named_barrier_value_after_finish c) = ⊥
ChecksFirst _ = Unit

-- An `update` that raises leaves the channel as it was, in every class but BinaryOperatorAggregate
-- and the two barriers.
pub update-err :
    (c : Channel) (values : List Value) (e : Error)
    → ChecksFirst c
    → (update c values).0 ≡ err e
    → (update c values).1 ≡ c
unfolding update
update-err (last_value c) values e k h = ground arith
update-err (binary_operator_aggregate c) values e k h = absurd k
update-err (named_barrier_value c) values e k h = absurd k
update-err (named_barrier_value_after_finish c) values e k h = absurd k
update-err _ values e k h = ground arith
