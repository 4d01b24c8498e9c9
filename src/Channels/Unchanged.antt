-- ===== src/Channels/Unchanged.antt =====
-- The Boolean answers of `update`, `consume` and `finish`, on which the versions of channels rest.
use langgraph_study.Prelude.{
  ◌≡◌, Bool, true, false, List, [], ◌∷◌, Option, none, some, Option-cases, ◌≢◌, inl, inr, arith,
}
use langgraph_study.Method.{ok}
use langgraph_study.Values.{Value, get_overwrite}
use langgraph_study.Channels.NamedBarrierValue
use langgraph_study.Channels.BinaryOperatorAggregate
use langgraph_study.Channels.BinaryOperatorAggregate.{BinaryOperatorAggregate}
use langgraph_study.Channels.Channel.{
  Channel, update, consume, finish, last_value, binary_operator_aggregate, named_barrier_value,
  named_barrier_value_after_finish,
}

update_loop-false :
    (names seen values : List Value) (updated : Bool)
    → (NamedBarrierValue.update_loop names updated seen values).0 ≡ ok false
    → (updated ≡ false) × ((NamedBarrierValue.update_loop names updated seen values).1 ≡ seen)
unfolding NamedBarrierValue.update_loop
update_loop-false names seen [] updated h = ground arith
update_loop-false names seen (v ∷ vs) updated h =
    ground
      (arith, update_loop-false names seen vs updated, update_loop-false names (v ∷ seen) vs true)

update_loop-ne-false :
    (operator : Value → Value → Value) (seen : Bool) (current : Value) (values : List Value)
    → (BinaryOperatorAggregate.update_loop operator seen current values).0 ≢ ok false
unfolding BinaryOperatorAggregate.update_loop
update_loop-ne-false operator seen current [] h = cc
update_loop-ne-false operator true current (v ∷ vs) h =
    ground (arith, update_loop-ne-false operator true current vs)
update_loop-ne-false operator false current (v ∷ vs) h = elim (Option-cases (get_overwrite v)) [
  | inl e ↦
      update_loop-ne-false operator false (operator current v) vs
        (rw (e, BinaryOperatorAggregate.update_loop) at h)
  | inr (o, e) ↦
      update_loop-ne-false operator true o vs (rw (e, BinaryOperatorAggregate.update_loop) at h)
]

update_from-ne-false :
    (self : BinaryOperatorAggregate) (current : Option Value) (v : Value) (vs : List Value)
    → (BinaryOperatorAggregate.update_from self current (v ∷ vs)).0 ≢ ok false
unfolding BinaryOperatorAggregate.update_from
update_from-ne-false self none v vs h = update_loop-ne-false self.operator false v vs h
update_from-ne-false self (some current) v vs h =
    update_loop-ne-false self.operator false current (v ∷ vs) h

update_from-false :
    (self : BinaryOperatorAggregate) (values : List Value)
    → (BinaryOperatorAggregate.update self values).0 ≡ ok false
    → (BinaryOperatorAggregate.update self values).1 ≡ self
unfolding BinaryOperatorAggregate.update
update_from-false self [] h = ground arith
update_from-false self (v ∷ vs) h = absurd (update_from-ne-false self self.value v vs h)

-- A channel whose `update` answers False holds what it held before.
pub update-false :
    (c : Channel) (values : List Value) → (update c values).0 ≡ ok false → (update c values).1 ≡ c
unfolding update
update-false (binary_operator_aggregate c) vs h = ground (arith, update_from-false c vs)
update-false (named_barrier_value c) vs h =
    ground (arith, update_loop-false c.names c.seen vs false)
update-false (named_barrier_value_after_finish c) vs h =
    ground (arith, update_loop-false c.names c.seen vs false)
update-false _ vs h = ground arith

pub consume-false : (c : Channel) → (consume c).0 ≡ false → (consume c).1 ≡ c
unfolding consume
consume-false (last_value c) h = ground arith
consume-false _ h = ground arith

pub finish-false : (c : Channel) → (finish c).0 ≡ false → (finish c).1 ≡ c
unfolding finish
finish-false (last_value c) h = ground arith
finish-false _ h = ground arith
