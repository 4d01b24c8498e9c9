-- ===== src/Channels/Folding.antt =====
-- What `update` of a BinaryOperatorAggregate computes.
use mathlib.Core.List.{foldl}
use langgraph_study.Prelude.{
  ◌≡◌, refl, ap, Bool, true, false, Option, none, some, List, [], ◌∷◌, Option-cases, inl, inr,
  arith, ◌∙◌,
}
use langgraph_study.Method.{Result, ok, err, invalid_update}
use langgraph_study.Values.{Value, get_overwrite}
use langgraph_study.Channels.BinaryOperatorAggregate.{
  BinaryOperatorAggregate, update_loop, update_from, update, set_value,
}

-- The values that the Overwrites among the updates carry.
unfoldable pub overwrites : List Value → List Value
overwrites [] = []
overwrites (v ∷ vs) = elim (get_overwrite v) [ some o ↦ o ∷ overwrites vs | none ↦ overwrites vs ]

-- A description of `update` that does not follow its loop.
unfoldable pub aggregate : (Value → Value → Value) → Value → List Value → List Value → Result Value
aggregate operator current values [] = ok (foldl operator current values)
aggregate operator current values (o ∷ []) = ok o
aggregate operator current values (o ∷ p ∷ os) = err invalid_update

-- The value after the loop, or the error.
outcome : Result Bool × Value → Result Value
outcome (ok updated, v) = ok v
outcome (err e, v) = err e

after_overwrite : Value → List Value → Result Value
after_overwrite o [] = ok o
after_overwrite o (p ∷ os) = err invalid_update

update_loop_seen :
    (operator : Value → Value → Value) (o : Value) (values : List Value)
    → outcome (update_loop operator true o values) ≡ after_overwrite o (overwrites values)
unfolding update_loop outcome overwrites after_overwrite
update_loop_seen operator o [] = refl
update_loop_seen operator o (v ∷ vs) = ground (arith, update_loop_seen operator o vs)

aggregate-cons :
    (operator : Value → Value → Value) (current v : Value) (vs os : List Value)
    → aggregate operator (operator current v) vs os ≡ aggregate operator current (v ∷ vs) os
unfolding aggregate
aggregate-cons operator current v vs [] = refl
aggregate-cons operator current v vs (o ∷ []) = refl
aggregate-cons operator current v vs (o ∷ p ∷ os) = refl

aggregate-overwrite :
    (operator : Value → Value → Value) (current o : Value) (vs os : List Value)
    → after_overwrite o os ≡ aggregate operator current vs (o ∷ os)
unfolding aggregate after_overwrite
aggregate-overwrite operator current o vs [] = refl
aggregate-overwrite operator current o vs (p ∷ os) = refl

update_loop-eq-aggregate :
    (operator : Value → Value → Value) (current : Value) (values : List Value)
    → outcome (update_loop operator false current values)
      ≡ aggregate operator current values (overwrites values)
unfolding update_loop overwrites aggregate outcome
update_loop-eq-aggregate operator current [] = refl
update_loop-eq-aggregate operator current (v ∷ vs) = elim (Option-cases (get_overwrite v)) [
  | inl e ↦
      rw (e, update_loop, overwrites)
        (update_loop-eq-aggregate operator (operator current v) vs
          ∙ aggregate-cons operator current v vs (overwrites vs))
  | inr (o, e) ↦
      rw (e, update_loop, overwrites)
        (update_loop_seen operator o vs
          ∙ aggregate-overwrite operator current o (v ∷ vs) (overwrites vs))
]

-- The value that a caller finds after `update`, or the error.
unfoldable pub updated_value : Result Bool × BinaryOperatorAggregate → Result (Option Value)
updated_value (ok updated, self) = ok self.value
updated_value (err e, self) = err e

unfoldable pub present : Result Value → Result (Option Value)
present (ok v) = ok (some v)
present (err e) = err e

updated_value-set_value :
    (self : BinaryOperatorAggregate) (r : Result Bool × Value)
    → updated_value (set_value self r) ≡ present (outcome r)
unfolding updated_value present outcome set_value
updated_value-set_value self (ok b, v) = refl
updated_value-set_value self (err e, v) = refl

-- `update` with some values of a channel that has a value folds the operator over them if there is no
-- Overwrite among them, gives the value of the Overwrite if there is one, wherever it stands, and
-- raises if there are more.
pub update-eq-aggregate :
    (self : BinaryOperatorAggregate) (current v : Value) (vs : List Value)
    → self.value ≡ some current
    → updated_value (update self (v ∷ vs))
      ≡ present (aggregate self.operator current (v ∷ vs) (overwrites (v ∷ vs)))
unfolding update update_from
update-eq-aggregate self current v vs h =
    rw (update, h, update_from)
      (updated_value-set_value self (update_loop self.operator false current (v ∷ vs))
        ∙ ap present (update_loop-eq-aggregate self.operator current (v ∷ vs)))

-- Without a value the channel takes the first of the values as it is and goes on from there: also an
-- Overwrite, which stays wrapped and does not count as one, so that one more may follow. Of the values
-- behind it what is said of a channel with a value holds.
pub update-eq-aggregate_empty :
    (self : BinaryOperatorAggregate) (v : Value) (vs : List Value)
    → self.value ≡ none
    → updated_value (update self (v ∷ vs)) ≡ present (aggregate self.operator v vs (overwrites vs))
unfolding update update_from
update-eq-aggregate_empty self v vs h =
    rw (update, h, update_from)
      (updated_value-set_value self (update_loop self.operator false v vs)
        ∙ ap present (update_loop-eq-aggregate self.operator v vs))
