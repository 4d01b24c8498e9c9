-- ===== src/Channels/Samples.antt =====
-- Channels with concrete values, and what their methods do.
use mathlib.Core.Bool.{decide}
use mathlib.Core.List.{flatten}
use langgraph_study.Prelude.{
  false, ◌≡◌, ◌≢◌, refl, true, none, some, List, [], ◌∷◌, all, ◌||◌, Bool-cases,
}
use langgraph_study.Method.{invalid_update, ok}
use langgraph_study.Values.{
  Value, Value-discrete, String-discrete, value_eq, null, num, str, overwrite, get_overwrite,
}
use langgraph_study.Channels.LastValueAfterFinish
use langgraph_study.Channels.LastValueAfterFinish.{LastValueAfterFinish}
use langgraph_study.Channels.BinaryOperatorAggregate
use langgraph_study.Channels.BinaryOperatorAggregate.{BinaryOperatorAggregate}
use langgraph_study.Channels.NamedBarrierValue
use langgraph_study.Channels.NamedBarrierValue.{NamedBarrierValue}
use langgraph_study.Channels.DeltaChannel
use langgraph_study.Channels.DeltaChannel.{DeltaChannel, PendingWrite}
use langgraph_study.Channels.Channel
use langgraph_study.Channels.Channel.{
  Channel, last_value, last_value_after_finish, binary_operator_aggregate, topic,
}
use langgraph_study.Channels.Availability.{is_available-eq-by_get, is_available_by_get}
use langgraph_study.Channels.Unchanged.{update-false}
use langgraph_study.Channels.Reached.{updates, finishes, from_checkpoint-change_all}
use langgraph_study.Channels.Persistence.{from_checkpoint-checkpoint}
use langgraph_study.Channels.Barrier
use langgraph_study.Channels.Barrier.{is_available-run_updates}
use langgraph_study.Channels.Folding.{
  update-eq-aggregate, update-eq-aggregate_empty, updated_value, present, aggregate, overwrites,
}
use langgraph_study.Channels.Settle.{IsBatchingInvariant, overwrite_only_last}
use langgraph_study.Channels.Replay
use langgraph_study.Channels.Replay.{replay-eq-run_updates, replay-ne-update}
use langgraph_study.Channels.Steps.{update-err}

-- The reducer that keeps the last value.
abbrev pub keep_last : Value → List Value → Value
keep_last state [] = state
keep_last state (v ∷ vs) = keep_last v vs

keep_last-IsBatchingInvariant : IsBatchingInvariant keep_last null
keep_last-IsBatchingInvariant state [] ys = refl
keep_last-IsBatchingInvariant state (x ∷ xs) ys = keep_last-IsBatchingInvariant x xs ys

abbrev pub delta : DeltaChannel
delta = record { value = some (num 1); reducer = keep_last; empty = null; snapshot_frequency = 5 }

abbrev steps : List (List Value)
steps = (num 2 ∷ overwrite (num 3) ∷ []) ∷ (num 4 ∷ num 5 ∷ []) ∷ []

abbrev writes : List PendingWrite
writes =
    ("t1", "c", num 2)
    ∷ ("t2", "c", overwrite (num 3))
    ∷ ("t3", "c", num 4)
    ∷ ("t4", "c", num 5)
    ∷ []

program : Unit {0}
unfolding DeltaChannel.replay_writes flatten overwrite_only_last get_overwrite Channel.update
    NamedBarrierValue.contains NamedBarrierValue.update Barrier.run_updates Barrier.received
    value_eq Value-discrete String-discrete Bool-cases decide LastValueAfterFinish.update
program = tt

replay-eq-run_updates_example :
    (final : DeltaChannel) × (Replay.run_updates delta steps ≡ ok final)
    × (DeltaChannel.replay_writes delta writes ≡ (ok tt, final))
unfolding program
replay-eq-run_updates_example =
    replay-eq-run_updates delta (num 1) steps writes keep_last-IsBatchingInvariant refl refl refl

abbrev step : List Value
step = num 2 ∷ overwrite (num 3) ∷ num 4 ∷ []

four-ne-three : DeltaChannel.reset_value null (num 4) ≢ DeltaChannel.reset_value null (num 3)
unfolding DeltaChannel.reset_value
four-ne-three e = cc

replay-ne-update_example :
    (DeltaChannel.update delta step ≡ (ok true, record delta { value = some (num 3) }))
    × (DeltaChannel.replay_values delta step ≡ (ok tt, record delta { value = some (num 4) }))
    × ((DeltaChannel.update delta step).1 ≢ (DeltaChannel.replay_values delta step).1)
unfolding program DeltaChannel.reset_value
replay-ne-update_example =
    replay-ne-update delta (num 1) (overwrite (num 3)) (num 3) (num 4) (num 2 ∷ []) [] refl refl
      refl refl four-ne-three

abbrev barrier : NamedBarrierValue
barrier = record { names = str "a" ∷ str "b" ∷ []; seen = [] }

abbrev arrivals : List (List Value)
arrivals = (str "b" ∷ []) ∷ (str "a" ∷ str "b" ∷ []) ∷ []

abbrev full : NamedBarrierValue
full = record { names = str "a" ∷ str "b" ∷ []; seen = str "a" ∷ str "b" ∷ [] }

is_available-run_updates_example :
    NamedBarrierValue.is_available full
    ≡ all
        (λ n. NamedBarrierValue.contains [] n || Barrier.received arrivals n)
        (str "a" ∷ str "b" ∷ [])
unfolding program
is_available-run_updates_example = is_available-run_updates barrier full arrivals refl refl

abbrev latest : BinaryOperatorAggregate
latest = record { value = some (num 1); operator = λ a b. b; empty = some null }

update-eq-aggregate_example :
    updated_value (BinaryOperatorAggregate.update latest (num 2 ∷ overwrite (num 3) ∷ num 4 ∷ []))
    ≡ present (
        aggregate
          (λ a b. b)
          (num 1)
          (num 2 ∷ overwrite (num 3) ∷ num 4 ∷ [])
          (overwrites (num 2 ∷ overwrite (num 3) ∷ num 4 ∷ [])))
update-eq-aggregate_example =
    update-eq-aggregate latest (num 1) (num 2) (overwrite (num 3) ∷ num 4 ∷ []) refl

-- The Overwrite that comes first stays wrapped, and does not count.
update-eq-aggregate_empty_example :
    updated_value (
      BinaryOperatorAggregate.update
        (record latest { value = none })
        (overwrite (num 3) ∷ num 4 ∷ overwrite (num 5) ∷ []))
    ≡ ok (some (num 5))
unfolding program present aggregate overwrites
update-eq-aggregate_empty_example =
    update-eq-aggregate_empty (record latest { value = none }) (overwrite (num 3))
      (num 4 ∷ overwrite (num 5) ∷ []) refl

abbrev finished : Channel
finished = last_value_after_finish (record { value = some (num 7); finished = true })

abbrev items : Channel
items = topic (record { values = num 1 ∷ num 2 ∷ []; accumulate = true })

from_checkpoint-checkpoint_example :
    Channel.from_checkpoint items (Channel.checkpoint items) ≡ ok items
from_checkpoint-checkpoint_example = from_checkpoint-checkpoint items tt tt

is_available-eq-by_get_example :
    Channel.is_available finished ≡ is_available_by_get (Channel.get finished)
is_available-eq-by_get_example = is_available-eq-by_get finished

update-false_example : (Channel.update finished []).1 ≡ finished
unfolding program
update-false_example = update-false finished [] refl

abbrev last : Channel
last = last_value (record { value = some (num 1) })

update-err_example : (Channel.update last (num 2 ∷ num 3 ∷ [])).1 ≡ last
unfolding program
update-err_example = update-err last (num 2 ∷ num 3 ∷ []) invalid_update tt refl

abbrev unset : Channel
unset = last_value_after_finish (record { value = none; finished = false })

from_checkpoint-change_all_example :
    Channel.from_checkpoint finished (Channel.checkpoint finished) ≡ ok finished
unfolding Channel.update Channel.finish Channel.from_checkpoint LastValueAfterFinish.from_checkpoint
from_checkpoint-change_all_example =
    from_checkpoint-change_all finished unset (updates (num 7 ∷ []) ∷ finishes ∷ []) refl tt
