-- ===== src/Channels/DeltaChannel.antt =====
-- `DeltaChannel` of libs/langgraph/langgraph/channels/delta.py. `none` is MISSING, `empty` is what
-- `typ()` gives, and `copy.copy` is the identity on values, which are immutable here. A reducer that
-- would be handed MISSING, which no caller of `replay_writes` lets happen, is a `type_error`.
use langgraph_study.Prelude.{
  ℕ, ◌+◌, Bool, true, false, String, Option, none, some, List, [], ◌∷◌, map, is_some, drop, leb,
  if◌then◌else◌,
}
use langgraph_study.Method.{invalid_update, type_error, value_error, Result, ok, err, or_empty}
use langgraph_study.Values.{Value, null, snapshot, get_overwrite}

pub record DeltaChannel : Type 0 where
  pub value : Option Value
  pub reducer : Value → List Value → Value
  pub empty : Value
  pub snapshot_frequency : ℕ

abbrev pub fresh : DeltaChannel → DeltaChannel
fresh self = record self { value = none }

-- The constructor.
unfoldable pub new : (Value → List Value → Value) → Value → ℕ → Result DeltaChannel
new reducer empty snapshot_frequency =
    if leb snapshot_frequency 0
    then err value_error
    else ok (record {
      value = none;
      reducer = reducer;
      empty = empty;
      snapshot_frequency = snapshot_frequency;
    })

unfoldable pub copy : DeltaChannel → DeltaChannel
copy self = record (fresh self) { value = self.value }

unfoldable pub checkpoint : DeltaChannel → Option Value
checkpoint self = none

unfoldable pub from_checkpoint : DeltaChannel → Option Value → DeltaChannel
from_checkpoint self none = record (fresh self) { value = some self.empty }
from_checkpoint self (some (snapshot v)) = record (fresh self) { value = some v }
from_checkpoint self (some v) = record (fresh self) { value = some v }

-- `copy(ow_value) if ow_value is not None else self.typ()`
unfoldable pub reset_value : Value → Value → Value
reset_value empty null = empty
reset_value empty v = v

-- A pending write: the task's id, the channel and the value.
abbrev pub PendingWrite : Type 0
PendingWrite = String × String × Value

-- The loop of `replay_writes`: `base` and `start` after the values from the index `i` on.
unfoldable pub replay_scan : Value → Option Value → ℕ → ℕ → List Value → Option Value × ℕ
unfolding reset_value
replay_scan empty base start i [] = (base, start)
replay_scan empty base start i (v ∷ vs) = elim (get_overwrite v) [
  | some ow_value ↦ replay_scan empty (some (reset_value empty ow_value)) (i + 1) (i + 1) vs
  | none ↦ replay_scan empty base start (i + 1) vs
]

-- `self.value = self.reducer(base, remaining) if remaining else base`
unfoldable pub replay_finish :
    DeltaChannel → Option Value → List Value → Result (Unit {0}) × DeltaChannel
replay_finish self base [] = (ok tt, record self { value = base })
replay_finish self none (v ∷ vs) = (err type_error, self)
replay_finish self (some b) (v ∷ vs) =
    (ok tt, record self { value = some (self.reducer b (v ∷ vs)) })

unfoldable pub replay_values : DeltaChannel → List Value → Result (Unit {0}) × DeltaChannel
unfolding replay_scan replay_finish
replay_values self [] = (ok tt, self)
replay_values self (v ∷ vs) =
    let (base, start) = replay_scan self.empty self.value 0 0 (v ∷ vs) in
    replay_finish self base (drop start (v ∷ vs))

unfoldable pub replay_writes : DeltaChannel → List PendingWrite → Result (Unit {0}) × DeltaChannel
unfolding replay_values
replay_writes self writes = replay_values self (map (λ w. w.2) writes)

-- The loop of `update` that looks for the one Overwrite; `found` is its value.
unfoldable pub find_overwrite : Option Value → List Value → Result (Option Value)
find_overwrite found [] = ok found
find_overwrite found (v ∷ vs) = elim (get_overwrite v) [
  | some ow_value ↦ elim found [
    | some _ ↦ err invalid_update
    | none ↦ find_overwrite (some ow_value) vs
  ]
  | none ↦ find_overwrite found vs
]

-- `self.typ() if self.value is MISSING else self.value`
unfoldable pub base_value : Value → Option Value → Value
base_value empty none = empty
base_value empty (some v) = v

unfoldable pub apply_batch :
    DeltaChannel → List Value → Result (Option Value) → Result Bool × DeltaChannel
unfolding reset_value base_value
apply_batch self values (err e) = (err e, self)
apply_batch self values (ok (some overwrite_value)) =
    (ok true, record self { value = some (reset_value self.empty overwrite_value) })
apply_batch self values (ok none) =
    (ok true, record self { value = some (self.reducer (base_value self.empty self.value) values) })

unfoldable pub update : DeltaChannel → List Value → Result Bool × DeltaChannel
unfolding find_overwrite apply_batch
update self [] = (ok false, self)
update self (v ∷ vs) = apply_batch self (v ∷ vs) (find_overwrite none (v ∷ vs))

unfoldable pub get : DeltaChannel → Result Value
get self = or_empty self.value

unfoldable pub is_available : DeltaChannel → Bool
is_available self = is_some self.value
