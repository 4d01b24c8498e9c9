-- ===== src/Channels/NamedBarrierValue.antt =====
-- `NamedBarrierValue` of libs/langgraph/langgraph/channels/named_barrier_value.py. A Python set is a
-- list whose order and repetitions mean nothing: `add` puts no value in twice, and `set_eq` is `==`.
-- A checkpoint that is no set comes from no `checkpoint()`, and is a `type_error`.
use langgraph_study.Prelude.{
  Bool, true, false, ◌&&◌, ◌||◌, not, Option, none, some, List, [], ◌∷◌, any, all, if◌then◌else◌,
}
use langgraph_study.Method.{empty_channel, invalid_update, type_error, Result, ok, err}
use langgraph_study.Values.{Value, null, set, value_eq, to_list, from_list}

-- `v in names`
unfoldable pub contains : List Value → Value → Bool
contains names v = any (value_eq v) names

-- `seen == names`, of sets
unfoldable pub set_eq : List Value → List Value → Bool
unfolding contains
set_eq seen names = all (contains names) seen && all (contains seen) names

pub record NamedBarrierValue : Type 0 where
  pub names : List Value
  pub seen : List Value

unfoldable pub new : List Value → NamedBarrierValue
new names = record { names = names; seen = [] }

unfoldable pub copy : NamedBarrierValue → NamedBarrierValue
unfolding new
copy self = record (new self.names) { seen = self.seen }

unfoldable pub checkpoint : NamedBarrierValue → Option Value
checkpoint self = some (set (from_list self.seen))

unfoldable pub from_checkpoint : NamedBarrierValue → Option Value → Result NamedBarrierValue
unfolding new
from_checkpoint self none = ok (new self.names)
from_checkpoint self (some (set vs)) = ok (record (new self.names) { seen = to_list vs })
from_checkpoint self (some v) = err type_error

-- The loop of `update`: the flag `updated`, and `seen`, which keeps what was added before an error.
unfoldable pub update_loop : List Value → Bool → List Value → List Value → Result Bool × List Value
update_loop names updated seen [] = (ok updated, seen)
update_loop names updated seen (v ∷ vs) = elim (contains names v) [
  | false ↦ (err invalid_update, seen)
  | true ↦
      update_loop names (updated || not (contains seen v))
        (if contains seen v then seen else v ∷ seen) vs
]

unfoldable pub update : NamedBarrierValue → List Value → Result Bool × NamedBarrierValue
unfolding update_loop
update self values =
    let (r, seen) = update_loop self.names false self.seen values in
    (r, record self { seen = seen })

unfoldable pub get : NamedBarrierValue → Result Value
get self = if not (set_eq self.seen self.names) then err empty_channel else ok null

unfoldable pub is_available : NamedBarrierValue → Bool
is_available self = set_eq self.seen self.names

unfoldable pub consume : NamedBarrierValue → Bool × NamedBarrierValue
consume self =
    if set_eq self.seen self.names then (true, record self { seen = [] }) else (false, self)
