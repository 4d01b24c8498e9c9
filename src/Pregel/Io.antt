-- ===== src/Pregel/Io.antt =====
-- `read_channel`, `read_channels`, `map_input`, `map_output_values` and `map_output_updates` of
-- libs/langgraph/langgraph/pregel/_io.py. A generator is the list of what it yields. Warnings are not
-- modelled.
use langgraph_study.Prelude.{
  ℕ, suc, String, Bool, true, ◌||◌, not, Option, none, some, List, [], ◌∷◌, ◌++◌, any, ltb,
  nonempty, str_eq, if◌then◌else◌,
}
use langgraph_study.Method.{
  empty_channel, type_error, key_error, index_error, Result, ok, err, ◌>>=◌,
}
use langgraph_study.Values.{Value, null, bool, list, dict, Fields, end, field, from_list}
use langgraph_study.Dict.{Dict, has, get, put, get_or}
use langgraph_study.Channels.Channel
use langgraph_study.Channels.Channel.{Channel}
use langgraph_study.Pregel.Constants.{error_key, interrupt_key, return_key}

-- `str | Sequence[str]`
pub data Select : Type 0 where
  one : String → Select
  many : List String → Select

-- `channels[chan]`, a KeyError if there is none
abbrev pub at_key {ℓ} : {A : Type ℓ} → String → Dict A → Result A
at_key k d = elim (get k d) [ none ↦ err key_error | some a ↦ ok a ]

-- `except EmptyChannelError: if catch: return None else: raise`
abbrev pub catch_empty : Bool → Result Value → Result Value
catch_empty true (err empty_channel) = ok null
catch_empty catch r = r

unfoldable pub read_channel : Dict Channel → String → Bool → Result Value
read_channel channels chan catch = do c ← at_key chan channels; catch_empty catch (Channel.get c)

-- The loop of `read_channels` with `skip_empty`.
unfoldable pub read_each : Dict Channel → Bool → List String → Dict Value → Result (Dict Value)
unfolding read_channel
read_each channels skip_empty [] values = ok values
read_each channels skip_empty (k ∷ ks) values = elim (read_channel channels k (not skip_empty)) [
  | ok v ↦ read_each channels skip_empty ks (put k v values)
  | err e ↦ elim e [ empty_channel ↦ read_each channels skip_empty ks values | other ↦ err other ]
]

-- `dict[str, Any] | Any`
pub data ReadResult : Type 0 where
  single : Value → ReadResult
  several : Dict Value → ReadResult

unfoldable pub read_channels : Dict Channel → Select → Bool → Result ReadResult
unfolding read_each
read_channels channels (one k) skip_empty = do v ← read_channel channels k true; ok (single v)
read_channels channels (many ks) skip_empty = do
  values ← read_each channels skip_empty ks []
  ok (several values)

map_fields : List String → Fields → List (String × Value)
map_fields input_channels end = []
map_fields input_channels (field k v fs) =
    if has k input_channels
    then (k, v) ∷ map_fields input_channels fs
    else map_fields input_channels fs

unfoldable pub map_input : Select → Value → Result (List (String × Value))
unfolding map_fields
map_input input_channels null = ok []
map_input (one k) chunk = ok ((k, chunk) ∷ [])
map_input (many ks) (dict fs) = ok (map_fields ks fs)
map_input (many ks) chunk = err type_error

-- `Literal[True] | Sequence[tuple[str, Any]]`
pub data PendingWrites : Type 0 where
  all_written : PendingWrites
  written : List (String × Value) → PendingWrites

unfoldable pub is_written : PendingWrites → List String → Bool
is_written all_written chans = true
is_written (written writes) chans = any (λ (w : String × Value). has w.0 chans) writes

unfoldable pub map_output_values : Select → PendingWrites → Dict Channel → Result (List ReadResult)
unfolding is_written read_channels
map_output_values (one k) pending channels =
    if is_written pending (k ∷ [])
    then (do r ← read_channels channels (one k) true; ok (r ∷ []))
    else ok []
map_output_values (many ks) pending channels =
    if is_written pending ks
    then (do r ← read_channels channels (many ks) true; ok (r ∷ []))
    else ok []

-- What `map_output_updates` reads of a task: its name, and whether its tags hold TAG_HIDDEN.
pub record OutputTask : Type 0 where
  pub name : String
  pub hidden : Bool
  pub writes : List (String × Value)

-- The tasks that are shown: `ww[0][0]` is an IndexError for a task with no writes, if its tags show it.
unfoldable pub output_tasks : List OutputTask → Result (List OutputTask)
output_tasks [] = ok []
output_tasks (t ∷ ts) =
    let rest = output_tasks ts in
    if t.hidden then rest else elim t.writes [
      | [] ↦ err index_error
      | w ∷ ws ↦
          if str_eq w.0 error_key || str_eq w.0 interrupt_key
          then rest
          else (do shown ← rest; ok (t ∷ shown))
    ]

-- `next((value for chan, value in writes if chan == RETURN), MISSING)`
unfoldable pub first_return : List (String × Value) → Option Value
first_return [] = none
first_return ((chan, v) ∷ writes) = if str_eq chan return_key then some v else first_return writes

-- `counts[chan]`
unfoldable pub count_writes : String → List (String × Value) → ℕ
count_writes chan [] = 0
count_writes chan ((c, v) ∷ writes) =
    let n = count_writes chan writes in if str_eq c chan then suc n else n

-- `(value for chan, value in writes if chan == output_channels)`
unfoldable pub values_at : String → List (String × Value) → List Value
values_at chan [] = []
values_at chan ((c, v) ∷ writes) =
    if str_eq c chan then v ∷ values_at chan writes else values_at chan writes

-- `{chan: value}` for each write to an output channel
unfoldable pub one_dicts : List String → List (String × Value) → List Value
one_dicts chans [] = []
one_dicts chans ((c, v) ∷ writes) =
    if has c chans then dict (field c v end) ∷ one_dicts chans writes else one_dicts chans writes

-- `{chan: value for chan, value in writes if chan in output_channels}`
unfoldable pub joint_dict : List String → List (String × Value) → Dict Value → Dict Value
joint_dict chans [] d = d
joint_dict chans ((c, v) ∷ writes) d =
    joint_dict chans writes (if has c chans then put c v d else d)

abbrev pub to_fields : Dict Value → Fields
to_fields [] = end
to_fields ((k, v) ∷ d) = field k v (to_fields d)

-- What a task adds to `updated`, under its name.
unfoldable pub task_updates : Select → List (String × Value) → List Value
unfolding first_return count_writes values_at one_dicts joint_dict
task_updates output writes = elim (first_return writes) [
  | some rtn ↦ rtn ∷ []
  | none ↦ elim output [
    | one chan ↦ values_at chan writes
    | many chans ↦
        if any (λ (w : String × Value). has w.0 chans) writes
        then if any (λ chan. ltb 1 (count_writes chan writes)) chans
          then one_dicts chans writes
          else dict (to_fields (joint_dict chans writes [])) ∷ []
        else []
  ]
]

-- `grouped[node].append(value)` for the updates of one task
unfoldable pub group_updates : Select → List OutputTask → Dict (List Value) → Dict (List Value)
unfolding task_updates
group_updates output [] grouped = grouped
group_updates output (t ∷ ts) grouped =
    group_updates output ts
      (put t.name (get_or t.name grouped [] ++ task_updates output t.writes) grouped)

-- No update is None, one update stands alone, and more stand in a list.
unfoldable pub shown_value : List Value → Value
shown_value [] = null
shown_value (v ∷ []) = v
shown_value (v ∷ w ∷ vs) = list (from_list (v ∷ w ∷ vs))

unfoldable pub show_grouped : Dict (List Value) → Dict Value
unfolding shown_value
show_grouped [] = []
show_grouped ((node, vs) ∷ grouped) = (node, shown_value vs) ∷ show_grouped grouped

unfoldable pub map_output_updates : Select → List OutputTask → Bool → Result (List (Dict Value))
unfolding output_tasks group_updates show_grouped
map_output_updates output tasks cached = do
  shown ← output_tasks tasks
  let grouped = show_grouped (group_updates output shown [])
  if nonempty shown
      then ok (
          (if cached
            then put "__metadata__" (dict (field "cached" (bool cached) end)) grouped
            else grouped)
          ∷ [])
      else ok []
