-- ===== src/Pregel/ApplyWrites.antt =====
-- `apply_writes` of libs/langgraph/langgraph/pregel/_algo.py. The function mutates the checkpoint and
-- the channels, and an exception of `update` ends it where it stands. A set is the list of its
-- members in the order in which they came in; Python may visit the set of consumed channels in any
-- order.
use langgraph_study.Prelude.{
  ℕ, ◌+◌, String, Bool, true, false, ◌&&◌, not, Option, none, some, List, [], ◌∷◌, ◌++◌, any,
  nonempty, ltb, if◌then◌else◌,
}
use langgraph_study.Method.{Result, ok, err, and_then}
use langgraph_study.Values.{Value}
use langgraph_study.Dict
use langgraph_study.Dict.{Dict, add, has, get, put, get_or, mem, keys, values}
use langgraph_study.Channels.Channel
use langgraph_study.Channels.Channel.{Channel}
use langgraph_study.Pregel.Constants.{reserved_keys, control_keys}
use langgraph_study.Pregel.Checkpoint.{Checkpoint, ChannelVersions}
use langgraph_study.Pregel.Task.{PregelTaskWrites, sort_tasks}

-- `GetNextVersion`, of the version that is there, if one is
abbrev pub GetNextVersion : Type 0
GetNextVersion = Option ℕ → ℕ

-- `increment`
unfoldable pub increment : GetNextVersion
increment none = 1
increment (some current) = current + 1

-- What the loops of `apply_writes` read and write: the channels, `checkpoint["channel_versions"]` and
-- `updated_channels`.
pub record Board : Type 0 where
  pub channels : Dict Channel
  pub versions : ChannelVersions
  pub updated : List String

-- `{chan: versions[chan] for chan in triggers if chan in versions}`
unfoldable pub versions_of : ChannelVersions → List String → ChannelVersions
versions_of versions [] = []
versions_of versions (chan ∷ chans) = elim (get chan versions) [
  | none ↦ versions_of versions chans
  | some version ↦ (chan, version) ∷ versions_of versions chans
]

-- The loop that updates `checkpoint["versions_seen"]`.
unfoldable pub mark_seen :
    ChannelVersions → List PregelTaskWrites → Dict ChannelVersions → Dict ChannelVersions
unfolding versions_of
mark_seen versions [] seen = seen
mark_seen versions (task ∷ tasks) seen = mark_seen versions tasks (
    put task.name (Dict.update (get_or task.name seen []) (versions_of versions task.triggers))
      seen)

-- `max(versions) if versions else None`
unfoldable pub max_version : List ℕ → Option ℕ
max_version [] = none
max_version (version ∷ versions) = elim (max_version versions) [
  | none ↦ some version
  | some best ↦ some (if ltb version best then best else version)
]

unfoldable pub next_version_of : Option GetNextVersion → ChannelVersions → Option ℕ
unfolding max_version
next_version_of none versions = none
next_version_of (some get_next_version) versions =
    some (get_next_version (max_version (values versions)))

-- `if answer and next_version is not None: checkpoint["channel_versions"][chan] = next_version`, and,
-- where `marks`, `if channels[chan].is_available(): updated_channels.add(chan)`. The channel `c` is
-- the object after the method that gave the answer.
unfoldable pub record_answer : Bool → Option ℕ → String → Channel → Bool → Board → Board
unfolding add
record_answer marks (some next) chan c true board = record {
  channels = put chan c board.channels;
  versions = put chan next board.versions;
  updated = if marks && Channel.is_available c then add chan board.updated else board.updated;
}
record_answer marks next chan c answer board = record board { channels = put chan c board.channels }

unfoldable pub add_triggers : Dict Channel → List String → List String → List String
unfolding add
add_triggers channels [] chans = chans
add_triggers channels (chan ∷ triggers) chans =
    add_triggers channels triggers
      (if not (has chan reserved_keys) && mem chan channels then add chan chans else chans)

-- The channels that the tasks were triggered by, each once.
unfoldable pub consumed_channels : Dict Channel → List PregelTaskWrites → List String → List String
unfolding add_triggers
consumed_channels channels [] chans = chans
consumed_channels channels (task ∷ tasks) chans =
    consumed_channels channels tasks (add_triggers channels task.triggers chans)

unfoldable pub consume_all : Option ℕ → List String → Board → Board
unfolding record_answer
consume_all next [] board = board
consume_all next (chan ∷ chans) board = elim (get chan board.channels) [
  | none ↦ consume_all next chans board
  | some c ↦
      let (answer, c') = Channel.consume c in
      consume_all next chans (record_answer false next chan c' answer board)
]

-- The values of `pending_writes_by_channel`, in the order of the first write to each channel.
unfoldable pub group_writes :
    Dict Channel → List (String × Value) → Dict (List Value) → Dict (List Value)
group_writes channels [] pending = pending
group_writes channels ((chan, val) ∷ writes) pending = group_writes channels writes (
    if has chan control_keys
    then pending
    else if mem chan channels
    then put chan (get_or chan pending [] ++ val ∷ []) pending
    else pending)

unfoldable pub group_tasks :
    Dict Channel → List PregelTaskWrites → Dict (List Value) → Dict (List Value)
unfolding group_writes
group_tasks channels [] pending = pending
group_tasks channels (task ∷ tasks) pending =
    group_tasks channels tasks (group_writes channels task.writes pending)

-- The loop that applies the writes. Where `update` raises, the channel stays as it then is.
unfoldable pub update_all : Option ℕ → Dict (List Value) → Board → Result (Unit {0}) × Board
unfolding record_answer
update_all next [] board = (ok tt, board)
update_all next ((chan, vals) ∷ pending) board = elim (get chan board.channels) [
  | none ↦ update_all next pending board
  | some c ↦ elim (Channel.update c vals).0 [
    | err e ↦ (err e, record board { channels = put chan (Channel.update c vals).1 board.channels })
    | ok answer ↦
        update_all next pending
          (record_answer true next chan (Channel.update c vals).1 answer board)
  ]
]

-- The loop that notifies the channels that were not updated of a new step.
unfoldable pub notify_all : Option ℕ → List String → Board → Result (Unit {0}) × Board
unfolding record_answer
notify_all next [] board = (ok tt, board)
notify_all next (chan ∷ chans) board = elim (get chan board.channels) [
  | none ↦ notify_all next chans board
  | some c ↦ elim (Channel.is_available c && not (has chan board.updated)) [
    | false ↦ notify_all next chans board
    | true ↦ elim (Channel.update c []).0 [
      | err e ↦ (err e, record board { channels = put chan (Channel.update c []).1 board.channels })
      | ok answer ↦
          notify_all next chans (record_answer true next chan (Channel.update c []).1 answer board)
    ]
  ]
]

-- The loop that tells the channels that the run may be over.
unfoldable pub finish_all : Option ℕ → List String → Board → Board
unfolding record_answer
finish_all next [] board = board
finish_all next (chan ∷ chans) board = elim (get chan board.channels) [
  | none ↦ finish_all next chans board
  | some c ↦
      let (answer, c') = Channel.finish c in
      finish_all next chans (record_answer true next chan c' answer board)
]

-- The board when the writes have been applied: the steps of the new superstep, which are not made
-- for the writes of the null task, and the notice of the end.
unfoldable pub end_step : Bool → Option ℕ → Dict (List String) → Board → Result (Unit {0}) × Board
unfolding notify_all finish_all
end_step bump_step next trigger_to_nodes board =
    if bump_step
    then and_then (notify_all next (keys board.channels) board) (λ _ board'. (
      ok tt,
      if any (λ chan. mem chan trigger_to_nodes) board'.updated
          then board'
          else finish_all next (keys board'.channels) board',
    ))
    else (ok tt, board)

-- The board after all four loops, from the sorted tasks.
unfoldable pub run_loops :
    Option ℕ → Dict (List String) → List PregelTaskWrites → Board → Result (Unit {0}) × Board
unfolding consumed_channels consume_all group_tasks update_all end_step
run_loops next trigger_to_nodes tasks board =
    let consumed = consume_all next (consumed_channels board.channels tasks []) board in
    let bump_step = any (λ (t : PregelTaskWrites). nonempty t.triggers) tasks in
    and_then (update_all next (group_tasks consumed.channels tasks []) consumed)
      (λ _ board'. end_step bump_step next trigger_to_nodes board')

-- The outcome: the set of updated channels or the error, the checkpoint and the channels.
pub record Applied : Type 0 where
  pub answer : Result (List String)
  pub checkpoint : Checkpoint
  pub channels : Dict Channel

unfoldable pub answer_of : Result (Unit {0}) × Board → Result (List String)
answer_of (ok _, board) = ok board.updated
answer_of (err e, board) = err e

abbrev pub start_board : Checkpoint → Dict Channel → Board
start_board checkpoint channels = record {
  channels = channels;
  versions = checkpoint.channel_versions;
  updated = [];
}

unfoldable pub apply_writes :
    Checkpoint
    → Dict Channel
    → List PregelTaskWrites
    → Option GetNextVersion
    → Dict (List String)
    → Applied
apply_writes checkpoint channels tasks get_next_version trigger_to_nodes =
    let sorted = sort_tasks tasks in
    let next = next_version_of get_next_version checkpoint.channel_versions in
    let final = run_loops next trigger_to_nodes sorted (start_board checkpoint channels) in
    record {
      answer = answer_of final;
      checkpoint = record checkpoint {
        versions_seen = mark_seen checkpoint.channel_versions sorted checkpoint.versions_seen;
        channel_versions = final.1.versions;
      };
      channels = final.1.channels;
    }
