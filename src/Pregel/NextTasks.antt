-- ===== src/Pregel/NextTasks.antt =====
-- Which nodes run in the next step: `should_interrupt`, `checkpoint_null_version`, `_triggers`, and
-- the PULL tasks of `prepare_next_tasks` and `prepare_single_task`, with `_proc_input`, of
-- libs/langgraph/langgraph/pregel/_algo.py. A task is the name of its node and its input; its id, its
-- metadata, what its runnable does and the cache of inputs are not modelled, nor are mappers and managed values.
-- Of `task.config` the tags are read, in which a task is hidden or not.
use langgraph_study.Prelude.{
  ℕ, String, Bool, true, false, ◌&&◌, ◌||◌, not, Option, none, some, List, [], ◌∷◌, ltb, nonempty,
  if◌then◌else◌,
}
use langgraph_study.Method.{Result, ok, ◌>>=◌}
use langgraph_study.Values.{Value, dict}
use langgraph_study.Dict.{Dict, add, has, get, put, get_or, keys}
use langgraph_study.Channels.Channel
use langgraph_study.Channels.Channel.{Channel}
use langgraph_study.Pregel.Constants.{interrupt_key}
use langgraph_study.Pregel.Checkpoint.{Checkpoint, ChannelVersions}
use langgraph_study.Pregel.Task.{codes, str_leb}
use langgraph_study.Pregel.Io.{Select, one, many, at_key, to_fields}

-- `All | Sequence[str]`
pub data Nodes : Type 0 where
  all_nodes : Nodes
  named : List String → Nodes

pub record ExecutableTask : Type 0 where
  pub name : String
  pub hidden : Bool

-- `version > seen.get(chan, null_version)` for some channel. The null version of integers is 0.
unfoldable pub any_updates_since : ChannelVersions → ChannelVersions → Bool
any_updates_since seen [] = false
any_updates_since seen ((chan, version) ∷ versions) =
    ltb (get_or chan seen 0) version || any_updates_since seen versions

abbrev pub is_interrupted : Nodes → ExecutableTask → Bool
is_interrupted all_nodes task = not task.hidden
is_interrupted (named nodes) task = has task.name nodes

unfoldable pub select_tasks : Nodes → List ExecutableTask → List ExecutableTask
select_tasks nodes [] = []
select_tasks nodes (task ∷ tasks) =
    if is_interrupted nodes task then task ∷ select_tasks nodes tasks else select_tasks nodes tasks

unfoldable pub should_interrupt : Checkpoint → Nodes → List ExecutableTask → List ExecutableTask
unfolding any_updates_since select_tasks
should_interrupt checkpoint nodes tasks =
    if any_updates_since (get_or interrupt_key checkpoint.versions_seen [])
      checkpoint.channel_versions
    then select_tasks nodes tasks
    else []

-- What is read of a `PregelNode`: also whether its `node`, the runnable, is there.
pub record PregelNode : Type 0 where
  pub triggers : List String
  pub channels : Select
  pub has_node : Bool

unfoldable pub checkpoint_null_version : Checkpoint → Option ℕ
checkpoint_null_version checkpoint = if nonempty checkpoint.channel_versions then some 0 else none

-- The loops of `_triggers`: `channels[chan]` may be a KeyError.
unfoldable pub any_available : Dict Channel → List String → Result Bool
any_available channels [] = ok false
any_available channels (chan ∷ chans) = do
  c ← at_key chan channels
  if Channel.is_available c then ok true else any_available channels chans

unfoldable pub any_newer :
    Dict Channel → ChannelVersions → ChannelVersions → ℕ → List String → Result Bool
any_newer channels versions seen null_version [] = ok false
any_newer channels versions seen null_version (chan ∷ chans) = do
  c ← at_key chan channels
  if Channel.is_available c
        && ltb (get_or chan seen null_version) (get_or chan versions null_version)
      then ok true
      else any_newer channels versions seen null_version chans

unfoldable pub triggers :
    Dict Channel → ChannelVersions → Option ChannelVersions → ℕ → PregelNode → Result Bool
unfolding any_available any_newer
triggers channels versions none null_version proc = any_available channels proc.triggers
triggers channels versions (some seen) null_version proc =
    any_newer channels versions seen null_version proc.triggers

-- The loop of `_proc_input` over a list of channels.
unfoldable pub read_available : Dict Channel → List String → Dict Value → Result (Dict Value)
read_available channels [] val = ok val
read_available channels (chan ∷ chans) val = do
  c ← at_key chan channels
  if Channel.is_available c
      then (do v ← Channel.get c; read_available channels chans (put chan v val))
      else read_available channels chans val

-- `none` is MISSING.
unfoldable pub proc_input : PregelNode → Dict Channel → Result (Option Value)
unfolding read_available
proc_input proc channels = elim proc.channels [
  | many chans ↦ do val ← read_available channels chans []; ok (some (dict (to_fields val)))
  | one chan ↦ elim (get chan channels) [
    | none ↦ ok none
    | some c ↦ if Channel.is_available c then (do v ← Channel.get c; ok (some v)) else ok none
  ]
]

pub record PullTask : Type 0 where
  pub name : String
  pub input : Value

abbrev pub pull_task : String → Option Value → Option PullTask
pull_task name none = none
pull_task name (some val) = some (record { name = name; input = val })

-- `if node := proc.node`: a node without a runnable gets no task.
abbrev pub executable_task : PregelNode → String → Option Value → Option PullTask
executable_task proc name val = if proc.has_node then pull_task name val else none

-- The PULL branch of `prepare_single_task`, `for_execution`.
unfoldable pub prepare_pull_task :
    Checkpoint → Option ℕ → Dict PregelNode → Dict Channel → String → Result (Option PullTask)
unfolding triggers proc_input
prepare_pull_task checkpoint null_version processes channels name = elim (get name processes) [
  | none ↦ ok none
  | some proc ↦ elim null_version [
    | none ↦ ok none
    | some null_version' ↦ do
      triggered ←
          triggers channels checkpoint.channel_versions (get name checkpoint.versions_seen)
            null_version' proc
      if triggered
          then (do val ← proc_input proc channels; ok (executable_task proc name val))
          else ok none
  ]
]

-- `triggered_nodes.update(node_ids)`
unfoldable pub add_all : List String → List String → List String
unfolding add
add_all [] nodes = nodes
add_all (n ∷ ns) nodes = add_all ns (add n nodes)

-- `triggered_nodes`: the nodes of each updated channel, each once
unfoldable pub triggered_nodes : Dict (List String) → List String → List String → List String
unfolding add_all
triggered_nodes trigger_to_nodes [] nodes = nodes
triggered_nodes trigger_to_nodes (channel ∷ updated) nodes =
    triggered_nodes trigger_to_nodes updated (add_all (get_or channel trigger_to_nodes []) nodes)

-- `sorted(...)`
unfoldable pub insert_name : String → List String → List String
unfolding str_leb
insert_name n [] = n ∷ []
insert_name n (m ∷ ms) = if str_leb (codes n) (codes m) then n ∷ m ∷ ms else m ∷ insert_name n ms

unfoldable pub sort_names : List String → List String
unfolding insert_name
sort_names [] = []
sort_names (n ∷ ns) = insert_name n (sort_names ns)

-- `candidate_nodes`. An absent `updated_channels` or `trigger_to_nodes` is as good as an empty one.
unfoldable pub candidate_nodes :
    Checkpoint → Dict PregelNode → Dict (List String) → List String → List String
unfolding triggered_nodes sort_names
candidate_nodes checkpoint processes trigger_to_nodes updated_channels =
    if nonempty updated_channels && nonempty trigger_to_nodes
    then sort_names (triggered_nodes trigger_to_nodes updated_channels [])
    else if nonempty checkpoint.channel_versions
    then keys processes
    else []

-- `if task := prepare_single_task(...): tasks.append(task)`
abbrev pub append_task : Option PullTask → List PullTask → List PullTask
append_task none tasks = tasks
append_task (some task) tasks = task ∷ tasks

unfoldable pub prepare_each :
    Checkpoint → Option ℕ → Dict PregelNode → Dict Channel → List String → Result (List PullTask)
unfolding prepare_pull_task
prepare_each checkpoint null_version processes channels [] = ok []
prepare_each checkpoint null_version processes channels (name ∷ names) = do
  task ← prepare_pull_task checkpoint null_version processes channels name
  tasks ← prepare_each checkpoint null_version processes channels names
  ok (append_task task tasks)

-- The PULL tasks of `prepare_next_tasks`.
unfoldable pub prepare_next_tasks :
    Checkpoint
    → Dict PregelNode
    → Dict Channel
    → Dict (List String)
    → List String
    → Result (List PullTask)
unfolding checkpoint_null_version candidate_nodes prepare_each
prepare_next_tasks checkpoint processes channels trigger_to_nodes updated_channels =
    prepare_each checkpoint (checkpoint_null_version checkpoint) processes channels
      (candidate_nodes checkpoint processes trigger_to_nodes updated_channels)
