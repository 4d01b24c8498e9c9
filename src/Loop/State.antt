-- ===== src/Loop/State.antt =====
-- The state of `PregelLoop`, and what it is built with. What streams the outputs and reads the clock
-- is not in it: the ids and the times of checkpoints come from functions of how many were made.
use langgraph_study.Prelude.{ℕ, String, Bool, true, false, Option, List, nonempty}
use langgraph_study.Values.{Value}
use langgraph_study.Dict.{Dict}
use langgraph_study.Channels.Channel.{Channel}
use langgraph_study.Pregel.Checkpoint.{Checkpoint, ChannelVersions}
use langgraph_study.Pregel.Task.{TaskPath, PregelTaskWrites}
use langgraph_study.Pregel.ApplyWrites.{GetNextVersion}
use langgraph_study.Pregel.NextTasks.{Nodes, all_nodes, named, PregelNode}

pub data Status : Type 0 where
  input pending done draining interrupt_before interrupt_after out_of_steps : Status

pub data Durability : Type 0 where
  sync async exit : Durability

abbrev pub is_exit : Durability → Bool
is_exit exit = true
is_exit d = false

-- A task id, a channel and a value.
abbrev pub PendingWrite : Type 0
PendingWrite = String × String × Value

-- `PregelExecutableTask`, less what only the node sees
pub record Task : Type 0 where
  pub id : String
  pub name : String
  pub path : TaskPath
  pub input : Value
  pub triggers : List String
  pub hidden : Bool
  pub writes : List (String × Value)

abbrev pub to_writes : Task → PregelTaskWrites
to_writes t = record { path = t.path; name = t.name; writes = t.writes; triggers = t.triggers }

-- The counters are the updates and the supersteps of each DeltaChannel since its last snapshot.
pub record CheckpointMetadata : Type 0 where
  pub source : String
  pub step : ℕ
  pub parents : Dict String
  pub counters : Dict (ℕ × ℕ)

-- What a loop is built with and does not change.
pub record Graph : Type 0 where
  pub nodes : Dict PregelNode
  -- the nodes whose tags hide them
  pub hidden : List String
  pub specs : Dict Channel
  pub trigger_to_nodes : Dict (List String)
  pub interrupt_before : Nodes
  pub interrupt_after : Nodes
  pub stop : ℕ
  pub has_checkpointer : Bool
  pub durability : Durability
  pub get_next_version : GetNextVersion
  pub max_supersteps : ℕ
  pub parents : Dict String
  pub new_id : ℕ → String
  pub now : ℕ → String
  pub drain_requested : ℕ → Bool
  -- of the id of the checkpoint, the step, the name and the triggers
  pub task_id : String → ℕ → String → List String → String

-- `if self.interrupt_before`
abbrev pub is_set : Nodes → Bool
is_set all_nodes = true
is_set (named nodes) = nonempty nodes

-- A call of the checkpointer's `put`: the id in the config that it is given, and the rest.
pub record PutCall : Type 0 where
  pub parent : Option String
  pub checkpoint : Checkpoint
  pub metadata : CheckpointMetadata
  pub new_versions : ChannelVersions

-- A call of the checkpointer's `put_writes`.
pub record PutWritesCall : Type 0 where
  pub checkpoint_id : String
  pub task_id : String
  pub writes : List (String × Value)

-- The steps of a loop that is in its `while` are never negative. `puts` and `put_writes_calls` are what
-- the checkpointer was asked to store, the latest first: the calls are made in this order, since each
-- `put` waits for the one before it.
pub record PregelLoop : Type 0 where
  pub step : ℕ
  pub status : Status
  pub checkpoint : Checkpoint
  pub metadata : CheckpointMetadata
  pub channels : Dict Channel
  pub tasks : Dict Task
  pub pending_writes : List PendingWrite
  pub updated_channels : Option (List String)
  pub is_replaying : Bool
  -- `checkpoint_id` of `checkpoint_config` and of `prev_checkpoint_config`
  pub config_id : Option String
  pub prev_config_id : Option String
  pub checkpoint_id_saved : String
  pub previous_versions : ChannelVersions
  pub delta_channels_with_overwrite : List String
  pub exit_delta_writes : Option (List (ℕ × String × String × Value))
  pub checkpoints_made : ℕ
  pub puts : List PutCall
  pub put_writes_calls : List PutWritesCall
