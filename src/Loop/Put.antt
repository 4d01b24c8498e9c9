-- ===== src/Loop/Put.antt =====
-- `_put_checkpoint` of libs/langgraph/langgraph/pregel/_loop.py, and `get_new_channel_versions` of
-- _utils.py. The values of TASKS, which hold the Sends, are not modelled, nor their sanitizing.
use langgraph_study.Prelude.{
  ℕ, ◌+◌, String, Bool, true, false, ◌&&◌, ◌||◌, not, Option, none, some, List, [], ◌∷◌, ltb,
  nonempty, nat_eq, str_eq, if◌then◌else◌,
}
use langgraph_study.Method.{Result, ok, err, Method}
use langgraph_study.Dict.{Dict, has, get_or, put}
use langgraph_study.Channels.Channel.{Channel, delta_channel}
use langgraph_study.Pregel.Checkpoint.{Checkpoint, ChannelVersions}
use langgraph_study.Pregel.NextTasks.{add_all}
use langgraph_study.Pregel.Checkpointing.{
  delta_channels_to_snapshot, create_checkpoint, copy_checkpoint,
}
use langgraph_study.Loop.State.{Graph, PregelLoop, CheckpointMetadata, is_exit}

-- The versions that are newer than the previous ones; the null version of integers is 0.
unfoldable pub newer_versions : ChannelVersions → ChannelVersions → ChannelVersions
newer_versions previous [] = []
newer_versions previous ((k, v) ∷ current) =
    let rest = newer_versions previous current in
    if ltb (get_or k previous 0) v then (k, v) ∷ rest else rest

unfoldable pub get_new_channel_versions : ChannelVersions → ChannelVersions → ChannelVersions
unfolding newer_versions
get_new_channel_versions previous current =
    if nonempty previous then newer_versions previous current else current

-- The counters after one more superstep.
unfoldable pub next_counters : Dict Channel → List String → Dict (ℕ × ℕ) → Dict (ℕ × ℕ)
next_counters [] updated previous = []
next_counters ((name, delta_channel c) ∷ channels) updated previous =
    let (updates, supersteps) = get_or name previous (0, 0) in
    (name, ((if has name updated then updates + 1 else updates), supersteps + 1))
    ∷ next_counters channels updated previous
next_counters ((name, c) ∷ channels) updated previous = next_counters channels updated previous

-- `set(self.updated_channels or ())`
abbrev pub or_nothing : Option (List String) → List String
or_nothing none = []
or_nothing (some updated) = updated

-- `for k in channels_to_snapshot: new_counters[k] = (0, 0)`
unfoldable pub reset_counters : List String → Dict (ℕ × ℕ) → Dict (ℕ × ℕ)
reset_counters [] counters = counters
reset_counters (k ∷ ks) counters = reset_counters ks (put k (0, 0) counters)

-- `non_zero`
unfoldable pub non_zero : Dict (ℕ × ℕ) → Dict (ℕ × ℕ)
non_zero [] = []
non_zero ((k, (updates, supersteps)) ∷ counters) =
    let rest = non_zero counters in
    if nat_eq updates 0 && nat_eq supersteps 0 then rest else (k, (updates, supersteps)) ∷ rest

-- `names.difference_update(gone)`
unfoldable pub difference : List String → List String → List String
difference gone [] = []
difference gone (k ∷ ks) = let rest = difference gone ks in if has k gone then rest else k ∷ rest

-- Whether a checkpoint is stored now.
abbrev pub does_checkpoint : Graph → Bool → Bool
does_checkpoint g exiting = g.has_checkpointer && (exiting || not (is_exit g.durability))

-- `channels_to_snapshot`
unfoldable pub channels_to_snapshot : Graph → Bool → Dict (ℕ × ℕ) → PregelLoop → List String
channels_to_snapshot g exiting counters l =
    if does_checkpoint g exiting
    then add_all l.delta_channels_with_overwrite
        (delta_channels_to_snapshot g.max_supersteps l.channels counters)
    else []

-- `self.checkpoint_config`, where it has an id that is not empty
abbrev pub truthy_id : Option String → Option String
truthy_id none = none
truthy_id (some id) = if str_eq id "" then none else some id

-- The call of the checkpointer's `put`, and what is noted about it.
unfoldable pub store : PregelLoop → PregelLoop
unfolding get_new_channel_versions copy_checkpoint
store l = record l {
  prev_config_id = truthy_id l.config_id;
  puts =
      record {
        parent = l.config_id;
        checkpoint = copy_checkpoint l.checkpoint;
        metadata = l.metadata;
        new_versions = get_new_channel_versions l.previous_versions l.checkpoint.channel_versions;
      }
      ∷ l.puts;
  previous_versions = l.checkpoint.channel_versions;
  config_id = some l.checkpoint.id;
}

-- The new checkpoint takes its place.
unfoldable pub take_checkpoint :
    Graph → Bool → List String → Dict (ℕ × ℕ) → Checkpoint → PregelLoop → PregelLoop
unfolding reset_counters non_zero difference
take_checkpoint g exiting to_snapshot counters c l = record l {
  checkpoint = c;
  metadata = record l.metadata { counters = non_zero (reset_counters to_snapshot counters) };
  delta_channels_with_overwrite =
      if does_checkpoint g exiting
      then difference to_snapshot l.delta_channels_with_overwrite
      else l.delta_channels_with_overwrite;
  checkpoints_made = l.checkpoints_made + 1;
}

abbrev pub next_step : PregelLoop → PregelLoop
next_step l = record l { step = l.step + 1 }

-- `_put_checkpoint` behind `create_checkpoint`
unfoldable pub finish_put :
    Graph → Bool → List String → Dict (ℕ × ℕ) → Checkpoint → PregelLoop → PregelLoop
unfolding take_checkpoint store
finish_put g exiting to_snapshot counters c l =
    let taken = take_checkpoint g exiting to_snapshot counters c l in
    let stored = if does_checkpoint g exiting then store taken else taken in
    if exiting then stored else next_step stored

-- The call of `create_checkpoint`.
unfoldable pub next_checkpoint : Graph → Bool → List String → PregelLoop → Result Checkpoint
next_checkpoint g exiting to_snapshot l =
    create_checkpoint l.checkpoint (if does_checkpoint g exiting then some l.channels else none)
      (if exiting then l.checkpoint.id else g.new_id l.checkpoints_made) (g.now l.checkpoints_made)
      l.updated_channels (if does_checkpoint g exiting then some g.get_next_version else none)
      to_snapshot

unfoldable pub put_created :
    Graph
    → Bool
    → List String
    → Dict (ℕ × ℕ)
    → PregelLoop
    → Result Checkpoint
    → Result (Unit {0}) × PregelLoop
put_created g exiting to_snapshot counters l (err e) = (err e, l)
put_created g exiting to_snapshot counters l (ok c) =
    (ok tt, finish_put g exiting to_snapshot counters c l)

unfoldable pub put_with : Graph → Bool → Dict (ℕ × ℕ) → Method PregelLoop (Unit {0})
unfolding put_created
put_with g exiting counters l =
    let to_snapshot = channels_to_snapshot g exiting counters l in
    put_created g exiting to_snapshot counters l (next_checkpoint g exiting to_snapshot l)

-- The metadata of a checkpoint that is not the one of the exit.
unfoldable pub new_metadata : Graph → String → PregelLoop → CheckpointMetadata
new_metadata g source l = record {
  source = source;
  step = l.step;
  parents = g.parents;
  counters = [];
}

-- `_put_checkpoint({"source": source})`
unfoldable pub put_checkpoint : Graph → String → Method PregelLoop (Unit {0})
put_checkpoint g source l =
    put_with g false (next_counters l.channels (or_nothing l.updated_channels) l.metadata.counters)
      (record l { metadata = new_metadata g source l })

-- `_put_checkpoint(self.checkpoint_metadata)`, the call at the exit
unfoldable pub put_exit_checkpoint : Graph → Method PregelLoop (Unit {0})
put_exit_checkpoint g l =
    if str_eq l.checkpoint.id l.checkpoint_id_saved
    then (ok tt, l)
    else put_with g true l.metadata.counters l
