-- ===== src/Loop/Pending.antt =====
-- `put_writes` and `_reapply_writes_to_succeeded_nodes` of libs/langgraph/langgraph/pregel/_loop.py.
-- The values of Sends are stored as they are, and messages get no ids here; the streams that
-- `output_writes` feeds are not modelled.
use langgraph_study.Prelude.{
  String, Bool, true, false, ◌&&◌, ◌||◌, not, Option, none, some, List, [], ◌∷◌, ◌++◌, all, any,
  nonempty, str_eq, if◌then◌else◌,
}
use langgraph_study.Values.{Value}
use langgraph_study.Dict.{Dict, has, get, put, values}
use langgraph_study.Channels.Channel.{Channel, untracked_value}
use langgraph_study.Pregel.Constants.{
  null_task_id, error_key, error_source_node_key, interrupt_key, resume_key,
}
use langgraph_study.Loop.State.{Graph, PregelLoop, PendingWrite, Task, is_exit}

-- The keys of `WRITES_IDX_MAP`
abbrev pub index_keys : List String
index_keys = error_key ∷ "__scheduled__" ∷ interrupt_key ∷ resume_key ∷ []

-- `{w[0]: w for w in writes}`
unfoldable pub by_channel : List (String × Value) → Dict Value → Dict Value
by_channel [] d = d
by_channel ((c, v) ∷ writes) d = by_channel writes (put c v d)

-- Writes that are all to special channels: the last one to each counts.
unfoldable pub deduplicate : List (String × Value) → List (String × Value)
unfolding by_channel
deduplicate writes =
    if all (λ (w : String × Value). has w.0 index_keys) writes then by_channel writes [] else writes

-- The pending writes that stay when a task writes: those of other tasks, and of the null task those
-- that are not to special channels.
unfoldable pub kept_writes : String → List PendingWrite → List PendingWrite
kept_writes task_id [] = []
kept_writes task_id ((t, c, v) ∷ pending) =
    let rest = kept_writes task_id pending in
    let stays = not (str_eq t task_id) || (str_eq task_id null_task_id && not (has c index_keys)) in
    if stays then (t, c, v) ∷ rest else rest

-- `[w[1:] for w in pending if w[0] == task_id]`
unfoldable pub writes_of : String → List PendingWrite → List (String × Value)
writes_of task_id [] = []
writes_of task_id ((t, c, v) ∷ pending) =
    let rest = writes_of task_id pending in if str_eq t task_id then (c, v) ∷ rest else rest

unfoldable pub with_task : String → List (String × Value) → List PendingWrite
with_task task_id [] = []
with_task task_id ((c, v) ∷ writes) = (task_id, c, v) ∷ with_task task_id writes

abbrev pub is_untracked : Option Channel → Bool
is_untracked (some (untracked_value c)) = true
is_untracked c = false

-- The writes to an UntrackedValue are not stored.
unfoldable pub tracked_writes : Dict Channel → List (String × Value) → List (String × Value)
tracked_writes specs [] = []
tracked_writes specs ((c, v) ∷ writes) =
    let rest = tracked_writes specs writes in
    if is_untracked (get c specs) then rest else (c, v) ∷ rest

-- `writes_to_save`
unfoldable pub writes_to_save :
    Graph → PregelLoop → String → List (String × Value) → List (String × Value)
unfolding tracked_writes writes_of kept_writes
writes_to_save g l task_id writes =
    let all_writes =
      if str_eq task_id null_task_id
      then writes_of task_id (kept_writes task_id l.pending_writes) ++ writes
      else writes in
    if any (λ (c : Channel). is_untracked (some c)) (values l.channels)
    then tracked_writes g.specs all_writes
    else all_writes

-- `put_writes` of writes that are not empty and are deduplicated
unfoldable pub put_deduplicated : Graph → String → List (String × Value) → PregelLoop → PregelLoop
unfolding kept_writes with_task writes_to_save
put_deduplicated g task_id writes l = record l {
  pending_writes = kept_writes task_id l.pending_writes ++ with_task task_id writes;
  put_writes_calls =
      if g.has_checkpointer && not (is_exit g.durability)
      then record {
        checkpoint_id = l.checkpoint.id;
        task_id = task_id;
        writes = writes_to_save g l task_id writes;
      }
        ∷ l.put_writes_calls
      else l.put_writes_calls;
}

unfoldable pub put_writes : Graph → String → List (String × Value) → PregelLoop → PregelLoop
unfolding deduplicate put_deduplicated
put_writes g task_id writes l =
    if nonempty writes then put_deduplicated g task_id (deduplicate writes) l else l

-- The keys whose writes are not given back to a task.
abbrev pub signal_keys : List String
signal_keys = error_key ∷ error_source_node_key ∷ interrupt_key ∷ resume_key ∷ []

-- `task.writes.append(w)`
abbrev pub append_write : String × Value → Task → Task
append_write w t = record t { writes = t.writes ++ w ∷ [] }

unfoldable pub reapply_writes : List PendingWrite → Dict Task → Dict Task
reapply_writes [] tasks = tasks
reapply_writes ((tid, k, v) ∷ pending) tasks = reapply_writes pending (
    if has k signal_keys
    then tasks
    else elim (get tid tasks) [ none ↦ tasks | some t ↦ put tid (append_write (k, v) t) tasks ])
