-- ===== src/Loop/Tick.antt =====
-- `tick` and `after_tick` of libs/langgraph/langgraph/pregel/_loop.py, for graphs without pending Sends
-- and without errors to hand to a handler on a resumption
-- (`_resume_error_handlers_if_applicable`). The streams that they feed are not modelled.
use langgraph_study.Prelude.{
  ℕ, String, Bool, true, false, ◌&&◌, not, Option, none, some, List, [], ◌∷◌, ◌++◌, map, is_some,
  ltb, nonempty, if◌then◌else◌,
}
use langgraph_study.Method.{Result, ok, err, Method, and_then, graph_interrupt}
use langgraph_study.Values.{Value, get_overwrite}
use langgraph_study.Dict.{Dict, add, get, has, put, values}
use langgraph_study.Channels.Channel.{Channel, delta_channel}
use langgraph_study.Pregel.Task.{codes, TaskPath, PathPart.text, TaskPath.end, TaskPath.part}
use langgraph_study.Pregel.ApplyWrites.{Applied, apply_writes}
use langgraph_study.Pregel.NextTasks.{
  Nodes, ExecutableTask, PullTask, PregelNode, should_interrupt, prepare_next_tasks, sort_names,
}
use langgraph_study.Loop.State.{
  Graph, PregelLoop, Status, Status.done, Status.draining, Status.out_of_steps, PendingWrite, Task,
  to_writes, is_set,
}
use langgraph_study.Loop.Put.{put_checkpoint, or_nothing}
use langgraph_study.Loop.Pending.{reapply_writes}

-- `(PULL, name)`
abbrev pub pull_path : String → TaskPath
pull_path name = part (text (codes "__pregel_pull")) (part (text (codes name)) end)

abbrev pub triggers_of : Option PregelNode → List String
triggers_of none = []
triggers_of (some proc) = proc.triggers

-- The executable task of a PULL task.
unfoldable pub executable : Graph → PregelLoop → PullTask → Task
unfolding sort_names
executable g l t = record {
  id = g.task_id l.checkpoint.id l.step t.name (sort_names (triggers_of (get t.name g.nodes)));
  name = t.name;
  path = pull_path t.name;
  input = t.input;
  triggers = sort_names (triggers_of (get t.name g.nodes));
  hidden = has t.name g.hidden;
  writes = [];
}

-- `{t.id: t for t in tasks}`
unfoldable pub by_id : List Task → Dict Task → Dict Task
by_id [] tasks = tasks
by_id (t ∷ ts) tasks = by_id ts (put t.id t tasks)

abbrev pub to_executable : Task → ExecutableTask
to_executable t = record { name = t.name; hidden = t.hidden }

-- `self.interrupt_before and should_interrupt(...)`
unfoldable pub is_interrupted : Nodes → PregelLoop → Bool
is_interrupted nodes l =
    is_set nodes
    && nonempty (should_interrupt l.checkpoint nodes (map to_executable (values l.tasks)))

abbrev pub stopped : Status → PregelLoop → Result Bool × PregelLoop
stopped status l = (ok false, record l { status = status })

-- The writes that earlier attempts have left are given back.
unfoldable pub with_reapplied : PregelLoop → PregelLoop
with_reapplied l =
    if not l.is_replaying && nonempty l.pending_writes
    then record l { tasks = reapply_writes l.pending_writes l.tasks }
    else l

unfoldable pub check_interrupt : Graph → Method PregelLoop Bool
check_interrupt g l =
    if is_interrupted g.interrupt_before l
    then (err graph_interrupt, record l { status = Status.interrupt_before })
    else (ok true, l)

-- `tick` once the tasks are there
unfoldable pub begin_tasks : Graph → Method PregelLoop Bool
begin_tasks g l =
    if nonempty l.tasks
    then if g.drain_requested l.step
      then stopped draining l
      else check_interrupt g (with_reapplied l)
    else stopped done l

unfoldable pub tick_with : Graph → PregelLoop → Result (List PullTask) → Result Bool × PregelLoop
tick_with g l (err e) = (err e, l)
tick_with g l (ok tasks) =
    begin_tasks g (record l { tasks = by_id (map (λ t. executable g l t) tasks) [] })

-- `tick`: whether another superstep is to be made
unfoldable pub tick : Graph → Method PregelLoop Bool
tick g l =
    if ltb g.stop l.step
    then stopped out_of_steps l
    else tick_with g l (
        prepare_next_tasks l.checkpoint g.nodes l.channels g.trigger_to_nodes
          (or_nothing l.updated_channels))

-- The DeltaChannels that these writes overwrite.
unfoldable pub add_overwritten : Dict Channel → List (String × Value) → List String → List String
add_overwritten specs [] names = names
add_overwritten specs ((ch, v) ∷ writes) names = add_overwritten specs writes (elim (get ch specs) [
  | some (delta_channel c) ↦ if is_some (get_overwrite v) then add ch names else names
  | _ ↦ names
])

unfoldable pub all_writes : List Task → List (String × Value)
all_writes [] = []
all_writes (t ∷ ts) = t.writes ++ all_writes ts

-- What is kept for the exit of the pending writes to DeltaChannels.
unfoldable pub delta_writes :
    Dict Channel → ℕ → List PendingWrite → List (ℕ × String × String × Value)
delta_writes specs step [] = []
delta_writes specs step ((tid, ch, v) ∷ pending) =
    let rest = delta_writes specs step pending in
    elim (get ch specs) [ some (delta_channel c) ↦ (step, tid, ch, v) ∷ rest | _ ↦ rest ]

abbrev pub keep_delta_writes : Graph → PregelLoop → Option (List (ℕ × String × String × Value))
keep_delta_writes g l = elim l.exit_delta_writes [
  | none ↦ none
  | some kept ↦ some (kept ++ delta_writes g.specs l.step l.pending_writes)
]

-- The superstep is over: its pending writes have been applied.
unfoldable pub end_superstep : Graph → List String → PregelLoop → PregelLoop
unfolding delta_writes
end_superstep g updated l = record l {
  updated_channels = some updated;
  exit_delta_writes = keep_delta_writes g l;
  pending_writes = [];
  is_replaying = false;
}

unfoldable pub check_interrupt_after : Graph → Method PregelLoop (Unit {0})
check_interrupt_after g l =
    if is_interrupted g.interrupt_after l
    then (err graph_interrupt, record l { status = Status.interrupt_after })
    else (ok tt, l)

-- `after_tick` behind `apply_writes`
unfoldable pub save_superstep :
    Graph → PregelLoop → Result (List String) → Result (Unit {0}) × PregelLoop
save_superstep g l (err e) = (err e, l)
save_superstep g l (ok updated) =
    and_then (put_checkpoint g "loop" (end_superstep g updated l))
      (λ _ l'. check_interrupt_after g l')

unfoldable pub apply_tasks : Graph → PregelLoop → Applied
apply_tasks g l =
    apply_writes l.checkpoint l.channels (map to_writes (values l.tasks)) (some g.get_next_version)
      g.trigger_to_nodes

unfoldable pub after_tick : Graph → Method PregelLoop (Unit {0})
unfolding all_writes add_overwritten
after_tick g l =
    let applied = apply_tasks g l in
    save_superstep g
      (record l {
        delta_channels_with_overwrite =
            add_overwritten g.specs (all_writes (values l.tasks)) l.delta_channels_with_overwrite;
        checkpoint = applied.checkpoint;
        channels = applied.channels;
      })
      applied.answer
