-- ===== src/Loop/Committing.antt =====
-- What the runner's `commit` stores of a task, and the tick of a resumed run.
use langgraph_study.Prelude.{
  String, Bool, true, false, not, ◌&&◌, some, List, [], ◌∷◌, ◌++◌, any, str_eq, if◌then◌else◌,
}
use langgraph_study.Values.{Value}
use langgraph_study.Dict.{Dict, values}
use langgraph_study.Channels.Channel.{Channel}
use langgraph_study.Loop.State.{Graph, PregelLoop, PendingWrite, PutWritesCall, is_exit}
use langgraph_study.Loop.Pending.{with_task, tracked_writes, is_untracked}
use langgraph_study.Loop.Run.{
  NodeResult, returned, failed, handled, interrupted, bubbled, mark_no_writes,
}

-- The pending writes that the checkpointer has for this checkpoint, of these calls of its
-- `put_writes`, the last of which comes first.
unfoldable pub stored_pending : String → List PutWritesCall → List PendingWrite
stored_pending checkpoint_id [] = []
stored_pending checkpoint_id (call ∷ calls) =
    let rest = stored_pending checkpoint_id calls in
    if str_eq call.checkpoint_id checkpoint_id
    then rest ++ with_task call.task_id call.writes
    else rest

-- The writes of a task that the checkpointer gets.
abbrev tracked : Graph → PregelLoop → List (String × Value) → List (String × Value)
tracked g l writes =
    if any (λ (c : Channel). is_untracked (some c)) (values l.channels)
    then tracked_writes g.specs writes
    else writes

-- Of these writes, those that the checkpointer gets.
abbrev pub saved : Graph → PregelLoop → List (String × Value) → List (String × Value)
saved g l writes =
    if g.has_checkpointer && not (is_exit g.durability) then tracked g l writes else []

-- What the writes of a task that ends so are when they are stored and given back.
abbrev pub stored_writes : NodeResult → List (String × Value)
stored_writes (returned writes) = mark_no_writes writes
stored_writes (failed writes error) = writes
stored_writes (handled writes error handler) = writes
stored_writes (interrupted writes value) = []
stored_writes (bubbled writes) = []

abbrev pub writes_made : NodeResult → List (String × Value)
writes_made (returned writes) = writes
writes_made (failed writes error) = writes
writes_made (handled writes error handler) = writes
writes_made (interrupted writes value) = writes
writes_made (bubbled writes) = writes

abbrev pub is_handled : NodeResult → Bool
is_handled (handled writes error handler) = true
is_handled result = false
