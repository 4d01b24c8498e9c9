-- ===== src/Loop/Run.antt =====
-- The supersteps of a run: the runner, whose `commit` (libs/langgraph/langgraph/pregel/_runner.py)
-- takes what each node did, and the `while` of `Pregel.stream` (main.py). Which tasks finish, in which
-- order and with what, is a function of the state and of the tasks that are started.
use langgraph_study.Prelude.{
  ℕ, zero, suc, String, Bool, true, false, Option, none, some, List, [], ◌∷◌, ◌++◌, any, nonempty,
  str_eq, if◌then◌else◌,
}
use langgraph_study.Method.{
  Result, ok, err, Method, graph_interrupt, recursion_error, graph_drained, node_error,
}
use langgraph_study.Values.{Value, null, str}
use langgraph_study.Dict.{get, put, update, values}
use langgraph_study.Pregel.Constants.{
  no_writes_key, error_key, error_source_node_key, interrupt_key, resume_key,
}
use langgraph_study.Loop.State.{
  Graph, PregelLoop, Status, Status.out_of_steps, Status.draining, Task,
}
use langgraph_study.Loop.Pending.{put_writes, reapply_writes}
use langgraph_study.Loop.Tick.{tick, after_tick}

-- How a node ends, after these writes: it returns, raises an error, or raises a GraphInterrupt, which
-- may hold a value, or another GraphBubbleUp. The error of a node with an error handler is `handled`,
-- with the task that `prepare_node_error_handler_task` makes for its handler, if it makes one.
pub data NodeResult : Type 0 where
  returned : List (String × Value) → NodeResult
  failed : List (String × Value) → Value → NodeResult
  handled : List (String × Value) → Value → Option Task → NodeResult
  interrupted : List (String × Value) → Option Value → NodeResult
  bubbled : List (String × Value) → NodeResult

-- `if not task.writes: task.writes.append((NO_WRITES, None))`
abbrev pub mark_no_writes : List (String × Value) → List (String × Value)
mark_no_writes [] = (no_writes_key, null) ∷ []
mark_no_writes (w ∷ writes) = w ∷ writes

-- `[w for w in task.writes if w[0] == RESUME]`
unfoldable pub resumes : List (String × Value) → List (String × Value)
resumes [] = []
resumes ((c, v) ∷ writes) =
    let rest = resumes writes in if str_eq c resume_key then (c, v) ∷ rest else rest

-- The task with these writes, in `self.tasks`.
abbrev pub set_writes : Task → List (String × Value) → PregelLoop → PregelLoop
set_writes t writes l = record l { tasks = put t.id (record t { writes = writes }) l.tasks }

-- `commit`
unfoldable pub commit_task : Graph → Task → NodeResult → PregelLoop → PregelLoop
unfolding resumes
commit_task g t (returned writes) l =
    let all_writes = mark_no_writes (t.writes ++ writes) in
    put_writes g t.id all_writes (set_writes t all_writes l)
commit_task g t (failed writes error) l =
    let all_writes = t.writes ++ (writes ++ (error_key, error) ∷ []) in
    put_writes g t.id all_writes (set_writes t all_writes l)
commit_task g t (handled writes error handler) l =
    let all_writes =
      t.writes ++ (writes ++ (error_key, error) ∷ (error_source_node_key, str t.name) ∷ []) in
    put_writes g t.id all_writes (set_writes t all_writes l)
commit_task g t (bubbled writes) l = set_writes t (t.writes ++ writes) l
commit_task g t (interrupted writes none) l = set_writes t (t.writes ++ writes) l
commit_task g t (interrupted writes (some value)) l =
    let all_writes = t.writes ++ writes in
    put_writes g t.id ((interrupt_key, value) ∷ resumes all_writes) (set_writes t all_writes l)

-- The task of a handler joins those of the superstep, with the writes that were stored for it before.
unfoldable pub add_handler : Task → PregelLoop → PregelLoop
add_handler t l = record l {
  tasks =
      update l.tasks (
        if l.is_replaying
        then (t.id, t) ∷ []
        else reapply_writes l.pending_writes ((t.id, t) ∷ []));
}

-- The cached writes are left out.
unfoldable pub schedule_error_handler : NodeResult → PregelLoop → PregelLoop
unfolding add_handler
schedule_error_handler (handled writes error (some t)) l = add_handler t l
schedule_error_handler result l = l

unfoldable pub commit_all : Graph → List (String × NodeResult) → PregelLoop → PregelLoop
unfolding commit_task schedule_error_handler
commit_all g [] l = l
commit_all g ((id, result) ∷ results) l = commit_all g results (elim (get id l.tasks) [
  | none ↦ l
  | some t ↦ schedule_error_handler result (commit_task g t result l)
])

abbrev pub is_failed : String × NodeResult → Bool
is_failed (id, failed writes e) = true
is_failed (id, bubbled writes) = true
is_failed (id, r) = false

abbrev pub is_interrupt : String × NodeResult → Bool
is_interrupt (id, interrupted writes v) = true
is_interrupt (id, r) = false

-- `_panic_or_proceed`: an error that no handler takes goes before the interrupts.
abbrev pub panic_or_proceed : List (String × NodeResult) → Result (Unit {0})
panic_or_proceed results =
    if any is_failed results
    then err node_error
    else if any is_interrupt results
    then err graph_interrupt
    else ok tt

-- `[t for t in loop.tasks.values() if not t.writes]`
unfoldable pub unfinished_tasks : List Task → List Task
unfinished_tasks [] = []
unfinished_tasks (t ∷ ts) =
    let rest = unfinished_tasks ts in if nonempty t.writes then rest else t ∷ rest

abbrev pub RunNodes : Type 0
RunNodes = PregelLoop → List Task → List (String × NodeResult)

unfoldable pub end_tasks : Graph → PregelLoop → Result (Unit {0}) → Result (Unit {0}) × PregelLoop
end_tasks g l (err e) = (err e, l)
end_tasks g l (ok _) = after_tick g l

-- The body of the `while`.
unfoldable pub superstep : Graph → RunNodes → Method PregelLoop (Unit {0})
unfolding commit_all unfinished_tasks
superstep g run_nodes l =
    let results = run_nodes l (unfinished_tasks (values l.tasks)) in
    end_tasks g (commit_all g results l) (panic_or_proceed results)

-- What is done after the body of a superstep: the rest of the loop waits for its state.
abbrev pub after_superstep :
    (PregelLoop → Option (Result (Unit {0}) × PregelLoop))
    → Result (Unit {0}) × PregelLoop
    → Option (Result (Unit {0}) × PregelLoop)
after_superstep rest (err e, l) = some (err e, l)
after_superstep rest (ok _, l) = rest l

-- `GraphRecursionError` where the steps are used up, and `GraphDrained` where a drain was requested
abbrev pub end_status : Status → Result (Unit {0})
end_status out_of_steps = err recursion_error
end_status draining = err graph_drained
end_status status = ok tt

unfoldable pub round :
    (PregelLoop → Option (Result (Unit {0}) × PregelLoop))
    → Graph
    → RunNodes
    → Result Bool × PregelLoop
    → Option (Result (Unit {0}) × PregelLoop)
round rest g run_nodes (err e, l) = some (err e, l)
round rest g run_nodes (ok false, l) = some (end_status l.status, l)
round rest g run_nodes (ok true, l) = after_superstep rest (superstep g run_nodes l)

-- `while loop.tick(): ...`, on fuel; `none` means that the fuel ran out.
unfoldable pub run : ℕ → Graph → RunNodes → PregelLoop → Option (Result (Unit {0}) × PregelLoop)
run zero g run_nodes l = none
run (suc fuel) g run_nodes l = round (λ l'. run fuel g run_nodes l') g run_nodes (tick g l)
