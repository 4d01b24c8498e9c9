-- ===== src/Loop/Samples.antt =====
-- A graph whose one node writes to its own trigger, and runs of it.
use langgraph_study.Prelude.{
  ◌≤◌, Bool, true, false, ◌≡◌, refl, Option, none, some, [], ◌∷◌, map, arith,
}
use langgraph_study.Method.{Result, ok, err, recursion_error}
use langgraph_study.Values.{num}
use langgraph_study.Dict
use langgraph_study.Dict.{Dict, get, has}
use langgraph_study.Channels.Channel
use langgraph_study.Channels.Channel.{Channel, last_value}
use langgraph_study.Pregel.Checkpointing.{create_checkpoint, delta_channels_to_snapshot}
use langgraph_study.Pregel.Task.{TaskPath.end, sort_key, sort_tasks, insert_task, str_leb}
use langgraph_study.Pregel.ApplyWrites.{
  increment, apply_writes, run_loops, mark_seen, versions_of, next_version_of, answer_of,
}
use langgraph_study.Pregel.NextTasks.{
  named, prepare_pull_task, prepare_next_tasks, checkpoint_null_version, candidate_nodes,
  prepare_each, insert_name, sort_names, should_interrupt,
}
use langgraph_study.Pregel.Io.{one}
use langgraph_study.Loop.State.{Graph, PregelLoop, Status.pending, Durability.sync, Task}
use langgraph_study.Loop.Put.{
  put_checkpoint, put_with, put_created, next_checkpoint, channels_to_snapshot, finish_put,
  take_checkpoint, store, next_counters, new_metadata,
}
use langgraph_study.Loop.Pending.{
  put_writes, put_deduplicated, deduplicate, by_channel, kept_writes, reapply_writes,
}
use langgraph_study.Loop.Tick.{
  tick, executable, tick_with, begin_tasks, by_id, check_interrupt, is_interrupted, with_reapplied,
  after_tick, apply_tasks, save_superstep, end_superstep, check_interrupt_after, add_overwritten,
  all_writes,
}
use langgraph_study.Loop.Run.{
  RunNodes, returned, failed, commit_task, commit_all, unfinished_tasks, schedule_error_handler,
  add_handler, superstep, end_tasks, round, run,
}
use langgraph_study.Loop.Runs.{run-ends, run-Linked, Linked, PutEach, Ran}
use langgraph_study.Loop.Resuming.{given_back, tick-given_back}
use langgraph_study.Loop.Starting.{starts, starts-tick}
use langgraph_study.Loop.Committing.{stored_pending}

abbrev pub spinning : Graph
spinning = record {
  nodes = ("n", record { triggers = "a" ∷ []; channels = one "a"; has_node = true }) ∷ [];
  hidden = [];
  specs = ("a", last_value (record { value = none })) ∷ [];
  trigger_to_nodes = ("a", "n" ∷ []) ∷ [];
  interrupt_before = named [];
  interrupt_after = named [];
  stop = 1;
  has_checkpointer = true;
  durability = sync;
  get_next_version = increment;
  max_supersteps = 5000;
  parents = [];
  new_id = λ n. "later";
  now = λ n. "now";
  drain_requested = λ n. false;
  task_id = λ checkpoint step name triggers. name;
}

abbrev pub started : PregelLoop
started = record {
  step = 0;
  status = pending;
  checkpoint = record {
    v = 4;
    id = "first";
    ts = "now";
    channel_values = ("a", num 1) ∷ [];
    channel_versions = ("a", 1) ∷ [];
    versions_seen = [];
    updated_channels = none;
  };
  metadata = record { source = "input"; step = 0; parents = []; counters = [] };
  channels = ("a", last_value (record { value = some (num 1) })) ∷ [];
  tasks = [];
  pending_writes = ("n", "a", num 7) ∷ ("m", "a", num 8) ∷ [];
  updated_channels = none;
  is_replaying = false;
  config_id = some "first";
  prev_config_id = none;
  checkpoint_id_saved = "first";
  previous_versions = ("a", 1) ∷ [];
  delta_channels_with_overwrite = [];
  exit_delta_writes = none;
  checkpoints_made = 0;
  puts = [];
  put_writes_calls = [];
}

abbrev always_writes : RunNodes
always_writes l tasks = map (λ (t : Task). (t.id, returned (("a", num 2) ∷ []))) tasks

run-ends_example :
    (r : Result (Unit {0})) × (n : PregelLoop) × (run 3 spinning always_writes started
      ≡ some (r, n))
    × (0 ≤ n.step)
    × (n.step ≤ 2)
run-ends_example = run-ends spinning always_writes 3 started (omega arith) (omega arith)

unfoldable pub program : Unit {0}
unfolding run round tick tick_with executable mark_seen versions_of insert_name sort_names
    prepare_next_tasks checkpoint_null_version candidate_nodes prepare_each prepare_pull_task get
    has Channel.is_available Channel.get Channel.update Channel.consume Channel.finish
    Channel.checkpoint begin_tasks by_id Dict.put check_interrupt is_interrupted superstep end_tasks
    with_reapplied reapply_writes commit_all unfinished_tasks commit_task schedule_error_handler
    add_handler put_writes put_deduplicated deduplicate by_channel kept_writes after_tick
    apply_tasks apply_writes run_loops next_version_of answer_of sort_tasks sort_key insert_task
    str_leb increment save_superstep end_superstep put_checkpoint put_with put_created
    next_checkpoint create_checkpoint delta_channels_to_snapshot channels_to_snapshot finish_put
    take_checkpoint store next_counters new_metadata check_interrupt_after should_interrupt
    add_overwritten all_writes given_back stored_pending
program = tt

abbrev state_of : Ran → PregelLoop
state_of none = started
state_of (some (r, l)) = l

abbrev result_of : Ran → Result (Unit {0})
result_of none = ok tt
result_of (some (r, l)) = r

-- Two supersteps are made, and then the steps are used up.
abbrev is_recursion_error : Ran → Bool
is_recursion_error (some (err recursion_error, l)) = true
is_recursion_error r = false

result-state : (r : Ran) → is_recursion_error r ≡ true → r ≡ some (result_of r, state_of r)
result-state none e = cc
result-state (some (r, l)) e = refl

abbrev ran : Ran
ran = run 3 spinning always_writes started

ran-recursion_error : is_recursion_error ran ≡ true
unfolding program
ran-recursion_error = refl

run-Linked_example :
    Linked (state_of ran).config_id (state_of ran).puts × PutEach spinning started (state_of ran)
run-Linked_example =
    run-Linked spinning always_writes 3 started (state_of ran) (result_of ran) tt
      (result-state ran ran-recursion_error)

abbrev begun : PregelLoop
begun = (tick spinning started).1

begun_continues : tick spinning started ≡ (ok true, begun)
unfolding program
begun_continues = refl

abbrev given : Task
given = record {
  id = "n";
  name = "n";
  path = end;
  input = num 1;
  triggers = "a" ∷ [];
  hidden = false;
  writes = [];
}

abbrev fresh : PregelLoop
fresh = record started { pending_writes = ("m", "a", num 8) ∷ [] }

abbrev task_of : Option Task → Task
task_of none = given
task_of (some t) = t

has_task : get "n" begun.tasks ≡ some (task_of (get "n" begun.tasks))
unfolding program
has_task = refl

tick-given_back_example : (task_of (get "n" begun.tasks)).writes ≡ ("a", num 7) ∷ []
unfolding program
tick-given_back_example =
    tick-given_back spinning started begun "n" (task_of (get "n" begun.tasks)) refl begun_continues
      has_task

abbrev committed : PregelLoop
committed = commit_task spinning given (failed (("a", num 3) ∷ []) (num 0)) fresh

-- Another loop, with the writes that were stored.
abbrev resumed : PregelLoop
resumed = record started { pending_writes = stored_pending "first" committed.put_writes_calls }

abbrev resumed_tick : PregelLoop
resumed_tick = (tick spinning resumed).1

starts-tick_example : starts "n" begun ≡ false
unfolding program
starts-tick_example =
    starts-tick spinning started begun "n" (task_of (get "n" begun.tasks)) refl begun_continues
      has_task
