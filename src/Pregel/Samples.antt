-- ===== src/Pregel/Samples.antt =====
-- Small graphs, and what a step of them does.
use mathlib.Core.List.{Permᴰ}
use langgraph_study.Prelude.{
  if◌then◌else◌, ℕ, ◌<◌, eq_iff, true, String, ◌≡◌, refl, ap, Option, none, some, List, [], ◌∷◌,
  length, arith,
}
use langgraph_study.Method.{ok, err, type_error}
use langgraph_study.Values.{Value, null, num, str, list, nil, cons}
use langgraph_study.Dict
use langgraph_study.Dict.{Dict, get, has, keys}
use langgraph_study.Channels.Channel
use langgraph_study.Channels.Channel.{Channel, last_value}
use langgraph_study.Pregel.Checkpoint.{Checkpoint}
use langgraph_study.Pregel.Task.{
  PregelTaskWrites, text, end, part, sort_key, sort_tasks, insert_task, str_leb,
}
use langgraph_study.Pregel.ApplyWrites.{
  apply_writes, increment, run_loops, next_version_of, answer_of,
}
use langgraph_study.Pregel.Order.{apply_writes-perm, HaveDistinctKeys}
use langgraph_study.Pregel.Versions.{apply_writes-updated, apply_writes-same_version, IsIncreasing}
use langgraph_study.Pregel.Checkpointing.{create_checkpoint, channels_from_checkpoint}
use langgraph_study.Pregel.Saved.{by_checkpoint}
use langgraph_study.Pregel.Io.{one, read_channel, read_channels, read_each}
use langgraph_study.Pregel.Constants.{null_task_id}
use langgraph_study.Pregel.Commands.{Command, map_command, map_goto, append_text}
use langgraph_study.Pregel.Outputs.{get-read_channels}
use langgraph_study.Pregel.NextTasks.{
  PregelNode, prepare_pull_task, prepare_next_tasks, checkpoint_null_version,
}
use langgraph_study.Pregel.Preparing.{has-prepare_next_tasks, IsInverse, Covers, task_names}
use langgraph_study.Pregel.RoundTrip.{channels_from_checkpoint-create_checkpoint}

abbrev pub chan : Option Value → Channel
chan v = last_value (record { value = v })

abbrev pub board : Dict Channel
board = ("a", chan (some (num 1))) ∷ ("b", chan none) ∷ ("c", chan (some (num 3))) ∷ []

abbrev pub started : Checkpoint
started = record {
  v = 4;
  id = "c1";
  ts = "now";
  channel_values = ("a", num 1) ∷ ("c", num 3) ∷ [];
  channel_versions = ("a", 1) ∷ ("b", 1) ∷ ("c", 2) ∷ [];
  versions_seen = [];
  updated_channels = none;
}

abbrev pub first : PregelTaskWrites
first = record {
  path = part (text (112 ∷ [])) end;
  name = "n";
  writes = ("b", num 5) ∷ [];
  triggers = "a" ∷ [];
}

abbrev pub second : PregelTaskWrites
second = record {
  path = part (text (112 ∷ 113 ∷ [])) end;
  name = "m";
  writes = ("a", num 6) ∷ [];
  triggers = "a" ∷ [];
}

increment-IsIncreasing : IsIncreasing increment
unfolding increment
increment-IsIncreasing n = omega arith

program : Unit {0}
unfolding Channel.get read_channel read_channels read_each prepare_pull_task prepare_next_tasks
    checkpoint_null_version apply_writes run_loops next_version_of answer_of sort_tasks sort_key get
    has Channel.update Channel.from_checkpoint insert_task str_leb Channel.consume Dict.put
    Channel.is_available increment
program = tt

distinct : HaveDistinctKeys (second ∷ first ∷ [])
unfolding sort_key
distinct = ((λ e. omega (arith, ap length e), tt), (tt, tt))

apply_writes-perm_example :
    apply_writes started board (second ∷ first ∷ []) (some increment) []
    ≡ apply_writes started board (first ∷ second ∷ []) (some increment) []
apply_writes-perm_example =
    apply_writes-perm started board (second ∷ first ∷ []) (first ∷ second ∷ []) (some increment) []
      (Permᴰ.swap refl refl) distinct

abbrev tasks : List PregelTaskWrites
tasks = first ∷ second ∷ []

abbrev nodes : Dict (List String)
nodes = ("a", "m" ∷ []) ∷ ("b", "n" ∷ []) ∷ []

apply_writes-updated_example :
    (new : ℕ) × (get "b"
        (apply_writes started board tasks (some increment) nodes).checkpoint.channel_versions
      ≡ some new)
    × (2 < new)
unfolding program
apply_writes-updated_example =
    apply_writes-updated started board tasks increment nodes ("b" ∷ "a" ∷ []) "b" "c" 2
      increment-IsIncreasing refl refl refl

apply_writes-same_version_example :
    get "c" (apply_writes started board tasks (some increment) nodes).channels ≡ get "c" board
unfolding program
apply_writes-same_version_example =
    apply_writes-same_version started board tasks increment nodes ("b" ∷ "a" ∷ []) "c"
      increment-IsIncreasing refl refl

abbrev specs : Dict Channel
specs = ("a", chan none) ∷ ("b", chan none) ∷ ("c", chan none) ∷ []

channels_from_checkpoint-create_checkpoint_example :
    (saved : Checkpoint) × (create_checkpoint started
        (some board)
        "c2"
        "later"
        none
        (some increment)
        []
      ≡ ok saved)
    × (channels_from_checkpoint specs saved none ≡ ok board)
unfolding program
channels_from_checkpoint-create_checkpoint_example =
    channels_from_checkpoint-create_checkpoint started board specs "c2" "later" none
      (some increment) []
      (
        by_checkpoint refl refl tt tt,
        (by_checkpoint refl refl tt tt, (by_checkpoint refl refl tt tt, tt)),
      )
      (refl, (refl, (refl, tt))) (refl, (λ b. refl), (refl, (λ b. refl), (refl, (λ b. refl), tt)))

-- One node that waits for "a".
abbrev waiting : Dict PregelNode
waiting = ("n", record { triggers = "a" ∷ []; channels = one "a"; has_node = true }) ∷ []

abbrev waiting_nodes : Dict (List String)
waiting_nodes = ("a", "n" ∷ []) ∷ []

waiting-IsInverse : IsInverse waiting waiting_nodes
unfolding get has
waiting-IsInverse name chan proc p h = ground (arith, eq_iff "n" name, eq_iff "a" chan)

waiting-Covers : Covers started waiting board ("a" ∷ [])
unfolding get has
waiting-Covers name chan proc p h f = ground (arith, eq_iff "n" name, eq_iff "a" chan)

has-prepare_next_tasks_example :
    has "n" (task_names (record { name = "n"; input = num 1 } ∷ [])) ≡ true
unfolding program
has-prepare_next_tasks_example =
    has-prepare_next_tasks started waiting board waiting_nodes ("a" ∷ []) "n"
      (record { name = "n"; input = num 1 }) (record { name = "n"; input = num 1 } ∷ [])
      (λ e. (waiting-IsInverse, waiting-Covers)) refl refl

get-read_channels_example :
    get "a" (("a", num 1) ∷ []) ≡ (if has "a" ("a" ∷ "b" ∷ []) then some (num 1) else none)
unfolding program
get-read_channels_example = get-read_channels board ("a" ∷ "b" ∷ []) (("a", num 1) ∷ []) "a" refl

-- A command that goes to a node and to no more, since what follows is no destination.
abbrev astray : Command
astray = record {
  graph = none;
  update = null;
  resume = num 1;
  goto = list (cons (str "n") (cons (num 2) nil));
}

map_command-astray :
    map_command (λ v. none) astray
    ≡ ((null_task_id, "branch:to:n", str "__start__") ∷ [], err type_error)
unfolding map_command map_goto append_text
map_command-astray = refl
