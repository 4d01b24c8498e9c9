-- ===== src/Pregel/Preparing.antt =====
-- The shortcut of `prepare_next_tasks` (libs/langgraph/langgraph/pregel/_algo.py), which looks only at
-- the nodes that the updated channels trigger.
use langgraph_study.Prelude.{
  ℕ, String, ◌≡◌, refl, sym, ap, ◌∙◌, true, false, ◌&&◌, Option, none, some, List, [], ◌∷◌,
  nonempty, str_eq, eq_iff, arith, Bool-cases, Option-cases, inl, inr, subst,
}
use langgraph_study.Method.{Result, ok, err, ◌>>=◌, Result-cases}
use langgraph_study.Values.{Value}
use langgraph_study.Dict.{Dict, has, get, get_or, keys}
use langgraph_study.Channels.Channel.{Channel}
use langgraph_study.Pregel.Checkpoint.{Checkpoint}
use langgraph_study.Pregel.NextTasks.{
  PregelNode, PullTask, triggers, prepare_pull_task, triggered_nodes, candidate_nodes, prepare_each,
  prepare_next_tasks, checkpoint_null_version, proc_input, append_task, pull_task, executable_task,
}
use langgraph_study.Pregel.Candidates.{has-triggered, has-sort_names}
use langgraph_study.Pregel.Firing.{fires, triggers-Fired, has-head}

-- What `prepare_pull_task` has found where it gives a task.
record Pulled (checkpoint : Checkpoint) (null_version : Option ℕ) (processes : Dict PregelNode)
    (channels : Dict Channel) (name : String) (task : PullTask) : Type 0 where
  proc : PregelNode
  version : ℕ
  is_process : get name processes ≡ some proc
  is_started : null_version ≡ some version
  is_triggered :
      triggers channels checkpoint.channel_versions (get name checkpoint.versions_seen) version proc
      ≡ ok true
  is_named : task.name ≡ name

name_or : String → Result (Option PullTask) → String
name_or name (ok (some task)) = task.name
name_or name r = name

name-pull_task :
    (name : String) (val : Option Value) (task : PullTask)
    → ok (pull_task name val) ≡ ok (some task)
    → task.name ≡ name
unfolding name_or
name-pull_task name none task h = cc
name-pull_task name (some v) task h = sym (ap (name_or name) h)

name-executable_task :
    (proc : PregelNode) (name : String) (r : Result (Option Value)) (task : PullTask)
    → r >>= (λ val. ok (executable_task proc name val)) ≡ ok (some task)
    → task.name ≡ name
name-executable_task proc name (ok val) task h = elim (Bool-cases proc.has_node) [
  | inl has ↦ name-pull_task name val task (rw has at h)
  | inr hasnt ↦ cc (rw hasnt at h)
]
name-executable_task proc name (err e) task h = cc

prepare_pull_task-Pulled :
    (checkpoint : Checkpoint) (null_version : Option ℕ) (processes : Dict PregelNode)
    (channels : Dict Channel) (name : String) (task : PullTask)
    → prepare_pull_task checkpoint null_version processes channels name ≡ ok (some task)
    → Pulled checkpoint null_version processes channels name task
unfolding prepare_pull_task
prepare_pull_task-Pulled checkpoint null_version processes channels name task h =
    elim (Option-cases (get name processes)) [
      | inl e ↦ cc (rw (prepare_pull_task, e) at h)
      | inr (proc, e) ↦ elim (Option-cases null_version) [
        | inl f ↦ cc (rw (prepare_pull_task, e, f) at h)
        | inr (version, f) ↦
            elim (Result-cases (
              triggers channels checkpoint.channel_versions (get name checkpoint.versions_seen)
                version proc)) [
                  | inl (true, g) ↦ record {
                    proc = proc;
                    version = version;
                    is_process = e;
                    is_started = f;
                    is_triggered = g;
                    is_named =
                        name-executable_task proc name (proc_input proc channels) task
                          (rw (prepare_pull_task, e, f, g) at h);
                  }
                  | inl (false, g) ↦ cc (rw (prepare_pull_task, e, f, g) at h)
                  | inr (c, g) ↦ cc (rw (prepare_pull_task, e, f, g) at h)
                ]
      ]
    ]

-- The inverse of the triggers of the nodes, as the compiled graph builds it.
abbrev pub IsInverse : Dict PregelNode → Dict (List String) → Type 0
IsInverse processes trigger_to_nodes =
    (name chan : String) (proc : PregelNode)
    → get name processes ≡ some proc
    → has chan proc.triggers ≡ true
    → has name (get_or chan trigger_to_nodes []) ≡ true

-- Each trigger that fires was updated in the previous step.
abbrev pub Covers : Checkpoint → Dict PregelNode → Dict Channel → List String → Type 0
Covers checkpoint processes channels updated_channels =
    (name chan : String) (proc : PregelNode)
    → get name processes ≡ some proc
    → has chan proc.triggers ≡ true
    → fires channels checkpoint.channel_versions (get name checkpoint.versions_seen) chan ≡ true
    → has chan updated_channels ≡ true

has-keys : {V : Type 0} (k : String) (v : V) (d : Dict V) → get k d ≡ some v → has k (keys d) ≡ true
unfolding get has
has-keys k v [] h = cc
has-keys k v ((j, w) ∷ d) h = ground (arith, has-keys k v d)

null_version-zero :
    (checkpoint : Checkpoint) (version : ℕ)
    → checkpoint_null_version checkpoint ≡ some version
    → (version ≡ 0) × (nonempty checkpoint.channel_versions ≡ true)
unfolding checkpoint_null_version
null_version-zero checkpoint version h = ground arith

-- Every node that gets a task is a candidate.
has-candidate_nodes :
    (checkpoint : Checkpoint) (processes : Dict PregelNode) (channels : Dict Channel)
    (trigger_to_nodes : Dict (List String)) (updated_channels : List String) (name : String)
    (task : PullTask)
    → (nonempty updated_channels && nonempty trigger_to_nodes ≡ true
        → IsInverse processes trigger_to_nodes
          × Covers checkpoint processes channels updated_channels)
    → Pulled checkpoint (checkpoint_null_version checkpoint) processes channels name task
    → has name (candidate_nodes checkpoint processes trigger_to_nodes updated_channels) ≡ true
unfolding candidate_nodes
has-candidate_nodes checkpoint processes channels trigger_to_nodes updated_channels name task known
      p =
    let (zero, started) = null_version-zero checkpoint p.version p.is_started in
    let f =
      triggers-Fired channels checkpoint.channel_versions (get name checkpoint.versions_seen) p.proc
        (subst
          (λ v.
            triggers channels checkpoint.channel_versions (get name checkpoint.versions_seen) v
              p.proc
            ≡ ok true)
          zero p.is_triggered) in
    elim (Bool-cases (nonempty updated_channels && nonempty trigger_to_nodes)) [
      | inl e ↦
          rw (candidate_nodes, e)
            (has-sort_names name (triggered_nodes trigger_to_nodes updated_channels [])
              ∙ has-triggered trigger_to_nodes updated_channels [] f.chan name
                  ((known e).1 name f.chan p.proc p.is_process f.is_trigger f.is_fired)
                  ((known e).0 name f.chan p.proc p.is_process f.is_trigger))
      | inr e ↦ rw (candidate_nodes, e, started) (has-keys name p.proc processes p.is_process)
    ]

-- What one round of `prepare_each` was made of.
record Round (r : Result (Option PullTask)) (rest : Result (List PullTask)) (tasks : List PullTask)
    : Type 0 where
  task : Option PullTask
  later : List PullTask
  is_pulled : r ≡ ok task
  is_rest : rest ≡ ok later
  is_all : tasks ≡ append_task task later

round :
    (r : Result (Option PullTask)) (rest : Result (List PullTask)) (tasks : List PullTask)
    → r >>= (λ t. rest >>= (λ ts. ok (append_task t ts))) ≡ ok tasks
    → Round r rest tasks
round (ok t) (ok ts) tasks h = record {
  task = t;
  later = ts;
  is_pulled = refl;
  is_rest = refl;
  is_all = ground arith;
}
round (ok t) (err e) tasks h = cc
round (err e) rest tasks h = cc

abbrev pub task_names : List PullTask → List String
task_names [] = []
task_names (task ∷ tasks) = task.name ∷ task_names tasks

has-append_task :
    (n : String) (t : Option PullTask) (tasks : List PullTask)
    → has n (task_names tasks) ≡ true
    → has n (task_names (append_task t tasks)) ≡ true
unfolding has
has-append_task n none tasks h = h
has-append_task n (some t) tasks h = ground arith

same_task :
    (a : Result (Option PullTask)) (t : Option PullTask) (task : PullTask)
    → a ≡ ok t
    → a ≡ ok (some task)
    → t ≡ some task
same_task a t task h g = cc

has-prepare_each :
    (checkpoint : Checkpoint) (null_version : Option ℕ) (processes : Dict PregelNode)
    (channels : Dict Channel) (names : List String) (name : String) (task : PullTask)
    (tasks : List PullTask)
    → has name names ≡ true
    → prepare_pull_task checkpoint null_version processes channels name ≡ ok (some task)
    → task.name ≡ name
    → prepare_each checkpoint null_version processes channels names ≡ ok tasks
    → has name (task_names tasks) ≡ true
unfolding prepare_each has
has-prepare_each checkpoint null_version processes channels [] name task tasks h p named e = cc
has-prepare_each checkpoint null_version processes channels (n ∷ names) name task tasks h p named
      e =
    let r =
      round (prepare_pull_task checkpoint null_version processes channels n)
        (prepare_each checkpoint null_version processes channels names) tasks e in
    elim (Bool-cases (str_eq n name)) [
      | inl q ↦
          let first : r.task ≡ some task =
            same_task (prepare_pull_task checkpoint null_version processes channels name) r.task
              task
              (ap (prepare_pull_task checkpoint null_version processes channels)
                  (sym ((eq_iff n name).0 q))
                ∙ r.is_pulled)
              p in
          rw (r.is_all, first)
            (ap (λ k. has name (k ∷ task_names r.later)) named ∙ has-head name (task_names r.later))
      | inr q ↦ rw r.is_all (
          has-append_task name r.task r.later (
            has-prepare_each checkpoint null_version processes channels names name task r.later
              (ground arith) p named r.is_rest))
    ]

-- The shortcut by the updated channels misses no task: a node for which `prepare_single_task` gives a
-- PULL task is among the tasks of `prepare_next_tasks`, where that returns. The condition: where both
-- the updated channels and `trigger_to_nodes` are given and not empty, `trigger_to_nodes` lists each
-- node under each of its triggers, and each trigger that fires was updated in the previous step.
pub has-prepare_next_tasks :
    (checkpoint : Checkpoint) (processes : Dict PregelNode) (channels : Dict Channel)
    (trigger_to_nodes : Dict (List String)) (updated_channels : List String) (name : String)
    (task : PullTask) (tasks : List PullTask)
    → (nonempty updated_channels && nonempty trigger_to_nodes ≡ true
        → IsInverse processes trigger_to_nodes
          × Covers checkpoint processes channels updated_channels)
    → prepare_pull_task checkpoint (checkpoint_null_version checkpoint) processes channels name
      ≡ ok (some task)
    → prepare_next_tasks checkpoint processes channels trigger_to_nodes updated_channels ≡ ok tasks
    → has name (task_names tasks) ≡ true
unfolding prepare_next_tasks
has-prepare_next_tasks checkpoint processes channels trigger_to_nodes updated_channels name task
      tasks known p e =
    let pulled =
      prepare_pull_task-Pulled checkpoint (checkpoint_null_version checkpoint) processes channels
        name task p in
    has-prepare_each checkpoint (checkpoint_null_version checkpoint) processes channels
      (candidate_nodes checkpoint processes trigger_to_nodes updated_channels) name task tasks
      (has-candidate_nodes checkpoint processes channels trigger_to_nodes updated_channels name task
        known pulled)
      p pulled.is_named e
