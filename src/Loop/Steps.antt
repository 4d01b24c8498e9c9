-- ===== src/Loop/Steps.antt =====
-- How the methods of the loop count the supersteps.
use langgraph_study.Prelude.{
  String, ℕ, ◌+◌, ◌≤◌, true, false, ◌≡◌, refl, Option, none, some, List, [], ◌∷◌, map, ltb, arith,
  Bool-cases, inl, inr, ◌∙◌,
}
use langgraph_study.Method.{Result, ok, err}
use langgraph_study.Values.{Value}
use langgraph_study.Dict.{Dict, get}
use langgraph_study.Pregel.Checkpoint.{Checkpoint}
use langgraph_study.Pregel.NextTasks.{PullTask}
use langgraph_study.Loop.State.{Graph, PregelLoop, PutCall, Task}
use langgraph_study.Loop.Put.{finish_put, does_checkpoint}
use langgraph_study.Loop.Pending.{put_writes, put_deduplicated}
use langgraph_study.Loop.Tick.{
  by_id, executable, tick, tick_with, begin_tasks, check_interrupt, with_reapplied,
}
use langgraph_study.Loop.Run.{
  NodeResult, returned, failed, interrupted, set_writes, commit_task, add_handler,
  schedule_error_handler, handled, bubbled, commit_all,
}

-- What only `_put_checkpoint` changes.
pub record SameSaved (l l' : PregelLoop) : Type 0 where
  pub same_step : l'.step ≡ l.step
  pub same_puts : l'.puts ≡ l.puts
  pub same_config : l'.config_id ≡ l.config_id

pub SameSaved-refl : (l : PregelLoop) → SameSaved l l
SameSaved-refl l = record { same_step = refl; same_puts = refl; same_config = refl }

pub SameSaved-trans : {l m n : PregelLoop} → SameSaved l m → SameSaved m n → SameSaved l n
SameSaved-trans a b = record {
  same_step = b.same_step ∙ a.same_step;
  same_puts = b.same_puts ∙ a.same_puts;
  same_config = b.same_config ∙ a.same_config;
}

check_interrupt-SameSaved : (g : Graph) (l : PregelLoop) → SameSaved l (check_interrupt g l).1
unfolding check_interrupt
check_interrupt-SameSaved g l = ground arith

with_reapplied-SameSaved : (l : PregelLoop) → SameSaved l (with_reapplied l)
unfolding with_reapplied
with_reapplied-SameSaved l = ground arith

begin_tasks-SameSaved : (g : Graph) (l : PregelLoop) → SameSaved l (begin_tasks g l).1
unfolding begin_tasks
begin_tasks-SameSaved g l =
    ground (arith, check_interrupt-SameSaved g (with_reapplied l), with_reapplied-SameSaved l)

abbrev with_tasks : Dict Task → PregelLoop → PregelLoop
with_tasks tasks l = record l { tasks = tasks }

tick_with-SameSaved :
    (g : Graph) (l : PregelLoop) (r : Result (List PullTask)) → SameSaved l (tick_with g l r).1
unfolding tick_with
tick_with-SameSaved g l (err e) = SameSaved-refl l
tick_with-SameSaved g l (ok tasks) =
    let begun = with_tasks (by_id (map (λ t. executable g l t) tasks) []) l in
    SameSaved-trans {m = begun} (record { same_step = refl; same_puts = refl; same_config = refl })
      (begin_tasks-SameSaved g begun)

pub tick-SameSaved : (g : Graph) (l : PregelLoop) → SameSaved l (tick g l).1
unfolding tick
tick-SameSaved g l = elim (Bool-cases (ltb g.stop l.step)) [
  | inl e ↦ rw e (record { same_step = refl; same_puts = refl; same_config = refl })
  | inr e ↦ rw e (tick_with-SameSaved g l _)
]

pub tick-continues : (g : Graph) (l : PregelLoop) → (tick g l).0 ≡ ok true → l.step ≤ g.stop
unfolding tick
tick-continues g l h = elim (Bool-cases (ltb g.stop l.step)) [
  | inl e ↦ cc (rw e at h)
  | inr e ↦ ground arith
]

put_writes-SameSaved :
    (g : Graph) (id : String) (writes : List (String × Value)) (l : PregelLoop)
    → SameSaved l (put_writes g id writes l)
unfolding put_writes put_deduplicated
put_writes-SameSaved g id writes l = ground arith

set_writes-SameSaved :
    (t : Task) (writes : List (String × Value)) (l : PregelLoop)
    → SameSaved l (set_writes t writes l)
set_writes-SameSaved t writes l = record { same_step = refl; same_puts = refl; same_config = refl }

commit_task-SameSaved :
    (g : Graph) (t : Task) (r : NodeResult) (l : PregelLoop) → SameSaved l (commit_task g t r l)
unfolding commit_task
commit_task-SameSaved g t (returned writes) l =
    SameSaved-trans (set_writes-SameSaved t _ l) (put_writes-SameSaved g t.id _ _)
commit_task-SameSaved g t (failed writes error) l =
    SameSaved-trans (set_writes-SameSaved t _ l) (put_writes-SameSaved g t.id _ _)
commit_task-SameSaved g t (handled writes error handler) l =
    SameSaved-trans (set_writes-SameSaved t _ l) (put_writes-SameSaved g t.id _ _)
commit_task-SameSaved g t (bubbled writes) l = set_writes-SameSaved t _ l
commit_task-SameSaved g t (interrupted writes none) l = set_writes-SameSaved t _ l
commit_task-SameSaved g t (interrupted writes (some value)) l =
    SameSaved-trans (set_writes-SameSaved t _ l) (put_writes-SameSaved g t.id _ _)

schedule_error_handler-SameSaved :
    (r : NodeResult) (l : PregelLoop) → SameSaved l (schedule_error_handler r l)
unfolding schedule_error_handler add_handler
schedule_error_handler-SameSaved (handled writes error (some t)) l = record {
  same_step = refl;
  same_puts = refl;
  same_config = refl;
}
schedule_error_handler-SameSaved (handled writes error none) l = SameSaved-refl l
schedule_error_handler-SameSaved (returned writes) l = SameSaved-refl l
schedule_error_handler-SameSaved (failed writes error) l = SameSaved-refl l
schedule_error_handler-SameSaved (interrupted writes value) l = SameSaved-refl l
schedule_error_handler-SameSaved (bubbled writes) l = SameSaved-refl l

commit_found-SameSaved :
    (g : Graph) (o : Option Task) (r : NodeResult) (l : PregelLoop)
    → SameSaved l (elim o [ none ↦ l | some t ↦ schedule_error_handler r (commit_task g t r l) ])
commit_found-SameSaved g none r l = SameSaved-refl l
commit_found-SameSaved g (some t) r l =
    SameSaved-trans (commit_task-SameSaved g t r l)
      (schedule_error_handler-SameSaved r (commit_task g t r l))

pub commit_all-SameSaved :
    (g : Graph) (results : List (String × NodeResult)) (l : PregelLoop)
    → SameSaved l (commit_all g results l)
unfolding commit_all
commit_all-SameSaved g [] l = SameSaved-refl l
commit_all-SameSaved g ((id, r) ∷ results) l =
    SameSaved-trans (commit_found-SameSaved g (get id l.tasks) r l)
      (commit_all-SameSaved g results _)

-- What `_put_checkpoint` has done where it returns: a superstep more, and the checkpoint stored where
-- one is to be stored.
pub record Put (g : Graph) (l l' : PregelLoop) : Type 0 where
  pub one_more : l'.step ≡ l.step + 1
  pub stored :
      does_checkpoint g false ≡ true
      → (p : PutCall) × (l'.puts ≡ p ∷ l.puts)
        × (p.parent ≡ l.config_id)
        × (p.checkpoint ≡ l'.checkpoint)
        × (l'.config_id ≡ some l'.checkpoint.id)
  pub not_stored :
      does_checkpoint g false ≡ false → (l'.puts ≡ l.puts) × (l'.config_id ≡ l.config_id)

pub finish_put-Put :
    (g : Graph) (to_snapshot : List String) (counters : Dict (ℕ × ℕ)) (c : Checkpoint)
    (l : PregelLoop)
    → Put g l (finish_put g false to_snapshot counters c l)
unfolding finish_put
finish_put-Put g to_snapshot counters c l = record {
  one_more = ground arith;
  stored = λ d. rw d (_, refl, refl, refl, refl);
  not_stored = λ d. rw d (refl, refl);
}
