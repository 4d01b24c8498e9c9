-- ===== src/Loop/Touching.antt =====
-- What of the loop's state the runner's `commit` (libs/langgraph/langgraph/pregel/_runner.py) changes.
use langgraph_study.Prelude.{
  String, ◌≡◌, refl, ◌∙◌, ap, Option, none, some, List, [], ◌∷◌, nonempty, Bool-cases, inl, inr,
}
use langgraph_study.Values.{Value}
use langgraph_study.Dict.{Dict, get}
use langgraph_study.Loop.State.{Graph, PregelLoop, PendingWrite, PutWritesCall, Task}
use langgraph_study.Loop.Pending.{put_writes, put_deduplicated}
use langgraph_study.Loop.Run.{
  NodeResult, returned, failed, handled, interrupted, bubbled, commit_task, set_writes, add_handler,
  schedule_error_handler, commit_all,
}
use langgraph_study.Loop.Finishing.{found}

-- The state but for its tasks, its pending writes and the calls of `put_writes`.
abbrev pub with_calls : Dict Task → List PendingWrite → List PutWritesCall → PregelLoop → PregelLoop
with_calls tasks pending calls l = record l {
  tasks = tasks;
  pending_writes = pending;
  put_writes_calls = calls;
}

-- These are all that `commit` changes.
abbrev OnlyCalls : PregelLoop → PregelLoop → Type 0
OnlyCalls l l' = with_calls l'.tasks l'.pending_writes l'.put_writes_calls l ≡ l'

OnlyCalls-trans : (l m n : PregelLoop) → OnlyCalls l m → OnlyCalls m n → OnlyCalls l n
OnlyCalls-trans l m n a b = ap (with_calls n.tasks n.pending_writes n.put_writes_calls) a ∙ b

put_writes-OnlyCalls :
    (g : Graph) (id : String) (writes : List (String × Value)) (l : PregelLoop)
    → OnlyCalls l (put_writes g id writes l)
unfolding put_writes put_deduplicated
put_writes-OnlyCalls g id writes l = elim (Bool-cases (nonempty writes)) [
  | inl e ↦ rw e refl
  | inr e ↦ rw e refl
]

commit_task-OnlyCalls :
    (g : Graph) (t : Task) (r : NodeResult) (l : PregelLoop) → OnlyCalls l (commit_task g t r l)
unfolding commit_task
commit_task-OnlyCalls g t (returned writes) l = put_writes-OnlyCalls g t.id _ (set_writes t _ l)
commit_task-OnlyCalls g t (failed writes error) l = put_writes-OnlyCalls g t.id _ (set_writes t _ l)
commit_task-OnlyCalls g t (handled writes error handler) l =
    put_writes-OnlyCalls g t.id _ (set_writes t _ l)
commit_task-OnlyCalls g t (interrupted writes none) l = refl
commit_task-OnlyCalls g t (interrupted writes (some v)) l =
    put_writes-OnlyCalls g t.id _ (set_writes t _ l)
commit_task-OnlyCalls g t (bubbled writes) l = refl

schedule_error_handler-OnlyCalls :
    (r : NodeResult) (l : PregelLoop) → OnlyCalls l (schedule_error_handler r l)
unfolding schedule_error_handler add_handler
schedule_error_handler-OnlyCalls (handled writes error (some t)) l = refl
schedule_error_handler-OnlyCalls (handled writes error none) l = refl
schedule_error_handler-OnlyCalls (returned writes) l = refl
schedule_error_handler-OnlyCalls (failed writes error) l = refl
schedule_error_handler-OnlyCalls (interrupted writes value) l = refl
schedule_error_handler-OnlyCalls (bubbled writes) l = refl

found-OnlyCalls :
    (g : Graph) (r : NodeResult) (o : Option Task) (l : PregelLoop) → OnlyCalls l (found g r o l)
found-OnlyCalls g r none l = refl
found-OnlyCalls g r (some t) l =
    OnlyCalls-trans l (commit_task g t r l) (schedule_error_handler r (commit_task g t r l))
      (commit_task-OnlyCalls g t r l) (schedule_error_handler-OnlyCalls r (commit_task g t r l))

pub commit_all-OnlyCalls :
    (g : Graph) (rs : List (String × NodeResult)) (l : PregelLoop) → OnlyCalls l (commit_all g rs l)
unfolding commit_all
commit_all-OnlyCalls g [] l = refl
commit_all-OnlyCalls g ((id, r) ∷ rs) l =
    let first = found g r (get id l.tasks) l in
    OnlyCalls-trans l first (commit_all g rs first) (found-OnlyCalls g r (get id l.tasks) l)
      (commit_all-OnlyCalls g rs first)
