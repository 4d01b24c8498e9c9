-- ===== src/Loop/Starting.antt =====
-- Which tasks the runner starts after a tick of libs/langgraph/langgraph/pregel/_loop.py: the `while`
-- of `Pregel.stream` (main.py) takes those that have no writes.
use langgraph_study.Prelude.{
  String, Bool, true, false, not, ◌||◌, ◌≡◌, refl, sym, ◌∙◌, ap, some, List, [], ◌∷◌, map, any,
  nonempty, str_eq, eq_iff, ltb, arith, subst, none, ◌&&◌, Bool-cases, Option-cases, inl, inr,
}
use langgraph_study.Method.{Result, ok, err}
use langgraph_study.Values.{Value}
use langgraph_study.Dict.{Dict, get, put, has, keys, values}
use langgraph_study.Pregel.NextTasks.{PullTask}
use langgraph_study.Loop.State.{Graph, PregelLoop, PendingWrite, Task}
use langgraph_study.Loop.Pending.{reapply_writes, signal_keys, append_write}
use langgraph_study.Loop.Tick.{tick, tick_with, with_reapplied, by_id, executable}
use langgraph_study.Loop.Run.{unfinished_tasks}
use langgraph_study.Loop.Resuming.{given_back, tick-given_back, begin_tasks-true}

-- Each task stands under its own id, and no two under the same.
unfoldable pub IsIndex : Dict Task → Type 0
IsIndex [] = Unit {0}
IsIndex ((k, t) ∷ tasks) = (t.id ≡ k) × (has k (keys tasks) ≡ false) × IsIndex tasks

has-keys-put :
    (j k : String) (t : Task) (tasks : Dict Task)
    → has j (keys (put k t tasks)) ≡ (str_eq k j || has j (keys tasks))
unfolding has put
has-keys-put j k t [] = ground arith
has-keys-put j k t ((i, u) ∷ tasks) =
    ground (arith, eq_iff i k, eq_iff i j, eq_iff k j, has-keys-put j k t tasks)

pub put-IsIndex : (t : Task) (tasks : Dict Task) → IsIndex tasks → IsIndex (put t.id t tasks)
unfolding IsIndex put has
put-IsIndex t [] i = (refl, refl, tt)
put-IsIndex t ((k, u) ∷ tasks) i = elim (Bool-cases (str_eq k t.id)) [
  | inl same ↦ rw same (sym ((eq_iff k t.id).0 same), i.1, i.2)
  | inr other ↦ rw other (
    i.0,
    ground (arith, has-keys-put k t.id t tasks, eq_iff t.id k, eq_iff k t.id, i.1),
    put-IsIndex t tasks i.2,
  )
]

pub id-get :
    (id : String) (t : Task) (tasks : Dict Task) → IsIndex tasks → get id tasks ≡ some t → t.id ≡ id
unfolding IsIndex get
id-get id t [] i e = cc
id-get id t ((k, u) ∷ tasks) i e = ground (arith, eq_iff k id, i.0, id-get id t tasks i.2)

give-IsIndex :
    (tid : String) (w : String × Value) (tasks : Dict Task)
    → IsIndex tasks
    → IsIndex (elim (get tid tasks) [ none ↦ tasks | some t ↦ put tid (append_write w t) tasks ])
give-IsIndex tid w tasks i = elim (Option-cases (get tid tasks)) [
  | inl e ↦ rw e i
  | inr (t, e) ↦ rw (e, sym (id-get tid t tasks i e)) (put-IsIndex (append_write w t) tasks i)
]

reapply_writes-IsIndex :
    (pending : List PendingWrite) (tasks : Dict Task)
    → IsIndex tasks
    → IsIndex (reapply_writes pending tasks)
unfolding reapply_writes
reapply_writes-IsIndex [] tasks i = i
reapply_writes-IsIndex ((tid, k, v) ∷ pending) tasks i = elim (Bool-cases (has k signal_keys)) [
  | inl signal ↦ rw signal (reapply_writes-IsIndex pending tasks i)
  | inr kept ↦ rw kept (reapply_writes-IsIndex pending _ (give-IsIndex tid (k, v) tasks i))
]

by_id-IsIndex : (ts : List Task) (tasks : Dict Task) → IsIndex tasks → IsIndex (by_id ts tasks)
unfolding by_id
by_id-IsIndex [] tasks i = i
by_id-IsIndex (t ∷ ts) tasks i = by_id-IsIndex ts (put t.id t tasks) (put-IsIndex t tasks i)

with_reapplied-IsIndex : (l : PregelLoop) → IsIndex l.tasks → IsIndex (with_reapplied l).tasks
unfolding with_reapplied
with_reapplied-IsIndex l i = elim (Bool-cases (not l.is_replaying && nonempty l.pending_writes)) [
  | inl given ↦ rw given (reapply_writes-IsIndex l.pending_writes l.tasks i)
  | inr same ↦ rw same i
]

tick_with-IsIndex :
    (g : Graph) (l n : PregelLoop) (r : Result (List PullTask))
    → tick_with g l r ≡ (ok true, n)
    → IsIndex n.tasks
unfolding tick_with
tick_with-IsIndex g l n (err error) e = cc
tick_with-IsIndex g l n (ok ts) e =
    let begun : PregelLoop = record l { tasks = by_id (map (λ t. executable g l t) ts) [] } in
    subst (λ (m : PregelLoop). IsIndex m.tasks) (begin_tasks-true g begun n e)
      (with_reapplied-IsIndex begun
        (by_id-IsIndex (map (λ t. executable g l t) ts) [] (unfold IsIndex in tt)))

pub tick-IsIndex : (g : Graph) (l n : PregelLoop) → tick g l ≡ (ok true, n) → IsIndex n.tasks
unfolding tick
tick-IsIndex g l n e = elim (Bool-cases (ltb g.stop l.step)) [
  | inl s ↦ cc (rw s at e)
  | inr s ↦ tick_with-IsIndex g l n _ (rw s at e)
]

-- Whether a task of this id is among those that the runner starts.
abbrev pub starts : String → PregelLoop → Bool
starts id l = any (λ (t : Task). str_eq t.id id) (unfinished_tasks (values l.tasks))

unfinished_tasks-not_has :
    (id : String) (tasks : Dict Task)
    → IsIndex tasks
    → has id (keys tasks) ≡ false
    → any (λ (t : Task). str_eq t.id id) (unfinished_tasks (values tasks)) ≡ false
unfolding IsIndex has unfinished_tasks
unfinished_tasks-not_has id [] i h = refl
unfinished_tasks-not_has id ((k, t) ∷ tasks) i h =
    ground (arith, i.0, unfinished_tasks-not_has id tasks i.2)

unfinished_tasks-get :
    (id : String) (t : Task) (tasks : Dict Task)
    → IsIndex tasks
    → get id tasks ≡ some t
    → any (λ (t : Task). str_eq t.id id) (unfinished_tasks (values tasks)) ≡ not (nonempty t.writes)
unfolding IsIndex get unfinished_tasks
unfinished_tasks-get id t [] i e = cc
unfinished_tasks-get id t ((k, u) ∷ tasks) i e = ground (
  arith,
  i.0,
  i.1,
  eq_iff k id,
  unfinished_tasks-get id t tasks i.2,
  unfinished_tasks-not_has id tasks i.2,
)

-- After a tick that starts a superstep, of a run that does not replay a checkpoint, the runner starts a
-- task exactly if no writes that were stored for it are given back: signals alone do not count. This is
-- for graphs without error handlers, which a tick would resume.
pub starts-tick :
    (g : Graph) (l n : PregelLoop) (id : String) (t : Task)
    → l.is_replaying ≡ false
    → tick g l ≡ (ok true, n)
    → get id n.tasks ≡ some t
    → starts id n ≡ not (nonempty (given_back id l.pending_writes))
starts-tick g l n id t r e h =
    unfinished_tasks-get id t n.tasks (tick-IsIndex g l n e) h
    ∙ ap (λ ws. not (nonempty ws)) (tick-given_back g l n id t r e h)
