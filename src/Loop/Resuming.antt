-- ===== src/Loop/Resuming.antt =====
-- What a tick gives back to the tasks of the writes that were stored for them.
use langgraph_study.Prelude.{
  String, Bool, true, false, not, ◌&&◌, ◌≡◌, refl, sym, ◌∙◌, ap, Option, none, some, List, [], ◌∷◌,
  ◌++◌, map, nonempty, str_eq, eq_iff, ltb, if◌then◌else◌, arith, Bool-cases, inl, inr,
}
use langgraph_study.Method.{Result, ok, err}
use langgraph_study.Values.{Value}
use langgraph_study.Dict.{Dict, get, put, get-put, get-nil, has}
use langgraph_study.Pregel.NextTasks.{PullTask}
use langgraph_study.Loop.State.{Graph, PregelLoop, PendingWrite, Task}
use langgraph_study.Loop.Pending.{reapply_writes, signal_keys, append_write}
use langgraph_study.Loop.Tick.{
  tick, tick_with, begin_tasks, with_reapplied, check_interrupt, by_id, executable,
}
use mathlib.Core.List.{append-nil, append_assoc}

-- The writes of a task that a tick gives back: those to channels, and no signals of an error, of an
-- interrupt or of a resumption.
unfoldable pub given_back : String → List PendingWrite → List (String × Value)
given_back id [] = []
given_back id ((tid, k, v) ∷ pending) =
    if str_eq tid id && not (has k signal_keys)
    then (k, v) ∷ given_back id pending
    else given_back id pending

abbrev add_back : String → List PendingWrite → Option Task → Option Task
add_back id pending none = none
add_back id pending (some t) = some (record t { writes = t.writes ++ given_back id pending })

-- One write, given to its task.
abbrev give : String → String × Value → Dict Task → Dict Task
give tid w tasks = elim (get tid tasks) [ none ↦ tasks | some t ↦ put tid (append_write w t) tasks ]

get-give_at :
    (id tid : String) (w : String × Value) (tasks : Dict Task) (o : Option Task)
    → get tid tasks ≡ o
    → get id (elim o [ none ↦ tasks | some t ↦ put tid (append_write w t) tasks ]) ≡ (
        if str_eq tid id
        then elim o [ none ↦ none | some t ↦ some (append_write w t) ]
        else get id tasks)
get-give_at id tid w tasks none e = elim (Bool-cases (str_eq tid id)) [
  | inl q ↦ rw q (ap (λ k. get k tasks) (sym ((eq_iff tid id).0 q)) ∙ e)
  | inr q ↦ rw q
]
get-give_at id tid w tasks (some t) e = get-put tid id (append_write w t) tasks

get-give :
    (id tid : String) (w : String × Value) (tasks : Dict Task)
    → get id (give tid w tasks) ≡ (
        if str_eq tid id
        then elim (get tid tasks) [ none ↦ none | some t ↦ some (append_write w t) ]
        else get id tasks)
get-give id tid w tasks = get-give_at id tid w tasks (get tid tasks) refl

add_back-nil : (id : String) (o : Option Task) → add_back id [] o ≡ o
unfolding given_back
add_back-nil id none = refl
add_back-nil id (some t) = rw append-nil

-- The write goes before the rest.
add_back-cons :
    (id k : String) (v : Value) (pending : List PendingWrite) (o : Option Task)
    → not (has k signal_keys) ≡ true
    → add_back id pending (elim o [ none ↦ none | some t ↦ some (append_write (k, v) t) ])
      ≡ add_back id ((id, k, v) ∷ pending) o
unfolding given_back
add_back-cons id k v pending none n = refl
add_back-cons id k v pending (some t) n =
    rw ((eq_iff id id).1 refl, n, append_assoc t.writes ((k, v) ∷ []) (given_back id pending))

-- A write that is not given to this task.
add_back-skip :
    (id tid k : String) (v : Value) (pending : List PendingWrite) (o : Option Task)
    → (str_eq tid id && not (has k signal_keys)) ≡ false
    → add_back id pending o ≡ add_back id ((tid, k, v) ∷ pending) o
unfolding given_back
add_back-skip id tid k v pending none n = refl
add_back-skip id tid k v pending (some t) n = rw n

and_false : (b : Bool) → (b && false) ≡ false
and_false true = refl
and_false false = refl

pub get-reapply_writes :
    (id : String) (pending : List PendingWrite) (tasks : Dict Task)
    → get id (reapply_writes pending tasks) ≡ add_back id pending (get id tasks)
unfolding reapply_writes
get-reapply_writes id [] tasks = sym (add_back-nil id (get id tasks))
get-reapply_writes id ((tid, k, v) ∷ pending) tasks = elim (Bool-cases (has k signal_keys)) [
  | inl signal ↦ rw signal (
      get-reapply_writes id pending tasks
      ∙ add_back-skip id tid k v pending (get id tasks) (rw signal (and_false (str_eq tid id))))
  | inr kept ↦ rw kept (
      get-reapply_writes id pending (give tid (k, v) tasks)
      ∙ ap (add_back id pending) (get-give id tid (k, v) tasks)
      ∙ elim (Bool-cases (str_eq tid id)) [
        | inl same ↦
            rw (same, (eq_iff tid id).0 same)
              (add_back-cons id k v pending (get id tasks) (rw kept))
        | inr other ↦ rw other (add_back-skip id tid k v pending (get id tasks) (rw other))
      ])
]

some-writes : (t u : Task) → some t ≡ some u → t.writes ≡ u.writes
some-writes t u e = cc

-- Tasks that have not run yet.
abbrev Fresh : Dict Task → Type 0
Fresh tasks = (id : String) (t : Task) → get id tasks ≡ some t → t.writes ≡ []

put-Fresh : (t : Task) (tasks : Dict Task) → t.writes ≡ [] → Fresh tasks → Fresh (put t.id t tasks)
put-Fresh t tasks w f id u e = elim (Bool-cases (str_eq t.id id)) [
  | inl q ↦ sym (some-writes t u (rw (get-put t.id id t tasks, q) at e)) ∙ w
  | inr q ↦ f id u (rw (get-put t.id id t tasks, q) at e)
]

by_id-Fresh :
    (g : Graph) (l : PregelLoop) (ts : List PullTask) (tasks : Dict Task)
    → Fresh tasks
    → Fresh (by_id (map (λ t. executable g l t) ts) tasks)
unfolding by_id executable
by_id-Fresh g l [] tasks f = f
by_id-Fresh g l (t ∷ ts) tasks f = by_id-Fresh g l ts _ (put-Fresh _ tasks refl f)

check_interrupt-true : (g : Graph) (l n : PregelLoop) → check_interrupt g l ≡ (ok true, n) → l ≡ n
unfolding check_interrupt
check_interrupt-true g l n e = ground arith

pub begin_tasks-true :
    (g : Graph) (l n : PregelLoop) → begin_tasks g l ≡ (ok true, n) → with_reapplied l ≡ n
unfolding begin_tasks
begin_tasks-true g l n e = ground (arith, check_interrupt-true g (with_reapplied l) n)

add_back-writes :
    (id : String) (pending : List PendingWrite) (o : Option Task) (t : Task)
    → ((u : Task) → o ≡ some u → u.writes ≡ [])
    → add_back id pending o ≡ some t
    → t.writes ≡ given_back id pending
add_back-writes id pending none t f e = cc
add_back-writes id pending (some u) t f e =
    sym (some-writes _ t e) ∙ ap (λ ws. ws ++ given_back id pending) (f u refl)

given_back-nil :
    (id : String) (pending : List PendingWrite)
    → nonempty pending ≡ false
    → given_back id pending ≡ []
unfolding given_back
given_back-nil id [] e = refl
given_back-nil id (w ∷ pending) e = cc

with_reapplied-writes :
    (l : PregelLoop) (id : String) (t : Task)
    → l.is_replaying ≡ false
    → Fresh l.tasks
    → get id (with_reapplied l).tasks ≡ some t
    → t.writes ≡ given_back id l.pending_writes
unfolding with_reapplied
with_reapplied-writes l id t r f e = elim (Bool-cases (nonempty l.pending_writes)) [
  | inl p ↦
      add_back-writes id l.pending_writes (get id l.tasks) t (f id)
        (sym (get-reapply_writes id l.pending_writes l.tasks) ∙ (rw (r, p) at e))
  | inr p ↦ f id t (rw (r, p) at e) ∙ sym (given_back-nil id l.pending_writes p)
]

tick_with-writes :
    (g : Graph) (l n : PregelLoop) (id : String) (t : Task) (r : Result (List PullTask))
    → l.is_replaying ≡ false
    → tick_with g l r ≡ (ok true, n)
    → get id n.tasks ≡ some t
    → t.writes ≡ given_back id l.pending_writes
unfolding tick_with
tick_with-writes g l n id t (err error) r e h = cc
tick_with-writes g l n id t (ok tasks) r e h =
    let begun : PregelLoop = record l { tasks = by_id (map (λ t. executable g l t) tasks) [] } in
    with_reapplied-writes begun id t r (by_id-Fresh g l tasks [] (λ i u q. absurd (get-nil i u q)))
      (ap (λ (m : PregelLoop). get id m.tasks) (begin_tasks-true g begun n e) ∙ h)

-- A tick that starts a superstep, of a run that does not replay a checkpoint, gives each task exactly
-- the writes that were stored for it before, in their order, and leaves out the signals of an error,
-- of an interrupt or of a resumption.
pub tick-given_back :
    (g : Graph) (l n : PregelLoop) (id : String) (t : Task)
    → l.is_replaying ≡ false
    → tick g l ≡ (ok true, n)
    → get id n.tasks ≡ some t
    → t.writes ≡ given_back id l.pending_writes
unfolding tick
tick-given_back g l n id t r e h = elim (Bool-cases (ltb g.stop l.step)) [
  | inl s ↦ cc (rw s at e)
  | inr s ↦ tick_with-writes g l n id t _ r (rw s at e) h
]
