-- ===== src/Loop/Finishing.antt =====
-- The order in which the tasks of a superstep finish: the runner's `commit`
-- (libs/langgraph/langgraph/pregel/_runner.py) is called for each when it is done.
use mathlib.Core.List.{Permᴰ}
use langgraph_study.Prelude.{
  String, Bool, true, false, not, ◌&&◌, ◌≡◌, refl, sym, ◌∙◌, ap, Option, none, some, List, [], ◌∷◌,
  ◌++◌, any, str_eq, eq_iff, subst, arith, Option-cases, inl, inr,
}
use langgraph_study.Values.{Value, str}
use langgraph_study.Dict.{Dict, get, put, mem, has, keys, get-put, keys-IsSome}
use langgraph_study.Pregel.Constants.{error_key, error_source_node_key}
use langgraph_study.Pregel.Saved.{HasDistinctKeys}
use langgraph_study.Loop.State.{Graph, PregelLoop, Task}
use langgraph_study.Loop.Pending.{put_writes, put_deduplicated}
use langgraph_study.Loop.Run.{
  NodeResult, returned, failed, handled, interrupted, bubbled, mark_no_writes, commit_task,
  schedule_error_handler, commit_all,
}
use langgraph_study.Loop.Starting.{IsIndex, put-IsIndex, id-get}

put_comm :
    (k j : String) (t u : Task) (tasks : Dict Task)
    → str_eq k j ≡ false
    → mem k tasks ≡ true
    → mem j tasks ≡ true
    → put k t (put j u tasks) ≡ put j u (put k t tasks)
unfolding get put
put_comm k j t u [] n h i = cc
put_comm k j t u ((i, w) ∷ tasks) n a b =
    ground (arith, eq_iff k j, eq_iff i k, eq_iff i j, put_comm k j t u tasks)

-- The writes of a task once this has been committed.
abbrev writes_after : Task → NodeResult → List (String × Value)
writes_after t (returned writes) = mark_no_writes (t.writes ++ writes)
writes_after t (failed writes error) = t.writes ++ (writes ++ (error_key, error) ∷ [])
writes_after t (handled writes error handler) =
    t.writes ++ (writes ++ (error_key, error) ∷ (error_source_node_key, str t.name) ∷ [])
writes_after t (interrupted writes value) = t.writes ++ writes
writes_after t (bubbled writes) = t.writes ++ writes

abbrev committed : Task → NodeResult → Task
committed t r = record t { writes = writes_after t r }

put_writes-tasks :
    (g : Graph) (id : String) (writes : List (String × Value)) (l : PregelLoop)
    → (put_writes g id writes l).tasks ≡ l.tasks
unfolding put_writes put_deduplicated
put_writes-tasks g id writes l = ground arith

commit_task-tasks :
    (g : Graph) (t : Task) (r : NodeResult) (l : PregelLoop)
    → (commit_task g t r l).tasks ≡ put t.id (committed t r) l.tasks
unfolding commit_task
commit_task-tasks g t (returned writes) l = put_writes-tasks g t.id _ _
commit_task-tasks g t (failed writes error) l = put_writes-tasks g t.id _ _
commit_task-tasks g t (handled writes error handler) l = put_writes-tasks g t.id _ _
commit_task-tasks g t (interrupted writes none) l = refl
commit_task-tasks g t (interrupted writes (some v)) l = put_writes-tasks g t.id _ _
commit_task-tasks g t (bubbled writes) l = refl

-- Whether a handler is started.
abbrev pub starts_handler : String × NodeResult → Bool
starts_handler (id, handled writes error (some t)) = true
starts_handler (id, r) = false

schedule_error_handler-none :
    (id : String) (r : NodeResult) (l : PregelLoop)
    → starts_handler (id, r) ≡ false
    → schedule_error_handler r l ≡ l
unfolding schedule_error_handler
schedule_error_handler-none id (handled writes error (some t)) l h = cc
schedule_error_handler-none id (handled writes error none) l h = refl
schedule_error_handler-none id (returned writes) l h = refl
schedule_error_handler-none id (failed writes error) l h = refl
schedule_error_handler-none id (interrupted writes value) l h = refl
schedule_error_handler-none id (bubbled writes) l h = refl

abbrev commit_found : NodeResult → Option Task → Dict Task → Dict Task
commit_found r none tasks = tasks
commit_found r (some t) tasks = put t.id (committed t r) tasks

abbrev commit_one : String × NodeResult → Dict Task → Dict Task
commit_one r tasks = commit_found r.1 (get r.0 tasks) tasks

pub commit_tasks : List (String × NodeResult) → Dict Task → Dict Task
commit_tasks [] tasks = tasks
commit_tasks (r ∷ rs) tasks = commit_tasks rs (commit_one r tasks)

abbrev pub found : Graph → NodeResult → Option Task → PregelLoop → PregelLoop
found g r o l = elim o [ none ↦ l | some t ↦ schedule_error_handler r (commit_task g t r l) ]

found-tasks :
    (g : Graph) (id : String) (r : NodeResult) (o : Option Task) (l : PregelLoop)
    → starts_handler (id, r) ≡ false
    → (found g r o l).tasks ≡ commit_found r o l.tasks
found-tasks g id r none l h = refl
found-tasks g id r (some t) l h =
    ap (λ (m : PregelLoop). m.tasks) (schedule_error_handler-none id r (commit_task g t r l) h)
    ∙ commit_task-tasks g t r l

abbrev pub start_no_handlers : List (String × NodeResult) → Bool
start_no_handlers [] = true
start_no_handlers (r ∷ rs) = not (starts_handler r) && start_no_handlers rs

pub commit_all-tasks :
    (g : Graph) (rs : List (String × NodeResult)) (l : PregelLoop)
    → start_no_handlers rs ≡ true
    → (commit_all g rs l).tasks ≡ commit_tasks rs l.tasks
unfolding commit_all commit_tasks
commit_all-tasks g [] l h = refl
commit_all-tasks g ((id, r) ∷ rs) l h =
    commit_all-tasks g rs (found g r (get id l.tasks) l) (ground arith)
    ∙ ap (commit_tasks rs) (found-tasks g id r (get id l.tasks) l (ground arith))

commit_one-IsIndex :
    (r : String × NodeResult) (tasks : Dict Task) → IsIndex tasks → IsIndex (commit_one r tasks)
commit_one-IsIndex (id, r) tasks i = elim (Option-cases (get id tasks)) [
  | inl e ↦ rw e i
  | inr (t, e) ↦ rw e (put-IsIndex (committed t r) tasks i)
]

commit_absent :
    (k j : String) (r : NodeResult) (u : Task) (q : NodeResult) (tasks : Dict Task)
    → str_eq k j ≡ false
    → IsIndex tasks
    → get k tasks ≡ none
    → get j tasks ≡ some u
    → commit_one (k, r) (put u.id (committed u q) tasks) ≡ put u.id (committed u q) tasks
commit_absent k j r u q tasks n i e f =
    let absent : get k (put u.id (committed u q) tasks) ≡ none =
      get-put u.id k (committed u q) tasks
      ∙ ground (arith, id-get j u tasks i f, eq_iff j k, eq_iff k j, e) in
    rw absent

commit_present :
    (k : String) (r : NodeResult) (t : Task) (tasks : Dict Task)
    → get k tasks ≡ some t
    → commit_one (k, r) tasks ≡ put t.id (committed t r) tasks
commit_present k r t tasks e = ap (λ o. commit_found r o tasks) e

get-committed :
    (k j : String) (t u : Task) (q : NodeResult) (tasks : Dict Task)
    → str_eq k j ≡ false
    → IsIndex tasks
    → get k tasks ≡ some t
    → get j tasks ≡ some u
    → get k (put u.id (committed u q) tasks) ≡ some t
get-committed k j t u q tasks n i e f =
    get-put u.id k (committed u q) tasks
    ∙ ground (arith, id-get j u tasks i f, eq_iff j k, eq_iff k j, e)

commit_both :
    (k j : String) (t u : Task) (r q : NodeResult) (tasks : Dict Task)
    → str_eq k j ≡ false
    → IsIndex tasks
    → get k tasks ≡ some t
    → get j tasks ≡ some u
    → commit_one (k, r) (put u.id (committed u q) tasks)
      ≡ commit_one (j, q) (put t.id (committed t r) tasks)
commit_both k j t u r q tasks n i e f =
    let m : str_eq j k ≡ false = ground (arith, eq_iff k j, eq_iff j k) in
    commit_present k r t (put u.id (committed u q) tasks) (get-committed k j t u q tasks n i e f)
    ∙ put_comm t.id u.id (committed t r) (committed u q) tasks
        (rw (id-get k t tasks i e, id-get j u tasks i f) n)
        (rw (id-get k t tasks i e) (keys-IsSome k t tasks e))
        (rw (id-get j u tasks i f) (keys-IsSome j u tasks f))
    ∙ sym (
        commit_present j q u (put t.id (committed t r) tasks)
          (get-committed j k u t r tasks m i f e))

-- Tasks of different ids.
commit_found_comm :
    (k j : String) (r q : NodeResult) (o p : Option Task) (tasks : Dict Task)
    → str_eq k j ≡ false
    → IsIndex tasks
    → get k tasks ≡ o
    → get j tasks ≡ p
    → commit_one (k, r) (commit_found q p tasks) ≡ commit_one (j, q) (commit_found r o tasks)
commit_found_comm k j r q none none tasks n i e f =
    ap (λ o. commit_found r o tasks) e ∙ sym (ap (λ o. commit_found q o tasks) f)
commit_found_comm k j r q none (some u) tasks n i e f =
    commit_absent k j r u q tasks n i e f ∙ sym (commit_present j q u tasks f)
commit_found_comm k j r q (some t) none tasks n i e f =
    commit_present k r t tasks e
    ∙ sym (commit_absent j k q t r tasks (ground (arith, eq_iff k j, eq_iff j k)) i f e)
commit_found_comm k j r q (some t) (some u) tasks n i e f = commit_both k j t u r q tasks n i e f

commit_one_comm :
    (r q : String × NodeResult) (tasks : Dict Task)
    → str_eq r.0 q.0 ≡ false
    → IsIndex tasks
    → commit_one r (commit_one q tasks) ≡ commit_one q (commit_one r tasks)
commit_one_comm (k, r) (j, q) tasks n i =
    commit_found_comm k j r q (get k tasks) (get j tasks) tasks n i refl refl

has-perm :
    (k : String) {rs us : List (String × NodeResult)}
    → Permᴰ rs us
    → has k (keys rs) ≡ has k (keys us)
unfolding has
has-perm k Permᴰ.nil = refl
has-perm k (Permᴰ.cons e p) = rw (has-perm k p, e)
has-perm k (Permᴰ.swap e f) = rw (← e, ← f) (ground arith)
has-perm k (Permᴰ.trans p q) = has-perm k p ∙ has-perm k q

HasDistinctKeys-perm :
    {rs us : List (String × NodeResult)} → Permᴰ rs us → HasDistinctKeys rs → HasDistinctKeys us
HasDistinctKeys-perm Permᴰ.nil h = h
HasDistinctKeys-perm (Permᴰ.cons {l₂ = us} e p) h = (
  subst (λ (r : String × NodeResult). has r.0 (keys us) ≡ false) e (sym (has-perm _ p) ∙ h.0),
  HasDistinctKeys-perm p h.1,
)
HasDistinctKeys-perm (Permᴰ.swap {a = a} {b = b} {l = l} e f) h =
    rw (← e, ← f) (unfold has in ground (arith, eq_iff a.0 b.0, eq_iff b.0 a.0))
HasDistinctKeys-perm (Permᴰ.trans p q) h = HasDistinctKeys-perm q (HasDistinctKeys-perm p h)

pub any-perm :
    (test : String × NodeResult → Bool) {rs us : List (String × NodeResult)}
    → Permᴰ rs us
    → any test rs ≡ any test us
any-perm test Permᴰ.nil = refl
any-perm test (Permᴰ.cons e p) = rw (any-perm test p, e)
any-perm test (Permᴰ.swap e f) = rw (← e, ← f) (ground arith)
any-perm test (Permᴰ.trans p q) = any-perm test p ∙ any-perm test q

pub commit_tasks-perm :
    {rs us : List (String × NodeResult)} (tasks : Dict Task)
    → Permᴰ rs us
    → HasDistinctKeys rs
    → IsIndex tasks
    → commit_tasks rs tasks ≡ commit_tasks us tasks
unfolding commit_tasks
commit_tasks-perm tasks Permᴰ.nil h i = refl
commit_tasks-perm tasks (Permᴰ.cons {a = a} {l₂ = us} e p) h i =
    commit_tasks-perm (commit_one a tasks) p h.1 (commit_one-IsIndex a tasks i)
    ∙ ap (λ r. commit_tasks us (commit_one r tasks)) e
commit_tasks-perm tasks (Permᴰ.swap {a = a} {b = b} {l = l} e f) h i =
    rw (← e, ← f)
      (ap (commit_tasks l) (
        commit_one_comm b a tasks
          (unfold has in ground (arith, h.0, eq_iff b.0 a.0, eq_iff a.0 b.0)) i))
commit_tasks-perm tasks (Permᴰ.trans p q) h i =
    commit_tasks-perm tasks p h i ∙ commit_tasks-perm tasks q (HasDistinctKeys-perm p h) i
