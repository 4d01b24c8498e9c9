-- ===== src/Pregel/Order.antt =====
-- The order in which `apply_writes` is given its tasks does not matter.
use mathlib.Core.List.{Permᴰ}
use langgraph_study.Prelude.{
  ℕ, ◌≡◌, refl, subst, sym, ◌∙◌, ◌≢◌, true, false, Option, List, [], ◌∷◌, String, arith,
}
use langgraph_study.Dict.{Dict}
use langgraph_study.Channels.Channel.{Channel}
use langgraph_study.Pregel.Checkpoint.{Checkpoint}
use langgraph_study.Pregel.Task.{PregelTaskWrites, sort_key, str_leb, insert_task, sort_tasks}
use langgraph_study.Pregel.ApplyWrites.{GetNextVersion, apply_writes}

str_leb_total : (s t : List ℕ) → str_leb s t ≡ false → str_leb t s ≡ true
unfolding str_leb
str_leb_total [] t h = cc
str_leb_total (a ∷ s) [] h = refl
str_leb_total (a ∷ s) (b ∷ t) h = ground (arith, str_leb_total s t)

str_leb_antisymm : (s t : List ℕ) → str_leb s t ≡ true → str_leb t s ≡ true → s ≡ t
unfolding str_leb
str_leb_antisymm [] [] h k = refl
str_leb_antisymm [] (b ∷ t) h k = cc
str_leb_antisymm (a ∷ s) [] h k = cc
str_leb_antisymm (a ∷ s) (b ∷ t) h k = ground (arith, str_leb_antisymm s t)

str_leb_trans : (s t u : List ℕ) → str_leb s t ≡ true → str_leb t u ≡ true → str_leb s u ≡ true
unfolding str_leb
str_leb_trans [] t u h k = refl
str_leb_trans (a ∷ s) [] u h k = cc
str_leb_trans (a ∷ s) (b ∷ t) [] h k = cc
str_leb_trans (a ∷ s) (b ∷ t) (c ∷ u) h k = ground (arith, str_leb_trans s t u)

-- No other task has the sort key of the task.
abbrev IsNew : PregelTaskWrites → List PregelTaskWrites → Type 0
IsNew t [] = Unit
IsNew t (u ∷ us) = (sort_key t ≢ sort_key u) × IsNew t us

-- No two tasks have the same sort key.
abbrev pub HaveDistinctKeys : List PregelTaskWrites → Type 0
HaveDistinctKeys [] = Unit
HaveDistinctKeys (t ∷ ts) = IsNew t ts × HaveDistinctKeys ts

insert_task_comm :
    (t u : PregelTaskWrites) (l : List PregelTaskWrites)
    → sort_key t ≢ sort_key u
    → insert_task t (insert_task u l) ≡ insert_task u (insert_task t l)
unfolding insert_task
insert_task_comm t u [] ne =
    let (a, b) = let p : List ℕ × List ℕ = (sort_key t, sort_key u) in p in
    ground (arith, str_leb_total a b, str_leb_antisymm a b)
insert_task_comm t u (v ∷ l) ne =
    let (a, b, c) = let p : List ℕ × List ℕ × List ℕ = (sort_key t, sort_key u, sort_key v) in p in
    ground (
      arith,
      str_leb_total a b,
      str_leb_antisymm a b,
      str_leb_total a c,
      str_leb_total b c,
      str_leb_trans a b c,
      str_leb_trans b a c,
      str_leb_trans a c b,
      str_leb_trans b c a,
      insert_task_comm t u l ne,
    )

IsNew-perm :
    (t : PregelTaskWrites) {us vs : List PregelTaskWrites} → Permᴰ us vs → IsNew t us → IsNew t vs
IsNew-perm t Permᴰ.nil h = h
IsNew-perm t (Permᴰ.cons e p) h = (rw (← e) h.0, IsNew-perm t p h.1)
IsNew-perm t (Permᴰ.swap e f) h = (rw (← f) h.1.0, (rw (← e) h.0, h.1.1))
IsNew-perm t (Permᴰ.trans p q) h = IsNew-perm t q (IsNew-perm t p h)

HaveDistinctKeys-perm :
    {ts us : List PregelTaskWrites} → Permᴰ ts us → HaveDistinctKeys ts → HaveDistinctKeys us
HaveDistinctKeys-perm Permᴰ.nil h = h
HaveDistinctKeys-perm (Permᴰ.cons {l₂ = us} e p) h =
    (subst (λ t. IsNew t us) e (IsNew-perm _ p h.0), HaveDistinctKeys-perm p h.1)
HaveDistinctKeys-perm (Permᴰ.swap {l = l} e f) h = (
  (rw (← f, ← e) (λ k. h.0.0 (sym k)), subst (λ t. IsNew t l) f h.1.0),
  (subst (λ t. IsNew t l) e h.0.1, h.1.1),
)
HaveDistinctKeys-perm (Permᴰ.trans p q) h = HaveDistinctKeys-perm q (HaveDistinctKeys-perm p h)

sort_tasks-perm :
    {ts us : List PregelTaskWrites}
    → Permᴰ ts us
    → HaveDistinctKeys ts
    → sort_tasks ts ≡ sort_tasks us
unfolding sort_tasks
sort_tasks-perm Permᴰ.nil h = refl
sort_tasks-perm (Permᴰ.cons e p) h = rw (sort_tasks-perm p h.1, e)
sort_tasks-perm (Permᴰ.swap {a = a} {b = b} {l = l} e f) h =
    rw (← e, ← f) (insert_task_comm a b (sort_tasks l) h.0.0)
sort_tasks-perm (Permᴰ.trans p q) h =
    sort_tasks-perm p h ∙ sort_tasks-perm q (HaveDistinctKeys-perm p h)

-- Tasks whose sort keys differ may be handed to `apply_writes` in any order: the answer or the error,
-- the checkpoint and the channels are the same.
pub apply_writes-perm :
    (checkpoint : Checkpoint) (channels : Dict Channel) (ts us : List PregelTaskWrites)
    (get_next_version : Option GetNextVersion) (trigger_to_nodes : Dict (List String))
    → Permᴰ ts us
    → HaveDistinctKeys ts
    → apply_writes checkpoint channels ts get_next_version trigger_to_nodes
      ≡ apply_writes checkpoint channels us get_next_version trigger_to_nodes
unfolding apply_writes
apply_writes-perm checkpoint channels ts us get_next_version trigger_to_nodes p h =
    rw (sort_tasks-perm p h)
