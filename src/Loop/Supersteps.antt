-- ===== src/Loop/Supersteps.antt =====
-- What a superstep and a run do, by the counts of the supersteps.
use langgraph_study.Prelude.{
  String, ℕ, ◌+◌, false, refl, List, ◌∷◌, Bool-cases, inl, inr, ◌⊎◌, ap, ◌∙◌,
}
use langgraph_study.Method.{Result, ok, err, and_then}
use langgraph_study.Dict.{Dict, values}
use langgraph_study.Pregel.Checkpoint.{Checkpoint}
use langgraph_study.Loop.State.{Graph, PregelLoop}
use langgraph_study.Loop.Put.{put_checkpoint, put_with, put_created}
use langgraph_study.Loop.Tick.{
  after_tick, save_superstep, end_superstep, check_interrupt_after, is_interrupted,
}
use langgraph_study.Loop.Run.{
  RunNodes, commit_all, superstep, end_tasks, panic_or_proceed, unfinished_tasks,
}
use langgraph_study.Loop.Steps.{
  SameSaved, SameSaved-refl, SameSaved-trans, Put, finish_put-Put, commit_all-SameSaved,
}

-- What is put from a state with the same counts is put from this one.
Put-SameSaved : (g : Graph) {l m n : PregelLoop} → SameSaved l m → Put g m n → Put g l n
Put-SameSaved g {l} {m} {n} s p = record {
  one_more = p.one_more ∙ ap (λ k. k + 1) s.same_step;
  stored = λ d.
      let q = p.stored d in (q.0, q.1 ∙ ap (◌∷◌ q.0) s.same_puts, q.2 ∙ s.same_config, q.3, q.4);
  not_stored = λ d. ((p.not_stored d).0 ∙ s.same_puts, (p.not_stored d).1 ∙ s.same_config);
}

-- A method that returns has put a checkpoint; where it raises, it may have put one before.
abbrev pub OkPut : Graph → PregelLoop → Result (Unit {0}) × PregelLoop → Type 0
OkPut g l (err e, n) = SameSaved l n ⊎ Put g l n
OkPut g l (ok _, n) = Put g l n

OkPut-SameSaved :
    (g : Graph) {l m : PregelLoop}
    → SameSaved l m
    → (r : Result (Unit {0}) × PregelLoop) → OkPut g m r
    → OkPut g l r
OkPut-SameSaved g s (err e, n) (inl q) = inl (SameSaved-trans s q)
OkPut-SameSaved g s (err e, n) (inr p) = inr (Put-SameSaved g s p)
OkPut-SameSaved g s (ok _, n) p = Put-SameSaved g s p

put_created-OkPut :
    (g : Graph) (to_snapshot : List String) (counters : Dict (ℕ × ℕ)) (l : PregelLoop)
    (c : Result Checkpoint)
    → OkPut g l (put_created g false to_snapshot counters l c)
unfolding put_created
put_created-OkPut g to_snapshot counters l (err e) = inl (SameSaved-refl l)
put_created-OkPut g to_snapshot counters l (ok c) = finish_put-Put g to_snapshot counters c l

put_with-OkPut :
    (g : Graph) (counters : Dict (ℕ × ℕ)) (l : PregelLoop) → OkPut g l (put_with g false counters l)
unfolding put_with
put_with-OkPut g counters l = put_created-OkPut g _ counters l _

put_checkpoint-OkPut :
    (g : Graph) (source : String) (l : PregelLoop) → OkPut g l (put_checkpoint g source l)
unfolding put_checkpoint
put_checkpoint-OkPut g source l =
    OkPut-SameSaved g (record { same_step = refl; same_puts = refl; same_config = refl })
      (put_with g false _ _) (put_with-OkPut g _ _)

check_interrupt_after-OkPut :
    (g : Graph) (l n : PregelLoop) → Put g l n → OkPut g l (check_interrupt_after g n)
unfolding check_interrupt_after
check_interrupt_after-OkPut g l n p = elim (Bool-cases (is_interrupted g.interrupt_after n)) [
  | inl e ↦
      rw e (inr (record { one_more = p.one_more; stored = p.stored; not_stored = p.not_stored }))
  | inr e ↦ rw e p
]

then_check-OkPut :
    (g : Graph) (l : PregelLoop) (r : Result (Unit {0}) × PregelLoop)
    → OkPut g l r
    → OkPut g l (and_then r (λ _ n. check_interrupt_after g n))
then_check-OkPut g l (err e, n) p = p
then_check-OkPut g l (ok _, n) p = check_interrupt_after-OkPut g l n p

save_superstep-OkPut :
    (g : Graph) (l m : PregelLoop) (r : Result (List String))
    → SameSaved l m
    → OkPut g l (save_superstep g m r)
unfolding save_superstep end_superstep
save_superstep-OkPut g l m (err e) s = inl s
save_superstep-OkPut g l m (ok updated) s =
    then_check-OkPut g l (put_checkpoint g "loop" (end_superstep g updated m)) (
      OkPut-SameSaved g
        (record { same_step = s.same_step; same_puts = s.same_puts; same_config = s.same_config })
        (put_checkpoint g "loop" (end_superstep g updated m)) (put_checkpoint-OkPut g "loop" _))

pub after_tick-OkPut : (g : Graph) (l : PregelLoop) → OkPut g l (after_tick g l)
unfolding after_tick
after_tick-OkPut g l =
    save_superstep-OkPut g l _ _ (record { same_step = refl; same_puts = refl; same_config = refl })

end_tasks-OkPut :
    (g : Graph) (l m : PregelLoop) (r : Result (Unit {0}))
    → SameSaved l m
    → OkPut g l (end_tasks g m r)
unfolding end_tasks
end_tasks-OkPut g l m (err e) s = inl s
end_tasks-OkPut g l m (ok _) s = OkPut-SameSaved g s (after_tick g m) (after_tick-OkPut g m)

pub superstep-OkPut :
    (g : Graph) (run_nodes : RunNodes) (l : PregelLoop) → OkPut g l (superstep g run_nodes l)
unfolding superstep
superstep-OkPut g run_nodes l =
    let results = run_nodes l (unfinished_tasks (values l.tasks)) in
    end_tasks-OkPut g l (commit_all g results l) (panic_or_proceed results)
      (commit_all-SameSaved g results l)
