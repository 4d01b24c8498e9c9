-- ===== src/Loop/Interleaving.antt =====
-- What a superstep gives does not depend on the order in which its tasks finish.
use langgraph_study.Prelude.{String, ◌≡◌, Option, List, ℕ}
use langgraph_study.Method.{Result}
use langgraph_study.Values.{Value}
use langgraph_study.Dict.{Dict}
use langgraph_study.Pregel.Checkpoint.{Checkpoint}
use langgraph_study.Loop.State.{PregelLoop, PendingWrite, PutWritesCall}

-- The writes that are kept for the exit.
abbrev pub Kept : Type 0
Kept = Option (List (ℕ × String × String × Value))

abbrev pub with_rest : Kept → List PendingWrite → List PutWritesCall → PregelLoop → PregelLoop
with_rest kept pending calls l = record l {
  exit_delta_writes = kept;
  pending_writes = pending;
  put_writes_calls = calls;
}

-- A result and a state that are the same but for these.
abbrev pub Same {ℓ} : {A : Type ℓ} → Result A × PregelLoop → Result A × PregelLoop → Type ℓ
Same r s =
    (r.0 ≡ s.0)
    × (with_rest s.1.exit_delta_writes s.1.pending_writes s.1.put_writes_calls r.1 ≡ s.1)
