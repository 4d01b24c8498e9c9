-- ===== src/Loop/Runs.antt =====
-- A run ends, and stores a chain of checkpoints.
use langgraph_study.Prelude.{
  String, ℕ, zero, suc, ◌+◌, ◌≤◌, ◌<◌, Bool, true, false, ◌≡◌, refl, Option, none, some, List, [],
  ◌∷◌, inl, inr, arith, length, ap, sym, subst, ◌∙◌, Bool-cases,
}
use langgraph_study.Method.{Result, ok, err}
use langgraph_study.Pregel.Checkpoint.{Checkpoint}
use langgraph_study.Loop.State.{Graph, PregelLoop, PutCall}
use langgraph_study.Loop.Put.{does_checkpoint}
use langgraph_study.Loop.Tick.{tick}
use langgraph_study.Loop.Run.{RunNodes, superstep, round, run, after_superstep}
use langgraph_study.Loop.Steps.{SameSaved, Put, tick-SameSaved, tick-continues}
use langgraph_study.Loop.Supersteps.{OkPut, superstep-OkPut}

abbrev pub Ran : Type 0
Ran = Option (Result (Unit {0}) × PregelLoop)

-- The run has ended, and its step lies between these.
abbrev Between : ℕ → ℕ → Ran → Type 0
Between low high none = ⊥
Between low high (some (r, n)) = (low ≤ n.step) × (n.step ≤ high)

OkPut-step :
    (g : Graph) (l : PregelLoop) (r : Result (Unit {0}) × PregelLoop)
    → OkPut g l r
    → (l.step ≤ r.1.step) × (r.1.step ≤ l.step + 1)
OkPut-step g l (err e, n) (inl s) = omega (arith, s.same_step)
OkPut-step g l (err e, n) (inr p) = omega (arith, p.one_more)
OkPut-step g l (ok _, n) p = omega (arith, p.one_more)

module _ (g : Graph) (run_nodes : RunNodes) where
  after_superstep-Between :
      (l : PregelLoop) (r : Result (Unit {0}) × PregelLoop) (rest : PregelLoop → Ran)
      → l.step ≤ g.stop
      → OkPut g l r
      → ((n : PregelLoop)
          → n.step ≡ l.step + 1
          → n.step ≤ suc g.stop
          → Between n.step (suc g.stop) (rest n))
      → Between l.step (suc g.stop) (after_superstep rest r)
  after_superstep-Between l (err e, n) rest h p next = omega (arith, OkPut-step g l (err e, n) p)
  after_superstep-Between l (ok _, n) rest h p next =
      Between-le (rest n) (omega (arith, p.one_more))
        (next n p.one_more (omega (arith, p.one_more)))
    where
      Between-le :
          (o : Ran)
          → l.step ≤ n.step
          → Between n.step (suc g.stop) o
          → Between l.step (suc g.stop) o
      Between-le none le b = b
      Between-le (some (r, m)) le b = omega arith

  round-Between :
      (l : PregelLoop) (t : Result Bool × PregelLoop) (rest : PregelLoop → Ran)
      → SameSaved l t.1
      → (t.0 ≡ ok true → l.step ≤ g.stop)
      → l.step ≤ suc g.stop
      → ((n : PregelLoop)
          → n.step ≡ l.step + 1
          → n.step ≤ suc g.stop
          → Between n.step (suc g.stop) (rest n))
      → Between l.step (suc g.stop) (round rest g run_nodes t)
  unfolding round
  round-Between l (err e, m) rest s more h next = omega (arith, s.same_step)
  round-Between l (ok false, m) rest s more h next = omega (arith, s.same_step)
  round-Between l (ok true, m) rest s more h next =
      subst (λ k. Between k (suc g.stop) (after_superstep rest (superstep g run_nodes m)))
        s.same_step
        (after_superstep-Between m (superstep g run_nodes m) rest
          (omega (arith, s.same_step, more refl)) (superstep-OkPut g run_nodes m)
          (λ n e le. next n (e ∙ ap (λ k. k + 1) s.same_step) le))

  run-Between :
      (fuel : ℕ) (l : PregelLoop)
      → l.step ≤ suc g.stop
      → suc g.stop < l.step + fuel
      → Between l.step (suc g.stop) (run fuel g run_nodes l)
  unfolding run
  run-Between zero l h f = absurd (omega arith)
  run-Between (suc fuel) l h f =
      round-Between l (tick g l) (λ n. run fuel g run_nodes n) (tick-SameSaved g l)
        (tick-continues g l) h (λ n e le. run-Between fuel n le (omega arith))

-- The checkpoints that were stored, the latest first: the config names the latest, and each was
-- stored with the one before it as its parent.
abbrev pub Linked : Option String → List PutCall → Type 0
Linked config_id [] = Unit {0}
Linked config_id (p ∷ ps) = (config_id ≡ some p.checkpoint.id) × Linked p.parent ps

-- One more put for each superstep more.
abbrev pub PutEach : Graph → PregelLoop → PregelLoop → Type 0
PutEach g l n = does_checkpoint g false ≡ true → length n.puts + l.step ≡ length l.puts + n.step

record Stored (g : Graph) (l n : PregelLoop) : Type 0 where
  pub linked : Linked n.config_id n.puts
  pub each : PutEach g l n

Put-Stored : (g : Graph) (l n : PregelLoop) → Linked l.config_id l.puts → Put g l n → Stored g l n
Put-Stored g l n h p = elim (Bool-cases (does_checkpoint g false)) [
  | inl d ↦
      let q = p.stored d in
      record {
        linked = rw q.1 ((q.4 ∙ ap (λ (c : Checkpoint). some c.id) (sym q.3)), rw q.2 h);
        each = λ _. rw q.1 (omega (arith, p.one_more));
      }
  | inr d ↦ let q = p.not_stored d in record { linked = rw (q.0, q.1) h; each = λ e. cc (e, d) }
]

OkPut-Stored :
    (g : Graph) (l : PregelLoop) (r : Result (Unit {0}) × PregelLoop)
    → Linked l.config_id l.puts
    → OkPut g l r
    → Stored g l r.1
OkPut-Stored g l (err e, n) h (inl s) = record {
  linked = rw (s.same_puts, s.same_config) h;
  each = λ _. rw (s.same_puts, s.same_step);
}
OkPut-Stored g l (err e, n) h (inr p) = Put-Stored g l n h p
OkPut-Stored g l (ok _, n) h p = Put-Stored g l n h p

Stored-trans : (g : Graph) {l m n : PregelLoop} → PutEach g l m → Stored g m n → Stored g l n
Stored-trans g {l} {m} {n} e s = record {
  linked = s.linked;
  each = λ d. omega (arith, e d, s.each d);
}

abbrev RanStored : Graph → PregelLoop → Ran → Type 0
RanStored g l none = Unit {0}
RanStored g l (some (r, n)) = Stored g l n

RanStored-trans :
    (g : Graph) (l m : PregelLoop) (o : Ran) → PutEach g l m → RanStored g m o → RanStored g l o
RanStored-trans g l m none e s = tt
RanStored-trans g l m (some (r, n)) e s = Stored-trans g e s

SameSaved-Stored :
    (g : Graph) (l n : PregelLoop) → Linked l.config_id l.puts → SameSaved l n → Stored g l n
SameSaved-Stored g l n h s = record {
  linked = rw (s.same_puts, s.same_config) h;
  each = λ _. rw (s.same_puts, s.same_step);
}

module _ (g : Graph) (run_nodes : RunNodes) where
  after_superstep-Stored :
      (l : PregelLoop) (r : Result (Unit {0}) × PregelLoop) (rest : PregelLoop → Ran)
      → Stored g l r.1
      → ((n : PregelLoop) → Linked n.config_id n.puts → RanStored g n (rest n))
      → RanStored g l (after_superstep rest r)
  after_superstep-Stored l (err e, n) rest s next = s
  after_superstep-Stored l (ok _, n) rest s next =
      RanStored-trans g l n (rest n) s.each (next n s.linked)

  round-Stored :
      (l : PregelLoop) (t : Result Bool × PregelLoop) (rest : PregelLoop → Ran)
      → Stored g l t.1
      → ((n : PregelLoop) → Linked n.config_id n.puts → RanStored g n (rest n))
      → RanStored g l (round rest g run_nodes t)
  unfolding round
  round-Stored l (err e, m) rest s next = s
  round-Stored l (ok false, m) rest s next = s
  round-Stored l (ok true, m) rest s next =
      let done = superstep g run_nodes m in
      RanStored-trans g l m (after_superstep rest done) s.each (
        after_superstep-Stored m done rest
          (OkPut-Stored g m done s.linked (superstep-OkPut g run_nodes m)) next)

  run-Stored :
      (fuel : ℕ) (l : PregelLoop)
      → Linked l.config_id l.puts
      → RanStored g l (run fuel g run_nodes l)
  unfolding run
  run-Stored zero l h = tt
  run-Stored (suc fuel) l h =
      round-Stored l (tick g l) (λ n. run fuel g run_nodes n)
        (SameSaved-Stored g l (tick g l).1 h (tick-SameSaved g l)) (λ n k. run-Stored fuel n k)

Between→some :
    (low high : ℕ) (o : Ran)
    → Between low high o
    → (r : Result (Unit {0})) × (n : PregelLoop) × (o ≡ some (r, n))
      × (low ≤ n.step)
      × (n.step ≤ high)
Between→some low high none b = elim b [ ]
Between→some low high (some (r, n)) b = (r, n, refl, b.0, b.1)

-- Every run ends, whatever its nodes do: with fuel for the steps up to `stop` and one more, the
-- `while` of `stream` returns or raises, and its steps never go beyond the one behind `stop`, so that
-- it makes at most `stop - step + 1` supersteps.
pub run-ends :
    (g : Graph) (run_nodes : RunNodes) (fuel : ℕ) (l : PregelLoop)
    → l.step ≤ suc g.stop
    → suc g.stop < l.step + fuel
    → (r : Result (Unit {0})) × (n : PregelLoop) × (run fuel g run_nodes l ≡ some (r, n))
      × (l.step ≤ n.step)
      × (n.step ≤ suc g.stop)
run-ends g run_nodes fuel l h f = Between→some _ _ _ (run-Between g run_nodes fuel l h f)

-- A run stores a chain of checkpoints, also where it ends with an error or an interrupt: the config
-- names the checkpoint that was stored last, and each was stored with the one before it as its parent.
-- Where the loop stores checkpoints as it goes, there is exactly one for each superstep that was made.
pub run-Linked :
    (g : Graph) (run_nodes : RunNodes) (fuel : ℕ) (l n : PregelLoop) (r : Result (Unit {0}))
    → Linked l.config_id l.puts
    → run fuel g run_nodes l ≡ some (r, n)
    → Linked n.config_id n.puts × PutEach g l n
run-Linked g run_nodes fuel l n r h e =
    let s = subst (RanStored g l) e (run-Stored g run_nodes fuel l h) in (s.linked, s.each)
