-- ===== src/Pregel/Loops.antt =====
-- A proof rule for the loops of `apply_writes`.
use langgraph_study.Prelude.{
  ℕ, String, ◌≡◌, refl, Bool, true, false, ◌&&◌, not, Option, some, List, [], ◌∷◌, any, nonempty,
  if◌then◌else◌, Option-cases, Bool-cases, inl, inr,
}
use langgraph_study.Method.{Result, ok, err, and_then, Result-cases}
use langgraph_study.Values.{Value}
use langgraph_study.Dict.{Dict, get, keys, has, mem}
use langgraph_study.Channels.Channel
use langgraph_study.Channels.Channel.{Channel}
use langgraph_study.Pregel.Task.{PregelTaskWrites}
use langgraph_study.Pregel.ApplyWrites.{
  Board, record_answer, consume_all, update_all, notify_all, finish_all, end_step, run_loops,
  consumed_channels, group_tasks,
}

-- A method of the channel `c` gave the answer and left the channel `c'`.
pub data Answered (c : Channel) (answer : Bool) (c' : Channel) : Type 0 where
  by_update :
      (values : List Value)
      → (Channel.update c values).0 ≡ ok answer
      → (Channel.update c values).1 ≡ c'
      → Answered c answer c'
  by_consume : (Channel.consume c).0 ≡ answer → (Channel.consume c).1 ≡ c' → Answered c answer c'
  by_finish : (Channel.finish c).0 ≡ answer → (Channel.finish c).1 ≡ c' → Answered c answer c'

-- `P` holds of the board after a channel's method if it held before.
pub record Rule (next : Option ℕ) (P : Board → Type 0) : Type 0 where
  pub step :
      (marks : Bool) (chan : String) (c c' : Channel) (answer : Bool) (board : Board)
      → get chan board.channels ≡ some c
      → Answered c answer c'
      → P board
      → P (record_answer marks next chan c' answer board)

and_then_ind :
    {A B : Type 0} (P : Board → Type 0) (m : Result A × Board) (f : A → Board → Result B × Board)
    (b : B)
    → ((a : A) → m.0 ≡ ok a → P m.1)
    → ((a : A) (board : Board) → P board → (f a board).0 ≡ ok b → P (f a board).1)
    → (and_then m f).0 ≡ ok b
    → P (and_then m f).1
and_then_ind P (ok a, board) f b first second h = second a board (first a refl) h
and_then_ind P (err e, board) f b first second h = cc

if_ind : (P : Board → Type 0) (b : Bool) (x y : Board) → P x → P y → P (if b then x else y)
if_ind P true x y h k = h
if_ind P false x y h k = k

module _ {P : Board → Type 0} {next : Option ℕ} (rule : Rule next P) where
  consume_all_ind :
      (chans : List String) (board : Board) → P board → P (consume_all next chans board)
  unfolding consume_all
  consume_all_ind [] board h = h
  consume_all_ind (chan ∷ chans) board h = elim (Option-cases (get chan board.channels)) [
    | inl e ↦ rw (e, consume_all) (consume_all_ind chans board h)
    | inr (c, e) ↦
        rw (e, consume_all)
          (consume_all_ind chans _ (
            rule.step false chan c (Channel.consume c).1 (Channel.consume c).0 board e
              (by_consume refl refl) h))
  ]

  finish_all_ind : (chans : List String) (board : Board) → P board → P (finish_all next chans board)
  unfolding finish_all
  finish_all_ind [] board h = h
  finish_all_ind (chan ∷ chans) board h = elim (Option-cases (get chan board.channels)) [
    | inl e ↦ rw (e, finish_all) (finish_all_ind chans board h)
    | inr (c, e) ↦
        rw (e, finish_all)
          (finish_all_ind chans _ (
            rule.step true chan c (Channel.finish c).1 (Channel.finish c).0 board e
              (by_finish refl refl) h))
  ]

  update_all_ind :
      (pending : Dict (List Value)) (board : Board)
      → P board
      → (update_all next pending board).0 ≡ ok tt
      → P (update_all next pending board).1
  unfolding update_all
  update_all_ind [] board h r = h
  update_all_ind ((chan, vals) ∷ pending) board h r =
      elim (Option-cases (get chan board.channels)) [
        | inl e ↦ rw (e, update_all) (update_all_ind pending board h (rw (e, update_all) at r))
        | inr (c, e) ↦ elim (Result-cases (Channel.update c vals).0) [
          | inl (answer, p) ↦
              rw (e, p, update_all)
                (update_all_ind pending
                  (record_answer true next chan (Channel.update c vals).1 answer board)
                  (rule.step true chan c (Channel.update c vals).1 answer board e
                    (by_update vals p refl) h)
                  (rw (e, p, update_all) at r))
          | inr (x, p) ↦ cc (rw (e, p, update_all) at r)
        ]
      ]

  notify_all_ind :
      (chans : List String) (board : Board)
      → P board
      → (notify_all next chans board).0 ≡ ok tt
      → P (notify_all next chans board).1
  unfolding notify_all
  notify_all_ind [] board h r = h
  notify_all_ind (chan ∷ chans) board h r = elim (Option-cases (get chan board.channels)) [
    | inl e ↦ rw (e, notify_all) (notify_all_ind chans board h (rw (e, notify_all) at r))
    | inr (c, e) ↦ elim (Bool-cases (Channel.is_available c && not (has chan board.updated))) [
      | inr q ↦ rw (e, q, notify_all) (notify_all_ind chans board h (rw (e, q, notify_all) at r))
      | inl q ↦ elim (Result-cases (Channel.update c []).0) [
        | inl (answer, p) ↦
            rw (e, q, p, notify_all)
              (notify_all_ind chans
                (record_answer true next chan (Channel.update c []).1 answer board)
                (rule.step true chan c (Channel.update c []).1 answer board e (by_update [] p refl)
                  h)
                (rw (e, q, p, notify_all) at r))
        | inr (x, p) ↦ cc (rw (e, q, p, notify_all) at r)
      ]
    ]
  ]

  end_step_ind :
      (bump_step : Bool) (trigger_to_nodes : Dict (List String)) (board : Board)
      → P board
      → (end_step bump_step next trigger_to_nodes board).0 ≡ ok tt
      → P (end_step bump_step next trigger_to_nodes board).1
  unfolding end_step
  end_step_ind false trigger_to_nodes board h r = h
  end_step_ind true trigger_to_nodes board h r =
      and_then_ind P (notify_all next (keys board.channels) board) _ tt
        (λ _ done. notify_all_ind (keys board.channels) board h done)
        (λ _ board' h' _.
          if_ind P (any (λ chan. mem chan trigger_to_nodes) board'.updated) _ _ h'
            (finish_all_ind (keys board'.channels) board' h'))
        r

  -- Where `apply_writes` returns, its board satisfies what each method keeps.
  pub run_loops_ind :
      (trigger_to_nodes : Dict (List String)) (tasks : List PregelTaskWrites) (board : Board)
      → P board
      → (run_loops next trigger_to_nodes tasks board).0 ≡ ok tt
      → P (run_loops next trigger_to_nodes tasks board).1
  unfolding run_loops
  run_loops_ind trigger_to_nodes tasks board h r =
      let consumed = consume_all next (consumed_channels board.channels tasks []) board in
      and_then_ind P (update_all next (group_tasks consumed.channels tasks []) consumed)
        (λ _ board'.
          end_step (any (λ (t : PregelTaskWrites). nonempty t.triggers) tasks) next trigger_to_nodes
            board')
        tt (λ _ done. update_all_ind _ consumed (consume_all_ind _ board h) done)
        (λ _ board' h' done.
          end_step_ind (any (λ (t : PregelTaskWrites). nonempty t.triggers) tasks) trigger_to_nodes
            board' h' done)
        r
