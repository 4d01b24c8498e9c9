-- ===== src/Channels/Replay.antt =====
-- Replaying the writes of a DeltaChannel against the updates that wrote them.
use mathlib.Core.List.{append-nil, append_assoc, flatten}
use langgraph_study.Prelude.{
  ◌≡◌, ◌≢◌, refl, ap, ◌∙◌, sym, Bool, true, false, not, Option, none, some, is_some, List, [], ◌∷◌,
  ◌++◌, map, all, arith,
}
use langgraph_study.Method.{Result, ok, err}
use langgraph_study.Values.{Value, get_overwrite}
use langgraph_study.Channels.DeltaChannel.{
  DeltaChannel, PendingWrite, reset_value, replay_values, replay_writes, update, find_overwrite,
  apply_batch,
}
use langgraph_study.Channels.Settle.{
  IsBatchingInvariant, overwrite_only_last, replayed, replayed-append, set_value, set_value_self,
  replay_values-eq, update-eq, update-cons, settle, settle-append, reduce_settled, reduce,
}

-- The channel after `update` with the writes of each step in turn, while none of them raises.
unfoldable pub run_updates : DeltaChannel → List (List Value) → Result DeltaChannel
run_updates self [] = ok self
run_updates self (values ∷ steps) = elim (update self values).0 [
  | ok updated ↦ run_updates (update self values).1 steps
  | err e ↦ err e
]

-- One replay of the writes `xs` and then `ys` is a replay of `xs` followed by a replay of `ys`, for a
-- reducer that is batching-invariant, as DeltaChannel requires, and a channel that has a value.
-- Overwrites may stand anywhere.
replay_values-append :
    (self : DeltaChannel) (base : Value) (xs ys : List Value)
    → IsBatchingInvariant self.reducer self.empty
    → self.value ≡ some base
    → replay_values self (xs ++ ys) ≡ replay_values (replay_values self xs).1 ys
replay_values-append self base xs ys invariant h =
    let v = replayed self.reducer self.empty base xs in
    rw (replay_values-eq self base xs h) (
      replay_values-eq self base (xs ++ ys) h
      ∙ rw (replayed-append self.reducer self.empty invariant)
          (sym (replay_values-eq (set_value self v) v ys refl)))

run_updates-cons :
    (self next : DeltaChannel) (values : List Value) (steps : List (List Value)) (updated : Bool)
    → update self values ≡ (ok updated, next)
    → run_updates self (values ∷ steps) ≡ run_updates next steps
unfolding run_updates
run_updates-cons self next values steps updated h =
    ap
      (λ (p : Result Bool × DeltaChannel). elim p.0 [
        | ok _ ↦ run_updates p.1 steps
        | err e ↦ err e
      ])
      h

update-nil : (self : DeltaChannel) → update self [] ≡ (ok false, self)
unfolding update
update-nil self = refl

run_updates-eq :
    (self : DeltaChannel) (base : Value) (steps : List (List Value))
    → IsBatchingInvariant self.reducer self.empty
    → self.value ≡ some base
    → all overwrite_only_last steps ≡ true
    → run_updates self steps
      ≡ ok (set_value self (replayed self.reducer self.empty base (flatten steps)))
unfolding run_updates flatten overwrite_only_last
run_updates-eq self base [] invariant h clean =
    ap ok (set_value_self self base h) ∙ unfold replayed settle in refl
run_updates-eq self base ([] ∷ steps) invariant h clean =
    run_updates-cons self self [] steps false (update-nil self)
    ∙ run_updates-eq self base steps invariant h clean
run_updates-eq self base ((v ∷ vs) ∷ steps) invariant h clean =
    let r = replayed self.reducer self.empty base (v ∷ vs) in
    run_updates-cons self (set_value self r) (v ∷ vs) steps true
      (update-eq self base v vs h (ground arith))
    ∙ run_updates-eq (set_value self r) r steps invariant refl (ground arith)
    ∙ rw (replayed-append self.reducer self.empty invariant)

-- The updates of a run, step after step, and one replay of all the writes of the run leave the
-- channel in the same state, and neither raises: for a batching-invariant reducer, a channel that has
-- a value, and steps in which no write comes after an Overwrite.
pub replay-eq-run_updates :
    (self : DeltaChannel) (base : Value) (steps : List (List Value)) (writes : List PendingWrite)
    → IsBatchingInvariant self.reducer self.empty
    → self.value ≡ some base
    → all overwrite_only_last steps ≡ true
    → map (λ w. w.2) writes ≡ flatten steps
    → (final : DeltaChannel) × (run_updates self steps ≡ ok final)
      × (replay_writes self writes ≡ (ok tt, final))
replay-eq-run_updates self base steps writes invariant h clean e = (
  set_value self (replayed self.reducer self.empty base (flatten steps)),
  run_updates-eq self base steps invariant h clean,
  unfold replay_writes in rw e (replay_values-eq self base (flatten steps) h),
)

abbrev pub plain : Value → Bool
plain v = not (is_some (get_overwrite v))

find_overwrite-plain :
    (found : Option Value) (vs : List Value)
    → all plain vs ≡ true
    → find_overwrite found vs ≡ ok found
unfolding find_overwrite
find_overwrite-plain found [] h = refl
find_overwrite-plain found (v ∷ vs) h = ground (arith, find_overwrite-plain found vs)

settle-plain :
    (empty base : Value) (rest vs : List Value)
    → all plain vs ≡ true
    → settle empty base rest vs ≡ (base, rest ++ vs)
unfolding settle
settle-plain empty base rest [] h = rw append-nil
settle-plain empty base rest (v ∷ vs) h =
    let p : get_overwrite v ≡ none = ground arith in
    rw (p, settle)
      (settle-plain empty base (rest ++ v ∷ []) vs (ground arith)
        ∙ ap (λ l. (base, l)) (append_assoc rest (v ∷ []) vs))

find_overwrite-append :
    (found : Option Value) (before ys : List Value)
    → all plain before ≡ true
    → find_overwrite found (before ++ ys) ≡ find_overwrite found ys
unfolding find_overwrite
find_overwrite-append found [] ys h = refl
find_overwrite-append found (v ∷ vs) ys h = ground (arith, find_overwrite-append found vs ys)

update-append :
    (self : DeltaChannel) (before : List Value) (w : Value) (rest : List Value)
    → update self (before ++ w ∷ rest)
      ≡ apply_batch self (before ++ w ∷ rest) (find_overwrite none (before ++ w ∷ rest))
update-append self [] w rest = update-cons self w rest
update-append self (b ∷ before) w rest = update-cons self b (before ++ w ∷ rest)

some_inj : {a b : Value} → some a ≡ some b → a ≡ b
some_inj e = cc

-- A step with one Overwrite, wherever it stands.
update-overwrite :
    (self : DeltaChannel) (w o : Value) (before rest : List Value)
    → get_overwrite w ≡ some o
    → all plain before ≡ true
    → all plain rest ≡ true
    → update self (before ++ w ∷ rest)
      ≡ (ok true, record self { value = some (reset_value self.empty o) })
unfolding find_overwrite apply_batch
update-overwrite self w o before rest p h k =
    update-append self before w rest
    ∙ rw (find_overwrite-append none before (w ∷ rest) h)
        (rw (p, find_overwrite) (rw (find_overwrite-plain (some o) rest k)))

settle-overwrite :
    (empty base w o : Value) (before rest : List Value)
    → get_overwrite w ≡ some o
    → all plain before ≡ true
    → all plain rest ≡ true
    → settle empty base [] (before ++ w ∷ rest) ≡ (reset_value empty o, rest)
unfolding settle
settle-overwrite empty base w o before rest p h k =
    settle-append empty base [] before (w ∷ rest)
    ∙ rw (settle-plain empty base [] before h)
        (rw (p, settle) (settle-plain empty (reset_value empty o) [] rest k))

-- Where a write comes after the one Overwrite of a step, `update` and `replay_writes` leave the channel
-- in different states, for a reducer that does something with the writes after it: `update` keeps the
-- value of the Overwrite and drops every other write, and `replay_writes` reduces into it what comes
-- after it. The Overwrite may stand behind other writes. The channel has a value.
pub replay-ne-update :
    (self : DeltaChannel) (base w o v : Value) (before vs : List Value)
    → self.value ≡ some base
    → get_overwrite w ≡ some o
    → all plain before ≡ true
    → all plain (v ∷ vs) ≡ true
    → self.reducer (reset_value self.empty o) (v ∷ vs) ≢ reset_value self.empty o
    → (update self (before ++ w ∷ v ∷ vs)
        ≡ (ok true, record self { value = some (reset_value self.empty o) }))
      × (replay_values self (before ++ w ∷ v ∷ vs) ≡ (
        ok tt,
        record self { value = some (self.reducer (reset_value self.empty o) (v ∷ vs)) },
      ))
      × ((update self (before ++ w ∷ v ∷ vs)).1 ≢ (replay_values self (before ++ w ∷ v ∷ vs)).1)
unfolding replayed reduce_settled reduce
replay-ne-update self base w o v before vs h p clean none_left does =
    let u = update-overwrite self w o before (v ∷ vs) p clean none_left in
    let r =
      replay_values-eq self base (before ++ w ∷ v ∷ vs) h
      ∙ rw (settle-overwrite self.empty base w o before (v ∷ vs) p clean none_left) in
    (
      u,
      r,
      λ same. does (
          some_inj (
            ap (λ (d : DeltaChannel). d.value)
              (sym (ap (λ (x : Result (Unit {0}) × DeltaChannel). x.1) r)
                ∙ sym same
                ∙ ap (λ (x : Result Bool × DeltaChannel). x.1) u))),
    )
