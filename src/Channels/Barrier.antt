-- ===== src/Channels/Barrier.antt =====
-- When a barrier opens.
use mathlib.Core.Path.{fun_ext}
use langgraph_study.Prelude.{
  ◌≡◌, ap, Bool, true, false, ◌||◌, not, inl, inr, Bool-cases, List, [], ◌∷◌, any, all, arith,
  if◌then◌else◌,
}
use langgraph_study.Method.{Result, ok, err, Result-cases}
use langgraph_study.Values.{Value, value_eq_iff}
use langgraph_study.Channels.NamedBarrierValue.{
  NamedBarrierValue, contains, set_eq, update_loop, update, is_available,
}

-- What the loop has seen after its last value: what it had seen before, and the values.
contains-update_loop :
    (names : List Value) (updated : Bool) (seen values : List Value) (n : Value)
    → (r : Bool) → (update_loop names updated seen values).0 ≡ ok r
    → contains (update_loop names updated seen values).1 n ≡ (contains seen n || contains values n)
unfolding update_loop contains
contains-update_loop names updated seen [] n r h = ground arith
contains-update_loop names updated seen (v ∷ vs) n r h = elim (Bool-cases (contains names v)) [
  | inl e ↦ ground (
    arith,
    contains-update_loop names true seen vs n r,
    contains-update_loop names (updated || not (contains seen v))
        (if contains seen v then seen else v ∷ seen) vs n r,
    value_eq_iff n v,
  )
  | inr e ↦ absurd (ground arith)
]

-- `seen` stays a part of `names`.
seen-subset :
    (names : List Value) (updated : Bool) (seen values : List Value)
    → all (contains names) seen ≡ true
    → all (contains names) (update_loop names updated seen values).1 ≡ true
unfolding update_loop
seen-subset names updated seen [] h = h
seen-subset names updated seen (v ∷ vs) h = elim (Bool-cases (contains names v)) [
  | inl e ↦ ground (
    arith,
    seen-subset names (updated || not (contains seen v))
        (if contains seen v then seen else v ∷ seen) vs,
  )
  | inr e ↦ rw (e, update_loop) h
]

-- The channel after `update` with the values of each step in turn, while none of them raises.
unfoldable pub run_updates : NamedBarrierValue → List (List Value) → Result NamedBarrierValue
run_updates self [] = ok self
run_updates self (values ∷ steps) = elim (update self values).0 [
  | ok updated ↦ run_updates (update self values).1 steps
  | err e ↦ err e
]

-- Whether some step has the value.
unfoldable pub received : List (List Value) → Value → Bool
received steps n = any (λ values. contains values n) steps

contains-update :
    (self : NamedBarrierValue) (values : List Value) (r : Bool) (n : Value)
    → (update self values).0 ≡ ok r
    → contains (update self values).1.seen n ≡ (contains self.seen n || contains values n)
unfolding update
contains-update self values r n h = contains-update_loop self.names false self.seen values n r h

update-subset :
    (self : NamedBarrierValue) (values : List Value)
    → all (contains self.names) self.seen ≡ true
    → all (contains (update self values).1.names) (update self values).1.seen ≡ true
unfolding update
update-subset self values h = seen-subset self.names false self.seen values h

run_updates-seen :
    (self final : NamedBarrierValue) (steps : List (List Value))
    → all (contains self.names) self.seen ≡ true
    → run_updates self steps ≡ ok final
    → (final.names ≡ self.names)
      × (all (contains self.names) final.seen ≡ true)
      × ((n : Value) → contains final.seen n ≡ (contains self.seen n || received steps n))
unfolding run_updates received update
run_updates-seen self final [] h e = (ground arith, ground arith, λ n. ground arith)
run_updates-seen self final (values ∷ steps) h e = elim (Result-cases (update self values).0) [
  | inl (r, p) ↦
      let next = (update self values).1 in
      let (same, sub, seen) =
        run_updates-seen next final steps (update-subset self values h)
          (rw (p, run_updates) at e) in
      (same, sub, λ n. ground (arith, seen n, contains-update self values r n p))
  | inr (c, p) ↦ cc (rw (p, run_updates) at e)
]

-- A barrier whose `seen` is a part of its `names`, updated in one step after the other without an
-- error, is available exactly if each of its names was seen at the start or stands among the values
-- of some step, in whatever order the names come and however often.
pub is_available-run_updates :
    (self final : NamedBarrierValue) (steps : List (List Value))
    → all (contains self.names) self.seen ≡ true
    → run_updates self steps ≡ ok final
    → is_available final ≡ all (λ n. contains self.seen n || received steps n) self.names
unfolding is_available set_eq
is_available-run_updates self final steps h e =
    let (same, sub, seen) = run_updates-seen self final steps h e in
    rw (same, sub) (ap (λ f. all f self.names) (fun_ext seen))
