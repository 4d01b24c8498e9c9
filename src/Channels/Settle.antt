-- ===== src/Channels/Settle.antt =====
-- The loops of `replay_writes` and `update` of a DeltaChannel, as one function of the base value.
use mathlib.Core.List.{append-nil, append_assoc}
use langgraph_study.Prelude.{
  ℕ, zero, suc, ◌+◌, ◌≤◌, ◌≡◌, refl, ap, ◌∙◌, sym, Bool, true, not, ◌&&◌, Option, none, some,
  is_some, List, [], ◌∷◌, ◌++◌, length, length-append, drop, Option-cases, inl, inr, arith,
}
use langgraph_study.Method.{ok}
use langgraph_study.Values.{Value, get_overwrite}
use langgraph_study.Channels.DeltaChannel.{
  DeltaChannel, reset_value, replay_scan, replay_finish, replay_values, update, find_overwrite,
  apply_batch,
}

drop-eq-nil : (n : ℕ) (xs : List Value) → n ≡ length xs → drop n xs ≡ []
drop-eq-nil zero [] h = refl
drop-eq-nil zero (x ∷ xs) h = absurd (omega arith)
drop-eq-nil (suc n) [] h = refl
drop-eq-nil (suc n) (x ∷ xs) h = drop-eq-nil n xs (omega arith)

drop-append : (n : ℕ) (xs ys : List Value) → n ≤ length xs → drop n (xs ++ ys) ≡ drop n xs ++ ys
drop-append zero xs ys h = refl
drop-append (suc n) [] ys h = absurd (omega arith)
drop-append (suc n) (x ∷ xs) ys h = drop-append n xs ys (omega arith)

-- The base and the writes after the last Overwrite, by a loop that keeps those writes.
unfoldable pub settle : Value → Value → List Value → List Value → Value × List Value
settle empty base rest [] = (base, rest)
settle empty base rest (v ∷ vs) = elim (get_overwrite v) [
  | some o ↦ settle empty (reset_value empty o) [] vs
  | none ↦ settle empty base (rest ++ v ∷ []) vs
]

cut : List Value → Option Value × ℕ → Option Value × List Value
cut values (base, start) = (base, drop start values)

settled : Value × List Value → Option Value × List Value
settled (base, rest) = (some base, rest)

-- The scan with indices of `replay_writes` finds the same base and the same writes.
replay_scan-eq-settle :
    (empty base : Value) (start i : ℕ) (before values whole : List Value)
    → start ≤ length before
    → i ≡ length before
    → whole ≡ before ++ values
    → cut whole (replay_scan empty (some base) start i values)
      ≡ settled (settle empty base (drop start before) values)
unfolding replay_scan settle cut settled
replay_scan-eq-settle empty base start i before [] whole h k e = rw (e, append-nil)
replay_scan-eq-settle empty base start i before (v ∷ vs) whole h k e =
    elim (Option-cases (get_overwrite v)) [
      | inl p ↦
          rw (p, replay_scan, settle)
            (rw (← drop-append start before (v ∷ []) h) (
              replay_scan-eq-settle empty base start (i + 1) (before ++ v ∷ []) vs whole
                (omega (arith, longer)) (omega (arith, longer)) split))
      | inr (o, p) ↦
          rw (p, replay_scan, settle)
            (rw (drop-eq-nil (i + 1) (before ++ v ∷ []) (omega (arith, longer))) at (
              replay_scan-eq-settle empty (reset_value empty o) (i + 1) (i + 1) (before ++ v ∷ [])
                vs whole (omega (arith, longer)) (omega (arith, longer)) split))
    ]
  where
    longer : length (before ++ v ∷ []) ≡ length before + 1
    longer = length-append before (v ∷ [])

    split : whole ≡ (before ++ v ∷ []) ++ vs
    split = e ∙ sym (append_assoc before (v ∷ []) vs)

pub settle-append :
    (empty base : Value) (rest xs ys : List Value)
    → settle empty base rest (xs ++ ys)
      ≡ settle empty (settle empty base rest xs).0 (settle empty base rest xs).1 ys
unfolding settle
settle-append empty base rest [] ys = refl
settle-append empty base rest (v ∷ vs) ys = elim (Option-cases (get_overwrite v)) [
  | inl p ↦ rw (p, settle) (settle-append empty base (rest ++ v ∷ []) vs ys)
  | inr (o, p) ↦ rw (p, settle) (settle-append empty (reset_value empty o) [] vs ys)
]

-- Only the last write of a batch is an Overwrite, if one is.
unfoldable pub overwrite_only_last : List Value → Bool
overwrite_only_last [] = true
overwrite_only_last (v ∷ []) = true
overwrite_only_last (v ∷ w ∷ vs) = not (is_some (get_overwrite v)) && overwrite_only_last (w ∷ vs)

-- What the two loops see in a batch: no Overwrite, or one at its end.
data BatchView (empty base : Value) (rest values : List Value) : Type 0 where
  plain :
      find_overwrite none values ≡ ok none
      → settle empty base rest values ≡ (base, rest ++ values)
      → BatchView empty base rest values
  ended :
      (o : Value)
      → find_overwrite none values ≡ ok (some o)
      → settle empty base rest values ≡ (reset_value empty o, [])
      → BatchView empty base rest values

batch_view :
    (empty base : Value) (rest values : List Value)
    → overwrite_only_last values ≡ true
    → BatchView empty base rest values
unfolding find_overwrite settle overwrite_only_last
batch_view empty base rest [] h = plain refl (rw append-nil)
batch_view empty base rest (v ∷ []) h = elim (Option-cases (get_overwrite v)) [
  | inl p ↦ plain (rw (p, find_overwrite)) (rw (p, settle))
  | inr (o, p) ↦ ended o (rw (p, find_overwrite)) (rw (p, settle))
]
batch_view empty base rest (v ∷ w ∷ vs) h =
    let p : get_overwrite v ≡ none = ground arith in
    elim (batch_view empty base (rest ++ v ∷ []) (w ∷ vs) (ground arith)) [
      | plain f s ↦ plain (rw (p, find_overwrite) f) (rw (p, settle) (rw append_assoc at s))
      | ended o f s ↦ ended o (rw (p, find_overwrite) f) (rw (p, settle) s)
    ]

module _ (reducer : Value → List Value → Value) (empty : Value) where
  -- `self.reducer(base, remaining) if remaining else base`
  unfoldable pub reduce : Value → List Value → Value
  reduce base [] = base
  reduce base (v ∷ vs) = reducer base (v ∷ vs)

  unfoldable pub reduce_settled : Value × List Value → Value
  reduce_settled (base, rest) = reduce base rest

  -- The value after a replay from a given value.
  unfoldable pub replayed : Value → List Value → Value
  unfolding reduce reduce_settled
  replayed base values = reduce_settled (settle empty base [] values)

  -- The value of `update`'s documented contract on reducers: one batch after the other is the batch
  -- of both.
  abbrev pub IsBatchingInvariant : Type 0
  IsBatchingInvariant =
      (state : Value) (xs ys : List Value)
      → reducer (reducer state xs) ys ≡ reducer state (xs ++ ys)

  module _ (invariant : IsBatchingInvariant) where
    reduce-append :
        (base : Value) (xs ys : List Value) → reduce base (xs ++ ys) ≡ reduce (reduce base xs) ys
    unfolding reduce
    reduce-append base [] ys = refl
    reduce-append base (x ∷ xs) [] = rw append-nil
    reduce-append base (x ∷ xs) (y ∷ ys) = sym (invariant base (x ∷ xs) (y ∷ ys))

    reduce-settle :
        (base : Value) (rest more values : List Value)
        → reduce_settled (settle empty base (rest ++ more) values)
          ≡ reduce_settled (settle empty (reduce base rest) more values)
    unfolding settle reduce_settled
    reduce-settle base rest more [] = reduce-append base rest more
    reduce-settle base rest more (v ∷ vs) = elim (Option-cases (get_overwrite v)) [
      | inl p ↦ rw (p, settle) (rw append_assoc (reduce-settle base rest (more ++ v ∷ []) vs))
      | inr (o, p) ↦ rw (p, settle)
    ]

    pub replayed-append :
        (base : Value) (xs ys : List Value)
        → replayed base (xs ++ ys) ≡ replayed (replayed base xs) ys
    unfolding replayed reduce_settled
    replayed-append base xs ys =
        let (b, rest) = settle empty base [] xs in
        rw settle-append (rw append-nil at (reduce-settle b rest [] ys))

abbrev pub set_value : DeltaChannel → Value → DeltaChannel
set_value self v = record self { value = some v }

pub set_value_self :
    (self : DeltaChannel) (base : Value) → self.value ≡ some base → self ≡ set_value self base
set_value_self self base h = ground arith

replay_values-cons :
    (self : DeltaChannel) (v : Value) (vs : List Value)
    → replay_values self (v ∷ vs)
      ≡ replay_finish self
          (replay_scan self.empty self.value 0 0 (v ∷ vs)).0
          (drop (replay_scan self.empty self.value 0 0 (v ∷ vs)).1 (v ∷ vs))
unfolding replay_values
replay_values-cons self v vs = refl

replay_finish-some :
    (self : DeltaChannel) (base : Value) (rest : List Value)
    → replay_finish self (some base) rest
      ≡ (ok tt, set_value self (reduce self.reducer self.empty base rest))
unfolding replay_finish reduce
replay_finish-some self base [] = refl
replay_finish-some self base (v ∷ vs) = refl

replay_finish-scan :
    (self : DeltaChannel) (base : Value) (values : List Value)
    → self.value ≡ some base
    → let (b, start) = replay_scan self.empty self.value 0 0 values in
      let (b', rest) = settle self.empty base [] values in
      replay_finish self b (drop start values) ≡ replay_finish self (some b') rest
unfolding cut settled
replay_finish-scan self base values h = simp h (
    ap (λ (p : Option Value × List Value). replay_finish self p.0 p.1)
      (replay_scan-eq-settle self.empty base 0 0 [] values values (omega arith) refl refl))

-- `replay_writes` of a channel with a value.
pub replay_values-eq :
    (self : DeltaChannel) (base : Value) (values : List Value)
    → self.value ≡ some base
    → replay_values self values
      ≡ (ok tt, set_value self (replayed self.reducer self.empty base values))
replay_values-eq self base [] h =
    unfold replay_values replayed reduce_settled settle reduce in
    ap (λ s. (ok tt, s)) (set_value_self self base h)
replay_values-eq self base (v ∷ vs) h =
    replay_values-cons self v vs
    ∙ replay_finish-scan self base (v ∷ vs) h
    ∙ replay_finish-some self _ _
    ∙ unfold replayed reduce_settled in refl

pub update-cons :
    (self : DeltaChannel) (v : Value) (vs : List Value)
    → update self (v ∷ vs) ≡ apply_batch self (v ∷ vs) (find_overwrite none (v ∷ vs))
unfolding update
update-cons self v vs = refl

pub update-eq :
    (self : DeltaChannel) (base : Value) (v : Value) (vs : List Value)
    → self.value ≡ some base
    → overwrite_only_last (v ∷ vs) ≡ true
    → update self (v ∷ vs)
      ≡ (ok true, set_value self (replayed self.reducer self.empty base (v ∷ vs)))
unfolding apply_batch replayed reduce_settled reduce
update-eq self base v vs h last = elim (batch_view self.empty base [] (v ∷ vs) last) [
  | plain f s ↦ update-cons self v vs ∙ rw (f, s) (rw h)
  | ended o f s ↦ update-cons self v vs ∙ rw (f, s)
]
