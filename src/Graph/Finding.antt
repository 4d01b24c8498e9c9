-- ===== src/Graph/Finding.antt =====
-- Where the messages are after a step of the loop of `_messages_delta_reducer`
-- (libs/langgraph/langgraph/graph/message.py).
use langgraph_study.Prelude.{
  ℕ, String, ◌≡◌, refl, sym, ap, ◌∙◌, Bool, true, false, Option, none, some, is_some, List, [], ◌∷◌,
  ◌++◌, length, str_eq, eq_iff, if◌then◌else◌, arith, Bool-cases, Option-cases, inl, inr,
}
use langgraph_study.Graph.Message.{Message, set_at, compact}
use langgraph_study.Graph.Compact.{
  has_id, slot_has_id, succeed, find, HasDistinctIds, has_message, id_of, has_id-eq,
  has_message-compact, find-cases,
}

same_slot :
    (k j : String) (msg : Message) (slot : Option Message)
    → msg.id ≡ some k
    → slot_has_id k slot ≡ true
    → has_id j msg ≡ slot_has_id j slot
same_slot k j msg none m e = cc
same_slot k j msg (some n) m e = has_id-eq k j msg m ∙ sym (has_id-eq k j n (id_of k n e))

pub find-set_some :
    (k j : String) (i : ℕ) (msg : Message) (slots : List (Option Message))
    → msg.id ≡ some k
    → find k slots ≡ some i
    → find j (set_at i (some msg) slots) ≡ find j slots
unfolding find set_at
find-set_some k j i msg [] m h = cc
find-set_some k j i msg (slot ∷ slots) m h = elim (find-cases k i slot slots h) [
  | inl (e, z) ↦
      rw z (ap (λ b. if b then some 0 else succeed (find j slots)) (same_slot k j msg slot m e))
  | inr l ↦ rw l.is_next (
      ap (λ o. if slot_has_id j slot then some 0 else succeed o)
        (find-set_some k j l.j msg slots m l.is_found))
]

pub find-append :
    (j : String) (m : Message) (slots : List (Option Message))
    → find j (slots ++ some m ∷ []) ≡ elim (find j slots) [
      | some i ↦ some i
      | none ↦ if has_id j m then some (length slots) else none
    ]
unfolding find
find-append j m [] = ground arith
find-append j m (slot ∷ slots) = elim (Bool-cases (slot_has_id j slot)) [
  | inl e ↦ rw e refl
  | inr e ↦ elim (Option-cases (find j slots)) [
    | inl f ↦ rw (e, find-append j m slots, f) (ground arith)
    | inr (i, f) ↦ rw (e, find-append j m slots, f) refl
  ]
]

succeed_if :
    (b : Bool) (o : Option ℕ) → succeed (if b then none else o) ≡ (if b then none else succeed o)
succeed_if true o = refl
succeed_if false o = refl

pub is_some-none : (o : Option ℕ) → is_some o ≡ false → o ≡ none
is_some-none none h = refl
is_some-none (some i) h = cc

first_removed :
    (k j : String) (m : Message) (slots : List (Option Message))
    → m.id ≡ some k
    → has_message k (compact slots) ≡ false
    → find j (none ∷ slots) ≡ (if str_eq k j then none else find j (some m ∷ slots))
unfolding find
first_removed k j m slots e new = elim (Bool-cases (str_eq k j)) [
  | inl p ↦
      let gone = is_some-none (find k slots) (sym (has_message-compact k slots) ∙ new) in
      rw p (ap succeed (ap (λ i. find i slots) (sym ((eq_iff k j).0 p)) ∙ gone))
  | inr p ↦
      rw p (ap (λ b. if b then some 0 else succeed (find j slots)) (sym (has_id-eq k j m e ∙ p)))
]

other_kept :
    (k j : String) (m : Message) (slots : List (Option Message))
    → has_id k m ≡ false
    → (if has_id j m then some 0 else succeed (if str_eq k j then none else find j slots))
      ≡ (if str_eq k j then none else find j (some m ∷ slots))
unfolding find
other_kept k j m slots e = elim (Bool-cases (str_eq k j)) [
  | inl p ↦
      let not_it : has_id j m ≡ false = ap (λ i. has_id i m) (sym ((eq_iff k j).0 p)) ∙ e in
      rw p (ap (λ b. if b then some 0 else none) not_it)
  | inr p ↦ rw p refl
]

pub find-set_none :
    (k j : String) (i : ℕ) (slots : List (Option Message))
    → HasDistinctIds (compact slots)
    → find k slots ≡ some i
    → find j (set_at i none slots) ≡ (if str_eq k j then none else find j slots)
unfolding find set_at compact
find-set_none k j i [] d h = cc
find-set_none k j i (none ∷ slots) d h = elim (find-cases k i none slots h) [
  | inl (e, z) ↦ cc
  | inr l ↦ rw l.is_next (
      ap succeed (find-set_none k j l.j slots d l.is_found)
      ∙ succeed_if (str_eq k j) (find j slots))
]
find-set_none k j i (some m ∷ slots) d h = elim (find-cases k i (some m) slots h) [
  | inl (e, z) ↦ rw z (first_removed k j m slots (id_of k m e) (d.0 k e))
  | inr l ↦ rw l.is_next (
      ap (λ o. if has_id j m then some 0 else succeed o)
        (find-set_none k j l.j slots d.1 l.is_found)
      ∙ other_kept k j m slots l.is_other)
]
