-- ===== src/Graph/Compact.antt =====
-- The slots that `_messages_delta_reducer` works on (libs/langgraph/langgraph/graph/message.py),
-- against the list of messages that they stand for.
use langgraph_study.Prelude.{
  ℕ, suc, String, ◌≡◌, ◌⊎◌, refl, sym, ap, ◌∙◌, Bool, true, false, ◌||◌, Option, none, some,
  is_some, List, [], ◌∷◌, ◌++◌, str_eq, eq_iff, if◌then◌else◌, arith, Bool-cases, Option-cases, inl,
  inr,
}
use langgraph_study.Graph.Message.{Message, set_at, compact}

-- Whether the message has the id.
abbrev pub has_id : String → Message → Bool
has_id k m = elim m.id [ none ↦ false | some mid ↦ str_eq mid k ]

abbrev pub slot_has_id : String → Option Message → Bool
slot_has_id k none = false
slot_has_id k (some m) = has_id k m

abbrev pub succeed : Option ℕ → Option ℕ
succeed none = none
succeed (some i) = some (suc i)

-- The index of the first slot with the id.
unfoldable pub find : String → List (Option Message) → Option ℕ
find k [] = none
find k (slot ∷ slots) = if slot_has_id k slot then some 0 else succeed (find k slots)

-- The list with the message in place of the one with the id, or without it.
unfoldable pub replace : String → Message → List Message → List Message
replace k msg [] = []
replace k msg (m ∷ ms) = if has_id k m then msg ∷ ms else m ∷ replace k msg ms

unfoldable pub delete : String → List Message → List Message
delete k [] = []
delete k (m ∷ ms) = if has_id k m then ms else m ∷ delete k ms

unfoldable pub has_message : String → List Message → Bool
has_message k [] = false
has_message k (m ∷ ms) = has_id k m || has_message k ms

-- No id is the id of two messages. Messages without an id may be many.
abbrev pub HasDistinctIds : List Message → Type 0
HasDistinctIds [] = Unit
HasDistinctIds (m ∷ ms) =
    ((k : String) → has_id k m ≡ true → has_message k ms ≡ false) × HasDistinctIds ms

pub id_of : (k : String) (m : Message) → has_id k m ≡ true → m.id ≡ some k
id_of k m h = elim (Option-cases m.id) [
  | inl e ↦ cc (rw e at h)
  | inr (mid, e) ↦ e ∙ ap some ((eq_iff mid k).0 (rw e at h))
]

pub has_id-eq : (k j : String) (m : Message) → m.id ≡ some k → has_id j m ≡ str_eq k j
has_id-eq k j m e = rw e refl

is_some-succeed : (o : Option ℕ) → is_some (succeed o) ≡ is_some o
is_some-succeed none = refl
is_some-succeed (some i) = refl

pub has_message-compact :
    (k : String) (slots : List (Option Message))
    → has_message k (compact slots) ≡ is_some (find k slots)
unfolding has_message compact find
has_message-compact k [] = refl
has_message-compact k (none ∷ slots) =
    has_message-compact k slots ∙ sym (is_some-succeed (find k slots))
has_message-compact k (some m ∷ slots) =
    ground (arith, has_message-compact k slots, is_some-succeed (find k slots))

-- Where `find` found the id: in the first slot, or in a later one.
pub record Later (k : String) (i : ℕ) (slot : Option Message) (slots : List (Option Message))
    : Type 0 where
  pub j : ℕ
  pub is_other : slot_has_id k slot ≡ false
  pub is_found : find k slots ≡ some j
  pub is_next : i ≡ suc j

pub find-cases :
    (k : String) (i : ℕ) (slot : Option Message) (slots : List (Option Message))
    → find k (slot ∷ slots) ≡ some i
    → ((slot_has_id k slot ≡ true) × (i ≡ 0)) ⊎ Later k i slot slots
unfolding find
find-cases k i slot slots h = elim (Bool-cases (slot_has_id k slot)) [
  | inl e ↦ inl (e, ground arith)
  | inr e ↦ elim (Option-cases (find k slots)) [
    | inl f ↦ cc (rw (find, e, f) at h)
    | inr (j, f) ↦ inr (record { j = j; is_other = e; is_found = f; is_next = ground arith })
  ]
]

pub compact-set_some :
    (k : String) (i : ℕ) (msg : Message) (slots : List (Option Message))
    → find k slots ≡ some i
    → compact (set_at i (some msg) slots) ≡ replace k msg (compact slots)
unfolding find compact set_at replace
compact-set_some k i msg [] h = cc
compact-set_some k i msg (none ∷ slots) h = elim (find-cases k i none slots h) [
  | inl (e, z) ↦ cc
  | inr l ↦ rw l.is_next (compact-set_some k l.j msg slots l.is_found)
]
compact-set_some k i msg (some m ∷ slots) h = elim (find-cases k i (some m) slots h) [
  | inl (e, z) ↦ rw (z, e, replace) refl
  | inr l ↦
      rw (l.is_next, l.is_other, replace)
        (ap (λ ms. m ∷ ms) (compact-set_some k l.j msg slots l.is_found))
]

pub compact-set_none :
    (k : String) (i : ℕ) (slots : List (Option Message))
    → find k slots ≡ some i
    → compact (set_at i none slots) ≡ delete k (compact slots)
unfolding find compact set_at delete
compact-set_none k i [] h = cc
compact-set_none k i (none ∷ slots) h = elim (find-cases k i none slots h) [
  | inl (e, z) ↦ cc
  | inr l ↦ rw l.is_next (compact-set_none k l.j slots l.is_found)
]
compact-set_none k i (some m ∷ slots) h = elim (find-cases k i (some m) slots h) [
  | inl (e, z) ↦ rw (z, e, delete) refl
  | inr l ↦
      rw (l.is_next, l.is_other, delete)
        (ap (λ ms. m ∷ ms) (compact-set_none k l.j slots l.is_found))
]

pub compact-append :
    (slots : List (Option Message)) (m : Message)
    → compact (slots ++ some m ∷ []) ≡ compact slots ++ m ∷ []
unfolding compact
compact-append [] m = refl
compact-append (none ∷ slots) m = compact-append slots m
compact-append (some n ∷ slots) m = ap (λ ms. n ∷ ms) (compact-append slots m)
