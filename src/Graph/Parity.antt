-- ===== src/Graph/Parity.antt =====
-- `add_messages` against `_messages_delta_reducer` (libs/langgraph/langgraph/graph/message.py).
use mathlib.Core.List.{append-nil}
use langgraph_study.Prelude.{
  ℕ, zero, suc, ◌+◌, String, ◌≡◌, refl, sym, ap, ap₂, ◌∙◌, true, false, ◌&&◌, Option, none, some,
  is_some, List, [], ◌∷◌, ◌++◌, length, arith, str_eq, drop, if◌then◌else◌,
}
use langgraph_study.Method.{Result, ok, ◌>>=◌}
use langgraph_study.Dict.{Dict, get, put, has}
use langgraph_study.Graph.Message.{
  Message, several, Slots, set_at, index_from, place_one, reduce_id, reduce_all, compact, all_some,
  flatten_writes, messages_delta_reducer,
}
use langgraph_study.Graph.Indexing.{compact-all_some}
use langgraph_study.Graph.AddMessages.{
  assign_id, assign_ids, remove_all_messages, message_id, find_remove_all, discard, Merging,
  merge_at, merge_messages, keep_messages, apply_format, merge_lists, add_messages,
}

-- Every message has an id.
abbrev pub HaveIds : List Message → Type 0
HaveIds [] = Unit
HaveIds (m ∷ ms) = (is_some m.id ≡ true) × HaveIds ms

-- No message is a RemoveMessage.
abbrev pub HaveNoRemovals : List Message → Type 0
HaveNoRemovals [] = Unit
HaveNoRemovals (m ∷ ms) = (m.is_removal ≡ false) × HaveNoRemovals ms

assign_id-some :
    (o : Option String) (fresh : ℕ → String) (n : ℕ) (m : Message)
    → is_some o ≡ true
    → assign_id o fresh n m ≡ (m, n)
unfolding assign_id
assign_id-some none fresh n m h = cc
assign_id-some (some i) fresh n m h = refl

assign_ids-HaveIds :
    (fresh : ℕ → String) (n : ℕ) (ms : List Message) → HaveIds ms → assign_ids fresh n ms ≡ (ms, n)
unfolding assign_ids
assign_ids-HaveIds fresh n [] h = refl
assign_ids-HaveIds fresh n (m ∷ ms) h =
    ap (λ (p : Message × ℕ). let q = assign_ids fresh p.1 ms in (p.0 ∷ q.0, q.1))
      (assign_id-some m.id fresh n m h.0)
    ∙ ap (λ (q : List Message × ℕ). (m ∷ q.0, q.1)) (assign_ids-HaveIds fresh n ms h.1)

find_remove_all-none :
    (idx : ℕ) (ms : List Message) → HaveNoRemovals ms → find_remove_all idx none ms ≡ none
unfolding find_remove_all
find_remove_all-none idx [] h = refl
find_remove_all-none idx (m ∷ ms) h =
    ap
      (λ b.
        find_remove_all (suc idx)
          (if b && str_eq (message_id m) remove_all_messages then some idx else none) ms)
      h.0
    ∙ find_remove_all-none (suc idx) ms h.1

keep_messages-nil : (ms : List Message) → keep_messages [] ms ≡ ms
unfolding keep_messages has
keep_messages-nil [] = refl
keep_messages-nil (m ∷ ms) = ap (λ l. m ∷ l) (keep_messages-nil ms)

all_some-append :
    (ms : List Message) (m : Message) → all_some (ms ++ m ∷ []) ≡ all_some ms ++ some m ∷ []
all_some-append [] m = refl
all_some-append (n ∷ ms) m = ap (λ l. some n ∷ l) (all_some-append ms m)

all_some-set_at :
    (i : ℕ) (m : Message) (ms : List Message)
    → all_some (set_at i m ms) ≡ set_at i (some m) (all_some ms)
unfolding set_at
all_some-set_at i m [] = refl
all_some-set_at zero m (n ∷ ms) = refl
all_some-set_at (suc i) m (n ∷ ms) = ap (λ l. some n ∷ l) (all_some-set_at i m ms)

length-all_some : (ms : List Message) → length (all_some ms) ≡ length ms
length-all_some [] = refl
length-all_some (m ∷ ms) = omega (arith, length-all_some ms)

-- The slots that stand for what `add_messages` has merged.
abbrev slots_of : List Message → Dict ℕ → Slots
slots_of merged by_id = record { result = all_some merged; index = by_id }

merging : List Message → Dict ℕ → Merging
merging merged by_id = record { merged = merged; by_id = by_id; to_remove = [] }

-- What the loops have in common.
finish : Result Merging → Result (List Message)
finish r = do s ← r; ok (keep_messages s.to_remove s.merged)

reduce_id-place_one :
    (o : Option String) (slots : Slots) (m : Message)
    → is_some o ≡ true
    → let mid : String = elim o [ none ↦ "" | some i ↦ i ] in
      reduce_id o slots m ≡ place_one (get mid slots.index) m.is_removal mid slots m
unfolding reduce_id
reduce_id-place_one none slots m h = cc
reduce_id-place_one (some i) slots m h = refl

-- A step of both loops.
record Step (o : Option ℕ) (m : Message) (merged : List Message) (by_id : Dict ℕ) : Type 0 where
  next : List Message
  next_by_id : Dict ℕ
  is_merged : merge_at o false m (merging merged by_id) ≡ ok (merging next next_by_id)
  is_placed : place_one o false (message_id m) (slots_of merged by_id) m ≡ slots_of next next_by_id

step : (o : Option ℕ) (m : Message) (merged : List Message) (by_id : Dict ℕ) → Step o m merged by_id
unfolding merge_at place_one merging discard
step none m merged by_id = record {
  next = merged ++ m ∷ [];
  next_by_id = put (message_id m) (length merged) by_id;
  is_merged = refl;
  is_placed =
      ap₂ (λ r n. record { result = r; index = put (message_id m) n by_id })
        (sym (all_some-append merged m)) (length-all_some merged);
}
step (some j) m merged by_id = record {
  next = set_at j m merged;
  next_by_id = by_id;
  is_merged = refl;
  is_placed = ap (λ r. record { result = r; index = by_id }) (sym (all_some-set_at j m merged));
}

merge_messages-reduce_all :
    (ms merged : List Message) (by_id : Dict ℕ)
    → HaveIds ms
    → HaveNoRemovals ms
    → finish (merge_messages ms (merging merged by_id))
      ≡ ok (compact (reduce_all (slots_of merged by_id) ms).result)
unfolding merge_messages merging finish reduce_all
merge_messages-reduce_all [] merged by_id h g =
    ap ok (keep_messages-nil merged ∙ sym (compact-all_some merged))
merge_messages-reduce_all (m ∷ ms) merged by_id h g =
    let o = get (message_id m) by_id in
    let s = step o m merged by_id in
    let placed =
      reduce_id-place_one m.id (slots_of merged by_id) m h.0
      ∙ ap (λ b. place_one o b (message_id m) (slots_of merged by_id) m) g.0
      ∙ s.is_placed in
    ap (λ b. finish (merge_at o b m (merging merged by_id) >>= merge_messages ms)) g.0
    ∙ ap (λ r. finish (r >>= merge_messages ms)) s.is_merged
    ∙ merge_messages-reduce_all ms s.next s.next_by_id h.1 g.1
    ∙ ap (λ slots. ok (compact (reduce_all slots ms).result)) (sym placed)

-- What `add_messages` with no format does once the ids are there.
choose :
    (List Message → List Message) → List Message → Option ℕ → List Message → Result (List Message)
choose format_messages left o right = elim o [
  | some idx ↦ ok (drop (idx + 1) right)
  | none ↦ merge_lists format_messages none left right
]

-- Where every message has an id and none on the right is a RemoveMessage, `add_messages` with no
-- format returns, and gives what `_messages_delta_reducer` gives of one write of the same messages.
pub add_messages-eq-messages_delta_reducer :
    (fresh : ℕ → String) (format_messages : List Message → List Message) (left right : List Message)
    → HaveIds left
    → HaveIds right
    → HaveNoRemovals right
    → add_messages fresh format_messages none left right
      ≡ ok (messages_delta_reducer left (several right ∷ []))
unfolding add_messages choose merge_lists apply_format messages_delta_reducer flatten_writes finish
    merging
add_messages-eq-messages_delta_reducer fresh format_messages left right l r none_removed =
    let chosen = λ (o : Option ℕ) (ms : List Message). choose format_messages left o ms in
    let start : Slots = slots_of left (index_from 0 left []) in
    ap
      (λ (p : List Message × ℕ).
        let q = assign_ids fresh p.1 right in
        choose format_messages p.0 (find_remove_all 0 none q.0) q.0)
      (assign_ids-HaveIds fresh 0 left l)
    ∙ ap (λ (q : List Message × ℕ). chosen (find_remove_all 0 none q.0) q.0)
        (assign_ids-HaveIds fresh 0 right r)
    ∙ ap (λ o. chosen o right) (find_remove_all-none 0 right none_removed)
    ∙ merge_messages-reduce_all right left (index_from 0 left []) r none_removed
    ∙ ap (λ ms. ok (compact (reduce_all start ms).result)) (sym (append-nil right))
