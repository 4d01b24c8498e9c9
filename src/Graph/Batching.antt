-- ===== src/Graph/Batching.antt =====
-- `_messages_delta_reducer` (libs/langgraph/langgraph/graph/message.py) in two batches and in one.
use mathlib.Core.List.{append_assoc}
use langgraph_study.Prelude.{
  ℕ, String, ◌≡◌, refl, sym, subst, ap, ap₂, ◌∙◌, Bool, true, false, Option, none, some, is_some,
  List, [], ◌∷◌, ◌++◌, length, str_eq, eq_iff, if◌then◌else◌, Bool-cases, inl, inr,
}
use langgraph_study.Values.{Value}
use langgraph_study.Dict.{get, get-put, get-remove}
use langgraph_study.Graph.Message.{
  Message, Write, several, single, Slots, index_from, place_one, reduce_id, reduce_one, reduce_all,
  compact, all_some, flatten_writes, messages_delta_reducer,
}
use langgraph_study.Graph.Compact.{
  find, HasDistinctIds, has_id-eq, has_message-compact, compact-set_some, compact-set_none,
  compact-append,
}
use langgraph_study.Graph.Finding.{find-set_some, find-set_none, find-append}
use langgraph_study.Graph.Indexing.{Tracks, compact-all_some, index_from-Tracks}
use langgraph_study.Graph.Steps.{
  merge_known, merge_id, merge, merge-append, merge_id-HasDistinctIds, merge-HasDistinctIds,
}

after_append : Bool → ℕ → Option ℕ → Option ℕ
after_append b n o = elim o [ some i ↦ some i | none ↦ if b then some n else none ]

ap2_after :
    (a b : Bool) (n : ℕ) (o u : Option ℕ) → a ≡ b → o ≡ u → after_append a n o ≡ after_append b n u
ap2_after a b n o u p q = ap₂ (λ c v. after_append c n v) p q

after_append-false : (n : ℕ) (o : Option ℕ) → o ≡ after_append false n o
unfolding after_append
after_append-false n none = refl
after_append-false n (some i) = refl

find_new :
    (mid k : String) (msg : Message) (rs : List (Option Message)) (o : Option ℕ)
    → msg.id ≡ some mid
    → find mid rs ≡ none
    → o ≡ find k rs
    → (if str_eq mid k then some (length rs) else o) ≡ find k (rs ++ some msg ∷ [])
unfolding after_append
find_new mid k msg rs o e f g =
    let whole : after_append (str_eq mid k) (length rs) (find k rs) ≡ find k (rs ++ some msg ∷ []) =
      ap (λ b. after_append b (length rs) (find k rs)) (sym (has_id-eq mid k msg e))
      ∙ sym (find-append k msg rs) in
    elim (Bool-cases (str_eq mid k)) [
      | inl p ↦
          let here : find k rs ≡ none = ap (λ i. find i rs) (sym ((eq_iff mid k).0 p)) ∙ f in
          ap (λ b. if b then some (length rs) else o) p
          ∙ sym (ap2_after (str_eq mid k) true (length rs) (find k rs) none p here)
          ∙ whole
      | inr p ↦
          ap (λ b. if b then some (length rs) else o) p
          ∙ g
          ∙ after_append-false (length rs) (find k rs)
          ∙ sym (ap (λ b. after_append b (length rs) (find k rs)) p)
          ∙ whole
    ]

find_no_id :
    (k : String) (msg : Message) (rs : List (Option Message))
    → msg.id ≡ none
    → find k rs ≡ find k (rs ++ some msg ∷ [])
unfolding after_append
find_no_id k msg rs e =
    after_append-false (length rs) (find k rs)
    ∙ ap (λ b. after_append b (length rs) (find k rs))
        (sym (ap (λ o. elim o [ none ↦ false | some mid ↦ str_eq mid k ]) e))
    ∙ sym (find-append k msg rs)

-- The slots after a step stand for the list after the step.
record Merged (slots next : Slots) (ms : List Message) : Type 0 where
  value : compact next.result ≡ ms
  tracks : Tracks next

place_one-Merged :
    (o : Option ℕ) (removal : Bool) (mid : String) (slots : Slots) (msg : Message)
    → find mid slots.result ≡ o
    → msg.id ≡ some mid
    → Tracks slots
    → HasDistinctIds (compact slots.result)
    → Merged slots
        (place_one o removal mid slots msg)
        (merge_known (is_some o) removal mid (compact slots.result) msg)
unfolding place_one merge_known
place_one-Merged none true mid slots msg f e t d = record { value = refl; tracks = t }
place_one-Merged none false mid slots msg f e t d = record {
  value = compact-append slots.result msg;
  tracks = record {
    at = λ k.
        get-put mid k (length slots.result) slots.index
        ∙ find_new mid k msg slots.result (get k slots.index) e f (t.at k);
  };
}
place_one-Merged (some i) true mid slots msg f e t d = record {
  value = compact-set_none mid i slots.result f;
  tracks = record {
    at = λ k.
        get-remove mid k slots.index
        ∙ ap (λ o. if str_eq mid k then none else o) (t.at k)
        ∙ sym (find-set_none mid k i slots.result d f);
  };
}
place_one-Merged (some i) false mid slots msg f e t d = record {
  value = compact-set_some mid i msg slots.result f;
  tracks = record { at = λ k. t.at k ∙ sym (find-set_some mid k i msg slots.result e f) };
}

reduce_id-Merged :
    (o : Option String) (slots : Slots) (msg : Message)
    → msg.id ≡ o
    → Tracks slots
    → HasDistinctIds (compact slots.result)
    → Merged slots (reduce_id o slots msg) (merge_id o (compact slots.result) msg)
unfolding reduce_id merge_id
reduce_id-Merged none slots msg e t d = record {
  value = compact-append slots.result msg;
  tracks = record { at = λ k. t.at k ∙ find_no_id k msg slots.result e };
}
reduce_id-Merged (some mid) slots msg e t d =
    subst
      (λ b.
        Merged slots (place_one (get mid slots.index) msg.is_removal mid slots msg)
          (merge_known b msg.is_removal mid (compact slots.result) msg))
      (ap is_some (t.at mid) ∙ sym (has_message-compact mid slots.result))
      (place_one-Merged (get mid slots.index) msg.is_removal mid slots msg (sym (t.at mid)) e t d)

compact-reduce_all :
    (slots : Slots) (msgs : List Message)
    → Tracks slots
    → HasDistinctIds (compact slots.result)
    → compact (reduce_all slots msgs).result ≡ merge (compact slots.result) msgs
unfolding reduce_all merge
compact-reduce_all slots [] t d = refl
compact-reduce_all slots (msg ∷ msgs) t d =
    let one = reduce_id-Merged msg.id slots msg refl t d in
    compact-reduce_all (reduce_one slots msg) msgs one.tracks (
      subst HasDistinctIds (sym one.value)
        (merge_id-HasDistinctIds msg.id (compact slots.result) msg refl d))
    ∙ ap (λ ms. merge ms msgs) one.value

-- For a list in which no id is the id of two messages, `_messages_delta_reducer` merges the messages
-- of the writes into it one after the other, as `merge` describes, with no index and no gaps.
pub messages_delta_reducer-eq-merge :
    (state : List Message) (writes : List Write)
    → HasDistinctIds state
    → messages_delta_reducer state writes ≡ merge state (flatten_writes writes)
unfolding messages_delta_reducer
messages_delta_reducer-eq-merge state writes d =
    let start : Slots = record { result = all_some state; index = index_from 0 state [] } in
    compact-reduce_all start (flatten_writes writes) (index_from-Tracks state d)
      (subst HasDistinctIds (sym (compact-all_some state)) d)
    ∙ ap (λ ms. merge ms (flatten_writes writes)) (compact-all_some state)

flatten_writes-append :
    (xs ys : List Write) → flatten_writes (xs ++ ys) ≡ flatten_writes xs ++ flatten_writes ys
unfolding flatten_writes
flatten_writes-append [] ys = refl
flatten_writes-append (several ms ∷ xs) ys =
    ap (λ l. ms ++ l) (flatten_writes-append xs ys)
    ∙ sym (append_assoc ms (flatten_writes xs) (flatten_writes ys))
flatten_writes-append (single m ∷ xs) ys = ap (λ l. m ∷ l) (flatten_writes-append xs ys)

-- `_messages_delta_reducer` is batching-invariant, as its documentation says and DeltaChannel
-- requires, on every list in which no id is the id of two messages.
pub messages_delta_reducer-append :
    (state : List Message) (xs ys : List Write)
    → HasDistinctIds state
    → messages_delta_reducer (messages_delta_reducer state xs) ys
      ≡ messages_delta_reducer state (xs ++ ys)
messages_delta_reducer-append state xs ys d =
    let first = messages_delta_reducer-eq-merge state xs d in
    let middle = merge state (flatten_writes xs) in
    ap (λ ms. messages_delta_reducer ms ys) first
    ∙ messages_delta_reducer-eq-merge middle ys (merge-HasDistinctIds state (flatten_writes xs) d)
    ∙ sym (merge-append state (flatten_writes xs) (flatten_writes ys))
    ∙ ap (merge state) (sym (flatten_writes-append xs ys))
    ∙ sym (messages_delta_reducer-eq-merge state (xs ++ ys) d)

abbrev pub kept : String → Value → Message
kept k content = record { id = some k; is_removal = false; content = content }

abbrev pub removal : String → Value → Message
removal k content = record { id = some k; is_removal = true; content = content }
