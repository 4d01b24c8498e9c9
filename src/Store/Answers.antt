-- ===== src/Store/Answers.antt =====
-- What a batch answers to its operations.
use langgraph_study.Prelude.{ℕ, String, ◌≡◌, ◌∙◌, List, [], ◌∷◌, length, ◌≤◌}
use langgraph_study.Method.{Result, ok, err, and_then}
use langgraph_study.Store.Namespaces.{Namespace}
use langgraph_study.Store.Filter.{Floats}
use langgraph_study.Store.InMemoryStore.{
  InMemoryStore, Preparing, Item, Op, OpResult, get_op, search_op, list_namespaces_op, put_op, item,
  items, namespaces, nothing, prepare_op, prepare_ops, filter_items, search_page, SearchOp,
  end_batch,
}
use langgraph_study.Store.Places.{value_at, value_of, value_at-touch}
use langgraph_study.Store.Searching.{length-first_of}

-- A `get` answers with the value at its place of this store, and nothing answers a put. A search gives
-- no more than its limit. What is listed is not described here.
abbrev pub Answer : InMemoryStore → Op → OpResult → Type 0
Answer s (get_op n k) (item o) = value_of o ≡ value_at n k s.contents
Answer s (search_op op) (items found) = length found ≤ op.limit
Answer s (list_namespaces_op op) (namespaces found) = Unit {0}
Answer s (put_op n k v) nothing = Unit {0}
Answer s op r = ⊥

-- One answer for each operation, in their order
abbrev pub Answers : InMemoryStore → List Op → List OpResult → Type 0
Answers s [] [] = Unit {0}
Answers s (op ∷ ops) (r ∷ rs) = Answer s op r × Answers s ops rs
Answers s ops rs = ⊥

abbrev pub AnswersOrRaises : InMemoryStore → List Op → Result (List OpResult) → Type 0
AnswersOrRaises s ops (err e) = Unit {0}
AnswersOrRaises s ops (ok rs) = Answers s ops rs

abbrev AnswerOrRaises : InMemoryStore → Op → Result OpResult → Type 0
AnswerOrRaises s op (err e) = Unit {0}
AnswerOrRaises s op (ok r) = Answer s op r

-- The same values at every place
abbrev HasValuesOf : InMemoryStore → Preparing → Type 0
HasValuesOf s p =
    (n : Namespace) (k : String) → value_at n k p.store.contents ≡ value_at n k s.contents

search_page-Answer :
    (s : InMemoryStore) (op : SearchOp) (p : Preparing) (found : Result (List Item))
    → AnswerOrRaises s (search_op op) (search_page op p found).0
search_page-Answer s op p (err e) = tt
search_page-Answer s op p (ok found) = length-first_of op.limit _

search_page-HasValuesOf :
    (s : InMemoryStore) (op : SearchOp) (p : Preparing) (found : Result (List Item))
    → HasValuesOf s p
    → HasValuesOf s (search_page op p found).1
search_page-HasValuesOf s op p (err e) h = h
search_page-HasValuesOf s op p (ok found) h = h

module _ (floats : Floats) (s : InMemoryStore) where
  prepare_op-Answer :
      (op : Op) (p : Preparing) → HasValuesOf s p → AnswerOrRaises s op (prepare_op floats op p).0
  unfolding prepare_op value_at
  prepare_op-Answer (get_op n k) p h = h n k
  prepare_op-Answer (search_op op) p h =
      search_page-Answer s op p (filter_items floats op p.store.contents)
  prepare_op-Answer (list_namespaces_op op) p h = tt
  prepare_op-Answer (put_op n k v) p h = tt

  prepare_op-HasValuesOf :
      (op : Op) (p : Preparing) → HasValuesOf s p → HasValuesOf s (prepare_op floats op p).1
  unfolding prepare_op
  prepare_op-HasValuesOf (get_op n k) p h = λ m j. value_at-touch n m j p.store.contents ∙ h m j
  prepare_op-HasValuesOf (search_op op) p h =
      search_page-HasValuesOf s op p (filter_items floats op p.store.contents) h
  prepare_op-HasValuesOf (list_namespaces_op op) p h = h
  prepare_op-HasValuesOf (put_op n k v) p h = h

  after-Answers :
      (op : Op) (ops : List Op) (r : OpResult) (rest : Result (List OpResult) × Preparing)
      → Answer s op r
      → AnswersOrRaises s ops rest.0
      → AnswersOrRaises s (op ∷ ops) (and_then rest (λ rs q. (ok (r ∷ rs), q))).0
  after-Answers op ops r (err e, q) h k = tt
  after-Answers op ops r (ok rs, q) h k = (h, k)

  step-Answers :
      (op : Op) (ops : List Op) (done : Result OpResult × Preparing)
      → AnswerOrRaises s op done.0
      → AnswersOrRaises s ops (prepare_ops floats ops done.1).0
      → AnswersOrRaises s
          (op ∷ ops)
          (and_then done
            (λ r q. and_then (prepare_ops floats ops q) (λ rs q'. (ok (r ∷ rs), q')))).0
  step-Answers op ops (err e, q) h k = tt
  step-Answers op ops (ok r, q) h k = after-Answers op ops r (prepare_ops floats ops q) h k

  pub prepare_ops-Answers :
      (ops : List Op) (p : Preparing)
      → ((n : Namespace) (k : String) → value_at n k p.store.contents ≡ value_at n k s.contents)
      → AnswersOrRaises s ops (prepare_ops floats ops p).0
  unfolding prepare_ops
  prepare_ops-Answers [] p h = tt
  prepare_ops-Answers (op ∷ ops) p h =
      step-Answers op ops (prepare_op floats op p) (prepare_op-Answer op p h)
        (prepare_ops-Answers ops (prepare_op floats op p).1 (prepare_op-HasValuesOf op p h))

pub end_batch-Answers :
    (floats : Floats) (now : ℕ → String) (s : InMemoryStore) (ops : List Op)
    (done : Result (List OpResult) × Preparing)
    → AnswersOrRaises s ops done.0
    → AnswersOrRaises s ops (end_batch floats now done).0
end_batch-Answers floats now s ops (err e, q) h = tt
end_batch-Answers floats now s ops (ok rs, q) h = h
