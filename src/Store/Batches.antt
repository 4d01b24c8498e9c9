-- ===== src/Store/Batches.antt =====
-- A batch of operations is a sequence of them: although the puts are kept in a dict and applied at
-- the end, the store is as after one operation behind the other.
use langgraph_study.Prelude.{
  ℕ, String, Bool, true, false, ◌||◌, ◌≡◌, refl, ◌∙◌, ap, Option, List, [], ◌∷◌, any, if◌then◌else◌,
  arith,
}
use langgraph_study.Method.{Result, ok, err, and_then}
use langgraph_study.Values.{Value}
use langgraph_study.Dict.{Dict}
use langgraph_study.Table.{get, get-put, AreDistinct, put-AreDistinct}
use langgraph_study.Store.Namespaces.{Namespace, namespace_eq, place, place_eq}
use langgraph_study.Store.Filter.{Floats}
use langgraph_study.Store.InMemoryStore.{
  InMemoryStore, Preparing, Item, Op, OpResult, get_op, search_op, list_namespaces_op, put_op,
  prepare_op, prepare_ops, batch, end_batch, filter_items, search_page, SearchOp, Op,
}
use langgraph_study.Store.Places.{value_at, is_known, value_at-touch, is_known-touch}
use langgraph_study.Store.Answers.{AnswersOrRaises, prepare_ops-Answers, end_batch-Answers}
use langgraph_study.Store.Puts.{
  overridden, value_at-apply_put_ops, puts_in, puts_in-put, is_known-apply_put_ops,
}

-- What an operation makes of the value at a place.
abbrev pub after_op : Namespace → String → Op → Option (Dict Value) → Option (Dict Value)
after_op m j (put_op n k w) v = if place_eq (n, k) (m, j) then w else v
after_op m j op v = v

abbrev pub after_ops : Namespace → String → List Op → Option (Dict Value) → Option (Dict Value)
after_ops m j [] v = v
after_ops m j (op ∷ ops) v = after_ops m j ops (after_op m j op v)

-- Whether an operation names the namespace.
abbrev pub names : Namespace → Op → Bool
names m (get_op n k) = namespace_eq n m
names m (put_op n k w) = namespace_eq n m
names m op = false

-- The value at a place once the puts so far are applied, and whether the namespace is then there.
abbrev value_then : Namespace → String → Preparing → Option (Dict Value)
value_then m j p = overridden (get (m, j) p.put_ops) (value_at m j p.store.contents)

abbrev known_then : Namespace → Preparing → Bool
known_then m p = puts_in m p.put_ops || is_known m p.store.contents

record Prepared (m : Namespace) (j : String) (ops : List Op) (p q : Preparing) : Type 0 where
  same_values : value_at m j q.store.contents ≡ value_at m j p.store.contents
  are_distinct : AreDistinct p.put_ops → AreDistinct q.put_ops
  values : value_then m j q ≡ after_ops m j ops (value_then m j p)
  known : known_then m q ≡ (any (λ op. names m op) ops || known_then m p)

-- Where it raises, nothing that stands anywhere has changed.
abbrev PreparedOrSame :
    Namespace → String → List Op → Preparing → Result (List OpResult) × Preparing → Type 0
PreparedOrSame m j ops p (err e, q) = value_at m j q.store.contents ≡ value_at m j p.store.contents
PreparedOrSame m j ops p (ok results, q) = Prepared m j ops p q

Prepared-refl : (m : Namespace) (j : String) (p : Preparing) → Prepared m j [] p p
Prepared-refl m j p = record {
  same_values = refl;
  are_distinct = λ h. h;
  values = refl;
  known = refl;
}

module _ (m : Namespace) (j : String) where
  Prepared-trans :
      (op : Op) (ops : List Op) (p q r : Preparing)
      → Prepared m j (op ∷ []) p q
      → Prepared m j ops q r
      → Prepared m j (op ∷ ops) p r
  Prepared-trans op ops p q r h k = record {
    same_values = k.same_values ∙ h.same_values;
    are_distinct = λ d. k.are_distinct (h.are_distinct d);
    values = k.values ∙ ap (after_ops m j ops) h.values;
    known = k.known ∙ ground (arith, h.known);
  }

  search_page-Prepared :
      (op : SearchOp) (p : Preparing) (found : Result (List Item))
      → Prepared m j (search_op op ∷ []) p (search_page op p found).1
  search_page-Prepared op p (err e) = record {
    same_values = refl;
    are_distinct = λ h. h;
    values = refl;
    known = refl;
  }
  search_page-Prepared op p (ok found) = record {
    same_values = refl;
    are_distinct = λ h. h;
    values = refl;
    known = refl;
  }

  module _ (floats : Floats) where
    prepare_op-Prepared :
        (op : Op) (p : Preparing) → Prepared m j (op ∷ []) p (prepare_op floats op p).1
    unfolding prepare_op
    prepare_op-Prepared (get_op n k) p = record {
      same_values = value_at-touch n m j p.store.contents;
      are_distinct = λ h. h;
      values = ap (overridden (get (m, j) p.put_ops)) (value_at-touch n m j p.store.contents);
      known = ground (arith, is_known-touch n m p.store.contents);
    }
    prepare_op-Prepared (search_op op) p =
        search_page-Prepared op p (filter_items floats op p.store.contents)
    prepare_op-Prepared (list_namespaces_op op) p = record {
      same_values = refl;
      are_distinct = λ h. h;
      values = refl;
      known = refl;
    }
    prepare_op-Prepared (put_op n k v) p = record {
      same_values = refl;
      are_distinct = put-AreDistinct (n, k) v p.put_ops;
      values = rw (get-put (n, k) (m, j) v p.put_ops) (ground arith);
      known = ground (arith, puts_in-put m n k v p.put_ops);
    }

    after-PreparedOrSame :
        (op : Op) (ops : List Op) (p q : Preparing) (r : OpResult)
        (rest : Result (List OpResult) × Preparing)
        → Prepared m j (op ∷ []) p q
        → PreparedOrSame m j ops q rest
        → PreparedOrSame m j (op ∷ ops) p (and_then rest (λ rs s. (ok (r ∷ rs), s)))
    after-PreparedOrSame op ops p q r (err e, s) h k = k ∙ h.same_values
    after-PreparedOrSame op ops p q r (ok rs, s) h k = Prepared-trans op ops p q s h k

    step-PreparedOrSame :
        (op : Op) (ops : List Op) (p : Preparing) (done : Result OpResult × Preparing)
        → Prepared m j (op ∷ []) p done.1
        → ((q : Preparing) → PreparedOrSame m j ops q (prepare_ops floats ops q))
        → PreparedOrSame m j
            (op ∷ ops)
            p
            (and_then done (λ r q. and_then (prepare_ops floats ops q) (λ rs s. (ok (r ∷ rs), s))))
    step-PreparedOrSame op ops p (err e, q) h next = h.same_values
    step-PreparedOrSame op ops p (ok r, q) h next =
        after-PreparedOrSame op ops p q r (prepare_ops floats ops q) h (next q)

    prepare_ops-PreparedOrSame :
        (ops : List Op) (p : Preparing) → PreparedOrSame m j ops p (prepare_ops floats ops p)
    unfolding prepare_ops
    prepare_ops-PreparedOrSame [] p = Prepared-refl m j p
    prepare_ops-PreparedOrSame (op ∷ ops) p =
        step-PreparedOrSame op ops p (prepare_op floats op p) (prepare_op-Prepared op p)
          (λ q. prepare_ops-PreparedOrSame ops q)

abbrev pub is_ok {ℓ} : {A : Type ℓ} → Result A → Bool
is_ok (ok a) = true
is_ok (err e) = false

module _ (now : ℕ → String) (m : Namespace) (j : String) (ops : List Op) (s : InMemoryStore) where
  end_batch-after_ops :
      (floats : Floats) (done : Result (List OpResult) × Preparing)
      → PreparedOrSame m j ops (record { store = s; put_ops = [] }) done
      → value_at m j (end_batch floats now done).1.contents ≡ (
          if is_ok (end_batch floats now done).0
          then after_ops m j ops (value_at m j s.contents)
          else value_at m j s.contents)
  unfolding get
  end_batch-after_ops floats (err e, q) h = h
  end_batch-after_ops floats (ok rs, q) h =
      value_at-apply_put_ops now m j q.put_ops q.store (h.are_distinct tt) ∙ h.values

  end_batch-names :
      (floats : Floats) (done : Result (List OpResult) × Preparing)
      → PreparedOrSame m j ops (record { store = s; put_ops = [] }) done
      → is_ok (end_batch floats now done).0 ≡ true
      → is_known m (end_batch floats now done).1.contents
        ≡ (any (λ op. names m op) ops || is_known m s.contents)
  end_batch-names floats (err e, q) h k = ground arith
  end_batch-names floats (ok rs, q) h k = is_known-apply_put_ops now m q.put_ops q.store ∙ h.known

-- A batch applies its puts only at its end. After it every place of the store has the value that its
-- operations, taken one after the other, give it: of several puts and deletions for one place the last
-- one counts, and no read changes a value. There is one answer for each operation, in their order, and
-- a `get` answers with the value from before the batch, also where a put for its place goes before it.
-- Where an operation of the batch raises, every value is as it was before.
pub batch-after_ops :
    (floats : Floats) (now : ℕ → String) (ops : List Op) (s : InMemoryStore) (ns : Namespace)
    (key : String)
    → (value_at ns key (batch floats now ops s).1.contents ≡ (
        if is_ok (batch floats now ops s).0
        then after_ops ns key ops (value_at ns key s.contents)
        else value_at ns key s.contents))
      × AnswersOrRaises s ops (batch floats now ops s).0
unfolding batch
batch-after_ops floats now ops s ns key =
    let start : Preparing = record { store = s; put_ops = [] } in
    (
      end_batch-after_ops now ns key ops s floats _
          (prepare_ops-PreparedOrSame ns key floats ops start),
      end_batch-Answers floats now s ops (prepare_ops floats ops start)
          (prepare_ops-Answers floats s ops start (λ n k. refl)),
    )

pub batch-names :
    (floats : Floats) (now : ℕ → String) (ops : List Op) (s : InMemoryStore) (ns : Namespace)
    → is_ok (batch floats now ops s).0 ≡ true
    → is_known ns (batch floats now ops s).1.contents
      ≡ (any (λ op. names ns op) ops || is_known ns s.contents)
unfolding batch
batch-names floats now ops s ns h =
    end_batch-names now ns "" ops s floats _
      (prepare_ops-PreparedOrSame ns "" floats ops (record { store = s; put_ops = [] })) h
