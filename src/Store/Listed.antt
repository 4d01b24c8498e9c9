-- ===== src/Store/Listed.antt =====
-- Which namespaces `list_namespaces` lists, and what `get` gives after a `put`.
use langgraph_study.Prelude.{
  ℕ, String, Bool, true, ◌&&◌, ◌||◌, ◌≡◌, refl, sym, ◌∙◌, ap, Option, none, some, List, [], ◌∷◌,
  all, any, if◌then◌else◌, arith,
}
use langgraph_study.Method.{ok}
use langgraph_study.Values.{Value}
use langgraph_study.Dict
use langgraph_study.Dict.{Dict}
use langgraph_study.Table.{get}
use langgraph_study.Store.Namespaces.{
  Namespace, namespace, namespace_eq, namespace_eq_iff, place_eq, MatchCondition, does_match,
  insert_namespace, sort_namespaces, is_listed, validate_namespace,
}
use langgraph_study.Store.Filter.{Floats}
use langgraph_study.Store.InMemoryStore.{
  InMemoryStore, Data, Item, Op, item, put_op, ListNamespacesOp, all_listed, matching_namespaces,
  namespaces_of, batch, prepare_ops, prepare_op, items_of,
}
use langgraph_study.Store.BaseStore.{get_item, put_item, put_valid, batch_one}
use langgraph_study.Store.Places.{value_at, value_of, is_known}
use langgraph_study.Store.Batches.{batch-after_ops, batch-names, names, is_ok}

is_listed-insert_namespace :
    (ns n : Namespace) (all_of : List Namespace)
    → is_listed ns (insert_namespace n all_of) ≡ (namespace_eq n ns || is_listed ns all_of)
unfolding is_listed insert_namespace
is_listed-insert_namespace ns n [] = refl
is_listed-insert_namespace ns n (m ∷ ms) = ground (arith, is_listed-insert_namespace ns n ms)

is_listed-sort_namespaces :
    (ns : Namespace) (all_of : List Namespace)
    → is_listed ns (sort_namespaces all_of) ≡ is_listed ns all_of
unfolding is_listed sort_namespaces
is_listed-sort_namespaces ns [] = refl
is_listed-sort_namespaces ns (m ∷ ms) =
    is_listed-insert_namespace ns m (sort_namespaces ms) ∙ rw (is_listed-sort_namespaces ns ms)

abbrev all_match : List MatchCondition → Namespace → Bool
all_match conditions ns = all (λ (c : MatchCondition). does_match c ns) conditions

is_listed-matching_namespaces :
    (ns : Namespace) (conditions : List MatchCondition) (all_of : List Namespace)
    → is_listed ns (matching_namespaces conditions all_of)
      ≡ (all_match conditions ns && is_listed ns all_of)
unfolding is_listed matching_namespaces
is_listed-matching_namespaces ns conditions [] = ground arith
is_listed-matching_namespaces ns conditions (m ∷ ms) = ground (
  arith,
  is_listed-matching_namespaces ns conditions ms,
  namespace_eq_iff m ns,
  ap (all_match conditions),
)

is_listed-namespaces_of :
    (ns : Namespace) (contents : Data)
    → is_listed ns (namespaces_of contents) ≡ is_known ns contents
unfolding is_listed get
is_listed-namespaces_of ns [] = refl
is_listed-namespaces_of ns ((m, d) ∷ contents) = ground (arith, is_listed-namespaces_of ns contents)

is_listed-all_listed :
    (op : ListNamespacesOp) (ns : Namespace) (contents : Data)
    → op.max_depth ≡ none
    → is_listed ns (all_listed op contents)
      ≡ (all_match op.match_conditions ns && is_known ns contents)
unfolding all_listed
is_listed-all_listed op ns contents h = rw h (
    is_listed-sort_namespaces ns (matching_namespaces op.match_conditions (namespaces_of contents))
    ∙ is_listed-matching_namespaces ns op.match_conditions (namespaces_of contents)
    ∙ rw (is_listed-namespaces_of ns contents))

-- A namespace is listed after a batch, where no depth is given and before the list is cut to a page,
-- exactly if it matches the conditions and was in the store before or is named by a put, a deletion or
-- a `get` of the batch: so a `get` of an item that is not there brings its namespace in, and a
-- deletion does not take it out.
pub all_listed-batch :
    (floats : Floats) (now : ℕ → String) (ops : List Op) (s : InMemoryStore) (op : ListNamespacesOp)
    (ns : Namespace)
    → op.max_depth ≡ none
    → is_ok (batch floats now ops s).0 ≡ true
    → is_listed ns (all_listed op (batch floats now ops s).1.contents) ≡ (
        all (λ (c : MatchCondition). does_match c ns) op.match_conditions
        && (any (λ o. names ns o) ops || is_known ns s.contents))
all_listed-batch floats now ops s op ns h k =
    is_listed-all_listed op ns (batch floats now ops s).1.contents h
    ∙ ap (λ b. all_match op.match_conditions ns && b) (batch-names floats now ops s ns k)

module _ (floats : Floats) (now : ℕ → String) where
  get_item-value_at :
      (ns : Namespace) (key : String) (s : InMemoryStore)
      → (o : Option Item) × ((get_item floats now ns key s).0 ≡ ok (item o))
        × (value_of o ≡ value_at ns key s.contents)
  unfolding get_item batch_one batch prepare_ops prepare_op value_at
  get_item-value_at ns key s = (Dict.get key (items_of ns s.contents), refl, refl)

  put_one :
      (n m : Namespace) (k j : String) (v : Dict Value) (s : InMemoryStore)
      → value_at m j (put_valid floats now n k v (ok tt) s).1.contents
        ≡ (if place_eq (n, k) (m, j) then some v else value_at m j s.contents)
  unfolding batch prepare_ops prepare_op
  put_one n m k j v s = (batch-after_ops floats now (put_op n k (some v) ∷ []) s m j).0

  put_item-value_at :
      (n m : Namespace) (k j : String) (v : Dict Value) (s : InMemoryStore)
      → validate_namespace n ≡ ok tt
      → value_at m j (put_item floats now n k v s).1.contents
        ≡ (if place_eq (n, k) (m, j) then some v else value_at m j s.contents)
  unfolding put_item
  put_item-value_at n m k j v s h = rw h (put_one n m k j v s)

-- A `get` after a `put` into a valid namespace gives an item with the value that was put, where it is
-- for the same key of the same namespace, and else an item with the value that it gave before, or none
-- if it gave none.
pub get_item-put_item :
    (floats : Floats) (now : ℕ → String) (ns other : Namespace) (key k : String)
    (value : Dict Value) (s : InMemoryStore)
    → validate_namespace ns ≡ ok tt
    → (o old : Option Item) × ((get_item floats now other k
          (put_item floats now ns key value s).1).0
        ≡ ok (item o))
      × ((get_item floats now other k s).0 ≡ ok (item old))
      × (value_of o ≡ (if place_eq (ns, key) (other, k) then some value else value_of old))
get_item-put_item floats now ns other key k value s h =
    let (o, e, p) = get_item-value_at floats now other k (put_item floats now ns key value s).1 in
    let (old, f, q) = get_item-value_at floats now other k s in
    (
      o,
      old,
      e,
      f,
      p
          ∙ put_item-value_at floats now ns other key k value s h
          ∙ ap (λ v. if place_eq (ns, key) (other, k) then some value else v) (sym q),
    )
