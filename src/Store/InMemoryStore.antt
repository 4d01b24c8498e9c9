-- ===== src/Store/InMemoryStore.antt =====
-- `InMemoryStore` (libs/checkpoint/langgraph/store/memory/__init__.py) without an index, so that
-- queries have no effect. Its `_data` is a `defaultdict`: a namespace that is looked up comes in.
use langgraph_study.Prelude.{
  ℕ, zero, suc, ◌+◌, String, Option, none, some, List, [], ◌∷◌, ◌++◌, map, all, drop, if◌then◌else◌,
}
use langgraph_study.Method.{Result, ok, err, Method, and_then, ◌>>=◌}
use langgraph_study.Values.{Value}
use langgraph_study.Dict
use langgraph_study.Dict.{Dict}
use langgraph_study.Table.{get, put}
use langgraph_study.Store.Namespaces.{
  Namespace, namespace, place, MatchCondition, does_match, has_prefix, sort_namespaces,
  distinct_namespaces, take,
}
use langgraph_study.Store.Filter.{Floats, filter_func}

pub record Item : Type 0 where
  pub value : Dict Value
  pub key : String
  pub namespace : Namespace
  pub created_at : String
  pub updated_at : String

-- A filter that is None is as good as an empty one. The query, which has no effect, and what is for
-- stores with a TTL or an index are left out.
pub record SearchOp : Type 0 where
  pub namespace_prefix : Namespace
  pub filter : Dict Value
  pub limit : ℕ
  pub offset : ℕ

pub record ListNamespacesOp : Type 0 where
  pub match_conditions : List MatchCondition
  pub max_depth : Option ℕ
  pub limit : ℕ
  pub offset : ℕ

pub data Op : Type 0 where
  get_op : Namespace → String → Op
  search_op : SearchOp → Op
  list_namespaces_op : ListNamespacesOp → Op
  put_op : Namespace → String → Option (Dict Value) → Op

pub data OpResult : Type 0 where
  item : Option Item → OpResult
  items : List Item → OpResult
  namespaces : List Namespace → OpResult
  nothing : OpResult

abbrev pub Data : Type 0
Data = List (Namespace × Dict Item)

abbrev pub PutOps : Type 0
PutOps = List ((Namespace × String) × Option (Dict Value))

-- With how often the clock was read.
pub record InMemoryStore : Type 0 where
  pub contents : Data
  pub clock_reads : ℕ

abbrev pub new : InMemoryStore
new = record { contents = []; clock_reads = 0 }

-- `self._data[namespace]`
abbrev pub items_of : Namespace → Data → Dict Item
items_of ns contents = elim (get ns contents) [ none ↦ [] | some found ↦ found ]

-- What that leaves: an empty dict where there was none.
unfoldable pub touch : Namespace → Data → Data
touch ns contents = put ns (items_of ns contents) contents

-- `xs[offset : offset + limit]`
module _ {ℓ} {A : Type ℓ} where
  abbrev pub first_of : ℕ → List A → List A
  first_of zero xs = []
  first_of (suc n) [] = []
  first_of (suc n) (x ∷ xs) = x ∷ first_of n xs

  abbrev pub page : ℕ → ℕ → List A → List A
  page offset limit xs = first_of limit (drop offset xs)

module _ (floats : Floats) where
  -- The items of one namespace that pass the filter.
  unfoldable pub filter_namespace : Dict Value → Dict Item → Result (List Item)
  filter_namespace filter [] = ok []
  filter_namespace filter ((key, found) ∷ rest) = do
    passes ← filter_func floats found.value filter
    more ← filter_namespace filter rest
    ok (if passes then found ∷ more else more)

  -- `_filter_items`
  unfoldable pub filter_items : SearchOp → Data → Result (List Item)
  unfolding filter_namespace
  filter_items op [] = ok []
  filter_items op ((ns, found) ∷ contents) =
      let rest = filter_items op contents in
      if has_prefix op.namespace_prefix ns
      then (filter_namespace op.filter found >>= λ these. rest >>= λ more. ok (these ++ more))
      else rest

-- The namespaces that are listed, before they are cut to a page.
unfoldable pub matching_namespaces : List MatchCondition → List Namespace → List Namespace
matching_namespaces conditions [] = []
matching_namespaces conditions (ns ∷ more) =
    let rest = matching_namespaces conditions more in
    if all (λ (c : MatchCondition). does_match c ns) conditions then ns ∷ rest else rest

abbrev pub namespaces_of : Data → List Namespace
namespaces_of [] = []
namespaces_of ((ns, found) ∷ contents) = ns ∷ namespaces_of contents

unfoldable pub all_listed : ListNamespacesOp → Data → List Namespace
unfolding matching_namespaces
all_listed op contents =
    let matching = matching_namespaces op.match_conditions (namespaces_of contents) in
    elim op.max_depth [
      | none ↦ sort_namespaces matching
      | some depth ↦ sort_namespaces (distinct_namespaces (map (λ ns. take depth ns) matching))
    ]

-- `_handle_list_namespaces`
unfoldable pub handle_list_namespaces : ListNamespacesOp → Data → List Namespace
handle_list_namespaces op contents = page op.offset op.limit (all_listed op contents)

-- The store, and the put operations so far
pub record Preparing : Type 0 where
  pub store : InMemoryStore
  pub put_ops : PutOps

-- The page of a search, which nothing of the batch changes any more. An error ends it.
abbrev pub search_page : SearchOp → Preparing → Result (List Item) → Result OpResult × Preparing
search_page op p (err e) = (err e, p)
search_page op p (ok found) = (ok (items (page op.offset op.limit found)), p)

module _ (floats : Floats) where
  -- One round of the loop of `_prepare_ops`, with `_batch_search`
  unfoldable pub prepare_op : Op → Method Preparing OpResult
  unfolding touch
  prepare_op (get_op ns key) p = (
    ok (item (Dict.get key (items_of ns p.store.contents))),
    record p { store = record p.store { contents = touch ns p.store.contents } },
  )
  prepare_op (search_op op) p = search_page op p (filter_items floats op p.store.contents)
  prepare_op (list_namespaces_op op) p =
      (ok (namespaces (handle_list_namespaces op p.store.contents)), p)
  prepare_op (put_op ns key value) p =
      (ok nothing, record p { put_ops = put (ns, key) value p.put_ops })

  unfoldable pub prepare_ops : List Op → Method Preparing (List OpResult)
  prepare_ops [] p = (ok [], p)
  prepare_ops (op ∷ ops) p =
      and_then (prepare_op op p)
        (λ r p'. and_then (prepare_ops ops p') (λ rs p''. (ok (r ∷ rs), p'')))

module _ (now : ℕ → String) where
  unfoldable pub apply_put_op :
      Namespace → String → Option (Dict Value) → InMemoryStore → InMemoryStore
  apply_put_op ns key none s = record s {
    contents = put ns (Dict.remove key (items_of ns s.contents)) s.contents;
  }
  apply_put_op ns key (some value) s = record {
    contents =
        put ns
          (Dict.put key
            (record {
              value = value;
              key = key;
              namespace = ns;
              created_at = now s.clock_reads;
              updated_at = now (s.clock_reads + 1);
            })
            (items_of ns s.contents))
          s.contents;
    clock_reads = s.clock_reads + 2;
  }

  -- `_apply_put_ops`
  unfoldable pub apply_put_ops : PutOps → InMemoryStore → InMemoryStore
  unfolding apply_put_op
  apply_put_ops [] s = s
  apply_put_ops (((ns, key), value) ∷ puts) s = apply_put_ops puts (apply_put_op ns key value s)

module _ (floats : Floats) (now : ℕ → String) where
  abbrev pub end_batch : Result (List OpResult) × Preparing → Result (List OpResult) × InMemoryStore
  end_batch (err e, p) = (err e, p.store)
  end_batch (ok results, p) = (ok results, apply_put_ops now p.put_ops p.store)

  unfoldable pub batch : List Op → Method InMemoryStore (List OpResult)
  batch ops s = end_batch (prepare_ops floats ops (record { store = s; put_ops = [] }))
