-- ===== src/Store/Samples.antt =====
-- A small store, with floats that are numbers.
use langgraph_study.Prelude.{
  ℕ, String, true, ◌≡◌, refl, Option, none, some, List, [], ◌∷◌, ltb, leb,
}
use langgraph_study.Method.{Result, ok, err, type_error}
use langgraph_study.Values.{Value, num, dict, field, Fields.end}
use langgraph_study.Dict
use langgraph_study.Dict.{Dict}
use langgraph_study.Table
use langgraph_study.Store.Namespaces.{
  Namespace, prefix, does_match, labels_match, is_listed, validate_namespace,
}
use langgraph_study.Store.Filter.{
  Floats, filter_func, compare_values, apply_operators, apply_operator,
}
use langgraph_study.Store.InMemoryStore.{
  nothing, InMemoryStore, SearchOp, items, filter_items, filter_namespace, Item, Op, new, item,
  get_op, put_op, ListNamespacesOp, all_listed, matching_namespaces, batch, prepare_ops, prepare_op,
  apply_put_ops, apply_put_op, touch,
}
use langgraph_study.Store.BaseStore.{get_item, put_item, search, batch_one}
use langgraph_study.Store.Places.{value_at, value_of}
use langgraph_study.Store.Answers.{AnswersOrRaises}
use langgraph_study.Store.Batches.{batch-after_ops}
use langgraph_study.Store.Searching.{search-Searched, Searched}
use langgraph_study.Store.Listed.{all_listed-batch, get_item-put_item}

abbrev float_of : Value → Result ℕ
float_of (num n) = ok n
float_of v = err type_error

abbrev numbers : Floats
numbers = record {
  Float = ℕ;
  float = float_of;
  greater = λ a b. ltb b a;
  greater_eq = λ a b. leb b a;
}

abbrev now : ℕ → String
now n = "now"

abbrev users : Namespace
users = "users" ∷ []

abbrev theme : ℕ → Dict Value
theme n = ("theme", num n) ∷ []

program : Unit {0}
unfolding batch prepare_ops prepare_op apply_put_ops apply_put_op touch Table.get Table.put value_at
    validate_namespace is_listed all_listed matching_namespaces does_match labels_match
program = tt

-- Two puts for one place in a batch, and a `get` between them.
abbrev twice : List Op
twice =
    put_op users "a" (some (theme 1)) ∷ get_op users "a" ∷ put_op users "a" (some (theme 2)) ∷ []

batch-after_ops_example :
    (value_at users "a" (batch numbers now twice new).1.contents ≡ some (theme 2))
    × AnswersOrRaises new twice (ok (nothing ∷ item none ∷ nothing ∷ []))
unfolding program Dict.get
batch-after_ops_example = batch-after_ops numbers now twice new users "a"

abbrev lookup : List Op
lookup = get_op ("ghost" ∷ []) "k" ∷ []

abbrev all_of : ListNamespacesOp
all_of = record {
  match_conditions = record { match_type = prefix; path = "*" ∷ [] } ∷ [];
  max_depth = none;
  limit = 100;
  offset = 0;
}

-- What a `get` has brought in is listed.
all_listed-batch_example :
    is_listed ("ghost" ∷ []) (all_listed all_of (batch numbers now lookup new).1.contents) ≡ true
unfolding program
all_listed-batch_example = all_listed-batch numbers now lookup new all_of ("ghost" ∷ []) refl refl

get_item-put_item_example :
    (o old : Option Item) × ((get_item numbers now users "a"
        (put_item numbers now users "a" (theme 1) new).1).0
      ≡ ok (item o))
    × ((get_item numbers now users "a" new).0 ≡ ok (item old))
    × (value_of o ≡ some (theme 1))
unfolding program
get_item-put_item_example = get_item-put_item numbers now users users "a" "a" (theme 1) new refl

abbrev stored : String → ℕ → Item
stored key n = record {
  value = theme n;
  key = key;
  namespace = users;
  created_at = "now";
  updated_at = "now";
}

abbrev filled : InMemoryStore
filled = record {
  contents = (users, ("a", stored "a" 1) ∷ ("b", stored "b" 2) ∷ []) ∷ [];
  clock_reads = 4;
}

-- The items whose theme is above 1
abbrev above_one : SearchOp
above_one = record {
  namespace_prefix = users;
  filter = ("theme", dict (field "$gt" (num 1) end)) ∷ [];
  limit = 1;
  offset = 0;
}

search-Searched_example : Searched numbers above_one filled (ok (items (stored "b" 2 ∷ [])), filled)
unfolding program Dict.get batch_one search filter_items filter_namespace filter_func compare_values
    apply_operators apply_operator
search-Searched_example = search-Searched numbers now above_one filled
