-- ===== src/Store/BaseStore.antt =====
-- The methods of `BaseStore` (libs/checkpoint/langgraph/store/base/__init__.py) on an `InMemoryStore`.
-- An operation on a TTL raises for this store, and what is left of it has no effect.
use langgraph_study.Prelude.{ℕ, String, Option, none, some, List, [], ◌∷◌, ◌++◌}
use langgraph_study.Method.{Result, ok, err, Method, and_then, index_error}
use langgraph_study.Values.{Value}
use langgraph_study.Dict.{Dict}
use langgraph_study.Store.Namespaces.{Namespace, MatchCondition, prefix, suffix, validate_namespace}
use langgraph_study.Store.Filter.{Floats}
use langgraph_study.Store.InMemoryStore.{
  InMemoryStore, Op, OpResult, get_op, put_op, search_op, list_namespaces_op, SearchOp, batch,
}

-- `[0]`
abbrev pub head_result : List OpResult → Result OpResult
head_result [] = err index_error
head_result (r ∷ rs) = ok r

-- The conditions of a prefix and of a suffix that are not empty
abbrev pub prefix_conditions : Namespace → List MatchCondition
prefix_conditions [] = []
prefix_conditions path = record { match_type = prefix; path = path } ∷ []

abbrev pub suffix_conditions : Namespace → List MatchCondition
suffix_conditions [] = []
suffix_conditions path = record { match_type = suffix; path = path } ∷ []

module _ (floats : Floats) (now : ℕ → String) where
  unfoldable pub batch_one : Op → Method InMemoryStore OpResult
  batch_one op s = and_then (batch floats now (op ∷ []) s) (λ results s'. (head_result results, s'))

  unfoldable pub get_item : Namespace → String → Method InMemoryStore OpResult
  unfolding batch_one
  get_item ns key = batch_one (get_op ns key)

  unfoldable pub search : SearchOp → Method InMemoryStore OpResult
  unfolding batch_one
  search op = batch_one (search_op op)

  abbrev pub put_valid :
      Namespace → String → Dict Value → Result (Unit {0}) → Method InMemoryStore (Unit {0})
  put_valid ns key value (err e) s = (err e, s)
  put_valid ns key value (ok _) s =
      and_then (batch floats now (put_op ns key (some value) ∷ []) s) (λ results s'. (ok tt, s'))

  -- `put`, for a `ttl` that is not given or None
  unfoldable pub put_item : Namespace → String → Dict Value → Method InMemoryStore (Unit {0})
  put_item ns key value s = put_valid ns key value (validate_namespace ns) s

  unfoldable pub delete_item : Namespace → String → Method InMemoryStore (Unit {0})
  delete_item ns key s =
      and_then (batch floats now (put_op ns key none ∷ []) s) (λ results s'. (ok tt, s'))

  unfoldable pub list_namespaces :
      Namespace → Namespace → Option ℕ → ℕ → ℕ → Method InMemoryStore OpResult
  unfolding batch_one
  list_namespaces start end max_depth limit offset = batch_one (
      list_namespaces_op (record {
        match_conditions = prefix_conditions start ++ suffix_conditions end;
        max_depth = max_depth;
        limit = limit;
        offset = offset;
      }))
