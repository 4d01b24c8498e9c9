-- ===== src/Checkpointer/Listing.antt =====
-- `list` of `InMemorySaver` (libs/checkpoint/langgraph/checkpoint/memory/__init__.py), for a caller
-- that takes all the tuples of the generator before it changes the saver.
use langgraph_study.Prelude.{
  ℕ, zero, suc, String, Bool, true, false, ◌&&◌, not, Option, none, some, List, [], ◌∷◌, ◌++◌,
  str_eq, if◌then◌else◌,
}
use langgraph_study.Values.{Value, null, value_eq}
use langgraph_study.Dict.{Dict, get_or}
use langgraph_study.Pregel.Task.{codes, str_leb}
use langgraph_study.Checkpointer.Serde.{Serde}
use langgraph_study.Checkpointer.Metadata.{Config, truthy}
use langgraph_study.Checkpointer.InMemorySaver.{
  CheckpointTuple, InMemorySaver, Saved, load_tuple, config_of,
}

-- The arguments `filter`, `before` and `limit`. A limit below zero is as good as zero, and an empty
-- filter as none.
pub record Query : Type 0 where
  pub filter : Dict Value
  pub before : Option Config
  pub limit : Option ℕ

-- `not config_checkpoint_id or checkpoint_id == config_checkpoint_id`
abbrev pub is_wanted : Option String → String → Bool
is_wanted none checkpoint_id = true
is_wanted (some wanted) checkpoint_id = str_eq checkpoint_id wanted

-- Whether the checkpoint comes before the one of the config, if it names one.
abbrev pub is_before : Option Config → String → Bool
is_before none checkpoint_id = true
is_before (some before) checkpoint_id = elim (truthy before.checkpoint_id) [
  | none ↦ true
  | some before_id ↦ not (str_leb (codes before_id) (codes checkpoint_id))
]

-- `all(query_value == metadata.get(query_key) for ...)`
unfoldable pub has_metadata : Dict Value → Dict Value → Bool
has_metadata metadata [] = true
has_metadata metadata ((query_key, query_value) ∷ filter) =
    value_eq query_value (get_or query_key metadata null) && has_metadata metadata filter

-- What the limit lets through: nothing, or one tuple and then the limit that is left.
abbrev pub use_limit : Option ℕ → Option (Option ℕ)
use_limit none = some none
use_limit (some zero) = none
use_limit (some (suc n)) = some (some n)

-- `checkpoint_ns` where the config names one
abbrev pub is_namespace : Option String → String → Bool
is_namespace none ns = true
is_namespace (some wanted) ns = str_eq ns wanted

module _ (serde : Serde) where
  -- `sorted(..., key=lambda x: x[0], reverse=True)`
  unfoldable pub insert_saved : String × Saved serde → Dict (Saved serde) → Dict (Saved serde)
  insert_saved entry [] = entry ∷ []
  insert_saved entry (e ∷ entries) =
      if str_leb (codes e.0) (codes entry.0)
      then entry ∷ e ∷ entries
      else e ∷ insert_saved entry entries

  unfoldable pub sort_saved : Dict (Saved serde) → Dict (Saved serde)
  sort_saved [] = []
  sort_saved (entry ∷ entries) = insert_saved entry (sort_saved entries)

  unfoldable pub is_listed : Option String → Query → String → Saved serde → Bool
  is_listed wanted query checkpoint_id saved =
      is_wanted wanted checkpoint_id
      && is_before query.before checkpoint_id
      && has_metadata (serde.loads_metadata saved.metadata) query.filter

  -- The tuples of a namespace, and the limit that is left; the loop breaks when there is none.
  unfoldable pub list_entries :
      InMemorySaver serde
      → Option String
      → Query
      → String
      → String
      → Option ℕ
      → Dict (Saved serde)
      → List CheckpointTuple × Option ℕ
  list_entries self wanted query thread_id ns limit [] = ([], limit)
  list_entries self wanted query thread_id ns limit ((id, saved) ∷ entries) =
      elim (is_listed wanted query id saved) [
        | false ↦ list_entries self wanted query thread_id ns limit entries
        | true ↦ elim (use_limit limit) [
          | none ↦ ([], limit)
          | some left ↦
              let (tuples, rest) = list_entries self wanted query thread_id ns left entries in
              (
                load_tuple serde self (config_of thread_id ns id) thread_id ns id saved ∷ tuples,
                rest,
              )
        ]
      ]

  unfoldable pub list_namespaces :
      InMemorySaver serde
      → Option String
      → Option String
      → Query
      → String
      → Option ℕ
      → Dict (Dict (Saved serde))
      → List CheckpointTuple × Option ℕ
  list_namespaces self config_ns wanted query thread_id limit [] = ([], limit)
  list_namespaces self config_ns wanted query thread_id limit ((ns, checkpoints) ∷ namespaces) =
      elim (is_namespace config_ns ns) [
        | false ↦ list_namespaces self config_ns wanted query thread_id limit namespaces
        | true ↦
            let (tuples, left) =
              list_entries self wanted query thread_id ns limit (sort_saved checkpoints) in
            let (more, rest) =
              list_namespaces self config_ns wanted query thread_id left namespaces in
            (tuples ++ more, rest)
      ]

  unfoldable pub list_threads :
      InMemorySaver serde
      → Query
      → Option ℕ
      → Dict (Dict (Dict (Saved serde)))
      → List CheckpointTuple × Option ℕ
  list_threads self query limit [] = ([], limit)
  list_threads self query limit ((thread_id, namespaces) ∷ threads) =
      let (tuples, left) = list_namespaces self none none query thread_id limit namespaces in
      let (more, rest) = list_threads self query left threads in (tuples ++ more, rest)

  unfoldable pub list_checkpoints :
      InMemorySaver serde → Option Config → Query → List CheckpointTuple
  list_checkpoints self none query = (list_threads self query query.limit self.storage).0
  list_checkpoints self (some config) query =
      (list_namespaces self config.checkpoint_ns (truthy config.checkpoint_id) query
        config.thread_id query.limit (get_or config.thread_id self.storage [])).0
