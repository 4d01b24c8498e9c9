-- ===== src/Checkpointer/Listed.antt =====
-- What `list` of `InMemorySaver` gives (libs/checkpoint/langgraph/checkpoint/memory/__init__.py).
use langgraph_study.Prelude.{
  ℕ, zero, suc, ◌+◌, ◌≤◌, String, ◌≡◌, refl, ◌∙◌, Option, none, some, List, [], ◌∷◌, ◌++◌, length,
  length-append, arith, Bool-cases, inl, inr,
}
use langgraph_study.Dict.{Dict, get_or}
use langgraph_study.Checkpointer.Serde.{Serde}
use langgraph_study.Checkpointer.Metadata.{Config, truthy}
use langgraph_study.Checkpointer.InMemorySaver.{
  CheckpointTuple, InMemorySaver, Saved, load_tuple, config_of,
}
use langgraph_study.Checkpointer.Listing.{
  Query, use_limit, is_listed, is_namespace, sort_saved, list_entries, list_namespaces,
  list_threads, list_checkpoints,
}

-- What came out and what is left of the limit, together.
pub total : List CheckpointTuple × Option ℕ → Option ℕ
total (tuples, none) = none
total (tuples, some left) = some (length tuples + left)

total-cons :
    (t : CheckpointTuple) (n : ℕ) (r : List CheckpointTuple × Option ℕ)
    → total r ≡ some n
    → total (t ∷ r.0, r.1) ≡ some (suc n)
unfolding total
total-cons t n (tuples, none) h = cc
total-cons t n (tuples, some left) h = ground arith

total-cons_none :
    (t : CheckpointTuple) (r : List CheckpointTuple × Option ℕ)
    → total r ≡ none
    → total (t ∷ r.0, r.1) ≡ none
unfolding total
total-cons_none t (tuples, none) h = refl
total-cons_none t (tuples, some left) h = cc

total-append :
    (limit left : Option ℕ) (tuples : List CheckpointTuple) (r : List CheckpointTuple × Option ℕ)
    → total (tuples, left) ≡ limit
    → total r ≡ left
    → total (tuples ++ r.0, r.1) ≡ limit
unfolding total
total-append limit none tuples (more, none) h g = h
total-append limit none tuples (more, some k) h g = cc
total-append limit (some n) tuples (more, none) h g = cc
total-append limit (some n) tuples (more, some k) h g = ground (arith, length-append tuples more)

total-nil : (limit : Option ℕ) → total ([], limit) ≡ limit
unfolding total
total-nil none = refl
total-nil (some n) = ground arith

-- One step of the loop: it breaks, or goes on with what is left.
abbrev pub step :
    CheckpointTuple
    → (Option ℕ → List CheckpointTuple × Option ℕ)
    → Option ℕ
    → List CheckpointTuple × Option ℕ
step t rest limit = elim (use_limit limit) [
  | none ↦ ([], limit)
  | some left ↦ (t ∷ (rest left).0, (rest left).1)
]

total-step :
    (t : CheckpointTuple) (rest : Option ℕ → List CheckpointTuple × Option ℕ) (limit : Option ℕ)
    → ((o : Option ℕ) → total (rest o) ≡ o)
    → total (step t rest limit) ≡ limit
total-step t rest none g = total-cons_none t (rest none) (g none)
total-step t rest (some zero) g = unfold total in refl
total-step t rest (some (suc n)) g = total-cons t n (rest (some n)) (g (some n))

module _ (serde : Serde) (self : InMemorySaver serde) where
  list_entries-total :
      (wanted : Option String) (query : Query) (thread_id ns : String) (limit : Option ℕ)
      (entries : Dict (Saved serde))
      → total (list_entries serde self wanted query thread_id ns limit entries) ≡ limit
  unfolding list_entries
  list_entries-total wanted query thread_id ns limit [] = total-nil limit
  list_entries-total wanted query thread_id ns limit ((id, saved) ∷ entries) =
      let ih = λ (o : Option ℕ). list_entries-total wanted query thread_id ns o entries in
      elim (Bool-cases (is_listed serde wanted query id saved)) [
        | inl e ↦
            rw (list_entries, e)
              (total-step (load_tuple serde self (config_of thread_id ns id) thread_id ns id saved)
                (λ o. list_entries serde self wanted query thread_id ns o entries) limit ih)
        | inr e ↦ rw (list_entries, e) (ih limit)
      ]

  list_namespaces-total :
      (config_ns wanted : Option String) (query : Query) (thread_id : String) (limit : Option ℕ)
      (namespaces : Dict (Dict (Saved serde)))
      → total (list_namespaces serde self config_ns wanted query thread_id limit namespaces) ≡ limit
  unfolding list_namespaces
  list_namespaces-total config_ns wanted query thread_id limit [] = total-nil limit
  list_namespaces-total config_ns wanted query thread_id limit ((ns, checkpoints) ∷ namespaces) =
      let here =
        list_entries serde self wanted query thread_id ns limit (sort_saved serde checkpoints) in
      elim (Bool-cases (is_namespace config_ns ns)) [
        | inl e ↦
            rw (list_namespaces, e)
              (total-append limit here.1 here.0
                (list_namespaces serde self config_ns wanted query thread_id here.1 namespaces)
                (list_entries-total wanted query thread_id ns limit (sort_saved serde checkpoints))
                (list_namespaces-total config_ns wanted query thread_id here.1 namespaces))
        | inr e ↦
            rw (list_namespaces, e)
              (list_namespaces-total config_ns wanted query thread_id limit namespaces)
      ]

  list_threads-total :
      (query : Query) (limit : Option ℕ) (threads : Dict (Dict (Dict (Saved serde))))
      → total (list_threads serde self query limit threads) ≡ limit
  unfolding list_threads
  list_threads-total query limit [] = total-nil limit
  list_threads-total query limit ((thread_id, namespaces) ∷ threads) =
      let here = list_namespaces serde self none none query thread_id limit namespaces in
      total-append limit here.1 here.0 (list_threads serde self query here.1 threads)
        (list_namespaces-total none none query thread_id limit namespaces)
        (list_threads-total query here.1 threads)

  length-total : (n : ℕ) (r : List CheckpointTuple × Option ℕ) → total r ≡ some n → length r.0 ≤ n
  unfolding total
  length-total n (tuples, none) h = cc
  length-total n (tuples, some k) h = ground arith

  -- `list` never gives more tuples than its limit, over all namespaces and all threads together.
  pub length-list_checkpoints :
      (config : Option Config) (query : Query) (n : ℕ)
      → query.limit ≡ some n
      → length (list_checkpoints serde self config query) ≤ n
  unfolding list_checkpoints
  length-list_checkpoints none query n e =
      length-total n (list_threads serde self query query.limit self.storage)
        (list_threads-total query query.limit self.storage ∙ e)
  length-list_checkpoints (some config) query n e =
      length-total n
        (list_namespaces serde self config.checkpoint_ns (truthy config.checkpoint_id) query
          config.thread_id query.limit (get_or config.thread_id self.storage []))
        (list_namespaces-total config.checkpoint_ns (truthy config.checkpoint_id) query
            config.thread_id query.limit (get_or config.thread_id self.storage [])
          ∙ e)
