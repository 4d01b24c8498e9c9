-- ===== src/Checkpointer/Found.antt =====
-- `list` against `get_tuple` of `InMemorySaver`
-- (libs/checkpoint/langgraph/checkpoint/memory/__init__.py).
use langgraph_study.Prelude.{
  ℕ, String, ◌≡◌, ap, false, Option, none, some, List, [], ◌∷◌, ◌++◌, str_eq, Bool-cases,
  Option-cases, inl, inr,
}
use langgraph_study.Dict.{Dict, get, get_or, get-head, get-tail}
use langgraph_study.Pregel.Task.{codes, str_leb}
use langgraph_study.Pregel.Saved.{HasDistinctKeys}
use langgraph_study.Checkpointer.Serde.{Serde}
use langgraph_study.Checkpointer.Metadata.{Config, truthy}
use langgraph_study.Checkpointer.InMemorySaver.{
  CheckpointTuple, InMemorySaver, Saved, load_tuple, config_of, get_tuple, checkpoints_of,
}
use langgraph_study.Checkpointer.Listing.{
  Query, use_limit, is_listed, is_namespace, insert_saved, sort_saved, list_entries,
  list_namespaces, list_checkpoints,
}
use langgraph_study.Checkpointer.Storing.{get_tuple-given}

-- Each item of the second dict is what the first has under its key.
abbrev pub Holds {ℓ} : {V : Type ℓ} → Dict V → Dict V → Type ℓ
Holds d [] = Unit
Holds d ((k, v) ∷ items) = (get k d ≡ some v) × Holds d items

Holds-distinct {ℓ} :
    {V : Type ℓ} (d items : Dict V)
    → ((k : String) (v : V) → get k items ≡ some v → get k d ≡ some v)
    → HasDistinctKeys items
    → Holds d items
Holds-distinct d [] f h = tt
Holds-distinct d ((k, v) ∷ items) f h = (
  f k v (get-head k v items),
  Holds-distinct d items (λ j w e. f j w (get-tail k j v w items h.0 e)) h.1,
)

module _ (serde : Serde) where
  -- A namespace has no id twice, and no empty id.
  abbrev pub HasNames : Dict (Saved serde) → Type 0
  HasNames [] = Unit
  HasNames ((id, saved) ∷ entries) = (str_eq id "" ≡ false) × HasNames entries

  -- What a thread holds: each namespace once, and in it each id once, none of them empty.
  abbrev pub IsKept : Dict (Dict (Saved serde)) → Type 0
  IsKept [] = Unit
  IsKept ((ns, checkpoints) ∷ namespaces) =
      HasDistinctKeys checkpoints × HasNames checkpoints × IsKept namespaces

  Holds-insert_saved :
      (d entries : Dict (Saved serde)) (id : String) (saved : Saved serde)
      → get id d ≡ some saved
      → Holds d entries
      → Holds d (insert_saved serde (id, saved) entries)
  unfolding insert_saved
  Holds-insert_saved d [] id saved e h = (e, tt)
  Holds-insert_saved d ((j, s) ∷ entries) id saved e h =
      elim (Bool-cases (str_leb (codes j) (codes id))) [
        | inl p ↦ rw (insert_saved, p) (e, h)
        | inr p ↦ rw (insert_saved, p) (h.0, Holds-insert_saved d entries id saved e h.1)
      ]

  Holds-sort_saved :
      (d entries : Dict (Saved serde)) → Holds d entries → Holds d (sort_saved serde entries)
  unfolding sort_saved
  Holds-sort_saved d [] h = tt
  Holds-sort_saved d ((id, saved) ∷ entries) h =
      Holds-insert_saved d (sort_saved serde entries) id saved h.0 (Holds-sort_saved d entries h.1)

  HasNames-insert_saved :
      (entries : Dict (Saved serde)) (id : String) (saved : Saved serde)
      → str_eq id "" ≡ false
      → HasNames entries
      → HasNames (insert_saved serde (id, saved) entries)
  unfolding insert_saved
  HasNames-insert_saved [] id saved e h = (e, tt)
  HasNames-insert_saved ((j, s) ∷ entries) id saved e h =
      elim (Bool-cases (str_leb (codes j) (codes id))) [
        | inl p ↦ rw (insert_saved, p) (e, h)
        | inr p ↦ rw (insert_saved, p) (h.0, HasNames-insert_saved entries id saved e h.1)
      ]

  HasNames-sort_saved :
      (entries : Dict (Saved serde)) → HasNames entries → HasNames (sort_saved serde entries)
  unfolding sort_saved
  HasNames-sort_saved [] h = tt
  HasNames-sort_saved ((id, saved) ∷ entries) h =
      HasNames-insert_saved (sort_saved serde entries) id saved h.0
        (HasNames-sort_saved entries h.1)

  module _ (self : InMemorySaver serde) where
    -- `get_tuple` of the config of each tuple gives the tuple.
    abbrev pub AllFound : List CheckpointTuple → Type 0
    AllFound [] = Unit
    AllFound (t ∷ tuples) = (get_tuple serde self t.config ≡ some t) × AllFound tuples

    AllFound-append :
        (ts us : List CheckpointTuple) → AllFound ts → AllFound us → AllFound (ts ++ us)
    AllFound-append [] us h g = g
    AllFound-append (t ∷ ts) us h g = (h.0, AllFound-append ts us h.1 g)

    found :
        (thread_id ns id : String) (saved : Saved serde)
        → str_eq id "" ≡ false
        → get id (checkpoints_of serde self thread_id ns) ≡ some saved
        → get_tuple serde self
            (load_tuple serde self (config_of thread_id ns id) thread_id ns id saved).config
          ≡ some (load_tuple serde self (config_of thread_id ns id) thread_id ns id saved)
    unfolding load_tuple
    found thread_id ns id saved named e = get_tuple-given serde self thread_id ns id saved named e

    list_entries-AllFound :
        (wanted : Option String) (query : Query) (thread_id ns : String) (limit : Option ℕ)
        (entries : Dict (Saved serde))
        → Holds (checkpoints_of serde self thread_id ns) entries
        → HasNames entries
        → AllFound (list_entries serde self wanted query thread_id ns limit entries).0
    unfolding list_entries
    list_entries-AllFound wanted query thread_id ns limit [] h g = tt
    list_entries-AllFound wanted query thread_id ns limit ((id, saved) ∷ entries) h g =
        let ih =
          λ (o : Option ℕ). list_entries-AllFound wanted query thread_id ns o entries h.1 g.1 in
        elim (Bool-cases (is_listed serde wanted query id saved)) [
          | inl e ↦ elim (Option-cases (use_limit limit)) [
            | inl f ↦ rw (list_entries, e, f) tt
            | inr (left, f) ↦ rw (list_entries, e, f) (found thread_id ns id saved g.0 h.0, ih left)
          ]
          | inr e ↦ rw (list_entries, e) (ih limit)
        ]

    list_namespaces-AllFound :
        (config_ns wanted : Option String) (query : Query) (thread_id : String) (limit : Option ℕ)
        (namespaces : Dict (Dict (Saved serde)))
        → Holds (get_or thread_id self.storage []) namespaces
        → IsKept namespaces
        → AllFound (list_namespaces serde self config_ns wanted query thread_id limit namespaces).0
    unfolding list_namespaces
    list_namespaces-AllFound config_ns wanted query thread_id limit [] h g = tt
    list_namespaces-AllFound config_ns wanted query thread_id limit ((ns, checkpoints) ∷ namespaces)
          h g =
        let here =
          list_entries serde self wanted query thread_id ns limit (sort_saved serde checkpoints) in
        let there : checkpoints_of serde self thread_id ns ≡ checkpoints =
          unfold checkpoints_of in
          ap (λ (o : Option (Dict (Saved serde))). elim o [ none ↦ [] | some d ↦ d ]) h.0 in
        elim (Bool-cases (is_namespace config_ns ns)) [
          | inl e ↦
              rw (list_namespaces, e)
                (AllFound-append here.0
                  (list_namespaces serde self config_ns wanted query thread_id here.1 namespaces).0
                  (list_entries-AllFound wanted query thread_id ns limit
                    (sort_saved serde checkpoints)
                    (Holds-sort_saved (checkpoints_of serde self thread_id ns) checkpoints
                      (rw there (Holds-distinct checkpoints checkpoints (λ k v e. e) g.0)))
                    (HasNames-sort_saved checkpoints g.1))
                  (list_namespaces-AllFound config_ns wanted query thread_id here.1 namespaces h.1
                    g.2))
          | inr e ↦
              rw (list_namespaces, e)
                (list_namespaces-AllFound config_ns wanted query thread_id limit namespaces h.1 g.2)
        ]

    -- Each tuple that `list` gives for a config is the one that `get_tuple` gives for the config of the
    -- tuple, whatever the filters and the limit: the namespaces of the thread are distinct, and so are
    -- the ids in each, none of them empty.
    pub list_checkpoints-AllFound :
        (config : Config) (query : Query)
        → HasDistinctKeys (get_or config.thread_id self.storage [])
        → IsKept (get_or config.thread_id self.storage [])
        → AllFound (list_checkpoints serde self (some config) query)
    unfolding list_checkpoints
    list_checkpoints-AllFound config query distinct kept =
        let namespaces = get_or config.thread_id self.storage [] in
        list_namespaces-AllFound config.checkpoint_ns (truthy config.checkpoint_id) query
          config.thread_id query.limit namespaces
          (Holds-distinct namespaces namespaces (λ k v e. e) distinct) kept
