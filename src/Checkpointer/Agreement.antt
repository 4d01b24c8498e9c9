-- ===== src/Checkpointer/Agreement.antt =====
-- Two savers that hold the same of a namespace of a thread answer `get_tuple` alike
-- (libs/checkpoint/langgraph/checkpoint/memory/__init__.py); and `delete_thread`.
use langgraph_study.Prelude.{
  ℕ, String, ◌≡◌, refl, ap, ◌∙◌, false, not, Option, none, some, [], ◌∷◌, str_eq, eq_iff,
  if◌then◌else◌, arith, Bool-cases, Option-cases, inl, inr,
}
use langgraph_study.Values.{Value}
use langgraph_study.Dict
use langgraph_study.Dict.{Dict, get, put, keys, get-put, get-remove}
use langgraph_study.Table
use langgraph_study.Pregel.Checkpoint.{ChannelVersions}
use langgraph_study.Checkpointer.Keys.{BlobKey, WritesKey, blob_key, writes_key}
use langgraph_study.Checkpointer.Serde.{Serde}
use langgraph_study.Checkpointer.Metadata.{Config, namespace, truthy}
use langgraph_study.Checkpointer.InMemorySaver.{
  InMemorySaver, Saved, max_key, checkpoints_of, writes_of, add_loaded, load_blobs, load_tuple,
  get_latest, get_tuple, delete_thread, config_of,
}
use langgraph_study.Checkpointer.Blobs.{key_of, load_blobs-cons}

module _ (serde : Serde) where
  -- The same checkpoints, writes and blobs of a namespace of a thread.
  pub record Agrees (a b : InMemorySaver serde) (thread_id ns : String) : Type 0 where
    pub checkpoints : checkpoints_of serde a thread_id ns ≡ checkpoints_of serde b thread_id ns
    pub writes :
        (id : String)
        → writes_of serde a
            (record { thread_id = thread_id; checkpoint_ns = ns; checkpoint_id = id })
          ≡ writes_of serde b
              (record { thread_id = thread_id; checkpoint_ns = ns; checkpoint_id = id })
    pub blobs :
        (k : String) (v : ℕ)
        → Table.get (key_of serde thread_id ns k v) a.blobs
          ≡ Table.get (key_of serde thread_id ns k v) b.blobs

  load_blobs-agree :
      (a b : InMemorySaver serde) (thread_id ns : String) (versions : ChannelVersions)
      (result : Dict Value)
      → ((k : String) (v : ℕ)
          → Table.get (key_of serde thread_id ns k v) a.blobs
            ≡ Table.get (key_of serde thread_id ns k v) b.blobs)
      → load_blobs serde a thread_id ns versions result
        ≡ load_blobs serde b thread_id ns versions result
  load_blobs-agree a b thread_id ns [] result h = unfold load_blobs in refl
  load_blobs-agree a b thread_id ns ((k, v) ∷ versions) result h =
      let o = Table.get (key_of serde thread_id ns k v) b.blobs in
      rw
        (
          load_blobs-cons serde thread_id ns a k v versions result,
          load_blobs-cons serde thread_id ns b k v versions result,
          h k v,
        )
        (load_blobs-agree a b thread_id ns versions (add_loaded serde k o result) h)

  load_tuple-agree :
      (a b : InMemorySaver serde) (config : Config) (thread_id ns id : String) (saved : Saved serde)
      → Agrees a b thread_id ns
      → load_tuple serde a config thread_id ns id saved
        ≡ load_tuple serde b config thread_id ns id saved
  load_tuple-agree a b config thread_id ns id saved h =
      let versions = (serde.loads_checkpoint saved.checkpoint).channel_versions in
      unfold load_tuple in
      rw (load_blobs-agree a b thread_id ns versions [] h.blobs, h.writes id) refl

  get_latest-agree :
      (a b : InMemorySaver serde) (thread_id ns : String)
      → Agrees a b thread_id ns
      → get_latest serde a thread_id ns ≡ get_latest serde b thread_id ns
  unfolding get_latest
  get_latest-agree a b thread_id ns h =
      elim (Option-cases (max_key (keys (checkpoints_of serde b thread_id ns)))) [
        | inl e ↦ rw (get_latest, h.checkpoints, e) refl
        | inr (id, e) ↦ elim (Option-cases (get id (checkpoints_of serde b thread_id ns))) [
          | inl f ↦ rw (get_latest, h.checkpoints, e, h.checkpoints, f) refl
          | inr (saved, f) ↦
              rw (get_latest, h.checkpoints, e, h.checkpoints, f)
                (ap some (load_tuple-agree a b (config_of thread_id ns id) thread_id ns id saved h))
        ]
      ]

  pub get_tuple-agree :
      (a b : InMemorySaver serde) (config : Config)
      → Agrees a b config.thread_id (namespace config)
      → get_tuple serde a config ≡ get_tuple serde b config
  unfolding get_tuple
  get_tuple-agree a b config h = elim (Option-cases (truthy config.checkpoint_id)) [
    | inl e ↦ rw (get_tuple, e) (get_latest-agree a b config.thread_id (namespace config) h)
    | inr (id, e) ↦
        elim (Option-cases (get id (checkpoints_of serde b config.thread_id (namespace config)))) [
          | inl f ↦ rw (get_tuple, e, h.checkpoints, f) refl
          | inr (saved, f) ↦
              rw (get_tuple, e, h.checkpoints, f)
                (ap some
                  (load_tuple-agree a b config config.thread_id (namespace config) id saved h))
        ]
  ]

  checkpoints_of-delete_thread :
      (self : InMemorySaver serde) (thread_id other ns : String)
      → checkpoints_of serde (delete_thread serde self thread_id) other ns
        ≡ (if str_eq thread_id other then [] else checkpoints_of serde self other ns)
  unfolding delete_thread checkpoints_of
  checkpoints_of-delete_thread self thread_id other ns =
      ap
        (λ (o : Option (Dict (Dict (Saved serde)))).
          Dict.get_or ns (elim o [ none ↦ [] | some d ↦ d ]) [])
        (get-remove thread_id other self.storage)
      ∙ elim (Bool-cases (str_eq thread_id other)) [
        | inl e ↦ rw e (unfold get in refl)
        | inr e ↦ rw e refl
      ]

  delete_thread-Agrees :
      (self : InMemorySaver serde) (thread_id other ns : String)
      → str_eq thread_id other ≡ false
      → Agrees (delete_thread serde self thread_id) self other ns
  delete_thread-Agrees self thread_id other ns e =
      let back : str_eq other thread_id ≡ false =
        ground (arith, eq_iff other thread_id, eq_iff thread_id other) in
      record {
        checkpoints = rw (checkpoints_of-delete_thread, e) refl;
        writes = λ id.
            unfold delete_thread writes_of in
            rw (writes_of, delete_thread, Table.get-keep, back) refl;
        blobs = λ k v. unfold delete_thread in rw (delete_thread, Table.get-keep, back) refl;
      }

  get_tuple-none :
      (self : InMemorySaver serde) (config : Config)
      → checkpoints_of serde self config.thread_id (namespace config) ≡ []
      → get_tuple serde self config ≡ none
  unfolding get_tuple get_latest max_key get
  get_tuple-none self config h = elim (Option-cases (truthy config.checkpoint_id)) [
    | inl e ↦ rw (get_tuple, e, get_latest, h) refl
    | inr (id, e) ↦ rw (get_tuple, e, h) refl
  ]

  get_tuple-deleted :
      (self : InMemorySaver serde) (thread_id : String) (config : Config)
      → get_tuple serde (delete_thread serde self thread_id) config
        ≡ (if str_eq thread_id config.thread_id then none else get_tuple serde self config)
  get_tuple-deleted self thread_id config =
      let deleted = delete_thread serde self thread_id in
      elim (Bool-cases (str_eq thread_id config.thread_id)) [
        | inl e ↦ rw e (
            get_tuple-none deleted config (
              checkpoints_of-delete_thread self thread_id config.thread_id (namespace config)
              ∙ rw e refl))
        | inr e ↦ rw e (
            get_tuple-agree deleted self config
              (delete_thread-Agrees self thread_id config.thread_id (namespace config) e))
      ]

  -- Whether a table has an entry for a key where the thread is deleted.
  kept_of :
      (thread_id other : String) {V : Type 0} (o : Option V)
      → (if not (str_eq other thread_id) then o else none)
        ≡ (if str_eq thread_id other then none else o)
  kept_of thread_id other o = ground (arith, eq_iff thread_id other, eq_iff other thread_id)

  -- `delete_thread` takes everything of the thread away: its entry of the storage, so that `get_tuple`
  -- finds nothing of it in any namespace, and all its writes and blobs, so that none of them shows up
  -- in a thread of the same name that is made later. Of every other thread it leaves all of that.
  pub get_tuple-delete_thread :
      (self : InMemorySaver serde) (thread_id : String) (config : Config) (key : WritesKey)
      (blob : BlobKey)
      → let deleted = delete_thread serde self thread_id in
        (get_tuple serde deleted config
          ≡ (if str_eq thread_id config.thread_id then none else get_tuple serde self config))
        × (get config.thread_id deleted.storage ≡ (
            if str_eq thread_id config.thread_id then none else get config.thread_id self.storage))
        × (Table.get key deleted.writes
            ≡ (if str_eq thread_id key.thread_id then none else Table.get key self.writes))
        × (Table.get blob deleted.blobs
            ≡ (if str_eq thread_id blob.thread_id then none else Table.get blob self.blobs))
  unfolding delete_thread
  get_tuple-delete_thread self thread_id config key blob = (
    get_tuple-deleted self thread_id config,
    get-remove thread_id config.thread_id self.storage,
    Table.get-keep (λ k. not (str_eq k.thread_id thread_id)) key self.writes
        ∙ kept_of thread_id key.thread_id (Table.get key self.writes),
    Table.get-keep (λ k. not (str_eq k.thread_id thread_id)) blob self.blobs
        ∙ kept_of thread_id blob.thread_id (Table.get blob self.blobs),
  )
