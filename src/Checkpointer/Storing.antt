-- ===== src/Checkpointer/Storing.antt =====
-- `put` of `InMemorySaver` (libs/checkpoint/langgraph/checkpoint/memory/__init__.py), and what
-- `get_tuple` then gives.
use langgraph_study.Prelude.{
  String, ◌≡◌, ◌≢◌, ◌⊎◌, refl, sym, ap, ◌∙◌, false, ◌&&◌, none, some, [], str_eq, eq_iff,
  if◌then◌else◌, arith, Bool-cases, Option-cases, inl, inr,
}
use langgraph_study.Method.{ok}
use langgraph_study.Values.{Value}
use langgraph_study.Dict.{Dict, get, put, get_or, get-put}
use langgraph_study.Pregel.Checkpoint.{Checkpoint, ChannelVersions}
use langgraph_study.Pregel.Saved.{HasDistinctKeys}
use langgraph_study.Checkpointer.Keys.{blob_key, writes_key}
use langgraph_study.Checkpointer.Serde.{Serde}
use langgraph_study.Checkpointer.Metadata.{Config, namespace, truthy, get_checkpoint_metadata}
use langgraph_study.Checkpointer.InMemorySaver.{
  InMemorySaver, Saved, checkpoints_of, writes_of, load_tuple, get_tuple, put_at, put_checkpoint,
  put_result, config_of, without_values,
}
use langgraph_study.Checkpointer.Blobs.{key_of, get-put_blobs_ne}
use langgraph_study.Checkpointer.Agreement.{get_tuple-agree}

get_or-put {ℓ} :
    {V : Type ℓ} (k j : String) (v w : V) (d : Dict V)
    → get_or j (put k v d) w ≡ (if str_eq k j then v else get_or j d w)
get_or-put k j v w d =
    ap (λ o. elim o [ none ↦ w | some u ↦ u ]) (get-put k j v d)
    ∙ elim (Bool-cases (str_eq k j)) [ inl e ↦ rw e refl | inr e ↦ rw e refl ]

module _ (serde : Serde) where
  -- What `put` adds of a checkpoint.
  abbrev pub saved_of : Config → Checkpoint → Dict Value → Saved serde
  saved_of config checkpoint metadata = record {
    checkpoint = serde.dumps_checkpoint (without_values checkpoint);
    metadata = serde.dumps_metadata (get_checkpoint_metadata config metadata);
    parent = config.checkpoint_id;
  }

  checkpoints_of-put_at :
      (self : InMemorySaver serde) (config : Config) (checkpoint : Checkpoint)
      (metadata : Dict Value) (new_versions : ChannelVersions) (thread_id ns : String)
      → checkpoints_of serde
          (put_at serde self config checkpoint metadata new_versions).1
          thread_id
          ns
        ≡ (if str_eq config.thread_id thread_id && str_eq (namespace config) ns
            then put checkpoint.id
                (saved_of config checkpoint metadata)
                (checkpoints_of serde self config.thread_id (namespace config))
            else checkpoints_of serde self thread_id ns)
  unfolding put_at checkpoints_of
  checkpoints_of-put_at self config checkpoint metadata new_versions thread_id ns =
      let added =
        put checkpoint.id (saved_of config checkpoint metadata)
          (checkpoints_of serde self config.thread_id (namespace config)) in
      let old = get_or config.thread_id self.storage [] in
      ap (λ d. get_or ns d [])
        (get_or-put config.thread_id thread_id (put (namespace config) added old) [] self.storage)
      ∙ elim (Bool-cases (str_eq config.thread_id thread_id)) [
        | inl e ↦ rw e (
            get_or-put (namespace config) ns added [] old
            ∙ elim (Bool-cases (str_eq (namespace config) ns)) [
              | inl f ↦ rw f refl
              | inr f ↦ rw f (
                  ap (λ t. get_or ns (get_or t self.storage []) [])
                    ((eq_iff config.thread_id thread_id).0 e))
            ])
        | inr e ↦ rw e refl
      ]

  pub get-put_at :
      (self : InMemorySaver serde) (config : Config) (checkpoint : Checkpoint)
      (metadata : Dict Value) (new_versions : ChannelVersions)
      → get checkpoint.id (
          checkpoints_of serde
            (put_at serde self config checkpoint metadata new_versions).1
            config.thread_id
            (namespace config))
        ≡ some (saved_of config checkpoint metadata)
  get-put_at self config checkpoint metadata new_versions =
      let saver = (put_at serde self config checkpoint metadata new_versions).1 in
      let old = checkpoints_of serde self config.thread_id (namespace config) in
      ap (get checkpoint.id) (
        checkpoints_of-put_at self config checkpoint metadata new_versions config.thread_id
          (namespace config)
        ∙ rw
            (
              (eq_iff config.thread_id config.thread_id).1 refl,
              (eq_iff (namespace config) (namespace config)).1 refl,
            )
            refl)
      ∙ get-put checkpoint.id checkpoint.id (saved_of config checkpoint metadata) old
      ∙ rw ((eq_iff checkpoint.id checkpoint.id).1 refl) refl

  apart :
      (a b : Config)
      → (a.thread_id ≢ b.thread_id) ⊎ (namespace a ≢ namespace b)
      → (str_eq a.thread_id b.thread_id && str_eq (namespace a) (namespace b)) ≡ false
  apart a b differ =
      ground (arith, eq_iff a.thread_id b.thread_id, eq_iff (namespace a) (namespace b))

  apart_absurd :
      (a b : Config)
      → (a.thread_id ≢ b.thread_id) ⊎ (namespace a ≢ namespace b)
      → a.thread_id ≡ b.thread_id
      → namespace a ≡ namespace b
      → ⊥
  apart_absurd a b (inl d) t n = d t
  apart_absurd a b (inr d) t n = d n

  get_tuple-put_at_ne :
      (self : InMemorySaver serde) (config : Config) (checkpoint : Checkpoint)
      (metadata : Dict Value) (new_versions : ChannelVersions) (other : Config)
      → HasDistinctKeys new_versions
      → (config.thread_id ≢ other.thread_id) ⊎ (namespace config ≢ namespace other)
      → get_tuple serde (put_at serde self config checkpoint metadata new_versions).1 other
        ≡ get_tuple serde self other
  get_tuple-put_at_ne self config checkpoint metadata new_versions other distinct differ =
      let saver = (put_at serde self config checkpoint metadata new_versions).1 in
      get_tuple-agree serde saver self other (record {
        checkpoints =
            checkpoints_of-put_at self config checkpoint metadata new_versions other.thread_id
              (namespace other)
            ∙ rw (apart config other differ) refl;
        writes = λ id. unfold put_at writes_of in refl;
        blobs = λ k v.
            unfold put_at in
            get-put_blobs_ne serde config.thread_id (namespace config) checkpoint.channel_values
              new_versions self.blobs (key_of serde other.thread_id (namespace other) k v)
              (λ t n g. apart_absurd config other differ (sym t) (sym n)) distinct;
      })

  pub get_tuple-given :
      (saver : InMemorySaver serde) (thread_id ns id : String) (saved : Saved serde)
      → str_eq id "" ≡ false
      → get id (checkpoints_of serde saver thread_id ns) ≡ some saved
      → get_tuple serde saver (config_of thread_id ns id)
        ≡ some (load_tuple serde saver (config_of thread_id ns id) thread_id ns id saved)
  unfolding get_tuple truthy
  get_tuple-given saver thread_id ns id saved named e = rw (get_tuple, truthy, named, e) refl

  pub put_checkpoint-eq :
      (self : InMemorySaver serde) (config : Config) (ns : String) (checkpoint : Checkpoint)
      (metadata : Dict Value) (new_versions : ChannelVersions)
      → config.checkpoint_ns ≡ some ns
      → put_checkpoint serde self config checkpoint metadata new_versions ≡ (
        ok (put_at serde self config checkpoint metadata new_versions).0,
        (put_at serde self config checkpoint metadata new_versions).1,
      )
  unfolding put_checkpoint
  put_checkpoint-eq self config ns checkpoint metadata new_versions e =
      ap (λ o. put_result serde o self (put_at serde self config checkpoint metadata new_versions))
        e

  -- Whether `put` raises or not, it leaves what `get_tuple` gives of every other thread and of every
  -- other namespace.
  pub get_tuple-put_checkpoint_ne :
      (self : InMemorySaver serde) (config : Config) (checkpoint : Checkpoint)
      (metadata : Dict Value) (new_versions : ChannelVersions) (other : Config)
      → HasDistinctKeys new_versions
      → (config.thread_id ≢ other.thread_id) ⊎ (namespace config ≢ namespace other)
      → get_tuple serde (put_checkpoint serde self config checkpoint metadata new_versions).1 other
        ≡ get_tuple serde self other
  unfolding put_checkpoint
  get_tuple-put_checkpoint_ne self config checkpoint metadata new_versions other distinct differ =
      elim (Option-cases config.checkpoint_ns) [
        | inl e ↦
            ap
              (λ o.
                get_tuple serde
                  (put_result serde o self
                    (put_at serde self config checkpoint metadata new_versions)).1
                  other)
              e
        | inr (ns, e) ↦
            rw (put_checkpoint-eq self config ns checkpoint metadata new_versions e) (
              get_tuple-put_at_ne self config checkpoint metadata new_versions other distinct
                differ)
      ]
