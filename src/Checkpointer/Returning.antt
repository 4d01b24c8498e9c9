-- ===== src/Checkpointer/Returning.antt =====
-- `put` and then `get_tuple` of `InMemorySaver`
-- (libs/checkpoint/langgraph/checkpoint/memory/__init__.py): what was stored comes back.
use langgraph_study.Prelude.{
  ℕ, String, ◌≡◌, ◌≢◌, ◌⊎◌, refl, ap, ◌∙◌, false, none, some, [], str_eq, Option-cases, inl, inr,
}
use langgraph_study.Method.{ok}
use langgraph_study.Values.{Value}
use langgraph_study.Dict.{Dict, get}
use langgraph_study.Pregel.Checkpoint.{Checkpoint, ChannelVersions}
use langgraph_study.Pregel.Saved.{HasDistinctKeys}
use langgraph_study.Checkpointer.Keys.{blob_key, writes_key}
use langgraph_study.Checkpointer.Serde.{Serde}
use langgraph_study.Checkpointer.Metadata.{Config, namespace, get_checkpoint_metadata}
use langgraph_study.Checkpointer.InMemorySaver.{
  CheckpointTuple, InMemorySaver, load_blobs, load_tuple, get_tuple, put_at, put_checkpoint,
  put_blobs, config_of, without_values, parent_config,
}
use langgraph_study.Checkpointer.Blobs.{
  value_of, key_of, stored, get-load_blobs, get-put_blobs, get-put_blobs_ne, or_else-none,
}
use langgraph_study.Checkpointer.Storing.{saved_of, get-put_at, get_tuple-given, put_checkpoint-eq}

module _ (serde : Serde) where
  -- The blobs of a checkpoint with these versions hold its values, once `put` has added the new ones:
  -- a version of it is new, or was stored before with the value that the checkpoint has.
  abbrev pub Covers : InMemorySaver serde → Config → Checkpoint → ChannelVersions → Type 0
  Covers self config checkpoint new_versions =
      (k : String) (version : ℕ)
      → get k checkpoint.channel_versions ≡ some version
      → (get k new_versions ≡ some version)
        ⊎ ((get k new_versions ≢ some version)
            × (stored serde config.thread_id (namespace config) self.blobs k version
                ≡ get k checkpoint.channel_values))

  abbrev pub VersionsItsValues : Checkpoint → Type 0
  VersionsItsValues checkpoint =
      (k : String)
      → get k checkpoint.channel_versions ≡ none
      → get k checkpoint.channel_values ≡ none

  stored-put_blobs :
      (self : InMemorySaver serde) (config : Config) (checkpoint : Checkpoint)
      (new_versions : ChannelVersions) (k : String) (version : ℕ)
      → HasDistinctKeys new_versions
      → Covers self config checkpoint new_versions
      → get k checkpoint.channel_versions ≡ some version
      → stored serde config.thread_id
          (namespace config)
          (put_blobs serde config.thread_id
            (namespace config)
            checkpoint.channel_values
            new_versions
            self.blobs)
          k
          version
        ≡ get k checkpoint.channel_values
  stored-put_blobs self config checkpoint new_versions k version distinct covers e =
      elim (covers k version e) [
        | inl g ↦
            get-put_blobs serde config.thread_id (namespace config) checkpoint.channel_values
              new_versions self.blobs k version distinct g
        | inr (g, old) ↦
            ap (value_of serde config.thread_id (namespace config)) (
              get-put_blobs_ne serde config.thread_id (namespace config) checkpoint.channel_values
                new_versions self.blobs (key_of serde config.thread_id (namespace config) k version)
                (λ t n h. g h) distinct)
            ∙ old
      ]

  loaded-put_at :
      (self : InMemorySaver serde) (config : Config) (checkpoint : Checkpoint)
      (metadata : Dict Value) (new_versions : ChannelVersions) (k : String)
      → HasDistinctKeys checkpoint.channel_versions
      → HasDistinctKeys new_versions
      → Covers self config checkpoint new_versions
      → VersionsItsValues checkpoint
      → get k (
          load_blobs serde
            (put_at serde self config checkpoint metadata new_versions).1
            config.thread_id
            (namespace config)
            checkpoint.channel_versions
            [])
        ≡ get k checkpoint.channel_values
  unfolding put_at
  loaded-put_at self config checkpoint metadata new_versions k distinct distinct_new covers
        versioned =
      let saver = (put_at serde self config checkpoint metadata new_versions).1 in
      get-load_blobs serde config.thread_id (namespace config) saver checkpoint.channel_versions []
        k distinct
      ∙ elim (Option-cases (get k checkpoint.channel_versions)) [
        | inl e ↦ rw (e, versioned k e) (unfold get in refl)
        | inr (version, e) ↦
            rw
              (
                e,
                stored-put_blobs self config checkpoint new_versions k version distinct_new covers
                    e,
              )
              (unfold get in
                or_else-none serde config.thread_id (namespace config)
                  (get k checkpoint.channel_values))
      ]

  get_tuple-put_at :
      (self : InMemorySaver serde) (config : Config) (checkpoint : Checkpoint)
      (metadata : Dict Value) (new_versions : ChannelVersions)
      → str_eq checkpoint.id "" ≡ false
      → HasDistinctKeys checkpoint.channel_versions
      → HasDistinctKeys new_versions
      → Covers self config checkpoint new_versions
      → VersionsItsValues checkpoint
      → (t : CheckpointTuple) × (get_tuple serde
            (put_at serde self config checkpoint metadata new_versions).1
            (put_at serde self config checkpoint metadata new_versions).0
          ≡ some t)
        × ((k : String) → get k t.checkpoint.channel_values ≡ get k checkpoint.channel_values)
        × (without_values t.checkpoint ≡ without_values checkpoint)
        × (t.metadata ≡ get_checkpoint_metadata config metadata)
        × (t.parent_config ≡ parent_config config.thread_id (namespace config) config.checkpoint_id)
  get_tuple-put_at self config checkpoint metadata new_versions named distinct distinct_new covers
        versioned =
      let saver = (put_at serde self config checkpoint metadata new_versions).1 in
      let place = config_of config.thread_id (namespace config) checkpoint.id in
      let saved = saved_of serde config checkpoint metadata in
      let same = serde.loads-dumps_checkpoint (without_values checkpoint) in
      (
        load_tuple serde saver place config.thread_id (namespace config) checkpoint.id saved,
        unfold put_at in
            get_tuple-given serde saver config.thread_id (namespace config) checkpoint.id saved
              named (get-put_at serde self config checkpoint metadata new_versions),
        λ k.
            unfold load_tuple in
            rw same (
              loaded-put_at self config checkpoint metadata new_versions k distinct distinct_new
                covers versioned),
        unfold load_tuple in rw same refl,
        unfold load_tuple in serde.loads-dumps_metadata (get_checkpoint_metadata config metadata),
        unfold load_tuple in refl,
      )

  -- `put` of a checkpoint with a name and with distinct channels, each version of which is new or was
  -- stored before with the same value, and in which no channel without a version has a value, returns a
  -- config, of which `get_tuple` then gives the checkpoint back: the same value of every channel and the same other fields; the metadata that
  -- `get_checkpoint_metadata` makes; and the checkpoint of the config of the `put` as its parent.
  pub get_tuple-put_checkpoint :
      (self : InMemorySaver serde) (config : Config) (ns : String) (checkpoint : Checkpoint)
      (metadata : Dict Value) (new_versions : ChannelVersions)
      → config.checkpoint_ns ≡ some ns
      → str_eq checkpoint.id "" ≡ false
      → HasDistinctKeys checkpoint.channel_versions
      → HasDistinctKeys new_versions
      → Covers self config checkpoint new_versions
      → VersionsItsValues checkpoint
      → (place : Config) × (t : CheckpointTuple) × ((put_checkpoint serde self config checkpoint
            metadata new_versions).0
          ≡ ok place)
        × (get_tuple serde
              (put_checkpoint serde self config checkpoint metadata new_versions).1
              place
            ≡ some t)
        × ((k : String) → get k t.checkpoint.channel_values ≡ get k checkpoint.channel_values)
        × (without_values t.checkpoint ≡ without_values checkpoint)
        × (t.metadata ≡ get_checkpoint_metadata config metadata)
        × (t.parent_config ≡ parent_config config.thread_id ns config.checkpoint_id)
  get_tuple-put_checkpoint self config ns checkpoint metadata new_versions e named distinct
        distinct_new covers versioned =
      let put = put_checkpoint-eq serde self config ns checkpoint metadata new_versions e in
      let (t, found, vals, rest, meta, parent) =
        get_tuple-put_at self config checkpoint metadata new_versions named distinct distinct_new
          covers versioned in
      (
        (put_at serde self config checkpoint metadata new_versions).0,
        t,
        ap (λ p. p.0) put,
        rw put found,
        vals,
        rest,
        meta,
        parent
            ∙ ap
                (λ o.
                  parent_config config.thread_id (elim o [ none ↦ "" | some n ↦ n ])
                    config.checkpoint_id)
                e,
      )
