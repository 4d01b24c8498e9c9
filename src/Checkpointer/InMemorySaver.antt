-- ===== src/Checkpointer/InMemorySaver.antt =====
-- `InMemorySaver` of libs/checkpoint/langgraph/checkpoint/memory/__init__.py: `put`, `put_writes`,
-- `get_tuple` and `delete_thread`. Reading a missing key of a `defaultdict` adds an empty
-- dict, which no method shows; that is not modelled. The async methods call these.
use langgraph_study.Prelude.{
  ℕ, ◌+◌, String, Bool, true, false, ◌&&◌, not, Option, none, some, is_some, List, [], ◌∷◌, str_eq,
  if◌then◌else◌,
}
use langgraph_study.Method.{Result, ok, err, key_error}
use langgraph_study.Values.{Value}
use langgraph_study.Dict
use langgraph_study.Dict.{Dict, get, put, get_or, mem, keys}
use langgraph_study.Table
use langgraph_study.Table.{Eq}
use langgraph_study.Channels.DeltaChannel.{PendingWrite}
use langgraph_study.Pregel.Checkpoint.{Checkpoint, ChannelVersions}
use langgraph_study.Pregel.Task.{codes, str_leb}
use langgraph_study.Checkpointer.Keys.{
  BlobKey, WritesKey, InnerKey, Index, place, below, blob_key, writes_key, inner_key, write_index,
}
use langgraph_study.Checkpointer.Serde.{Serde}
use langgraph_study.Checkpointer.Metadata.{Config, namespace, truthy, get_checkpoint_metadata}

-- What `get_tuple` and `list` give.
pub record CheckpointTuple : Type 0 where
  pub config : Config
  pub checkpoint : Checkpoint
  pub metadata : Dict Value
  pub parent_config : Option Config
  pub pending_writes : List PendingWrite

-- `{"configurable": {...}}`
abbrev pub config_of : String → String → String → Config
config_of thread_id ns checkpoint_id = record {
  thread_id = thread_id;
  checkpoint_ns = some ns;
  checkpoint_id = some checkpoint_id;
  configurable = [];
  metadata = [];
}

-- The config of a checkpoint's parent, if it has one.
abbrev pub parent_config : String → String → Option String → Option Config
parent_config thread_id ns parent = elim (truthy parent) [
  | none ↦ none
  | some id ↦ some (config_of thread_id ns id)
]

abbrev pub without_values : Checkpoint → Checkpoint
without_values checkpoint = record checkpoint { channel_values = [] }

-- `max(checkpoints.keys())`
unfoldable pub max_key : List String → Option String
max_key [] = none
max_key (k ∷ ks) = elim (max_key ks) [
  | none ↦ some k
  | some best ↦ some (if str_leb (codes k) (codes best) then best else k)
]

-- `inner_key[1] >= 0`
abbrev pub is_place : Index → Bool
is_place (place n) = true
is_place (below n) = false

module _ (serde : Serde) where
  open serde use {
    Bytes, no_bytes, dumps, loads, dumps_checkpoint, loads_checkpoint, dumps_metadata,
    loads_metadata,
  }

  -- A type tag and the bytes.
  abbrev pub Blob : Type 0
  Blob = String × Bytes

  -- The checkpoint, the metadata, and the id of the parent.
  pub record Saved : Type 0 where
    pub checkpoint : Blob
    pub metadata : Blob
    pub parent : Option String

  -- The task's id, the channel, the value, and the task's path.
  pub record Written : Type 0 where
    pub task_id : String
    pub channel : String
    pub value : Blob
    pub task_path : String

  pub record InMemorySaver : Type 0 where
    pub storage : Dict (Dict (Dict Saved))
    pub writes : List (WritesKey × List (InnerKey × Written))
    pub blobs : List (BlobKey × Blob)

  unfoldable pub new : InMemorySaver
  new = record { storage = []; writes = []; blobs = [] }

  -- `self.storage[thread_id][checkpoint_ns]`
  unfoldable pub checkpoints_of : InMemorySaver → String → String → Dict Saved
  checkpoints_of self thread_id ns = get_or ns (get_or thread_id self.storage []) []

  -- `self.writes[(thread_id, checkpoint_ns, checkpoint_id)]`
  unfoldable pub writes_of : InMemorySaver → WritesKey → List (InnerKey × Written)
  writes_of self key = elim (Table.get key self.writes) [ none ↦ [] | some ws ↦ ws ]

  -- `result[k] = ...`, unless there is no blob or it has the type "empty", of a channel with no value
  unfoldable pub add_loaded : String → Option Blob → Dict Value → Dict Value
  add_loaded k none result = result
  add_loaded k (some vv) result = if str_eq vv.0 "empty" then result else put k (loads vv) result

  -- `_load_blobs`
  unfoldable pub load_blobs :
      InMemorySaver → String → String → ChannelVersions → Dict Value → Dict Value
  unfolding add_loaded
  load_blobs self thread_id ns [] result = result
  load_blobs self thread_id ns ((k, ver) ∷ versions) result =
      load_blobs self thread_id ns versions (
        add_loaded k
          (Table.get
            (record { thread_id = thread_id; checkpoint_ns = ns; channel = k; version = ver })
            self.blobs)
          result)

  -- `(id, c, self.serde.loads_typed(v)) for id, c, v, _ in writes`
  unfoldable pub load_writes : List (InnerKey × Written) → List PendingWrite
  load_writes [] = []
  load_writes ((k, w) ∷ ws) = (w.task_id, w.channel, loads w.value) ∷ load_writes ws

  -- The tuple of a saved checkpoint, under the config that is given.
  unfoldable pub load_tuple :
      InMemorySaver → Config → String → String → String → Saved → CheckpointTuple
  load_tuple self config thread_id ns id saved =
      let checkpoint = loads_checkpoint saved.checkpoint in
      record {
        config = config;
        checkpoint = record checkpoint {
          channel_values = load_blobs self thread_id ns checkpoint.channel_versions [];
        };
        metadata = loads_metadata saved.metadata;
        parent_config = parent_config thread_id ns saved.parent;
        pending_writes = load_writes (
            writes_of self
              (record { thread_id = thread_id; checkpoint_ns = ns; checkpoint_id = id }));
      }

  -- The latest checkpoint of a namespace.
  unfoldable pub get_latest : InMemorySaver → String → String → Option CheckpointTuple
  get_latest self thread_id ns =
      let checkpoints = checkpoints_of self thread_id ns in
      elim (max_key (keys checkpoints)) [
        | none ↦ none
        | some id ↦ elim (get id checkpoints) [
          | none ↦ none
          | some saved ↦ some (load_tuple self (config_of thread_id ns id) thread_id ns id saved)
        ]
      ]

  unfoldable pub get_tuple : InMemorySaver → Config → Option CheckpointTuple
  get_tuple self config =
      let thread_id = config.thread_id in
      let ns = namespace config in
      elim (truthy config.checkpoint_id) [
        | none ↦ get_latest self thread_id ns
        | some id ↦ elim (get id (checkpoints_of self thread_id ns)) [
          | none ↦ none
          | some saved ↦ some (load_tuple self config thread_id ns id saved)
        ]
      ]

  -- `dumps_typed(values[k]) if k in values else ("empty", b"")`
  unfoldable pub dump_value : Option Value → Blob
  dump_value none = ("empty", no_bytes)
  dump_value (some value) = dumps value

  -- The loop of `put` over the new versions.
  unfoldable pub put_blobs :
      String → String → Dict Value → ChannelVersions → List (BlobKey × Blob) → List (BlobKey × Blob)
  unfolding dump_value
  put_blobs thread_id ns values [] blobs = blobs
  put_blobs thread_id ns values ((k, v) ∷ versions) blobs = put_blobs thread_id ns values versions (
      Table.put (record { thread_id = thread_id; checkpoint_ns = ns; channel = k; version = v })
        (dump_value (get k values)) blobs)

  -- `put`, of a config with a namespace: the config that it returns, and the saver.
  unfoldable pub put_at :
      InMemorySaver → Config → Checkpoint → Dict Value → ChannelVersions → Config × InMemorySaver
  put_at self config checkpoint metadata new_versions =
      let thread_id = config.thread_id in
      let ns = namespace config in
      let saved : Saved = record {
        checkpoint = dumps_checkpoint (without_values checkpoint);
        metadata = dumps_metadata (get_checkpoint_metadata config metadata);
        parent = config.checkpoint_id;
      } in
      (
        config_of thread_id ns checkpoint.id,
        record self {
          blobs = put_blobs thread_id ns checkpoint.channel_values new_versions self.blobs;
          storage =
              put thread_id
                (put ns (put checkpoint.id saved (checkpoints_of self thread_id ns))
                  (get_or thread_id self.storage []))
                self.storage;
        },
      )

  abbrev pub put_result :
      Option String → InMemorySaver → Config × InMemorySaver → Result Config × InMemorySaver
  put_result none self (config, saver) = (err key_error, self)
  put_result (some ns) self (config, saver) = (ok config, saver)

  -- `put`: a config without a namespace is a KeyError, before anything is written.
  unfoldable pub put_checkpoint :
      InMemorySaver
      → Config
      → Checkpoint
      → Dict Value
      → ChannelVersions
      → Result Config × InMemorySaver
  put_checkpoint self config checkpoint metadata new_versions =
      put_result config.checkpoint_ns self (put_at self config checkpoint metadata new_versions)

  -- The loop of `put_writes`: `old` are the writes that were there before the call. The source looks
  -- into the dict that it writes to, but no two writes of a call have the same place.
  unfoldable pub put_each :
      String
      → String
      → List (InnerKey × Written)
      → ℕ
      → List (String × Value)
      → List (InnerKey × Written)
      → List (InnerKey × Written)
  unfolding write_index
  put_each task_id task_path old idx [] ws = ws
  put_each task_id task_path old idx ((c, v) ∷ writes) ws =
      let key : InnerKey = record { task_id = task_id; index = write_index c idx } in
      put_each task_id task_path old (idx + 1) writes (
        if is_place (write_index c idx) && is_some (Table.get key old)
        then ws
        else Table.put key
            (record { task_id = task_id; channel = c; value = dumps v; task_path = task_path }) ws)

  -- With no writes at all the `defaultdict` gets no entry.
  unfoldable pub put_writes :
      InMemorySaver → WritesKey → List (String × Value) → String → String → InMemorySaver
  put_writes self key [] task_id task_path = self
  put_writes self key (w ∷ writes) task_id task_path =
      let old = writes_of self key in
      record self {
        writes = Table.put key (put_each task_id task_path old 0 (w ∷ writes) old) self.writes;
      }

  unfoldable pub delete_thread : InMemorySaver → String → InMemorySaver
  delete_thread self thread_id = record self {
    storage = Dict.remove thread_id self.storage;
    writes = Table.keep (λ k. not (str_eq k.thread_id thread_id)) self.writes;
    blobs = Table.keep (λ k. not (str_eq k.thread_id thread_id)) self.blobs;
  }
