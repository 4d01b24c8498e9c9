-- ===== src/Pregel/Checkpointing.antt =====
-- `empty_checkpoint`, `delta_channels_to_snapshot`, `create_checkpoint`, `channels_from_checkpoint`
-- and `copy_checkpoint` of libs/langgraph/langgraph/pregel/_checkpoint.py. The clock and the ids of
-- `uuid6` are arguments, and so is the saver's `get_delta_channel_history`. Managed values, which
-- `channels_from_checkpoint` only sorts out, are not modelled.
use langgraph_study.Prelude.{
  ℕ, String, Bool, true, false, ◌&&◌, ◌||◌, Option, none, some, List, [], ◌∷◌, leb, nonempty,
  if◌then◌else◌,
}
use langgraph_study.Method.{attribute_error, Result, ok, err, ◌>>=◌}
use langgraph_study.Values.{Value, snapshot}
use langgraph_study.Dict.{Dict, has, get, put, get_or}
use langgraph_study.Channels.DeltaChannel
use langgraph_study.Channels.DeltaChannel.{DeltaChannel, PendingWrite}
use langgraph_study.Channels.Channel
use langgraph_study.Channels.Channel.{Channel, delta_channel}
use langgraph_study.Pregel.Checkpoint.{Checkpoint, ChannelVersions}
use langgraph_study.Pregel.NextTasks.{sort_names}
use langgraph_study.Pregel.ApplyWrites.{GetNextVersion}

abbrev pub latest_version : ℕ
latest_version = 4

-- `DELTA_MAX_SUPERSTEPS_SINCE_SNAPSHOT`, which an environment variable may change
abbrev pub delta_max_supersteps : ℕ
delta_max_supersteps = 5000

unfoldable pub empty_checkpoint : String → String → Checkpoint
empty_checkpoint id ts = record {
  v = latest_version;
  id = id;
  ts = ts;
  channel_values = [];
  channel_versions = [];
  versions_seen = [];
  updated_channels = none;
}

-- The test for one channel. The counters are the updates and the supersteps since its last snapshot.
unfoldable pub is_due : ℕ → Channel → ℕ × ℕ → Bool
is_due max_supersteps (delta_channel c) (updates, supersteps) =
    DeltaChannel.is_available c
    && (leb c.snapshot_frequency updates || leb max_supersteps supersteps)
is_due max_supersteps c counters = false

unfoldable pub delta_channels_to_snapshot : ℕ → Dict Channel → Dict (ℕ × ℕ) → List String
unfolding is_due
delta_channels_to_snapshot max_supersteps [] counters = []
delta_channels_to_snapshot max_supersteps ((name, ch) ∷ channels) counters =
    let rest = delta_channels_to_snapshot max_supersteps channels counters in
    if is_due max_supersteps ch (get_or name counters (0, 0)) then name ∷ rest else rest

-- `get_next_version is not None and (updated_channels is None or k not in updated_channels)`, and the
-- version that `channel_versions[k]` then gets
unfoldable pub bump_version :
    Option GetNextVersion → Option (List String) → String → ℕ → ChannelVersions → ChannelVersions
bump_version none updated k version versions = versions
bump_version (some get_next_version) none k version versions =
    put k (get_next_version (some version)) versions
bump_version (some get_next_version) (some updated) k version versions =
    if has k updated then versions else put k (get_next_version (some version)) versions

-- `if v is not MISSING: values[k] = v`
abbrev pub put_some : String → Option Value → Dict Value → Dict Value
put_some k none values = values
put_some k (some v) values = put k v values

-- The loop of `create_checkpoint` over the channels: the values and the versions.
unfoldable pub save_channels :
    Option GetNextVersion
    → Option (List String)
    → List String
    → Dict Channel
    → Dict Value
    → ChannelVersions
    → Result (Dict Value × ChannelVersions)
unfolding bump_version
save_channels next updated to_snapshot [] values versions = ok (values, versions)
save_channels next updated to_snapshot ((k, ch) ∷ channels) values versions =
    elim (get k versions) [
      | none ↦ save_channels next updated to_snapshot channels values versions
      | some version ↦ elim (has k to_snapshot) [
        | true ↦ do
          v ← Channel.get ch
          save_channels next updated to_snapshot channels (put k (snapshot v) values)
              (bump_version next updated k version versions)
        | false ↦
            save_channels next updated to_snapshot channels
              (put_some k (Channel.checkpoint ch) values) versions
      ]
    ]

abbrev pub sort_updated : Option (List String) → Option (List String)
sort_updated none = none
sort_updated (some updated) = some (sort_names updated)

-- `values` and `channel_versions` of the new checkpoint; no channels are `none`.
unfoldable pub saved_parts :
    Checkpoint
    → Option (Dict Channel)
    → Option (List String)
    → Option GetNextVersion
    → List String
    → Result (Dict Value × ChannelVersions)
unfolding save_channels
saved_parts checkpoint none updated next to_snapshot =
    ok (checkpoint.channel_values, checkpoint.channel_versions)
saved_parts checkpoint (some channels) updated next to_snapshot =
    save_channels next updated to_snapshot channels [] checkpoint.channel_versions

abbrev pub new_checkpoint :
    Checkpoint → String → String → Option (List String) → Dict Value × ChannelVersions → Checkpoint
new_checkpoint checkpoint id ts updated (values, versions) = record {
  v = latest_version;
  id = id;
  ts = ts;
  channel_values = values;
  channel_versions = versions;
  versions_seen = checkpoint.versions_seen;
  updated_channels = sort_updated updated;
}

-- `id` is the given one, or what `uuid6` made.
unfoldable pub create_checkpoint :
    Checkpoint
    → Option (Dict Channel)
    → String
    → String
    → Option (List String)
    → Option GetNextVersion
    → List String
    → Result Checkpoint
unfolding saved_parts
create_checkpoint checkpoint channels id ts updated next to_snapshot = do
  saved ← saved_parts checkpoint channels updated next to_snapshot
  ok (new_checkpoint checkpoint id ts updated saved)

-- `DeltaChannelHistory`
pub record DeltaChannelHistory : Type 0 where
  pub writes : List PendingWrite
  pub seed : Option Value

-- `_needs_replay`
unfoldable pub needs_replay : Channel → Option Value → Bool
needs_replay (delta_channel c) none = true
needs_replay spec stored = false

unfoldable pub delta_channels : Dict Channel → Dict Value → List String
unfolding needs_replay
delta_channels [] values = []
delta_channels ((k, spec) ∷ specs) values =
    let rest = delta_channels specs values in
    if needs_replay spec (get k values) then k ∷ rest else rest

abbrev wrap_replayed : Result (Unit {0}) × DeltaChannel → Result Channel
wrap_replayed (ok _, c) = ok (delta_channel c)
wrap_replayed (err e, c) = err e

-- `delta_spec.from_checkpoint(seed)`, then a replay; only a DeltaChannel has `replay_writes`
unfoldable pub replay_history : Channel → DeltaChannelHistory → Result Channel
replay_history (delta_channel c) history =
    wrap_replayed
      (DeltaChannel.replay_writes (DeltaChannel.from_checkpoint c history.seed) history.writes)
replay_history c history = err attribute_error

-- The loop of `channels_from_checkpoint`.
unfoldable pub restore_channels :
    Dict Channel → Dict Value → Dict DeltaChannelHistory → Result (Dict Channel)
unfolding replay_history
restore_channels [] values histories = ok []
restore_channels ((k, spec) ∷ specs) values histories = do
  ch ← elim (get k histories) [
    | some history ↦ replay_history spec history
    | none ↦ Channel.from_checkpoint spec (get k values)
  ]
  rest ← restore_channels specs values histories
  ok ((k, ch) ∷ rest)

-- `saver.get_delta_channel_history(config=config, channels=...)` where both are given
abbrev pub GetHistories : Type 0
GetHistories = List String → Dict DeltaChannelHistory

unfoldable pub channels_from_checkpoint :
    Dict Channel → Checkpoint → Option GetHistories → Result (Dict Channel)
unfolding delta_channels restore_channels
channels_from_checkpoint specs checkpoint saver = restore_channels specs checkpoint.channel_values (
    let wanted = delta_channels specs checkpoint.channel_values in
    elim saver [
      | none ↦ []
      | some get_histories ↦ if nonempty wanted then get_histories wanted else []
    ])

unfoldable pub copy_checkpoint : Checkpoint → Checkpoint
copy_checkpoint checkpoint = record {
  v = checkpoint.v;
  id = checkpoint.id;
  ts = checkpoint.ts;
  channel_values = checkpoint.channel_values;
  channel_versions = checkpoint.channel_versions;
  versions_seen = checkpoint.versions_seen;
  updated_channels = checkpoint.updated_channels;
}
