-- ===== src/Pregel/RoundTrip.antt =====
-- Channels that go into a checkpoint come out of it.
use langgraph_study.Prelude.{String, ◌≡◌, refl, Option, none, some, List, []}
use langgraph_study.Method.{ok}
use langgraph_study.Dict.{Dict, get}
use langgraph_study.Channels.Channel.{Channel}
use langgraph_study.Pregel.Checkpoint.{Checkpoint}
use langgraph_study.Pregel.ApplyWrites.{GetNextVersion}
use langgraph_study.Pregel.Saved.{AllSaved, HasDistinctKeys, SameSpecs, restore-ok}
use langgraph_study.Pregel.Saving.{save}
use langgraph_study.Pregel.Checkpointing.{
  create_checkpoint, new_checkpoint, channels_from_checkpoint,
}

-- A checkpoint made of the channels gives the channels back: `create_checkpoint` returns, and
-- `channels_from_checkpoint` of its result returns the same channels, each in its state. The channels
-- are those that `IsSaved` describes (so UntrackedValue and a DeltaChannel without a snapshot only
-- while they are as new), and the specs agree with their classes and settings.
pub channels_from_checkpoint-create_checkpoint :
    (checkpoint : Checkpoint) (channels specs : Dict Channel) (id ts : String)
    (updated : Option (List String)) (next : Option GetNextVersion) (to_snapshot : List String)
    → AllSaved to_snapshot checkpoint.channel_versions channels
    → HasDistinctKeys channels
    → SameSpecs channels specs
    → (saved : Checkpoint) × (create_checkpoint checkpoint
          (some channels)
          id
          ts
          updated
          next
          to_snapshot
        ≡ ok saved)
      × (channels_from_checkpoint specs saved none ≡ ok channels)
unfolding create_checkpoint channels_from_checkpoint get
channels_from_checkpoint-create_checkpoint checkpoint channels specs id ts updated next to_snapshot
      all distinct same =
    let s =
      save to_snapshot next updated checkpoint.channel_versions checkpoint.channel_versions channels
        [] (λ j. refl) all distinct (λ j p. refl) in
    (
      new_checkpoint checkpoint id ts updated (s.values', s.versions'),
      rw s.returns,
      restore-ok channels specs s.values' same s.restores,
    )
