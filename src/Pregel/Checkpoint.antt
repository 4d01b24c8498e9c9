-- ===== src/Pregel/Checkpoint.antt =====
-- `Checkpoint` of libs/checkpoint/langgraph/checkpoint/base/__init__.py. Versions are integers, as
-- `increment` and `BaseCheckpointSaver.get_next_version` make them; the string and float versions
-- that some savers make are not modelled.
use langgraph_study.Prelude.{ℕ, String, Option, List}
use langgraph_study.Values.{Value}
use langgraph_study.Dict.{Dict}

abbrev pub ChannelVersions : Type 0
ChannelVersions = Dict ℕ

pub record Checkpoint : Type 0 where
  pub v : ℕ
  pub id : String
  pub ts : String
  pub channel_values : Dict Value
  pub channel_versions : ChannelVersions
  pub versions_seen : Dict ChannelVersions
  pub updated_channels : Option (List String)
