-- ===== src/Checkpointer/Serde.antt =====
-- `SerializerProtocol` of libs/checkpoint/langgraph/checkpoint/serde/base.py, which a saver is given:
-- `dumps_typed` and `loads_typed`, at the three types of data that the saver stores. What the savers
-- rely on is that loading gives back what was dumped, and that no dump has the type "empty".
use langgraph_study.Prelude.{String, ◌≡◌, ◌≢◌}
use langgraph_study.Values.{Value}
use langgraph_study.Dict.{Dict}
use langgraph_study.Pregel.Checkpoint.{Checkpoint}

pub record Serde : Type 1 where
  pub Bytes : Type 0
  pub no_bytes : Bytes
  pub dumps : Value → String × Bytes
  pub loads : String × Bytes → Value
  pub dumps_checkpoint : Checkpoint → String × Bytes
  pub loads_checkpoint : String × Bytes → Checkpoint
  pub dumps_metadata : Dict Value → String × Bytes
  pub loads_metadata : String × Bytes → Dict Value
  pub loads-dumps : (v : Value) → loads (dumps v) ≡ v
  pub loads-dumps_checkpoint : (c : Checkpoint) → loads_checkpoint (dumps_checkpoint c) ≡ c
  pub loads-dumps_metadata : (m : Dict Value) → loads_metadata (dumps_metadata m) ≡ m
  pub dumps-ne-empty : (v : Value) → (dumps v).0 ≢ "empty"
