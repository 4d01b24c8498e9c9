-- ===== src/Checkpointer/Objects.antt =====
-- A serializer that stores the object itself: the laws of Checkpointer.Serde hold for it.
use langgraph_study.Prelude.{String, ◌≢◌, refl, none, [], eq_iff}
use langgraph_study.Values.{Value, null}
use langgraph_study.Dict.{Dict}
use langgraph_study.Pregel.Checkpoint.{Checkpoint}
use langgraph_study.Checkpointer.Serde.{Serde}

-- What this serializer makes: the object itself.
pub data Stored : Type 0 where
  nothing : Stored
  value : Value → Stored
  checkpoint : Checkpoint → Stored
  metadata : Dict Value → Stored

abbrev pub nowhere : Checkpoint
nowhere = record {
  v = 4;
  id = "";
  ts = "";
  channel_values = [];
  channel_versions = [];
  versions_seen = [];
  updated_channels = none;
}

abbrev pub load_value : String × Stored → Value
load_value (t, value v) = v
load_value (t, s) = null

abbrev pub load_checkpoint : String × Stored → Checkpoint
load_checkpoint (t, checkpoint c) = c
load_checkpoint (t, s) = nowhere

abbrev pub load_metadata : String × Stored → Dict Value
load_metadata (t, metadata m) = m
load_metadata (t, s) = []

abbrev pub tag : String
tag = "object"

pub tag-ne-empty : tag ≢ "empty"
tag-ne-empty e = cc ((eq_iff tag "empty").1 e)

abbrev pub serde : Serde
serde = record {
  Bytes = Stored;
  no_bytes = nothing;
  dumps = λ v. (tag, value v);
  loads = load_value;
  dumps_checkpoint = λ c. (tag, checkpoint c);
  loads_checkpoint = load_checkpoint;
  dumps_metadata = λ m. (tag, metadata m);
  loads_metadata = load_metadata;
  loads-dumps = λ v. refl;
  loads-dumps_checkpoint = λ c. refl;
  loads-dumps_metadata = λ m. refl;
  dumps-ne-empty = λ v e. tag-ne-empty e;
}
