-- ===== src/Checkpointer/Samples.antt =====
-- A saver over a serializer, and what it stores.
use langgraph_study.Prelude.{
  ◌≤◌, length, String, ◌≡◌, refl, inl, none, some, [], ◌∷◌, eq_iff, arith,
}
use langgraph_study.Method.{ok}
use langgraph_study.Values.{num}
use langgraph_study.Dict.{get, has, put}
use langgraph_study.Pregel.Checkpoint.{Checkpoint}
use langgraph_study.Checkpointer.Objects.{value, nowhere, serde, tag}
use langgraph_study.Checkpointer.Metadata.{Config, get_checkpoint_metadata}
use langgraph_study.Checkpointer.InMemorySaver.{
  CheckpointTuple, InMemorySaver, new, get_tuple, put_checkpoint, put_at, checkpoints_of, Written,
  put_writes, put_each, writes_of, delete_thread, without_values, parent_config,
}
use langgraph_study.Checkpointer.Agreement.{get_tuple-delete_thread}
use langgraph_study.Table
use langgraph_study.Checkpointer.Keys.{
  BlobKey, blob_key, WritesKey, InnerKey, place, inner_key, writes_key, write_index,
}
use langgraph_study.Checkpointer.Writing.{get-put_writes}
use langgraph_study.Checkpointer.Listing.{Query, list_checkpoints}
use langgraph_study.Checkpointer.Listed.{length-list_checkpoints}
use langgraph_study.Checkpointer.Found.{list_checkpoints-AllFound, AllFound}
use langgraph_study.Checkpointer.Storing.{get_tuple-put_checkpoint_ne}
use langgraph_study.Checkpointer.Returning.{get_tuple-put_checkpoint, Covers, VersionsItsValues}

abbrev config : Config
config = record {
  thread_id = "t";
  checkpoint_ns = some "";
  checkpoint_id = some "c0";
  configurable = [];
  metadata = [];
}

abbrev other : Config
other = record config { thread_id = "u" }

abbrev saved : Checkpoint
saved = record nowhere {
  id = "c1";
  channel_values = ("a", num 5) ∷ [];
  channel_versions = ("a", 2) ∷ [];
}

abbrev saver : InMemorySaver serde
saver = (put_checkpoint serde (new serde) config saved [] (("a", 2) ∷ [])).1

saved-Covers : Covers serde (new serde) config saved (("a", 2) ∷ [])
saved-Covers k version e = inl e

saved-VersionsItsValues : VersionsItsValues serde saved
unfolding get
saved-VersionsItsValues k e = ground arith

get_tuple-put_checkpoint_example :
    (place : Config) × (t : CheckpointTuple) × ((put_checkpoint serde
        (new serde)
        config
        saved
        []
        (("a", 2) ∷ [])).0
      ≡ ok place)
    × (get_tuple serde saver place ≡ some t)
    × ((k : String) → get k t.checkpoint.channel_values ≡ get k saved.channel_values)
    × (without_values t.checkpoint ≡ without_values saved)
    × (t.metadata ≡ get_checkpoint_metadata config [])
    × (t.parent_config ≡ parent_config "t" "" (some "c0"))
unfolding has
get_tuple-put_checkpoint_example =
    get_tuple-put_checkpoint serde (new serde) config "" saved [] (("a", 2) ∷ []) refl refl
      (refl, tt) (refl, tt) saved-Covers saved-VersionsItsValues

get_tuple-put_checkpoint_ne_example :
    get_tuple serde saver other ≡ get_tuple serde (new serde) other
unfolding has
get_tuple-put_checkpoint_ne_example =
    get_tuple-put_checkpoint_ne serde (new serde) config saved [] (("a", 2) ∷ []) other (refl, tt)
      (inl (λ e. cc ((eq_iff "t" "u").1 e)))

abbrev query : Query
query = record { filter = []; before = none; limit = some 1 }

length-list_checkpoints_example : length (list_checkpoints serde saver none query) ≤ 1
length-list_checkpoints_example = length-list_checkpoints serde saver none query 1 refl

list_checkpoints-AllFound_example :
    AllFound serde saver (list_checkpoints serde saver (some config) query)
unfolding put_checkpoint put_at checkpoints_of put get has new
list_checkpoints-AllFound_example =
    list_checkpoints-AllFound serde saver config query (refl, tt) ((refl, tt), (refl, tt), tt)

abbrev outer : WritesKey
outer = record { thread_id = "t"; checkpoint_ns = ""; checkpoint_id = "c1" }

abbrev inner : InnerKey
inner = record { task_id = "task"; index = place 0 }

abbrev first_write : Written serde
first_write = record {
  task_id = "task";
  channel = "a";
  value = (tag, value (num 1));
  task_path = "";
}

abbrev wrote : InMemorySaver serde
wrote = put_writes serde saver outer (("a", num 1) ∷ []) "task" ""

get-put_writes_example :
    Table.get inner
      (writes_of serde (put_writes serde wrote outer (("a", num 2) ∷ []) "task" "again") outer)
    ≡ some first_write
unfolding put_writes put_each writes_of write_index put_checkpoint put_at new Table.get Table.put
get-put_writes_example =
    get-put_writes serde wrote outer outer (("a", num 2) ∷ []) "task" "again" inner 0 first_write
      refl refl

abbrev blob : BlobKey
blob = record { thread_id = "t"; checkpoint_ns = ""; channel = "a"; version = 2 }

-- The thread of the saver and of the writes.
get_tuple-delete_thread_example :
    (get_tuple serde (delete_thread serde wrote "t") config ≡ none)
    × (get "t" (delete_thread serde wrote "t").storage ≡ none)
    × (Table.get outer (delete_thread serde wrote "t").writes ≡ none)
    × (Table.get blob (delete_thread serde wrote "t").blobs ≡ none)
get_tuple-delete_thread_example = get_tuple-delete_thread serde wrote "t" config outer blob
