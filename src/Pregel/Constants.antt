-- ===== src/Pregel/Constants.antt =====
-- The reserved keys of libs/langgraph/langgraph/_internal/_constants.py.
use langgraph_study.Prelude.{String, List, [], ◌∷◌}

abbrev pub interrupt_key : String
interrupt_key = "__interrupt__"

abbrev pub resume_key : String
resume_key = "__resume__"

abbrev pub error_key : String
error_key = "__error__"

abbrev pub error_source_node_key : String
error_source_node_key = "__error_source_node__"

abbrev pub no_writes_key : String
no_writes_key = "__no_writes__"

abbrev pub tasks_key : String
tasks_key = "__pregel_tasks"

abbrev pub return_key : String
return_key = "__return__"

abbrev pub push_key : String
push_key = "__pregel_push"

abbrev pub null_task_id : String
null_task_id = "00000000-0000-0000-0000-000000000000"

-- `RESERVED`
abbrev pub reserved_keys : List String
reserved_keys =
    "langsmith:hidden" ∷ "__input__" ∷ interrupt_key ∷ resume_key ∷ error_key
    ∷ error_source_node_key ∷ no_writes_key ∷ "__pregel_send" ∷ "__pregel_read"
    ∷ "__pregel_checkpointer" ∷ "__pregel_stream" ∷ "checkpoint_map" ∷ "__pregel_resuming"
    ∷ "__pregel_replay_state" ∷ "__pregel_task_id" ∷ "checkpoint_id" ∷ "checkpoint_ns"
    ∷ "__pregel_timed_attempt_observer" ∷ "__pregel_resume_map" ∷ "__pregel_stream_messages_v2"
    ∷ push_key ∷ "__pregel_pull" ∷ "|" ∷ ":" ∷ "configurable" ∷ []

-- The keys whose writes `apply_writes` passes over: they are read elsewhere.
abbrev pub control_keys : List String
control_keys =
    no_writes_key ∷ push_key ∷ resume_key ∷ interrupt_key ∷ return_key ∷ error_key
    ∷ error_source_node_key ∷ []
