-- ===== src/Checkpointer/Metadata.antt =====
-- The configs that a saver reads, and `get_checkpoint_metadata`, of
-- libs/checkpoint/langgraph/checkpoint/base/__init__.py.
use Prim.Native.Char.{code}
use text.Mathlib.Text.{starts_with}
use langgraph_study.Prelude.{
  String, ◌||◌, Option, none, some, List, [], ◌∷◌, nat_eq, str_eq, if◌then◌else◌,
}
use langgraph_study.Values.{Value, bool, num, str}
use langgraph_study.Dict.{Dict, has, put, mem}

-- A `RunnableConfig`: what savers read of `config["configurable"]`, the other entries there, and
-- `config["metadata"]`.
pub record Config : Type 0 where
  pub thread_id : String
  pub checkpoint_ns : Option String
  pub checkpoint_id : Option String
  pub configurable : Dict Value
  pub metadata : Dict Value

-- `config["configurable"].get("checkpoint_ns", "")`
abbrev pub namespace : Config → String
namespace config = elim config.checkpoint_ns [ none ↦ "" | some ns ↦ ns ]

-- `if x := ...`, of a string or None
unfoldable pub truthy : Option String → Option String
truthy none = none
truthy (some s) = if str_eq s "" then none else some s

abbrev pub excluded_metadata_keys : List String
excluded_metadata_keys =
    "thread_id" ∷ "checkpoint_id" ∷ "checkpoint_ns" ∷ "checkpoint_map" ∷ "langgraph_step"
    ∷ "langgraph_node" ∷ "langgraph_triggers" ∷ "langgraph_path" ∷ "langgraph_checkpoint_ns" ∷ []

-- `v.replace("\u0000", "")`
unfoldable pub strip_nul : String → String
strip_nul String.[] = String.[]
strip_nul (String.◌∷◌ c s) =
    let rest = strip_nul s in if nat_eq (code c) 0 then rest else String.◌∷◌ c rest

unfoldable pub clean : Value → Value
unfolding strip_nul
clean (str s) = str (strip_nul s)
clean v = v

unfoldable pub clean_all : Dict Value → Dict Value
unfolding clean
clean_all [] = []
clean_all ((k, v) ∷ d) = (k, clean v) ∷ clean_all d

-- `metadata[key] = ...` for a string, a number or a Boolean
unfoldable pub put_scalar : String → Value → Dict Value → Dict Value
unfolding strip_nul
put_scalar key (str s) metadata = put key (str (strip_nul s)) metadata
put_scalar key (num n) metadata = put key (num n) metadata
put_scalar key (bool b) metadata = put key (bool b) metadata
put_scalar key v metadata = metadata

unfoldable pub add_metadata : Dict Value → Dict Value → Dict Value
unfolding put_scalar
add_metadata [] metadata = metadata
add_metadata ((key, v) ∷ obj) metadata = add_metadata obj (
    if mem key metadata || has key excluded_metadata_keys || starts_with key "__"
    then metadata
    else put_scalar key v metadata)

unfoldable pub get_checkpoint_metadata : Config → Dict Value → Dict Value
unfolding clean_all add_metadata
get_checkpoint_metadata config metadata =
    add_metadata config.configurable (add_metadata config.metadata (clean_all metadata))
