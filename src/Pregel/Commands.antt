-- ===== src/Pregel/Commands.antt =====
-- `map_command` of libs/langgraph/langgraph/pregel/_io.py, and `Command` of
-- libs/langgraph/langgraph/types.py. The keys that the class of an update is annotated with, and their
-- values in it (`get_update_as_tuples`), are an argument. A generator is the list of what it yields
-- and how it ends.
use langgraph_study.Prelude.{
  String, Bool, true, false, not, Option, none, some, List, [], ◌∷◌, ◌++◌, nat_eq, str_eq,
  if◌then◌else◌,
}
use langgraph_study.Method.{Result, ok, err, type_error, invalid_update}
use langgraph_study.Values.{
  Value, null, bool, num, str, list, tuple, set, dict, send, Items, nil, cons, Fields, Fields.end,
  field, to_list,
}
use langgraph_study.Pregel.Constants.{null_task_id, tasks_key, resume_key}

pub record Command : Type 0 where
  pub graph : Option String
  pub update : Value
  pub resume : Value
  pub goto : Value

abbrev pub parent_graph : String
parent_graph = "__parent__"

abbrev pub start_key : String
start_key = "__start__"

-- Whether a condition takes the value for true
abbrev pub is_truthy : Value → Bool
is_truthy null = false
is_truthy (bool b) = b
is_truthy (num n) = not (nat_eq n 0)
is_truthy (str s) = not (str_eq s "")
is_truthy (list nil) = false
is_truthy (tuple nil) = false
is_truthy (set nil) = false
is_truthy (dict end) = false
is_truthy v = true

abbrev pub items_of : Fields → List (String × Value)
items_of end = []
items_of (field k v fs) = (k, v) ∷ items_of fs

-- The pairs of these values, if all are tuples of a text and a value.
unfoldable pub pairs_of : Items → Option (List (String × Value))
pairs_of nil = some []
pairs_of (cons (tuple (cons (str k) (cons v nil))) vs) = elim (pairs_of vs) [
  | none ↦ none
  | some pairs ↦ some ((k, v) ∷ pairs)
]
pairs_of (cons v vs) = none

-- `(list, tuple)`
abbrev pub elements? : Value → Option Items
elements? (list vs) = some vs
elements? (tuple vs) = some vs
elements? v = none

abbrev pub pairs? : Option Items → Option (List (String × Value))
pairs? none = none
pairs? (some vs) = pairs_of vs

-- `[("__root__", self.update)]`, or nothing for None
abbrev pub root_update : Value → List (String × Value)
root_update null = []
root_update v = ("__root__", v) ∷ []

module _ (annotated : Value → Option (List (String × Value))) where
  -- An update that is no dict and no list of pairs
  abbrev pub other_update : Value → List (String × Value)
  other_update v = elim (annotated v) [ none ↦ root_update v | some pairs ↦ pairs ]

  unfoldable pub update_as_tuples : Value → List (String × Value)
  unfolding pairs_of
  update_as_tuples (dict fs) = items_of fs
  update_as_tuples v = elim (pairs? (elements? v)) [ none ↦ other_update v | some pairs ↦ pairs ]

abbrev pub Writes : Type 0
Writes = List (String × String × Value)

unfoldable pub append_text : String → String → String
append_text String.[] t = t
append_text (String.◌∷◌ c s) t = String.◌∷◌ c (append_text s t)

-- The destinations one after the other, up to one that is neither a Send nor a name
unfoldable pub map_goto : List Value → Writes × Result (Unit {0})
unfolding append_text
map_goto [] = ([], ok tt)
map_goto (send node arg ∷ sends) =
    let (writes, ended) = map_goto sends in
    ((null_task_id, tasks_key, send node arg) ∷ writes, ended)
map_goto (str name ∷ sends) =
    let (writes, ended) = map_goto sends in
    ((null_task_id, append_text "branch:to:" name, str start_key) ∷ writes, ended)
map_goto (v ∷ sends) = ([], err type_error)

abbrev pub destinations : Value → List Value
destinations v =
    if is_truthy v then elim (elements? v) [ none ↦ v ∷ [] | some vs ↦ to_list vs ] else []

abbrev pub for_null_task : List (String × Value) → Writes
for_null_task [] = []
for_null_task ((k, v) ∷ pairs) = (null_task_id, k, v) ∷ for_null_task pairs

abbrev pub resume_writes : Value → Writes
resume_writes null = []
resume_writes v = (null_task_id, resume_key, v) ∷ []

abbrev pub is_parent : Option String → Bool
is_parent none = false
is_parent (some graph) = str_eq graph parent_graph

-- What follows the destinations
abbrev pub then_yield : Writes × Result (Unit {0}) → Writes → Writes × Result (Unit {0})
then_yield (writes, err e) more = (writes, err e)
then_yield (writes, ok _) more = (writes ++ more, ok tt)

unfoldable pub map_command :
    (Value → Option (List (String × Value))) → Command → Writes × Result (Unit {0})
unfolding map_goto update_as_tuples
map_command annotated cmd =
    if is_parent cmd.graph
    then ([], err invalid_update)
    else then_yield (map_goto (destinations cmd.goto)) (
        resume_writes cmd.resume
        ++ for_null_task
            (if is_truthy cmd.update then update_as_tuples annotated cmd.update else []))
