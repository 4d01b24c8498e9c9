-- ===== src/Graph/AddMessages.antt =====
-- `add_messages` of libs/langgraph/langgraph/graph/message.py, on two lists of messages that are typed
-- already. An id that `uuid4` makes is the next of the fresh ids that the caller gives, and the
-- `langchain-openai` format is a function that the caller gives: both are code of other packages.
use langgraph_study.Prelude.{
  ℕ, suc, ◌+◌, String, Bool, true, false, ◌&&◌, Option, none, some, List, [], ◌∷◌, ◌++◌, length,
  drop, str_eq, if◌then◌else◌,
}
use langgraph_study.Method.{Result, ok, err, value_error, ◌>>=◌}
use langgraph_study.Dict.{Dict, get, put, has, add}
use langgraph_study.Graph.Message.{Message, set_at, index_from}

-- `REMOVE_ALL_MESSAGES`
abbrev pub remove_all_messages : String
remove_all_messages = "__remove_all__"

-- `if m.id is None: m.id = str(uuid.uuid4())`, where `n` ids have been made before.
unfoldable pub assign_id : Option String → (ℕ → String) → ℕ → Message → Message × ℕ
assign_id none fresh n m = (record m { id = some (fresh n) }, suc n)
assign_id (some mid) fresh n m = (m, n)

unfoldable pub assign_ids : (ℕ → String) → ℕ → List Message → List Message × ℕ
assign_ids fresh n [] = ([], n)
assign_ids fresh n (m ∷ ms) =
    let (head, next) = assign_id m.id fresh n m in
    let (rest, made) = assign_ids fresh next ms in (head ∷ rest, made)

-- `m.id`, which every message has by then.
abbrev pub message_id : Message → String
message_id m = elim m.id [ none ↦ "" | some mid ↦ mid ]

-- `remove_all_idx`, from the index `idx` on
unfoldable pub find_remove_all : ℕ → Option ℕ → List Message → Option ℕ
find_remove_all idx found [] = found
find_remove_all idx found (m ∷ ms) =
    find_remove_all (suc idx)
      (if m.is_removal && str_eq (message_id m) remove_all_messages then some idx else found) ms

-- `s.discard(k)`
unfoldable pub discard : String → List String → List String
discard k [] = []
discard k (j ∷ js) = let rest = discard k js in if str_eq j k then rest else j ∷ rest

-- `merged`, `merged_by_id` and `ids_to_remove`.
pub record Merging : Type 0 where
  pub merged : List Message
  pub by_id : Dict ℕ
  pub to_remove : List String

-- The loop body: `merged_by_id.get(m.id)`, and whether the message is a RemoveMessage.
unfoldable pub merge_at : Option ℕ → Bool → Message → Merging → Result Merging
merge_at (some existing_idx) true m s = ok (record s { to_remove = add (message_id m) s.to_remove })
merge_at (some existing_idx) false m s = ok (record s {
  merged = set_at existing_idx m s.merged;
  to_remove = discard (message_id m) s.to_remove;
})
merge_at none true m s = err value_error
merge_at none false m s =
    ok (record s {
      merged = s.merged ++ m ∷ [];
      by_id = put (message_id m) (length s.merged) s.by_id;
    })

unfoldable pub merge_messages : List Message → Merging → Result Merging
merge_messages [] s = ok s
merge_messages (m ∷ ms) s = do
  next ← merge_at (get (message_id m) s.by_id) m.is_removal m s
  merge_messages ms next

-- `[m for m in merged if m.id not in ids_to_remove]`
unfoldable pub keep_messages : List String → List Message → List Message
keep_messages to_remove [] = []
keep_messages to_remove (m ∷ ms) =
    let rest = keep_messages to_remove ms in if has (message_id m) to_remove then rest else m ∷ rest

-- The argument `format`.
unfoldable pub apply_format :
    (List Message → List Message) → Option String → List Message → Result (List Message)
apply_format format_messages none merged = ok merged
apply_format format_messages (some format) merged =
    if str_eq format "langchain-openai"
    then ok (format_messages merged)
    else if str_eq format ""
    then ok merged
    else err value_error

-- The merge, once all messages have ids.
unfoldable pub merge_lists :
    (List Message → List Message)
    → Option String
    → List Message
    → List Message
    → Result (List Message)
merge_lists format_messages format left right = do
  s ← merge_messages right (record { merged = left; by_id = index_from 0 left []; to_remove = [] })
  apply_format format_messages format (keep_messages s.to_remove s.merged)

unfoldable pub add_messages :
    (ℕ → String)
    → (List Message → List Message)
    → Option String
    → List Message
    → List Message
    → Result (List Message)
add_messages fresh format_messages format left right =
    let (left', made) = assign_ids fresh 0 left in
    let (right', made') = assign_ids fresh made right in
    elim (find_remove_all 0 none right') [
      | some idx ↦ ok (drop (idx + 1) right')
      | none ↦ merge_lists format_messages format left' right'
    ]
