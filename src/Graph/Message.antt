-- ===== src/Graph/Message.antt =====
-- `add_messages` and `_messages_delta_reducer` of libs/langgraph/langgraph/graph/message.py, on
-- messages that are typed already: `convert_to_messages` and `message_chunk_to_message` are code of
-- langchain_core, and so is the `langchain-openai` format. An id that `uuid4` makes is the next of a
-- list of fresh ids that the caller gives.
use langgraph_study.Prelude.{
  ℕ, zero, suc, String, Bool, true, false, Option, none, some, List, [], ◌∷◌, ◌++◌, length,
}
use langgraph_study.Values.{Value}
use langgraph_study.Dict
use langgraph_study.Dict.{Dict, get, put, has, add, mem}

-- What the reducers read of a `BaseMessage`: its id, whether it is a RemoveMessage, and the rest.
pub record Message : Type 0 where
  pub id : Option String
  pub is_removal : Bool
  pub content : Value

-- `result[i] = x`
unfoldable pub set_at {ℓ} : {A : Type ℓ} → ℕ → A → List A → List A
set_at i x [] = []
set_at zero x (y ∷ ys) = x ∷ ys
set_at (suc i) x (y ∷ ys) = y ∷ set_at i x ys

-- `{m.id: i for i, m in enumerate(state_msgs) if m.id is not None}`, from the index `i` on
unfoldable pub index_from : ℕ → List Message → Dict ℕ → Dict ℕ
index_from i [] index = index
index_from i (m ∷ ms) index =
    index_from (suc i) ms (elim m.id [ none ↦ index | some mid ↦ put mid i index ])

-- `result` and `index` of the loop.
pub record Slots : Type 0 where
  pub result : List (Option Message)
  pub index : Dict ℕ

-- The loop body for a message with an id: `index.get(mid)`, and whether it is a RemoveMessage.
unfoldable pub place_one : Option ℕ → Bool → String → Slots → Message → Slots
place_one none true mid slots msg = slots
place_one none false mid slots msg = record {
  result = slots.result ++ some msg ∷ [];
  index = put mid (length slots.result) slots.index;
}
place_one (some i) true mid slots msg = record {
  result = set_at i none slots.result;
  index = Dict.remove mid slots.index;
}
place_one (some i) false mid slots msg = record slots { result = set_at i (some msg) slots.result }

unfoldable pub reduce_id : Option String → Slots → Message → Slots
reduce_id none slots msg = record slots { result = slots.result ++ some msg ∷ [] }
reduce_id (some mid) slots msg = place_one (get mid slots.index) msg.is_removal mid slots msg

abbrev pub reduce_one : Slots → Message → Slots
reduce_one slots msg = reduce_id msg.id slots msg

unfoldable pub reduce_all : Slots → List Message → Slots
reduce_all slots [] = slots
reduce_all slots (msg ∷ msgs) = reduce_all (reduce_one slots msg) msgs

-- `[m for m in result if m is not None]`
unfoldable pub compact : List (Option Message) → List Message
compact [] = []
compact (none ∷ ms) = compact ms
compact (some m ∷ ms) = m ∷ compact ms

abbrev pub all_some : List Message → List (Option Message)
all_some [] = []
all_some (m ∷ ms) = some m ∷ all_some ms

-- A write: a list of messages, or one message.
pub data Write : Type 0 where
  several : List Message → Write
  single : Message → Write

unfoldable pub flatten_writes : List Write → List Message
flatten_writes [] = []
flatten_writes (several ms ∷ writes) = ms ++ flatten_writes writes
flatten_writes (single m ∷ writes) = m ∷ flatten_writes writes

unfoldable pub messages_delta_reducer : List Message → List Write → List Message
messages_delta_reducer state writes =
    compact
      (reduce_all (record { result = all_some state; index = index_from 0 state [] })
        (flatten_writes writes)).result
