-- ===== src/Graph/Samples.antt =====
-- Lists of messages, and what the reducer makes of them.
use langgraph_study.Prelude.{none, ◌≡◌, refl, subst, false, List, [], ◌∷◌, ◌++◌, eq_iff}
use langgraph_study.Values.{null, num, str}
use langgraph_study.Dict
use langgraph_study.Dict.{get, put}
use langgraph_study.Graph.Message.{
  Message, Write, several, single, messages_delta_reducer, flatten_writes, reduce_all, reduce_id,
  place_one, index_from, compact, set_at,
}
use langgraph_study.Method.{ok}
use langgraph_study.Graph.AddMessages.{add_messages}
use langgraph_study.Graph.Parity.{add_messages-eq-messages_delta_reducer}
use langgraph_study.Graph.Compact.{HasDistinctIds, has_message}
use langgraph_study.Graph.Steps.{merge}
use langgraph_study.Graph.Batching.{
  kept, removal, messages_delta_reducer-eq-merge, messages_delta_reducer-append,
}

abbrev state : List Message
state = kept "a" (str "hello") ∷ kept "b" (str "hi") ∷ []

abbrev xs : List Write
xs = several (kept "c" (num 1) ∷ removal "a" null ∷ []) ∷ single (kept "b" (num 2)) ∷ []

abbrev ys : List Write
ys = single (kept "a" (num 3)) ∷ []

state-HasDistinctIds : HasDistinctIds state
unfolding has_message
state-HasDistinctIds = (
  (λ k h. subst (λ i. has_message i (kept "b" (str "hi") ∷ []) ≡ false) ((eq_iff "a" k).0 h) refl),
  ((λ k h. refl), tt),
)

messages_delta_reducer-eq-merge_example :
    messages_delta_reducer state xs ≡ merge state (flatten_writes xs)
messages_delta_reducer-eq-merge_example =
    messages_delta_reducer-eq-merge state xs state-HasDistinctIds

messages_delta_reducer-append_example :
    messages_delta_reducer (messages_delta_reducer state xs) ys
    ≡ messages_delta_reducer state (xs ++ ys)
messages_delta_reducer-append_example =
    messages_delta_reducer-append state xs ys state-HasDistinctIds

-- It is not so on a list with two messages of one id: two removals of the id in two batches take both
-- messages away, and in one batch they leave the first.
abbrev doubled : List Message
doubled = kept "a" null ∷ kept "a" (num 1) ∷ []

abbrev remove_a : List Write
remove_a = single (removal "a" null) ∷ []

removed_in_two : messages_delta_reducer (messages_delta_reducer doubled remove_a) remove_a ≡ []
unfolding messages_delta_reducer flatten_writes reduce_all reduce_id place_one index_from compact
    set_at get put Dict.remove
removed_in_two = refl

removed_in_one : messages_delta_reducer doubled (remove_a ++ remove_a) ≡ kept "a" null ∷ []
unfolding messages_delta_reducer flatten_writes reduce_all reduce_id place_one index_from compact
    set_at get put Dict.remove
removed_in_one = refl

abbrev more : List Message
more = kept "b" (num 2) ∷ kept "c" (num 3) ∷ []

add_messages-eq-messages_delta_reducer_example :
    add_messages (λ n. "fresh") (λ ms. ms) none state more
    ≡ ok (messages_delta_reducer state (several more ∷ []))
add_messages-eq-messages_delta_reducer_example =
    add_messages-eq-messages_delta_reducer (λ n. "fresh") (λ ms. ms) state more (refl, (refl, tt))
      (refl, (refl, tt)) (refl, (refl, tt))
