-- ===== src/Store/Places.antt =====
-- What stands at a place of the store, and which namespaces it has.
use langgraph_study.Prelude.{
  ℕ, String, Bool, ◌||◌, ◌≡◌, ◌∙◌, ap, Option, none, some, is_some, [], str_eq, if◌then◌else◌,
  arith, Bool-cases, inl, inr,
}
use langgraph_study.Values.{Value}
use langgraph_study.Dict
use langgraph_study.Dict.{Dict, get-remove}
use langgraph_study.Table.{get, put, get-put}
use langgraph_study.Store.Namespaces.{
  Namespace, namespace, namespace_eq, namespace_eq_iff, place_eq,
}
use langgraph_study.Store.InMemoryStore.{Item, InMemoryStore, Data, items_of, touch, apply_put_op}

abbrev pub value_of : Option Item → Option (Dict Value)
value_of none = none
value_of (some found) = some found.value

unfoldable pub value_at : Namespace → String → Data → Option (Dict Value)
value_at ns key contents = value_of (Dict.get key (items_of ns contents))

-- Whether the store has the namespace, with items or without.
abbrev pub is_known : Namespace → Data → Bool
is_known ns contents = is_some (get ns contents)

abbrev found_items : Option (Dict Item) → Dict Item
found_items none = []
found_items (some found) = found

items_of-put :
    (n m : Namespace) (d : Dict Item) (contents : Data)
    → items_of m (put n d contents) ≡ (if namespace_eq n m then d else items_of m contents)
items_of-put n m d contents = elim (Bool-cases (namespace_eq n m)) [
  | inl e ↦ ap found_items (get-put n m d contents) ∙ rw e
  | inr e ↦ ap found_items (get-put n m d contents) ∙ rw e
]

pub is_known-put :
    (n m : Namespace) (d : Dict Item) (contents : Data)
    → is_known m (put n d contents) ≡ (namespace_eq n m || is_known m contents)
is_known-put n m d contents = rw (get-put n m d contents) (ground arith)

pub is_known-touch :
    (n m : Namespace) (contents : Data)
    → is_known m (touch n contents) ≡ (namespace_eq n m || is_known m contents)
unfolding touch
is_known-touch n m contents = is_known-put n m (items_of n contents) contents

items_of-touch :
    (n m : Namespace) (contents : Data) → items_of m (touch n contents) ≡ items_of m contents
unfolding touch
items_of-touch n m contents = elim (Bool-cases (namespace_eq n m)) [
  | inl e ↦
      items_of-put n m (items_of n contents) contents
      ∙ rw e (ap (λ k. items_of k contents) ((namespace_eq_iff n m).0 e))
  | inr e ↦ items_of-put n m (items_of n contents) contents ∙ rw e
]

pub value_at-touch :
    (n m : Namespace) (j : String) (contents : Data)
    → value_at m j (touch n contents) ≡ value_at m j contents
unfolding value_at
value_at-touch n m j contents = ap (λ d. value_of (Dict.get j d)) (items_of-touch n m contents)

-- What stands in a namespace that is written, where the new items are the old ones but at a key.
value_at-put :
    (n m : Namespace) (k j : String) (v : Option (Dict Value)) (d : Dict Item) (contents : Data)
    → value_of (Dict.get j d)
      ≡ (if str_eq k j then v else value_of (Dict.get j (items_of n contents)))
    → value_at m j (put n d contents)
      ≡ (if place_eq (n, k) (m, j) then v else value_at m j contents)
unfolding value_at
value_at-put n m k j v d contents h = elim (Bool-cases (namespace_eq n m)) [
  | inl e ↦
      ap (λ i. value_of (Dict.get j i)) (items_of-put n m d contents)
      ∙ rw e (
          h
          ∙ ap (λ i. if str_eq k j then v else value_of (Dict.get j (items_of i contents)))
              ((namespace_eq_iff n m).0 e))
  | inr e ↦ ap (λ i. value_of (Dict.get j i)) (items_of-put n m d contents) ∙ rw e
]

pub value_at-apply_put_op :
    (now : ℕ → String) (n m : Namespace) (k j : String) (v : Option (Dict Value))
    (s : InMemoryStore)
    → value_at m j (apply_put_op now n k v s).contents
      ≡ (if place_eq (n, k) (m, j) then v else value_at m j s.contents)
unfolding apply_put_op
value_at-apply_put_op now n m k j none s =
    value_at-put n m k j none _ s.contents (rw get-remove (ground arith))
value_at-apply_put_op now n m k j (some v) s =
    value_at-put n m k j (some v) _ s.contents (rw Dict.get-put (ground arith))

pub is_known-apply_put_op :
    (now : ℕ → String) (n m : Namespace) (k : String) (v : Option (Dict Value)) (s : InMemoryStore)
    → is_known m (apply_put_op now n k v s).contents ≡ (namespace_eq n m || is_known m s.contents)
unfolding apply_put_op
is_known-apply_put_op now n m k none s = is_known-put n m _ s.contents
is_known-apply_put_op now n m k (some v) s = is_known-put n m _ s.contents
