-- ===== src/Pregel/Candidates.antt =====
-- The candidates of `prepare_next_tasks` (libs/langgraph/langgraph/pregel/_algo.py): the nodes of the
-- updated channels, sorted.
use langgraph_study.Prelude.{
  String, ◌≡◌, refl, sym, ◌∙◌, true, ◌||◌, List, [], ◌∷◌, str_eq, eq_iff, arith, Bool-cases, inl,
  inr, subst,
}
use langgraph_study.Dict.{Dict, has, get_or, add, has-add}
use langgraph_study.Pregel.NextTasks.{add_all, triggered_nodes, insert_name, sort_names}

has-add_all :
    (n : String) (ns nodes : List String) → has n (add_all ns nodes) ≡ (has n ns || has n nodes)
unfolding add_all has
has-add_all n [] nodes = refl
has-add_all n (m ∷ ns) nodes = ground (arith, has-add_all n ns (add m nodes), has-add m n nodes)

has-triggered_nodes :
    (trigger_to_nodes : Dict (List String)) (updated nodes : List String) (n : String)
    → has n nodes ≡ true
    → has n (triggered_nodes trigger_to_nodes updated nodes) ≡ true
unfolding triggered_nodes
has-triggered_nodes trigger_to_nodes [] nodes n h = h
has-triggered_nodes trigger_to_nodes (chan ∷ updated) nodes n h =
    let more = add_all (get_or chan trigger_to_nodes []) nodes in
    has-triggered_nodes trigger_to_nodes updated more n
      (ground (arith, has-add_all n (get_or chan trigger_to_nodes []) nodes))

-- A node of an updated channel is triggered.
pub has-triggered :
    (trigger_to_nodes : Dict (List String)) (updated nodes : List String) (chan n : String)
    → has chan updated ≡ true
    → has n (get_or chan trigger_to_nodes []) ≡ true
    → has n (triggered_nodes trigger_to_nodes updated nodes) ≡ true
unfolding triggered_nodes has
has-triggered trigger_to_nodes [] nodes chan n h g = cc
has-triggered trigger_to_nodes (c ∷ updated) nodes chan n h g =
    let more = add_all (get_or c trigger_to_nodes []) nodes in
    elim (Bool-cases (str_eq c chan)) [
      | inl e ↦ has-triggered_nodes trigger_to_nodes updated more n (
          has-add_all n (get_or c trigger_to_nodes []) nodes
          ∙ rw
              (subst (λ i. has n (get_or i trigger_to_nodes []) ≡ true) (sym ((eq_iff c chan).0 e))
                g)
              refl)
      | inr e ↦ has-triggered trigger_to_nodes updated more chan n (ground arith) g
    ]

has-insert_name :
    (n m : String) (ns : List String) → has n (insert_name m ns) ≡ (str_eq m n || has n ns)
unfolding insert_name has
has-insert_name n m [] = refl
has-insert_name n m (k ∷ ns) = ground (arith, has-insert_name n m ns)

pub has-sort_names : (n : String) (ns : List String) → has n (sort_names ns) ≡ has n ns
unfolding sort_names has
has-sort_names n [] = refl
has-sort_names n (m ∷ ns) = ground (arith, has-insert_name n m (sort_names ns), has-sort_names n ns)
