-- ===== src/Store/Puts.antt =====
-- `_apply_put_ops` over the dict of put operations: each place gets what its operation says.
use langgraph_study.Prelude.{
  ℕ, String, Bool, false, ◌||◌, ◌≡◌, refl, sym, ◌∙◌, ap, Option, none, some, [], ◌∷◌, arith,
  Bool-cases, inl, inr,
}
use langgraph_study.Values.{Value}
use langgraph_study.Dict.{Dict}
use langgraph_study.Table.{get, put, AreDistinct}
use langgraph_study.Store.Namespaces.{Namespace, namespace_eq, place, place_eq, place_eq_iff}
use langgraph_study.Store.InMemoryStore.{InMemoryStore, PutOps, apply_put_op, apply_put_ops}
use langgraph_study.Store.Places.{value_at, is_known, value_at-apply_put_op, is_known-apply_put_op}

-- What a put operation, if there is one, makes of the value.
abbrev pub overridden : Option (Option (Dict Value)) → Option (Dict Value) → Option (Dict Value)
overridden none old = old
overridden (some v) old = v

pub value_at-apply_put_ops :
    (now : ℕ → String) (m : Namespace) (j : String) (puts : PutOps) (s : InMemoryStore)
    → AreDistinct puts
    → value_at m j (apply_put_ops now puts s).contents
      ≡ overridden (get (m, j) puts) (value_at m j s.contents)
unfolding apply_put_ops get
value_at-apply_put_ops now m j [] s h = refl
value_at-apply_put_ops now m j (((n, k), v) ∷ puts) s (a, h) =
    value_at-apply_put_ops now m j puts (apply_put_op now n k v s) h
    ∙ rw (value_at-apply_put_op now n m k j v s) (elim (Bool-cases (place_eq (n, k) (m, j))) [
      | inl e ↦ rw (e, sym ((place_eq_iff (n, k) (m, j)).0 e), a)
      | inr e ↦ rw e
    ])

-- Whether one of the operations is for this namespace.
abbrev pub puts_in : Namespace → PutOps → Bool
puts_in m [] = false
puts_in m (((n, k), v) ∷ puts) = namespace_eq n m || puts_in m puts

pub is_known-apply_put_ops :
    (now : ℕ → String) (m : Namespace) (puts : PutOps) (s : InMemoryStore)
    → is_known m (apply_put_ops now puts s).contents ≡ (puts_in m puts || is_known m s.contents)
unfolding apply_put_ops
is_known-apply_put_ops now m [] s = refl
is_known-apply_put_ops now m (((n, k), v) ∷ puts) s =
    is_known-apply_put_ops now m puts (apply_put_op now n k v s)
    ∙ rw (is_known-apply_put_op now n m k v s) (ground arith)

pub puts_in-put :
    (m n : Namespace) (k : String) (v : Option (Dict Value)) (puts : PutOps)
    → puts_in m (put (n, k) v puts) ≡ (namespace_eq n m || puts_in m puts)
unfolding put
puts_in-put m n k v [] = ground arith
puts_in-put m n k v (((i, l), w) ∷ puts) = elim (Bool-cases (place_eq (i, l) (n, k))) [
  | inl e ↦ rw e (
      ground (
        arith,
        ap (λ (q : Namespace × String). namespace_eq q.0 m) ((place_eq_iff (i, l) (n, k)).0 e),
      ))
  | inr e ↦ rw e (rw (puts_in-put m n k v puts) (ground arith))
]
