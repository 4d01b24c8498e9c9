-- ===== src/Store/Searching.antt =====
-- What `search` finds.
use langgraph_study.Prelude.{
  ℕ, zero, suc, ◌≤◌, String, Bool, true, false, ◌≡◌, refl, ◌⊎◌, inl, inr, List, [], ◌∷◌, ◌++◌,
  length, drop, if◌then◌else◌, arith, Bool-cases,
}
use langgraph_study.Method.{Result, ok, err, ◌>>=◌, and_then}
use langgraph_study.Dict.{Dict}
use langgraph_study.Store.Namespaces.{Namespace, has_prefix}
use langgraph_study.Store.Filter.{Floats, filter_func}
use langgraph_study.Store.InMemoryStore.{
  InMemoryStore, Data, Item, OpResult, items, SearchOp, Preparing, first_of, filter_namespace,
  filter_items, search_page, end_batch, batch, prepare_ops, prepare_op, apply_put_ops,
}
use langgraph_study.Store.BaseStore.{search, batch_one, head_result}

abbrev pub AllOf : (Item → Type 0) → List Item → Type 0
AllOf P [] = Unit {0}
AllOf P (x ∷ xs) = P x × AllOf P xs

-- Where the filter does not raise
abbrev Each : (Item → Type 0) → Result (List Item) → Type 0
Each P (err e) = Unit {0}
Each P (ok xs) = AllOf P xs

AllOf-append :
    (P : Item → Type 0) (xs ys : List Item) → AllOf P xs → AllOf P ys → AllOf P (xs ++ ys)
AllOf-append P [] ys h k = k
AllOf-append P (x ∷ xs) ys (a, h) k = (a, AllOf-append P xs ys h k)

AllOf-mono :
    (P Q : Item → Type 0) → ((x : Item) → P x → Q x) → (xs : List Item) → AllOf P xs → AllOf Q xs
AllOf-mono P Q f [] h = tt
AllOf-mono P Q f (x ∷ xs) (a, h) = (f x a, AllOf-mono P Q f xs h)

Each-mono :
    (P Q : Item → Type 0)
    → ((x : Item) → P x → Q x)
    → (r : Result (List Item)) → Each P r
    → Each Q r
Each-mono P Q f (err e) h = tt
Each-mono P Q f (ok xs) h = AllOf-mono P Q f xs h

AllOf-drop : (P : Item → Type 0) (n : ℕ) (xs : List Item) → AllOf P xs → AllOf P (drop n xs)
AllOf-drop P zero xs h = h
AllOf-drop P (suc n) [] h = h
AllOf-drop P (suc n) (x ∷ xs) (a, h) = AllOf-drop P n xs h

AllOf-first_of : (P : Item → Type 0) (n : ℕ) (xs : List Item) → AllOf P xs → AllOf P (first_of n xs)
AllOf-first_of P zero xs h = tt
AllOf-first_of P (suc n) [] h = h
AllOf-first_of P (suc n) (x ∷ xs) (a, h) = (a, AllOf-first_of P n xs h)

pub length-first_of : (n : ℕ) (xs : List Item) → length (first_of n xs) ≤ n
length-first_of zero xs = omega arith
length-first_of (suc n) [] = omega arith
length-first_of (suc n) (x ∷ xs) = omega (arith, length-first_of n xs)

-- The item stands in one of these items, or in a namespace with the prefix.
abbrev pub IsItemIn : Item → Dict Item → Type 0
IsItemIn x [] = ⊥
IsItemIn x ((key, y) ∷ found) = (x ≡ y) ⊎ IsItemIn x found

abbrev pub IsUnder : Namespace → Item → Data → Type 0
IsUnder start x [] = ⊥
IsUnder start x ((ns, found) ∷ contents) =
    ((has_prefix start ns ≡ true) × IsItemIn x found) ⊎ IsUnder start x contents

module _ (floats : Floats) (op : SearchOp) where
  abbrev pub Passes : Item → Type 0
  Passes x = filter_func floats x.value op.filter ≡ ok true

  keep_one :
      (P : Item → Type 0) (x : Item) (r : Result Bool) (rs : Result (List Item))
      → (r ≡ ok true → P x)
      → Each P rs
      → Each P (r >>= λ passes. rs >>= λ more. ok (if passes then x ∷ more else more))
  keep_one P x (err e) rs h k = tt
  keep_one P x (ok b) (err e) h k = tt
  keep_one P x (ok true) (ok xs) h k = (h refl, k)
  keep_one P x (ok false) (ok xs) h k = k

  filter_namespace-Each :
      (found : Dict Item)
      → Each (λ x. IsItemIn x found × Passes x) (filter_namespace floats op.filter found)
  unfolding filter_namespace
  filter_namespace-Each [] = tt
  filter_namespace-Each ((key, y) ∷ found) =
      keep_one (λ x. IsItemIn x ((key, y) ∷ found) × Passes x) y
        (filter_func floats y.value op.filter) (filter_namespace floats op.filter found)
        (λ e. (inl refl, e))
        (Each-mono (λ x. IsItemIn x found × Passes x) _ (λ x (a, b). (inr a, b)) _
          (filter_namespace-Each found))

  join_two :
      (P : Item → Type 0) (r s : Result (List Item))
      → Each P r
      → Each P s
      → Each P (r >>= λ these. s >>= λ more. ok (these ++ more))
  join_two P (err e) s h k = tt
  join_two P (ok xs) (err e) h k = tt
  join_two P (ok xs) (ok ys) h k = AllOf-append P xs ys h k

  abbrev pub IsMatch : Data → Item → Type 0
  IsMatch contents x = IsUnder op.namespace_prefix x contents × Passes x

  filter_items-Each : (contents : Data) → Each (IsMatch contents) (filter_items floats op contents)
  unfolding filter_items
  filter_items-Each [] = tt
  filter_items-Each ((ns, found) ∷ contents) =
      let rest =
        Each-mono (IsMatch contents) (IsMatch ((ns, found) ∷ contents)) (λ x (a, b). (inr a, b))
          (filter_items floats op contents) (filter_items-Each contents) in
      elim (Bool-cases (has_prefix op.namespace_prefix ns)) [
        | inl e ↦ rw e (
            join_two (IsMatch ((ns, found) ∷ contents)) _ (filter_items floats op contents)
              (Each-mono (λ x. IsItemIn x found × Passes x) _ (λ x (a, b). (inl (e, a), b)) _
                (filter_namespace-Each found))
              rest)
        | inr e ↦ rw e rest
      ]

  -- What a search answers, and that it leaves the store.
  abbrev pub Searched : InMemoryStore → Result OpResult × InMemoryStore → Type 0
  Searched s (ok (items found), n) =
      (n ≡ s) × (length found ≤ op.limit) × AllOf (IsMatch s.contents) found
  Searched s (ok r, n) = ⊥
  Searched s (err e, n) = n ≡ s

  module _ (now : ℕ → String) where
    answer : Result OpResult × Preparing → Result OpResult × InMemoryStore
    answer done =
        and_then
          (end_batch floats now
            (and_then done (λ r p. and_then (ok [], p) (λ rs p'. (ok (r ∷ rs), p')))))
          (λ results s. (head_result results, s))

    answer-Searched :
        (s : InMemoryStore) (r : Result (List Item))
        → Each (IsMatch s.contents) r
        → Searched s (answer (search_page op (record { store = s; put_ops = [] }) r))
    unfolding answer apply_put_ops
    answer-Searched s (err e) h = refl
    answer-Searched s (ok found) h = (
      refl,
      length-first_of op.limit (drop op.offset found),
      AllOf-first_of _ op.limit (drop op.offset found) (AllOf-drop _ op.offset found h),
    )

-- A search changes nothing of the store. What it gives are at most as many items as its limit, and each
-- is an item of the store in a namespace that begins with the prefix and passes the filter. Where it
-- raises it changes nothing either.
pub search-Searched :
    (floats : Floats) (now : ℕ → String) (op : SearchOp) (s : InMemoryStore)
    → Searched floats op s (search floats now op s)
unfolding search batch_one batch prepare_ops prepare_op answer
search-Searched floats now op s =
    answer-Searched floats op now s (filter_items floats op s.contents)
      (filter_items-Each floats op s.contents)
