-- ===== src/Table.antt =====
-- Python's `dict` with keys that are tuples: an association list over an equality test.
use langgraph_study.Prelude.{
  ◌≡◌, refl, ◌∙◌, ◌↔◌, Bool-cases, inl, inr, Bool, true, Option, none, some, List, [], ◌∷◌,
  if◌then◌else◌, arith,
}

pub record Eq {ℓ} (K : Type ℓ) : Type ℓ where
  pub beq : K → K → Bool
  pub beq_iff : (a b : K) → (beq a b ≡ true) ↔ (a ≡ b)

module _ {ℓ κ} {K : Type ℓ} {V : Type κ} ⦃e : Eq K⦄ where
  unfoldable pub get : K → List (K × V) → Option V
  get k [] = none
  get k ((j, v) ∷ t) = if e.beq j k then some v else get k t

  unfoldable pub put : K → V → List (K × V) → List (K × V)
  put k v [] = (k, v) ∷ []
  put k v ((j, w) ∷ t) = if e.beq j k then (j, v) ∷ t else (j, w) ∷ put k v t

  -- The items whose key passes the test.
  unfoldable pub keep : (K → Bool) → List (K × V) → List (K × V)
  keep test [] = []
  keep test ((j, v) ∷ t) = if test j then (j, v) ∷ keep test t else keep test t

  pub get-put :
      (k j : K) (v : V) (t : List (K × V))
      → get j (put k v t) ≡ (if e.beq k j then some v else get j t)
  unfolding get put
  get-put k j v [] = refl
  get-put k j v ((i, w) ∷ t) =
      ground (arith, e.beq_iff k j, e.beq_iff i k, e.beq_iff i j, get-put k j v t)

  pub get-keep :
      (test : K → Bool) (k : K) (t : List (K × V))
      → get k (keep test t) ≡ (if test k then get k t else none)
  unfolding get keep
  get-keep test k [] = ground arith
  get-keep test k ((j, v) ∷ t) = ground (arith, e.beq_iff j k, get-keep test k t)

  -- No two items have one key.
  abbrev pub AreDistinct : List (K × V) → Type κ
  AreDistinct [] = Unit {κ}
  AreDistinct ((k, v) ∷ t) = (get k t ≡ none) × AreDistinct t

  pub put-AreDistinct : (k : K) (v : V) (t : List (K × V)) → AreDistinct t → AreDistinct (put k v t)
  unfolding put get
  put-AreDistinct k v [] h = (refl, tt)
  put-AreDistinct k v ((j, w) ∷ t) (a, h) = elim (Bool-cases (e.beq j k)) [
    | inl q ↦ rw q (a, h)
    | inr q ↦
        rw q
          (get-put k j v t ∙ ground (arith, e.beq_iff j k, e.beq_iff k j), put-AreDistinct k v t h)
  ]
