-- ===== src/Dict.antt =====
-- Python's `dict` with string keys: the items in the order in which their keys came in. A new value
-- for a key that is there keeps the key's place.
use langgraph_study.Prelude.{
  String, ◌≡◌, ◌≢◌, refl, Bool, true, false, ◌||◌, Option, none, some, is_some, List, [], ◌∷◌, ◌++◌,
  str_eq, eq_iff, if◌then◌else◌, arith, Bool-cases, inl, inr,
}

abbrev pub Dict {ℓ} : Type ℓ → Type ℓ
Dict V = List (String × V)

-- `k in ks`, for a list or a set of strings
unfoldable pub has : String → List String → Bool
has k [] = false
has k (j ∷ js) = str_eq j k || has k js

-- `s.add(k)`
unfoldable pub add : String → List String → List String
add k s = if has k s then s else s ++ k ∷ []

pub has-append : (k : String) (s t : List String) → has k (s ++ t) ≡ (has k s || has k t)
unfolding has
has-append k [] t = refl
has-append k (j ∷ s) t = ground (arith, has-append k s t)

pub has-add : (k j : String) (s : List String) → has j (add k s) ≡ (str_eq k j || has j s)
unfolding add
has-add k j s = elim (Bool-cases (has k s)) [
  | inl e ↦ rw e (ground (arith, eq_iff k j))
  | inr e ↦ rw e (rw has-append (unfold has in ground arith))
]

module _ {ℓ} {V : Type ℓ} where
  -- `d.get(k)`
  unfoldable pub get : String → Dict V → Option V
  get k [] = none
  get k ((j, v) ∷ d) = if str_eq j k then some v else get k d

  -- `d[k] = v`
  unfoldable pub put : String → V → Dict V → Dict V
  put k v [] = (k, v) ∷ []
  put k v ((j, w) ∷ d) = if str_eq j k then (j, v) ∷ d else (j, w) ∷ put k v d

  -- `del d[k]`, or `d.pop(k, None)`
  unfoldable pub remove : String → Dict V → Dict V
  remove k [] = []
  remove k ((j, v) ∷ d) = if str_eq j k then remove k d else (j, v) ∷ remove k d

  -- `list(d)`
  abbrev pub keys : Dict V → List String
  keys [] = []
  keys ((j, v) ∷ d) = j ∷ keys d

  abbrev pub values : Dict V → List V
  values [] = []
  values ((j, v) ∷ d) = v ∷ values d

  -- `k in d`
  abbrev pub mem : String → Dict V → Bool
  mem k d = is_some (get k d)

  -- `d.get(k, default)`
  abbrev pub get_or : String → Dict V → V → V
  get_or k d default = elim (get k d) [ none ↦ default | some v ↦ v ]

  -- `d.update(more)`
  abbrev pub update : Dict V → Dict V → Dict V
  update d [] = d
  update d ((k, v) ∷ more) = update (put k v d) more

  pub get-put :
      (k j : String) (v : V) (d : Dict V)
      → get j (put k v d) ≡ (if str_eq k j then some v else get j d)
  unfolding get put
  get-put k j v [] = refl
  get-put k j v ((i, w) ∷ d) = ground (arith, eq_iff k j, eq_iff i k, eq_iff i j, get-put k j v d)

  -- A new value for a key that is there leaves the keys, and their order.
  pub keys-put : (k : String) (v : V) (d : Dict V) → mem k d ≡ true → keys (put k v d) ≡ keys d
  unfolding get put
  keys-put k v [] h = ground arith
  keys-put k v ((i, w) ∷ d) h = ground (arith, keys-put k v d)

  pub keys-IsSome : (k : String) (v : V) (d : Dict V) → get k d ≡ some v → mem k d ≡ true
  keys-IsSome k v d h = rw h

  pub get-remove :
      (k j : String) (d : Dict V) → get j (remove k d) ≡ (if str_eq k j then none else get j d)
  unfolding get remove
  get-remove k j [] = ground arith
  get-remove k j ((i, w) ∷ d) = ground (arith, eq_iff k j, eq_iff i k, eq_iff i j, get-remove k j d)

  pub get-not_has : (k : String) (d : Dict V) → has k (keys d) ≡ false → get k d ≡ none
  unfolding has get
  get-not_has k [] h = refl
  get-not_has k ((j, v) ∷ d) h = ground (arith, get-not_has k d)

  pub get-nil : (k : String) (v : V) → get k [] ≢ some v
  unfolding get
  get-nil k v e = cc

  pub get-head : (k : String) (v : V) (d : Dict V) → get k ((k, v) ∷ d) ≡ some v
  unfolding get
  get-head k v d = ground (arith, eq_iff k k)

  pub get-tail :
      (k j : String) (v w : V) (d : Dict V)
      → has k (keys d) ≡ false
      → get j d ≡ some w
      → get j ((k, v) ∷ d) ≡ some w
  unfolding get
  get-tail k j v w d new e = ground (arith, eq_iff k j, get-not_has k d)
