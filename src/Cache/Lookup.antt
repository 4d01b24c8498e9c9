-- ===== src/Cache/Lookup.antt =====
-- What `get` finds in a cache, and after a `set`.
use langgraph_study.Prelude.{
  ℕ, true, false, ◌≡◌, refl, sym, ◌∙◌, ap, Option, none, some, List, [], ◌∷◌, any, if◌then◌else◌,
  arith, Bool-cases, inl, inr,
}
use langgraph_study.Values.{Value}
use langgraph_study.Table.{get, get-put, AreDistinct}
use langgraph_study.Checkpointer.Serde.{Serde}
use langgraph_study.Store.Namespaces.{place, place_eq, place_eq_iff}
use langgraph_study.Cache.InMemoryCache.{
  Entry, Cache, FullKey, is_live, expiry_of, entry_at, set_entry, take_entry, get_keys, get_cached,
  set_cached,
}
use langgraph_study.Cache.Entries.{entry_at-set_entry, entry_at-delete_entry}

-- What a `set` at the time `now` leaves at a key for a later look.
abbrev pub set_value : ℕ → ℕ → Option (Value × Option ℕ) → Option Value → Option Value
set_value now later none old = old
set_value now later (some (value, ttl)) old =
    if is_live later (expiry_of now ttl) then some value else none

module _ (serde : Serde) where
  -- The value of an entry that has not expired
  abbrev pub live_value : ℕ → Option (Entry serde) → Option Value
  live_value now none = none
  live_value now (some (dump, expiry)) =
      if is_live now expiry then some (serde.loads dump) else none

  abbrev pub live_at : ℕ → FullKey → Cache serde → Option Value
  live_at now k cache = live_value now (entry_at serde k.0 k.1 cache)

  abbrev or_else : Option Value → Option Value → Option Value
  or_else none other = other
  or_else (some v) other = some v

  live_at-same :
      (now : ℕ) (k m : FullKey) (o : Option (Entry serde)) (cache : Cache serde)
      → entry_at serde k.0 k.1 cache ≡ o
      → place_eq k m ≡ true
      → live_at now m cache ≡ live_value now o
  live_at-same now k m o cache h q =
      ap (λ i. live_at now i cache) (sym ((place_eq_iff k m).0 q)) ∙ ap (live_value now) h

  -- A look at a key leaves every value that has not expired.
  live_at-take_entry :
      (now : ℕ) (k m : FullKey) (o : Option (Entry serde))
      (state : List (FullKey × Value) × Cache serde)
      → entry_at serde k.0 k.1 state.1 ≡ o
      → live_at now m (take_entry serde now k o state).1 ≡ live_at now m state.1
  live_at-take_entry now k m none (values, cache) h = refl
  live_at-take_entry now k m (some (dump, expiry)) (values, cache) h =
      elim (Bool-cases (is_live now expiry)) [
        | inl e ↦ rw e
        | inr e ↦ rw e (
            ap (live_value now) (entry_at-delete_entry serde k.0 m.0 k.1 m.1 cache)
            ∙ elim (Bool-cases (place_eq k m)) [
              | inl q ↦ rw q (sym (live_at-same now k m (some (dump, expiry)) cache h q ∙ rw e))
              | inr q ↦ rw q
            ])
      ]

  get-take_entry_same :
      (now : ℕ) (k m : FullKey) (o : Option (Entry serde))
      (state : List (FullKey × Value) × Cache serde)
      → place_eq k m ≡ true
      → get m (take_entry serde now k o state).0 ≡ or_else (live_value now o) (get m state.0)
  get-take_entry_same now k m none state q = refl
  get-take_entry_same now k m (some (dump, expiry)) state q =
      elim (Bool-cases (is_live now expiry)) [
        | inl e ↦ rw e (get-put k m (serde.loads dump) state.0 ∙ rw q)
        | inr e ↦ rw e
      ]

  get-take_entry_other :
      (now : ℕ) (k m : FullKey) (o : Option (Entry serde))
      (state : List (FullKey × Value) × Cache serde)
      → place_eq k m ≡ false
      → get m (take_entry serde now k o state).0 ≡ get m state.0
  get-take_entry_other now k m none state q = refl
  get-take_entry_other now k m (some (dump, expiry)) state q =
      elim (Bool-cases (is_live now expiry)) [
        | inl e ↦ rw e (get-put k m (serde.loads dump) state.0 ∙ rw q)
        | inr e ↦ rw e
      ]

  -- What a look at these keys gives for a key, beside what was there already.
  abbrev looked_up :
      ℕ → List FullKey → FullKey → List (FullKey × Value) × Cache serde → Option Value
  looked_up now keys m state =
      if any (λ k. place_eq k m) keys
      then or_else (live_at now m state.1) (get m state.0)
      else get m state.0

  or_else-twice : (a b : Option Value) → or_else a (or_else a b) ≡ or_else a b
  or_else-twice none b = refl
  or_else-twice (some v) b = refl

  looked_up-take_entry :
      (now : ℕ) (k m : FullKey) (keys : List FullKey) (o : Option (Entry serde))
      (state : List (FullKey × Value) × Cache serde)
      → entry_at serde k.0 k.1 state.1 ≡ o
      → looked_up now keys m (take_entry serde now k o state) ≡ looked_up now (k ∷ keys) m state
  looked_up-take_entry now k m keys o state h = elim (Bool-cases (place_eq k m)) [
    | inl q ↦
        rw
          (
            live_at-take_entry now k m o state h,
            q,
            get-take_entry_same now k m o state q,
            sym (live_at-same now k m o state.1 h q),
            or_else-twice,
          )
          (ground arith)
    | inr q ↦ rw (live_at-take_entry now k m o state h, q, get-take_entry_other now k m o state q)
  ]

  get-get_keys :
      (now : ℕ) (m : FullKey) (keys : List FullKey) (state : List (FullKey × Value) × Cache serde)
      → get m (get_keys serde now keys state).0 ≡ looked_up now keys m state
  unfolding get_keys
  get-get_keys now m [] state = refl
  get-get_keys now m (k ∷ keys) state =
      get-get_keys now m keys (take_entry serde now k (entry_at serde k.0 k.1 state.1) state)
      ∙ looked_up-take_entry now k m keys _ state refl

  or_else-none : (a : Option Value) → or_else a none ≡ a
  or_else-none none = refl
  or_else-none (some v) = refl

  live_at-set_entry :
      (later : ℕ) (k m : FullKey) (v : Value) (expiry : Option ℕ) (cache : Cache serde)
      → place_eq k m ≡ true
      → live_at later m (set_entry serde k.0 k.1 (serde.dumps v, expiry) cache)
        ≡ (if is_live later expiry then some v else none)
  live_at-set_entry later k m v expiry cache q =
      ap (live_value later) (entry_at-set_entry serde k.0 m.0 k.1 m.1 cache (serde.dumps v, expiry))
      ∙ rw q (rw serde.loads-dumps)

  live_at-set_cached :
      (now later : ℕ) (m : FullKey) (pairs : List (FullKey × (Value × Option ℕ)))
      (cache : Cache serde)
      → AreDistinct pairs
      → live_at later m (set_cached serde now pairs cache)
        ≡ set_value now later (get m pairs) (live_at later m cache)
  unfolding set_cached get
  live_at-set_cached now later m [] cache h = refl
  live_at-set_cached now later m (((n, k), (v, ttl)) ∷ pairs) cache (a, h) =
      let entry : Entry serde = (serde.dumps v, expiry_of now ttl) in
      live_at-set_cached now later m pairs (set_entry serde n k entry cache) h
      ∙ elim (Bool-cases (place_eq (n, k) m)) [
        | inl q ↦ rw q (
            ap (λ o. set_value now later o (live_at later m (set_entry serde n k entry cache)))
              (ap (λ i. get i pairs) (sym ((place_eq_iff (n, k) m).0 q)) ∙ a)
            ∙ live_at-set_entry later (n, k) m v (expiry_of now ttl) cache q)
        | inr q ↦ rw q (
            ap (λ o. set_value now later (get m pairs) (live_value later o))
              (entry_at-set_entry serde n m.0 k m.1 cache entry ∙ rw q))
      ]

-- A `get` gives for each of its keys what the last `set` put there, as long as its lifetime is not
-- over, and nothing once it is; for a key that the `set` does not name it gives what was there before,
-- if that has not expired. For a key that it is not asked for it gives nothing. That holds although a
-- `get` deletes what has expired. The keys of the `set` are distinct, as those of a mapping are.
pub get_cached-set_cached :
    (serde : Serde) (now later : ℕ) (pairs : List (FullKey × (Value × Option ℕ)))
    (keys : List FullKey) (k : FullKey) (cache : Cache serde)
    → AreDistinct pairs
    → get k (get_cached serde later keys (set_cached serde now pairs cache)).0 ≡ (
        if any (λ i. place_eq i k) keys
        then set_value now later (get k pairs) (live_at serde later k cache)
        else none)
unfolding get_cached get
get_cached-set_cached serde now later pairs keys k cache h =
    get-get_keys serde later k keys ([], set_cached serde now pairs cache)
    ∙ ap (λ v. if any (λ i. place_eq i k) keys then v else none)
        (or_else-none serde _ ∙ live_at-set_cached serde now later k pairs cache h)
