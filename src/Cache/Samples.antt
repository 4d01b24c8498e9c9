-- ===== src/Cache/Samples.antt =====
-- A cache with two keys that are set, one of them for two seconds.
use langgraph_study.Prelude.{ℕ, ◌≡◌, refl, Option, none, some, List, [], ◌∷◌}
use langgraph_study.Values.{Value, num}
use langgraph_study.Table.{get}
use langgraph_study.Store.Namespaces.{place}
use langgraph_study.Checkpointer.Objects.{serde}
use langgraph_study.Cache.InMemoryCache.{FullKey, get_cached, set_cached}
use langgraph_study.Cache.Lookup.{get_cached-set_cached}

abbrev short : FullKey
short = ("n" ∷ [], "short")

abbrev pairs : List (FullKey × (Value × Option ℕ))
pairs = (short, (num 1, some 2)) ∷ (("n" ∷ [], "long"), (num 2, none)) ∷ []

-- One second later it is there.
get_cached-set_cached_example :
    get short (get_cached serde 1000000 (short ∷ []) (set_cached serde 0 pairs [])).0 ≡ some (num 1)
unfolding get
get_cached-set_cached_example =
    get_cached-set_cached serde 0 1000000 pairs (short ∷ []) short [] (refl, (refl, tt))
