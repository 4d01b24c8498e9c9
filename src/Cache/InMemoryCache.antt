-- ===== src/Cache/InMemoryCache.antt =====
-- `InMemoryCache` (libs/checkpoint/langgraph/cache/memory/__init__.py), whose lock makes every method
-- one step. Times are whole microseconds, and a lifetime is a number of seconds. The serializer is a
-- parameter, as it is for the savers.
use langgraph_study.Prelude.{
  ℕ, ◌+◌, String, Bool, true, not, Option, none, some, List, [], ◌∷◌, ltb, if◌then◌else◌,
}
use Prim.Native.Nat.{◌*◌}
use langgraph_study.Values.{Value}
use langgraph_study.Dict
use langgraph_study.Dict.{Dict}
use langgraph_study.Table.{get, put, keep}
use langgraph_study.Checkpointer.Serde.{Serde}
use langgraph_study.Store.Namespaces.{Namespace, namespace, namespace_eq, place}

-- `now < expiry`, or no expiry
abbrev pub is_live : ℕ → Option ℕ → Bool
is_live now none = true
is_live now (some expiry) = ltb now expiry

abbrev pub expiry_of : ℕ → Option ℕ → Option ℕ
expiry_of now none = none
expiry_of now (some ttl) = some (now + ttl * 1000000)

abbrev pub FullKey : Type 0
FullKey = Namespace × String

module _ (serde : Serde) where
  -- The type and the bytes of a dump, and its expiry
  abbrev pub Entry : Type 0
  Entry = (String × serde.Bytes) × Option ℕ

  abbrev pub Cache : Type 0
  Cache = List (Namespace × Dict Entry)

  abbrev pub entry_in : String → Option (Dict Entry) → Option Entry
  entry_in key none = none
  entry_in key (some found) = Dict.get key found

  abbrev pub entries : Option (Dict Entry) → Dict Entry
  entries none = []
  entries (some found) = found

  unfoldable pub entry_at : Namespace → String → Cache → Option Entry
  entry_at ns key cache = entry_in key (get ns cache)

  -- `del self._cache[ns][key]`
  unfoldable pub delete_entry : Namespace → String → Cache → Cache
  delete_entry ns key cache = put ns (Dict.remove key (entries (get ns cache))) cache

  -- The values so far and the cache, after what was found at this key
  abbrev pub take_entry :
      ℕ → FullKey → Option Entry → List (FullKey × Value) × Cache → List (FullKey × Value) × Cache
  take_entry now k none (values, cache) = (values, cache)
  take_entry now k (some (dump, expiry)) (values, cache) =
      if is_live now expiry
      then (put k (serde.loads dump) values, cache)
      else (values, delete_entry k.0 k.1 cache)

  -- The loop of `get`
  unfoldable pub get_keys :
      ℕ → List FullKey → List (FullKey × Value) × Cache → List (FullKey × Value) × Cache
  unfolding entry_at
  get_keys now [] state = state
  get_keys now (k ∷ keys) state =
      get_keys now keys (take_entry now k (entry_at k.0 k.1 state.1) state)

  -- `get`, at the time `now`
  unfoldable pub get_cached : ℕ → List FullKey → Cache → List (FullKey × Value) × Cache
  get_cached now keys cache = get_keys now keys ([], cache)

  unfoldable pub set_entry : Namespace → String → Entry → Cache → Cache
  set_entry ns key entry cache = put ns (Dict.put key entry (entries (get ns cache))) cache

  -- `set`, at the time `now`
  unfoldable pub set_cached : ℕ → List (FullKey × (Value × Option ℕ)) → Cache → Cache
  unfolding set_entry
  set_cached now [] cache = cache
  set_cached now (((ns, key), (value, ttl)) ∷ keys) cache =
      set_cached now keys (set_entry ns key (serde.dumps value, expiry_of now ttl) cache)

  unfoldable pub clear_namespaces : List Namespace → Cache → Cache
  clear_namespaces [] cache = cache
  clear_namespaces (ns ∷ more) cache =
      clear_namespaces more (keep (λ n. not (namespace_eq ns n)) cache)

  unfoldable pub clear : Option (List Namespace) → Cache → Cache
  unfolding clear_namespaces
  clear none cache = []
  clear (some namespaces) cache = clear_namespaces namespaces cache
