-- ===== src/Cache/Entries.antt =====
-- What stands in the cache after one change of it.
use langgraph_study.Prelude.{
  String, ◌≡◌, refl, ◌∙◌, ap, Option, none, some, str_eq, if◌then◌else◌, Bool-cases, inl, inr,
}
use langgraph_study.Dict
use langgraph_study.Dict.{Dict, get-remove}
use langgraph_study.Table.{get, put, get-put}
use langgraph_study.Checkpointer.Serde.{Serde}
use langgraph_study.Store.Namespaces.{
  Namespace, namespace, namespace_eq, namespace_eq_iff, place_eq,
}
use langgraph_study.Cache.InMemoryCache.{
  Entry, Cache, entry_in, entries, entry_at, delete_entry, set_entry,
}

get-entries :
    (serde : Serde) (j : String) (o : Option (Dict (Entry serde)))
    → Dict.get j (entries serde o) ≡ entry_in serde j o
unfolding Dict.get
get-entries serde j none = refl
get-entries serde j (some d) = refl

module _ (serde : Serde) (n m : Namespace) (k j : String) (cache : Cache serde) where
  -- The entry at a key, where its namespace is written and has a new entry at one key.
  entry_at-put :
      (e : Option (Entry serde)) (d : Dict (Entry serde))
      → Dict.get j d ≡ (if str_eq k j then e else Dict.get j (entries serde (get n cache)))
      → entry_at serde m j (put n d cache)
        ≡ (if place_eq (n, k) (m, j) then e else entry_at serde m j cache)
  unfolding entry_at
  entry_at-put e d h = elim (Bool-cases (namespace_eq n m)) [
    | inl q ↦
        ap (entry_in serde j) (get-put n m d cache)
        ∙ rw q (
            h
            ∙ ap (λ i. if str_eq k j then e else Dict.get j (entries serde (get i cache)))
                ((namespace_eq_iff n m).0 q)
            ∙ ap (λ o. if str_eq k j then e else o) (get-entries serde j (get m cache)))
    | inr q ↦ ap (entry_in serde j) (get-put n m d cache) ∙ rw q
  ]

  pub entry_at-set_entry :
      (e : Entry serde)
      → entry_at serde m j (set_entry serde n k e cache)
        ≡ (if place_eq (n, k) (m, j) then some e else entry_at serde m j cache)
  unfolding set_entry
  entry_at-set_entry e = entry_at-put (some e) _ (Dict.get-put k j e (entries serde (get n cache)))

  pub entry_at-delete_entry :
      entry_at serde m j (delete_entry serde n k cache)
      ≡ (if place_eq (n, k) (m, j) then none else entry_at serde m j cache)
  unfolding delete_entry
  entry_at-delete_entry = entry_at-put none _ (get-remove k j (entries serde (get n cache)))
