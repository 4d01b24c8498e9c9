-- ===== src/Checkpointer/Blobs.antt =====
-- What `put` stores of the channels' values, and what `get_tuple` loads of them.
use langgraph_study.Prelude.{
  ℕ, String, ◌≡◌, refl, sym, subst, ap, ap₂, ◌∙◌, ◌≢◌, true, false, Option, none, some, List, [],
  ◌∷◌, str_eq, eq_iff, if◌then◌else◌, arith, Bool-cases, inl, inr,
}
use langgraph_study.Values.{Value}
use langgraph_study.Dict.{Dict, has, get, keys, get-put, get-not_has, get-nil, get-head, get-tail}
use langgraph_study.Table
use langgraph_study.Pregel.Checkpoint.{ChannelVersions}
use langgraph_study.Pregel.Saved.{HasDistinctKeys}
use langgraph_study.Checkpointer.Keys.{BlobKey, blob_key}
use langgraph_study.Checkpointer.Serde.{Serde}
use langgraph_study.Checkpointer.InMemorySaver.{
  Blob, InMemorySaver, add_loaded, load_blobs, dump_value, put_blobs,
}

module _ (serde : Serde) (thread_id ns : String) where
  open serde use {Bytes, no_bytes, dumps, loads, loads-dumps, dumps-ne-empty}

  abbrev pub key_of : String → ℕ → BlobKey
  key_of chan version = record {
    thread_id = thread_id;
    checkpoint_ns = ns;
    channel = chan;
    version = version;
  }

  -- The value in a blob.
  pub value_of : Option (Blob serde) → Option Value
  value_of none = none
  value_of (some blob) = if str_eq blob.0 "empty" then none else some (loads blob)

  -- The value that is stored for a version of a channel.
  abbrev pub stored : List (BlobKey × Blob serde) → String → ℕ → Option Value
  stored blobs chan version = value_of (Table.get (key_of chan version) blobs)

  abbrev pub or_else : Option Value → Option Value → Option Value
  or_else none o = o
  or_else (some v) o = some v

  pub or_else-none : (o : Option Value) → or_else o none ≡ o
  or_else-none none = refl
  or_else-none (some v) = refl

  abbrev pub loaded : List (BlobKey × Blob serde) → String → Option ℕ → Option Value → Option Value
  loaded blobs chan none o = o
  loaded blobs chan (some version) o = or_else (stored blobs chan version) o

  get-add_loaded :
      (k j : String) (o : Option (Blob serde)) (result : Dict Value)
      → get j (add_loaded serde k o result)
        ≡ (if str_eq k j then or_else (value_of o) (get j result) else get j result)
  unfolding add_loaded value_of
  get-add_loaded k j none result = ground arith
  get-add_loaded k j (some blob) result = ground (arith, get-put k j (loads blob) result)

  get-tail_inv :
      (k j : String) (v w : ℕ) (versions : ChannelVersions)
      → str_eq k j ≡ false
      → get j ((k, v) ∷ versions) ≡ some w
      → get j versions ≡ some w
  unfolding get
  get-tail_inv k j v w versions p e = ground arith

  pub load_blobs-cons :
      (self : InMemorySaver serde) (k : String) (ver : ℕ) (versions : ChannelVersions)
      (result : Dict Value)
      → load_blobs serde self thread_id ns ((k, ver) ∷ versions) result
        ≡ load_blobs serde self thread_id ns versions
            (add_loaded serde k (Table.get (key_of k ver) self.blobs) result)
  unfolding load_blobs
  load_blobs-cons self k ver versions result = refl

  pub get-load_blobs :
      (self : InMemorySaver serde) (versions : ChannelVersions) (result : Dict Value) (j : String)
      → HasDistinctKeys versions
      → get j (load_blobs serde self thread_id ns versions result)
        ≡ loaded self.blobs j (get j versions) (get j result)
  get-load_blobs self [] result j h = unfold load_blobs get in refl
  get-load_blobs self ((k, ver) ∷ versions) result j h =
      let o = Table.get (key_of k ver) self.blobs in
      let ih = get-load_blobs self versions (add_loaded serde k o result) j h.1 in
      rw load_blobs-cons (
        ih
        ∙ unfold get in
          elim (Bool-cases (str_eq k j)) [
            | inl e ↦
                let same : k ≡ j = (eq_iff k j).0 e in
                rw
                  (
                    e,
                    get-not_has j versions (subst (λ i. has i (keys versions) ≡ false) same h.0),
                    get-add_loaded,
                    e,
                  )
                  (ap (λ i. or_else (stored self.blobs i ver) (get j result)) same)
            | inr e ↦ rw e (ap (loaded self.blobs j (get j versions)) (rw (get-add_loaded, e)))
          ])

  value_of-dump_value : (o : Option Value) → value_of (some (dump_value serde o)) ≡ o
  unfolding value_of dump_value
  value_of-dump_value none = refl
  value_of-dump_value (some v) =
      ground (arith, eq_iff (dumps v).0 "empty", dumps-ne-empty v, loads-dumps v)

  put_blobs-cons :
      (values : Dict Value) (k : String) (v : ℕ) (versions : ChannelVersions)
      (blobs : List (BlobKey × Blob serde))
      → put_blobs serde thread_id ns values ((k, v) ∷ versions) blobs
        ≡ put_blobs serde thread_id ns values versions
            (Table.put (key_of k v) (dump_value serde (get k values)) blobs)
  unfolding put_blobs
  put_blobs-cons values k v versions blobs = refl

  pub get-put_blobs_ne :
      (values : Dict Value) (versions : ChannelVersions) (blobs : List (BlobKey × Blob serde))
      (key : BlobKey)
      → (key.thread_id ≡ thread_id
          → key.checkpoint_ns ≡ ns
          → get key.channel versions ≡ some key.version
          → ⊥)
      → HasDistinctKeys versions
      → Table.get key (put_blobs serde thread_id ns values versions blobs) ≡ Table.get key blobs
  get-put_blobs_ne values [] blobs key h d = unfold put_blobs in refl
  get-put_blobs_ne values ((k, v) ∷ versions) blobs key h d =
      let blob = dump_value serde (get k values) in
      let rest =
        get-put_blobs_ne values versions (Table.put (key_of k v) blob blobs) key
          (λ t n g. h t n (get-tail k key.channel v key.version versions d.0 g)) d.1 in
      rw put_blobs-cons (
        rest
        ∙ Table.get-put (key_of k v) key blob blobs
        ∙ elim (Bool-cases (blob_key.beq (key_of k v) key)) [
          | inl e ↦
              let same = (blob_key.beq_iff (key_of k v) key).0 e in
              absurd (
                h (sym (ap (λ (b : BlobKey). b.thread_id) same))
                  (sym (ap (λ (b : BlobKey). b.checkpoint_ns) same))
                  (subst (λ (b : BlobKey). get b.channel ((k, v) ∷ versions) ≡ some b.version) same
                    (get-head k v versions)))
          | inr e ↦ rw e
        ])

  absent :
      (k j : String) (versions : ChannelVersions)
      → str_eq k j ≡ true
      → has k (keys versions) ≡ false
      → get j versions ≡ none
  absent k j versions p new =
      subst (λ i. get i versions ≡ none) ((eq_iff k j).0 p) (get-not_has k versions new)

  get-head_inv :
      (k j : String) (v w : ℕ) (versions : ChannelVersions)
      → str_eq k j ≡ true
      → get j ((k, v) ∷ versions) ≡ some w
      → v ≡ w
  unfolding get
  get-head_inv k j v w versions p e = ground arith

  none-ne-some : (o : Option ℕ) (w : ℕ) → o ≡ none → o ≢ some w
  none-ne-some o w e h = cc

  pub get-put_blobs :
      (values : Dict Value) (versions : ChannelVersions) (blobs : List (BlobKey × Blob serde))
      (j : String) (version : ℕ)
      → HasDistinctKeys versions
      → get j versions ≡ some version
      → stored (put_blobs serde thread_id ns values versions blobs) j version ≡ get j values
  get-put_blobs values [] blobs j version h e = absurd (get-nil j version e)
  get-put_blobs values ((k, v) ∷ versions) blobs j version h e =
      let blob = dump_value serde (get k values) in
      let more = Table.put (key_of k v) blob blobs in
      elim (Bool-cases (str_eq k j)) [
        | inl p ↦
            let head : key_of k v ≡ key_of j version =
              ap₂ key_of ((eq_iff k j).0 p) (get-head_inv k j v version versions p e) in
            let same =
              get-put_blobs_ne values versions more (key_of j version)
                (λ t n g. none-ne-some (get j versions) version (absent k j versions p h.0) g) h.1
              ∙ Table.get-put (key_of k v) (key_of j version) blob blobs
              ∙ rw ((blob_key.beq_iff (key_of k v) (key_of j version)).1 head) refl in
            rw (put_blobs-cons, same)
              (value_of-dump_value (get k values) ∙ ap (λ i. get i values) ((eq_iff k j).0 p))
        | inr p ↦ rw put_blobs-cons (
            get-put_blobs values versions more j version h.1
              (get-tail_inv k j v version versions p e))
      ]
