-- ===== src/Checkpointer/Writing.antt =====
-- `put_writes` of `InMemorySaver` (libs/checkpoint/langgraph/checkpoint/memory/__init__.py).
use langgraph_study.Prelude.{
  ℕ, ◌+◌, String, ◌≡◌, ap, ap₂, ◌∙◌, true, false, ◌&&◌, Option, none, some, is_some, List, [], ◌∷◌,
  if◌then◌else◌, Bool-cases, inl, inr,
}
use langgraph_study.Values.{Value}
use langgraph_study.Table
use langgraph_study.Checkpointer.Keys.{
  WritesKey, InnerKey, place, writes_key, inner_key, write_index,
}
use langgraph_study.Checkpointer.Serde.{Serde}
use langgraph_study.Checkpointer.InMemorySaver.{
  InMemorySaver, Written, is_place, writes_of, put_each, put_writes,
}

module _ (serde : Serde) where
  -- A key like one that is there, with a place for its index, would have been left out.
  taken :
      (key inner : InnerKey) (i : ℕ) (w : Written serde) (old : List (InnerKey × Written serde))
      → inner.index ≡ place i
      → Table.get inner old ≡ some w
      → (is_place key.index && is_some (Table.get key old)) ≡ false
      → key ≡ inner
      → ⊥
  taken key inner i w old p o e same =
      let there : (is_place key.index && is_some (Table.get key old)) ≡ true =
        ap (λ k. is_place k.index && is_some (Table.get k old)) same
        ∙ ap₂ (λ j t. is_place j && is_some t) p o in
      cc (e, there)

  stays :
      (key inner : InnerKey) (i : ℕ) (v w : Written serde)
      (old ws : List (InnerKey × Written serde))
      → inner.index ≡ place i
      → Table.get inner old ≡ some w
      → Table.get inner ws ≡ some w
      → Table.get inner
          (if is_place key.index && is_some (Table.get key old) then ws else Table.put key v ws)
        ≡ some w
  stays key inner i v w old ws p o h =
      elim (Bool-cases (is_place key.index && is_some (Table.get key old))) [
        | inl e ↦ ap (λ b. Table.get inner (if b then ws else Table.put key v ws)) e ∙ h
        | inr e ↦
            ap (λ b. Table.get inner (if b then ws else Table.put key v ws)) e
            ∙ Table.get-put key inner v ws
            ∙ elim (Bool-cases (inner_key.beq key inner)) [
              | inl same ↦
                  absurd (taken key inner i w old p o e ((inner_key.beq_iff key inner).0 same))
              | inr other ↦ ap (λ b. if b then some v else Table.get inner ws) other ∙ h
            ]
      ]

  put_each-stays :
      (task_id task_path : String) (idx : ℕ) (writes : List (String × Value)) (inner : InnerKey)
      (i : ℕ) (w : Written serde) (old ws : List (InnerKey × Written serde))
      → inner.index ≡ place i
      → Table.get inner old ≡ some w
      → Table.get inner ws ≡ some w
      → Table.get inner (put_each serde task_id task_path old idx writes ws) ≡ some w
  unfolding put_each
  put_each-stays task_id task_path idx [] inner i w old ws p o h = h
  put_each-stays task_id task_path idx ((c, v) ∷ writes) inner i w old ws p o h =
      let key : InnerKey = record { task_id = task_id; index = write_index c idx } in
      let written : Written serde = record {
        task_id = task_id;
        channel = c;
        value = serde.dumps v;
        task_path = task_path;
      } in
      put_each-stays task_id task_path (idx + 1) writes inner i w old
        (if is_place (write_index c idx) && is_some (Table.get key old)
          then ws
          else Table.put key written ws)
        p o (stays key inner i written w old ws p o h)

  -- A write that is stored at a place of a task stays as it is, whatever `put_writes` stores later, for
  -- the same task and the same place too: the first one counts. Errors, interrupts and the other
  -- writes of `WRITES_IDX_MAP` have no place.
  pub get-put_writes :
      (self : InMemorySaver serde) (key outer : WritesKey) (writes : List (String × Value))
      (task_id task_path : String) (inner : InnerKey) (i : ℕ) (w : Written serde)
      → inner.index ≡ place i
      → Table.get inner (writes_of serde self outer) ≡ some w
      → Table.get inner (writes_of serde (put_writes serde self key writes task_id task_path) outer)
        ≡ some w
  unfolding put_writes writes_of
  get-put_writes self key outer [] task_id task_path inner i w p h = h
  get-put_writes self key outer (write ∷ writes) task_id task_path inner i w p h =
      let old = writes_of serde self key in
      let added = put_each serde task_id task_path old 0 (write ∷ writes) old in
      ap
        (λ (o : Option (List (InnerKey × Written serde))).
          Table.get inner (elim o [ none ↦ [] | some ws ↦ ws ]))
        (Table.get-put key outer added self.writes)
      ∙ elim (Bool-cases (writes_key.beq key outer)) [
        | inl same ↦
            let held =
              ap (λ k. Table.get inner (writes_of serde self k))
                ((writes_key.beq_iff key outer).0 same)
              ∙ h in
            ap
              (λ b. Table.get inner (elim (if b then some added else Table.get outer self.writes) [
                | none ↦ []
                | some ws ↦ ws
              ]))
              same
            ∙ put_each-stays task_id task_path 0 (write ∷ writes) inner i w old old p held held
        | inr other ↦
            ap
              (λ b. Table.get inner (elim (if b then some added else Table.get outer self.writes) [
                | none ↦ []
                | some ws ↦ ws
              ]))
              other
            ∙ h
      ]
