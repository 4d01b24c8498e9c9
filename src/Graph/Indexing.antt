-- ===== src/Graph/Indexing.antt =====
-- The index that `_messages_delta_reducer` (libs/langgraph/langgraph/graph/message.py) starts with.
use langgraph_study.Prelude.{
  ℕ, suc, ◌+◌, String, ◌≡◌, refl, sym, ap, ap₂, ◌∙◌, false, Option, none, some, List, [], ◌∷◌,
  str_eq, if◌then◌else◌, arith, Bool-cases, inl, inr,
}
use langgraph_study.Dict.{Dict, get, put, get-put}
use langgraph_study.Graph.Message.{Message, Slots, index_from, compact, all_some}
use langgraph_study.Graph.Compact.{
  has_id, find, succeed, has_message, HasDistinctIds, has_message-compact,
}
use langgraph_study.Graph.Finding.{is_some-none}

-- The index holds where the messages are.
pub record Tracks (slots : Slots) : Type 0 where
  pub at : (k : String) → get k slots.index ≡ find k slots.result

pub compact-all_some : (ms : List Message) → compact (all_some ms) ≡ ms
unfolding compact
compact-all_some [] = refl
compact-all_some (m ∷ ms) = ap (λ l. m ∷ l) (compact-all_some ms)

at_or : ℕ → Option ℕ → Option ℕ → Option ℕ
at_or i none o = o
at_or i (some j) o = some (i + j)

at_or-succeed : (i : ℕ) (p o : Option ℕ) → at_or (suc i) p o ≡ at_or i (succeed p) o
unfolding at_or
at_or-succeed i none o = refl
at_or-succeed i (some j) o = ground arith

get-indexed :
    (k : String) (i : ℕ) (index : Dict ℕ) (o : Option String)
    → get k (elim o [ none ↦ index | some mid ↦ put mid i index ])
      ≡ (if (elim o [ none ↦ false | some mid ↦ str_eq mid k ]) then some i else get k index)
get-indexed k i index none = refl
get-indexed k i index (some mid) = get-put mid k i index

get-index_from :
    (k : String) (i : ℕ) (ms : List Message) (index : Dict ℕ)
    → HasDistinctIds ms
    → get k (index_from i ms index) ≡ at_or i (find k (all_some ms)) (get k index)
unfolding index_from find at_or
get-index_from k i [] index d = refl
get-index_from k i (m ∷ ms) index d =
    let more : Dict ℕ = elim m.id [ none ↦ index | some mid ↦ put mid i index ] in
    let rest = find k (all_some ms) in
    get-index_from k (suc i) ms more d.1
    ∙ ap (at_or (suc i) rest) (get-indexed k i index m.id)
    ∙ elim (Bool-cases (has_id k m)) [
      | inl p ↦
          let gone : rest ≡ none = is_some-none rest (
            sym (has_message-compact k (all_some ms))
            ∙ ap (has_message k) (compact-all_some ms)
            ∙ d.0 k p) in
          ap₂ (λ r b. at_or (suc i) r (if b then some i else get k index)) gone p
          ∙ ap some (omega arith)
          ∙ sym (ap (λ b. at_or i (if b then some 0 else succeed rest) (get k index)) p)
      | inr p ↦
          ap (λ b. at_or (suc i) rest (if b then some i else get k index)) p
          ∙ at_or-succeed i rest (get k index)
          ∙ sym (ap (λ b. at_or i (if b then some 0 else succeed rest) (get k index)) p)
    ]

at_or-zero : (o : Option ℕ) → at_or 0 o none ≡ o
unfolding at_or
at_or-zero none = refl
at_or-zero (some i) = ground arith

pub index_from-Tracks :
    (state : List Message)
    → HasDistinctIds state
    → Tracks (record { result = all_some state; index = index_from 0 state [] })
unfolding get
index_from-Tracks state d = record {
  at = λ k. get-index_from k 0 state [] d ∙ at_or-zero (find k (all_some state));
}
