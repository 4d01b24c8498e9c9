-- ===== src/Graph/Steps.antt =====
-- What `_messages_delta_reducer` (libs/langgraph/langgraph/graph/message.py) means: one message after
-- the other is merged into the list, with no index and no gaps.
use langgraph_study.Prelude.{
  String, ◌≡◌, refl, sym, subst, ap, ◌∙◌, Bool, true, false, ◌||◌, Option, none, some, List, [],
  ◌∷◌, ◌++◌, eq_iff, arith, Bool-cases, inl, inr,
}
use langgraph_study.Graph.Message.{Message}
use langgraph_study.Graph.Compact.{
  has_id, replace, delete, has_message, HasDistinctIds, id_of, has_id-eq,
}

-- A removal of a known id takes the message away, another message with a known id takes the place of
-- the old one, a removal of an unknown id does nothing, and every other message is appended.
unfoldable pub merge_known : Bool → Bool → String → List Message → Message → List Message
merge_known true true mid ms msg = delete mid ms
merge_known true false mid ms msg = replace mid msg ms
merge_known false true mid ms msg = ms
merge_known false false mid ms msg = ms ++ msg ∷ []

unfoldable pub merge_id : Option String → List Message → Message → List Message
merge_id none ms msg = ms ++ msg ∷ []
merge_id (some mid) ms msg = merge_known (has_message mid ms) msg.is_removal mid ms msg

abbrev pub merge_one : List Message → Message → List Message
merge_one ms msg = merge_id msg.id ms msg

unfoldable pub merge : List Message → List Message → List Message
merge ms [] = ms
merge ms (msg ∷ msgs) = merge (merge_one ms msg) msgs

pub merge-append : (ms xs ys : List Message) → merge ms (xs ++ ys) ≡ merge (merge ms xs) ys
unfolding merge
merge-append ms [] ys = refl
merge-append ms (x ∷ xs) ys = merge-append (merge_one ms x) xs ys

has_message-replace :
    (k j : String) (msg : Message) (ms : List Message)
    → msg.id ≡ some k
    → has_message j (replace k msg ms) ≡ has_message j ms
unfolding has_message replace
has_message-replace k j msg [] e = refl
has_message-replace k j msg (m ∷ ms) e = elim (Bool-cases (has_id k m)) [
  | inl p ↦
      rw (p, replace)
        (ap (λ b. b || has_message j ms)
          (has_id-eq k j msg e ∙ sym (has_id-eq k j m (id_of k m p))))
  | inr p ↦ rw (p, replace) (ap (λ b. has_id j m || b) (has_message-replace k j msg ms e))
]

has_message-delete :
    (k j : String) (ms : List Message)
    → has_message j ms ≡ false
    → has_message j (delete k ms) ≡ false
unfolding has_message delete
has_message-delete k j [] h = refl
has_message-delete k j (m ∷ ms) h = elim (Bool-cases (has_id k m)) [
  | inl p ↦ rw (p, delete) (ground arith)
  | inr p ↦ rw (p, delete) (ground (arith, has_message-delete k j ms))
]

has_message-append :
    (j : String) (ms : List Message) (m : Message)
    → has_message j (ms ++ m ∷ []) ≡ (has_message j ms || has_id j m)
unfolding has_message
has_message-append j [] m = ground arith
has_message-append j (n ∷ ms) m = ground (arith, has_message-append j ms m)

HasDistinctIds-replace :
    (k : String) (msg : Message) (ms : List Message)
    → msg.id ≡ some k
    → HasDistinctIds ms
    → HasDistinctIds (replace k msg ms)
unfolding replace
HasDistinctIds-replace k msg [] e d = tt
HasDistinctIds-replace k msg (m ∷ ms) e d = elim (Bool-cases (has_id k m)) [
  | inl p ↦
      rw (p, replace)
        ((λ j h. d.0 j (has_id-eq k j m (id_of k m p) ∙ sym (has_id-eq k j msg e) ∙ h)), d.1)
  | inr p ↦
      rw (p, replace)
        ((λ j h. has_message-replace k j msg ms e ∙ d.0 j h), HasDistinctIds-replace k msg ms e d.1)
]

HasDistinctIds-delete :
    (k : String) (ms : List Message) → HasDistinctIds ms → HasDistinctIds (delete k ms)
unfolding delete
HasDistinctIds-delete k [] d = tt
HasDistinctIds-delete k (m ∷ ms) d = elim (Bool-cases (has_id k m)) [
  | inl p ↦ rw (p, delete) d.1
  | inr p ↦
      rw (p, delete) ((λ j h. has_message-delete k j ms (d.0 j h)), HasDistinctIds-delete k ms d.1)
]

no_id : (j : String) (m : Message) → m.id ≡ none → has_id j m ≡ true → ⊥
no_id j m e h = cc (rw e at h)

HasDistinctIds-append :
    (ms : List Message) (m : Message)
    → ((j : String) → has_id j m ≡ true → has_message j ms ≡ false)
    → HasDistinctIds ms
    → HasDistinctIds (ms ++ m ∷ [])
unfolding has_message
HasDistinctIds-append [] m new d = ((λ j h. refl), tt)
HasDistinctIds-append (n ∷ ms) m new d = (
  (λ j h. has_message-append j ms m ∙ ground (arith, d.0 j h, new j)),
  HasDistinctIds-append ms m (λ j h. ground (arith, new j h)) d.1,
)

merge_known-HasDistinctIds :
    (known removal : Bool) (mid : String) (ms : List Message) (msg : Message)
    → has_message mid ms ≡ known
    → msg.id ≡ some mid
    → HasDistinctIds ms
    → HasDistinctIds (merge_known known removal mid ms msg)
unfolding merge_known
merge_known-HasDistinctIds true true mid ms msg p e d = HasDistinctIds-delete mid ms d
merge_known-HasDistinctIds true false mid ms msg p e d = HasDistinctIds-replace mid msg ms e d
merge_known-HasDistinctIds false true mid ms msg p e d = d
merge_known-HasDistinctIds false false mid ms msg p e d =
    HasDistinctIds-append ms msg
      (λ j h.
        subst (λ i. has_message i ms ≡ false) ((eq_iff mid j).0 (sym (has_id-eq mid j msg e) ∙ h))
          p)
      d

pub merge_id-HasDistinctIds :
    (o : Option String) (ms : List Message) (msg : Message)
    → msg.id ≡ o
    → HasDistinctIds ms
    → HasDistinctIds (merge_id o ms msg)
unfolding merge_id
merge_id-HasDistinctIds none ms msg e d =
    HasDistinctIds-append ms msg (λ j h. absurd (no_id j msg e h)) d
merge_id-HasDistinctIds (some mid) ms msg e d =
    merge_known-HasDistinctIds (has_message mid ms) msg.is_removal mid ms msg refl e d

pub merge-HasDistinctIds :
    (ms msgs : List Message) → HasDistinctIds ms → HasDistinctIds (merge ms msgs)
unfolding merge
merge-HasDistinctIds ms [] d = d
merge-HasDistinctIds ms (msg ∷ msgs) d =
    merge-HasDistinctIds (merge_one ms msg) msgs (merge_id-HasDistinctIds msg.id ms msg refl d)
