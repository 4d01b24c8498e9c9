-- ===== src/Loop/Signals.antt =====
-- What the special keys do to the writes that the runner's `commit` stores
-- (libs/langgraph/langgraph/pregel/_runner.py): deduplication and the signals among them.
use langgraph_study.Prelude.{
  String, Bool, true, false, not, ◌&&◌, ◌≡◌, refl, ◌∙◌, ap, ap₂, List, [], ◌∷◌, ◌++◌, all, nonempty,
  eq_iff, if◌then◌else◌, arith,
}
use langgraph_study.Values.{Value, str}
use langgraph_study.Dict.{put, has}
use langgraph_study.Pregel.Constants.{error_key, error_source_node_key, interrupt_key, resume_key}
use langgraph_study.Loop.Pending.{deduplicate, by_channel, index_keys, signal_keys}
use langgraph_study.Loop.Run.{mark_no_writes, resumes}
use mathlib.Core.List.{append-nil}

-- The writes that are no signals.
abbrev pub unsignaled : List (String × Value) → List (String × Value)
unsignaled [] = []
unsignaled ((c, v) ∷ writes) =
    if not (has c signal_keys) then (c, v) ∷ unsignaled writes else unsignaled writes

-- Writes to channels: to no special key.
abbrev pub to_channels : List (String × Value) → Bool
to_channels writes =
    all (λ (w : String × Value). not (has w.0 index_keys) && not (has w.0 signal_keys)) writes

abbrev are_signals : List (String × Value) → Bool
are_signals writes = all (λ (w : String × Value). has w.0 signal_keys) writes

pub unsignaled-signals :
    (writes : List (String × Value)) → are_signals writes ≡ true → unsignaled writes ≡ []
unsignaled-signals [] h = refl
unsignaled-signals (w ∷ writes) h = ground (arith, unsignaled-signals writes)

unsignaled-channels :
    (writes : List (String × Value)) → to_channels writes ≡ true → unsignaled writes ≡ writes
unsignaled-channels [] h = refl
unsignaled-channels (w ∷ writes) h = ground (arith, unsignaled-channels writes)

put-signals :
    (c : String) (v : Value) (d : List (String × Value))
    → has c signal_keys ≡ true
    → are_signals d ≡ true
    → are_signals (put c v d) ≡ true
unfolding put
put-signals c v [] h k = ground arith
put-signals c v ((j, w) ∷ d) h k = ground (arith, put-signals c v d h)

by_channel-signals :
    (writes d : List (String × Value))
    → are_signals writes ≡ true
    → are_signals d ≡ true
    → are_signals (by_channel writes d) ≡ true
unfolding by_channel
by_channel-signals [] d h k = k
by_channel-signals ((c, v) ∷ writes) d h k =
    by_channel-signals writes (put c v d) (ground arith) (put-signals c v d (ground arith) k)

pub deduplicate-signals :
    (writes : List (String × Value))
    → are_signals writes ≡ true
    → are_signals (deduplicate writes) ≡ true
unfolding deduplicate
deduplicate-signals writes h = ground (arith, by_channel-signals writes [] h refl)

pub resumes-signals : (writes : List (String × Value)) → are_signals (resumes writes) ≡ true
unfolding resumes has
resumes-signals [] = refl
resumes-signals ((c, v) ∷ writes) = ground (arith, resumes-signals writes, eq_iff c resume_key)

-- A write to a channel among the writes keeps them as they are.
deduplicate-channels :
    (w : String × Value) (writes : List (String × Value))
    → has w.0 index_keys ≡ false
    → deduplicate (w ∷ writes) ≡ w ∷ writes
unfolding deduplicate
deduplicate-channels w writes h = ground arith

unsignaled-append :
    (xs ys : List (String × Value)) → unsignaled (xs ++ ys) ≡ unsignaled xs ++ unsignaled ys
unsignaled-append [] ys = refl
unsignaled-append (w ∷ xs) ys = ground (arith, unsignaled-append xs ys)

pub returned-unsignaled :
    (writes : List (String × Value))
    → to_channels writes ≡ true
    → unsignaled (deduplicate (mark_no_writes writes)) ≡ mark_no_writes writes
returned-unsignaled [] h = unfold deduplicate has in refl
returned-unsignaled (w ∷ writes) h =
    ap unsignaled (deduplicate-channels w writes (ground arith))
    ∙ unsignaled-channels (w ∷ writes) h

pub interrupt-signals :
    (v : Value) (writes : List (String × Value))
    → are_signals writes ≡ true
    → are_signals ((interrupt_key, v) ∷ writes) ≡ true
unfolding has
interrupt-signals v writes h = h

-- The signals of an error after the writes of a task are not given back.
pub failed-unsignaled :
    (writes : List (String × Value)) (error : Value) (rest : List (String × Value))
    → to_channels writes ≡ true
    → are_signals rest ≡ true
    → unsignaled (deduplicate (writes ++ (error_key, error) ∷ rest)) ≡ writes
unfolding has
failed-unsignaled [] error rest h k =
    unsignaled-signals (deduplicate ((error_key, error) ∷ rest))
      (deduplicate-signals ((error_key, error) ∷ rest) k)
failed-unsignaled (w ∷ writes) error rest h k =
    ap unsignaled
      (deduplicate-channels w (writes ++ (error_key, error) ∷ rest) (unfold has in ground arith))
    ∙ unsignaled-append (w ∷ writes) ((error_key, error) ∷ rest)
    ∙ ap₂ ◌++◌ (unsignaled-channels (w ∷ writes) h)
        (unsignaled-signals ((error_key, error) ∷ rest) k)
    ∙ append-nil (w ∷ writes)

pub source-signal : (name : String) → are_signals ((error_source_node_key, str name) ∷ []) ≡ true
unfolding has
source-signal name = refl

pub nonempty-append :
    (writes : List (String × Value)) (w : String × Value) (rest : List (String × Value))
    → nonempty (writes ++ w ∷ rest) ≡ true
nonempty-append [] w rest = refl
nonempty-append (v ∷ writes) w rest = refl

pub nonempty-mark : (writes : List (String × Value)) → nonempty (mark_no_writes writes) ≡ true
nonempty-mark [] = refl
nonempty-mark (w ∷ writes) = refl
