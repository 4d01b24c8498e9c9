-- ===== src/Pregel/Versions.antt =====
-- What the versions of the channels tell after `apply_writes`.
use langgraph_study.Prelude.{
  sym, ap, ◌∙◌, ℕ, ◌<◌, ◌≤◌, String, ◌≡◌, refl, ◌⊎◌, inl, inr, Bool, true, false, Option, none,
  some, Option-cases, Bool-cases, List, [], ◌∷◌, arith, eq_iff, str_eq,
}
use langgraph_study.Method.{Result, ok, err}
use langgraph_study.Dict.{Dict, get, has, keys, values, get-put, keys-put, has-add}
use langgraph_study.Channels.Channel.{Channel}
use langgraph_study.Channels.Unchanged.{update-false, consume-false, finish-false}
use langgraph_study.Pregel.Checkpoint.{Checkpoint, ChannelVersions}
use langgraph_study.Pregel.Task.{PregelTaskWrites, sort_tasks}
use langgraph_study.Pregel.ApplyWrites.{
  Board, Applied, answer_of, start_board, next_version_of, GetNextVersion, record_answer, run_loops,
  apply_writes, max_version,
}
use langgraph_study.Pregel.Loops.{Answered, by_update, by_consume, by_finish, Rule, run_loops_ind}

-- A method that answers False leaves its channel.
pub Answered-false :
    {c c' : Channel} {answer : Bool} → Answered c answer c' → answer ≡ false → c' ≡ c
Answered-false {c} (by_update values p q) h = sym q ∙ update-false c values (p ∙ ap ok h)
Answered-false {c} (by_consume p q) h = sym q ∙ consume-false c (p ∙ h)
Answered-false {c} (by_finish p q) h = sym q ∙ finish-false c (p ∙ h)

-- Each channel has the new version, or the version and the state that it had at the start.
pub record Tracks (start : Board) (next : ℕ) (board : Board) : Type 0 where
  pub at :
      (chan : String)
      → (get chan board.versions ≡ some next)
        ⊎ (get chan board.versions ≡ get chan start.versions)
          × (get chan board.channels ≡ get chan start.channels)

Tracks-record_answer :
    (start board : Board) (next : ℕ) (marks : Bool) (chan : String) (c c' : Channel) (answer : Bool)
    → get chan board.channels ≡ some c
    → (answer ≡ false → c' ≡ c)
    → Tracks start next board
    → Tracks start next (record_answer marks (some next) chan c' answer board)
unfolding record_answer
Tracks-record_answer start board next marks chan c c' true present same tracks = record {
  at = λ j. ground (
    arith,
    tracks.at j,
    eq_iff chan j,
    get-put chan j c' board.channels,
    get-put chan j next board.versions,
  );
}
Tracks-record_answer start board next marks chan c c' false present same tracks = record {
  at = λ j. ground (arith, tracks.at j, eq_iff chan j, get-put chan j c' board.channels, same refl);
}

Tracks-Rule : (start : Board) (next : ℕ) → Rule (some next) (Tracks start next)
Tracks-Rule start next = record {
  step = λ marks chan c c' answer board present answered.
      Tracks-record_answer start board next marks chan c c' answer present
        (Answered-false answered);
}

-- A method leaves the keys of the channels, and their order.
keys-record_answer :
    (next : Option ℕ) (marks : Bool) (chan : String) (c c' : Channel) (answer : Bool)
    (board : Board)
    → get chan board.channels ≡ some c
    → keys (record_answer marks next chan c' answer board).channels ≡ keys board.channels
unfolding record_answer
keys-record_answer none marks chan c c' answer board present =
    keys-put chan c' board.channels (rw present)
keys-record_answer (some next) marks chan c c' true board present =
    keys-put chan c' board.channels (rw present)
keys-record_answer (some next) marks chan c c' false board present =
    keys-put chan c' board.channels (rw present)

keys-Rule :
    (start : Board) (next : Option ℕ)
    → Rule next (λ board. keys board.channels ≡ keys start.channels)
keys-Rule start next = record {
  step = λ marks chan c c' answer board present answered same.
      keys-record_answer next marks chan c c' answer board present ∙ same;
}

-- What is reported as updated has the new version.
record HasNext (next : ℕ) (board : Board) : Type 0 where
  at : (chan : String) → has chan board.updated ≡ true → get chan board.versions ≡ some next

HasNext-record_answer :
    (board : Board) (next : ℕ) (marks : Bool) (chan : String) (c' : Channel) (answer : Bool)
    → HasNext next board
    → HasNext next (record_answer marks (some next) chan c' answer board)
unfolding record_answer
HasNext-record_answer board next marks chan c' true h = record {
  at = λ j p. ground (
    arith,
    h.at j,
    eq_iff chan j,
    get-put chan j next board.versions,
    has-add chan j board.updated,
  );
}
HasNext-record_answer board next marks chan c' false h = record { at = λ j p. h.at j p }

HasNext-Rule : (next : ℕ) → Rule (some next) (HasNext next)
HasNext-Rule next = record {
  step = λ marks chan c c' answer board present answered h.
      HasNext-record_answer board next marks chan c' answer h;
}

-- `get_next_version` gives a version above the one that it is given, as `increment` does.
abbrev pub IsIncreasing : GetNextVersion → Type 0
IsIncreasing f = (n : ℕ) → n < f (some n)

max_version-le :
    (chan : String) (v : ℕ) (versions : ChannelVersions)
    → get chan versions ≡ some v
    → (m : ℕ) × (max_version (values versions) ≡ some m) × (v ≤ m)
unfolding get max_version
max_version-le chan v [] h = cc
max_version-le chan v ((k, w) ∷ versions) h = elim (Option-cases (max_version (values versions))) [
  | inl e ↦ elim (Bool-cases (str_eq k chan)) [
    | inl p ↦ rw (e, max_version) (w, refl, ground arith)
    | inr p ↦ let (m, e', le) = max_version-le chan v versions (rw (p, get) at h) in cc (e, e')
  ]
  | inr (best, e) ↦ elim (Bool-cases (str_eq k chan)) [
    | inl p ↦ rw (e, max_version) (_, refl, ground arith)
    | inr p ↦
        let (m, e', le) = max_version-le chan v versions (rw (p, get) at h) in
        rw (e, max_version) (_, refl, ground arith)
  ]
]

lt_next :
    (f : GetNextVersion) (chan : String) (v : ℕ) (versions : ChannelVersions)
    → IsIncreasing f
    → get chan versions ≡ some v
    → v < f (max_version (values versions))
lt_next f chan v versions up h =
    let (m, e, le) = max_version-le chan v versions h in rw e (omega (arith, up m))

answer_of-ok :
    (m : Result (Unit {0}) × Board) (updated : List String)
    → answer_of m ≡ ok updated
    → (m.0 ≡ ok tt) × (m.1.updated ≡ updated)
unfolding answer_of
answer_of-ok (ok tt, board) updated h = (refl, ground arith)
answer_of-ok (err e, board) updated h = cc

HasNext-start :
    (checkpoint : Checkpoint) (channels : Dict Channel) (next : ℕ)
    → HasNext next (start_board checkpoint channels)
unfolding has
HasNext-start checkpoint channels next = record { at = λ j p. cc }

module _ (checkpoint : Checkpoint) (channels : Dict Channel) (tasks : List PregelTaskWrites)
    (f : GetNextVersion) (trigger_to_nodes : Dict (List String)) where
  -- The new version.
  abbrev next : ℕ
  next = f (max_version (values checkpoint.channel_versions))

  abbrev final : Result (Unit {0}) × Board
  final =
      run_loops (some next) trigger_to_nodes (sort_tasks tasks) (start_board checkpoint channels)

  abbrev pub after : Applied
  after = apply_writes checkpoint channels tasks (some f) trigger_to_nodes

  final_ok :
      (updated : List String)
      → after.answer ≡ ok updated
      → (final.0 ≡ ok tt) × (final.1.updated ≡ updated)
  unfolding apply_writes next_version_of
  final_ok updated h = answer_of-ok final updated h

  final_ind :
      {P : Board → Type 0} (updated : List String)
      → Rule (some next) P
      → after.answer ≡ ok updated
      → P (start_board checkpoint channels)
      → P final.1
  final_ind updated rule h p =
      run_loops_ind rule trigger_to_nodes (sort_tasks tasks) (start_board checkpoint channels) p
        (final_ok updated h).0

  -- A channel whose version `apply_writes` leaves alone has the state that it had: the versions show
  -- every change. This is where `apply_writes` returns and `get_next_version` is increasing. So a
  -- checkpointer that stores the channels whose versions are new misses no change.
  pub apply_writes-same_version :
      (updated : List String) (chan : String)
      → IsIncreasing f
      → after.answer ≡ ok updated
      → get chan after.checkpoint.channel_versions ≡ get chan checkpoint.channel_versions
      → get chan after.channels ≡ get chan channels
  unfolding apply_writes next_version_of
  apply_writes-same_version updated chan up h same =
      let tracks =
        final_ind updated (Tracks-Rule (start_board checkpoint channels) next) h
          (record { at = λ j. inr (refl, refl) }) in
      elim (tracks.at chan) [
        | inl new ↦
            absurd
              (omega (arith, lt_next f chan next checkpoint.channel_versions up (sym same ∙ new)))
        | inr (old, kept) ↦ kept
      ]

  -- Each channel that `apply_writes` reports as updated has a version above every version that was
  -- there before, if `get_next_version` is increasing.
  pub apply_writes-updated :
      (updated : List String) (chan j : String) (old : ℕ)
      → IsIncreasing f
      → after.answer ≡ ok updated
      → has chan updated ≡ true
      → get j checkpoint.channel_versions ≡ some old
      → (new : ℕ) × (get chan after.checkpoint.channel_versions ≡ some new) × (old < new)
  unfolding apply_writes next_version_of
  apply_writes-updated updated chan j old up h reported e = (
    next,
    (final_ind updated (HasNext-Rule next) h (HasNext-start checkpoint channels next)).at chan
        (rw (final_ok updated h).1 reported),
    lt_next f j old checkpoint.channel_versions up e,
  )

  -- `apply_writes` adds no channel and takes none away, and keeps their order.
  apply_writes-keys :
      (updated : List String) → after.answer ≡ ok updated → keys after.channels ≡ keys channels
  unfolding apply_writes next_version_of
  apply_writes-keys updated h =
      final_ind updated (keys-Rule (start_board checkpoint channels) (some next)) h refl
