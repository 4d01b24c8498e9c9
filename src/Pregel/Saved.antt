-- ===== src/Pregel/Saved.antt =====
-- What a checkpoint saves of the channels (libs/langgraph/langgraph/pregel/_checkpoint.py), and the
-- lemmas on one channel.
use langgraph_study.Prelude.{
  ℕ, String, ◌≡◌, refl, true, false, Option, none, some, List, [], ◌∷◌, str_eq, eq_iff,
  Option-cases, inl, inr, arith,
}
use langgraph_study.Method.{ok}
use langgraph_study.Values.{Value, snapshot}
use langgraph_study.Dict.{Dict, has, get, mem, keys, get-put}
use langgraph_study.Channels.DeltaChannel.{DeltaChannel}
use langgraph_study.Channels.Channel
use langgraph_study.Channels.Channel.{Channel, delta_channel}
use langgraph_study.Channels.Persistence.{IsValid, IsTracked}
use langgraph_study.Pregel.Checkpoint.{ChannelVersions}
use langgraph_study.Pregel.ApplyWrites.{GetNextVersion}
use langgraph_study.Pregel.Checkpointing.{bump_version, put_some, restore_channels}

-- Why a checkpoint with these versions and these snapshots holds the state of a channel: it has a
-- version and writes its state, it is a DeltaChannel whose value is written as a snapshot, or it has
-- no version and is as a new channel is.
pub data IsSaved (to_snapshot : List String) (versions : ChannelVersions) (k : String) (c : Channel)
    : Type 0 where
  by_checkpoint :
      mem k versions ≡ true
      → has k to_snapshot ≡ false
      → IsValid c
      → IsTracked c
      → IsSaved to_snapshot versions k c
  by_snapshot :
      (d : DeltaChannel) (v : Value)
      → mem k versions ≡ true
      → has k to_snapshot ≡ true
      → c ≡ delta_channel d
      → d.value ≡ some v
      → IsSaved to_snapshot versions k c
  as_new :
      mem k versions ≡ false
      → Channel.from_checkpoint c none ≡ ok c
      → IsSaved to_snapshot versions k c

abbrev pub AllSaved : List String → ChannelVersions → Dict Channel → Type 0
AllSaved to_snapshot versions [] = Unit
AllSaved to_snapshot versions ((k, c) ∷ cs) =
    IsSaved to_snapshot versions k c × AllSaved to_snapshot versions cs

-- No key twice, as in a `dict`.
abbrev pub HasDistinctKeys {ℓ} : {V : Type ℓ} → Dict V → Type 0
HasDistinctKeys [] = Unit
HasDistinctKeys ((k, v) ∷ d) = (has k (keys d) ≡ false) × HasDistinctKeys d

-- The specs have the keys of the channels, and restore what those restore: class and settings agree.
abbrev pub SameSpecs : Dict Channel → Dict Channel → Type 0
SameSpecs [] [] = Unit
SameSpecs [] (s ∷ specs) = ⊥
SameSpecs (c ∷ cs) [] = ⊥
SameSpecs ((k, c) ∷ cs) ((j, spec) ∷ specs) =
    (j ≡ k)
    × ((blob : Option Value) → Channel.from_checkpoint spec blob ≡ Channel.from_checkpoint c blob)
    × SameSpecs cs specs

-- Each channel is restored from its own value.
abbrev pub Restores : Dict Value → Dict Channel → Type 0
Restores values [] = Unit
Restores values ((k, c) ∷ cs) =
    (Channel.from_checkpoint c (get k values) ≡ ok c) × Restores values cs

pub restore-ok :
    (channels specs : Dict Channel) (values : Dict Value)
    → SameSpecs channels specs
    → Restores values channels
    → restore_channels specs values [] ≡ ok channels
unfolding restore_channels get
restore-ok [] [] values same r = refl
restore-ok [] (s ∷ specs) values same r = absurd same
restore-ok (c ∷ cs) [] values same r = absurd same
restore-ok ((k, c) ∷ cs) ((j, spec) ∷ specs) values same r =
    rw (same.0, same.1 (get k values), r.0, restore-ok cs specs values same.2 r.1)

pub mem-bump_version :
    (next : Option GetNextVersion) (updated : Option (List String)) (k j : String) (version : ℕ)
    (versions : ChannelVersions)
    → mem k versions ≡ true
    → mem j (bump_version next updated k version versions) ≡ mem j versions
unfolding bump_version
mem-bump_version none updated k j version versions h = refl
mem-bump_version (some f) none k j version versions h =
    ground (arith, get-put k j (f (some version)) versions, eq_iff k j)
mem-bump_version (some f) (some us) k j version versions h =
    ground (arith, get-put k j (f (some version)) versions, eq_iff k j)

pub get-mem :
    (k : String) (versions : ChannelVersions)
    → mem k versions ≡ true
    → (v : ℕ) × (get k versions ≡ some v)
get-mem k versions h = elim (Option-cases (get k versions)) [
  | inl e ↦ cc (rw e at h)
  | inr (v, e) ↦ (v, e)
]

pub get-not_mem :
    (k : String) (versions : ChannelVersions) → mem k versions ≡ false → get k versions ≡ none
get-not_mem k versions h = elim (Option-cases (get k versions)) [
  | inl e ↦ e
  | inr (v, e) ↦ cc (rw e at h)
]

pub get-put_some_ne :
    (k : String) (o : Option Value) (values : Dict Value) (j : String)
    → str_eq k j ≡ false
    → get j (put_some k o values) ≡ get j values
get-put_some_ne k none values j h = refl
get-put_some_ne k (some v) values j h = ground (arith, get-put k j v values)

pub get-put_some :
    (k : String) (o : Option Value) (values : Dict Value)
    → get k values ≡ none
    → get k (put_some k o values) ≡ o
get-put_some k none values h = h
get-put_some k (some v) values h = ground (arith, get-put k k v values, eq_iff k k)

pub has-head : (k : String) (ks : List String) → has k (k ∷ ks) ≡ true
unfolding has
has-head k ks = ground (arith, eq_iff k k)

pub has-tail : (k j : String) (ks : List String) → has j ks ≡ true → has j (k ∷ ks) ≡ true
unfolding has
has-tail k j ks h = ground arith

pub ne_of_has :
    (k j : String) (ks : List String) → has k ks ≡ false → has j ks ≡ true → str_eq k j ≡ false
ne_of_has k j ks h p = ground (arith, eq_iff k j)

pub get-delta :
    (d : DeltaChannel) (v : Value) → d.value ≡ some v → Channel.get (delta_channel d) ≡ ok v
unfolding Channel.get
get-delta d v h = rw h

pub from_checkpoint-snapshot :
    (d : DeltaChannel) (v : Value)
    → d.value ≡ some v
    → Channel.from_checkpoint (delta_channel d) (some (snapshot v)) ≡ ok (delta_channel d)
unfolding Channel.from_checkpoint
from_checkpoint-snapshot d v h = ground arith
