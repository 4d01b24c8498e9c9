-- ===== src/Pregel/Firing.antt =====
-- Why a node is triggered: `_triggers` of libs/langgraph/langgraph/pregel/_algo.py.
use langgraph_study.Prelude.{
  String, ◌≡◌, refl, sym, ◌∙◌, ◌⊎◌, Bool, true, false, ◌&&◌, Option, none, some, List, [], ◌∷◌, ltb,
  eq_iff, if◌then◌else◌, arith, Bool-cases, inl, inr,
}
use langgraph_study.Method.{Result, ok, err, key_error, ◌>>=◌}
use langgraph_study.Dict.{Dict, has, get, get_or}
use langgraph_study.Channels.Channel
use langgraph_study.Channels.Channel.{Channel}
use langgraph_study.Pregel.Checkpoint.{ChannelVersions}
use langgraph_study.Pregel.NextTasks.{PregelNode, any_available, any_newer, triggers}

abbrev pub is_newer : ChannelVersions → Option ChannelVersions → String → Bool
is_newer versions none chan = true
is_newer versions (some seen) chan = ltb (get_or chan seen 0) (get_or chan versions 0)

-- The channel is available, and newer than the node has seen it.
unfoldable pub fires : Dict Channel → ChannelVersions → Option ChannelVersions → String → Bool
fires channels versions seen chan = elim (get chan channels) [
  | none ↦ false
  | some c ↦ Channel.is_available c && is_newer versions seen chan
]

-- A trigger of the node that fires.
pub record Fired (channels : Dict Channel) (versions : ChannelVersions)
    (seen : Option ChannelVersions) (chans : List String) : Type 0 where
  pub chan : String
  pub is_trigger : has chan chans ≡ true
  pub is_fired : fires channels versions seen chan ≡ true

Fired-cons :
    (channels : Dict Channel) (versions : ChannelVersions) (seen : Option ChannelVersions)
    (c : String) (chans : List String)
    → Fired channels versions seen chans
    → Fired channels versions seen (c ∷ chans)
unfolding has
Fired-cons channels versions seen c chans f = record {
  chan = f.chan;
  is_trigger = ground (arith, f.is_trigger);
  is_fired = f.is_fired;
}

pub has-head : (k : String) (ks : List String) → has k (k ∷ ks) ≡ true
unfolding has
has-head k ks = ground (arith, eq_iff k k)

-- What a loop does at a channel: a KeyError, the answer, or the rest.
abbrev at_channel : Option Channel → (Channel → Bool) → Result Bool → Result Bool
at_channel none test rest = err key_error
at_channel (some c) test rest = if test c then ok true else rest

at_channel-eq :
    (o : Option Channel) (test : Channel → Bool) (rest : Result Bool)
    → (elim o [ none ↦ err key_error | some a ↦ ok a ]) >>= (λ c. if test c then ok true else rest)
      ≡ at_channel o test rest
at_channel-eq none test rest = refl
at_channel-eq (some c) test rest = refl

at_channel-true :
    (o : Option Channel) (test : Channel → Bool) (rest : Result Bool)
    → at_channel o test rest ≡ ok true
    → ((c : Channel) × (o ≡ some c) × (test c ≡ true)) ⊎ (rest ≡ ok true)
at_channel-true none test rest h = cc
at_channel-true (some c) test rest h = elim (Bool-cases (test c)) [
  | inl e ↦ inl (c, refl, e)
  | inr e ↦ inr (rw e at h)
]

any_available-Fired :
    (channels : Dict Channel) (versions : ChannelVersions) (chans : List String)
    → any_available channels chans ≡ ok true
    → Fired channels versions none chans
unfolding any_available fires
any_available-Fired channels versions [] h = cc
any_available-Fired channels versions (k ∷ chans) h =
    let o = get k channels in
    let rest = any_available channels chans in
    elim (at_channel-true o Channel.is_available rest
      (sym (at_channel-eq o Channel.is_available rest) ∙ h)) [
        | inl (c, e, p) ↦ record {
          chan = k;
          is_trigger = has-head k chans;
          is_fired = rw (fires, e, p) refl;
        }
        | inr next ↦
            Fired-cons channels versions none k chans
              (any_available-Fired channels versions chans next)
      ]

any_newer-Fired :
    (channels : Dict Channel) (versions seen : ChannelVersions) (chans : List String)
    → any_newer channels versions seen 0 chans ≡ ok true
    → Fired channels versions (some seen) chans
unfolding any_newer fires
any_newer-Fired channels versions seen [] h = cc
any_newer-Fired channels versions seen (k ∷ chans) h =
    let o = get k channels in
    let rest = any_newer channels versions seen 0 chans in
    let test =
      λ (c : Channel). Channel.is_available c && ltb (get_or k seen 0) (get_or k versions 0) in
    elim (at_channel-true o test rest (sym (at_channel-eq o test rest) ∙ h)) [
      | inl (c, e, p) ↦ record {
        chan = k;
        is_trigger = has-head k chans;
        is_fired = rw (fires, e) p;
      }
      | inr next ↦
          Fired-cons channels versions (some seen) k chans
            (any_newer-Fired channels versions seen chans next)
    ]

pub triggers-Fired :
    (channels : Dict Channel) (versions : ChannelVersions) (seen : Option ChannelVersions)
    (proc : PregelNode)
    → triggers channels versions seen 0 proc ≡ ok true
    → Fired channels versions seen proc.triggers
unfolding triggers
triggers-Fired channels versions none proc h = any_available-Fired channels versions proc.triggers h
triggers-Fired channels versions (some seen) proc h =
    any_newer-Fired channels versions seen proc.triggers h
