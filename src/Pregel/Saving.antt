-- ===== src/Pregel/Saving.antt =====
-- The loop of `create_checkpoint` puts each channel's state where `channels_from_checkpoint` finds it.
use langgraph_study.Prelude.{
  ℕ, String, ◌≡◌, refl, ◌∙◌, true, false, Option, none, some, List, [], ◌∷◌, str_eq, arith,
}
use langgraph_study.Method.{ok}
use langgraph_study.Values.{Value, snapshot}
use langgraph_study.Dict.{Dict, has, get, put, mem, keys}
use langgraph_study.Channels.Channel
use langgraph_study.Channels.Channel.{Channel, delta_channel}
use langgraph_study.Channels.Persistence.{from_checkpoint-checkpoint}
use langgraph_study.Pregel.Checkpoint.{ChannelVersions}
use langgraph_study.Pregel.ApplyWrites.{GetNextVersion}
use langgraph_study.Pregel.Checkpointing.{save_channels, bump_version, put_some}
use langgraph_study.Pregel.Saved.{
  by_checkpoint, by_snapshot, as_new, AllSaved, HasDistinctKeys, Restores, mem-bump_version,
  get-mem, get-not_mem, get-put_some_ne, get-put_some, has-head, has-tail, ne_of_has, get-delta,
  from_checkpoint-snapshot,
}

-- What the loop of `create_checkpoint` gives, from the values and versions that it has.
pub record Saves (to_snapshot : List String) (next : Option GetNextVersion)
    (updated : Option (List String)) (channels : Dict Channel) (values : Dict Value)
    (versions : ChannelVersions) : Type 0 where
  pub values' : Dict Value
  pub versions' : ChannelVersions
  pub returns :
      save_channels next updated to_snapshot channels values versions ≡ ok (values', versions')
  pub kept : (j : String) → has j (keys channels) ≡ false → get j values' ≡ get j values
  pub restores : Restores values' channels

module _ (to_snapshot : List String) (next : Option GetNextVersion)
    (updated : Option (List String)) where
  Saves-cons :
      (k : String) (c : Channel) (cs : Dict Channel) (values more : Dict Value)
      (versions versions₁ : ChannelVersions)
      → has k (keys cs) ≡ false
      → save_channels next updated to_snapshot ((k, c) ∷ cs) values versions
        ≡ save_channels next updated to_snapshot cs more versions₁
      → ((j : String) → str_eq k j ≡ false → get j more ≡ get j values)
      → Channel.from_checkpoint c (get k more) ≡ ok c
      → Saves to_snapshot next updated cs more versions₁
      → Saves to_snapshot next updated ((k, c) ∷ cs) values versions
  unfolding has
  Saves-cons k c cs values more versions versions₁ new e same restored s = record {
    values' = s.values';
    versions' = s.versions';
    returns = e ∙ s.returns;
    kept = λ j p. s.kept j (ground arith) ∙ same j (ground arith);
    restores = (rw (s.kept k new) restored, s.restores);
  }

  save_new :
      (k : String) (c : Channel) (cs : Dict Channel) (values : Dict Value)
      (versions : ChannelVersions)
      → get k versions ≡ none
      → save_channels next updated to_snapshot ((k, c) ∷ cs) values versions
        ≡ save_channels next updated to_snapshot cs values versions
  unfolding save_channels
  save_new k c cs values versions h = rw (h, save_channels)

  save_state :
      (k : String) (c : Channel) (cs : Dict Channel) (values : Dict Value)
      (versions : ChannelVersions) (version : ℕ)
      → get k versions ≡ some version
      → has k to_snapshot ≡ false
      → save_channels next updated to_snapshot ((k, c) ∷ cs) values versions
        ≡ save_channels next updated to_snapshot cs
            (put_some k (Channel.checkpoint c) values)
            versions
  unfolding save_channels
  save_state k c cs values versions version h p = rw (h, p, save_channels)

  save_snapshot :
      (k : String) (c : Channel) (cs : Dict Channel) (values : Dict Value)
      (versions : ChannelVersions) (version : ℕ) (v : Value)
      → get k versions ≡ some version
      → has k to_snapshot ≡ true
      → Channel.get c ≡ ok v
      → save_channels next updated to_snapshot ((k, c) ∷ cs) values versions
        ≡ save_channels next updated to_snapshot cs
            (put k (snapshot v) values)
            (bump_version next updated k version versions)
  unfolding save_channels
  save_snapshot k c cs values versions version v h p g = rw (h, p, g, save_channels)

  pub save :
      (first versions : ChannelVersions) (channels : Dict Channel) (values : Dict Value)
      → ((j : String) → mem j versions ≡ mem j first)
      → AllSaved to_snapshot first channels
      → HasDistinctKeys channels
      → ((j : String) → has j (keys channels) ≡ true → get j values ≡ none)
      → Saves to_snapshot next updated channels values versions
  save first versions [] values m all distinct empty = record {
    values' = values;
    versions' = versions;
    returns = unfold save_channels in refl;
    kept = λ j p. refl;
    restores = tt;
  }
  save first versions ((k, c) ∷ cs) values m (by_checkpoint v not_snap valid tracked, all) distinct
        empty =
      let (version, e) = get-mem k versions (m k ∙ v) in
      let more = put_some k (Channel.checkpoint c) values in
      Saves-cons k c cs values more versions versions distinct.0
        (save_state k c cs values versions version e not_snap)
        (get-put_some_ne k (Channel.checkpoint c) values)
        (rw (get-put_some k (Channel.checkpoint c) values (empty k (has-head k (keys cs))))
          (from_checkpoint-checkpoint c valid tracked))
        (save first versions cs more m all distinct.1 (λ j p.
          get-put_some_ne k (Channel.checkpoint c) values j (ne_of_has k j (keys cs) distinct.0 p)
          ∙ empty j (has-tail k j (keys cs) p)))
  save first versions ((k, c) ∷ cs) values m (by_snapshot d w v snap e p, all) distinct empty =
      let (version, h) = get-mem k versions (m k ∙ v) in
      let more = put k (snapshot w) values in
      Saves-cons k c cs values more versions (bump_version next updated k version versions)
        distinct.0 (save_snapshot k c cs values versions version w h snap (rw e (get-delta d w p)))
        (get-put_some_ne k (some (snapshot w)) values)
        (rw (get-put_some k (some (snapshot w)) values (empty k (has-head k (keys cs))))
          (rw e (from_checkpoint-snapshot d w p)))
        (save first (bump_version next updated k version versions) cs more
          (λ j. mem-bump_version next updated k j version versions (m k ∙ v) ∙ m j) all distinct.1
          (λ j q.
            get-put_some_ne k (some (snapshot w)) values j (ne_of_has k j (keys cs) distinct.0 q)
            ∙ empty j (has-tail k j (keys cs) q)))
  save first versions ((k, c) ∷ cs) values m (as_new v restored, all) distinct empty =
      Saves-cons k c cs values values versions versions distinct.0
        (save_new k c cs values versions (get-not_mem k versions (m k ∙ v))) (λ j p. refl)
        (rw (empty k (has-head k (keys cs))) restored)
        (save first versions cs values m all distinct.1 (λ j p. empty j (has-tail k j (keys cs) p)))
