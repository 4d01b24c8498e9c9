-- ===== src/Pregel/Outputs.antt =====
-- What `read_channels` of libs/langgraph/langgraph/pregel/_io.py gives.
use langgraph_study.Prelude.{
  String, ◌≡◌, refl, sym, ap, ◌∙◌, Bool, true, false, Option, none, some, List, [], ◌∷◌, str_eq,
  eq_iff, if◌then◌else◌, arith, Bool-cases, inl, inr,
}
use langgraph_study.Method.{Error, empty_channel, key_error, Result, ok, err, ◌>>=◌, Result-cases}
use langgraph_study.Values.{Value}
use langgraph_study.Dict.{Dict, has, get, put, get-put}
use langgraph_study.Channels.Channel
use langgraph_study.Channels.Channel.{Channel}
use langgraph_study.Pregel.Io.{many, several, catch_empty, read_channel, read_each, read_channels}

-- The value that a channel gives, or else the other.
abbrev pub value_or : Result Value → Option Value → Option Value
value_or (ok v) o = some v
value_or (err e) o = o

if-same : (b : Bool) (o : Option Value) → (if b then o else o) ≡ o
if-same true o = refl
if-same false o = refl

took :
    (channels : Dict Channel) (j k : String) (v : Value) (ks : List String) (values : Dict Value)
    → read_channel channels j false ≡ ok v
    → (if has k ks
        then value_or (read_channel channels k false) (get k (put j v values))
        else get k (put j v values))
      ≡ (if has k (j ∷ ks)
          then value_or (read_channel channels k false) (get k values)
          else get k values)
unfolding has
took channels j k v ks values e = elim (Bool-cases (str_eq j k)) [
  | inl p ↦
      let here : read_channel channels k false ≡ ok v =
        ap (λ i. read_channel channels i false) (sym ((eq_iff j k).0 p)) ∙ e in
      rw (p, here, get-put, p) (if-same (has k ks) (some v))
  | inr p ↦ rw (p, get-put, p) refl
]

left :
    (channels : Dict Channel) (j k : String) (c : Error) (ks : List String) (values : Dict Value)
    → read_channel channels j false ≡ err c
    → (if has k ks then value_or (read_channel channels k false) (get k values) else get k values)
      ≡ (if has k (j ∷ ks)
          then value_or (read_channel channels k false) (get k values)
          else get k values)
unfolding has
left channels j k c ks values e = elim (Bool-cases (str_eq j k)) [
  | inl p ↦
      let here : read_channel channels k false ≡ err c =
        ap (λ i. read_channel channels i false) (sym ((eq_iff j k).0 p)) ∙ e in
      rw (p, here) (if-same (has k ks) (get k values))
  | inr p ↦ rw p refl
]

-- Where `read_channels` returns, it has the value of each selected channel that has one, and no more:
-- an empty channel is left out, and what is not selected is as in the dict that the loop began with.
get-read_each :
    (channels : Dict Channel) (ks : List String) (values result : Dict Value) (k : String)
    → read_each channels true ks values ≡ ok result
    → get k result
      ≡ (if has k ks then value_or (read_channel channels k false) (get k values) else get k values)
unfolding read_each has
get-read_each channels [] values result k h = ground arith
get-read_each channels (j ∷ ks) values result k h =
    elim (Result-cases (read_channel channels j false)) [
      | inl (v, e) ↦
          get-read_each channels ks (put j v values) result k (rw (read_each, e) at h)
          ∙ took channels j k v ks values e
      | inr (empty_channel, e) ↦
          get-read_each channels ks values result k (rw (read_each, e) at h)
          ∙ left channels j k empty_channel ks values e
      | inr (other, e) ↦ cc (rw (read_each, e) at h)
    ]

-- What the channel's own `get` gives, if there is a channel.
abbrev pub got : Option Channel → Option Value
got none = none
got (some c) = value_or (Channel.get c) none

got-at_key :
    (o : Option Channel)
    → value_or
        (elim o [ none ↦ err key_error | some c ↦ ok c ] >>= λ c. catch_empty false (Channel.get c))
        none
      ≡ got o
got-at_key none = refl
got-at_key (some c) = refl

value_or-read_channel :
    (channels : Dict Channel) (k : String)
    → value_or (read_channel channels k false) none ≡ got (get k channels)
unfolding read_channel
value_or-read_channel channels k = got-at_key (get k channels)

read_each-read_channels :
    (channels : Dict Channel) (ks : List String) (r : Result (Dict Value)) (result : Dict Value)
    → (r >>= λ values. ok (several values)) ≡ ok (several result)
    → r ≡ ok result
read_each-read_channels channels ks (ok values) result h = cc
read_each-read_channels channels ks (err e) result h = cc

-- Where `read_channels` of a list of channels returns, it leaving out those that are empty, the dict
-- has for each selected channel what the `get` of the channel gives, and nothing for a selected
-- channel whose `get` raises, nor for what is not selected.
pub get-read_channels :
    (channels : Dict Channel) (ks : List String) (result : Dict Value) (k : String)
    → read_channels channels (many ks) true ≡ ok (several result)
    → get k result ≡ (if has k ks then got (get k channels) else none)
unfolding read_channels
get-read_channels channels ks result k h =
    get-read_each channels ks [] result k
      (read_each-read_channels channels ks (read_each channels true ks []) result h)
    ∙ unfold get in ap (λ o. if has k ks then o else none) (value_or-read_channel channels k)
