-- ===== src/Channels/Channel.antt =====
-- `BaseChannel` of libs/langgraph/langgraph/channels/base.py: a channel is an object of one of the
-- classes, and a method is the method of its class, or the one that it inherits from `BaseChannel`.
use langgraph_study.Prelude.{Bool, false, Option, List}
use langgraph_study.Method.{Result, ok, err}
use langgraph_study.Values.{Value}
use langgraph_study.Channels.LastValue
use langgraph_study.Channels.LastValue.{LastValue}
use langgraph_study.Channels.LastValueAfterFinish
use langgraph_study.Channels.LastValueAfterFinish.{LastValueAfterFinish}
use langgraph_study.Channels.EphemeralValue
use langgraph_study.Channels.EphemeralValue.{EphemeralValue}
use langgraph_study.Channels.AnyValue
use langgraph_study.Channels.AnyValue.{AnyValue}
use langgraph_study.Channels.UntrackedValue
use langgraph_study.Channels.UntrackedValue.{UntrackedValue}
use langgraph_study.Channels.Topic
use langgraph_study.Channels.Topic.{Topic}
use langgraph_study.Channels.BinaryOperatorAggregate
use langgraph_study.Channels.BinaryOperatorAggregate.{BinaryOperatorAggregate}
use langgraph_study.Channels.NamedBarrierValue
use langgraph_study.Channels.NamedBarrierValue.{NamedBarrierValue}
use langgraph_study.Channels.NamedBarrierValueAfterFinish
use langgraph_study.Channels.NamedBarrierValueAfterFinish.{NamedBarrierValueAfterFinish}
use langgraph_study.Channels.DeltaChannel
use langgraph_study.Channels.DeltaChannel.{DeltaChannel}

pub data Channel : Type 0 where
  last_value : LastValue → Channel
  last_value_after_finish : LastValueAfterFinish → Channel
  ephemeral_value : EphemeralValue → Channel
  any_value : AnyValue → Channel
  untracked_value : UntrackedValue → Channel
  topic : Topic → Channel
  binary_operator_aggregate : BinaryOperatorAggregate → Channel
  named_barrier_value : NamedBarrierValue → Channel
  named_barrier_value_after_finish : NamedBarrierValueAfterFinish → Channel
  delta_channel : DeltaChannel → Channel

-- The object after a method, as a channel again.
abbrev wrap {ℓ} : {A S : Type ℓ} → (S → Channel) → A × S → A × Channel
wrap f (r, s) = (r, f s)

abbrev wrap_result : {S : Type 0} → (S → Channel) → Result S → Result Channel
wrap_result f (ok s) = ok (f s)
wrap_result f (err e) = err e

unfoldable pub copy : Channel → Result Channel
unfolding LastValue.copy LastValueAfterFinish.copy EphemeralValue.copy AnyValue.copy
    UntrackedValue.copy Topic.copy BinaryOperatorAggregate.copy NamedBarrierValue.copy
    NamedBarrierValueAfterFinish.copy DeltaChannel.copy
copy (last_value c) = ok (last_value (LastValue.copy c))
copy (last_value_after_finish c) = wrap_result last_value_after_finish (LastValueAfterFinish.copy c)
copy (ephemeral_value c) = ok (ephemeral_value (EphemeralValue.copy c))
copy (any_value c) = ok (any_value (AnyValue.copy c))
copy (untracked_value c) = ok (untracked_value (UntrackedValue.copy c))
copy (topic c) = ok (topic (Topic.copy c))
copy (binary_operator_aggregate c) = ok (binary_operator_aggregate (BinaryOperatorAggregate.copy c))
copy (named_barrier_value c) = ok (named_barrier_value (NamedBarrierValue.copy c))
copy (named_barrier_value_after_finish c) =
    ok (named_barrier_value_after_finish (NamedBarrierValueAfterFinish.copy c))
copy (delta_channel c) = ok (delta_channel (DeltaChannel.copy c))

unfoldable pub checkpoint : Channel → Option Value
unfolding LastValue.checkpoint LastValueAfterFinish.checkpoint EphemeralValue.checkpoint
    AnyValue.checkpoint UntrackedValue.checkpoint Topic.checkpoint
    BinaryOperatorAggregate.checkpoint NamedBarrierValue.checkpoint
    NamedBarrierValueAfterFinish.checkpoint DeltaChannel.checkpoint
checkpoint (last_value c) = LastValue.checkpoint c
checkpoint (last_value_after_finish c) = LastValueAfterFinish.checkpoint c
checkpoint (ephemeral_value c) = EphemeralValue.checkpoint c
checkpoint (any_value c) = AnyValue.checkpoint c
checkpoint (untracked_value c) = UntrackedValue.checkpoint c
checkpoint (topic c) = Topic.checkpoint c
checkpoint (binary_operator_aggregate c) = BinaryOperatorAggregate.checkpoint c
checkpoint (named_barrier_value c) = NamedBarrierValue.checkpoint c
checkpoint (named_barrier_value_after_finish c) = NamedBarrierValueAfterFinish.checkpoint c
checkpoint (delta_channel c) = DeltaChannel.checkpoint c

unfoldable pub from_checkpoint : Channel → Option Value → Result Channel
unfolding LastValue.from_checkpoint LastValueAfterFinish.from_checkpoint
    EphemeralValue.from_checkpoint AnyValue.from_checkpoint UntrackedValue.from_checkpoint
    Topic.from_checkpoint BinaryOperatorAggregate.from_checkpoint NamedBarrierValue.from_checkpoint
    NamedBarrierValueAfterFinish.from_checkpoint DeltaChannel.from_checkpoint
from_checkpoint (last_value c) blob = ok (last_value (LastValue.from_checkpoint c blob))
from_checkpoint (last_value_after_finish c) blob =
    wrap_result last_value_after_finish (LastValueAfterFinish.from_checkpoint c blob)
from_checkpoint (ephemeral_value c) blob =
    ok (ephemeral_value (EphemeralValue.from_checkpoint c blob))
from_checkpoint (any_value c) blob = ok (any_value (AnyValue.from_checkpoint c blob))
from_checkpoint (untracked_value c) blob =
    ok (untracked_value (UntrackedValue.from_checkpoint c blob))
from_checkpoint (topic c) blob = wrap_result topic (Topic.from_checkpoint c blob)
from_checkpoint (binary_operator_aggregate c) blob =
    ok (binary_operator_aggregate (BinaryOperatorAggregate.from_checkpoint c blob))
from_checkpoint (named_barrier_value c) blob =
    wrap_result named_barrier_value (NamedBarrierValue.from_checkpoint c blob)
from_checkpoint (named_barrier_value_after_finish c) blob =
    wrap_result named_barrier_value_after_finish
      (NamedBarrierValueAfterFinish.from_checkpoint c blob)
from_checkpoint (delta_channel c) blob = ok (delta_channel (DeltaChannel.from_checkpoint c blob))

unfoldable pub get : Channel → Result Value
unfolding LastValue.get LastValueAfterFinish.get EphemeralValue.get AnyValue.get UntrackedValue.get
    Topic.get BinaryOperatorAggregate.get NamedBarrierValue.get NamedBarrierValueAfterFinish.get
    DeltaChannel.get
get (last_value c) = LastValue.get c
get (last_value_after_finish c) = LastValueAfterFinish.get c
get (ephemeral_value c) = EphemeralValue.get c
get (any_value c) = AnyValue.get c
get (untracked_value c) = UntrackedValue.get c
get (topic c) = Topic.get c
get (binary_operator_aggregate c) = BinaryOperatorAggregate.get c
get (named_barrier_value c) = NamedBarrierValue.get c
get (named_barrier_value_after_finish c) = NamedBarrierValueAfterFinish.get c
get (delta_channel c) = DeltaChannel.get c

unfoldable pub is_available : Channel → Bool
unfolding LastValue.is_available LastValueAfterFinish.is_available EphemeralValue.is_available
    AnyValue.is_available UntrackedValue.is_available Topic.is_available
    BinaryOperatorAggregate.is_available NamedBarrierValue.is_available
    NamedBarrierValueAfterFinish.is_available DeltaChannel.is_available
is_available (last_value c) = LastValue.is_available c
is_available (last_value_after_finish c) = LastValueAfterFinish.is_available c
is_available (ephemeral_value c) = EphemeralValue.is_available c
is_available (any_value c) = AnyValue.is_available c
is_available (untracked_value c) = UntrackedValue.is_available c
is_available (topic c) = Topic.is_available c
is_available (binary_operator_aggregate c) = BinaryOperatorAggregate.is_available c
is_available (named_barrier_value c) = NamedBarrierValue.is_available c
is_available (named_barrier_value_after_finish c) = NamedBarrierValueAfterFinish.is_available c
is_available (delta_channel c) = DeltaChannel.is_available c

unfoldable pub update : Channel → List Value → Result Bool × Channel
unfolding LastValue.update LastValueAfterFinish.update EphemeralValue.update AnyValue.update
    UntrackedValue.update Topic.update BinaryOperatorAggregate.update NamedBarrierValue.update
    NamedBarrierValueAfterFinish.update DeltaChannel.update
update (last_value c) values = wrap last_value (LastValue.update c values)
update (last_value_after_finish c) values =
    wrap last_value_after_finish (LastValueAfterFinish.update c values)
update (ephemeral_value c) values = wrap ephemeral_value (EphemeralValue.update c values)
update (any_value c) values = wrap any_value (AnyValue.update c values)
update (untracked_value c) values = wrap untracked_value (UntrackedValue.update c values)
update (topic c) values = wrap topic (Topic.update c values)
update (binary_operator_aggregate c) values =
    wrap binary_operator_aggregate (BinaryOperatorAggregate.update c values)
update (named_barrier_value c) values = wrap named_barrier_value (NamedBarrierValue.update c values)
update (named_barrier_value_after_finish c) values =
    wrap named_barrier_value_after_finish (NamedBarrierValueAfterFinish.update c values)
update (delta_channel c) values = wrap delta_channel (DeltaChannel.update c values)

-- By default a no-op, and so for `finish`.
unfoldable pub consume : Channel → Bool × Channel
unfolding LastValueAfterFinish.consume NamedBarrierValue.consume
    NamedBarrierValueAfterFinish.consume
consume (last_value c) = (false, last_value c)
consume (last_value_after_finish c) = wrap last_value_after_finish (LastValueAfterFinish.consume c)
consume (ephemeral_value c) = (false, ephemeral_value c)
consume (any_value c) = (false, any_value c)
consume (untracked_value c) = (false, untracked_value c)
consume (topic c) = (false, topic c)
consume (binary_operator_aggregate c) = (false, binary_operator_aggregate c)
consume (named_barrier_value c) = wrap named_barrier_value (NamedBarrierValue.consume c)
consume (named_barrier_value_after_finish c) =
    wrap named_barrier_value_after_finish (NamedBarrierValueAfterFinish.consume c)
consume (delta_channel c) = (false, delta_channel c)

unfoldable pub finish : Channel → Bool × Channel
unfolding LastValueAfterFinish.finish NamedBarrierValueAfterFinish.finish
finish (last_value c) = (false, last_value c)
finish (last_value_after_finish c) = wrap last_value_after_finish (LastValueAfterFinish.finish c)
finish (ephemeral_value c) = (false, ephemeral_value c)
finish (any_value c) = (false, any_value c)
finish (untracked_value c) = (false, untracked_value c)
finish (topic c) = (false, topic c)
finish (binary_operator_aggregate c) = (false, binary_operator_aggregate c)
finish (named_barrier_value c) = (false, named_barrier_value c)
finish (named_barrier_value_after_finish c) =
    wrap named_barrier_value_after_finish (NamedBarrierValueAfterFinish.finish c)
finish (delta_channel c) = (false, delta_channel c)
