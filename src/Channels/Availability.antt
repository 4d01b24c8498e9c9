-- ===== src/Channels/Availability.antt =====
-- `is_available` of the channel classes, against the definition in `BaseChannel`.
use langgraph_study.Prelude.{◌≡◌, Bool, true, false, arith}
use langgraph_study.Method.{Result, ok, err}
use langgraph_study.Values.{Value}
use langgraph_study.Channels.Channel.{Channel, get, is_available, last_value}

-- `BaseChannel.is_available`: True if `get()` returns, False if it raises EmptyChannelError.
pub is_available_by_get : Result Value → Bool
is_available_by_get (ok v) = true
is_available_by_get (err e) = false

-- In every channel class the method `is_available`, which overrides that of `BaseChannel`, answers
-- what that one would: True exactly when `get()` returns a value.
pub is_available-eq-by_get : (c : Channel) → is_available c ≡ is_available_by_get (get c)
unfolding get is_available is_available_by_get
is_available-eq-by_get (last_value c) = ground arith
is_available-eq-by_get _ = ground arith
