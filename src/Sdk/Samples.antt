-- ===== src/Sdk/Samples.antt =====
-- The theorems about the streams at concrete inputs, and tests.
use langgraph_study.Prelude.{
  ℕ, ◌+◌, ◌≤◌, true, ◌≡◌, refl, none, some, List, [], ◌∷◌, map, length, drop,
}
use langgraph_study.Method.{transport_error}
use langgraph_study.Sdk.Lines
use langgraph_study.Sdk.Lines.{
  Bytes, iter_lines_raw, splitlines, splitlines_from, decode_chunks, decode, decode_ended,
  decode_text, take_lines, with_trailing, last_is, flush,
}
use langgraph_study.Sdk.Bytes.{bytes_of, bytes_eq, is_utf8, contains, partition}
use langgraph_study.Sdk.Events.{Parsers, load}
use langgraph_study.Sdk.Feed.{read_all, read_lines}
use langgraph_study.Sdk.Http.{
  Url, Request, check_response, validate_reconnect_location, later_headers,
}
use langgraph_study.Sdk.Stream.{
  Client, stream, stream_from, follow, attempt, next_request, next_path, read_body, Trace,
  max_reconnect_attempts,
}
use langgraph_study.Sdk.Rendering.{
  Event, all_lines, event_lines, field_line, part_of, text_of, AllSendable,
}
use langgraph_study.Sdk.Chunks.{iter_lines_raw-eq-splitlines}
use langgraph_study.Sdk.Attempts.{stream-ends}
use langgraph_study.Sdk.Origins.{stream-Reconnects, Reconnects}
use langgraph_study.Sdk.RoundTrip.{read_all-all_lines}
use mathlib.Core.List.{flatten}

-- `a`, `\r` and then `\n`, `b`
abbrev cut_break : List Bytes
cut_break = (b'a' ∷ 13 ∷ []) ∷ (10 ∷ b'b' ∷ []) ∷ []

iter_lines_raw-eq-splitlines_example : iter_lines_raw cut_break ≡ splitlines (flatten cut_break)
iter_lines_raw-eq-splitlines_example = iter_lines_raw-eq-splitlines cut_break

lines_of_cut_break : splitlines (flatten cut_break) ≡ (b'a' ∷ []) ∷ (b'b' ∷ []) ∷ []
unfolding splitlines splitlines_from flatten
lines_of_cut_break = refl

decoded_cut_break : iter_lines_raw cut_break ≡ (b'a' ∷ []) ∷ (b'b' ∷ []) ∷ []
unfolding iter_lines_raw decode_chunks decode decode_ended decode_text take_lines with_trailing
    last_is flush Lines.new splitlines splitlines_from
decoded_cut_break = refl

-- JSON that is kept as it is.
abbrev plain : Parsers
plain = record {
  Json = Bytes;
  loads = λ s. some s;
  is_null = bytes_eq (bytes_of "null");
  Number = ℕ;
  int = λ s. none;
}

abbrev greeting : Event Bytes
greeting = record {
  name = bytes_of "values";
  values = bytes_of "{" ∷ bytes_of "}" ∷ [];
  id = bytes_of "1";
  content = some (bytes_of "{}");
}

abbrev farewell : Event Bytes
farewell = record { name = bytes_of "end"; values = []; id = []; content = none }

abbrev both : List (Event Bytes)
both = greeting ∷ farewell ∷ []

both-AllSendable : AllSendable plain both
unfolding is_utf8 flatten load bytes_eq
both-AllSendable = (
  record {
    named = refl;
    name_is_text = refl;
    id_is_text = refl;
    id_lacks_nul = refl;
    loads_content = refl;
    name_is_line = refl;
    values_are_lines = (refl, (refl, tt));
    id_is_line = refl;
  },
  (
    record {
      named = refl;
      name_is_text = refl;
      id_is_text = refl;
      id_lacks_nul = refl;
      loads_content = refl;
      name_is_line = refl;
      values_are_lines = tt;
      id_is_line = refl;
    },
    tt,
  ),
)

-- The text of both events in two chunks, the first with the first ten bytes.
abbrev two_chunks : List Bytes
two_chunks = bytes_of "event: val" ∷ drop 10 (text_of (all_lines both)) ∷ []

read_all-all_lines_example :
    ((read_all plain (iter_lines_raw two_chunks) none).yielded ≡ map part_of both)
    × ((read_all plain (iter_lines_raw two_chunks) none).raised ≡ none)
unfolding flatten text_of all_lines event_lines field_line
read_all-all_lines_example = read_all-all_lines plain both two_chunks none both-AllSendable refl

-- A server that breaks every response off, at a path of its own.
abbrev local_url : Url
local_url = record { scheme = []; netloc = []; hostname = none; port = none }

abbrev broken_client : Client
broken_client = record {
  urlparse = λ path. local_url;
  base_url = local_url;
  lower = λ s. s;
  respond = λ n request. record {
    status_code = 200;
    content_type = bytes_of "text/event-stream; charset=utf-8";
    location = some (bytes_of "/again");
    chunks = (bytes_of "event: values") ∷ [];
    breaks_off = true;
  };
}

abbrev call : Request
call = record {
  method = bytes_of "POST";
  path = bytes_of "/runs/stream";
  headers = ("content-type", bytes_of "application/json") ∷ [];
  content = some (bytes_of "{}");
  params = none;
}

stream-ends_example :
    (t : Trace plain) × (stream plain broken_client call ≡ some t)
    × (1 ≤ length t.requests)
    × (length t.requests ≤ 1 + max_reconnect_attempts)
stream-ends_example = stream-ends plain broken_client call

abbrev again : Request
again = record {
  method = bytes_of "GET";
  path = bytes_of "/again";
  headers = [];
  content = none;
  params = none;
}

broken_trace :
    stream plain broken_client call
    ≡ some (record {
      requests = call ∷ again ∷ again ∷ again ∷ again ∷ again ∷ [];
      yielded = [];
      raised = some transport_error;
    })
unfolding stream stream_from follow attempt next_request next_path check_response read_body
    validate_reconnect_location later_headers contains partition read_lines Lines.new decode_chunks
    decode decode_ended decode_text take_lines with_trailing last_is splitlines splitlines_from
broken_trace = refl

stream-Reconnects_example :
    Reconnects broken_client call (call ∷ again ∷ again ∷ again ∷ again ∷ again ∷ [])
stream-Reconnects_example = stream-Reconnects plain broken_client call _ broken_trace
