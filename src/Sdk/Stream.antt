-- ===== src/Sdk/Stream.antt =====
-- The loop of `stream` in libs/sdk-py/langgraph_sdk/_sync/http.py: one request after the other, each
-- but the first a reconnection. An attempt is one round of the loop.
use langgraph_study.Prelude.{
  ℕ, zero, suc, ◌+◌, Option, none, some, String, List, [], ◌∷◌, ◌++◌, ltb, nonempty, if◌then◌else◌,
}
use langgraph_study.Method.{Result, ok, err, ◌>>=◌, Error, transport_error, http_error}
use langgraph_study.Dict
use langgraph_study.Dict.{Dict}
use langgraph_study.Sdk.Lines.{Bytes, decode_chunks, iter_lines_raw}
use langgraph_study.Sdk.Lines
use langgraph_study.Sdk.Bytes.{bytes_of}
use langgraph_study.Sdk.Events.{Parsers, StreamPart, new}
use langgraph_study.Sdk.Feed.{Feed, read_lines, read_all}
use langgraph_study.Sdk.Http.{
  Url, Request, Response, validate_reconnect_location, check_response, later_headers,
}

-- What the loop calls. `respond` is the server, given how often the client has reconnected.
pub record Client : Type 0 where
  pub urlparse : Bytes → Url
  pub base_url : Url
  pub lower : String → String
  pub respond : ℕ → Request → Response

abbrev pub max_reconnect_attempts : ℕ
max_reconnect_attempts = 5

pub data Outcome : Type 0 where
  finished : Outcome
  raised : Error → Outcome
  -- `continue`, with the path and the id of the last event
  retry : Bytes → Option Bytes → Outcome

-- The next request, made of the arguments of the first one.
unfoldable pub next_request : (String → String) → Request → Option Bytes → Option Bytes → Request
next_request lower first reconnect_path last_event_id = record {
  method = elim reconnect_path [ none ↦ first.method | some path ↦ bytes_of "GET" ];
  path = elim reconnect_path [ none ↦ first.path | some path ↦ path ];
  headers =
      let headers : Dict Bytes = elim reconnect_path [
        | none ↦ first.headers
        | some path ↦ later_headers lower first.headers
      ] in
      elim last_event_id [ none ↦ headers | some id ↦ Dict.put "Last-Event-ID" id headers ];
  content = elim reconnect_path [ none ↦ first.content | some path ↦ none ];
  params = elim reconnect_path [ none ↦ first.params | some path ↦ none ];
}

-- `reconnect_path` once the header `location` is read
unfoldable pub next_path : (Bytes → Url) → Url → Option Bytes → Option Bytes → Result (Option Bytes)
next_path urlparse base reconnect_path none = ok reconnect_path
next_path urlparse base reconnect_path (some location) =
    if nonempty location
    then validate_reconnect_location urlparse base location >>= (λ path. ok (some path))
    else ok reconnect_path

module _ (p : Parsers) where
  open p use {Json}

  pub record Attempt : Type 0 where
    pub yielded : List (StreamPart Json)
    pub outcome : Outcome

  -- An `httpx.HTTPError` while the response is read: only a stream with a location goes on.
  unfoldable pub broken_off : Option Bytes → Feed p → Outcome
  broken_off reconnect_path feed = elim feed.raised [
    | some e ↦ raised e
    | none ↦ elim reconnect_path [
      | none ↦ raised http_error
      | some path ↦ retry path feed.last_event_id
    ]
  ]

  unfoldable pub read_whole : Feed p → Outcome
  read_whole feed = elim feed.raised [ none ↦ finished | some e ↦ raised e ]

  unfoldable pub read_body : Response → Option Bytes → Option Bytes → Attempt
  unfolding broken_off read_whole
  read_body res reconnect_path last_event_id =
      if res.breaks_off
      then (let feed = read_lines p (decode_chunks Lines.new res.chunks).0 (new p) last_event_id in
          record { yielded = feed.yielded; outcome = broken_off reconnect_path feed })
      else (let feed = read_all p (iter_lines_raw res.chunks) last_event_id in
          record { yielded = feed.yielded; outcome = read_whole feed })

  -- What an attempt does once the response has passed its checks, or not.
  unfoldable pub attempt_at : Response → Option Bytes → Result (Option Bytes) → Attempt
  attempt_at res last_event_id (err e) = record { yielded = []; outcome = raised e }
  attempt_at res last_event_id (ok reconnect_path) = read_body res reconnect_path last_event_id

  -- One round of the loop, from the response on.
  unfoldable pub attempt : Client → Response → Option Bytes → Option Bytes → Attempt
  unfolding attempt_at
  attempt client res reconnect_path last_event_id = attempt_at res last_event_id (
      check_response res
      >>= (λ _. next_path client.urlparse client.base_url reconnect_path res.location))

  pub record Trace : Type 0 where
    pub requests : List Request
    pub yielded : List (StreamPart Json)
    pub raised : Option Error

  abbrev pub ended : Request → List (StreamPart Json) → Option Error → Trace
  ended request parts e = record { requests = request ∷ []; yielded = parts; raised = e }

  unfoldable pub then_trace : Request → List (StreamPart Json) → Option Trace → Option Trace
  then_trace request parts none = none
  then_trace request parts (some t) =
      some (record {
        requests = request ∷ t.requests;
        yielded = parts ++ t.yielded;
        raised = t.raised;
      })

  -- What follows an attempt: the end of the loop, or the rest of it, which waits for its variables.
  unfoldable pub follow :
      Request
      → ℕ
      → List (StreamPart Json)
      → (Bytes → Option Bytes → Option Trace)
      → Outcome
      → Option Trace
  unfolding then_trace
  follow request attempts parts rest finished = some (ended request parts none)
  follow request attempts parts rest (raised e) = some (ended request parts (some e))
  follow request attempts parts rest (retry path last) =
      if ltb max_reconnect_attempts (attempts + 1)
      then some (ended request parts (some transport_error))
      else then_trace request parts (rest path last)

  -- The loop, on fuel; `none` means that the fuel ran out.
  unfoldable pub stream_from : ℕ → Client → Request → ℕ → Option Bytes → Option Bytes → Option Trace
  stream_from zero client first attempts reconnect_path last_event_id = none
  stream_from (suc fuel) client first attempts reconnect_path last_event_id =
      let request = next_request client.lower first reconnect_path last_event_id in
      let tried = attempt client (client.respond attempts request) reconnect_path last_event_id in
      follow request attempts tried.yielded
        (λ path last. stream_from fuel client first (attempts + 1) (some path) last) tried.outcome

  -- `stream`; the fuel is one more than the reconnections that it allows.
  unfoldable pub stream : Client → Request → Option Trace
  stream client first = stream_from (suc max_reconnect_attempts) client first 0 none none
