-- ===== src/Sdk/Feed.antt =====
-- What `stream` of libs/sdk-py/langgraph_sdk/_sync/http.py does with the lines of one response: the
-- loop over `iter_lines_raw`, and the last `decode(b"")` where the response ends without an error.
use langgraph_study.Prelude.{
  Bool, ◌||◌, Option, none, some, is_some, List, [], ◌∷◌, ◌++◌, nonempty, if◌then◌else◌,
}
use langgraph_study.Method.{Result, ok, err, Error}
use langgraph_study.Sdk.Lines.{Bytes, line_feed}
use langgraph_study.Sdk.Bytes.{rstrip}
use langgraph_study.Sdk.Events.{Parsers, StreamPart, SseDecoder, decode, new, last_event_id}

-- `sse.event or sse.data is not None`
unfoldable pub is_shown : {Json : Type 0} → StreamPart Json → Bool
is_shown part = nonempty part.event || is_some part.content

module _ (p : Parsers) where
  open p use {Json, Number}

  -- What has been yielded, the exception that ends the loop if there is one, and the variables.
  pub record Feed : Type 0 where
    pub yielded : List (StreamPart Json)
    pub raised : Option Error
    pub decoder : SseDecoder Number
    pub last_event_id : Option Bytes

  -- `if decoder.last_event_id is not None: last_event_id = decoder.last_event_id`
  unfoldable pub note_id : SseDecoder Number → Option Bytes → Option Bytes
  note_id d last = elim (last_event_id p d) [ none ↦ last | some id ↦ some id ]

  unfoldable pub yield_part : StreamPart Json → Feed → Feed
  unfolding is_shown
  yield_part part feed =
      if is_shown part then record feed { yielded = part ∷ feed.yielded } else feed

  -- What is done with the result of one `decode`; the rest of the reading waits for its variables.
  unfoldable pub feed_part :
      Option Bytes
      → (SseDecoder Number → Option Bytes → Feed)
      → Result (Option (StreamPart Json)) × SseDecoder Number
      → Feed
  unfolding yield_part note_id
  feed_part last rest (err e, d) = record {
    yielded = [];
    raised = some e;
    decoder = d;
    last_event_id = last;
  }
  feed_part last rest (ok none, d) = rest d last
  feed_part last rest (ok (some part), d) = yield_part part (rest d (note_id d last))

  -- The end of a loop over no more lines.
  unfoldable pub no_more : SseDecoder Number → Option Bytes → Feed
  no_more d last = record { yielded = []; raised = none; decoder = d; last_event_id = last }

  unfoldable pub read_lines : List Bytes → SseDecoder Number → Option Bytes → Feed
  unfolding no_more
  read_lines [] d last = no_more d last
  read_lines (line ∷ lines) d last =
      feed_part last (λ d' last'. read_lines lines d' last') (decode p (rstrip line_feed line) d)

  -- The `else` of the loop's `try`: the event that no empty line has ended.
  unfoldable pub end_feed : SseDecoder Number → Option Bytes → Feed
  unfolding no_more
  end_feed d last = feed_part last (λ d' last'. no_more d' last') (decode p [] d)

  unfoldable pub after : Feed → Feed → Feed
  after first next = record next { yielded = first.yielded ++ next.yielded }

  -- The whole of a response whose lines are these and that ends without an `httpx.HTTPError`.
  unfoldable pub read_all : List Bytes → Option Bytes → Feed
  unfolding after
  read_all lines last =
      let feed = read_lines lines (new p) last in
      if is_some feed.raised then feed else after feed (end_feed feed.decoder feed.last_event_id)
