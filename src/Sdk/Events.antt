-- ===== src/Sdk/Events.antt =====
-- `SSEDecoder` of libs/sdk-py/langgraph_sdk/sse.py, which makes the parts of a stream of its lines. A
-- text is kept as its bytes in UTF-8. `orjson.loads` and `int` are parameters.
use langgraph_study.Prelude.{
  ℕ, Bool, not, ◌&&◌, Option, none, some, is_some, [], ◌∷◌, ◌++◌, nat_eq, nonempty, any,
  if◌then◌else◌,
}
use langgraph_study.Method.{ok, err, Method, unicode_error, json_error}
use langgraph_study.Sdk.Lines.{Bytes}
use langgraph_study.Sdk.Bytes.{bytes_of, bytes_eq, starts_with, partition, is_utf8}

-- What the decoder calls: `loads` gives `none` where `orjson.loads` raises, `is_null` is whether
-- that value is the None of a JSON null, and `int` gives `none` where Python's `int` of bytes raises.
pub record Parsers : Type 1 where
  pub Json : Type 0
  pub loads : Bytes → Option Json
  pub is_null : Json → Bool
  pub Number : Type 0
  pub int : Bytes → Option Number

abbrev pub colon : ℕ
colon = 0x3A

abbrev pub space : ℕ
space = 0x20

pub record StreamPart (Json : Type 0) : Type 0 where
  pub event : Bytes
  pub content : Option Json
  pub id : Option Bytes

pub record SseDecoder (Number : Type 0) : Type 0 where
  pub event : Bytes
  pub content : Bytes
  pub last_id : Bytes
  pub retry : Option Number

-- `text or None`
unfoldable pub or_none : Bytes → Option Bytes
or_none text = if nonempty text then some text else none

-- Without the space at its start, if it has one.
unfoldable pub strip_space : Bytes → Bytes
strip_space [] = []
strip_space (c ∷ value) = if nat_eq c space then value else c ∷ value

module _ (p : Parsers) where
  open p use {Json, loads, is_null, Number, int}

  unfoldable pub new : SseDecoder Number
  new = record { event = []; content = []; last_id = []; retry = none }

  -- The property `last_event_id`.
  unfoldable pub last_event_id : SseDecoder Number → Option Bytes
  unfolding or_none
  last_event_id d = or_none d.last_id

  -- `orjson.loads(self._data) if self._data else None`; the outer `none` is an error, and the inner one is
  -- None.
  unfoldable pub load : Bytes → Option (Option Json)
  load content =
      if nonempty content
      then elim (loads content) [
        | none ↦ none
        | some json ↦ some (if is_null json then none else some json)
      ]
      else some none

  unfoldable pub is_blank : SseDecoder Number → Bool
  is_blank d =
      not (nonempty d.event)
      && not (nonempty d.content)
      && not (nonempty d.last_id)
      && not (is_some d.retry)

  -- An empty line ends an event. An error leaves the decoder as it is.
  unfoldable pub end_event : Method (SseDecoder Number) (Option (StreamPart Json))
  unfolding load is_blank last_event_id
  end_event d = if is_blank d then (ok none, d) else elim (load d.content) [
    | none ↦ (err json_error, d)
    | some content ↦ (
      ok (some (record { event = d.event; content = content; id = last_event_id d })),
      record d { event = []; content = []; retry = none },
    )
  ]

  unfoldable pub set_field : Bytes → Bytes → Method (SseDecoder Number) (Option (StreamPart Json))
  set_field name value d =
      if bytes_eq name (bytes_of "event")
      then if is_utf8 value then (ok none, record d { event = value }) else (err unicode_error, d)
      else if bytes_eq name (bytes_of "data")
      then (ok none, record d { content = d.content ++ value })
      else if bytes_eq name (bytes_of "id")
      then if any (nat_eq 0) value
        then (ok none, d)
        else if is_utf8 value
        then (ok none, record d { last_id = value })
        else (err unicode_error, d)
      else if bytes_eq name (bytes_of "retry")
      then elim (int value) [
        | none ↦ (ok none, d)
        | some n ↦ (ok none, record d { retry = some n })
      ]
      else (ok none, d)

  unfoldable pub decode : Bytes → Method (SseDecoder Number) (Option (StreamPart Json))
  decode line d =
      if nonempty line
      then if starts_with line (colon ∷ [])
        then (ok none, d)
        else (let (name, value) = partition colon line in set_field name (strip_space value) d)
      else end_event d
