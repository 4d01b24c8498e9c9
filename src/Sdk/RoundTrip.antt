-- ===== src/Sdk/RoundTrip.antt =====
-- A stream of events is read back as the parts that were written.
use langgraph_study.Prelude.{
  true, ◌≡◌, refl, Option, none, some, List, [], ◌∷◌, ◌++◌, map, nat_eq, arith, ap, ap₂, ◌∙◌,
}
use langgraph_study.Method.{ok}
use langgraph_study.Sdk.Lines.{Bytes, line_feed, is_newline, iter_lines_raw}
use langgraph_study.Sdk.Bytes.{bytes_eq, starts_with, partition, is_utf8, rstrip}
use langgraph_study.Sdk.Events.{
  Parsers, StreamPart, SseDecoder, new, decode, set_field, strip_space, end_event, is_blank, load,
  last_event_id,
}
use langgraph_study.Sdk.Feed.{
  Feed, read_lines, read_all, end_feed, after, yield_part, is_shown, note_id, feed_part, no_more,
}
use langgraph_study.Sdk.Rendering.{
  Event, field_line, event_lines, all_lines, part_of, text_of, Lacks, AllLack, IsSendable,
  AllSendable, splitlines-text_of, all_lines-AllLack,
}
use langgraph_study.Sdk.Chunks.{iter_lines_raw-eq-splitlines}
use mathlib.Core.List.{flatten, append_assoc, append-nil}

rstrip-Lacks : (s : Bytes) → Lacks is_newline s → rstrip line_feed s ≡ s
unfolding rstrip
rstrip-Lacks [] h = refl
rstrip-Lacks (c ∷ []) h = ground arith
rstrip-Lacks (c ∷ d ∷ s) h = rw (rstrip-Lacks (d ∷ s) (ground arith))

module _ (p : Parsers) where
  open p use {Json, Number}

  decode_event :
      (v : Bytes) (d : SseDecoder Number)
      → is_utf8 v ≡ true
      → decode p (field_line "event" v) d ≡ (ok none, record d { event = v })
  unfolding decode set_field starts_with partition strip_space bytes_eq field_line
  decode_event v d u = rw u

  decode_data :
      (v : Bytes) (d : SseDecoder Number)
      → decode p (field_line "data" v) d ≡ (ok none, record d { content = d.content ++ v })
  unfolding decode set_field starts_with partition strip_space bytes_eq field_line
  decode_data v d = refl

  decode_id :
      (v : Bytes) (d : SseDecoder Number)
      → is_utf8 v ≡ true
      → Lacks (nat_eq 0) v
      → decode p (field_line "id" v) d ≡ (ok none, record d { last_id = v })
  unfolding decode set_field starts_with partition strip_space bytes_eq field_line
  decode_id v d u z = rw (z, u)

  -- A line that sets a field yields nothing.
  read_lines-field :
      (line : Bytes) (lines : List Bytes) (d d' : SseDecoder Number) (last : Option Bytes)
      → Lacks is_newline line
      → decode p line d ≡ (ok none, d')
      → read_lines p (line ∷ lines) d last ≡ read_lines p lines d' last
  unfolding read_lines feed_part
  read_lines-field line lines d d' last h e = rw (rstrip-Lacks line h, e)

  read_lines-data :
      (vs lines : List Bytes) (d : SseDecoder Number) (last : Option Bytes)
      → AllLack is_newline vs
      → read_lines p (map (field_line "data") vs ++ lines) d last
        ≡ read_lines p lines (record d { content = d.content ++ flatten vs }) last
  unfolding flatten field_line
  read_lines-data [] lines d last h = rw append-nil
  read_lines-data (v ∷ vs) lines d last h =
      read_lines-field (field_line "data" v) _ d _ last h.0 (decode_data v d)
      ∙ read_lines-data vs lines (record d { content = d.content ++ v }) last h.1
      ∙ ap (λ c. read_lines p lines (record d { content = c }) last)
          (append_assoc d.content v (flatten vs))

  -- The decoder between two events.
  abbrev between : Bytes → SseDecoder Number
  between id = record { event = []; content = []; last_id = id; retry = none }

  abbrev filled : Event Json → SseDecoder Number
  filled e = record { event = e.name; content = flatten e.values; last_id = e.id; retry = none }

  end_event-filled :
      (e : Event Json)
      → IsSendable p e
      → end_event p (filled e) ≡ (ok (some (part_of e)), between e.id)
  unfolding end_event is_blank last_event_id part_of
  end_event-filled e s = rw (s.named, s.loads_content)

  abbrev with_part : StreamPart Json → Feed p → Feed p
  with_part part feed = record feed { yielded = part ∷ feed.yielded }

  -- The empty line behind an event.
  read_lines-end :
      (e : Event Json) (rest : List Bytes) (last : Option Bytes)
      → IsSendable p e
      → read_lines p ([] ∷ rest) (filled e) last
        ≡ with_part (part_of e) (read_lines p rest (between e.id) (note_id p (between e.id) last))
  unfolding read_lines feed_part decode rstrip yield_part is_shown
  read_lines-end e rest last s = rw (end_event-filled e s) (unfold part_of in rw s.named)

  read_lines-event :
      (e : Event Json) (rest : List Bytes) (id : Bytes) (last : Option Bytes)
      → IsSendable p e
      → read_lines p (event_lines e ++ rest) (between id) last
        ≡ with_part (part_of e) (read_lines p rest (between e.id) (note_id p (between e.id) last))
  unfolding event_lines field_line
  read_lines-event e rest id last s =
      read_lines-field (field_line "event" e.name) _ (between id) _ last s.name_is_line
        (decode_event e.name (between id) s.name_is_text)
      ∙ ap (λ ls. read_lines p ls named last)
          (append_assoc (map (field_line "data") e.values) (field_line "id" e.id ∷ [] ∷ []) rest)
      ∙ read_lines-data e.values (field_line "id" e.id ∷ [] ∷ rest) named last s.values_are_lines
      ∙ read_lines-field (field_line "id" e.id) ([] ∷ rest) with_data (filled e) last s.id_is_line
          (decode_id e.id with_data s.id_is_text s.id_lacks_nul)
      ∙ read_lines-end e rest last s
    where
      named : SseDecoder Number
      named = record { event = e.name; content = []; last_id = id; retry = none }

      with_data : SseDecoder Number
      with_data = record { event = e.name; content = flatten e.values; last_id = id; retry = none }

  pub record ReadsAll (es : List (Event Json)) (feed : Feed p) : Type 0 where
    pub all_yielded : feed.yielded ≡ map part_of es
    pub none_raised : feed.raised ≡ none
    pub last_id : Bytes
    pub decoder_is : feed.decoder ≡ between last_id

  with_part-ReadsAll :
      (e : Event Json) (es : List (Event Json)) (feed : Feed p)
      → ReadsAll es feed
      → ReadsAll (e ∷ es) (with_part (part_of e) feed)
  with_part-ReadsAll e es feed r = record {
    all_yielded = ap (◌∷◌ (part_of e)) r.all_yielded;
    none_raised = r.none_raised;
    last_id = r.last_id;
    decoder_is = r.decoder_is;
  }

  read_lines-ReadsAll :
      (es : List (Event Json)) (id : Bytes) (last : Option Bytes)
      → AllSendable p es
      → ReadsAll es (read_lines p (all_lines es) (between id) last)
  unfolding all_lines
  read_lines-ReadsAll [] id last s =
      unfold read_lines no_more in
      record { all_yielded = refl; none_raised = refl; last_id = id; decoder_is = refl }
  read_lines-ReadsAll (e ∷ es) id last s =
      rw (read_lines-event e (all_lines es) id last s.0) (
        with_part-ReadsAll e es _ (read_lines-ReadsAll es e.id (note_id p (between e.id) last) s.1))

  end_feed-between :
      (id : Bytes) (last : Option Bytes)
      → ((end_feed p (between id) last).yielded ≡ [])
        × ((end_feed p (between id) last).raised ≡ none)
  unfolding end_feed feed_part decode end_event is_blank load last_event_id yield_part is_shown
      no_more
  end_feed-between [] last = (refl, refl)
  end_feed-between (c ∷ id) last = (refl, refl)

  -- The last `decode(b"")` yields nothing more.
  read_all-ReadsAll :
      (es : List (Event Json)) (lines : List Bytes) (last : Option Bytes)
      → ReadsAll es (read_lines p lines (new p) last)
      → ((read_all p lines last).yielded ≡ map part_of es) × ((read_all p lines last).raised ≡ none)
  unfolding read_all after
  read_all-ReadsAll es lines last r =
      let feed = read_lines p lines (new p) last in
      let ending = end_feed-between r.last_id feed.last_event_id in
      rw (r.none_raised, r.decoder_is)
        (ap₂ ◌++◌ r.all_yielded ending.0 ∙ append-nil (map part_of es), ending.1)

-- A response that carries events, each with a name, in any chunks: the parts that are yielded are the
-- events, in their order, with their names, contents and ids, and no error is raised. The events are
-- such as the format can carry: UTF-8 with no line breaks, an id with no NUL, and data lines that
-- are together the JSON of the content, or all empty where it is None.
pub read_all-all_lines :
    (p : Parsers) (es : List (Event p.Json)) (chunks : List Bytes) (last : Option Bytes)
    → AllSendable p es
    → flatten chunks ≡ text_of (all_lines es)
    → ((read_all p (iter_lines_raw chunks) last).yielded ≡ map part_of es)
      × ((read_all p (iter_lines_raw chunks) last).raised ≡ none)
read_all-all_lines p es chunks last s e =
    rw (iter_lines_raw-eq-splitlines chunks, e, splitlines-text_of _ (all_lines-AllLack p es s))
      (read_all-ReadsAll p es (all_lines es) last
        (unfold new in read_lines-ReadsAll p es [] last s))
