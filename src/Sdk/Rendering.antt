-- ===== src/Sdk/Rendering.antt =====
-- How a server writes an event, by the format that `SSEDecoder` reads, and the lines of such a text.
use langgraph_study.Prelude.{
  ℕ, Bool, true, false, ◌≡◌, refl, Option, some, String, List, [], ◌∷◌, ◌++◌, map, nat_eq, nonempty,
  any, arith, ap, ◌∙◌,
}
use langgraph_study.Sdk.Lines.{Bytes, line_feed, is_newline, splitlines, splitlines_from}
use langgraph_study.Sdk.Bytes.{bytes_of, is_utf8}
use langgraph_study.Sdk.Events.{Parsers, StreamPart, colon, space, load, or_none}
use mathlib.Core.List.{flatten, append_assoc, append-nil}

pub record Event (Json : Type 0) : Type 0 where
  pub name : Bytes
  pub values : List Bytes
  pub id : Bytes
  pub content : Option Json

-- A line of the field: its name, a colon, a space, its value.
unfoldable pub field_line : String → Bytes → Bytes
field_line name value = bytes_of name ++ colon ∷ space ∷ value

-- The data may stand in several lines. An empty line ends the event.
unfoldable pub event_lines : {Json : Type 0} → Event Json → List Bytes
event_lines e =
    field_line "event" e.name ∷ (map (field_line "data") e.values ++ field_line "id" e.id ∷ [] ∷ [])

unfoldable pub all_lines : {Json : Type 0} → List (Event Json) → List Bytes
all_lines [] = []
all_lines (e ∷ es) = event_lines e ++ all_lines es

unfoldable pub part_of : {Json : Type 0} → Event Json → StreamPart Json
part_of e = record { event = e.name; content = e.content; id = or_none e.id }

-- Every line with a `\n` behind it.
unfoldable pub text_of : List Bytes → Bytes
text_of [] = []
text_of (l ∷ ls) = l ++ line_feed ∷ text_of ls

abbrev pub Lacks : (ℕ → Bool) → Bytes → Type 0
Lacks test s = any test s ≡ false

abbrev pub AllLack : (ℕ → Bool) → List Bytes → Type 0
AllLack test [] = Unit {0}
AllLack test (l ∷ ls) = Lacks test l × AllLack test ls

-- An event that the format can carry: its fields are UTF-8 with no line breaks, its id has no NUL, and
-- its data lines, one behind the other, are the JSON of its content, or all empty if it has none.
pub record IsSendable (p : Parsers) (e : Event p.Json) : Type 0 where
  pub named : nonempty e.name ≡ true
  pub name_is_text : is_utf8 e.name ≡ true
  pub id_is_text : is_utf8 e.id ≡ true
  pub id_lacks_nul : Lacks (nat_eq 0) e.id
  pub loads_content : load p (flatten e.values) ≡ some e.content
  pub name_is_line : Lacks is_newline e.name
  pub values_are_lines : AllLack is_newline e.values
  pub id_is_line : Lacks is_newline e.id

abbrev pub AllSendable : (p : Parsers) → List (Event p.Json) → Type 0
AllSendable p [] = Unit {0}
AllSendable p (e ∷ es) = IsSendable p e × AllSendable p es

splitlines_from-append :
    (line l rest : Bytes)
    → Lacks is_newline l
    → splitlines_from false line (l ++ line_feed ∷ rest)
      ≡ (line ++ l) ∷ splitlines_from false [] rest
unfolding splitlines_from
splitlines_from-append line [] rest h = rw append-nil
splitlines_from-append line (c ∷ l) rest h =
    ground (arith, splitlines_from-append (line ++ c ∷ []) l rest, append_assoc line (c ∷ []) l)

pub splitlines-text_of : (ls : List Bytes) → AllLack is_newline ls → splitlines (text_of ls) ≡ ls
unfolding splitlines text_of
splitlines-text_of [] h = unfold splitlines_from in refl
splitlines-text_of (l ∷ ls) h =
    splitlines_from-append [] l (text_of ls) h.0 ∙ ap (◌∷◌ l) (splitlines-text_of ls h.1)

AllLack-append :
    (test : ℕ → Bool) (ls ms : List Bytes)
    → AllLack test ls
    → AllLack test ms
    → AllLack test (ls ++ ms)
AllLack-append test [] ms h k = k
AllLack-append test (l ∷ ls) ms h k = (h.0, AllLack-append test ls ms h.1 k)

data_lines_lack :
    (vs : List Bytes) → AllLack is_newline vs → AllLack is_newline (map (field_line "data") vs)
unfolding field_line
data_lines_lack [] h = tt
data_lines_lack (v ∷ vs) h = (h.0, data_lines_lack vs h.1)

event_lines-AllLack :
    (p : Parsers) (e : Event p.Json) → IsSendable p e → AllLack is_newline (event_lines e)
unfolding event_lines field_line
event_lines-AllLack p e s = (
  s.name_is_line,
  AllLack-append is_newline (map (field_line "data") e.values) _
      (data_lines_lack e.values s.values_are_lines) (s.id_is_line, (refl, tt)),
)

pub all_lines-AllLack :
    (p : Parsers) (es : List (Event p.Json)) → AllSendable p es → AllLack is_newline (all_lines es)
unfolding all_lines
all_lines-AllLack p [] s = tt
all_lines-AllLack p (e ∷ es) s =
    AllLack-append is_newline (event_lines e) (all_lines es) (event_lines-AllLack p e s.0)
      (all_lines-AllLack p es s.1)
