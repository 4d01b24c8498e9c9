-- ===== src/Sdk/Lines.antt =====
-- `BytesLineDecoder` and `iter_lines_raw` of libs/sdk-py/langgraph_sdk/sse.py. Bytes are the list of
-- their numbers, and a bytearray is its content: the decoder never keeps one that it has given away.
use langgraph_study.Prelude.{
  ℕ, Bool, true, false, not, ◌&&◌, ◌||◌, List, [], ◌∷◌, ◌++◌, nat_eq, nonempty, length,
  if◌then◌else◌,
}

abbrev pub Bytes : Type 0
Bytes = List ℕ

-- `\n`
abbrev pub line_feed : ℕ
line_feed = 10

-- `\r`
abbrev pub carriage_return : ℕ
carriage_return = 13

abbrev pub is_newline : ℕ → Bool
is_newline c = nat_eq c line_feed || nat_eq c carriage_return

-- Python's `bytes.splitlines`, with the line so far. After a `\r` a `\n` is skipped, since the two are
-- one line break. There is no line behind the last break.
unfoldable pub splitlines_from : Bool → Bytes → Bytes → List Bytes
splitlines_from skip line [] = if nonempty line then line ∷ [] else []
splitlines_from skip line (c ∷ text) = elim (nat_eq c line_feed) [
  | true ↦ elim skip [
    | true ↦ splitlines_from false line text
    | false ↦ line ∷ splitlines_from false [] text
  ]
  | false ↦ elim (nat_eq c carriage_return) [
    | true ↦ line ∷ splitlines_from true [] text
    | false ↦ splitlines_from false (line ++ c ∷ []) text
  ]
]

-- `text.splitlines()`
unfoldable pub splitlines : Bytes → List Bytes
splitlines text = splitlines_from false [] text

-- `text[-1]` against a test; the decoder has left for an empty text.
unfoldable pub last_is : (ℕ → Bool) → Bytes → Bool
last_is test [] = false
last_is test (c ∷ []) = test c
last_is test (c ∷ d ∷ text) = last_is test (d ∷ text)

-- `text[:-1]`
unfoldable pub drop_last {ℓ} : {A : Type ℓ} → List A → List A
drop_last [] = []
drop_last (x ∷ []) = []
drop_last (x ∷ y ∷ xs) = x ∷ drop_last (y ∷ xs)

-- `lines.pop()`, what it gives back
unfoldable pub last_line : List Bytes → Bytes
last_line [] = []
last_line (l ∷ []) = l
last_line (l ∷ m ∷ ls) = last_line (m ∷ ls)

pub record BytesLineDecoder : Type 0 where
  pub buffer : Bytes
  pub trailing_cr : Bool

unfoldable pub new : BytesLineDecoder
new = record { buffer = []; trailing_cr = false }

-- The first of the lines goes on in the buffer.
unfoldable pub join_first : Bytes → List Bytes → List Bytes
join_first buffer [] = []
join_first buffer (l ∷ ls) = (buffer ++ l) ∷ ls

-- The rest of `decode`, with the lines of a text that is not empty.
unfoldable pub take_lines : Bytes → Bool → Bool → List Bytes → List Bytes × BytesLineDecoder
unfolding join_first last_line drop_last
take_lines buffer cr trailing_newline lines =
    if nat_eq (length lines) 1 && not trailing_newline
    then ([], record { buffer = buffer ++ last_line lines; trailing_cr = cr })
    else (let joined = join_first buffer lines in
        if trailing_newline
        then (joined, record { buffer = []; trailing_cr = cr })
        else (drop_last joined, record { buffer = last_line joined; trailing_cr = cr }))

-- `decode` once a `\r` at the end of the text is set aside for the next call
unfoldable pub decode_text : Bytes → Bool → Bytes → List Bytes × BytesLineDecoder
decode_text buffer cr text =
    if nonempty text
    then take_lines buffer cr (last_is is_newline text) (splitlines text)
    else ([], record { buffer = buffer; trailing_cr = cr })

-- A `\r` at the end of the last text comes first in this one.
unfoldable pub with_trailing : Bool → Bytes → Bytes
with_trailing trailing_cr text = if trailing_cr then carriage_return ∷ text else text

-- A `\r` at the end is kept for the next call, since a `\n` may follow it.
unfoldable pub decode_ended : Bytes → Bytes → List Bytes × BytesLineDecoder
decode_ended buffer text =
    let ends = last_is (nat_eq carriage_return) text in
    decode_text buffer ends (if ends then drop_last text else text)

unfoldable pub decode : BytesLineDecoder → Bytes → List Bytes × BytesLineDecoder
decode d chunk = decode_ended d.buffer (with_trailing d.trailing_cr chunk)

unfoldable pub flush : BytesLineDecoder → List Bytes × BytesLineDecoder
unfolding new
flush d = if not (nonempty d.buffer) && not d.trailing_cr then ([], d) else (d.buffer ∷ [], new)

-- The loop of `iter_lines_raw`, with the decoder that its `flush` is called on.
unfoldable pub decode_chunks : BytesLineDecoder → List Bytes → List Bytes × BytesLineDecoder
decode_chunks d [] = ([], d)
decode_chunks d (chunk ∷ chunks) =
    let (lines, d') = decode d chunk in
    let (more, d'') = decode_chunks d' chunks in (lines ++ more, d'')

-- The lines of a response that comes in these chunks.
unfoldable pub iter_lines_raw : List Bytes → List Bytes
iter_lines_raw chunks = let (lines, d) = decode_chunks new chunks in lines ++ (flush d).0
