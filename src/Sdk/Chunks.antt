-- ===== src/Sdk/Chunks.antt =====
-- The chunks of a response are read as one text.
use langgraph_study.Prelude.{
  Bool, true, false, List, [], ◌∷◌, ◌≡◌, refl, sym, ◌∙◌, ap, nat_eq, nonempty, Bool-cases, inl, inr,
}
use langgraph_study.Sdk.Lines.{
  Bytes, BytesLineDecoder, line_feed, carriage_return, is_newline, new, splitlines, last_is,
  drop_last, take_lines, decode_text, with_trailing, decode, decode_chunks, iter_lines_raw,
  decode_ended,
}
use langgraph_study.Sdk.Scan.{
  at, before, scan, scan-append, lines_of, splitlines-scan, scan-Ended, scan-carriage_return,
  scan-Unfinished,
}
use mathlib.Core.List.{flatten}
use langgraph_study.Sdk.Taking.{
  drop_last-append, close, take_lines-Ended, close-Ended, close-carriage_return,
  take_lines-Unfinished, last_is_newline, onto-scan, Unfinished-at, close-Unfinished,
  decode_text-nonempty, decode_text-nil, scan-nil, close-at,
}

module _ (buffer text : Bytes) where
  -- The lines of a text, in the three ways in which it may end.
  split_at_line_feed :
      last_is (nat_eq line_feed) text ≡ true
      → take_lines buffer false (last_is is_newline text) (splitlines text) ≡ scan buffer false text
  split_at_line_feed e =
      rw (splitlines-scan text, last_is_newline text, e)
        (take_lines-Ended buffer _ (scan-Ended [] false text e) ∙ onto-scan buffer text)

  split_inside :
      last_is is_newline text ≡ false
      → nonempty text ≡ true
      → take_lines buffer false (last_is is_newline text) (splitlines text) ≡ scan buffer false text
  split_inside e n =
      rw (splitlines-scan text, e)
        (take_lines-Unfinished buffer false _ (scan-Unfinished [] false text e n)
          ∙ ap (λ r. (r.0, at r.1.buffer false)) (onto-scan buffer text)
          ∙ Unfinished-at _ (scan-Unfinished buffer false text e n))

  ends_at_line_feed :
      last_is (nat_eq line_feed) text ≡ true
      → take_lines buffer true (last_is is_newline text) (splitlines text)
        ≡ close (scan buffer false text)
  ends_at_line_feed e =
      rw (splitlines-scan text, last_is_newline text, e)
        (close-Ended buffer _ (scan-Ended [] false text e) ∙ ap close (onto-scan buffer text))

  ends_at_cr :
      last_is (nat_eq line_feed) text ≡ false
      → last_is (nat_eq carriage_return) text ≡ true
      → take_lines buffer true (last_is is_newline text) (splitlines text)
        ≡ close (scan buffer false text)
  ends_at_cr f e =
      rw (splitlines-scan text, last_is_newline text, f, e)
        (close-carriage_return buffer _ (scan-carriage_return [] false text e)
          ∙ ap close (onto-scan buffer text))

  ends_inside :
      last_is is_newline text ≡ false
      → nonempty text ≡ true
      → take_lines buffer true (last_is is_newline text) (splitlines text)
        ≡ close (scan buffer false text)
  ends_inside e n =
      rw (splitlines-scan text, e)
        (take_lines-Unfinished buffer true _ (scan-Unfinished [] false text e n)
          ∙ ap (λ r. (r.0, at r.1.buffer true)) (onto-scan buffer text)
          ∙ close-Unfinished _ (scan-Unfinished buffer false text e n))

  pub decode_text-scan :
      last_is (nat_eq carriage_return) text ≡ false
      → decode_text buffer false text ≡ scan buffer false text
  decode_text-scan h = elim (Bool-cases (nonempty text)) [
    | inr n ↦ decode_text-nil buffer false text n ∙ sym (scan-nil buffer false text n)
    | inl n ↦
        decode_text-nonempty buffer false text n
        ∙ elim (Bool-cases (last_is (nat_eq line_feed) text)) [
          | inl e ↦ split_at_line_feed e
          | inr e ↦ split_inside (rw (last_is_newline text, e, h)) n
        ]
  ]

  pub decode_text-close : decode_text buffer true text ≡ close (scan buffer false text)
  decode_text-close = elim (Bool-cases (nonempty text)) [
    | inr n ↦
        decode_text-nil buffer true text n
        ∙ sym (ap close (scan-nil buffer false text n) ∙ close-at buffer)
    | inl n ↦
        decode_text-nonempty buffer true text n
        ∙ elim (Bool-cases (last_is (nat_eq line_feed) text)) [
          | inl e ↦ ends_at_line_feed e
          | inr f ↦ elim (Bool-cases (last_is (nat_eq carriage_return) text)) [
            | inl e ↦ ends_at_cr f e
            | inr e ↦ ends_inside (rw (last_is_newline text, f, e)) n
          ]
        ]
  ]

scan-with_trailing :
    (buffer : Bytes) (cr : Bool) (text : Bytes)
    → scan buffer false (with_trailing cr text) ≡ scan buffer cr text
unfolding scan with_trailing
scan-with_trailing buffer true text = refl
scan-with_trailing buffer false text = refl

decode_ended-scan : (buffer text : Bytes) → decode_ended buffer text ≡ scan buffer false text
unfolding decode_ended
decode_ended-scan buffer text = elim (Bool-cases (last_is (nat_eq carriage_return) text)) [
  | inr e ↦ rw e (decode_text-scan buffer text e)
  | inl e ↦ rw e (
      decode_text-close buffer (drop_last text)
      ∙ sym (scan-append buffer false (drop_last text) (carriage_return ∷ []))
      ∙ ap (scan buffer false) (drop_last-append text e))
]

-- `decode` takes the bytes of a chunk one by one.
decode-scan :
    (d : BytesLineDecoder) (chunk : Bytes) → decode d chunk ≡ scan d.buffer d.trailing_cr chunk
unfolding decode
decode-scan d chunk =
    decode_ended-scan d.buffer (with_trailing d.trailing_cr chunk)
    ∙ scan-with_trailing d.buffer d.trailing_cr chunk

decode_chunks-scan :
    (d : BytesLineDecoder) (chunks : List Bytes)
    → decode_chunks d chunks ≡ scan d.buffer d.trailing_cr (flatten chunks)
unfolding decode_chunks flatten
decode_chunks-scan d [] = unfold scan in refl
decode_chunks-scan d (chunk ∷ chunks) =
    let read = scan d.buffer d.trailing_cr chunk in
    rw (decode-scan d chunk) (
      ap (before read.0) (decode_chunks-scan read.1 chunks)
      ∙ sym (scan-append d.buffer d.trailing_cr chunk (flatten chunks)))

-- However a response is cut into chunks, `iter_lines_raw` gives the lines that `splitlines` gives of
-- the whole of it: a line break that two chunks share, `\r` and `\n`, is one break, and an empty chunk
-- changes nothing.
pub iter_lines_raw-eq-splitlines :
    (chunks : List Bytes) → iter_lines_raw chunks ≡ splitlines (flatten chunks)
unfolding iter_lines_raw
iter_lines_raw-eq-splitlines chunks =
    ap lines_of (decode_chunks-scan new chunks ∙ scan_new) ∙ sym (splitlines-scan (flatten chunks))
  where
    scan_new : scan new.buffer new.trailing_cr (flatten chunks) ≡ scan [] false (flatten chunks)
    scan_new = unfold new in refl
