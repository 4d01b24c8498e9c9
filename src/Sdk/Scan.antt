-- ===== src/Sdk/Scan.antt =====
-- A reader of lines that takes one byte at a time, and `splitlines` by it.
use langgraph_study.Prelude.{
  ℕ, Bool, true, false, List, [], ◌∷◌, ◌++◌, ◌≡◌, refl, nat_eq, nonempty, if◌then◌else◌, arith,
}
use langgraph_study.Sdk.Lines.{
  Bytes, BytesLineDecoder, line_feed, carriage_return, is_newline, flush, new, splitlines,
  splitlines_from, last_is,
}
use mathlib.Core.List.{append_assoc}

abbrev pub Read : Type 0
Read = List Bytes × BytesLineDecoder

abbrev pub at : Bytes → Bool → BytesLineDecoder
at buffer cr = record { buffer = buffer; trailing_cr = cr }

abbrev pub emit : Bytes → Read → Read
emit l r = (l ∷ r.0, r.1)

-- A `\r` is kept back until the next byte shows whether a `\n` follows it.
unfoldable pub scan : Bytes → Bool → Bytes → Read
scan buffer cr [] = ([], at buffer cr)
scan buffer true (c ∷ text) =
    if nat_eq c line_feed
    then emit buffer (scan [] false text)
    else if nat_eq c carriage_return
    then emit buffer (scan [] true text)
    else emit buffer (scan (c ∷ []) false text)
scan buffer false (c ∷ text) =
    if nat_eq c line_feed
    then emit buffer (scan [] false text)
    else if nat_eq c carriage_return
    then scan buffer true text
    else scan (buffer ++ c ∷ []) false text

abbrev pub before : List Bytes → Read → Read
before ls r = (ls ++ r.0, r.1)

pub scan-append :
    (buffer : Bytes) (cr : Bool) (s t : Bytes)
    → scan buffer cr (s ++ t)
      ≡ before
          (scan buffer cr s).0
          (scan (scan buffer cr s).1.buffer (scan buffer cr s).1.trailing_cr t)
unfolding scan
scan-append buffer cr [] t = refl
scan-append buffer true (c ∷ s) t =
    ground
      (arith, scan-append [] false s t, scan-append [] true s t, scan-append (c ∷ []) false s t)
scan-append buffer false (c ∷ s) t = ground (
  arith,
  scan-append [] false s t,
  scan-append buffer true s t,
  scan-append (buffer ++ c ∷ []) false s t,
)

abbrev pub lines_of : Read → List Bytes
lines_of r = r.0 ++ (flush r.1).0

abbrev split_at : Bytes → Bool → Bytes → List Bytes
split_at buffer true text = buffer ∷ splitlines_from true [] text
split_at buffer false text = splitlines_from false buffer text

split_at-scan :
    (buffer : Bytes) (cr : Bool) (text : Bytes)
    → split_at buffer cr text ≡ lines_of (scan buffer cr text)
unfolding scan splitlines_from flush
split_at-scan [] true [] = refl
split_at-scan (b ∷ buffer) true [] = refl
split_at-scan [] false [] = refl
split_at-scan (b ∷ buffer) false [] = refl
split_at-scan buffer true (c ∷ text) = ground (
  arith,
  split_at-scan [] false text,
  split_at-scan [] true text,
  split_at-scan (c ∷ []) false text,
)
split_at-scan buffer false (c ∷ text) = ground (
  arith,
  split_at-scan [] false text,
  split_at-scan buffer true text,
  split_at-scan (buffer ++ c ∷ []) false text,
)

pub splitlines-scan : (text : Bytes) → splitlines text ≡ lines_of (scan [] false text)
unfolding splitlines
splitlines-scan text = split_at-scan [] false text

-- What stood in the buffer before comes in front of the first line.
abbrev pub onto : Bytes → Read → Read
onto buffer ([], d) = ([], at (buffer ++ d.buffer) d.trailing_cr)
onto buffer (l ∷ ls, d) = ((buffer ++ l) ∷ ls, d)

pub scan-onto :
    (buffer line : Bytes) (cr : Bool) (text : Bytes)
    → scan (buffer ++ line) cr text ≡ onto buffer (scan line cr text)
unfolding scan
scan-onto buffer line cr [] = refl
scan-onto buffer line true (c ∷ text) = ground arith
scan-onto buffer line false (c ∷ text) = ground (
  arith,
  scan-onto buffer line true text,
  scan-onto buffer (line ++ c ∷ []) false text,
  append_assoc buffer line (c ∷ []),
)

-- How a text ends shows in the state behind it.
pub record Ended (r : Read) : Type 0 where
  pub fresh : r.1 ≡ new
  pub given : nonempty r.0 ≡ true

pub scan-Ended :
    (buffer : Bytes) (cr : Bool) (text : Bytes)
    → last_is (nat_eq line_feed) text ≡ true
    → Ended (scan buffer cr text)
unfolding scan last_is new
scan-Ended buffer cr [] h = ground arith
scan-Ended buffer true (c ∷ []) h = ground arith
scan-Ended buffer false (c ∷ []) h = ground arith
scan-Ended buffer true (c ∷ d ∷ text) h = ground (
  arith,
  scan-Ended [] false (d ∷ text) h,
  scan-Ended [] true (d ∷ text) h,
  scan-Ended (c ∷ []) false (d ∷ text) h,
)
scan-Ended buffer false (c ∷ d ∷ text) h = ground (
  arith,
  scan-Ended [] false (d ∷ text) h,
  scan-Ended buffer true (d ∷ text) h,
  scan-Ended (buffer ++ c ∷ []) false (d ∷ text) h,
)

pub scan-carriage_return :
    (buffer : Bytes) (cr : Bool) (text : Bytes)
    → last_is (nat_eq carriage_return) text ≡ true
    → (scan buffer cr text).1.trailing_cr ≡ true
unfolding scan last_is
scan-carriage_return buffer cr [] h = ground arith
scan-carriage_return buffer true (c ∷ []) h = ground arith
scan-carriage_return buffer false (c ∷ []) h = ground arith
scan-carriage_return buffer true (c ∷ d ∷ text) h = ground (
  arith,
  scan-carriage_return [] false (d ∷ text) h,
  scan-carriage_return [] true (d ∷ text) h,
  scan-carriage_return (c ∷ []) false (d ∷ text) h,
)
scan-carriage_return buffer false (c ∷ d ∷ text) h = ground (
  arith,
  scan-carriage_return [] false (d ∷ text) h,
  scan-carriage_return buffer true (d ∷ text) h,
  scan-carriage_return (buffer ++ c ∷ []) false (d ∷ text) h,
)

pub record Unfinished (d : BytesLineDecoder) : Type 0 where
  pub no_cr : d.trailing_cr ≡ false
  pub begun : nonempty d.buffer ≡ true

nonempty-append : (buffer : Bytes) (c : ℕ) → nonempty (buffer ++ c ∷ []) ≡ true
nonempty-append [] c = refl
nonempty-append (b ∷ buffer) c = refl

pub scan-Unfinished :
    (buffer : Bytes) (cr : Bool) (text : Bytes)
    → last_is is_newline text ≡ false
    → nonempty text ≡ true
    → Unfinished (scan buffer cr text).1
unfolding scan last_is
scan-Unfinished buffer cr [] h n = ground arith
scan-Unfinished buffer true (c ∷ []) h n = ground arith
scan-Unfinished buffer false (c ∷ []) h n = ground (arith, nonempty-append buffer c)
scan-Unfinished buffer true (c ∷ d ∷ text) h n = ground (
  arith,
  scan-Unfinished [] false (d ∷ text) h refl,
  scan-Unfinished [] true (d ∷ text) h refl,
  scan-Unfinished (c ∷ []) false (d ∷ text) h refl,
)
scan-Unfinished buffer false (c ∷ d ∷ text) h n = ground (
  arith,
  scan-Unfinished [] false (d ∷ text) h refl,
  scan-Unfinished buffer true (d ∷ text) h refl,
  scan-Unfinished (buffer ++ c ∷ []) false (d ∷ text) h refl,
)
