-- ===== src/Sdk/Taking.antt =====
-- What the decoder makes of the lines of one chunk.
use langgraph_study.Prelude.{
  Bool, true, false, ◌||◌, List, [], ◌∷◌, ◌++◌, ◌≡◌, refl, sym, ◌∙◌, ap, nat_eq, nonempty,
  length-append, arith,
}
use langgraph_study.Sdk.Lines.{
  Bytes, line_feed, carriage_return, is_newline, flush, new, splitlines, last_is, drop_last,
  last_line, join_first, take_lines, decode_text,
}
use langgraph_study.Sdk.Scan.{Read, at, before, scan, lines_of, onto, scan-onto, Ended, Unfinished}
use mathlib.Core.List.{append-nil}

drop_last-concat {ℓ} : {A : Type ℓ} (xs : List A) (x : A) → drop_last (xs ++ x ∷ []) ≡ xs
unfolding drop_last
drop_last-concat [] x = refl
drop_last-concat (y ∷ []) x = refl
drop_last-concat (y ∷ z ∷ xs) x = ap (◌∷◌ y) (drop_last-concat (z ∷ xs) x)

last_line-concat : (ls : List Bytes) (l : Bytes) → last_line (ls ++ l ∷ []) ≡ l
unfolding last_line
last_line-concat [] l = refl
last_line-concat (m ∷ []) l = refl
last_line-concat (m ∷ n ∷ ls) l = last_line-concat (n ∷ ls) l

-- A text that ends with a `\r` is what is before it and the `\r`.
pub drop_last-append :
    (text : Bytes)
    → last_is (nat_eq carriage_return) text ≡ true
    → drop_last text ++ carriage_return ∷ [] ≡ text
unfolding last_is drop_last
drop_last-append [] h = ground arith
drop_last-append (c ∷ []) h = ground arith
drop_last-append (c ∷ d ∷ text) h = ap (◌∷◌ c) (drop_last-append (d ∷ text) h)

-- The last line is not ended: it goes on in the buffer.
take_lines-open :
    (buffer : Bytes) (cr : Bool) (ls : List Bytes) (b : Bytes)
    → nonempty b ≡ true
    → take_lines buffer cr false (ls ++ b ∷ [])
      ≡ ((onto buffer (ls, at b false)).0, at (onto buffer (ls, at b false)).1.buffer cr)
unfolding take_lines
take_lines-open buffer cr [] b h = refl
take_lines-open buffer cr (l ∷ ls) b h = ground (
  arith,
  length-append ls (b ∷ []),
  last_line-concat ((buffer ++ l) ∷ ls) b,
  drop_last-concat ((buffer ++ l) ∷ ls) b,
)

-- The `\r` that was set aside comes behind what was read.
abbrev pub close : Read → Read
close r = before r.0 (scan r.1.buffer r.1.trailing_cr (carriage_return ∷ []))

pub take_lines-Ended :
    (buffer : Bytes) (r : Read)
    → Ended r
    → take_lines buffer false true (lines_of r) ≡ onto buffer r
unfolding take_lines join_first flush new
take_lines-Ended buffer ([], d) e = ground arith
take_lines-Ended buffer (l ∷ ls, d) e = rw (e.fresh, append-nil) (ground arith)

pub close-Ended :
    (buffer : Bytes) (r : Read)
    → Ended r
    → take_lines buffer true true (lines_of r) ≡ close (onto buffer r)
unfolding take_lines join_first flush new scan
close-Ended buffer ([], d) e = ground arith
close-Ended buffer (l ∷ ls, d) e = rw (e.fresh, append-nil) (ground arith)

pub close-carriage_return :
    (buffer : Bytes) (r : Read)
    → r.1.trailing_cr ≡ true
    → take_lines buffer true true (lines_of r) ≡ close (onto buffer r)
unfolding take_lines join_first flush new scan
close-carriage_return buffer ([], d) e = ground arith
close-carriage_return buffer (l ∷ ls, d) e = ground arith

lines_of-Unfinished : (r : Read) → Unfinished r.1 → lines_of r ≡ r.0 ++ r.1.buffer ∷ []
unfolding flush
lines_of-Unfinished r u = ground arith

pub take_lines-Unfinished :
    (buffer : Bytes) (cr : Bool) (r : Read)
    → Unfinished r.1
    → take_lines buffer cr false (lines_of r) ≡ ((onto buffer r).0, at (onto buffer r).1.buffer cr)
take_lines-Unfinished buffer cr ([], d) u =
    rw (lines_of-Unfinished ([], d) u) (take_lines-open buffer cr [] d.buffer u.begun)
take_lines-Unfinished buffer cr (l ∷ ls, d) u =
    rw (lines_of-Unfinished (l ∷ ls, d) u) (take_lines-open buffer cr (l ∷ ls) d.buffer u.begun)

pub last_is_newline :
    (text : Bytes)
    → last_is is_newline text
      ≡ (last_is (nat_eq line_feed) text || last_is (nat_eq carriage_return) text)
unfolding last_is
last_is_newline [] = refl
last_is_newline (c ∷ []) = ground arith
last_is_newline (c ∷ d ∷ text) = last_is_newline (d ∷ text)

pub onto-scan : (buffer text : Bytes) → onto buffer (scan [] false text) ≡ scan buffer false text
onto-scan buffer text =
    sym (scan-onto buffer [] false text) ∙ ap (λ b. scan b false text) (append-nil buffer)

pub Unfinished-at : (r : Read) → Unfinished r.1 → (r.0, at r.1.buffer false) ≡ r
Unfinished-at r u = ground arith

pub close-Unfinished : (r : Read) → Unfinished r.1 → (r.0, at r.1.buffer true) ≡ close r
unfolding scan
close-Unfinished r u = rw u.no_cr (rw append-nil)

pub decode_text-nonempty :
    (buffer : Bytes) (cr : Bool) (text : Bytes)
    → nonempty text ≡ true
    → decode_text buffer cr text ≡ take_lines buffer cr (last_is is_newline text) (splitlines text)
unfolding decode_text
decode_text-nonempty buffer cr text n = rw n

pub decode_text-nil :
    (buffer : Bytes) (cr : Bool) (text : Bytes)
    → nonempty text ≡ false
    → decode_text buffer cr text ≡ ([], at buffer cr)
unfolding decode_text
decode_text-nil buffer cr text n = rw n

pub scan-nil :
    (buffer : Bytes) (cr : Bool) (text : Bytes)
    → nonempty text ≡ false
    → scan buffer cr text ≡ ([], at buffer cr)
unfolding scan
scan-nil buffer cr [] n = refl
scan-nil buffer cr (c ∷ text) n = cc

last_is-nil : (text : Bytes) → nonempty text ≡ false → last_is is_newline text ≡ false
unfolding last_is
last_is-nil [] n = refl
last_is-nil (c ∷ text) n = cc

pub close-at : (buffer : Bytes) → close ([], at buffer false) ≡ ([], at buffer true)
unfolding scan
close-at buffer = refl
