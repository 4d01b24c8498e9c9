-- ===== src/Sdk/Bytes.antt =====
-- What libs/sdk-py/langgraph_sdk/sse.py and _sync/http.py use of Python's `bytes`.
use Prim.Native.Char.{code}
use Prim.Native.String.{String}
use langgraph_study.Prelude.{
  ℕ, zero, suc, Bool, true, false, ◌&&◌, ◌||◌, Option, none, some, [], ◌∷◌, nat_eq, ltb, leb,
  if◌then◌else◌,
}
use langgraph_study.Sdk.Lines.{Bytes}

-- `b"..."`
abbrev pub bytes_of : String → Bytes
bytes_of String.[] = []
bytes_of (String.◌∷◌ c s) = code c ∷ bytes_of s

unfoldable pub bytes_eq : Bytes → Bytes → Bool
bytes_eq [] [] = true
bytes_eq (c ∷ s) (d ∷ t) = nat_eq c d && bytes_eq s t
bytes_eq _ _ = false

-- `s.startswith(p)`
unfoldable pub starts_with : Bytes → Bytes → Bool
starts_with s [] = true
starts_with [] (d ∷ p) = false
starts_with (c ∷ s) (d ∷ p) = nat_eq c d && starts_with s p

-- `p in s`
unfoldable pub contains : Bytes → Bytes → Bool
unfolding starts_with
contains p [] = starts_with [] p
contains p (c ∷ s) = starts_with (c ∷ s) p || contains p s

-- `s.partition(sep)`: what is before the first separator, and what is behind it
unfoldable pub partition : ℕ → Bytes → Bytes × Bytes
partition sep [] = ([], [])
partition sep (c ∷ s) =
    let rest = partition sep s in if nat_eq c sep then ([], s) else (c ∷ rest.0, rest.1)

-- `line.rstrip(b"\n")`
unfoldable pub rstrip : ℕ → Bytes → Bytes
rstrip c [] = []
rstrip c (d ∷ s) = elim (rstrip c s) [ [] ↦ if nat_eq c d then [] else d ∷ [] | e ∷ t ↦ d ∷ e ∷ t ]

-- What may follow the first byte of a character in UTF-8: how many bytes, and the least and the
-- greatest value of the first of them.
unfoldable pub following : ℕ → Option (ℕ × ℕ × ℕ)
following c =
    if ltb c 0x80
    then some (0, 0x80, 0xBF)
    else if ltb c 0xC2
    then none
    else if ltb c 0xE0
    then some (1, 0x80, 0xBF)
    else if ltb c 0xF0
    then some (2, if nat_eq c 0xE0 then 0xA0 else 0x80, if nat_eq c 0xED then 0x9F else 0xBF)
    else if ltb c 0xF5
    then some (3, if nat_eq c 0xF0 then 0x90 else 0x80, if nat_eq c 0xF4 then 0x8F else 0xBF)
    else none

unfoldable pub utf8_from : ℕ → ℕ → ℕ → Bytes → Bool
unfolding following
utf8_from need low high [] = nat_eq need 0
utf8_from zero low high (c ∷ s) = elim (following c) [
  | none ↦ false
  | some t ↦ utf8_from t.0 t.1 t.2 s
]
utf8_from (suc need) low high (c ∷ s) = leb low c && leb c high && utf8_from need 0x80 0xBF s

-- Whether `s.decode()` returns.
unfoldable pub is_utf8 : Bytes → Bool
unfolding utf8_from
is_utf8 s = utf8_from 0 0x80 0xBF s
