-- ===== src/Sdk/Attempts.antt =====
-- What holds of the requests of a stream.
use langgraph_study.Prelude.{
  ℕ, zero, suc, ◌+◌, ◌≤◌, ◌<◌, ◌≡◌, refl, inl, inr, Option, none, some, List, ltb, length, arith,
  Bool-cases,
}
use langgraph_study.Sdk.Lines.{Bytes}
use langgraph_study.Sdk.Events.{Parsers, StreamPart}
use langgraph_study.Sdk.Http.{Request}
use langgraph_study.Sdk.Stream.{
  Client, Outcome, finished, raised, retry, max_reconnect_attempts, Trace, then_trace, follow,
  stream_from, stream,
}

module _ (p : Parsers) where
  -- The loop has ended, and has sent some requests, `most` at most.
  abbrev Ends : ℕ → Option (Trace p) → Type 0
  Ends most none = ⊥
  Ends most (some t) = (1 ≤ length t.requests) × (length t.requests ≤ most)

  then_trace-Ends :
      (request : Request) (parts : List (StreamPart p.Json)) (most : ℕ) (o : Option (Trace p))
      → Ends most o
      → Ends (suc most) (then_trace p request parts o)
  unfolding then_trace
  then_trace-Ends request parts most none e = e
  then_trace-Ends request parts most (some t) e = omega arith

  follow-Ends :
      (request : Request) (attempts : ℕ) (parts : List (StreamPart p.Json))
      (rest : Bytes → Option Bytes → Option (Trace p)) (left : ℕ) (o : Outcome)
      → attempts + left ≡ max_reconnect_attempts
      → ((path : Bytes) (last : Option Bytes) → 0 < left → Ends left (rest path last))
      → Ends (suc left) (follow p request attempts parts rest o)
  unfolding follow
  follow-Ends request attempts parts rest left finished s ends = omega arith
  follow-Ends request attempts parts rest left (raised e) s ends = omega arith
  follow-Ends request attempts parts rest left (retry path last) s ends =
      elim (Bool-cases (ltb max_reconnect_attempts (attempts + 1))) [
        | inl e ↦ rw e (omega arith)
        | inr e ↦
            rw e
              (then_trace-Ends request parts left (rest path last) (ends path last (ground arith)))
      ]

  stream_from-Ends :
      (fuel : ℕ) (client : Client) (first : Request) (attempts : ℕ) (path last : Option Bytes)
      (left : ℕ)
      → attempts + left ≡ max_reconnect_attempts
      → left < fuel
      → Ends (suc left) (stream_from p fuel client first attempts path last)
  unfolding stream_from
  stream_from-Ends zero client first attempts path last left s h = elim h [ ]
  stream_from-Ends (suc fuel) client first attempts path last zero s h =
      follow-Ends _ attempts _ _ zero _ s (λ path' last' none_left. elim none_left [ ])
  stream_from-Ends (suc fuel) client first attempts path last (suc left) s h =
      follow-Ends _ attempts _ _ (suc left) _ s (λ path' last' _.
        stream_from-Ends fuel client first (attempts + 1) (some path') last' left (omega arith)
          (omega arith))

  Ends→some :
      (most : ℕ) (o : Option (Trace p))
      → Ends most o
      → (t : Trace p) × (o ≡ some t) × (1 ≤ length t.requests) × (length t.requests ≤ most)
  Ends→some most none e = elim e [ ]
  Ends→some most (some t) e = (t, refl, e.0, e.1)

-- Whatever the server answers, as long as each of its responses ends, `stream` ends: with the fuel that it is given the loop returns or
-- raises, after one request at least, and after `max_reconnect_attempts` reconnections at most.
pub stream-ends :
    (p : Parsers) (client : Client) (first : Request)
    → (t : Trace p) × (stream p client first ≡ some t)
      × (1 ≤ length t.requests)
      × (length t.requests ≤ 1 + max_reconnect_attempts)
unfolding stream
stream-ends p client first = Ends→some p _ _ (
    stream_from-Ends p (suc max_reconnect_attempts) client first 0 none none max_reconnect_attempts
      refl (omega arith))
