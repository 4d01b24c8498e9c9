-- ===== src/Sdk/Origins.antt =====
-- Where the requests of a stream go.
use langgraph_study.Prelude.{
  ℕ, zero, suc, ◌+◌, ◌≡◌, refl, inl, inr, Option, none, some, List, [], ◌∷◌, ltb, Bool-cases, sym,
  subst,
}
use langgraph_study.Sdk.Lines.{Bytes}
use langgraph_study.Sdk.Bytes.{bytes_of}
use langgraph_study.Sdk.Events.{Parsers, StreamPart}
use langgraph_study.Sdk.Http.{Request}
use langgraph_study.Sdk.Stream.{
  Client, Outcome, finished, raised, retry, max_reconnect_attempts, next_request, Trace, then_trace,
  follow, stream_from, stream,
}
use langgraph_study.Sdk.Trusted.{IsTrusted, TrustedOutcome, attempt-Trusted}

-- What a request that reconnects is: a GET of a trusted path, with nothing of the first request's
-- content.
pub record IsReconnect (client : Client) (r : Request) : Type 0 where
  pub trusted : IsTrusted client r.path
  pub is_get : r.method ≡ bytes_of "GET"
  pub no_content : r.content ≡ none
  pub no_params : r.params ≡ none

abbrev pub AllReconnect : Client → List Request → Type 0
AllReconnect client [] = Unit {0}
AllReconnect client (r ∷ rs) = IsReconnect client r × AllReconnect client rs

abbrev pub Reconnects : Client → Request → List Request → Type 0
Reconnects client first [] = ⊥
Reconnects client first (r ∷ rs) = (r ≡ first) × AllReconnect client rs

module _ (p : Parsers) (client : Client) where
  abbrev Later : Option (Trace p) → Type 0
  Later none = Unit {0}
  Later (some t) = AllReconnect client t.requests

  abbrev Sent : Request → Option (Trace p) → Type 0
  Sent request none = Unit {0}
  Sent request (some t) = Reconnects client request t.requests

  follow-Sent :
      (request : Request) (attempts : ℕ) (parts : List (StreamPart p.Json))
      (rest : Bytes → Option Bytes → Option (Trace p)) (o : Outcome)
      → TrustedOutcome client o
      → ((path : Bytes) (last : Option Bytes) → IsTrusted client path → Later (rest path last))
      → Sent request (follow p request attempts parts rest o)
  unfolding follow then_trace
  follow-Sent request attempts parts rest finished t later = (refl, tt)
  follow-Sent request attempts parts rest (raised e) t later = (refl, tt)
  follow-Sent request attempts parts rest (retry path last) t later =
      elim (Bool-cases (ltb max_reconnect_attempts (attempts + 1))) [
        | inl e ↦ rw e (refl, tt)
        | inr e ↦ rw e (go (rest path last) (later path last t))
      ]
    where
      go : (o : Option (Trace p)) → Later o → Sent request (then_trace p request parts o)
      go none h = tt
      go (some t) h = (refl, h)

  Reconnects-All :
      (request : Request) (rs : List Request)
      → IsReconnect client request
      → Reconnects client request rs
      → AllReconnect client rs
  Reconnects-All request [] r s = tt
  Reconnects-All request (q ∷ rs) r s = (subst (IsReconnect client) (sym s.0) r, s.1)

  Sent-Later :
      (request : Request) (o : Option (Trace p))
      → IsReconnect client request
      → Sent request o
      → Later o
  Sent-Later request none r s = tt
  Sent-Later request (some t) r s = Reconnects-All request t.requests r s

  next_request-IsReconnect :
      (first : Request) (path : Bytes) (last : Option Bytes)
      → IsTrusted client path
      → IsReconnect client (next_request client.lower first (some path) last)
  unfolding next_request
  next_request-IsReconnect first path last t = record {
    trusted = t;
    is_get = refl;
    no_content = refl;
    no_params = refl;
  }

  stream_from-Later :
      (fuel : ℕ) (first : Request) (attempts : ℕ) (path : Bytes) (last : Option Bytes)
      → IsTrusted client path
      → Later (stream_from p fuel client first attempts (some path) last)
  unfolding stream_from
  stream_from-Later zero first attempts path last t = tt
  stream_from-Later (suc fuel) first attempts path last t =
      Sent-Later _ _ (next_request-IsReconnect first path last t) (
        follow-Sent _ attempts _ _ _ (attempt-Trusted p client _ (some path) last t)
          (λ path' last' t'. stream_from-Later fuel first (attempts + 1) path' last' t'))

-- The first request of `stream` is the one that it is called for. Every later one is a GET without its
-- content and parameters, to a relative URL or to the origin of the base URL, wherever the server's
-- `location` headers point: what the header fields hold goes nowhere else.
pub stream-Reconnects :
    (p : Parsers) (client : Client) (first : Request) (t : Trace p)
    → stream p client first ≡ some t
    → Reconnects client first t.requests
unfolding stream stream_from next_request
stream-Reconnects p client first t e = subst (Sent p client first) e (
    follow-Sent p client _ 0 _ _ _ (attempt-Trusted p client _ none none tt) (λ path last trusted.
      stream_from-Later p client max_reconnect_attempts first (0 + 1) path last trusted))
