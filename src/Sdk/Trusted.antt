-- ===== src/Sdk/Trusted.antt =====
-- Which paths a request of a stream goes to.
use langgraph_study.Prelude.{
  ℕ, true, ◌≡◌, refl, ◌⊎◌, inl, inr, Option, none, some, [], ◌∷◌, nonempty, arith, Bool-cases,
  subst,
}
use langgraph_study.Method.{Result, ok, err, ◌>>=◌, Result-cases, Error, http_error, ok-injective}
use langgraph_study.Sdk.Lines
use langgraph_study.Sdk.Lines.{Bytes, decode_chunks, iter_lines_raw}
use langgraph_study.Sdk.Bytes.{bytes_eq}
use langgraph_study.Sdk.Events.{Parsers, new}
use langgraph_study.Sdk.Feed.{Feed, read_lines, read_all}
use langgraph_study.Sdk.Http.{
  Response, origin, origin_eq, validate_reconnect_location, check_response,
}
use langgraph_study.Sdk.Stream.{
  Client, Outcome, finished, raised, retry, next_path, broken_off, read_whole, read_body,
  attempt_at, attempt,
}

pub bytes_eq→eq : (s t : Bytes) → bytes_eq s t ≡ true → s ≡ t
unfolding bytes_eq
bytes_eq→eq [] [] h = refl
bytes_eq→eq [] (d ∷ t) h = cc
bytes_eq→eq (c ∷ s) [] h = cc
bytes_eq→eq (c ∷ s) (d ∷ t) h = ground (arith, bytes_eq→eq s t)

origin_eq→eq : (a b : Bytes × Bytes × ℕ) → origin_eq a b ≡ true → a ≡ b
unfolding origin_eq
origin_eq→eq (s, h, n) (t, i, m) e = ground (arith, bytes_eq→eq s t, bytes_eq→eq h i)

-- The URL is relative, or has the scheme, the host and the port of the base URL.
abbrev pub IsTrusted : Client → Bytes → Type 0
IsTrusted client path =
    ((client.urlparse path).scheme ≡ []) × ((client.urlparse path).netloc ≡ [])
    ⊎ (origin (client.urlparse path) ≡ origin client.base_url)

validate-IsTrusted :
    (client : Client) (location path : Bytes)
    → validate_reconnect_location client.urlparse client.base_url location ≡ ok path
    → IsTrusted client path
unfolding validate_reconnect_location
validate-IsTrusted client location path e =
    ground (arith, origin_eq→eq (origin client.base_url) (origin (client.urlparse location)))

-- The path of the reconnections, if there is one yet.
abbrev TrustedPath : Client → Option Bytes → Type 0
TrustedPath client none = Unit {0}
TrustedPath client (some path) = IsTrusted client path

next_path-TrustedPath :
    (client : Client) (path location found : Option Bytes)
    → TrustedPath client path
    → next_path client.urlparse client.base_url path location ≡ ok found
    → TrustedPath client found
unfolding next_path
next_path-TrustedPath client path none found t e = subst (TrustedPath client) (ok-injective e) t
next_path-TrustedPath client path (some location) found t e =
    elim (Bool-cases (nonempty location)) [
      | inr n ↦ subst (TrustedPath client) (ok-injective (rw n at e)) t
      | inl n ↦
          elim (Result-cases
            (validate_reconnect_location client.urlparse client.base_url location)) [
              | inl (safe, v) ↦
                  subst (TrustedPath client) (ok-injective (rw (n, v) at e))
                    (validate-IsTrusted client location safe v)
              | inr (error, v) ↦ cc (rw (n, v) at e)
            ]
    ]

-- What an outcome that goes on has to do with the path.
abbrev pub TrustedOutcome : Client → Outcome → Type 0
TrustedOutcome client finished = Unit {0}
TrustedOutcome client (raised e) = Unit {0}
TrustedOutcome client (retry path last) = IsTrusted client path

module _ (p : Parsers) (client : Client) where
  broken_off-Trusted :
      (path : Option Bytes) (feed : Feed p)
      → TrustedPath client path
      → TrustedOutcome client (broken_off p path feed)
  unfolding broken_off
  broken_off-Trusted path feed t = go feed.raised path t
    where
      go :
          (e : Option Error) (path : Option Bytes)
          → TrustedPath client path
          → TrustedOutcome client (elim e [
            | some e ↦ raised e
            | none ↦ elim path [ none ↦ raised http_error | some q ↦ retry q feed.last_event_id ]
          ])
      go none none t = tt
      go none (some q) t = t
      go (some e) path t = tt

  read_whole-Trusted : (feed : Feed p) → TrustedOutcome client (read_whole p feed)
  unfolding read_whole
  read_whole-Trusted feed = go feed.raised
    where
      go :
          (e : Option Error)
          → TrustedOutcome client (elim e [ none ↦ finished | some e ↦ raised e ])
      go none = tt
      go (some e) = tt

  read_body-Trusted :
      (res : Response) (path last : Option Bytes)
      → TrustedPath client path
      → TrustedOutcome client (read_body p res path last).outcome
  unfolding read_body
  read_body-Trusted res path last t = elim (Bool-cases res.breaks_off) [
    | inl b ↦ rw b (
        broken_off-Trusted path (read_lines p (decode_chunks Lines.new res.chunks).0 (new p) last)
          t)
    | inr b ↦ rw b (read_whole-Trusted (read_all p (iter_lines_raw res.chunks) last))
  ]

  checked-TrustedPath :
      (res : Response) (path found : Option Bytes)
      → TrustedPath client path
      → (check_response res >>= (λ _. next_path client.urlparse client.base_url path res.location))
        ≡ ok found
      → TrustedPath client found
  checked-TrustedPath res path found t e = elim (Result-cases (check_response res)) [
    | inr (error, c) ↦ cc (rw c at e)
    | inl (u, c) ↦ next_path-TrustedPath client path res.location found t (rw c at e)
  ]

  attempt_at-Trusted :
      (res : Response) (last : Option Bytes) (r : Result (Option Bytes))
      → ((found : Option Bytes) → r ≡ ok found → TrustedPath client found)
      → TrustedOutcome client (attempt_at p res last r).outcome
  unfolding attempt_at
  attempt_at-Trusted res last (err e) t = tt
  attempt_at-Trusted res last (ok found) t = read_body-Trusted res found last (t found refl)

  pub attempt-Trusted :
      (res : Response) (path last : Option Bytes)
      → TrustedPath client path
      → TrustedOutcome client (attempt p client res path last).outcome
  unfolding attempt
  attempt-Trusted res path last t =
      attempt_at-Trusted res last
        (check_response res >>= (λ _. next_path client.urlparse client.base_url path res.location))
        (λ found e. checked-TrustedPath res path found t e)
