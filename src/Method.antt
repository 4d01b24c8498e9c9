-- ===== src/Method.antt =====
-- Methods that mutate an object and may raise. Python keeps what was written before the `raise`, so
-- the object comes back beside the error too. The errors are those of libs/langgraph/langgraph/
-- errors.py that the modelled code raises, the built-in ones that it runs into, and those of the
-- client SDK: of decoding a text or JSON, of a response's status, and of the transport.
use langgraph_study.Prelude.{Option, none, some, ◌≡◌, refl, ◌⊎◌, inl, inr}

pub data Error : Type 0 where
  empty_channel invalid_update type_error value_error key_error index_error runtime_error
        attribute_error graph_interrupt recursion_error graph_drained node_error unicode_error
        json_error status_error transport_error http_error :
      Error

pub data Result {ℓ} (A : Type ℓ) : Type ℓ where
  ok : A → Result A
  err : Error → Result A

abbrev pub Method {ℓ κ} : Type ℓ → Type κ → Type (ℓ ⊔ κ)
Method S A = S → Result A × S

infixl 5 ◌>>=◌
abbrev pub ◌>>=◌ {ℓ κ} : {A : Type ℓ} {B : Type κ} → Result A → (A → Result B) → Result B
ok a >>= f = f a
err e >>= f = err e

-- What a caller that goes on from a finished call sees; an error ends the caller too.
abbrev pub and_then {ℓ κ μ} :
    {S : Type ℓ} {A : Type κ} {B : Type μ} → Result A × S → (A → S → Result B × S) → Result B × S
and_then (ok a, s) f = f a s
and_then (err e, s) f = (err e, s)

-- `if self.value is MISSING: raise EmptyChannelError()`, and else the value
abbrev pub or_empty {ℓ} : {A : Type ℓ} → Option A → Result A
or_empty none = err empty_channel
or_empty (some a) = ok a

pub Result-cases {ℓ} :
    {A : Type ℓ} (r : Result A) → ((a : A) × (r ≡ ok a)) ⊎ ((e : Error) × (r ≡ err e))
Result-cases (ok a) = inl (a, refl)
Result-cases (err e) = inr (e, refl)

pub ok-injective {ℓ} : {A : Type ℓ} {a b : A} → ok a ≡ ok b → a ≡ b
ok-injective e = cc
