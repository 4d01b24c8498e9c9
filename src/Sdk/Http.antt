-- ===== src/Sdk/Http.antt =====
-- The requests of `stream` in libs/sdk-py/langgraph_sdk/_sync/http.py, and
-- `_validate_reconnect_location` of libs/sdk-py/langgraph_sdk/_shared/utilities.py. A text is kept as
-- its bytes. `urlparse` and `str.lower` are parameters, and so is what the server answers.
use langgraph_study.Prelude.{
  ℕ, Bool, not, ◌&&◌, ◌||◌, Option, none, some, String, List, [], ◌∷◌, nat_eq, ltb, nonempty,
  str_eq, if◌then◌else◌,
}
use langgraph_study.Method.{Result, ok, err, value_error, status_error, transport_error}
use langgraph_study.Dict
use langgraph_study.Dict.{Dict}
use langgraph_study.Sdk.Lines.{Bytes}
use langgraph_study.Sdk.Bytes.{bytes_of, bytes_eq, contains, partition}

-- What `urlparse` gives of a URL, and what `httpx.URL` has of the base URL.
pub record Url : Type 0 where
  pub scheme : Bytes
  pub netloc : Bytes
  pub hostname : Option Bytes
  pub port : Option ℕ

pub record Request : Type 0 where
  pub method : Bytes
  pub path : Bytes
  pub headers : Dict Bytes
  pub content : Option Bytes
  pub params : Option Bytes

-- A response that ends: its chunks, a finite list, and whether reading them ends with an `httpx.HTTPError`.
pub record Response : Type 0 where
  pub status_code : ℕ
  pub content_type : Bytes
  pub location : Option Bytes
  pub chunks : List Bytes
  pub breaks_off : Bool

abbrev pub Origin : Type 0
Origin = Bytes × Bytes × ℕ

unfoldable pub default_port : Bytes → ℕ
default_port scheme = if bytes_eq scheme (bytes_of "https") then 443 else 80

-- `port or _default_port(scheme)`
unfoldable pub port_of : Url → ℕ
unfolding default_port
port_of url = elim url.port [
  | none ↦ default_port url.scheme
  | some n ↦ if nat_eq n 0 then default_port url.scheme else n
]

-- `hostname or ""`
unfoldable pub host_of : Url → Bytes
host_of url = elim url.hostname [ none ↦ [] | some host ↦ host ]

unfoldable pub origin : Url → Origin
unfolding port_of host_of
origin url = (url.scheme, host_of url, port_of url)

unfoldable pub origin_eq : Origin → Origin → Bool
origin_eq a b = bytes_eq a.0 b.0 && bytes_eq a.1 b.1 && nat_eq a.2 b.2

-- A relative location is safe, and any other must have the origin of the base URL.
unfoldable pub validate_reconnect_location : (Bytes → Url) → Url → Bytes → Result Bytes
unfolding origin_eq origin
validate_reconnect_location urlparse base location =
    if not (nonempty (urlparse location).scheme) && not (nonempty (urlparse location).netloc)
    then ok location
    else if origin_eq (origin base) (origin (urlparse location))
    then ok location
    else err value_error

-- `_raise_for_status_typed(res)` and the check of the content type
unfoldable pub check_response : Response → Result (Unit {0})
check_response res =
    if not (ltb res.status_code 400)
    then err status_error
    else if contains (bytes_of "text/event-stream") (partition 0x3B res.content_type).0
    then ok tt
    else err transport_error

-- The header fields of the first request.
unfoldable pub first_headers : Dict Bytes → Dict Bytes → Dict Bytes
first_headers encoded headers =
    Dict.update
      (Dict.put "Cache-Control" (bytes_of "no-store")
        (Dict.put "Accept" (bytes_of "text/event-stream") encoded))
      headers

-- Those of a request that reconnects: the ones that describe a content are left out.
unfoldable pub later_headers : (String → String) → Dict Bytes → Dict Bytes
later_headers lower [] = []
later_headers lower ((k, v) ∷ headers) =
    if str_eq (lower k) "content-length" || str_eq (lower k) "content-type"
    then later_headers lower headers
    else (k, v) ∷ later_headers lower headers
