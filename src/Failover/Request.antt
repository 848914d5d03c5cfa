-- ===== src/Failover/Request.antt =====
-- What goes through the failover loop: the request, what the world answers, the loop's state and
-- how it ends.
use praeco_rs.Prelude.{
  ℕ, Bool, true, false, ltb, if◌then◌else◌, Option, none, some, List, [], Bytes, codes,
}
use praeco_rs.Upstreams.{Chance, RouteTarget}
use praeco_rs.RetryBody.{RequestBody, buffered, stream}
use praeco_rs.Http.{Method, ErrorResponse}
use praeco_rs.Http.Headers.{HeaderMap}
use praeco_rs.Failover.Uris.{UriOps}
use praeco_rs.Failover.Errors.{SrvError, ProxyError}

-- Why the handler answers by itself.
pub data Refusal : Type 0 where
  gateway_timeout payload_too_large client_closed bad_gateway : Refusal

-- What comes back for a request: a response, or an error and what the body's tracker recorded.
pub data Answer (Map : Type 0) : Type 0 where
  responded : (status : ℕ) → Map → Answer Map
  broke : (recorded : Option SrvError) → ProxyError → Answer Map

pub record Arrival (Map : Type 0) : Type 0 where
  pub after_ms : ℕ
  pub answer : Answer Map

-- The request as it goes through the loop.
pub record Call (Uri Ip : Type 0) : Type 0 where
  pub method : Method
  pub client_addr : Option Ip
  pub rest : Option Bytes
  pub original_uri : Uri
  pub request_timeout : Option ℕ

-- What the two handlers do differently.
pub record Policy (Map : Type 0) : Type 0 where
  pub is_repeatable : Method → Bool
  pub is_outlier : ℕ → Map → Bool
  pub wire_headers : Map → Map
  pub clean_headers : Map → Map
  pub refuse : Refusal → ErrorResponse

-- Attempt `k` draws from `chance k`, reads the clock twice, and gets the answer of the node that
-- it asks; `meanwhile k` is what others do to the target while it waits.
pub record World (Uri Ip Map : Type 0) : Type 0 where
  pub chance : ℕ → Chance Ip
  pub select_at : ℕ → ℕ
  pub settle_at : ℕ → ℕ
  pub arrival : ℕ → Uri → Arrival Map
  pub meanwhile : ℕ → RouteTarget Uri → RouteTarget Uri

-- A request that went out.
pub record Sent (Uri Map : Type 0) : Type 0 where
  pub node : Uri
  pub target_uri : Uri
  pub headers : Map
  pub body : RequestBody

pub record Progress (Uri Map : Type 0) : Type 0 where
  pub target : RouteTarget Uri
  pub failed_nodes : List Uri
  pub attempts : ℕ
  pub headers : Map
  pub body : RequestBody
  pub sent : List (Sent Uri Map)

-- How the handler ends. The connection guard of a response that is passed on lives on with its
-- body. `panicked` is the choice from an empty target.
pub data Ending (Map : Type 0) : Type 0 where
  refused : ErrorResponse → Ending Map
  passed_on : (status : ℕ) → Map → Ending Map
  uri_error panicked : Ending Map

pub data Verdict (Uri Map : Type 0) : Type 0 where
  retry : Progress Uri Map → Verdict Uri Map
  finish : Ending Map → Progress Uri Map → Verdict Uri Map

abbrev pub is_stream : RequestBody → Bool
is_stream (buffered bytes) = false
is_stream (stream body) = true

-- The body that an attempt leaves: a stream is taken out.
abbrev pub taken : RequestBody → RequestBody
taken (buffered bytes) = buffered bytes
taken (stream body) = buffered []

-- Which timeout or answer the wait ends with; `none` is the timeout.
unfoldable pub await_answer : {Map : Type 0} → Option ℕ → Arrival Map → Option (Answer Map)
await_answer none a = some a.answer
await_answer (some limit_ms) a = if ltb limit_ms a.after_ms then none else some a.answer

module _ {Uri : Type 0} (uris : UriOps Uri) (http : HeaderMap) where
  -- `host` is set from the authority of the target's URI.
  unfoldable pub with_host : Uri → http.Map → http.Map
  with_host uri headers = elim (uris.authority uri) [
    | none ↦ headers
    | some authority ↦ elim (http.to_value authority) [
      | none ↦ headers
      | some value ↦ http.insert (codes "host") value headers
    ]
  ]
