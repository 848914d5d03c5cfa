-- ===== src/Http.antt =====
-- What the request handlers share of HTTP: methods, the status codes that the handlers answer
-- with, and the header map of the `http` crate, an interface with the documented laws of its
-- operations. A header name is its lower-case bytes, a header value its bytes.
pub mod Headers
pub mod Numbers
pub mod Store
use praeco_rs.Prelude.{ℕ, Bool, true, false, Bytes, Option, none}

pub data Method : Type 0 where
  get head put delete options post patch connect trace : Method
  extension : Bytes → Method

-- The methods that the handlers take to be safe to repeat.
unfoldable pub is_idempotent : Method → Bool
is_idempotent get = true
is_idempotent head = true
is_idempotent put = true
is_idempotent delete = true
is_idempotent options = true
is_idempotent _ = false

abbrev pub ok : ℕ
ok = 200

abbrev pub bad_request : ℕ
bad_request = 400

abbrev pub forbidden : ℕ
forbidden = 403

abbrev pub not_found : ℕ
not_found = 404

abbrev pub payload_too_large : ℕ
payload_too_large = 413

abbrev pub loop_detected : ℕ
loop_detected = 508

abbrev pub internal_server_error : ℕ
internal_server_error = 500

abbrev pub bad_gateway : ℕ
bad_gateway = 502

abbrev pub service_unavailable : ℕ
service_unavailable = 503

abbrev pub gateway_timeout : ℕ
gateway_timeout = 504

-- An answer that the gateway makes itself: its status, the `grpc-status` of an answer to a gRPC
-- client, and its text.
pub record ErrorResponse : Type 0 where
  pub status : ℕ
  pub grpc_status : Option Bytes
  pub message : Bytes

unfoldable pub build_error_response : Bytes → ℕ → ErrorResponse
build_error_response message status = record {
  status = status;
  grpc_status = none;
  message = message;
}
