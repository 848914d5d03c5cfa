-- ===== src/Net/Forwarded.antt =====
-- What a request says of its client: the peer address in its extensions and the two headers of a
-- proxy in front, which server/src/middleware/ip_filter.rs and rate_limiter.rs read.
use praeco_rs.Prelude.{Option, [], ◌∷◌, if◌then◌else◌, ◌==◌, Bytes}
use praeco_rs.Net.{IpAddr}

-- A header is here when it is sent and `to_str` succeeds.
pub record ClientRequest : Type 0 where
  pub peer : Option IpAddr
  pub x_forwarded_for : Option Bytes
  pub x_real_ip : Option Bytes

-- `split(',').next()`.
unfoldable pub first_segment : Bytes → Bytes
first_segment [] = []
first_segment (b ∷ bs) = if b == b',' then [] else b ∷ first_segment bs
