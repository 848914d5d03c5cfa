-- ===== src/ProxyProtocol/Reader.antt =====
-- What the reader consumes and what it refuses.
use praeco_rs.Prelude.{
  length-drop, ℕ, zero, suc, ◌+◌, ◌/◌, ◌≤◌, ◌≡◌, true, Option, [], ◌∷◌, length, take, drop, Bytes,
  bytes_eq_iff, arith, get_or,
}
use praeco_rs.BigEndian.{from_be}
use praeco_rs.ProxyProtocol.{
  SocketAddr, done, proxy_v2_magic, parse_payload, can_read, read_proxy_v2,
}

can_read-le : (n : ℕ) (reader : Bytes) → can_read n reader ≡ true → n ≤ length reader
unfolding can_read
can_read-le zero reader h = omega arith
can_read-le (suc n) [] h = ground arith
can_read-le (suc n) (b ∷ reader) h = omega (arith, can_read-le n reader h)

parse_payload-rest :
    (fam : ℕ) (payload rest left : Bytes) (a : Option SocketAddr)
    → parse_payload fam payload rest ≡ done a left
    → left ≡ rest
unfolding parse_payload
parse_payload-rest fam payload rest left a h = ground arith

-- A header that is accepted begins with the magic bytes, has version 2 and announces at most 1024
-- bytes, and the reader is left exactly behind the 16 bytes of the header and those announced, all
-- of which were there.
read_proxy_v2_consumes :
    (reader left : Bytes) (a : Option SocketAddr)
    → read_proxy_v2 reader ≡ done a left
    → let announced = from_be (take 2 (drop 14 (take 16 reader))) in
      (take 12 (take 16 reader) ≡ proxy_v2_magic)
      × (get_or (take 16 reader) 12 0 / 16 ≡ 2)
      × (announced ≤ 1024)
      × (16 + announced ≤ length reader)
      × (left ≡ drop announced (drop 16 reader))
unfolding read_proxy_v2
read_proxy_v2_consumes reader left a h =
    let header = take 16 reader in
    let body = drop 16 reader in
    let announced = from_be (take 2 (drop 14 header)) in
    ground (
      arith,
      can_read-le 16 reader,
      can_read-le announced body,
      length-drop 16 reader,
      bytes_eq_iff (take 12 header) proxy_v2_magic,
      parse_payload-rest (get_or header 13 0 / 16) (take announced body) (drop announced body) left
          a,
    )
