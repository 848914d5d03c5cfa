-- ===== src/Relay/Hello.antt =====
-- The first TLS record of a client: `read_client_hello_record` of relay-server/src/main.rs. The
-- stream is the list of what arrives, a segment of at least one byte at a time; its end is the end
-- of the connection. A wait that exceeds a time limit is an entry of its own.
use praeco_rs.Prelude.{
  ℕ, zero, suc, ◌-◌, min, not, ltb, ◌==◌, if◌then◌else◌, List, [], ◌∷◌, ◌++◌, take, drop, Bytes,
  is_empty, length, get_or,
}
use praeco_rs.BigEndian.{from_be}

-- `paused` is a wait that is longer than the 50 ms for a non-TLS client, `stalled` one that
-- exceeds the limit for the whole record.
pub data Segment : Type 0 where
  arrived : (first : ℕ) → (others : Bytes) → Segment
  broken paused stalled : Segment

pub data Refusal : Type 0 where
  header_io closed_early header_eof oversized payload_io payload_eof timed_out : Refusal

pub data Hello : Type 0 where
  hello : Bytes → Hello
  refused : Refusal → Hello

pub data Read : Type 0 where
  got : Bytes → Read
  io_error too_late : Read

abbrev pub put_back : Bytes → List Segment → List Segment
put_back [] stream = stream
put_back (b ∷ bs) stream = arrived b bs ∷ stream

-- One `read` into a buffer of the size; nothing is got at the end.
unfoldable pub read : ℕ → List Segment → Read × List Segment
read size [] = (got [], [])
read size (broken ∷ stream) = (io_error, stream)
read size (paused ∷ stream) = read size stream
read size (stalled ∷ stream) = (too_late, stream)
read size (arrived b bs ∷ stream) = (got (take size (b ∷ bs)), put_back (drop size (b ∷ bs)) stream)

pub data Filled : Type 0 where
  filled : Bytes → Filled
  ended : (so_far : Bytes) → Filled
  fill_io fill_late : Filled

abbrev pub after_read :
    (ℕ → Bytes → List Segment → Filled × List Segment)
    → (missing : ℕ) → Bytes
    → Read × List Segment
    → Filled × List Segment
after_read loop missing buf (io_error, stream) = (fill_io, stream)
after_read loop missing buf (too_late, stream) = (fill_late, stream)
after_read loop missing buf (got [], stream) = (ended buf, stream)
after_read loop missing buf (got (b ∷ bs), stream) =
    loop (missing - length (b ∷ bs)) (buf ++ b ∷ bs) stream

-- The loops: `missing` bytes are to be read, at most `chunk` at a time. Each read gets one byte at
-- least, so that the fuel `missing` is enough.
unfoldable pub fill : (fuel chunk missing : ℕ) → Bytes → List Segment → Filled × List Segment
unfolding read
fill zero chunk missing buf stream = (filled buf, stream)
fill (suc fuel) chunk zero buf stream = (filled buf, stream)
fill (suc fuel) chunk (suc missing) buf stream =
    after_read (fill fuel chunk) (suc missing) buf (read (min (suc missing) chunk) stream)

-- What is readily there of a client that does not speak TLS.
unfoldable pub read_extra : Bytes → List Segment → Hello × List Segment
read_extra buf (arrived b bs ∷ stream) =
    (hello (buf ++ take 512 (b ∷ bs)), put_back (drop 512 (b ∷ bs)) stream)
read_extra buf stream = (hello buf, stream)

unfoldable pub payload_read : Filled × List Segment → Hello × List Segment
payload_read (filled buf, stream) = (hello buf, stream)
payload_read (ended buf, stream) = (refused payload_eof, stream)
payload_read (fill_io, stream) = (refused payload_io, stream)
payload_read (fill_late, stream) = (refused timed_out, stream)

abbrev pub max_record : ℕ
max_record = 16384

-- With the header in the buffer.
unfoldable pub read_record : Bytes → List Segment → Hello × List Segment
unfolding read_extra payload_read fill from_be
read_record buf stream =
    let record_len = from_be (take 2 (drop 3 buf)) in
    if not (get_or buf 0 0 == 0x16)
    then read_extra buf stream
    else if ltb max_record record_len
    then (refused oversized, stream)
    else payload_read (fill record_len 4096 record_len buf stream)

unfoldable pub header_read : Filled × List Segment → Hello × List Segment
unfolding read_record
header_read (filled buf, stream) = read_record buf stream
header_read (ended buf, stream) =
    (if is_empty buf then refused closed_early else refused header_eof, stream)
header_read (fill_io, stream) = (refused header_io, stream)
header_read (fill_late, stream) = (refused timed_out, stream)

-- The answer, and the stream that is left.
unfoldable pub read_client_hello_record : List Segment → Hello × List Segment
unfolding header_read fill
read_client_hello_record stream = header_read (fill 5 5 5 [] stream)
