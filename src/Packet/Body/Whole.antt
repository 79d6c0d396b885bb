-- ===== src/Packet/Body/Whole.antt =====
-- `stream_read_packet_body` of src/librepgp/stream-packet.c.
pub mod Refused
use rnp.Prelude.{
  ℕ, ◌+◌, ◌≤◌, ◌<◌, ◌≡◌, Option, none, some, List, [], length, get_or, ltb, ◌==◌, ◌||◌,
  if◌then◌else◌,
}
use rnp.Errors.{
  bad_format, read_error, out_of_memory, Attempt, minus_one, returned, Parsed, fail, done,
}
use rnp.Packet.Input.{SourceOps, or_fail, ◌>>=◌}
use rnp.Packet.Length.{get_packet_type, stream_read_pkt_len}
use rnp.Packet.Body.{Body}

-- `PGP_MAX_PKT_SIZE`
abbrev pub max_pkt_size : ℕ
max_pkt_size = 0x100000

module _ {S : Type 0} (ops : SourceOps S) where
  -- The body of `len` bytes. The code reads `read` bytes, which the peek set to 1, and compares
  -- their number with `len`.
  unfoldable pub read_body : ℕ → ℕ → ℕ → S → Parsed S Body
  read_body tag read len s =
      if len == 0
      then fail read_error s
      else if ltb max_pkt_size len
      then fail bad_format s
      else if ops.alloc len
      then elim (ops.read s read) [
        | minus_one s' ↦ fail read_error s'
        | returned bytes s' ↦
            if ltb (length bytes) len
            then fail read_error s'
            else done (record { tag = tag; content = bytes; allocated = len }) s'
      ]
      else fail out_of_memory s

  -- The packet whose first byte was peeked at.
  unfoldable pub body_of_peek : List ℕ → S → Parsed S Body
  body_of_peek buf s =
      if ltb (length buf) 1 then fail read_error s else elim (get_packet_type (get_or buf 0 0)) [
        | none ↦ fail bad_format s
        | some tag ↦
            (do
              len ← (λ s. or_fail read_error (stream_read_pkt_len ops s))
              read_body tag (length buf) len)
              s
      ]

  unfoldable pub stream_read_packet_body : S → Parsed S Body
  stream_read_packet_body = do buf ← (λ s. or_fail read_error (ops.peek s 1)); body_of_peek buf
