-- ===== src/Packet/Body/Read.antt =====
-- Reading the header of a packet that `stream_flush_packet_body` wrote.
use rnp.Prelude.{ℕ, ◌+◌, ◌^◌, ◌<◌, ◌≡◌, arith, List, ◌++◌, length, length-append}
use mathlib.Core.Path.{subst}
use rnp.Packet.Input.{SourceOps, IsSource, At, Hits}
use rnp.Packet.Length.{write_packet_len, stream_read_pkt_len}
use rnp.Packet.Length.RoundTrip.{stream_read_pkt_len-write}
use rnp.Packet.Body.Build.{packet, packet-append}

-- The number of header bytes.
abbrev pub header_size : ℕ → ℕ
header_size len = 1 + length (write_packet_len len)

pub length-packet :
    (tag : ℕ) (content : List ℕ)
    → length (packet tag content) ≡ header_size (length content) + length content
length-packet tag content =
    omega (arith, length-append {0} (write_packet_len (length content)) content)

module _ {S : Type 0} (ops : SourceOps S) (pending : S → List ℕ) (IsReady : S → Type 0)
    (source : IsSource ops pending IsReady) where
  pub packet-Hits :
      (tag len : ℕ) (content rest : List ℕ) (r : ℕ) (s : S)
      → tag < 64
      → length content ≡ len
      → len < 2 ^ 32
      → At ops pending IsReady s (packet tag content ++ rest) r
      → Hits ops pending IsReady
          (stream_read_pkt_len ops s)
          len
          (content ++ rest)
          (r + header_size len)
  packet-Hits tag len content rest r s small size fits h =
      subst
        (λ n.
          Hits ops pending IsReady (stream_read_pkt_len ops s) n (content ++ rest)
            (r + header_size n))
        size
        (subst
          (λ k.
            Hits ops pending IsReady (stream_read_pkt_len ops s) (length content) (content ++ rest)
              k)
          (omega arith)
          (stream_read_pkt_len-write ops pending IsReady source tag (length content)
            (content ++ rest) r s small (omega arith) (rw (packet-append tag content rest) at h)))
