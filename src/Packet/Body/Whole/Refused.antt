-- ===== src/Packet/Body/Whole/Refused.antt =====
-- What `stream_read_packet_body` does with a packet of two bytes or more.
use rnp.Prelude.{ℕ, ◌+◌, ◌≤◌, ◌<◌, ◌≡◌, refl, arith, List, ◌∷◌, ◌++◌, length, true}
use rnp.Prelude.{le→ltb, lt→ltb, ne→==}
use rnp.Errors.{read_error}
use rnp.Packet.Input.{SourceOps, IsSource, At, Fails}
use rnp.Packet.Input.Rules.{bind-Fails, or_fail-Gives}
use rnp.Packet.Length.RoundTrip.{new_header}
use rnp.Packet.Body.Build.{packet}
use rnp.Packet.Body.Read.{packet-Hits, header_size}
use rnp.Packet.Body.Whole.{max_pkt_size, read_body, body_of_peek, stream_read_packet_body}

module _ {S : Type 0} (ops : SourceOps S) (pending : S → List ℕ) (IsReady : S → Type 0)
    (source : IsSource ops pending IsReady) (memory : (n : ℕ) → ops.alloc n ≡ true) where
  -- A packet with a body of two bytes or more, within the size that `stream_read_packet_body`
  -- allows, is never read: the call takes the header and the first byte of the body, and ends with
  -- RNP_ERROR_READ though the source has the whole packet. The allocations succeed.
  pub stream_read_packet_body-Fails :
      (tag b c : ℕ) (bs rest : List ℕ) (r : ℕ) (s : S)
      → tag < 64
      → 2 + length bs ≤ max_pkt_size
      → At ops pending IsReady s (packet tag (b ∷ c ∷ bs) ++ rest) r
      → Fails ops pending IsReady
          (stream_read_packet_body ops s)
          read_error
          (c ∷ (bs ++ rest))
          (r + header_size (2 + length bs) + 1)
  unfolding stream_read_packet_body body_of_peek read_body
  stream_read_packet_body-Fails tag b c bs rest r s small fits h =
      bind-Fails ops pending IsReady _ _
        (or_fail-Gives ops pending IsReady read_error
          (source.peek_law s 1 (packet tag (b ∷ c ∷ bs) ++ rest) r (omega arith) h))
        (λ s1 h1. rw (new_header tag small) (
          bind-Fails ops pending IsReady _ _
            (or_fail-Gives ops pending IsReady read_error (
              packet-Hits ops pending IsReady source tag (2 + length bs) (b ∷ c ∷ bs) rest r s1
                small (omega arith) (omega (arith, fits)) h1))
            (λ s2 h2.
              let (s3, e, h3) = source.read_law s2 1 _ (r + header_size (2 + length bs)) h2 in
              rw
                (
                  ne→== (2 + length bs) 0 (omega arith),
                  le→ltb max_pkt_size (2 + length bs) fits,
                  memory (2 + length bs),
                  e,
                  lt→ltb 1 (2 + length bs) (omega arith),
                )
                (s3, refl, h3))))
