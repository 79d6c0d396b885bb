-- ===== src/Packet/Transfer.antt =====
-- What the writing functions of src/librepgp/stream-packet.c send, the reading functions read.
use rnp.Prelude.{ℕ, ◌+◌, ◌≡◌, sym, ap, ◌∙◌, Bool, true, List, [], ◌++◌, length, append-nil}
use mathlib.Core.Path.{subst}
use rnp.Packet.Input.{SourceOps, IsSource, At, Gives}
use rnp.Packet.Body.Build.{packet, IsDest, Sends}
use rnp.Packet.OnePass.{OnePassSig, one_pass_tag, stream_write_one_pass}
use rnp.Packet.OnePass.Parse.{stream_parse_one_pass}
use rnp.Packet.OnePass.RoundTrip.{IsOnePass, one_pass_content, stream_parse_one_pass-packet}
use rnp.Packet.OnePass.RoundTrip.{stream_write_one_pass-Sends}
use rnp.Packet.SkSesskey.{SkSesskey, sk_tag, stream_write_sk_sesskey}
use rnp.Packet.SkSesskey.Parse.{stream_parse_sk_sesskey}
use rnp.Packet.SkSesskey.Content.{IsSkSesskey, sk_content}
use rnp.Packet.SkSesskey.RoundTrip.{received, stream_parse_sk_sesskey-packet}
use rnp.Packet.SkSesskey.Sent.{stream_write_sk_sesskey-Sends}
use rnp.Packet.PkSesskey.{PkSesskey, pk_tag, stream_write_pk_sesskey}
use rnp.Packet.PkSesskey.Parse.{stream_parse_pk_sesskey}
use rnp.Packet.PkSesskey.Content.{IsPkSesskey, pk_content}
use rnp.Packet.PkSesskey.RoundTrip.{stream_parse_pk_sesskey-packet}
use rnp.Packet.PkSesskey.Sent.{stream_write_pk_sesskey-Sends}

-- A source, a destination to which nothing was sent, and memory.
module _ {S : Type 0} (ops : SourceOps S) (pending : S → List ℕ) (IsReady : S → Type 0)
    (source : IsSource ops pending IsReady) {D : Type 0} (dst_write : D → List ℕ → D)
    (sent : D → List ℕ) (IsOpen : D → Type 0) (dest : IsDest dst_write sent IsOpen)
    (alloc : ℕ → Bool) (memory : (n : ℕ) → alloc n ≡ true) (d : D) (open_dest : IsOpen d)
    (empty : sent d ≡ []) where
  -- A source that holds what was sent holds the packet, and nothing else.
  received_packet :
      (bytes : List ℕ) (w : Bool × D) (r : ℕ) (s : S)
      → Sends sent IsOpen d bytes w
      → At ops pending IsReady s (sent w.1) r
      → At ops pending IsReady s (bytes ++ []) r
  received_packet bytes w r s h at =
      subst (λ l. At ops pending IsReady s l r)
        (h.1 ∙ ap (λ l. l ++ bytes) empty ∙ sym (append-nil bytes)) at

  -- A version 3 session key that `stream_write_pk_sesskey` sends is read by
  -- `stream_parse_pk_sesskey` from a source that holds what was sent, to its end. The key id has 8
  -- bytes, the algorithm is RSA, Elgamal, SM2 or ECDH, with its parameters, the numbers have 1 to
  -- 2048 bytes and no leading zeros, and the key that ECDH wraps has 48 bytes at most. Source and
  -- destination keep their laws, and the allocations succeed.
  pub stream_parse_pk_sesskey-write :
      (k : PkSesskey) (r : ℕ) (s : S)
      → IsPkSesskey k
      → At ops pending IsReady s (sent (stream_write_pk_sesskey dst_write alloc k d).1) r
      → ((stream_write_pk_sesskey dst_write alloc k d).0 ≡ true)
        × Gives ops pending IsReady
            (stream_parse_pk_sesskey ops s)
            k
            []
            (r + length (packet pk_tag (pk_content k)))
  stream_parse_pk_sesskey-write k r s v at =
      let w =
        stream_write_pk_sesskey-Sends dst_write sent IsOpen dest alloc k d memory v open_dest in
      (
        w.0,
        stream_parse_pk_sesskey-packet ops pending IsReady source k [] r s v
            (received_packet (packet pk_tag (pk_content k)) _ r s w at),
      )

  -- A version 4 session key that `stream_write_sk_sesskey` sends is read by
  -- `stream_parse_sk_sesskey` from a source that holds what was sent, to its end; the fields that
  -- the packet does not show keep their values in `init`. The algorithms are bytes, the specifier is
  -- one of the three, the salt has 8 bytes, the iterations are below 256, and the encrypted key has
  -- 33 bytes at most. Source and destination keep their laws, and the allocations succeed.
  pub stream_parse_sk_sesskey-write :
      (init k : SkSesskey) (r : ℕ) (s : S)
      → IsSkSesskey k
      → At ops pending IsReady s (sent (stream_write_sk_sesskey dst_write alloc k d).1) r
      → ((stream_write_sk_sesskey dst_write alloc k d).0 ≡ true)
        × Gives ops pending IsReady
            (stream_parse_sk_sesskey ops init s)
            (received init k)
            []
            (r + length (packet sk_tag (sk_content k)))
  stream_parse_sk_sesskey-write init k r s v at =
      let w =
        stream_write_sk_sesskey-Sends dst_write sent IsOpen dest alloc k d memory v open_dest in
      (
        w.0,
        stream_parse_sk_sesskey-packet ops pending IsReady source init k [] r s v
            (received_packet (packet sk_tag (sk_content k)) _ r s w at),
      )

  -- A one-pass signature that `stream_write_one_pass` sends is read by `stream_parse_one_pass` from
  -- a source that holds what was sent, to its end. It has version 3, a type and algorithms of a byte,
  -- a key id of 8 bytes and a nested flag of 0 or 1. Source and destination keep their laws, and the
  -- allocations succeed.
  pub stream_parse_one_pass-write :
      (p : OnePassSig) (r : ℕ) (s : S)
      → IsOnePass p
      → At ops pending IsReady s (sent (stream_write_one_pass dst_write alloc p d).1) r
      → ((stream_write_one_pass dst_write alloc p d).0 ≡ true)
        × Gives ops pending IsReady
            (stream_parse_one_pass ops s)
            p
            []
            (r + length (packet one_pass_tag (one_pass_content p)))
  stream_parse_one_pass-write p r s v at =
      let w = stream_write_one_pass-Sends dst_write sent IsOpen dest alloc p d memory v open_dest in
      (
        w.0,
        stream_parse_one_pass-packet ops pending IsReady source p [] r s v
            (received_packet (packet one_pass_tag (one_pass_content p)) _ r s w at),
      )
