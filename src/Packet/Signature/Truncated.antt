-- ===== src/Packet/Signature/Truncated.antt =====
-- What `stream_parse_signature` does with a packet that ends in front of the left bits.
use rnp.Prelude.{ℕ, ◌+◌, ◌-◌, ◌≤◌, ◌≡◌, refl, arith, true}
use rnp.Prelude.{List, [], ◌∷◌, ◌++◌, length, append_assoc, length-append}
use rnp.Prelude.{le→ltb, lt→ltb, ltb}
use mathlib.Core.Path.{subst}
use rnp.Errors.{read_error}
use rnp.Stream.Source.{u64, sub64}
use rnp.Packet.Input.{SourceOps, IsSource, At, Gives, ◌>>=◌}
use rnp.Packet.Input.Rules.{bind-Gives, or_fail-Gives, read_front-Hits}
use rnp.Packet.Body.Build.{packet}
use rnp.Packet.Body.Read.{packet-Hits, header_size}
use rnp.Packet.Signature.{zeroed}
use rnp.Packet.Signature.Parse.{read_version, read_left_bits, skip_rest}
use rnp.Packet.Signature.Parse.{signature_of_len, stream_parse_signature}
use rnp.Packet.Signature.Material.{skip_rest-Gives}
use rnp.Packet.Signature.Content.{sig_tag}
use rnp.Packet.Signature.Older.{
  SigV3, IsSigV3, v3_front, v3_begun, length-v3_front, read_version-v3,
}

module _ {S : Type 0} (ops : SourceOps S) (pending : S → List ℕ) (IsReady : S → Type 0)
    (source : IsSource ops pending IsReady) (memory : (n : ℕ) → ops.alloc n ≡ true) where
  -- A packet of a version 2 or 3 signature that ends in front of the left bits of the hash, or
  -- between them, is accepted: `stream_parse_signature` gives a signature with no numbers, and
  -- leaves the rest of the packet, `pad`, to be read. The allocations succeed.
  pub stream_parse_signature-truncated :
      (k : SigV3) (pad rest : List ℕ) (r : ℕ) (s : S)
      → IsSigV3 k
      → length pad ≤ 1
      → At ops pending IsReady s (packet sig_tag (k.version ∷ (v3_front k ++ pad)) ++ rest) r
      → Gives ops pending IsReady
          (stream_parse_signature ops s)
          (v3_begun k)
          (pad ++ rest)
          (r + header_size (17 + length pad) + 17)
  unfolding stream_parse_signature signature_of_len read_left_bits
  stream_parse_signature-truncated k pad rest r s v short h =
      bind-Gives ops pending IsReady _ _
        (or_fail-Gives ops pending IsReady read_error (
          packet-Hits ops pending IsReady source sig_tag n (k.version ∷ (v3_front k ++ pad)) rest r
            s (omega arith) size (omega (arith, short)) h))
        (λ s1 h1. rw (le→ltb n 1 (omega arith)) (
          bind-Gives ops pending IsReady _ _
            (or_fail-Gives ops pending IsReady read_error (
              read_front-Hits ops pending IsReady source 1 (k.version ∷ [])
                (v3_front k ++ (pad ++ rest)) refl
                (subst (λ l. At ops pending IsReady s1 (k.version ∷ l) (r + header_size n))
                  (append_assoc (v3_front k) pad rest) h1)))
            (λ s2 h2.
              subst
                (λ m.
                  Gives ops pending IsReady
                    (skip_rest ops (u64 (ops.readb s1 + n)) (
                      (read_version ops (record zeroed { version = k.version }) (n - 1)
                          >>= read_left_bits ops (u64 (ops.readb s1 + n)))
                        s2))
                    (v3_begun k) (pad ++ rest) m)
                (total)
                (skip_rest-Gives ops pending IsReady source (u64 (ops.readb s1 + n)) (
                  bind-Gives ops pending IsReady
                    (read_version ops (record zeroed { version = k.version }) (n - 1))
                    (read_left_bits ops (u64 (ops.readb s1 + n)))
                    (read_version-v3 ops pending IsReady source memory k (n - 1) (pad ++ rest)
                      (r + header_size n + 1) s2 v (omega arith) h2)
                    (λ s3 h3. rw (h3.counts, h1.counts, no_room) (s3, refl, h3)))))))
    where
      n : ℕ
      n = 17 + length pad

      size : length (k.version ∷ (v3_front k ++ pad)) ≡ n
      size = omega (arith, length-v3_front k v.id_size, length-append {0} (v3_front k) pad)

      no_room :
          ltb (sub64 (u64 (u64 (r + header_size n) + n)) (u64 (r + header_size n + 1 + 16))) 2
          ≡ true
      no_room = lt→ltb _ _ (omega (arith, short))

      total : r + header_size n + 1 + 16 ≡ r + header_size n + 17
      total = omega arith
