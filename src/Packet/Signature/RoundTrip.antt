-- ===== src/Packet/Signature/RoundTrip.antt =====
-- Signature packets, as RFC 4880 lays them out, and what `stream_parse_signature` makes of them.
use rnp.Prelude.{ℕ, ◌+◌, ◌-◌, ◌^◌, ◌≤◌, ◌<◌, ◌≡◌, refl, ap, ◌∙◌, arith, Bool, true, false}
use rnp.Prelude.{List, ◌∷◌, ◌++◌, length, append_assoc, length-append}
use rnp.Prelude.{le→ltb}
use mathlib.Core.Path.{subst}
use rnp.Errors.{read_error}
use rnp.Packet.Input.{SourceOps, IsSource, At, Gives}
use rnp.Packet.Input.Rules.{bind-Gives, or_fail-Gives, read_front-Hits}
use rnp.Packet.Body.Build.{packet}
use rnp.Packet.Body.Read.{packet-Hits, length-packet, header_size}
use rnp.Packet.Signature.{Signature, zeroed}
use rnp.Packet.Signature.Subpkts.Written.{Raw, AllRaw, region, all_accepted, with_subpkts}
use rnp.Packet.Signature.Subpkts.Loop.{signature_parse_subpackets-region}
use rnp.Packet.Signature.Parse.{v4_fields, add_subpkts, read_unhashed}
use rnp.Packet.Signature.Parse.{
  read_hashed, signature_read_v4, read_version, signature_of_len, stream_parse_signature,
}
use rnp.Packet.Signature.Material.{material_content, signature_of_len-Gives}
use rnp.Packet.Signature.Content.{
  sig_tag, SigV4, IsSigV4, be16, v4_front, v4_body, v4_content, v4_begun, v4_read,
}
use rnp.Packet.Signature.Content.{v4_signature, read_uint16-be16, material-length}

module _ {S : Type 0} (ops : SourceOps S) (pending : S → List ℕ) (IsReady : S → Type 0)
    (source : IsSource ops pending IsReady) (memory : (n : ℕ) → ops.alloc n ≡ true) where
  add_subpkts-Gives :
      (hashed : Bool) (sig : Signature) (rs : List Raw) (xs : List ℕ) (r : ℕ) (s : S)
      → AllRaw rs
      → all_accepted hashed rs ≡ true
      → At ops pending IsReady s xs r
      → Gives ops pending IsReady
          (add_subpkts ops hashed sig (region rs) s)
          (with_subpkts hashed sig rs)
          xs
          r
  unfolding add_subpkts
  add_subpkts-Gives hashed sig rs xs r s v ok h =
      (s, rw (signature_parse_subpackets-region ops.alloc memory hashed rs sig v, ok), h)

  read_unhashed-Gives :
      (sig : Signature) (rs : List Raw) (len : ℕ) (more : List ℕ) (r : ℕ) (s : S)
      → AllRaw rs
      → all_accepted false rs ≡ true
      → length (region rs) ≤ len
      → At ops pending IsReady s (region rs ++ more) r
      → Gives ops pending IsReady
          (read_unhashed ops sig len (length (region rs)) s)
          (with_subpkts false sig rs)
          more
          (r + length (region rs))
  unfolding read_unhashed
  read_unhashed-Gives sig rs len more r s v ok room h =
      rw (le→ltb len (length (region rs)) room, memory (length (region rs)))
        (bind-Gives ops pending IsReady _ _
          (or_fail-Gives ops pending IsReady read_error (
            read_front-Hits ops pending IsReady source (length (region rs)) (region rs) more refl
              h))
          (λ s1 h1. add_subpkts-Gives false sig rs more (r + length (region rs)) s1 v ok h1))

  signature_read_v4-Gives :
      (k : SigV4) (len : ℕ) (more : List ℕ) (r : ℕ) (s : S)
      → IsSigV4 k
      → length (v4_body k) ≤ len
      → At ops pending IsReady s (v4_body k ++ more) r
      → Gives ops pending IsReady
          (signature_read_v4 ops (record zeroed { version = 4 }) len s)
          (v4_read k)
          more
          (r + length (v4_body k))
  unfolding signature_read_v4 read_hashed v4_fields
  signature_read_v4-Gives k len more r s v room h = rw (le→ltb len 5 (omega (arith, room, size))) (
      bind-Gives ops pending IsReady _ _
        (or_fail-Gives ops pending IsReady read_error
          (read_front-Hits ops pending IsReady source 5 (v4_front k) (rest ++ more) refl h))
        (λ s1 h1.
          rw
            (
              read_uint16-be16 nh,
              le→ltb (len - 5) (nh + 2) (omega (arith, room, size)),
              memory (nh + 6),
            )
            (bind-Gives ops pending IsReady _ _
              (or_fail-Gives ops pending IsReady read_error (
                read_front-Hits ops pending IsReady source nh (region k.hashed)
                  (be16 nu ++ (region k.unhashed ++ more)) refl
                  (rw (append_assoc (region k.hashed) (be16 nu ++ region k.unhashed) more) at h1)))
              (λ s2 h2.
                bind-Gives ops pending IsReady _ _
                  (add_subpkts-Gives true base k.hashed _ (r + 5 + nh) s2 v.hashed_raw
                    v.hashed_accepted h2)
                  (λ s3 h3.
                    bind-Gives ops pending IsReady _ _
                      (or_fail-Gives ops pending IsReady read_error (
                        read_front-Hits ops pending IsReady source 2 (be16 nu)
                          (region k.unhashed ++ more) refl h3))
                      (λ s4 h4. rw (read_uint16-be16 nu) (
                        subst
                          (λ n.
                            Gives ops pending IsReady
                              (read_unhashed ops (with_subpkts true base k.hashed)
                                (len - 5 - nh - 2) nu s4)
                              (v4_read k) more n)
                          total
                          (read_unhashed-Gives (with_subpkts true base k.hashed) k.unhashed
                            (len - 5 - nh - 2) more (r + 5 + nh + 2) s4 v.unhashed_raw
                            v.unhashed_accepted (omega (arith, room, size)) h4))))))))
    where
      nh : ℕ
      nh = length (region k.hashed)

      nu : ℕ
      nu = length (region k.unhashed)

      rest : List ℕ
      rest = region k.hashed ++ (be16 nu ++ region k.unhashed)

      base : Signature
      base = v4_begun k

      size : length (v4_body k) ≡ 5 + nh + 2 + nu
      size = omega (arith, length-append {0} (region k.hashed) (be16 nu ++ region k.unhashed))

      total : r + 5 + nh + 2 + nu ≡ r + length (v4_body k)
      total = omega (arith, size)

  -- `stream_parse_signature` reads the packet of a version 4 signature whose subpackets are accepted:
  -- it gives all fields, both regions of subpackets parsed and in order, the hashed data, the left
  -- bits and the numbers, and leaves what follows the packet. The algorithm is one that the reader
  -- knows (RSA, DSA, Elgamal encrypt-or-sign, EdDSA, ECDSA, SM2, ECDH), the numbers have 1 to 2048 bytes and no leading zeros, a region has less than 2^16 bytes,
  -- there are two left bits, and the allocations succeed.
  pub stream_parse_signature-v4 :
      (k : SigV4) (rest : List ℕ) (r : ℕ) (s : S)
      → IsSigV4 k
      → At ops pending IsReady s (packet sig_tag (v4_content k) ++ rest) r
      → Gives ops pending IsReady
          (stream_parse_signature ops s)
          (v4_signature k)
          rest
          (r + length (packet sig_tag (v4_content k)))
  unfolding stream_parse_signature read_version
  stream_parse_signature-v4 k rest r s v h =
      bind-Gives ops pending IsReady _ _
        (or_fail-Gives ops pending IsReady read_error (
          packet-Hits ops pending IsReady source sig_tag n (v4_content k) rest r s (omega arith)
            size (omega (arith, bounds)) h))
        (λ s1 h1. rw (le→ltb n 1 (omega arith)) (
          subst (λ m. Gives ops pending IsReady (signature_of_len ops n s1) (v4_signature k) rest m)
            total
            (signature_of_len-Gives ops pending IsReady source 4 (v4_body k) k.lbits k.material
              (v4_read k) n rest (r + header_size n) s1 refl (omega (arith, bounds)) v.fits
              v.two_bytes
              (λ s2 more h2. signature_read_v4-Gives k (n - 1) more _ s2 v (omega arith) h2)
              (subst (λ l. At ops pending IsReady s1 (4 ∷ l) (r + header_size n)) parts h1))))
    where
      n : ℕ
      n = 1 + length (v4_body k) + 2 + length (material_content k.material)

      parts :
          (v4_body k ++ (k.lbits ++ material_content k.material)) ++ rest
          ≡ v4_body k ++ (k.lbits ++ (material_content k.material ++ rest))
      parts =
          append_assoc (v4_body k) (k.lbits ++ material_content k.material) rest
          ∙ ap (λ l. v4_body k ++ l) (append_assoc k.lbits (material_content k.material) rest)

      bounds : n < 2 ^ 32
      bounds = omega (
        arith,
        material-length k.palg k.material v.fits,
        v.hashed_size,
        v.unhashed_size,
        length-append {0} (region k.hashed)
            (be16 (length (region k.unhashed)) ++ region k.unhashed),
      )

      size : length (v4_content k) ≡ n
      size = omega (
        arith,
        v.two_bytes,
        length-append {0} (v4_body k) (k.lbits ++ material_content k.material),
        length-append {0} k.lbits (material_content k.material),
      )

      total : r + header_size n + n ≡ r + length (packet sig_tag (v4_content k))
      total =
          omega (arith, length-packet sig_tag (v4_content k), ap (λ m. header_size m) size, size)
