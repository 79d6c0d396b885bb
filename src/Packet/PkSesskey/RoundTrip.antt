-- ===== src/Packet/PkSesskey/RoundTrip.antt =====
-- Public-key encrypted session keys are read back as they were written.
use rnp.Prelude.{ℕ, suc, ◌+◌, ◌-◌, ◌≤◌, ◌≡◌, refl, ap, inr, true, arith}
use rnp.Prelude.{◌||◌, false, List, [], ◌∷◌, ◌++◌, length, get_or, ltb}
use rnp.Prelude.{append_assoc, length-append, le→ltb, eq→==, take-append_exact}
use rnp.Prelude.{get_or-append_exact}
use mathlib.Core.Path.{subst}
use rnp.Errors.{read_error, bad_format}
use rnp.Stream.Source.{sub64}
use rnp.Packet.Input.{SourceOps, IsSource, At, Gives}
use rnp.Packet.Input.Rules.{bind-Gives, or_fail-Gives, read_front-Hits}
use rnp.Packet.Body.Build.{packet}
use rnp.Packet.Body.Read.{packet-Hits, length-packet, header_size}
use rnp.Packet.PkSesskey.{PkSesskey, PkParams, rsa, eg, sm2, ecdh, pk_tag}
use rnp.Packet.PkSesskey.Parse.{pk_sesskey, is_positive, finish, read_eg, read_wrapped, read_ecdh}
use rnp.Packet.PkSesskey.Parse.{read_params, read_pk_fields, pk_of_len, stream_parse_pk_sesskey}
use rnp.Packet.PkSesskey.Content.{IsMpi, Fits, IsPkSesskey, mpi_content, params_content, pk_front}
use rnp.Packet.PkSesskey.Content.{pk_content, length-mpi_content, mpi-Hits}
use rnp.Packet.PkSesskey.Content.{
  first_mpi, other_params, params_content-first_mpi, first_mpi-IsMpi,
}
use rnp.Packet.PkSesskey.Content.{IsMpi-length, other_params-length}

-- The first ten bytes of the body are read as they were written.
pk_sesskey-front : (k : PkSesskey) → IsPkSesskey k → pk_sesskey (pk_front k) k.params ≡ k
unfolding pk_sesskey
pk_sesskey-front k v = simp (
  take-append_exact 8 k.key_id (k.alg ∷ []) v.id_size,
  get_or-append_exact 8 k.key_id [] k.alg 0 v.id_size,
)

module _ {S : Type 0} (ops : SourceOps S) (pending : S → List ℕ) (IsReady : S → Type 0)
    (source : IsSource ops pending IsReady) where
  -- The packet is used up.
  finish-Gives :
      (k : PkSesskey) (len r : ℕ) (rest : List ℕ) (s : S)
      → is_positive len ≡ false
      → At ops pending IsReady s rest r
      → Gives ops pending IsReady (finish len k s) k rest r
  unfolding finish
  finish-Gives k len r rest s used h = (s, rw used, h)

  read_eg-Gives :
      (buf g m rest : List ℕ) (r : ℕ) (s : S)
      → IsMpi m
      → length m ≤ 2048
      → At ops pending IsReady s (mpi_content m ++ rest) r
      → Gives ops pending IsReady
          (read_eg ops (2 + length m) buf g s)
          (pk_sesskey buf (eg g m))
          rest
          (r + (2 + length m))
  unfolding read_eg
  read_eg-Gives buf g m rest r s v small h =
      bind-Gives ops pending IsReady _ _
        (or_fail-Gives ops pending IsReady bad_format
          (mpi-Hits ops pending IsReady source (2 + length m) m rest r s v (inr (omega arith)) h))
        (λ s' h'.
          finish-Gives (pk_sesskey buf (eg g m)) (sub64 (2 + length m) (length m + 2)) _ rest s'
            (ground arith) h')

  read_ecdh-Gives :
      (buf p m rest : List ℕ) (r : ℕ) (s : S)
      → length m ≤ 48
      → At ops pending IsReady s ((length m ∷ m) ++ rest) r
      → Gives ops pending IsReady
          (read_ecdh ops (suc (length m)) buf p s)
          (pk_sesskey buf (ecdh p m))
          rest
          (r + suc (length m))
  unfolding read_ecdh read_wrapped
  read_ecdh-Gives buf p m rest r s small h =
      rw (positive, one_less)
        (bind-Gives ops pending IsReady _ _
          (or_fail-Gives ops pending IsReady read_error
            (read_front-Hits ops pending IsReady source 1 (length m ∷ []) (m ++ rest) refl h))
          (λ s1 h1. rw fits (
            bind-Gives ops pending IsReady _ _
              (or_fail-Gives ops pending IsReady read_error
                (read_front-Hits ops pending IsReady source (length m) m rest refl h1))
              (λ s2 h2.
                finish-Gives (pk_sesskey buf (ecdh p m)) (length m - length m) _ rest s2
                  (ground arith)
                  (subst (λ n. At ops pending IsReady s2 rest n) (omega arith) h2)))))
    where
      positive : is_positive (suc (length m)) ≡ true
      positive = ground arith

      one_less : suc (length m) - 1 ≡ length m
      one_less = omega arith

      fits : (ltb 48 (length m) || ltb (length m) (length m)) ≡ false
      fits = ground arith

  -- What comes behind the first number is read for the algorithm that the parameters fit.
  read_params-Gives :
      (alg : ℕ) (buf : List ℕ) (p : PkParams) (rest : List ℕ) (r : ℕ) (s : S)
      → get_or buf 9 0 ≡ alg
      → Fits alg p
      → At ops pending IsReady s (other_params p ++ rest) r
      → Gives ops pending IsReady
          (read_params ops (length (other_params p)) buf (first_mpi p) s)
          (pk_sesskey buf p)
          rest
          (r + length (other_params p))
  unfolding read_params
  read_params-Gives alg buf (rsa m) rest r s e v h =
      rw (e, v.0)
        (finish-Gives (pk_sesskey buf (rsa m)) 0 (r + 0) rest s refl
          (subst (λ n. At ops pending IsReady s rest n) (omega arith) h))
  read_params-Gives alg buf (eg g m) rest r s e v h =
      rw (e, v.0, length-mpi_content m) (read_eg-Gives buf g m rest r s v.2 (IsMpi-length m v.2) h)
  read_params-Gives alg buf (sm2 m) rest r s e v h =
      rw (e, v.0)
        (finish-Gives (pk_sesskey buf (sm2 m)) 0 (r + 0) rest s refl
          (subst (λ n. At ops pending IsReady s rest n) (omega arith) h))
  read_params-Gives alg buf (ecdh p m) rest r s e v h =
      rw (e, v.0) (read_ecdh-Gives buf p m rest r s v.2 h)

  abbrev others : PkSesskey → ℕ
  others k = length (other_params k.params)

  abbrev first : PkSesskey → ℕ
  first k = length (first_mpi k.params)

  -- The packet of a version 3 session key is read back as it was written, and the source is left at
  -- what follows it. The key id has 8 bytes, the algorithm is RSA, Elgamal, SM2 or ECDH, with its
  -- parameters, the numbers have 1 to 2048 bytes and no leading zeros, and the key that ECDH wraps
  -- has 48 bytes at most.
  pub stream_parse_pk_sesskey-packet :
      (k : PkSesskey) (rest : List ℕ) (r : ℕ) (s : S)
      → IsPkSesskey k
      → At ops pending IsReady s (packet pk_tag (pk_content k) ++ rest) r
      → Gives ops pending IsReady
          (stream_parse_pk_sesskey ops s)
          k
          rest
          (r + length (packet pk_tag (pk_content k)))
  unfolding stream_parse_pk_sesskey pk_of_len read_pk_fields
  stream_parse_pk_sesskey-packet k rest r s v h =
      bind-Gives ops pending IsReady _ _
        (or_fail-Gives ops pending IsReady read_error (
          packet-Hits ops pending IsReady source pk_tag n (pk_content k) rest r s (omega arith) size
            (omega (arith, first_small, others_small)) h))
        (λ s1 h1. rw (le→ltb n 10 (omega arith)) (
          bind-Gives ops pending IsReady _ _
            (or_fail-Gives ops pending IsReady read_error (
              read_front-Hits ops pending IsReady source 10 (pk_front k)
                (params_content k.params ++ rest) front_size (rw (append_assoc) at h1)))
            (λ s2 h2.
              rw (eq→== k.version 3 v.is_v3, ten_less)
                (bind-Gives ops pending IsReady _ _
                  (or_fail-Gives ops pending IsReady bad_format (
                    mpi-Hits ops pending IsReady source (first k + 2 + others k)
                      (first_mpi k.params) (other_params k.params ++ rest) (r + header_size n + 10)
                      s2 (first_mpi-IsMpi k.alg k.params v.fits) (inr (omega arith))
                      (rw (params_content-first_mpi k.params, append_assoc) at h2)))
                  (λ s3 h3. rw two_less (
                    subst
                      (λ m.
                        Gives ops pending IsReady
                          (read_params ops (others k) (pk_front k) (first_mpi k.params) s3) k rest
                          m)
                      total
                      (subst
                        (λ k'.
                          Gives ops pending IsReady
                            (read_params ops (others k) (pk_front k) (first_mpi k.params) s3) k'
                            rest (r + header_size n + 10 + (2 + first k) + others k))
                        (pk_sesskey-front k v)
                        (read_params-Gives k.alg (pk_front k) k.params rest _ s3
                          (get_or-append_exact 8 k.key_id [] k.alg 0 v.id_size) v.fits h3))))))))
    where
      n : ℕ
      n = 10 + (first k + 2 + others k)

      first_small : first k ≤ 2048
      first_small = IsMpi-length (first_mpi k.params) (first_mpi-IsMpi k.alg k.params v.fits)

      others_small : others k ≤ 2050
      others_small = other_params-length k.alg k.params v.fits

      front_size : length (pk_front k) ≡ 10
      front_size = omega (arith, length-append {0} k.key_id (k.alg ∷ []), v.id_size)

      params_size : length (params_content k.params) ≡ first k + 2 + others k
      params_size = rw (params_content-first_mpi k.params) (
          omega (
            arith,
            length-append {0} (mpi_content (first_mpi k.params)) (other_params k.params),
            length-mpi_content (first_mpi k.params),
          ))

      size : length (pk_content k) ≡ n
      size =
          omega (
            arith,
            length-append {0} (pk_front k) (params_content k.params),
            front_size,
            params_size,
          )

      ten_less : sub64 n 10 ≡ first k + 2 + others k
      ten_less = omega (arith, first_small, others_small)

      two_less : sub64 (first k + 2 + others k) (first k + 2) ≡ others k
      two_less = omega (arith, first_small, others_small)

      total :
          r + header_size n + 10 + (2 + first k) + others k
          ≡ r + length (packet pk_tag (pk_content k))
      total = omega (arith, length-packet pk_tag (pk_content k), ap (λ m. header_size m) size, size)
