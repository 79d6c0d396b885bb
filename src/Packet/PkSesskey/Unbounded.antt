-- ===== src/Packet/PkSesskey/Unbounded.antt =====
-- What `stream_parse_pk_sesskey` does with a packet that ends in front of its first number.
use rnp.Prelude.{
  ℕ, ◌+◌, ◌≡◌, refl, ap, false, inl, arith, take-append_exact, List, [], ◌∷◌, ◌++◌, length,
  length-append,
}
use rnp.Prelude.{get_or-append_exact, get_or}
use rnp.Errors.{read_error, bad_format, done}
use rnp.Stream.Source.{sub64}
use rnp.Packet.Alg
use rnp.Packet.Input.{SourceOps, IsSource, At, Gives}
use rnp.Packet.Input.Rules.{bind-Gives, or_fail-Gives, read_front-Hits}
use rnp.Packet.Body.Build.{packet}
use rnp.Packet.Body.Read.{packet-Hits, header_size}
use rnp.Packet.PkSesskey.{PkSesskey, rsa, pk_tag}
use rnp.Packet.PkSesskey.Parse.{
  pk_sesskey, finish, is_positive, read_params, read_pk_fields, pk_of_len,
}
use rnp.Packet.PkSesskey.Parse.{stream_parse_pk_sesskey}
use rnp.Packet.PkSesskey.Content.{IsMpi, IsMpi-length, mpi_content, pk_front, mpi-Hits}

-- An RSA session key.
abbrev pub rsa_key : List ℕ → List ℕ → PkSesskey
rsa_key id m = record { version = 3; key_id = id; alg = Alg.rsa; params = rsa m }

rsa_key-front :
    (id m : List ℕ) → length id ≡ 8 → pk_sesskey (pk_front (rsa_key id m)) (rsa m) ≡ rsa_key id m
unfolding pk_sesskey
rsa_key-front id m size =
    simp (take-append_exact 8 id (1 ∷ []) size, get_or-append_exact 8 id [] 1 0 size) refl

module _ {S : Type 0} (ops : SourceOps S) (pending : S → List ℕ) (IsReady : S → Type 0)
    (source : IsSource ops pending IsReady) where
  -- A packet of ten bytes, which ends in front of the number of its RSA key, is accepted:
  -- `stream_parse_pk_sesskey` reads the number from the bytes that follow the packet.
  pub stream_parse_pk_sesskey-beyond :
      (id m rest : List ℕ) (r : ℕ) (s : S)
      → length id ≡ 8
      → IsMpi m
      → At ops pending IsReady s
          (packet pk_tag (pk_front (rsa_key id m)) ++ (mpi_content m ++ rest))
          r
      → Gives ops pending IsReady
          (stream_parse_pk_sesskey ops s)
          (rsa_key id m)
          rest
          (r + header_size 10 + 10 + (2 + length m))
  unfolding stream_parse_pk_sesskey pk_of_len read_pk_fields read_params finish
  stream_parse_pk_sesskey-beyond id m rest r s size v h =
      bind-Gives ops pending IsReady _ _
        (or_fail-Gives ops pending IsReady read_error (
          packet-Hits ops pending IsReady source pk_tag 10 front (mpi_content m ++ rest) r s
            (omega arith) ten (omega arith) h))
        (λ s1 h1.
          bind-Gives ops pending IsReady _ _
            (or_fail-Gives ops pending IsReady read_error
              (read_front-Hits ops pending IsReady source 10 front (mpi_content m ++ rest) ten h1))
            (λ s2 h2.
              bind-Gives ops pending IsReady _ _
                (or_fail-Gives ops pending IsReady bad_format (
                  mpi-Hits ops pending IsReady source 0 m rest (r + header_size 10 + 10) s2 v
                    (inl refl) h2))
                (λ s3 h3.
                  rw (alg, negative) (s3, ap (λ k. done k s3) (rsa_key-front id m size), h3))))
    where
      front : List ℕ
      front = pk_front (rsa_key id m)

      ten : length front ≡ 10
      ten = omega (arith, size, length-append {0} id (1 ∷ []))

      alg : get_or front 9 0 ≡ 1
      alg = get_or-append_exact 8 id [] 1 0 size

      negative : is_positive (sub64 0 (length m + 2)) ≡ false
      negative = ground (arith, IsMpi-length m v)
