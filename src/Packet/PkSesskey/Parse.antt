-- ===== src/Packet/PkSesskey/Parse.antt =====
-- `stream_parse_pk_sesskey` of src/librepgp/stream-packet.c.
-- `len`, the `ssize_t` of what is left of the packet, is its 64-bit pattern: the subtractions wrap,
-- and `stream_read_mpi` takes the pattern as a `size_t`.
use rnp.Prelude.{ℕ, ◌+◌, ◌-◌, ◌^◌, ◌||◌, ◌&&◌, Bool, List, length, take, drop, get_or, ltb, ◌==◌}
use rnp.Prelude.{if◌then◌else◌}
use rnp.Errors.{bad_format, read_error, Parsed, fail, done}
use rnp.Stream.Source.{sub64}
use rnp.Packet.Alg
use rnp.Packet.Input.{SourceOps, read_exactly, or_fail, ◌>>=◌}
use rnp.Packet.Length.{stream_read_pkt_len}
use rnp.Packet.Mpi.{stream_read_mpi}
use rnp.Packet.PkSesskey.{PkSesskey, PkParams, rsa, eg, sm2, ecdh}

-- `ECDH_WRAPPED_KEY_SIZE`
abbrev pub wrapped_key_size : ℕ
wrapped_key_size = 48

-- The structure that is filled from the first ten bytes of the body, in `buf`, and from `params`.
unfoldable pub pk_sesskey : List ℕ → PkParams → PkSesskey
pk_sesskey buf params = record {
  version = get_or buf 0 0;
  key_id = take 8 (drop 1 buf);
  alg = get_or buf 9 0;
  params = params;
}

-- `len > 0` for the 64-bit pattern of an `ssize_t`.
abbrev pub is_positive : ℕ → Bool
is_positive len = ltb 0 len && ltb len (2 ^ 63)

-- The end of `stream_parse_pk_sesskey`.
unfoldable pub finish : {S : Type 0} → ℕ → PkSesskey → S → Parsed S PkSesskey
finish len pkey s = if is_positive len then fail bad_format s else done pkey s

module _ {S : Type 0} (ops : SourceOps S) where
  unfoldable pub read_eg : ℕ → List ℕ → List ℕ → S → Parsed S PkSesskey
  read_eg len buf g = do
    m ← (λ s. or_fail bad_format (stream_read_mpi ops len s))
    finish (sub64 len (length m + 2)) (pk_sesskey buf (eg g m))

  -- `mlen` is the byte in front of the wrapped key, and `len` what is left behind it.
  unfoldable pub read_wrapped : ℕ → List ℕ → List ℕ → ℕ → S → Parsed S PkSesskey
  read_wrapped len buf p mlen s =
      if ltb wrapped_key_size mlen || ltb len mlen
      then fail bad_format s
      else (do
        m ← (λ s. or_fail read_error (read_exactly ops mlen s))
        finish (len - mlen) (pk_sesskey buf (ecdh p m)))
          s

  unfoldable pub read_ecdh : ℕ → List ℕ → List ℕ → S → Parsed S PkSesskey
  read_ecdh len buf p s =
      if is_positive len
      then (do
        size ← (λ s. or_fail read_error (read_exactly ops 1 s))
        read_wrapped (len - 1) buf p (get_or size 0 0))
          s
      else fail read_error s

  -- `switch (pkey->alg)`, after the MPI that all algorithms begin with.
  unfoldable pub read_params : ℕ → List ℕ → List ℕ → S → Parsed S PkSesskey
  read_params len buf mpi s =
      let alg = get_or buf 9 0 in
      if alg == Alg.rsa
      then finish len (pk_sesskey buf (rsa mpi)) s
      else if alg == Alg.elgamal
      then read_eg len buf mpi s
      else if alg == Alg.sm2
      then finish len (pk_sesskey buf (sm2 mpi)) s
      else if alg == Alg.ecdh
      then read_ecdh len buf mpi s
      else fail bad_format s

  -- The ten bytes that every packet of this kind begins with.
  unfoldable pub read_pk_fields : ℕ → List ℕ → S → Parsed S PkSesskey
  read_pk_fields len buf s =
      if get_or buf 0 0 == 3
      then (do
        mpi ← (λ s. or_fail bad_format (stream_read_mpi ops (sub64 len 10) s))
        read_params (sub64 (sub64 len 10) (length mpi + 2)) buf mpi)
          s
      else fail bad_format s

  unfoldable pub pk_of_len : ℕ → S → Parsed S PkSesskey
  pk_of_len len s =
      if ltb len 10
      then fail bad_format s
      else (do buf ← (λ s. or_fail read_error (read_exactly ops 10 s)); read_pk_fields len buf) s

  unfoldable pub stream_parse_pk_sesskey : S → Parsed S PkSesskey
  stream_parse_pk_sesskey = do
    len ← (λ s. or_fail read_error (stream_read_pkt_len ops s))
    pk_of_len len
