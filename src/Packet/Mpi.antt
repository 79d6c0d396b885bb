-- ===== src/Packet/Mpi.antt =====
-- `stream_read_mpi` of src/librepgp/stream-packet.c.
pub mod RoundTrip
use rnp.Prelude.{ℕ, ◌+◌, ◌-◌, ◌/◌, ◌^◌, bit_and, Bool, not, ◌&&◌, ◌||◌, List, get_or, ltb, ◌==◌}
use rnp.Prelude.{if◌then◌else◌}
use rnp.Errors.{Attempt, minus_one, returned}
use rnp.Packet.Input.{SourceOps, read_exactly, and_then}
use rnp.Packet.Length.{read_uint16}

-- `PGP_MPINT_BITS` of src/lib/types.h
abbrev pub mpint_bits : ℕ
mpint_bits = 16384

-- Whether the first byte has its highest bit where a number of `bits` bits has it.
pub has_bit_count : ℕ → ℕ → Bool
has_bit_count bits byte =
    let hbits = if bit_and bits 7 == 0 then 8 else bit_and bits 7 in
    (byte / 2 ^ hbits == 0) && not (bit_and byte (2 ^ (hbits - 1)) == 0)

module _ {S : Type 0} (ops : SourceOps S) where
  -- The body of an MPI whose header says `bits`.
  pub read_mpi_body : ℕ → ℕ → S → Attempt S (List ℕ)
  read_mpi_body maxlen bits s =
      let bytes = (bits + 7) / 2 ^ 3 in
      if (bits == 0) || ltb mpint_bits bits
      then minus_one s
      else if ltb 0 maxlen && ltb (maxlen - 2) bytes
      then minus_one s
      else and_then (read_exactly ops bytes)
          (λ mpi s'. if has_bit_count bits (get_or mpi 0 0) then returned mpi s' else minus_one s')
          s

  -- A `maxlen` of 0 sets no bound.
  pub stream_read_mpi : ℕ → S → Attempt S (List ℕ)
  unfolding read_mpi_body
  stream_read_mpi maxlen s =
      if ltb 0 maxlen && ltb maxlen 2
      then minus_one s
      else and_then (read_exactly ops 2) (λ hdr. read_mpi_body maxlen (read_uint16 hdr)) s
