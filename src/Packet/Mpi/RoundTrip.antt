-- ===== src/Packet/Mpi/RoundTrip.antt =====
-- MPIs that `add_packet_body_mpi` wrote are read back by `stream_read_mpi`.
use rnp.Prelude.{ℕ, zero, suc, ◌+◌, ◌-◌, ◌*◌, ◌/◌, ◌%◌, ◌^◌, ◌≤◌, ◌<◌, bit_and, ◌≡◌, ◌≢◌, refl, ap}
use rnp.Prelude.{◌⊎◌, true, false, not, ◌&&◌, ◌||◌, arith, List, [], ◌∷◌, ◌++◌, length}
use rnp.Prelude.{ltb, leb, ◌==◌, if◌then◌else◌}
use rnp.Prelude.Bits.{holds_below, holds_below-at, bit_and_07}
use rnp.Packet.Input.{SourceOps, IsSource, At, Hits}
use rnp.Packet.Input.Rules.{and_then-Hits, read_front-Hits}
use rnp.Packet.Length.{read_uint16}
use rnp.Packet.Body.{u8, count_bits, mpi_header}
use rnp.Packet.Mpi.{has_bit_count, read_mpi_body, stream_read_mpi}

-- The number of bits of a byte.
abbrev bit_length : ℕ → ℕ
bit_length b = count_bits 8 0 b

count_bits-add : (fuel bits b : ℕ) → count_bits fuel bits b ≡ bits + count_bits fuel 0 b
unfolding count_bits
count_bits-add zero bits b = omega arith
count_bits-add (suc fuel) bits b =
    ground (arith, count_bits-add fuel (bits + 1) (b / 2), count_bits-add fuel 1 (b / 2))

-- Every byte but 0 has one to eight bits, and its highest bit is at that place.
highest_bit_table :
    holds_below
      (λ b.
        (b == 0)
        || ((b / 2 ^ count_bits 8 0 b == 0)
            && not (bit_and b (2 ^ (count_bits 8 0 b - 1)) == 0)
            && leb 1 (count_bits 8 0 b)
            && leb (count_bits 8 0 b) 8))
      256
    ≡ true
unfolding holds_below count_bits
highest_bit_table = refl

highest_bit :
    (b : ℕ)
    → b < 256
    → b ≢ 0
    → ((b / 2 ^ count_bits 8 0 b == 0) && not (bit_and b (2 ^ (count_bits 8 0 b - 1)) == 0) ≡ true)
      × (1 ≤ count_bits 8 0 b)
      × (count_bits 8 0 b ≤ 8)
highest_bit b small pos = let h = holds_below-at _ 256 b highest_bit_table small in ground arith

-- The number of bits that the header of the MPI `b ∷ bs` says.
abbrev bits_of : ℕ → List ℕ → ℕ
bits_of b bs = length bs * 8 + count_bits 8 0 b

has_bit_count_lem : (b : ℕ) (bs : List ℕ) → b < 256 → b ≢ 0 → has_bit_count (bits_of b bs) b ≡ true
unfolding has_bit_count
has_bit_count_lem b bs small pos = rw place (highest_bit b small pos).0
  where
    place :
        (if bit_and (bits_of b bs) 7 == 0 then 8 else bit_and (bits_of b bs) 7) ≡ count_bits 8 0 b
    place = rw (bit_and_07 (bits_of b bs)) (ground (arith, highest_bit b small pos))

mpi_header_lem :
    (b : ℕ) (bs : List ℕ)
    → mpi_header (b ∷ bs) ≡ u8 (bits_of b bs / 256) ∷ (bits_of b bs % 256) ∷ []
unfolding mpi_header
mpi_header_lem b bs = ap (λ (n : ℕ). u8 (n / 256) ∷ (n % 256) ∷ []) counted
  where
    counted : count_bits 8 ((suc (length bs) - 1) * 2 ^ 3) b ≡ bits_of b bs
    counted = omega (arith, count_bits-add 8 ((suc (length bs) - 1) * 2 ^ 3) b)

-- The header says the number of bits.
read_header :
    (b : ℕ) (bs : List ℕ) → bits_of b bs < 65536 → read_uint16 (mpi_header (b ∷ bs)) ≡ bits_of b bs
unfolding read_uint16
read_header b bs small = rw (mpi_header_lem b bs) (omega arith)

module _ {S : Type 0} (ops : SourceOps S) (pending : S → List ℕ) (IsReady : S → Type 0)
    (source : IsSource ops pending IsReady) where
  read_mpi_body-Hits :
      (maxlen b : ℕ) (bs rest : List ℕ) (r : ℕ) (s : S)
      → b < 256
      → b ≢ 0
      → length bs < 2048
      → (maxlen ≡ 0) ⊎ (suc (length bs) + 2 ≤ maxlen)
      → At ops pending IsReady s ((b ∷ bs) ++ rest) r
      → Hits ops pending IsReady
          (read_mpi_body ops maxlen (bits_of b bs) s)
          (b ∷ bs)
          rest
          (r + suc (length bs))
  unfolding read_mpi_body
  read_mpi_body-Hits maxlen b bs rest r s small pos short room h =
      rw (in_range, has_room, bytes)
        (and_then-Hits ops pending IsReady _ _
          (read_front-Hits ops pending IsReady source (suc (length bs)) (b ∷ bs) rest refl h)
          (λ s' h'. (s', rw (has_bit_count_lem b bs small pos), h')))
    where
      k : (1 ≤ count_bits 8 0 b) × (count_bits 8 0 b ≤ 8)
      k = let (_, lo, hi) = highest_bit b small pos in (lo, hi)

      bytes : (bits_of b bs + 7) / 2 ^ 3 ≡ suc (length bs)
      bytes = omega (arith, k)

      in_range : ((bits_of b bs == 0) || ltb 16384 (bits_of b bs)) ≡ false
      in_range = ground (arith, k)

      has_room : (ltb 0 maxlen && ltb (maxlen - 2) ((bits_of b bs + 7) / 2 ^ 3)) ≡ false
      has_room = ground (arith, k)

  -- `stream_read_mpi` reads back an MPI that was written with its bit count, if its first byte is
  -- not 0, it has 2048 bytes at most, and `maxlen` is 0 or leaves place for it and its header.
  pub stream_read_mpi-write :
      (maxlen b : ℕ) (bs rest : List ℕ) (r : ℕ) (s : S)
      → b < 256
      → b ≢ 0
      → length bs < 2048
      → (maxlen ≡ 0) ⊎ (suc (length bs) + 2 ≤ maxlen)
      → At ops pending IsReady s (mpi_header (b ∷ bs) ++ ((b ∷ bs) ++ rest)) r
      → Hits ops pending IsReady
          (stream_read_mpi ops maxlen s)
          (b ∷ bs)
          rest
          (r + 2 + suc (length bs))
  unfolding stream_read_mpi
  stream_read_mpi-write maxlen b bs rest r s small pos short room h = rw not_tiny (
      and_then-Hits ops pending IsReady _ _
        (read_front-Hits ops pending IsReady source 2 (mpi_header (b ∷ bs)) ((b ∷ bs) ++ rest)
          (rw (mpi_header_lem b bs)) h)
        (λ s' h'.
          rw (read_header b bs (omega (arith, (highest_bit b small pos).2)))
            (read_mpi_body-Hits maxlen b bs rest (r + 2) s' small pos short room h')))
    where
      not_tiny : (ltb 0 maxlen && ltb maxlen 2) ≡ false
      not_tiny = ground arith
