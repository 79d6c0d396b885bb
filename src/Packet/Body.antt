-- ===== src/Packet/Body.antt =====
-- Packet bodies of src/librepgp/stream-packet.c: built up in memory, then written with a header.
-- `none` stands for `false`: an allocation failed, and every caller frees the body.
pub mod Build
pub mod Read
pub mod Whole
use rnp.Prelude.{ℕ, zero, suc, ◌+◌, ◌-◌, ◌*◌, ◌/◌, ◌%◌, ◌^◌, bit_or, Bool, Option, none, some}
use rnp.Prelude.{List, [], ◌∷◌, ◌++◌, length, get_or, ltb, ◌==◌, if◌then◌else◌}
use rnp.Packet.Length.{always_set, new_format, write_packet_len}

-- `pgp_packet_body_t`; its `len` is the length of `content`, which is `data[0 .. len)`.
pub record Body : Type 0 where
  pub tag : ℕ
  pub content : List ℕ
  pub allocated : ℕ

infixl 5 ◌>>=◌
unfoldable pub ◌>>=◌ : Option Body → (Body → Option Body) → Option Body
none >>= f = none
some b >>= f = f b

-- The cast to `uint8_t` of an argument.
abbrev pub u8 : ℕ → ℕ
u8 n = n % 2 ^ 8

-- `while ((idx < len - 1) && (mpi[idx] == 0))`: the last byte stays. Callers give a byte at least.
unfoldable pub skip_zeros : List ℕ → List ℕ
skip_zeros [] = []
skip_zeros (b ∷ []) = b ∷ []
skip_zeros (b ∷ c ∷ bs) = let rest = skip_zeros (c ∷ bs) in if b == 0 then rest else b ∷ c ∷ bs

-- `while (hibyte > 0)`: a byte has at most eight bits, so eight rounds are enough.
unfoldable pub count_bits : ℕ → ℕ → ℕ → ℕ
count_bits zero bits hibyte = bits
count_bits (suc fuel) bits hibyte =
    let more = count_bits fuel (bits + 1) (hibyte / 2) in if ltb 0 hibyte then more else bits

-- The two header bytes of an MPI with these bytes, the leading zeros skipped.
unfoldable pub mpi_header : List ℕ → List ℕ
mpi_header mpi =
    let bits = count_bits 8 ((length mpi - 1) * 2 ^ 3) (get_or mpi 0 0) in
    u8 (bits / 2 ^ 8) ∷ (bits % 256) ∷ []

-- The header that `stream_flush_packet_body` puts in front of a body.
pub body_header : Body → List ℕ
body_header body =
    u8 (bit_or (bit_or body.tag always_set) new_format) ∷ write_packet_len (length body.content)

module _ (alloc : ℕ → Bool) where
  pub init_packet_body : ℕ → Option Body
  init_packet_body tag =
      if alloc 16 then some (record { tag = tag; content = []; allocated = 16 }) else none

  pub add_packet_body : Body → List ℕ → Option Body
  add_packet_body body bytes =
      let newlen = (length body.content + length bytes) * 2 in
      if ltb body.allocated (length body.content + length bytes)
      then (if alloc newlen
          then some (record body { content = body.content ++ bytes; allocated = newlen })
          else none)
      else some (record body { content = body.content ++ bytes })

  pub add_packet_body_byte : Body → ℕ → Option Body
  unfolding add_packet_body
  add_packet_body_byte body byte =
      if ltb (length body.content) body.allocated
      then some (record body { content = body.content ++ (u8 byte ∷ []) })
      else add_packet_body body (u8 byte ∷ [])

  pub add_packet_body_mpi : Body → List ℕ → Option Body
  unfolding add_packet_body skip_zeros
  add_packet_body_mpi body mpi = do
    body ← add_packet_body body (mpi_header (skip_zeros mpi))
    add_packet_body body (skip_zeros mpi)

module _ {D : Type 0} (dst_write : D → List ℕ → D) where
  pub stream_flush_packet_body : Body → D → D
  stream_flush_packet_body body dst = dst_write (dst_write dst (body_header body)) body.content

  -- The end of the `stream_write_*` functions: the body is written, or nothing is.
  pub flush_or_free : Option Body → D → Bool × D
  unfolding stream_flush_packet_body
  flush_or_free none dst = (Bool.false, dst)
  flush_or_free (some body) dst = (Bool.true, stream_flush_packet_body body dst)
