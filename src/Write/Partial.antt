-- ===== src/Write/Partial.antt =====
-- The destination for packets of partial lengths of src/librepgp/stream-write.c.
-- `D` is the destination below, and `dst_write` and `werr` are what the code uses of it. The `param`
-- of an initialised destination is not NULL.
pub mod Parts
pub mod Written
use rnp.Prelude.{
  ℕ, zero, suc, ◌-◌, bit_or, Bool, false, Option, none, some, List, [], ◌∷◌, ◌++◌, length, take,
  drop,
}
use rnp.Prelude.{ltb, leb, if◌then◌else◌}
use rnp.Errors.{RnpResult, success}
use rnp.Stream.Dest.{Dest, init_dst}
use rnp.Packet.Length.{write_packet_len}

-- `PARTIAL_PKT_SIZE_BITS` and `PARTIAL_PKT_BLOCK_SIZE`
abbrev pub size_bits : ℕ
size_bits = 13

abbrev pub block_size : ℕ
block_size = 8192

-- `pgp_dest_partial_param_t`; its `len` is the length of `part`, which is `part[0 .. len)`.
pub record PartialDest (D : Type 0) : Type 0 where
  pub writedst : D
  pub part : List ℕ
  pub parthdr : ℕ
  pub partlen : ℕ

-- `init_partial_pkt_dst`; `memory` says whether the parameters are allocated, and `none` is the
-- error that they are not.
pub init_partial_pkt_dst : {D : Type 0} → Bool → D → Option (Dest (PartialDest D))
unfolding init_dst
init_partial_pkt_dst {D} memory writedst =
    let param : PartialDest D = record {
      writedst = writedst;
      part = [];
      parthdr = bit_or 0xE0 size_bits;
      partlen = block_size;
    } in
    if memory then some (init_dst param false) else none

module _ {D : Type 0} (dst_write : D → List ℕ → D) where
  -- The part that is cached, with the bytes that fill it, and its header.
  pub write_part : PartialDest D → List ℕ → PartialDest D
  write_part param buf =
      let hdr = dst_write param.writedst (param.parthdr ∷ []) in
      record param { writedst = dst_write (dst_write hdr param.part) buf; part = [] }

  -- A part that is wholly in the caller's buffer.
  pub write_full : PartialDest D → List ℕ → PartialDest D
  write_full param buf =
      let hdr = dst_write param.writedst (param.parthdr ∷ []) in
      record param { writedst = dst_write hdr buf }

  -- `while (len >= param->partlen)`. A round takes a part, so `length buf` rounds are enough.
  pub full_parts : ℕ → PartialDest D → List ℕ → PartialDest D × List ℕ
  full_parts zero param buf = (param, buf)
  full_parts (suc fuel) param buf =
      let again =
        full_parts fuel (write_full param (take param.partlen buf)) (drop param.partlen buf) in
      if leb param.partlen (length buf) then again else (param, buf)

  -- `memcpy(&param->part[param->len], buf, len)`
  pub cache_rest : PartialDest D → List ℕ → PartialDest D
  cache_rest param buf = record param { part = param.part ++ buf }

  -- The `write` callback.
  pub partial_dst_write : PartialDest D → ℕ → List ℕ → RnpResult × PartialDest D
  unfolding full_parts write_part write_full cache_rest
  partial_dst_write param writeb buf =
      let wrlen = param.partlen - length param.part in
      if ltb wrlen (length buf)
      then (let (param', rest) =
            full_parts (length buf) (write_part param (take wrlen buf)) (drop wrlen buf) in
          (success, cache_rest param' rest))
      else (success, cache_rest param buf)

  -- The `finish` callback: the last part, with its whole length.
  pub partial_dst_finish : (D → RnpResult) → Dest (PartialDest D) → RnpResult × Dest (PartialDest D)
  partial_dst_finish werr dst =
      let param = dst.param in
      let hdr = dst_write param.writedst (write_packet_len (length param.part)) in
      let writedst = dst_write hdr param.part in
      (werr writedst, record dst { param = record param { writedst = writedst } })
