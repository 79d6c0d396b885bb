-- ===== src/Write/Packet.antt =====
-- The header of a streamed packet, of src/librepgp/stream-write.c, and the end of the packet.
-- `dst_write` and `werr` are what the code uses of the destination below.
pub mod Sent
use rnp.Prelude.{ℕ, ◌*◌, bit_and, bit_or, Bool, true, false, Option, none, some, List, [], ◌∷◌}
use rnp.Prelude.{if◌then◌else◌}
use rnp.Errors.{RnpResult, success}
use rnp.Stream.Dest.{Dest, dst_finish, dst_close}
use rnp.Packet.Length.{always_set, new_format}
use rnp.Write.Partial.{PartialDest, init_partial_pkt_dst, partial_dst_write, partial_dst_finish}

-- `writedst` of a packet: not set, the destination below, or one for its parts above that
-- destination.
pub data WriteDest (D : Type 0) : Type 0 where
  unset : D → WriteDest D
  below : D → WriteDest D
  parts : Dest (PartialDest D) → WriteDest D

-- `pgp_dest_packet_param_t`; `origdst` is the destination within `writedst`.
pub record PacketDest (D : Type 0) : Type 0 where
  pub writedst : WriteDest D
  pub partial : Bool
  pub indeterminate : Bool
  pub tag : ℕ

module _ {D : Type 0} (dst_write : D → List ℕ → D) where
  -- A packet whose destination for parts was made, or not.
  pub open_parts : PacketDest D → D → Option (Dest (PartialDest D)) → Bool × PacketDest D
  open_parts param dst none = (false, record param { writedst = unset dst })
  open_parts param dst (some partdst) = (true, record param { writedst = parts partdst })

  -- `init_streamed_packet`. `calloc` says whether the destination for the parts is allocated, and
  -- `memory` whether its parameters are.
  pub init_streamed_packet : Bool → Bool → PacketDest D → D → Bool × PacketDest D
  unfolding open_parts
  init_streamed_packet calloc memory param dst =
      let new = dst_write dst (bit_or (bit_or param.tag always_set) new_format ∷ []) in
      let old = dst_write dst (bit_or (bit_and param.tag 0xf * 4) 0x03 ∷ []) in
      if param.partial
      then (if calloc
          then open_parts param new (init_partial_pkt_dst memory new)
          else (false, record param { writedst = unset new }))
      else if param.indeterminate
      then (true, record param { writedst = below old })
      else (false, param)

  -- `finish_streamed_packet`
  pub finish_streamed_packet : (D → RnpResult) → WriteDest D → Bool → RnpResult × WriteDest D
  finish_streamed_packet werr (parts dst) true =
      let (res, dst') =
        dst_finish (partial_dst_write dst_write) (some (partial_dst_finish dst_write werr)) dst in
      (res, parts dst')
  finish_streamed_packet werr writedst partial = (success, writedst)
