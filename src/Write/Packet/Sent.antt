-- ===== src/Write/Packet/Sent.antt =====
-- What a streamed packet of partial lengths sends, through the cache of its destination.
use rnp.Prelude.{ℕ, ◌+◌, ◌<◌, ◌≡◌, sym, ap, ◌∙◌, true, arith}
use rnp.Prelude.{List, [], ◌∷◌, ◌++◌}
use rnp.Prelude.{append_assoc}
use rnp.Prelude.{bit_or}
use rnp.Prelude.Bits.{bit_or_c0}
use mathlib.Core.Path.{subst}
use rnp.Errors.{RnpResult, success}
use rnp.Stream.Dest.{Dest}
use rnp.Stream.Dest.{dst_flush, dst_finish}
use rnp.Stream.Dest.Memory.Writes.{joined}
use rnp.Stream.Dest.Given.{IsStreaming, write_each, write_each-IsStreaming, dst_flush-Holds}
use rnp.Packet.Body.Build.{IsDest}
use rnp.Write.Partial.{PartialDest, partial_dst_write, partial_dst_finish}
use rnp.Write.Partial.Parts.{Parts}
use rnp.Write.Partial.Written.{IsPartial, partial_dst_write-IsPartial, partial_dst_write-success}
use rnp.Write.Partial.Written.{init_partial_pkt_dst-IsPartial, partial_dst_finish-Parts}
use rnp.Write.Packet.{parts, PacketDest, init_streamed_packet, finish_streamed_packet}
use rnp.Write.Packet.{open_parts}

module _ {D : Type 0} (write_below : D → List ℕ → D) (sent : D → List ℕ) (IsOpen : D → Type 0)
    (dest : IsDest write_below sent IsOpen) where
  pub passes :
      (start given : List ℕ) (p : PartialDest D) (n : ℕ) (bytes : List ℕ)
      → IsPartial write_below sent IsOpen dest start given p
      → ((partial_dst_write write_below p n bytes).0 ≡ success)
        × IsPartial write_below sent IsOpen dest start
            (given ++ bytes)
            (partial_dst_write write_below p n bytes).1
  passes start given p n bytes h = (
    partial_dst_write-success write_below sent IsOpen dest p n bytes,
    partial_dst_write-IsPartial write_below sent IsOpen dest start given bytes n p h,
  )

  pub init_streamed_packet-IsStreaming :
      (param : PacketDest D) (d : D)
      → param.partial ≡ true
      → param.tag < 64
      → IsOpen d
      → (dst : Dest (PartialDest D)) × (init_streamed_packet write_below true true param d
          ≡ (true, record param { writedst = parts dst }))
        × IsStreaming
            (partial_dst_write write_below)
            (IsPartial write_below sent IsOpen dest (sent d ++ ((param.tag + 192) ∷ [])))
            (passes _)
            []
            dst
  unfolding init_streamed_packet open_parts
  init_streamed_packet-IsStreaming param d partial small h =
      let header = bit_or (bit_or param.tag 0x80) 0x40 ∷ [] in
      let (e, o) = dest.write_law d header h in
      let (dst, eq, new, good, cached, empty) =
        init_partial_pkt_dst-IsPartial write_below sent IsOpen dest (write_below d header) o in
      (
        dst,
        simp (partial, eq),
        record {
          passed = [];
          good = good;
          cached = cached;
          holds =
              subst (λ l. IsPartial write_below sent IsOpen dest l [] dst.param)
                (e ∙ ap (λ b. sent d ++ (b ∷ [])) (bit_or_c0 param.tag small)) new;
          accounts = sym empty;
          room = rw empty (omega arith);
        },
      )

  -- The end of a packet whose destination was given all its bytes.
  pub finish_streamed_packet-Ends :
      (werr : D → RnpResult) (start given : List ℕ) (dst : Dest (PartialDest D))
      → IsStreaming
          (partial_dst_write write_below)
          (IsPartial write_below sent IsOpen dest start)
          (passes start)
          given
          dst
      → (end : Dest (PartialDest D)) × (wire : List ℕ) × (finish_streamed_packet write_below werr
            (parts dst)
            true
          ≡ (werr end.param.writedst, parts end))
        × (sent end.param.writedst ≡ start ++ wire)
        × Parts wire given
        × IsOpen end.param.writedst
  unfolding finish_streamed_packet dst_finish
  finish_streamed_packet-Ends werr start given dst h =
      let last = dst_flush (partial_dst_write write_below) dst in
      let (wire, went, format, res, is_open) =
        partial_dst_finish-Parts write_below sent IsOpen dest werr start given last (
          dst_flush-Holds (partial_dst_write write_below)
            (IsPartial write_below sent IsOpen dest start) (passes start) given dst h) in
      let end = record ((partial_dst_finish write_below werr last).1) { finished = true } in
      (end, wire, ap (λ r. (r, parts end)) res, went, format, is_open)

  -- Over a destination that keeps its law: a streamed packet of partial lengths that is given buffer
  -- after buffer, through the cache of its destination, and then finished, sends its tag and parts
  -- that carry all the bytes in order, and returns the result of the destination below. The
  -- allocations succeed.
  pub finish_streamed_packet-Parts :
      (werr : D → RnpResult) (param : PacketDest D) (d : D) (bufs : List (List ℕ))
      → param.partial ≡ true
      → param.tag < 64
      → IsOpen d
      → (dst : Dest (PartialDest D)) × (end : Dest (PartialDest D)) × (wire : List ℕ)
        × (init_streamed_packet write_below true true param d
            ≡ (true, record param { writedst = parts dst }))
        × (finish_streamed_packet write_below werr
              (parts (write_each (partial_dst_write write_below) bufs dst))
              true
            ≡ (werr end.param.writedst, parts end))
        × (sent end.param.writedst ≡ sent d ++ ((param.tag + 192) ∷ wire))
        × Parts wire (joined bufs)
        × IsOpen end.param.writedst
  finish_streamed_packet-Parts werr param d bufs partial small h =
      let (dst, e, new) = init_streamed_packet-IsStreaming param d partial small h in
      let start = sent d ++ ((param.tag + 192) ∷ []) in
      let all =
        write_each-IsStreaming (partial_dst_write write_below)
          (IsPartial write_below sent IsOpen dest start) (passes start) [] bufs dst new in
      let (end, wire, res, went, format, is_open) =
        finish_streamed_packet-Ends werr start (joined bufs)
          (write_each (partial_dst_write write_below) bufs dst) all in
      (
        dst,
        end,
        wire,
        e,
        res,
        went ∙ append_assoc (sent d) ((param.tag + 192) ∷ []) wire,
        format,
        is_open,
      )
