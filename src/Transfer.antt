-- ===== src/Transfer.antt =====
-- Streamed packets from one end to the other: what src/librepgp/stream-write.c sends, and
-- src/librepgp/stream-parse.c opens.
use rnp.Prelude.{ℕ, ◌+◌, ◌<◌, ◌≡◌, sym, ap, ◌∙◌, true, List, [], ◌∷◌, ◌++◌, append-nil}
use mathlib.Core.Path.{subst}
use rnp.Errors.{RnpResult}
use rnp.Stream.Source.{Source}
use rnp.Stream.Dest.{Dest}
use rnp.Stream.Dest.Given.{write_each}
use rnp.Stream.Dest.Memory.Writes.{joined}
use rnp.Packet.Input.{SourceOps, IsSource, At}
use rnp.Packet.Body.Build.{IsDest}
use rnp.Parse.Packet.{init_packet_params}
use rnp.Parse.Packet.Opened.{Opened, init_packet_params-Opened}
use rnp.Write.Partial.{PartialDest, partial_dst_write}
use rnp.Write.Packet.{parts, PacketDest, init_streamed_packet, finish_streamed_packet}
use rnp.Parse.Literal.Made.{Literal}
use rnp.Write.Packet.Sent.{finish_streamed_packet-Parts}

module _ {S : Type 0} (ops : SourceOps S) (pending : S → List ℕ) (IsReady : S → Type 0)
    (source : IsSource ops pending IsReady) {D : Type 0} (dst_write : D → List ℕ → D)
    (sent : D → List ℕ) (IsOpen : D → Type 0) (dest : IsDest dst_write sent IsOpen) where
  -- A packet of partial lengths that is begun on a destination to which nothing was sent, is given
  -- buffer after buffer, and is finished: `init_packet_params` opens it over any source that holds
  -- what was sent, with all the bytes as its body, and nothing behind it. The allocations succeed.
  pub init_packet_params-finish :
      (werr : D → RnpResult) (param : PacketDest D) (d : D) (bufs : List (List ℕ))
      → param.partial ≡ true
      → param.tag < 64
      → IsOpen d
      → sent d ≡ []
      → (dst : Dest (PartialDest D)) × (end : Dest (PartialDest D)) × (init_streamed_packet
            dst_write true true param d
          ≡ (true, record param { writedst = parts dst }))
        × (finish_streamed_packet dst_write werr
              (parts (write_each (partial_dst_write dst_write) bufs dst))
              true
            ≡ (werr end.param.writedst, parts end))
        × ((r : ℕ) (s : S)
            → At ops pending IsReady s (sent end.param.writedst) r
            → Opened ops pending IsReady source
                (joined bufs)
                []
                (init_packet_params ops true true s))
  init_packet_params-finish werr param d bufs partial small h empty =
      let (dst, end, wire, e, f, went, format, is_open) =
        finish_streamed_packet-Parts dst_write sent IsOpen dest werr param d bufs partial small h in
      (
        dst,
        end,
        e,
        f,
        λ r s at.
            init_packet_params-Opened ops pending IsReady source param.tag wire (joined bufs) [] r s
              small format
              (subst (λ l. At ops pending IsReady s l r)
                (went
                  ∙ ap (λ l. l ++ ((param.tag + 192) ∷ wire)) empty
                  ∙ ap (λ l. (param.tag + 192) ∷ l) (sym (append-nil wire)))
                at),
      )
