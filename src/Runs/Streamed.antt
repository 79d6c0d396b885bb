-- ===== src/Runs/Streamed.antt =====
-- Packets that are streamed, in parts.
use rnp.Prelude.{ℕ, ◌≡◌, refl, arith, true, false, none, some, inr, List, [], ◌∷◌, ◌++◌, take, drop}
use rnp.Errors.{returned}
use rnp.Stream.Source.{Source, init_src, src_read}
use rnp.Stream.Memory.{MemParam, init_mem_src}
use rnp.Stream.Dest.{Dest, init_dst, dst_write, dst_finish}
use rnp.Stream.Dest.Given.{write_each}
use rnp.Stream.Dest.Write.{IsOpen, accepted}
use rnp.Stream.Dest.Memory.Writes.{joined}
use rnp.Packet.Length.{write_packet_len}
use rnp.Parse.Partial.{PartialSource, partial_pkt_src_read}
use rnp.Parse.Partial.Read.{Reads, in_part, partial_pkt_src_read-Reads}
use rnp.Write.Partial.{PartialDest, partial_dst_write}
use rnp.Write.Partial.Parts.{Parts, last, more}
use rnp.Write.Packet.{unset, parts, PacketDest, init_streamed_packet, finish_streamed_packet}
use rnp.Write.Packet.Sent.{finish_streamed_packet-Parts}
use rnp.Write.Literal.{origdst_of, literal_dst_write, literal_dst_finish, init_literal_dst}
use rnp.Write.Literal.Made.{cut_name, fields, dst_finish-literal}
use rnp.Parse.Literal.Made.{Literal}
use rnp.Parse.Partial.Cached.{Streams, init_src-Streams, src_read-Streams}
use rnp.Runs.{ops, pend, Ready, source, begins, log_write, empty_log, empty_log-IsOpen, log-IsDest}

-- Two bytes in a part, and one in the last.
abbrev wire : List ℕ
wire = 225 ∷ 1 ∷ 2 ∷ 1 ∷ 3 ∷ []

wire-Parts : Parts wire (1 ∷ 2 ∷ 3 ∷ [])
unfolding write_packet_len
wire-Parts =
    more 1 (1 ∷ 2 ∷ []) (1 ∷ 3 ∷ []) (3 ∷ []) (omega arith) refl (last (omega arith) refl) refl refl

-- Behind the header of the first part.
abbrev in_first : PartialSource (Source MemParam)
in_first = record {
  readsrc = init_mem_src (1 ∷ 2 ∷ 1 ∷ 3 ∷ 9 ∷ []);
  type = none;
  psize = 2;
  pleft = 2;
  is_last = false;
}

in_first-Reads : Reads ops pend Ready source in_first (1 ∷ 2 ∷ 3 ∷ []) (9 ∷ [])
unfolding write_packet_len
in_first-Reads =
    in_part 0 (1 ∷ 2 ∷ []) (1 ∷ 3 ∷ []) (3 ∷ []) refl refl (last (omega arith) refl) refl
      (begins (1 ∷ 2 ∷ 1 ∷ 3 ∷ 9 ∷ []) (omega arith))

partial_pkt_src_read-Reads_example :
    (p' : PartialSource (Source MemParam)) × (partial_pkt_src_read ops false in_first 3
      ≡ returned (take 3 (1 ∷ 2 ∷ 3 ∷ [])) p')
    × Reads ops pend Ready source p' (drop 3 (1 ∷ 2 ∷ 3 ∷ [])) (9 ∷ [])
partial_pkt_src_read-Reads_example =
    partial_pkt_src_read-Reads ops pend Ready source in_first 3 (1 ∷ 2 ∷ 3 ∷ []) (9 ∷ [])
      in_first-Reads

abbrev literal : PacketDest (Dest (List ℕ))
literal = record { writedst = unset empty_log; partial = true; indeterminate = false; tag = 11 }

abbrev bufs : List (List ℕ)
bufs = (1 ∷ []) ∷ (2 ∷ 3 ∷ []) ∷ []

finish_streamed_packet-Parts_example :
    let write = dst_write log_write in
    let given = accepted (λ log. log) in
    let Fine = IsOpen (λ log. log) in
    (dst : Dest (PartialDest (Dest (List ℕ)))) × (end : Dest (PartialDest (Dest (List ℕ))))
    × (wire : List ℕ) × (init_streamed_packet write true true literal empty_log
        ≡ (true, record literal { writedst = parts dst }))
    × (finish_streamed_packet write
          (λ d. d.werr)
          (parts (write_each (partial_dst_write write) bufs dst))
          true
        ≡ (end.param.writedst.werr, parts end))
    × (given end.param.writedst ≡ 203 ∷ wire)
    × Parts wire (joined bufs)
    × Fine end.param.writedst
unfolding init_dst
finish_streamed_packet-Parts_example =
    finish_streamed_packet-Parts (dst_write log_write) (accepted (λ log. log)) (IsOpen (λ log. log))
      log-IsDest (λ d. d.werr) literal empty_log bufs refl (omega arith) empty_log-IsOpen

abbrev file_name : List ℕ
file_name = 97 ∷ 46 ∷ 98 ∷ []

dst_finish-literal_example :
    let below = dst_write log_write in
    let given = accepted (λ log. log) in
    let write = literal_dst_write below in
    (dst : Dest (PacketDest (Dest (List ℕ)))) × (end : Dest (PacketDest (Dest (List ℕ))))
    × (wire : List ℕ) × (init_literal_dst below true true true (some file_name) 1000 empty_log
        ≡ inr dst)
    × (dst_finish write (some (literal_dst_finish below (λ d. d.werr))) (write_each write bufs dst)
        ≡ ((origdst_of end.param.writedst).werr, end))
    × (given (origdst_of end.param.writedst) ≡ given empty_log ++ (203 ∷ wire))
    × Parts wire (fields (cut_name (some file_name)) 1000 ++ joined bufs)
dst_finish-literal_example =
    dst_finish-literal (dst_write log_write) (accepted (λ log. log)) (IsOpen (λ log. log))
      log-IsDest (λ d. d.werr) (some file_name) 1000 empty_log bufs empty_log-IsOpen

src_read-Streams_example :
    let src = init_src in_first false 0 in
    (src' : Source (PartialSource (Source MemParam))) × (src_read
        (partial_pkt_src_read ops false)
        src
        3
      ≡ returned (take 3 (1 ∷ 2 ∷ 3 ∷ [])) src')
    × Streams ops pend Ready source (9 ∷ []) src' (drop 3 (1 ∷ 2 ∷ 3 ∷ []))
src_read-Streams_example =
    src_read-Streams ops pend Ready source (9 ∷ []) (init_src in_first false 0) (1 ∷ 2 ∷ 3 ∷ []) 3
      (init_src-Streams ops pend Ready source (9 ∷ []) in_first (1 ∷ 2 ∷ 3 ∷ []) in_first-Reads)
