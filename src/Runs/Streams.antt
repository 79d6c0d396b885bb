-- ===== src/Runs/Streams.antt =====
-- The stream functions on bytes in memory and on a log.
use rnp.Prelude.{ℕ, ◌-◌, ◌<◌, ◌^◌, ◌≡◌, refl, arith, List, [], ◌∷◌, length, take, drop}
use rnp.Prelude.{min, ltb, none, true}
use rnp.Errors.{success, out_of_memory}
use rnp.Stream.Source.{Source, src_read, src_peek, src_skip}
use rnp.Stream.Source.Reader.{pending, IsReady, Serves}
use rnp.Stream.Source.Read.{src_read-Serves}
use rnp.Stream.Source.Peek.{Peeks, src_peek-Peeks}
use rnp.Stream.Source.Skip.{Skips, src_skip-Skips}
use rnp.Stream.Memory.{MemParam, mem_src_read, init_mem_src, mem_rest, mem_src_read-IsReader}
use rnp.Stream.Memory.{init_mem_src_lem}
use rnp.Stream.Line.{src_skip_eol, src_peek_line}
use rnp.Stream.Line.Lines.{eol_len, line_of, answer}
use rnp.Stream.Line.Found.{src_skip_eol_lem, src_peek_line_lem}
use rnp.Stream.Ops.{source_ops, source_ops-IsSource}
use rnp.Stream.Dest.{Dest, init_dst, dst_write, dst_flush, dst_finish, write_out, write_or_cache}
use rnp.Stream.Dest.Write.{IsOpen, accepted, Takes, dst_write-Takes, dst_finish-stored}
use rnp.Stream.Dest.Memory.{mem_dst_write, init_mem_dest, mem_dest_get_memory}
use rnp.Stream.Dest.Memory.Writes.{write_all, joined, IsMemDest, dst_write_over}
use rnp.Stream.Dest.Memory.Writes.{mem_dest_get_memory-write_all}
use rnp.Packet.Input.{IsSource}
use rnp.Runs.{memory, log_write, log_write-IsWriter, empty_log, empty_log-IsOpen}

abbrev text : List ℕ
text = 104 ∷ 105 ∷ 13 ∷ 10 ∷ 98 ∷ []

abbrev start : Source MemParam
start = init_mem_src text

text_small : length text < 2 ^ 64
text_small = omega arith

start-IsReady : IsReady mem_rest start
start-IsReady = (init_mem_src_lem text text_small).1

src_read-Serves_example :
    Serves mem_rest start.readb
      (take 2 (pending mem_rest start))
      (drop 2 (pending mem_rest start))
      (src_read mem_src_read start 2)
src_read-Serves_example =
    src_read-Serves mem_src_read mem_rest mem_src_read-IsReader start 2 start-IsReady

src_peek-Peeks_example :
    Peeks mem_rest start.readb
      (take 2 (pending mem_rest start))
      (pending mem_rest start)
      (src_peek mem_src_read start 2)
src_peek-Peeks_example =
    src_peek-Peeks mem_src_read mem_rest mem_src_read-IsReader start 2 (omega arith) start-IsReady

src_skip-Skips_example :
    Skips mem_rest start.readb
      (min 3 (length (pending mem_rest start)))
      (drop 3 (pending mem_rest start))
      (src_skip mem_src_read memory start 3)
src_skip-Skips_example =
    src_skip-Skips mem_src_read mem_rest mem_src_read-IsReader memory start 3 (λ large. refl)
      start-IsReady

src_skip_eol_lem_example :
    ((src_skip_eol mem_src_read memory start).0 ≡ ltb 0 (eol_len (pending mem_rest start)))
    × (pending mem_rest (src_skip_eol mem_src_read memory start).1
        ≡ drop (eol_len (pending mem_rest start)) (pending mem_rest start))
    × IsReady mem_rest (src_skip_eol mem_src_read memory start).1
src_skip_eol_lem_example =
    src_skip_eol_lem mem_src_read mem_rest mem_src_read-IsReader memory start start-IsReady

src_peek_line_lem_example :
    (s' : Source MemParam) × (src_peek_line mem_src_read start 80
      ≡ answer (line_of (take (min 64 (80 - 1)) (pending mem_rest start))) s')
    × (pending mem_rest s' ≡ pending mem_rest start)
    × IsReady mem_rest s'
src_peek_line_lem_example =
    src_peek_line_lem mem_src_read mem_rest mem_src_read-IsReader start 80 (omega arith)
      (omega arith) start-IsReady

source_ops-IsSource_example :
    IsSource (source_ops mem_src_read memory) (pending mem_rest) (IsReady mem_rest)
source_ops-IsSource_example = source_ops-IsSource mem_src_read memory mem_rest mem_src_read-IsReader

dst_write-Takes_example :
    Takes (λ log. log) empty_log (1 ∷ 2 ∷ []) (dst_write log_write empty_log (1 ∷ 2 ∷ []))
dst_write-Takes_example =
    dst_write-Takes log_write (λ log. log) log_write-IsWriter empty_log (1 ∷ 2 ∷ [])
      empty_log-IsOpen

-- A destination that holds two bytes in its cache.
abbrev held : Dest (List ℕ)
held = dst_write log_write empty_log (1 ∷ 2 ∷ [])

held-IsOpen : IsOpen (λ log. log) held
unfolding dst_write init_dst write_or_cache
held-IsOpen =
    (dst_write-Takes log_write (λ log. log) log_write-IsWriter empty_log (1 ∷ 2 ∷ [])
      empty_log-IsOpen refl).1

dst_finish-stored_example :
    let d' = (dst_finish log_write none held).1 in
    (d'.param ≡ accepted (λ log. log) held) × (d'.cache ≡ []) × (d'.finished ≡ true)
unfolding dst_finish dst_flush dst_write write_out write_or_cache init_dst
dst_finish-stored_example =
    dst_finish-stored log_write (λ log. log) log_write-IsWriter held held-IsOpen refl

mem_dest_get_memory-write_all_example :
    ((write_all memory ((1 ∷ []) ∷ (2 ∷ 3 ∷ []) ∷ []) (init_mem_dest 4)).werr ≡ success)
    × (mem_dest_get_memory (write_all memory ((1 ∷ []) ∷ (2 ∷ 3 ∷ []) ∷ []) (init_mem_dest 4))
        ≡ joined ((1 ∷ []) ∷ (2 ∷ 3 ∷ []) ∷ []))
unfolding joined
mem_dest_get_memory-write_all_example =
    mem_dest_get_memory-write_all memory (λ n. refl) 4 ((1 ∷ []) ∷ (2 ∷ 3 ∷ []) ∷ []) (omega arith)

small-IsMemDest : IsMemDest (init_mem_dest 2)
unfolding init_mem_dest init_dst
small-IsMemDest = record {
  good = refl;
  direct = refl;
  uncached = refl;
  counts = refl;
  bounds = record { within = omega arith; capped = omega arith };
}

dst_write_over_example :
    ((dst_write (mem_dst_write memory) (init_mem_dest 2) (1 ∷ 2 ∷ 3 ∷ [])).werr ≡ out_of_memory)
    × (mem_dest_get_memory (dst_write (mem_dst_write memory) (init_mem_dest 2) (1 ∷ 2 ∷ 3 ∷ []))
        ≡ mem_dest_get_memory (init_mem_dest 2))
unfolding init_mem_dest init_dst
dst_write_over_example =
    dst_write_over memory (init_mem_dest 2) (1 ∷ 2 ∷ 3 ∷ []) small-IsMemDest (omega arith)
      (omega arith)
