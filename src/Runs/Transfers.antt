-- ===== src/Runs/Transfers.antt =====
-- Packets that are written to a log and read from a memory source with its bytes.
use rnp.Prelude.{ℕ, ◌+◌, ◌<◌, ◌^◌, ◌≡◌, refl, ap, arith, true, List, [], length}
use rnp.Stream.Memory.{init_mem_src}
use rnp.Stream.Dest.{dst_write, init_dst}
use rnp.Stream.Dest.Write.{IsOpen, accepted}
use rnp.Packet.Input.{Gives}
use rnp.Packet.Length.{write_packet_len}
use rnp.Packet.Body.{mpi_header}
use rnp.Packet.Body.Build.{packet}
use rnp.Packet.OnePass.{one_pass_tag, stream_write_one_pass}
use rnp.Packet.OnePass.Parse.{stream_parse_one_pass}
use rnp.Packet.OnePass.RoundTrip.{one_pass_content, stream_write_one_pass-Sends}
use rnp.Packet.SkSesskey.{sk_tag, stream_write_sk_sesskey}
use rnp.Packet.SkSesskey.Parse.{stream_parse_sk_sesskey}
use rnp.Packet.SkSesskey.Content.{sk_content}
use rnp.Packet.SkSesskey.RoundTrip.{received}
use rnp.Packet.SkSesskey.Sent.{stream_write_sk_sesskey-Sends}
use rnp.Packet.PkSesskey.{pk_tag, stream_write_pk_sesskey}
use rnp.Packet.PkSesskey.Parse.{stream_parse_pk_sesskey}
use rnp.Packet.PkSesskey.Content.{pk_content}
use rnp.Packet.PkSesskey.Sent.{stream_write_pk_sesskey-Sends}
use rnp.Packet.Transfer.{stream_parse_pk_sesskey-write, stream_parse_sk_sesskey-write}
use rnp.Packet.Transfer.{stream_parse_one_pass-write}
use rnp.Runs.{memory, ops, pend, Ready, source, begins, log_write, empty_log, empty_log-IsOpen}
use rnp.Runs.{log-IsDest}
use rnp.Runs.Packets.{one_pass, one_pass-IsOnePass, blank, sk, sk-IsSkSesskey, pk, pk-IsPkSesskey}

abbrev pk_sent : List ℕ
pk_sent =
    accepted (λ log. log) (stream_write_pk_sesskey (dst_write log_write) memory pk empty_log).1

pk_sent_small : length pk_sent < 2 ^ 64
unfolding write_packet_len mpi_header init_dst
pk_sent_small =
    let e =
      (stream_write_pk_sesskey-Sends (dst_write log_write) (accepted (λ log. log))
        (IsOpen (λ log. log)) log-IsDest memory pk empty_log (λ n. refl) pk-IsPkSesskey
        empty_log-IsOpen).1 in
    omega (arith, ap (λ (l : List ℕ). length l) e)

stream_parse_pk_sesskey-write_example :
    ((stream_write_pk_sesskey (dst_write log_write) memory pk empty_log).0 ≡ true)
    × Gives ops pend Ready
        (stream_parse_pk_sesskey ops (init_mem_src pk_sent))
        pk
        []
        (0 + length (packet pk_tag (pk_content pk)))
unfolding init_dst
stream_parse_pk_sesskey-write_example =
    stream_parse_pk_sesskey-write ops pend Ready source (dst_write log_write)
      (accepted (λ log. log)) (IsOpen (λ log. log)) log-IsDest memory (λ n. refl) empty_log
      empty_log-IsOpen refl pk 0 (init_mem_src pk_sent) pk-IsPkSesskey
      (begins pk_sent pk_sent_small)

abbrev sk_sent : List ℕ
sk_sent =
    accepted (λ log. log) (stream_write_sk_sesskey (dst_write log_write) memory sk empty_log).1

sk_sent_small : length sk_sent < 2 ^ 64
unfolding write_packet_len init_dst
sk_sent_small =
    let e =
      (stream_write_sk_sesskey-Sends (dst_write log_write) (accepted (λ log. log))
        (IsOpen (λ log. log)) log-IsDest memory sk empty_log (λ n. refl) sk-IsSkSesskey
        empty_log-IsOpen).1 in
    omega (arith, ap (λ (l : List ℕ). length l) e)

stream_parse_sk_sesskey-write_example :
    ((stream_write_sk_sesskey (dst_write log_write) memory sk empty_log).0 ≡ true)
    × Gives ops pend Ready
        (stream_parse_sk_sesskey ops blank (init_mem_src sk_sent))
        (received blank sk)
        []
        (0 + length (packet sk_tag (sk_content sk)))
unfolding init_dst
stream_parse_sk_sesskey-write_example =
    stream_parse_sk_sesskey-write ops pend Ready source (dst_write log_write)
      (accepted (λ log. log)) (IsOpen (λ log. log)) log-IsDest memory (λ n. refl) empty_log
      empty_log-IsOpen refl blank sk 0 (init_mem_src sk_sent) sk-IsSkSesskey
      (begins sk_sent sk_sent_small)

abbrev one_pass_sent : List ℕ
one_pass_sent =
    accepted (λ log. log) (stream_write_one_pass (dst_write log_write) memory one_pass empty_log).1

one_pass_sent_small : length one_pass_sent < 2 ^ 64
unfolding write_packet_len init_dst
one_pass_sent_small =
    let e =
      (stream_write_one_pass-Sends (dst_write log_write) (accepted (λ log. log))
        (IsOpen (λ log. log)) log-IsDest memory one_pass empty_log (λ n. refl) one_pass-IsOnePass
        empty_log-IsOpen).1 in
    omega (arith, ap (λ (l : List ℕ). length l) e)

stream_parse_one_pass-write_example :
    ((stream_write_one_pass (dst_write log_write) memory one_pass empty_log).0 ≡ true)
    × Gives ops pend Ready
        (stream_parse_one_pass ops (init_mem_src one_pass_sent))
        one_pass
        []
        (0 + length (packet one_pass_tag (one_pass_content one_pass)))
unfolding init_dst
stream_parse_one_pass-write_example =
    stream_parse_one_pass-write ops pend Ready source (dst_write log_write) (accepted (λ log. log))
      (IsOpen (λ log. log)) log-IsDest memory (λ n. refl) empty_log empty_log-IsOpen refl one_pass 0
      (init_mem_src one_pass_sent) one_pass-IsOnePass (begins one_pass_sent one_pass_sent_small)
