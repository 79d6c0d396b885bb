-- ===== src/Packet/OnePass/Parse.antt =====
-- `stream_parse_one_pass` of src/librepgp/stream-packet.c.
use rnp.Prelude.{ℕ, List, take, drop, get_or, ◌==◌, if◌then◌else◌}
use rnp.Errors.{bad_format, read_error, minus_one, returned, Parsed, fail, done}
use rnp.Packet.Input.{SourceOps, read_exactly, or_fail, ◌>>=◌}
use rnp.Packet.Length.{stream_read_pkt_len}
use rnp.Packet.OnePass.{OnePassSig}

-- What `stream_parse_one_pass` reads from the 13 bytes of the body.
unfoldable pub one_pass_fields : {S : Type 0} → List ℕ → S → Parsed S OnePassSig
one_pass_fields buf s =
    if get_or buf 0 0 == 3
    then done
        (record {
          version = get_or buf 0 0;
          type = get_or buf 1 0;
          halg = get_or buf 2 0;
          palg = get_or buf 3 0;
          keyid = take 8 (drop 4 buf);
          nested = if get_or buf 12 0 == 0 then 0 else 1;
        })
        s
    else fail bad_format s

module _ {S : Type 0} (ops : SourceOps S) where
  -- A packet of another length is skipped.
  unfoldable pub skip_one_pass : ℕ → S → Parsed S OnePassSig
  skip_one_pass len s = elim (ops.skip s len) [
    | minus_one s' ↦ fail read_error s'
    | returned n s' ↦ if n == len then fail bad_format s' else fail read_error s'
  ]

  unfoldable pub one_pass_of_len : ℕ → S → Parsed S OnePassSig
  unfolding skip_one_pass one_pass_fields
  one_pass_of_len len =
      if len == 13
      then (do buf ← (λ s. or_fail read_error (read_exactly ops 13 s)); one_pass_fields buf)
      else skip_one_pass len

  unfoldable pub stream_parse_one_pass : S → Parsed S OnePassSig
  unfolding one_pass_of_len
  stream_parse_one_pass = do
    len ← (λ s. or_fail read_error (stream_read_pkt_len ops s))
    one_pass_of_len len
