-- ===== src/Packet/SkSesskey/Parse.antt =====
-- `stream_parse_sk_sesskey` of src/librepgp/stream-packet.c. It fills the caller's structure, and
-- leaves the fields that the packet does not show as they were.
use rnp.Prelude.{ℕ, ◌-◌, ◌||◌, List, [], get_or, ltb, ◌==◌, if◌then◌else◌}
use rnp.Errors.{bad_format, read_error, Parsed, fail, done}
use rnp.Packet.Input.{SourceOps, read_exactly, or_fail, ◌>>=◌}
use rnp.Packet.Length.{stream_read_pkt_len}
use rnp.Packet.SkSesskey.{SkSesskey, simple, salted, iterated_and_salted}

-- `PGP_MAX_KEY_SIZE + 1`
abbrev pub max_esk : ℕ
max_esk = 33

module _ {S : Type 0} (ops : SourceOps S) where
  -- The encrypted session key, if the packet has bytes left.
  unfoldable pub read_esk : ℕ → SkSesskey → S → Parsed S SkSesskey
  read_esk len skey s =
      if ltb 0 len
      then (if ltb max_esk len
          then fail bad_format s
          else (do
            enckey ← (λ s. or_fail read_error (read_exactly ops len s))
            done (record skey { enckey = enckey }))
              s)
      else done (record skey { enckey = [] }) s

  unfoldable pub read_iterations : ℕ → SkSesskey → S → Parsed S SkSesskey
  read_iterations len skey s =
      if skey.specifier == iterated_and_salted
      then (if ltb len 1
          then fail bad_format s
          else (do
            buf ← (λ s. or_fail read_error (read_exactly ops 1 s))
            read_esk (len - 1) (record skey { iterations = get_or buf 0 0 }))
              s)
      else read_esk len skey s

  unfoldable pub read_salt : ℕ → SkSesskey → S → Parsed S SkSesskey
  read_salt len skey s =
      if ltb len 8
      then fail bad_format s
      else (do
        salt ← (λ s. or_fail read_error (read_exactly ops 8 s))
        read_iterations (len - 8) (record skey { salt = salt }))
          s

  unfoldable pub read_s2k : ℕ → SkSesskey → S → Parsed S SkSesskey
  read_s2k len skey s =
      if skey.specifier == simple
      then read_esk len skey s
      else if (skey.specifier == salted) || (skey.specifier == iterated_and_salted)
      then read_salt len skey s
      else fail bad_format s

  -- The four bytes that every packet of this kind begins with.
  unfoldable pub read_sk_fields : ℕ → SkSesskey → List ℕ → S → Parsed S SkSesskey
  read_sk_fields len skey buf s =
      if get_or buf 0 0 == 4
      then read_s2k (len - 4)
          (record skey {
            version = get_or buf 0 0;
            alg = get_or buf 1 0;
            specifier = get_or buf 2 0;
            hash_alg = get_or buf 3 0;
          })
          s
      else fail bad_format s

  unfoldable pub sk_of_len : SkSesskey → ℕ → S → Parsed S SkSesskey
  sk_of_len skey len s =
      if ltb len 4
      then fail bad_format s
      else (do buf ← (λ s. or_fail read_error (read_exactly ops 4 s)); read_sk_fields len skey buf)
          s

  unfoldable pub stream_parse_sk_sesskey : SkSesskey → S → Parsed S SkSesskey
  stream_parse_sk_sesskey skey = do
    len ← (λ s. or_fail read_error (stream_read_pkt_len ops s))
    sk_of_len skey len
