-- ===== src/Runs/Packets.antt =====
-- The packet functions on packets in memory.
use rnp.Prelude.{ℕ, ◌+◌, refl, inr, arith, List, [], ◌∷◌, ◌++◌, length}
use rnp.Stream.Memory.{init_mem_src}
use rnp.Packet.Input.{Hits, Gives}
use rnp.Packet.Length.{write_packet_len, stream_read_pkt_len}
use rnp.Packet.Length.RoundTrip.{stream_read_pkt_len-write}
use rnp.Packet.Body.{mpi_header}
use rnp.Packet.Body.Build.{packet}
use rnp.Packet.Mpi.{stream_read_mpi}
use rnp.Packet.Mpi.RoundTrip.{stream_read_mpi-write}
use rnp.Packet.OnePass.{OnePassSig, one_pass_tag}
use rnp.Packet.OnePass.Parse.{stream_parse_one_pass}
use rnp.Packet.OnePass.RoundTrip.{IsOnePass, one_pass_content, stream_parse_one_pass-packet}
use rnp.Packet.SkSesskey.{SkSesskey, sk_tag}
use rnp.Packet.SkSesskey.Parse.{stream_parse_sk_sesskey}
use rnp.Packet.SkSesskey.Content.{IsSkSesskey, sk_content}
use rnp.Packet.SkSesskey.RoundTrip.{received, stream_parse_sk_sesskey-packet}
use rnp.Packet.PkSesskey.{PkSesskey, ecdh, pk_tag}
use rnp.Packet.PkSesskey.Parse.{stream_parse_pk_sesskey}
use rnp.Packet.PkSesskey.Content.{IsPkSesskey, pk_content}
use rnp.Packet.PkSesskey.RoundTrip.{stream_parse_pk_sesskey-packet}
use rnp.Runs.{ops, pend, Ready, source, begins}

abbrev id : List ℕ
id = 1 ∷ 2 ∷ 3 ∷ 4 ∷ 5 ∷ 6 ∷ 7 ∷ 8 ∷ []

-- A header of 300 bytes, with something behind it.
abbrev header : List ℕ
header = 195 ∷ (write_packet_len 300 ++ (9 ∷ []))

stream_read_pkt_len-write_example :
    Hits ops pend Ready
      (stream_read_pkt_len ops (init_mem_src header))
      300
      (9 ∷ [])
      (0 + 1 + length (write_packet_len 300))
unfolding write_packet_len
stream_read_pkt_len-write_example =
    stream_read_pkt_len-write ops pend Ready source 3 300 (9 ∷ []) 0 (init_mem_src header)
      (omega arith) (omega arith) (begins header (omega arith))

-- The number 511, with something behind it.
abbrev number : List ℕ
number = mpi_header (1 ∷ 255 ∷ []) ++ ((1 ∷ 255 ∷ []) ++ (7 ∷ []))

stream_read_mpi-write_example :
    Hits ops pend Ready
      (stream_read_mpi ops 4 (init_mem_src number))
      (1 ∷ 255 ∷ [])
      (7 ∷ [])
      (0 + 2 + 2)
unfolding mpi_header
stream_read_mpi-write_example =
    stream_read_mpi-write ops pend Ready source 4 1 (255 ∷ []) (7 ∷ []) 0 (init_mem_src number)
      (omega arith) (omega arith) (omega arith) (inr (omega arith)) (begins number (omega arith))

abbrev pub one_pass : OnePassSig
one_pass = record { version = 3; type = 0; halg = 8; palg = 1; keyid = id; nested = 1 }

pub one_pass-IsOnePass : IsOnePass one_pass
one_pass-IsOnePass = record {
  is_v3 = refl;
  type_byte = omega arith;
  halg_byte = omega arith;
  palg_byte = omega arith;
  id_size = refl;
  flag = omega arith;
}

abbrev one_pass_bytes : List ℕ
one_pass_bytes = packet one_pass_tag (one_pass_content one_pass) ++ (9 ∷ [])

stream_parse_one_pass-packet_example :
    Gives ops pend Ready
      (stream_parse_one_pass ops (init_mem_src one_pass_bytes))
      one_pass
      (9 ∷ [])
      (0 + length (packet one_pass_tag (one_pass_content one_pass)))
unfolding write_packet_len
stream_parse_one_pass-packet_example =
    stream_parse_one_pass-packet ops pend Ready source one_pass (9 ∷ []) 0
      (init_mem_src one_pass_bytes) one_pass-IsOnePass (begins one_pass_bytes (omega arith))

-- A session key under a salted and iterated password.
abbrev pub sk : SkSesskey
sk = record {
  version = 4;
  alg = 9;
  specifier = 3;
  hash_alg = 8;
  salt = id;
  iterations = 96;
  enckey = 5 ∷ 6 ∷ [];
}

pub sk-IsSkSesskey : IsSkSesskey sk
sk-IsSkSesskey = record {
  is_v4 = refl;
  alg_byte = omega arith;
  known = inr (inr refl);
  hash_byte = omega arith;
  salt_size = refl;
  iterations_byte = omega arith;
  key_size = omega arith;
}

abbrev pub blank : SkSesskey
blank = record {
  version = 0;
  alg = 0;
  specifier = 0;
  hash_alg = 0;
  salt = [];
  iterations = 0;
  enckey = [];
}

abbrev sk_bytes : List ℕ
sk_bytes = packet sk_tag (sk_content sk) ++ (9 ∷ [])

stream_parse_sk_sesskey-packet_example :
    Gives ops pend Ready
      (stream_parse_sk_sesskey ops blank (init_mem_src sk_bytes))
      (received blank sk)
      (9 ∷ [])
      (0 + length (packet sk_tag (sk_content sk)))
unfolding write_packet_len
stream_parse_sk_sesskey-packet_example =
    stream_parse_sk_sesskey-packet ops pend Ready source blank sk (9 ∷ []) 0 (init_mem_src sk_bytes)
      sk-IsSkSesskey (begins sk_bytes (omega arith))

-- A session key for ECDH.
abbrev pub pk : PkSesskey
pk = record { version = 3; key_id = id; alg = 18; params = ecdh (4 ∷ 1 ∷ []) (5 ∷ 6 ∷ []) }

pub pk-IsPkSesskey : IsPkSesskey pk
pk-IsPkSesskey = record {
  is_v3 = refl;
  id_size = refl;
  fits = (refl, (omega arith, omega arith, omega arith), omega arith);
}

abbrev pk_bytes : List ℕ
pk_bytes = packet pk_tag (pk_content pk) ++ (9 ∷ [])

stream_parse_pk_sesskey-packet_example :
    Gives ops pend Ready
      (stream_parse_pk_sesskey ops (init_mem_src pk_bytes))
      pk
      (9 ∷ [])
      (0 + length (packet pk_tag (pk_content pk)))
unfolding write_packet_len mpi_header
stream_parse_pk_sesskey-packet_example =
    stream_parse_pk_sesskey-packet ops pend Ready source pk (9 ∷ []) 0 (init_mem_src pk_bytes)
      pk-IsPkSesskey (begins pk_bytes (omega arith))
