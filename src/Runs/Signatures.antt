-- ===== src/Runs/Signatures.antt =====
-- The signature functions, and the packets that are refused or accepted by mistake.
use rnp.Prelude.{ℕ, ◌+◌, ◌≡◌, ◌↔◌, refl, inr, arith, true, false, some}
use rnp.Prelude.{List, [], ◌∷◌, ◌++◌, length}
use rnp.Errors.{read_error}
use rnp.Stream.Memory.{init_mem_src}
use rnp.Packet.Input.{Gives, Fails}
use rnp.Packet.Length.{write_packet_len, store32be}
use rnp.Packet.Body.{mpi_header}
use rnp.Packet.Body.Build.{packet}
use rnp.Packet.Body.Read.{header_size}
use rnp.Packet.Body.Whole.{stream_read_packet_body}
use rnp.Packet.Body.Whole.Refused.{stream_read_packet_body-Fails}
use rnp.Packet.OnePass.{OnePassSig}
use rnp.Packet.PkSesskey.{pk_tag}
use rnp.Packet.PkSesskey.Parse.{stream_parse_pk_sesskey}
use rnp.Packet.PkSesskey.Content.{mpi_content, pk_front}
use rnp.Packet.PkSesskey.Unbounded.{rsa_key, stream_parse_pk_sesskey-beyond}
use rnp.Packet.Signature.{SigSubpkt, Signature, zeroed, no_fields, rsa_sig, dsa_sig}
use rnp.Packet.Signature.{signature_get_keyid, signature_get_creation, signature_matches_onepass}
use rnp.Packet.Signature.Subpkt.{parsed_if, signature_parse_subpacket}
use rnp.Packet.Signature.Subpkt.Checked.{layout, Checked, signature_parse_subpacket-Checked}
use rnp.Packet.Signature.Subpkts.{signature_parse_subpackets, subpkts_loop}
use rnp.Packet.Signature.Subpkts.Fuel.{signature_parse_subpackets-subpkts_loop}
use rnp.Packet.Signature.Subpkts.Written.{
  Raw, AllRaw, region, unparsed, parse_all, all_accepted, with_subpkts,
}
use rnp.Packet.Signature.Subpkts.Loop.{signature_parse_subpackets-region}
use rnp.Packet.Signature.Find.{issuer_raw, creation_raw, Matches, signature_get_keyid-issuer}
use rnp.Packet.Signature.Find.{signature_get_creation-creation, signature_matches_onepass_lem}
use rnp.Packet.Signature.Parse.{stream_parse_signature}
use rnp.Packet.Signature.Content.{sig_tag, SigV4, IsSigV4, v4_content, v4_signature}
use rnp.Packet.Signature.RoundTrip.{stream_parse_signature-v4}
use rnp.Packet.Signature.Older.{SigV3, IsSigV3, v3_front, v3_content, v3_begun, v3_signature}
use rnp.Packet.Signature.Older.{stream_parse_signature-v3}
use rnp.Packet.Signature.Truncated.{stream_parse_signature-truncated}
use rnp.Runs.{memory, ops, pend, Ready, source, begins}

abbrev id : List ℕ
id = 1 ∷ 2 ∷ 3 ∷ 4 ∷ 5 ∷ 6 ∷ 7 ∷ 8 ∷ []

-- A critical creation time.
abbrev created : Raw
created = creation_raw true 1500000000

-- The key id of the issuer.
abbrev issued : Raw
issued = issuer_raw false id

abbrev raws : List Raw
raws = created ∷ issued ∷ []

raws-AllRaw : AllRaw raws
unfolding store32be
raws-AllRaw = (
  record { type_bits = omega arith; short = omega arith },
  (record { type_bits = omega arith; short = omega arith }, tt),
)

abbrev fresh : Signature
fresh = record zeroed { version = 4 }

-- A creation time that is not hashed.
abbrev unhashed_time : SigSubpkt
unhashed_time = record {
  type = 2;
  content = 1 ∷ 2 ∷ 3 ∷ 4 ∷ [];
  critical = false;
  hashed = false;
  parsed = false;
  fields = no_fields;
}

signature_parse_subpacket-Checked_example :
    Checked unhashed_time (layout 2) (signature_parse_subpacket unhashed_time)
signature_parse_subpacket-Checked_example = signature_parse_subpacket-Checked unhashed_time

-- A region in which the second subpacket, a creation time of one byte, is rejected.
abbrev mixed : List Raw
mixed = created ∷ record { type = 2; critical = false; content = 1 ∷ [] } ∷ issued ∷ []

mixed-AllRaw : AllRaw mixed
mixed-AllRaw =
    (raws-AllRaw.0, (record { type_bits = omega arith; short = omega arith }, raws-AllRaw.1))

-- The third subpacket is kept as it stands in the region.
mixed_third :
    (all_accepted true mixed ≡ false)
    × (parse_all true true mixed
        ≡ (signature_parse_subpacket (unparsed true created)).1
          ∷ unparsed true (record { type = 2; critical = false; content = 1 ∷ [] })
          ∷ unparsed true issued
          ∷ [])
unfolding signature_parse_subpacket parsed_if store32be
mixed_third = (refl, refl)

signature_parse_subpackets-region_example :
    signature_parse_subpackets memory true fresh (region mixed)
    ≡ (all_accepted true mixed, with_subpkts true fresh mixed)
signature_parse_subpackets-region_example =
    signature_parse_subpackets-region memory (λ n. refl) true mixed fresh mixed-AllRaw

signature_parse_subpackets-subpkts_loop_example :
    subpkts_loop memory true (length (region raws) + 3) fresh (region raws) true
    ≡ some (signature_parse_subpackets memory true fresh (region raws))
signature_parse_subpackets-subpkts_loop_example =
    signature_parse_subpackets-subpkts_loop memory true fresh (region raws) 3

signature_get_keyid-issuer_example :
    signature_get_keyid (signature_parse_subpackets memory true fresh (region raws)).1 ≡ some id
unfolding signature_parse_subpacket parsed_if store32be
signature_get_keyid-issuer_example =
    signature_get_keyid-issuer memory (λ n. refl) true fresh (created ∷ []) [] false id
      (omega arith) refl refl refl (omega arith, tt) raws-AllRaw

signature_get_creation-creation_example :
    signature_get_creation (signature_parse_subpackets memory true fresh (region raws)).1
    ≡ 1500000000
signature_get_creation-creation_example =
    signature_get_creation-creation memory (λ n. refl) true fresh [] (issued ∷ []) true 1500000000
      (omega arith) refl (omega arith) refl tt raws-AllRaw

-- A version 3 signature and the one-pass packet that announces it.
abbrev v3 : SigV3
v3 = record {
  version = 3;
  type = 0;
  creation_time = 1500000000;
  signer = id;
  palg = 1;
  halg = 8;
  lbits = 7 ∷ 9 ∷ [];
  material = rsa_sig (5 ∷ 6 ∷ []);
}

abbrev announced : OnePassSig
announced = record { version = 3; type = 0; halg = 8; palg = 1; keyid = id; nested = 1 }

signature_matches_onepass_lem_example :
    (signature_matches_onepass (v3_signature v3) announced ≡ true)
    ↔ Matches (v3_signature v3) announced
signature_matches_onepass_lem_example = signature_matches_onepass_lem (v3_signature v3) announced

v3-IsSigV3 : IsSigV3 v3
v3-IsSigV3 = record {
  known = inr refl;
  time_size = omega arith;
  id_size = refl;
  two_bytes = refl;
  fits = (refl, (omega arith, omega arith, omega arith));
}

abbrev v3_bytes : List ℕ
v3_bytes = packet sig_tag (v3_content v3) ++ (9 ∷ [])

stream_parse_signature-v3_example :
    Gives ops pend Ready
      (stream_parse_signature ops (init_mem_src v3_bytes))
      (v3_signature v3)
      (9 ∷ [])
      (0 + length (packet sig_tag (v3_content v3)))
unfolding write_packet_len mpi_header store32be
stream_parse_signature-v3_example =
    stream_parse_signature-v3 ops pend Ready source (λ n. refl) v3 (9 ∷ []) 0
      (init_mem_src v3_bytes) v3-IsSigV3 (begins v3_bytes (omega arith))

abbrev cut_bytes : List ℕ
cut_bytes = packet sig_tag (3 ∷ (v3_front v3 ++ (7 ∷ []))) ++ (9 ∷ [])

stream_parse_signature-truncated_example :
    Gives ops pend Ready
      (stream_parse_signature ops (init_mem_src cut_bytes))
      (v3_begun v3)
      (7 ∷ 9 ∷ [])
      (0 + header_size (17 + 1) + 17)
unfolding write_packet_len store32be
stream_parse_signature-truncated_example =
    stream_parse_signature-truncated ops pend Ready source (λ n. refl) v3 (7 ∷ []) (9 ∷ []) 0
      (init_mem_src cut_bytes) v3-IsSigV3 (omega arith) (begins cut_bytes (omega arith))

-- A version 4 signature with a hashed and an unhashed subpacket.
abbrev v4 : SigV4
v4 = record {
  type = 0;
  palg = 17;
  halg = 8;
  hashed = created ∷ [];
  unhashed = issued ∷ [];
  lbits = 7 ∷ 9 ∷ [];
  material = dsa_sig (5 ∷ 6 ∷ []) (8 ∷ []);
}

v4-IsSigV4 : IsSigV4 v4
unfolding signature_parse_subpacket parsed_if store32be write_packet_len
v4-IsSigV4 = record {
  hashed_raw = (raws-AllRaw.0, tt);
  unhashed_raw = raws-AllRaw.1;
  hashed_accepted = refl;
  unhashed_accepted = refl;
  hashed_size = omega arith;
  unhashed_size = omega arith;
  two_bytes = refl;
  fits = (refl, (omega arith, omega arith, omega arith), (omega arith, omega arith, omega arith));
}

abbrev v4_bytes : List ℕ
v4_bytes = packet sig_tag (v4_content v4) ++ (9 ∷ [])

stream_parse_signature-v4_example :
    Gives ops pend Ready
      (stream_parse_signature ops (init_mem_src v4_bytes))
      (v4_signature v4)
      (9 ∷ [])
      (0 + length (packet sig_tag (v4_content v4)))
unfolding write_packet_len mpi_header store32be
stream_parse_signature-v4_example =
    stream_parse_signature-v4 ops pend Ready source (λ n. refl) v4 (9 ∷ []) 0
      (init_mem_src v4_bytes) v4-IsSigV4 (begins v4_bytes (omega arith))

abbrev whole_bytes : List ℕ
whole_bytes = packet 11 (98 ∷ 0 ∷ 1 ∷ []) ++ (9 ∷ [])

stream_read_packet_body-Fails_example :
    Fails ops pend Ready
      (stream_read_packet_body ops (init_mem_src whole_bytes))
      read_error
      (0 ∷ 1 ∷ 9 ∷ [])
      (0 + header_size 3 + 1)
unfolding write_packet_len
stream_read_packet_body-Fails_example =
    stream_read_packet_body-Fails ops pend Ready source (λ n. refl) 11 98 0 (1 ∷ []) (9 ∷ []) 0
      (init_mem_src whole_bytes) (omega arith) (omega arith) (begins whole_bytes (omega arith))

abbrev short_bytes : List ℕ
short_bytes = packet pk_tag (pk_front (rsa_key id (5 ∷ []))) ++ (mpi_content (5 ∷ []) ++ (9 ∷ []))

stream_parse_pk_sesskey-beyond_example :
    Gives ops pend Ready
      (stream_parse_pk_sesskey ops (init_mem_src short_bytes))
      (rsa_key id (5 ∷ []))
      (9 ∷ [])
      (0 + header_size 10 + 10 + (2 + 1))
unfolding write_packet_len mpi_header
stream_parse_pk_sesskey-beyond_example =
    stream_parse_pk_sesskey-beyond ops pend Ready source id (5 ∷ []) (9 ∷ []) 0
      (init_mem_src short_bytes) refl (omega arith, omega arith, omega arith)
      (begins short_bytes (omega arith))
