-- ===== src/Packet/Signature/Parse.antt =====
-- `stream_parse_signature` of src/librepgp/stream-packet.c.
-- A failed call leaves a signature whose contents `free_signature` has freed: it is not returned.
use rnp.Prelude.{ℕ, ◌+◌, ◌-◌, ◌||◌, Bool, true, false, List, ◌∷◌, ◌++◌, take, drop, get_or}
use rnp.Prelude.{ltb, ◌==◌, if◌then◌else◌}
use rnp.Errors.{bad_format, read_error, out_of_memory, minus_one, returned, Parsed}
use rnp.Errors.{fail, done}
use rnp.Stream.Source.{u64, sub64}
use rnp.Packet.Alg
use rnp.Packet.Input.{SourceOps, read_exactly, or_fail, ◌>>=◌}
use rnp.Packet.Length.{read_uint16, read_uint32, stream_read_pkt_len}
use rnp.Packet.Mpi.{stream_read_mpi}
use rnp.Packet.Signature.{Signature, zeroed, SigMaterial, rsa_sig, dsa_sig, ecc_sig, eg_sig}
use rnp.Packet.Signature.Subpkts.{signature_parse_subpackets}

-- The fields that `signature_read_v3` sets from the 16 bytes in `buf`.
unfoldable pub v3_fields : Signature → List ℕ → Signature
v3_fields sig buf = record sig {
  hashed_data = take 5 (drop 1 buf);
  type = get_or buf 1 0;
  creation_time = read_uint32 (drop 2 buf);
  signer = take 8 (drop 6 buf);
  palg = get_or buf 14 0;
  halg = get_or buf 15 0;
}

-- The fields that `signature_read_v4` sets from the five bytes in `buf` and the hashed subpackets.
unfoldable pub v4_fields : Signature → List ℕ → List ℕ → Signature
v4_fields sig buf hashed = record sig {
  type = get_or buf 0 0;
  palg = get_or buf 1 0;
  halg = get_or buf 2 0;
  hashed_data = sig.version ∷ (buf ++ hashed);
}

module _ {S : Type 0} (ops : SourceOps S) where
  unfoldable pub signature_read_v3 : Signature → ℕ → S → Parsed S Signature
  signature_read_v3 sig len s =
      if ltb len 16
      then fail bad_format s
      else (do
        buf ← (λ s. or_fail read_error (read_exactly ops 16 s))
        (λ s.
            if get_or buf 0 0 == 5
            then (if ops.alloc 5 then done (v3_fields sig buf) s else fail out_of_memory s)
            else fail bad_format s))
          s

  -- A region of subpackets that was read.
  unfoldable pub add_subpkts : Bool → Signature → List ℕ → S → Parsed S Signature
  add_subpkts hashed sig buf s =
      let (ok, sig') = signature_parse_subpackets ops.alloc hashed sig buf in
      if ok then done sig' s else fail bad_format s

  -- The unhashed subpackets, of `splen` bytes in the `len` bytes that are left.
  unfoldable pub read_unhashed : Signature → ℕ → ℕ → S → Parsed S Signature
  read_unhashed sig len splen s =
      if ltb len splen
      then fail bad_format s
      else if ops.alloc splen
      then (do
        buf ← (λ s. or_fail read_error (read_exactly ops splen s))
        add_subpkts false sig buf)
          s
      else fail out_of_memory s

  -- The hashed subpackets, of `splen` bytes in the `len` bytes that are left, and the others.
  unfoldable pub read_hashed : Signature → ℕ → List ℕ → ℕ → S → Parsed S Signature
  read_hashed sig len front splen s =
      if ltb len (splen + 2)
      then fail bad_format s
      else if ops.alloc (splen + 6)
      then (do
        buf ← (λ s. or_fail read_error (read_exactly ops splen s))
        sig ← add_subpkts true (v4_fields sig front buf) buf
        size ← (λ s. or_fail read_error (read_exactly ops 2 s))
        read_unhashed sig (len - splen - 2) (read_uint16 size))
          s
      else fail out_of_memory s

  unfoldable pub signature_read_v4 : Signature → ℕ → S → Parsed S Signature
  signature_read_v4 sig len s =
      if ltb len 5
      then fail bad_format s
      else (do
        buf ← (λ s. or_fail read_error (read_exactly ops 5 s))
        read_hashed sig (len - 5) buf (read_uint16 (drop 3 buf)))
          s

  -- The fields of the version in `sig`.
  unfoldable pub read_version : Signature → ℕ → S → Parsed S Signature
  read_version sig len s =
      if (sig.version == 2) || (sig.version == 3)
      then signature_read_v3 sig len s
      else if sig.version == 4
      then signature_read_v4 sig len s
      else fail bad_format s

  -- `stream_read_mpi(src, buf, pktend - src->readb)`
  unfoldable pub read_sig_mpi : ℕ → S → Parsed S (List ℕ)
  read_sig_mpi pktend s = or_fail bad_format (stream_read_mpi ops (sub64 pktend (ops.readb s)) s)

  unfoldable pub read_two : (List ℕ → List ℕ → SigMaterial) → ℕ → Signature → S → Parsed S Signature
  read_two material pktend sig = do
    r ← read_sig_mpi pktend
    t ← read_sig_mpi pktend
    (λ s. done (record sig { material = material r t }) s)

  -- `switch (sig->palg)`
  unfoldable pub read_material : ℕ → Signature → S → Parsed S Signature
  read_material pktend sig s =
      if sig.palg == Alg.rsa
      then (do t ← read_sig_mpi pktend; (λ s. done (record sig { material = rsa_sig t }) s)) s
      else if sig.palg == Alg.dsa
      then read_two dsa_sig pktend sig s
      else if (sig.palg == Alg.eddsa)
          || (sig.palg == Alg.ecdsa)
          || (sig.palg == Alg.sm2)
          || (sig.palg == Alg.ecdh)
      then read_two ecc_sig pktend sig s
      else if sig.palg == Alg.elgamal_encrypt_or_sign
      then read_two eg_sig pktend sig s
      else fail bad_format s

  -- The left bits of the hash and the MPIs. Where there is no room for the left bits, the code goes
  -- to its end with `res` still `RNP_SUCCESS`.
  unfoldable pub read_left_bits : ℕ → Signature → S → Parsed S Signature
  read_left_bits pktend sig s =
      if ltb (sub64 pktend (ops.readb s)) 2
      then done sig s
      else (do
        lbits ← (λ s. or_fail read_error (read_exactly ops 2 s))
        read_material pktend (record sig { lbits = lbits }))
          s

  -- The end: after an error other than one of reading, the rest of the packet is skipped.
  unfoldable pub skip_rest : ℕ → Parsed S Signature → Parsed S Signature
  skip_rest pktend (done sig s) = done sig s
  skip_rest pktend (fail read_error s) = fail read_error s
  skip_rest pktend (fail e s) = elim (ops.skip s (sub64 pktend (ops.readb s))) [
    | minus_one s' ↦ fail e s'
    | returned n s' ↦ fail e s'
  ]

  -- `stream_parse_signature` after a length that is not zero.
  unfoldable pub signature_of_len : ℕ → S → Parsed S Signature
  signature_of_len len s =
      let pktend = u64 (ops.readb s + len) in
      (do
        ver ← (λ s. or_fail read_error (read_exactly ops 1 s))
        (λ s. skip_rest pktend (
            (do
              sig ← read_version (record zeroed { version = get_or ver 0 0 }) (len - 1)
              read_left_bits pktend sig)
              s)))
        s

  unfoldable pub stream_parse_signature : S → Parsed S Signature
  stream_parse_signature = do
    len ← (λ s. or_fail read_error (stream_read_pkt_len ops s))
    (λ s. if ltb len 1 then fail bad_format s else signature_of_len len s)
