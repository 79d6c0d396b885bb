-- ===== src/Packet/Signature/Subpkts/Loop.antt =====
-- What `signature_parse_subpackets` makes of a region of subpackets.
use rnp.Prelude.{ℕ, zero, suc, ◌+◌, ◌-◌, ◌≤◌, ◌≡◌, refl, sym, ap, ◌∙◌}
use rnp.Prelude.{Bool, true, false, ◌&&◌, Option, some, arith}
use rnp.Prelude.{List, [], ◌∷◌, ◌++◌, length, if◌then◌else◌}
use rnp.Prelude.{append_assoc, append-nil, length-append, drop-append_exact}
use rnp.Prelude.{le→ltb, ne→==}
use native.Mathlib.Numerals.{unary_clauses}
use rnp.Packet.Length.{write_packet_len}
use rnp.Packet.Length.RoundTrip.{write_packet_len_bounds}
use rnp.Packet.Signature.{SigSubpkt, Signature}
use rnp.Packet.Signature.Subpkt.{signature_parse_subpacket}
use rnp.Packet.Signature.Subpkts.{list_append, subpkt_size, parse_if, take_subpkt, subpkts_loop}
use rnp.Packet.Signature.Subpkts.{signature_parse_subpackets}
use rnp.Packet.Signature.Subpkts.Written.{
  Raw, IsRaw, AllRaw, type_byte, raw_bytes, region, unparsed,
}
use rnp.Packet.Signature.Subpkts.Written.{
  parse_all, all_accepted, with_subpkts, subpkt_len-write, new_subpkt-raw,
}

-- A signature with one more subpacket, and what is left of the loop.
abbrev with_one : Bool → Signature → SigSubpkt → Signature
with_one hashed sig x = record sig {
  subpkts = sig.subpkts ++ (x ∷ []);
  hashed_subpkts = if hashed then sig.hashed_subpkts + 1 else sig.hashed_subpkts;
}

abbrev with_more : Bool → Signature → List SigSubpkt → ℕ → Signature
with_more hashed sig xs n = record sig {
  subpkts = sig.subpkts ++ xs;
  hashed_subpkts = if hashed then sig.hashed_subpkts + n else sig.hashed_subpkts;
}

abbrev outcome : Bool → Signature → Option (Bool × Signature)
outcome ok sig = some (ok, sig)

none_added :
    (hashed res : Bool) (sig : Signature)
    → outcome (res && true) (with_more hashed sig [] 0) ≡ outcome res sig
none_added true true sig = simp (append-nil, unary_clauses) refl
none_added true false sig = simp (append-nil, unary_clauses) refl
none_added false true sig = simp (append-nil) refl
none_added false false sig = simp (append-nil) refl

more_added :
    (hashed ok : Bool) (sig : Signature) (x : SigSubpkt) (xs : List SigSubpkt) (n : ℕ)
    → outcome ok (with_more hashed (with_one hashed sig x) xs n)
      ≡ outcome ok (with_more hashed sig (x ∷ xs) (suc n))
more_added true ok sig x xs n =
    let count : sig.hashed_subpkts + 1 + n ≡ sig.hashed_subpkts + suc n = omega arith in
    simp (append_assoc sig.subpkts (x ∷ []) xs, count) refl
more_added false ok sig x xs n = simp (append_assoc sig.subpkts (x ∷ []) xs) refl

raw_length :
    (r : Raw) (more : List ℕ) → 2 + length r.content + length more ≤ length (raw_bytes r ++ more)
raw_length r more = omega (
  arith,
  length-append {0} (raw_bytes r) more,
  length-append {0} (write_packet_len (suc (length r.content))) (type_byte r ∷ r.content),
  write_packet_len_bounds (suc (length r.content)),
)

module _ (alloc : ℕ → Bool) (memory : (n : ℕ) → alloc n ≡ true) (hashed : Bool) where
  list_append_lem :
      (xs : List SigSubpkt) (x : SigSubpkt) (n : ℕ)
      → list_append alloc xs x n ≡ some (xs ++ (x ∷ []))
  unfolding list_append
  list_append_lem [] x n = simp (memory _) refl
  list_append_lem (y ∷ ys) x n = simp (memory _) refl

  take_subpkt-raw :
      (again : Signature → List ℕ → Bool → Option (Bool × Signature))
      → (sig : Signature) (r : Raw) (more : List ℕ) (res : Bool) → IsRaw r
      → take_subpkt alloc hashed again sig
          (suc (length r.content))
          (type_byte r ∷ (r.content ++ more))
          res
        ≡ again
            (with_one hashed sig (parse_if res (unparsed hashed r)).1)
            more
            (parse_if res (unparsed hashed r)).0
  unfolding take_subpkt
  take_subpkt-raw again sig r more res v =
      rw
        (
          new_subpkt-raw r more hashed v,
          le→ltb (suc (length (r.content ++ more))) (suc (length r.content)) fits,
          memory (suc (length r.content) - 1),
          list_append_lem sig.subpkts (parse_if res (unparsed hashed r)).1 subpkt_size,
          drop-append_exact (length r.content) r.content more refl,
        )
        (ap
          (λ x.
            again (with_one hashed sig (parse_if res (unparsed hashed r)).1) more
              (parse_if res x).0)
          (new_subpkt-raw r more hashed v))
    where
      fits : suc (length r.content) ≤ suc (length (r.content ++ more))
      fits = omega (arith, length-append {0} r.content more)

  -- A round over a subpacket.
  subpkts_loop-raw :
      (r : Raw) (more : List ℕ) (fuel : ℕ) (sig : Signature) (res : Bool)
      → IsRaw r
      → subpkts_loop alloc hashed (suc fuel) sig (raw_bytes r ++ more) res
        ≡ subpkts_loop alloc hashed fuel
            (with_one hashed sig (parse_if res (unparsed hashed r)).1)
            more
            (parse_if res (unparsed hashed r)).0
  unfolding subpkts_loop
  subpkts_loop-raw r more fuel sig res v =
      let n = suc (length r.content) in
      rw
        (
          ne→== (length (raw_bytes r ++ more)) 0 (omega (arith, raw_length r more)),
          le→ltb (length (raw_bytes r ++ more)) 2 (omega (arith, raw_length r more)),
          append_assoc (write_packet_len n) (type_byte r ∷ r.content) more,
          subpkt_len-write n (type_byte r ∷ (r.content ++ more)) v.short (omega arith),
        )
        (take_subpkt-raw (subpkts_loop alloc hashed fuel) sig r more res v)

  subpkts_loop-region :
      (rs : List Raw) (fuel : ℕ) (sig : Signature) (res : Bool)
      → AllRaw rs
      → length (region rs) ≤ fuel
      → subpkts_loop alloc hashed fuel sig (region rs) res
        ≡ outcome
            (res && all_accepted hashed rs)
            (with_more hashed sig (parse_all hashed res rs) (length rs))
  unfolding subpkts_loop parse_if
  subpkts_loop-region [] zero sig res v enough = sym (none_added hashed res sig)
  subpkts_loop-region [] (suc fuel) sig res v enough = sym (none_added hashed res sig)
  subpkts_loop-region (r ∷ rs) zero sig res v enough =
      absurd (omega (arith, raw_length r (region rs)))
  subpkts_loop-region (r ∷ rs) (suc fuel) sig true v enough =
      let parsed = signature_parse_subpacket (unparsed hashed r) in
      subpkts_loop-raw r (region rs) fuel sig true v.0
      ∙ subpkts_loop-region rs fuel (with_one hashed sig parsed.1) parsed.0 v.1
          (omega (arith, raw_length r (region rs)))
      ∙ more_added hashed (parsed.0 && all_accepted hashed rs) sig parsed.1
          (parse_all hashed parsed.0 rs) (length rs)
  subpkts_loop-region (r ∷ rs) (suc fuel) sig false v enough =
      subpkts_loop-raw r (region rs) fuel sig false v.0
      ∙ subpkts_loop-region rs fuel (with_one hashed sig (unparsed hashed r)) false v.1
          (omega (arith, raw_length r (region rs)))
      ∙ more_added hashed false sig (unparsed hashed r) (parse_all hashed false rs) (length rs)

  -- `signature_parse_subpackets` makes of a region of subpackets, of any types below 128 and lengths
  -- below 2^32, the list of them, in order, at the end of the signature's own: parsed up to and
  -- including the first that is rejected, and unparsed after it. It counts them if they are hashed,
  -- and succeeds exactly if each of them is accepted. The allocations succeed.
  pub signature_parse_subpackets-region :
      (rs : List Raw) (sig : Signature)
      → AllRaw rs
      → signature_parse_subpackets alloc hashed sig (region rs)
        ≡ (all_accepted hashed rs, with_subpkts hashed sig rs)
  unfolding signature_parse_subpackets
  signature_parse_subpackets-region rs sig v =
      rw
        (
          signature_parse_subpackets,
          subpkts_loop-region rs (length (region rs)) sig true v (omega arith),
        )
        refl
