-- ===== src/Packet/Signature/Find.antt =====
-- What the functions that look into a signature find among the subpackets of a packet.
use rnp.Prelude.{
  ℕ, ◌^◌, ◌≤◌, ◌<◌, ◌≡◌, ◌≢◌, refl, ap, ◌∙◌, inl, inr, Bool, true, Option, none, some,
}
use rnp.Prelude.{arith, List, [], ◌∷◌, ◌++◌, length, if◌then◌else◌}
use rnp.Prelude.{le→ltb, eq→==, ne→==, Option-cases, ap₂, ◌↔◌, take_all}
use rnp.Packet.Length.{store32be}
use rnp.Packet.Length.RoundTrip.{read_uint32-store32be}
use rnp.Packet.OnePass.{OnePassSig}
use rnp.Packet.Signature.Kind
use rnp.Packet.Signature.{
  SigSubpkt, Signature, first_subpkt, signature_get_subpkt, keyid_of_subpkts,
}
use rnp.Packet.Signature.{signature_get_keyid, signature_get_creation, same_bytes}
use rnp.Packet.Signature.{signature_matches_onepass}
use rnp.Packet.Signature.Subpkt.{signature_parse_subpacket, parsed_if}
use rnp.Packet.Signature.Subpkt.Checked.{signature_parse_subpacket-Checked}
use rnp.Packet.Signature.Subpkts.{signature_parse_subpackets}
use rnp.Packet.Signature.Subpkts.Written.{Raw, AllRaw, region, unparsed, parse_all, all_accepted}
use rnp.Packet.Signature.Subpkts.Loop.{signature_parse_subpackets-region}

-- No subpacket of the list has the type.
abbrev pub Without : ℕ → List Raw → Type 0
Without type [] = Unit {0}
Without type (r ∷ rs) = (r.type ≢ type) × Without type rs

-- A subpacket, if it is parsed.
abbrev if_parsed : SigSubpkt → Option SigSubpkt
if_parsed sp = if sp.parsed then some sp else none

first_subpkt-parse_all :
    (hashed : Bool) (before : List Raw) (r : Raw) (after : List Raw)
    → all_accepted hashed before ≡ true
    → Without r.type before
    → first_subpkt (parse_all hashed true (before ++ (r ∷ after))) r.type
      ≡ if_parsed (signature_parse_subpacket (unparsed hashed r)).1
unfolding first_subpkt
first_subpkt-parse_all hashed [] r after ok v =
    rw (eq→== _ _ (signature_parse_subpacket-Checked (unparsed hashed r)).same_type)
first_subpkt-parse_all hashed (b ∷ before) r after ok v =
    let parsed = signature_parse_subpacket (unparsed hashed b) in
    let e = (signature_parse_subpacket-Checked (unparsed hashed b)).same_type in
    let this : parsed.0 ≡ true = ground (arith, ok) in
    let others : all_accepted hashed before ≡ true = ground (arith, ok) in
    rw (e, ne→== b.type r.type v.0, this) (first_subpkt-parse_all hashed before r after others v.1)

-- The subpacket of an issuer, and that of a creation time.
abbrev pub issuer_raw : Bool → List ℕ → Raw
issuer_raw critical id = record { type = Kind.issuer_key_id; critical = critical; content = id }

abbrev pub creation_raw : Bool → ℕ → Raw
creation_raw critical time = record {
  type = Kind.creation_time;
  critical = critical;
  content = store32be time;
}

module _ (alloc : ℕ → Bool) (memory : (n : ℕ) → alloc n ≡ true) (hashed : Bool) where
  -- A version 4 signature whose subpackets, none before, are read from a region in which the first
  -- issuer subpacket has eight bytes, and those before it are accepted, has these bytes as its key
  -- id. The allocations succeed.
  pub signature_get_keyid-issuer :
      (sig : Signature) (before after : List Raw) (critical : Bool) (id : List ℕ)
      → 4 ≤ sig.version
      → sig.subpkts ≡ []
      → length id ≡ 8
      → all_accepted hashed before ≡ true
      → Without Kind.issuer_key_id before
      → AllRaw (before ++ (issuer_raw critical id ∷ after))
      → signature_get_keyid
          (signature_parse_subpackets alloc hashed sig
            (region (before ++ (issuer_raw critical id ∷ after)))).1
        ≡ some id
  unfolding signature_get_keyid signature_get_subpkt signature_parse_subpacket parsed_if
      keyid_of_subpkts
  signature_get_keyid-issuer sig before after critical id v4 none_yet size ok first v =
      rw
        (
          signature_parse_subpackets-region alloc memory hashed
              (before ++ (issuer_raw critical id ∷ after)) sig v,
          none_yet,
          le→ltb sig.version 4 v4,
          first_subpkt-parse_all hashed before (issuer_raw critical id) after ok first,
          eq→== (length id) 8 size,
        )
        (ap some (take_all 8 id (omega arith)))

  -- A version 4 signature whose subpackets, none before, are read from a region in which the first
  -- creation subpacket says `time`, below 2^32, and those before it are accepted, has `time` as its
  -- creation time. The allocations succeed.
  pub signature_get_creation-creation :
      (sig : Signature) (before after : List Raw) (critical : Bool) (time : ℕ)
      → 4 ≤ sig.version
      → sig.subpkts ≡ []
      → time < 2 ^ 32
      → all_accepted hashed before ≡ true
      → Without Kind.creation_time before
      → AllRaw (before ++ (creation_raw critical time ∷ after))
      → signature_get_creation
          (signature_parse_subpackets alloc hashed sig
            (region (before ++ (creation_raw critical time ∷ after)))).1
        ≡ time
  unfolding signature_get_creation signature_get_subpkt signature_parse_subpacket parsed_if
      store32be
  signature_get_creation-creation sig before after critical time v4 none_yet small ok first v =
      rw
        (
          signature_parse_subpackets-region alloc memory hashed
              (before ++ (creation_raw critical time ∷ after)) sig v,
          none_yet,
          le→ltb sig.version 4 v4,
          first_subpkt-parse_all hashed before (creation_raw critical time) after ok first,
        )
        (read_uint32-store32be time [] small)

same_bytes_refl : (xs : List ℕ) → same_bytes xs xs ≡ true
unfolding same_bytes
same_bytes_refl [] = refl
same_bytes_refl (x ∷ xs) = ground (arith, same_bytes_refl xs)

same_bytes→eq : (xs ys : List ℕ) → same_bytes xs ys ≡ true → xs ≡ ys
unfolding same_bytes
same_bytes→eq [] [] h = refl
same_bytes→eq [] (y ∷ ys) h = absurd cc
same_bytes→eq (x ∷ xs) [] h = absurd cc
same_bytes→eq (x ∷ xs) (y ∷ ys) h =
    ap₂ (λ a l. a ∷ l) (ground arith) (same_bytes→eq xs ys (ground arith))

-- What a signature and a one-pass packet have in common when they match.
pub record Matches (sig : Signature) (p : OnePassSig) : Type 0 where
  pub same_key : signature_get_keyid sig ≡ some p.keyid
  pub same_hash : sig.halg ≡ p.halg
  pub same_alg : sig.palg ≡ p.palg
  pub same_type : sig.type ≡ p.type

-- `signature_matches_onepass` answers yes exactly for a signature that has a key id, and the same
-- key id, hash algorithm, public-key algorithm and type as the one-pass packet.
pub signature_matches_onepass_lem :
    (sig : Signature) (p : OnePassSig) → (signature_matches_onepass sig p ≡ true) ↔ Matches sig p
unfolding signature_matches_onepass
signature_matches_onepass_lem sig p = (there, back)
  where
    there : signature_matches_onepass sig p ≡ true → Matches sig p
    there h = elim (Option-cases (signature_get_keyid sig)) [
      | inl missing ↦ absurd (let f = (rw (missing, signature_matches_onepass) at h) in cc)
      | inr (id, found) ↦
          let f = (rw (found, signature_matches_onepass) at h) in
          record {
            same_key = found ∙ ap some (same_bytes→eq id p.keyid (ground arith));
            same_hash = ground arith;
            same_alg = ground arith;
            same_type = ground arith;
          }
    ]

    back : Matches sig p → signature_matches_onepass sig p ≡ true
    back m = rw (
      m.same_key,
      signature_matches_onepass,
      same_bytes_refl p.keyid,
      eq→== _ _ m.same_hash,
      eq→== _ _ m.same_alg,
      eq→== _ _ m.same_type,
    )
