-- ===== src/Packet/Signature/Subpkts/Written.antt =====
-- A region of subpackets, as RFC 4880 lays it out, and what `signature_parse_subpackets` makes of it.
use rnp.Prelude.{ℕ, suc, ◌+◌, ◌-◌, ◌/◌, ◌^◌, ◌<◌, ◌≡◌, refl, ap, ◌∙◌, inl, inr}
use rnp.Prelude.{Bool, true, false, ◌&&◌, bit_and, some, arith}
use rnp.Prelude.{List, [], ◌∷◌, ◌++◌, length, ltb, if◌then◌else◌}
use rnp.Prelude.{take-append_exact}
use rnp.Prelude.{le→ltb, lt→ltb, ltb→lt, ltb→le, Bool-cases}
use rnp.Prelude.Bits.{bit_and_7f, bit_and_80}
use rnp.Packet.Length.{write_packet_len, store32be}
use rnp.Packet.Length.RoundTrip.{read_uint32-store32be, write_packet_len_short}
use rnp.Packet.Length.RoundTrip.{write_packet_len_middle, write_packet_len_long}
use rnp.Packet.Signature.{SigSubpkt, no_fields, Signature}
use rnp.Packet.Signature.Subpkt.{signature_parse_subpacket}
use rnp.Packet.Signature.Subpkts.{subpkt_len, new_subpkt}

-- A subpacket as it stands in a packet.
pub record Raw : Type 0 where
  pub type : ℕ
  pub critical : Bool
  pub content : List ℕ

-- The type has seven bits, and the length of the whole four bytes.
pub record IsRaw (r : Raw) : Type 0 where
  pub type_bits : r.type < 128
  pub short : suc (length r.content) < 2 ^ 32

abbrev pub AllRaw : List Raw → Type 0
AllRaw [] = Unit {0}
AllRaw (r ∷ rs) = IsRaw r × AllRaw rs

-- The byte of the type and the critical bit.
abbrev pub type_byte : Raw → ℕ
type_byte r = if r.critical then r.type + 128 else r.type

abbrev pub raw_bytes : Raw → List ℕ
raw_bytes r = write_packet_len (suc (length r.content)) ++ (type_byte r ∷ r.content)

abbrev pub region : List Raw → List ℕ
region [] = []
region (r ∷ rs) = raw_bytes r ++ region rs

-- The subpacket before it is parsed.
abbrev pub unparsed : Bool → Raw → SigSubpkt
unparsed hashed r = record {
  type = r.type;
  content = r.content;
  critical = r.critical;
  hashed = hashed;
  parsed = false;
  fields = no_fields;
}

-- What is kept of subpackets: each is parsed, up to and including the first that is rejected, and
-- those after it are as they stand in the packet. With `false`, one was rejected before.
abbrev pub parse_all : Bool → Bool → List Raw → List SigSubpkt
parse_all hashed res [] = []
parse_all hashed true (r ∷ rs) =
    let (ok, subpkt) = signature_parse_subpacket (unparsed hashed r) in
    subpkt ∷ parse_all hashed ok rs
parse_all hashed false (r ∷ rs) = unparsed hashed r ∷ parse_all hashed false rs

-- Whether every subpacket is accepted.
abbrev pub all_accepted : Bool → List Raw → Bool
all_accepted hashed [] = true
all_accepted hashed (r ∷ rs) =
    (signature_parse_subpacket (unparsed hashed r)).0 && all_accepted hashed rs

-- A signature with these subpackets at the end.
abbrev pub with_subpkts : Bool → Signature → List Raw → Signature
with_subpkts hashed sig rs = record sig {
  subpkts = sig.subpkts ++ parse_all hashed true rs;
  hashed_subpkts = if hashed then sig.hashed_subpkts + length rs else sig.hashed_subpkts;
}

pub subpkt_len-write :
    (n : ℕ) (rest : List ℕ)
    → n < 2 ^ 32
    → 0 < length rest
    → subpkt_len (write_packet_len n ++ rest) ≡ some (n, rest)
unfolding subpkt_len store32be
subpkt_len-write n rest small some_left = elim (Bool-cases (ltb n 192)) [
  | inl short ↦ rw (write_packet_len_short n (ltb→lt _ _ short), short) refl
  | inr long ↦ elim (Bool-cases (ltb n 8384)) [
    | inl middle ↦
        rw
          (
            write_packet_len_middle n (ltb→le _ _ long) (ltb→lt _ _ middle),
            le→ltb ((n - 192) / 256 + 192) 192 (omega arith),
            lt→ltb ((n - 192) / 256 + 192) 255 (ground arith),
          )
          (ap (λ k. some (k, rest)) (ground arith))
    | inr longer ↦
        let four : length (store32be n ++ rest) ≡ 4 + length rest = omega arith in
        rw
          (
            write_packet_len_long n (ltb→le _ _ longer),
            le→ltb (suc (length (store32be n ++ rest))) 5 (omega arith),
          )
          (ap (λ k. some (k, rest)) (read_uint32-store32be n rest small))
  ]
]

pub new_subpkt-raw :
    (r : Raw) (rest : List ℕ) (hashed : Bool)
    → IsRaw r
    → new_subpkt (type_byte r ∷ (r.content ++ rest)) (suc (length r.content)) hashed
      ≡ unparsed hashed r
unfolding new_subpkt
new_subpkt-raw r rest hashed v =
    let whole = take-append_exact (suc (length r.content) - 1) r.content rest (omega arith) in
    elim (Bool-cases r.critical) [
      | inl e ↦
          let low : bit_and (r.type + 128) 0x7f ≡ r.type =
            bit_and_7f (r.type + 128) (omega (arith, v.type_bits)) ∙ omega (arith, v.type_bits) in
          let high : bit_and (r.type + 128) 0x80 ≡ 128 =
            bit_and_80 (r.type + 128) (omega (arith, v.type_bits)) ∙ omega (arith, v.type_bits) in
          simp (e, low, high, whole) refl
      | inr e ↦
          let low : bit_and r.type 0x7f ≡ r.type =
            bit_and_7f r.type (omega (arith, v.type_bits)) ∙ omega (arith, v.type_bits) in
          let high : bit_and r.type 0x80 ≡ 0 =
            bit_and_80 r.type (omega (arith, v.type_bits)) ∙ omega (arith, v.type_bits) in
          simp (e, low, high, whole) refl
    ]
