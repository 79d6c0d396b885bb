-- ===== src/Packet/Signature/Subpkts.antt =====
-- `signature_parse_subpackets` of src/librepgp/stream-packet.c, and `list_append` of src/lib/list.c,
-- which it collects them with.
pub mod Written
pub mod Loop
pub mod Fuel
use rnp.Prelude.{
  ℕ, zero, suc, ◌+◌, ◌-◌, ◌*◌, ◌^◌, ◌&&◌, ◌||◌, not, bit_and, Bool, true, false, Option, none, some,
}
use rnp.Prelude.{List, [], ◌∷◌, ◌++◌, length, take, drop, get_or, ltb, ◌==◌, if◌then◌else◌}
use rnp.Packet.Length.{read_uint32}
use rnp.Packet.Signature.{SigSubpkt, no_fields, Signature}
use rnp.Packet.Signature.Subpkt.{signature_parse_subpacket}

-- `sizeof(list_head)`, `sizeof(list_item)` and `sizeof(pgp_sig_subpkt_t)` on a 64-bit machine.
abbrev list_head_size : ℕ
list_head_size = 24

abbrev list_item_size : ℕ
list_item_size = 24

abbrev pub subpkt_size : ℕ
subpkt_size = 56

-- `list_append`, with `list_do_insert`; `none` is the `NULL` of a failed allocation. The first item
-- of a list brings its head.
unfoldable pub list_append : {A : Type 0} → (ℕ → Bool) → List A → A → ℕ → Option (List A)
list_append alloc [] item data_size =
    if alloc list_head_size && alloc (list_item_size + data_size) then some (item ∷ []) else none
list_append alloc (first ∷ more) item data_size =
    if alloc (list_item_size + data_size) then some ((first ∷ more) ++ (item ∷ [])) else none

-- The length at the front of a subpacket and the bytes behind it; `none` is a length of five bytes
-- that are not there. There are two bytes at least.
unfoldable pub subpkt_len : List ℕ → Option (ℕ × List ℕ)
subpkt_len buf =
    if ltb (get_or buf 0 0) 192
    then some (get_or buf 0 0, drop 1 buf)
    else if ltb (get_or buf 0 0) 255
    then some ((get_or buf 0 0 - 192) * 2 ^ 8 + get_or buf 1 0 + 192, drop 2 buf)
    else if ltb (length buf) 5
    then none
    else some (read_uint32 (drop 1 buf), drop 5 buf)

-- The subpacket whose first `splen` bytes are at the front of `buf`.
unfoldable pub new_subpkt : List ℕ → ℕ → Bool → SigSubpkt
new_subpkt buf splen hashed = record {
  type = bit_and (get_or buf 0 0) 0x7f;
  content = take (splen - 1) (drop 1 buf);
  critical = not (bit_and (get_or buf 0 0) 0x80 == 0);
  hashed = hashed;
  parsed = false;
  fields = no_fields;
}

-- `res && signature_parse_subpacket(&subpkt)`: once one was rejected, no other is parsed.
unfoldable pub parse_if : Bool → SigSubpkt → Bool × SigSubpkt
parse_if true subpkt = signature_parse_subpacket subpkt
parse_if false subpkt = (false, subpkt)

module _ (alloc : ℕ → Bool) (hashed : Bool) where
  -- One subpacket of `splen` bytes at the front of `buf`. `again` is the loop.
  unfoldable pub take_subpkt :
      (Signature → List ℕ → Bool → Option (Bool × Signature))
      → Signature
      → ℕ
      → List ℕ
      → Bool
      → Option (Bool × Signature)
  take_subpkt again sig splen buf res =
      let (ok, subpkt) = parse_if res (new_subpkt buf splen hashed) in
      if ltb (length buf) splen || not (alloc (splen - 1))
      then some (false, sig)
      else elim (list_append alloc sig.subpkts subpkt subpkt_size) [
        | none ↦ some (false, sig)
        | some subpkts ↦
            again
              (record sig {
                subpkts = subpkts;
                hashed_subpkts = if hashed then sig.hashed_subpkts + 1 else sig.hashed_subpkts;
              })
              (drop splen buf) ok
      ]

  -- `while (len > 0)`. A round takes a byte at least; `none` is a loop that has bytes left after
  -- `fuel` rounds.
  unfoldable pub subpkts_loop : ℕ → Signature → List ℕ → Bool → Option (Bool × Signature)
  subpkts_loop zero sig buf res = if length buf == 0 then some (res, sig) else none
  subpkts_loop (suc fuel) sig buf res =
      if length buf == 0
      then some (res, sig)
      else if ltb (length buf) 2
      then some (false, sig)
      else elim (subpkt_len buf) [
        | none ↦ some (false, sig)
        | some (zero, rest) ↦ subpkts_loop fuel sig rest res
        | some (suc n, rest) ↦ take_subpkt (subpkts_loop fuel) sig (suc n) rest res
      ]

  unfoldable pub signature_parse_subpackets : Signature → List ℕ → Bool × Signature
  signature_parse_subpackets sig buf = elim (subpkts_loop (length buf) sig buf true) [
    | none ↦ (false, sig)
    | some outcome ↦ outcome
  ]
