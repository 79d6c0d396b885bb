-- ===== src/Armor/Source.antt =====
-- The dearmoring source of src/librepgp/stream-armor.c: its data, and the decoding of base64.
-- `|` of numbers whose ones stand in different places is a sum.
pub mod Decode
pub mod Lines
pub mod Header
pub mod Read
use rnp.Prelude.{
  ℕ, zero, suc, ◌+◌, ◌*◌, ◌/◌, ◌%◌, ◌^◌, Bool, true, false, Option, List, [], ◌∷◌, ◌++◌,
}
use rnp.Prelude.{get_or, length, ltb, ◌==◌, if◌then◌else◌}
use rnp.Stream.Source.{Source}
use rnp.Armor.Dest.{ArmoredMsg}

-- `ARMORED_BLOCK_SIZE`
abbrev pub block_size : ℕ
block_size = 4096

-- `pgp_source_armored_param_t`. Its `restlen` and `brestlen` are the lengths of `rest` and `brest`.
pub record ArmoredSource (P C : Type 0) : Type 0 where
  pub readsrc : Source P
  pub type : ArmoredMsg
  pub armorhdr : List ℕ
  pub version : Option (List ℕ)
  pub comment : Option (List ℕ)
  pub hash : Option (List ℕ)
  pub charset : Option (List ℕ)
  pub rest : List ℕ
  pub restpos : ℕ
  pub brest : List ℕ
  pub eofb64 : Bool
  pub readcrc : List ℕ
  pub crc_ctx : C

-- The first half of `B64DEC`; the other half is 0xff.
abbrev b64dec_table : List ℕ
b64dec_table =
    0xff ∷ 0xff ∷ 0xff ∷ 0xff ∷ 0xff ∷ 0xff ∷ 0xff ∷ 0xff ∷ 0xff ∷ 0xfd ∷ 0xfd ∷ 0xff ∷ 0xff ∷ 0xfd
    ∷ 0xff ∷ 0xff ∷ 0xff ∷ 0xff ∷ 0xff ∷ 0xff ∷ 0xff ∷ 0xff ∷ 0xff ∷ 0xff ∷ 0xff ∷ 0xff ∷ 0xff
    ∷ 0xff ∷ 0xff ∷ 0xff ∷ 0xff ∷ 0xff ∷ 0xfd ∷ 0xff ∷ 0xff ∷ 0xff ∷ 0xff ∷ 0xff ∷ 0xff ∷ 0xff
    ∷ 0xff ∷ 0xff ∷ 0xff ∷ 0x3e ∷ 0xff ∷ 0xff ∷ 0xff ∷ 0x3f ∷ 0x34 ∷ 0x35 ∷ 0x36 ∷ 0x37 ∷ 0x38
    ∷ 0x39 ∷ 0x3a ∷ 0x3b ∷ 0x3c ∷ 0x3d ∷ 0xff ∷ 0xff ∷ 0xff ∷ 0xfe ∷ 0xff ∷ 0xff ∷ 0xff ∷ 0x00
    ∷ 0x01 ∷ 0x02 ∷ 0x03 ∷ 0x04 ∷ 0x05 ∷ 0x06 ∷ 0x07 ∷ 0x08 ∷ 0x09 ∷ 0x0a ∷ 0x0b ∷ 0x0c ∷ 0x0d
    ∷ 0x0e ∷ 0x0f ∷ 0x10 ∷ 0x11 ∷ 0x12 ∷ 0x13 ∷ 0x14 ∷ 0x15 ∷ 0x16 ∷ 0x17 ∷ 0x18 ∷ 0x19 ∷ 0xff
    ∷ 0xff ∷ 0xff ∷ 0xff ∷ 0xff ∷ 0xff ∷ 0x1a ∷ 0x1b ∷ 0x1c ∷ 0x1d ∷ 0x1e ∷ 0x1f ∷ 0x20 ∷ 0x21
    ∷ 0x22 ∷ 0x23 ∷ 0x24 ∷ 0x25 ∷ 0x26 ∷ 0x27 ∷ 0x28 ∷ 0x29 ∷ 0x2a ∷ 0x2b ∷ 0x2c ∷ 0x2d ∷ 0x2e
    ∷ 0x2f ∷ 0x30 ∷ 0x31 ∷ 0x32 ∷ 0x33 ∷ 0xff ∷ 0xff ∷ 0xff ∷ 0xff ∷ 0xff ∷ []

unfoldable pub b64dec : ℕ → ℕ
b64dec c = get_or b64dec_table c 0xff

-- What the scan of an input block finds: 6-bit numbers up to the end of the block, or up to a `=`
-- behind so many bytes, or a wrong byte.
pub data Scanned : Type 0 where
  all_digits : List ℕ → Scanned
  padding : List ℕ → ℕ → Scanned
  wrong : Scanned

-- `while (bptr < bend)`, with the numbers in `dec` and `pos` bytes behind `bptr`.
unfoldable pub scan_block : List ℕ → List ℕ → ℕ → Scanned
scan_block [] dec pos = all_digits dec
scan_block (c ∷ cs) dec pos =
    let bval = b64dec c in
    let rest = scan_block cs (if ltb bval 64 then dec ++ (bval ∷ []) else dec) (suc pos) in
    if ltb bval 64
    then rest
    else if bval == 0xfe
    then padding dec (suc pos)
    else if bval == 0xff
    then wrong
    else rest

-- `b24`, four of the numbers, in three bytes.
unfoldable pub decode4 : ℕ → ℕ → ℕ → ℕ → List ℕ
decode4 d0 d1 d2 d3 =
    let b24 = d0 * 2 ^ 18 + d1 * 2 ^ 12 + d2 * 2 ^ 6 + d3 in
    (b24 / 2 ^ 16 % 256) ∷ (b24 / 2 ^ 8 % 256) ∷ (b24 % 256) ∷ []

-- `while (dptr < pend)`, over whole groups of four.
unfoldable pub decode_groups : List ℕ → List ℕ
decode_groups (d0 ∷ d1 ∷ d2 ∷ d3 ∷ more) = decode4 d0 d1 d2 d3 ++ decode_groups more
decode_groups _ = []

-- What stands behind the whole groups.
unfoldable pub last_group : List ℕ → List ℕ
last_group (d0 ∷ d1 ∷ d2 ∷ d3 ∷ more) = last_group more
last_group dec = dec

-- The bytes of the last group, which has two or three numbers and `eqcount` times `=`.
unfoldable pub decode_last : List ℕ → ℕ → List ℕ
decode_last dec eqcount =
    if eqcount == 1
    then (let b24 = get_or dec 0 0 * 2 ^ 10 + get_or dec 1 0 * 2 ^ 4 + get_or dec 2 0 / 2 ^ 2 in
        (b24 / 2 ^ 8 % 256) ∷ (b24 % 256) ∷ [])
    else if eqcount == 2
    then ((get_or dec 0 0 * 2 ^ 2 + get_or dec 1 0 / 2 ^ 4) % 256) ∷ []
    else []
