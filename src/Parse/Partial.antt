-- ===== src/Parse/Partial.antt =====
-- The source for packets of partial lengths of src/librepgp/stream-parse.c.
-- `ops` are the `src_*` functions that the code calls on the source below. `param` of an initialised
-- source is not NULL, and a buffer that a function fills is its result.
pub mod Next
pub mod Read
pub mod Init
pub mod Cached
use rnp.Prelude.{ℕ, zero, suc, ◌+◌, ◌-◌, ◌*◌, ◌^◌, bit_and, Bool, true, false, ◌&&◌}
use rnp.Prelude.{Option, List, [], ◌∷◌, ◌++◌, length, get_or, ltb, leb, ◌==◌, if◌then◌else◌, not}
use rnp.Errors.{RnpResult, bad_format, out_of_memory, Attempt, minus_one, returned}
use rnp.Errors.{Parsed, fail, done}
use rnp.Stream.Source.{Source, init_src}
use rnp.Packet.Input.{SourceOps, read_exactly, and_then}
use rnp.Packet.Length.{new_format, get_packet_type, read_uint32}

-- `pgp_source_partial_param_t`; the type of the packet is -1 where its tag is no header.
pub record PartialSource (S : Type 0) : Type 0 where
  pub readsrc : S
  pub type : Option ℕ
  pub psize : ℕ
  pub pleft : ℕ
  pub is_last : Bool

pub get_part_len : ℕ → ℕ
get_part_len blen = 2 ^ bit_and blen 0x1f

-- The bytes that a call put into its buffer, and the source that it left.
pub filled : {S : Type 0} → Attempt S (List ℕ) → List ℕ × S
filled (minus_one s) = ([], s)
filled (returned bytes s) = (bytes, s)

module _ {S : Type 0} (ops : SourceOps S) where
  pub stream_indeterminate_pkt_len : S → Bool × S
  stream_indeterminate_pkt_len s = elim (ops.peek s 1) [
    | minus_one s' ↦ (false, s')
    | returned [] s' ↦ (false, s')
    | returned (ptag ∷ _) s' ↦ ((bit_and ptag new_format == 0) && (bit_and ptag 0x03 == 0x03), s')
  ]

  pub stream_partial_pkt_len : S → Bool × S
  stream_partial_pkt_len s = elim (ops.peek s 2) [
    | minus_one s' ↦ (false, s')
    | returned hdr s' ↦ if ltb (length hdr) 2 then (false, s') else (
      not (bit_and (get_or hdr 0 0) new_format == 0)
          && leb 224 (get_or hdr 1 0)
          && ltb (get_or hdr 1 0) 255,
      s',
    )
  ]

  -- The length of the part whose header begins with `b`, and whether it is the last part.
  pub part_len : ℕ → S → Attempt S (ℕ × Bool)
  part_len b s =
      if leb 224 b && ltb b 255
      then returned (get_part_len b, false) s
      else if ltb b 192
      then returned (b, true) s
      else if ltb b 224
      then and_then (read_exactly ops 1)
          (λ buf s'. returned ((b - 192) * 2 ^ 8 + get_or buf 0 0 + 192, true) s') s
      else and_then (read_exactly ops 4) (λ buf s'. returned (read_uint32 buf, true) s') s

  -- `// reading next chunk`
  pub next_len : S → Attempt S (ℕ × Bool)
  unfolding part_len
  next_len = and_then (read_exactly ops 1) (λ hdr. part_len (get_or hdr 0 0))

  pub next_part : PartialSource S → Attempt (PartialSource S) (Unit {0})
  unfolding next_len
  next_part param = elim (next_len param.readsrc) [
    | minus_one s ↦ minus_one (record param { readsrc = s })
    | returned (size, is_last) s ↦
        returned tt (record param { readsrc = s; psize = size; pleft = size; is_last = is_last })
  ]

  -- The end of a round: bytes of the current part. `again` is the loop.
  pub read_chunk :
      (PartialSource S → ℕ → List ℕ → Attempt (PartialSource S) (List ℕ))
      → PartialSource S
      → ℕ
      → List ℕ
      → Attempt (PartialSource S) (List ℕ)
  read_chunk again param len buf =
      elim (ops.read param.readsrc (if ltb len param.pleft then len else param.pleft)) [
        | minus_one s ↦ minus_one (record param { readsrc = s })
        | returned [] s ↦ returned buf (record param { readsrc = s })
        | returned (b ∷ bs) s ↦
            let read = length (b ∷ bs) in
            again (record param { readsrc = s; pleft = param.pleft - read }) (len - read)
              (buf ++ (b ∷ bs))
      ]

  -- `while (len > 0)`, with the bytes written to `buf`. A round takes a byte or ends the loop, so
  -- `len` rounds are enough.
  pub read_parts : ℕ → PartialSource S → ℕ → List ℕ → Attempt (PartialSource S) (List ℕ)
  read_parts zero param len buf = returned buf param
  read_parts (suc fuel) param len buf =
      if len == 0
      then returned buf param
      else if not (param.pleft == 0)
      then read_chunk (read_parts fuel) param len buf
      else if param.is_last
      then returned buf param
      else elim (next_part param) [
        | minus_one param' ↦ minus_one param'
        | returned _ param' ↦
            if param'.pleft == 0
            then returned buf param'
            else read_chunk (read_parts fuel) param' len buf
      ]

  -- The `read` callback of a source whose flag is `eof`.
  pub partial_pkt_src_read : Bool → PartialSource S → ℕ → Attempt (PartialSource S) (List ℕ)
  unfolding read_parts read_chunk next_part
  partial_pkt_src_read eof param len =
      if eof then returned [] param else read_parts len param len []

  -- The parameters of a new source, with the two bytes of the header.
  abbrev pub first_part : S → List ℕ → PartialSource S
  first_part s buf = record {
    readsrc = s;
    type = get_packet_type (get_or buf 0 0);
    psize = get_part_len (get_or buf 1 0);
    pleft = get_part_len (get_or buf 1 0);
    is_last = false;
  }

  -- `init_partial_pkt_src`; the two bytes that it reads were peeked at before, and `memory` says
  -- whether `init_src_common` finds memory.
  pub init_partial_pkt_src : Bool → S → Parsed S (Source (PartialSource S))
  unfolding stream_partial_pkt_len filled init_src
  init_partial_pkt_src memory readsrc =
      let (is_partial, s) = stream_partial_pkt_len readsrc in
      if not is_partial
      then fail bad_format s
      else if not memory
      then fail out_of_memory s
      else (let (buf, s') = filled (ops.read s 2) in done (init_src (first_part s' buf) false 0) s')
