-- ===== src/Packet/Length.antt =====
-- Packet headers of src/librepgp/stream-packet.c: tags and lengths.
-- `|` of bytes that are shifted to different places is a sum.
pub mod RoundTrip
use rnp.Prelude.{ℕ, ◌+◌, ◌-◌, ◌*◌, ◌/◌, ◌%◌, ◌^◌, bit_and, bit_or, Bool, ◌||◌}
use rnp.Prelude.{Option, none, some, List, [], ◌∷◌, length, get_or, ltb, ◌==◌, if◌then◌else◌}
use rnp.Errors.{Attempt, minus_one, returned}
use rnp.Packet.Input.{SourceOps, read_exactly, and_then}

-- `PGP_PTAG_*` of include/repgp/repgp_def.h
abbrev pub always_set : ℕ
always_set = 0x80

abbrev pub new_format : ℕ
new_format = 0x40

unfoldable pub read_uint32 : List ℕ → ℕ
read_uint32 buf =
    get_or buf 0 0 * 2 ^ 24 + get_or buf 1 0 * 2 ^ 16 + get_or buf 2 0 * 2 ^ 8 + get_or buf 3 0

unfoldable pub read_uint16 : List ℕ → ℕ
read_uint16 buf = get_or buf 0 0 * 2 ^ 8 + get_or buf 1 0

-- `STORE32BE` of src/lib/utils.h
unfoldable pub store32be : ℕ → List ℕ
store32be n = (n / 2 ^ 24 % 256) ∷ (n / 2 ^ 16 % 256) ∷ (n / 2 ^ 8 % 256) ∷ (n % 256) ∷ []

-- The bytes that `write_packet_len` saves; it returns their number.
unfoldable pub write_packet_len : ℕ → List ℕ
unfolding store32be
write_packet_len len =
    if ltb len 192
    then len ∷ []
    else if ltb len (8192 + 192)
    then ((len - 192) / 2 ^ 8 + 192) ∷ bit_and (len - 192) 0xff ∷ []
    else 0xff ∷ store32be len

-- `none` is the -1 for a byte that is no header.
pub get_packet_type : ℕ → Option ℕ
get_packet_type ptag =
    if bit_and ptag always_set == 0
    then none
    else if bit_and ptag new_format == 0
    then some (bit_and ptag 0x3c / 2 ^ 2)
    else some (bit_and ptag 0x3f)

-- The length of the header whose first two bytes are given. The mask leaves four kinds of old
-- length, so the `default` case is not reached.
pub hdr_len : ℕ → ℕ → ℕ
hdr_len ptag len =
    if bit_and ptag new_format == 0
    then (let kind = bit_and ptag 0x03 in
        if kind == 0 then 2 else if kind == 1 then 3 else if kind == 2 then 5 else 1)
    else if ltb len 192
    then 2
    else if ltb len 224
    then 3
    else if ltb len 255
    then 2
    else 6

module _ {S : Type 0} (ops : SourceOps S) where
  unfoldable pub stream_pkt_hdr_len : S → Attempt S ℕ
  unfolding hdr_len
  stream_pkt_hdr_len s = elim (ops.peek s 2) [
    | minus_one s' ↦ minus_one s'
    | returned buf s' ↦
        if ltb (length buf) 2 || (bit_and (get_or buf 0 0) always_set == 0)
        then minus_one s'
        else returned (hdr_len (get_or buf 0 0) (get_or buf 1 0)) s'
  ]

  -- The rest of a new-format length whose first byte is `len`. Partial lengths are refused.
  unfoldable pub read_new_len : ℕ → S → Attempt S ℕ
  read_new_len len s =
      if ltb len 192
      then returned len s
      else if ltb len 224
      then and_then (read_exactly ops 1)
          (λ buf s'. returned ((len - 192) * 2 ^ 8 + get_or buf 0 0 + 192) s') s
      else if ltb len 255
      then minus_one s
      else and_then (read_exactly ops 4) (λ buf s'. returned (read_uint32 buf) s') s

  -- The rest of an old-format length whose first byte is `len`.
  pub read_old_len : ℕ → ℕ → S → Attempt S ℕ
  read_old_len ptag len s =
      let kind = bit_and ptag 0x03 in
      if kind == 0
      then returned len s
      else if kind == 1
      then and_then (read_exactly ops 1) (λ buf s'. returned (read_uint16 (len ∷ buf)) s') s
      else if kind == 2
      then and_then (read_exactly ops 3) (λ buf s'. returned (read_uint32 (len ∷ buf)) s') s
      else minus_one s

  -- What `stream_read_pkt_len` does with the first two bytes of a header.
  pub read_len_of : List ℕ → S → Attempt S ℕ
  unfolding read_new_len read_old_len
  read_len_of buf s =
      if bit_and (get_or buf 0 0) always_set == 0
      then minus_one s
      else if bit_and (get_or buf 0 0) new_format == 0
      then read_old_len (get_or buf 0 0) (get_or buf 1 0) s
      else read_new_len (get_or buf 1 0) s

  pub stream_read_pkt_len : S → Attempt S ℕ
  unfolding read_len_of
  stream_read_pkt_len = and_then (read_exactly ops 2) read_len_of
