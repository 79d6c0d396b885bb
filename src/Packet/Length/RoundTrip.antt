-- ===== src/Packet/Length/RoundTrip.antt =====
-- Lengths that `write_packet_len` writes are read back by `stream_read_pkt_len`.
use rnp.Prelude.{ℕ, ◌+◌, ◌-◌, ◌/◌, ◌%◌, ◌^◌, ◌≤◌, ◌<◌, ◌≡◌, refl, ap}
use rnp.Prelude.{inl, inr, arith, some, List, [], ◌∷◌, ◌++◌, length}
use rnp.Prelude.{ltb, Bool-cases, lt→ltb, le→ltb, ltb→lt, ltb→le, All}
use rnp.Prelude.Bits.{bit_and_80, bit_and_40, bit_and_3f, bit_and_ff}
use rnp.Errors.{returned}
use rnp.Packet.Input.{SourceOps, IsSource, At, Hits, read_exactly, and_then}
use rnp.Packet.Input.Rules.{Hits-eq, and_then-Hits, read_front-Hits}
use rnp.Packet.Length.{read_uint32, store32be}
use rnp.Packet.Length.{write_packet_len, get_packet_type}
use rnp.Packet.Length.{read_new_len, read_len_of, stream_read_pkt_len}

-- A 32-bit number is read back from its four bytes.
pub read_uint32-store32be :
    (n : ℕ) (rest : List ℕ) → n < 2 ^ 32 → read_uint32 (store32be n ++ rest) ≡ n
unfolding read_uint32 store32be
read_uint32-store32be n rest h = omega arith

pub length-store32be : (n : ℕ) → length (store32be n) ≡ 4
unfolding store32be
length-store32be n = refl

-- `write_packet_len` in plain arithmetic.
pub write_packet_len_short : (len : ℕ) → len < 192 → write_packet_len len ≡ len ∷ []
unfolding write_packet_len
write_packet_len_short len h = rw (lt→ltb _ _ h)

pub write_packet_len_middle :
    (len : ℕ)
    → 192 ≤ len
    → len < 8384
    → write_packet_len len ≡ ((len - 192) / 256 + 192) ∷ ((len - 192) % 256) ∷ []
unfolding write_packet_len
write_packet_len_middle len lo hi =
    rw (le→ltb _ _ lo, lt→ltb _ _ hi)
      (ap (λ b. ((len - 192) / 256 + 192) ∷ b ∷ []) (bit_and_ff (len - 192)))

pub write_packet_len_long : (len : ℕ) → 8384 ≤ len → write_packet_len len ≡ 0xff ∷ store32be len
unfolding write_packet_len
write_packet_len_long len h = rw (le→ltb len 192 (omega arith), le→ltb _ _ h)

-- Every length takes one to five bytes, all of them bytes.
pub write_packet_len_bounds :
    (len : ℕ)
    → (1 ≤ length (write_packet_len len))
      × (length (write_packet_len len) ≤ 5)
      × All (λ b. b < 256) (write_packet_len len)
unfolding write_packet_len store32be
write_packet_len_bounds len = ground (arith, bit_and_ff (len - 192))

-- A header byte of the new format.
pub new_header : (tag : ℕ) → tag < 64 → get_packet_type (tag + 192) ≡ some tag
unfolding get_packet_type
new_header tag h =
    ground (arith, bit_and_80 (tag + 192), bit_and_40 (tag + 192), bit_and_3f (tag + 192))

module _ {S : Type 0} (ops : SourceOps S) (pending : S → List ℕ) (IsReady : S → Type 0)
    (source : IsSource ops pending IsReady) where
  read_len_of_new :
      (tag b : ℕ) (s : S)
      → tag < 64
      → read_len_of ops ((tag + 192) ∷ b ∷ []) s ≡ read_new_len ops b s
  unfolding read_len_of
  read_len_of_new tag b s h = ground (arith, bit_and_80 (tag + 192), bit_and_40 (tag + 192))

  -- The first two bytes of a new-format header.
  read_header :
      (tag b len : ℕ) (xs ys : List ℕ) (r r' : ℕ) (s : S)
      → tag < 64
      → At ops pending IsReady s ((tag + 192) ∷ b ∷ xs) r
      → ((s' : S)
          → At ops pending IsReady s' xs (r + 2)
          → Hits ops pending IsReady (read_new_len ops b s') len ys r')
      → Hits ops pending IsReady (stream_read_pkt_len ops s) len ys r'
  unfolding stream_read_pkt_len
  read_header tag b len xs ys r r' s small h next =
      and_then-Hits ops pending IsReady (read_exactly ops 2) (read_len_of ops)
        (read_front-Hits ops pending IsReady source 2 ((tag + 192) ∷ b ∷ []) xs refl h)
        (λ s' h'. rw (read_len_of_new tag b s' small) (next s' h'))

  pub read_short :
      (len : ℕ) (rest : List ℕ) (r : ℕ) (s : S)
      → len < 192
      → At ops pending IsReady s rest r
      → Hits ops pending IsReady (read_new_len ops len s) len rest r
  unfolding read_new_len
  read_short len rest r s lt h = (s, rw (lt→ltb len 192 lt), h)

  pub read_middle :
      (len : ℕ) (rest : List ℕ) (r : ℕ) (s : S)
      → 192 ≤ len
      → len < 8384
      → At ops pending IsReady s (((len - 192) % 256) ∷ rest) r
      → Hits ops pending IsReady (read_new_len ops ((len - 192) / 256 + 192) s) len rest (r + 1)
  unfolding read_new_len and_then
  read_middle len rest r s lo hi h =
      let b = (len - 192) / 256 + 192 in
      let (s', e, h') =
        read_front-Hits ops pending IsReady source 1 (((len - 192) % 256) ∷ []) rest refl h in
      (
        s',
        rw (le→ltb b 192 (omega arith), lt→ltb b 224 (omega arith), e, and_then)
            (ap (λ n. returned n s') (omega arith)),
        h',
      )

  pub read_long :
      (len : ℕ) (rest : List ℕ) (r : ℕ) (s : S)
      → len < 2 ^ 32
      → At ops pending IsReady s (store32be len ++ rest) r
      → Hits ops pending IsReady (read_new_len ops 255 s) len rest (r + 4)
  unfolding read_new_len and_then store32be read_uint32
  read_long len rest r s fits h =
      let (s', e, h') = read_front-Hits ops pending IsReady source 4 (store32be len) rest refl h in
      (s', rw (e, and_then) (ap (λ n. returned n s') (omega arith)), h')

  -- `stream_read_pkt_len` reads back the tag byte of a new-format packet and the length that
  -- `write_packet_len` wrote behind it, and leaves what follows.
  pub stream_read_pkt_len-write :
      (tag len : ℕ) (rest : List ℕ) (r : ℕ) (s : S)
      → tag < 64
      → len < 2 ^ 32
      → At ops pending IsReady s ((tag + 192) ∷ (write_packet_len len ++ rest)) r
      → Hits ops pending IsReady
          (stream_read_pkt_len ops s)
          len
          rest
          (r + 1 + length (write_packet_len len))
  stream_read_pkt_len-write tag len rest r s small fits h = elim (Bool-cases (ltb len 192)) [
    | inl short ↦
        let w = write_packet_len_short len (ltb→lt _ _ short) in
        rw w (
          Hits-eq ops pending IsReady (omega arith) (
            read_header tag len len rest rest r (r + 2) s small (rw w at h)
              (λ s' h'. read_short len rest (r + 2) s' (ltb→lt _ _ short) h')))
    | inr not_short ↦ elim (Bool-cases (ltb len 8384)) [
      | inl middle ↦
          let lo = ltb→le _ _ not_short in
          let hi = ltb→lt _ _ middle in
          let w = write_packet_len_middle len lo hi in
          rw w (
            Hits-eq ops pending IsReady (omega arith) (
              read_header tag _ len _ rest r (r + 2 + 1) s small (rw w at h)
                (λ s' h'. read_middle len rest (r + 2) s' lo hi h')))
      | inr long ↦
          let w = write_packet_len_long len (ltb→le _ _ long) in
          rw w (
            Hits-eq ops pending IsReady (omega (arith, length-store32be len)) (
              read_header tag 0xff len _ rest r (r + 2 + 4) s small (rw w at h)
                (λ s' h'. read_long len rest (r + 2) s' fits h')))
    ]
  ]
