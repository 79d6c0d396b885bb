-- ===== src/Parse/Partial/Next.antt =====
-- The header of the next part, for the source of partial lengths of src/librepgp/stream-parse.c.
use rnp.Prelude.{ℕ, ◌+◌, ◌-◌, ◌/◌, ◌%◌, ◌<◌, ◌^◌, ◌≡◌, refl, ap, inl, inr, arith}
use rnp.Prelude.{Bool, true, false, ◌&&◌, List, [], ◌∷◌, ◌++◌, get_or, ltb, leb, Bool-cases}
use rnp.Prelude.{ltb→lt, ltb→le}
use rnp.Prelude.Bits.{bit_and_1f}
use rnp.Errors.{Attempt, minus_one, returned}
use rnp.Packet.Input.{SourceOps, IsSource, At, Hits, read_exactly, and_then}
use rnp.Packet.Input.Rules.{and_then-Hits, read_front-Hits}
use rnp.Packet.Length.{write_packet_len, read_new_len, store32be}
use rnp.Packet.Length.RoundTrip.{
  write_packet_len_short, write_packet_len_middle, write_packet_len_long, read_short, read_middle,
  read_long,
}
use rnp.Parse.Partial.{get_part_len, part_len, next_len}

pub get_part_len_lem : (k : ℕ) → k < 31 → get_part_len (k + 224) ≡ 2 ^ k
unfolding get_part_len
get_part_len_lem k h = ap (λ n. 2 ^ n) (bit_and_1f k h)

pub in_part_header : (k : ℕ) → k < 31 → (leb 224 (k + 224) && ltb (k + 224) 255) ≡ true
in_part_header k h = ground arith

-- A length in full, which is that of the last part.
ends : {S : Type 0} → Attempt S ℕ → Attempt S (ℕ × Bool)
ends (minus_one s) = minus_one s
ends (returned n s) = returned (n, true) s

module _ {S : Type 0} (ops : SourceOps S) where
  ends-and_then :
      (m : S → Attempt S (List ℕ)) (f : List ℕ → ℕ) (s : S)
      → and_then m (λ buf s'. returned (f buf, true) s') s
        ≡ ends (and_then m (λ buf s'. returned (f buf) s') s)
  unfolding and_then ends
  ends-and_then m f s =
      elim (m s)
        as (λ a.
          elim a [ minus_one s' ↦ minus_one s' | returned buf s' ↦ returned (f buf, true) s' ]
          ≡ ends (elim a [ minus_one s' ↦ minus_one s' | returned buf s' ↦ returned (f buf) s' ])) [
            | minus_one s' ↦ refl
            | returned buf s' ↦ refl
          ]

  part_len-ends :
      (b : ℕ) (s : S)
      → (leb 224 b && ltb b 255) ≡ false
      → part_len ops b s ≡ ends (read_new_len ops b s)
  unfolding part_len read_new_len ends
  part_len-ends b s full = elim (Bool-cases (ltb b 192)) [
    | inl short ↦ rw full (rw short refl)
    | inr more ↦ elim (Bool-cases (ltb b 224)) [
      | inl middle ↦ rw full (rw (more, middle) (ends-and_then _ _ s))
      | inr long ↦
          let beyond : ltb b 255 ≡ false = ground arith in
          rw full (rw (more, long, beyond) (ends-and_then _ _ s))
    ]
  ]

module _ {S : Type 0} (ops : SourceOps S) (pending : S → List ℕ) (IsReady : S → Type 0)
    (source : IsSource ops pending IsReady) where
  -- The header of a part whose length is a power of two.
  pub next_len-part :
      (k : ℕ) (xs : List ℕ) (r : ℕ) (s : S)
      → k < 31
      → At ops pending IsReady s ((k + 224) ∷ xs) r
      → Hits ops pending IsReady (next_len ops s) (2 ^ k, false) xs (r + 1)
  unfolding next_len part_len
  next_len-part k xs r s small h =
      and_then-Hits ops pending IsReady (read_exactly ops 1) (λ hdr. part_len ops (get_or hdr 0 0))
        (read_front-Hits ops pending IsReady source 1 ((k + 224) ∷ []) xs refl h)
        (λ s' h'. (s', simp (in_part_header k small, get_part_len_lem k small), h'))

  -- A full length whose first byte was read.
  full_len :
      (b len : ℕ) (ys : List ℕ) (r' : ℕ) (s : S)
      → (leb 224 b && ltb b 255) ≡ false
      → Hits ops pending IsReady (read_new_len ops b s) len ys r'
      → Hits ops pending IsReady (part_len ops b s) (len, true) ys r'
  unfolding ends
  full_len b len ys r' s full (s', e, h) = (s', rw (part_len-ends ops b s full, e) refl, h)

  full_header :
      (b len : ℕ) (xs ys : List ℕ) (r r' : ℕ) (s : S)
      → (leb 224 b && ltb b 255) ≡ false
      → At ops pending IsReady s (b ∷ xs) r
      → ((s' : S)
          → At ops pending IsReady s' xs (r + 1)
          → Hits ops pending IsReady (read_new_len ops b s') len ys r')
      → Hits ops pending IsReady (next_len ops s) (len, true) ys r'
  unfolding next_len
  full_header b len xs ys r r' s full h next =
      and_then-Hits ops pending IsReady (read_exactly ops 1) (λ hdr. part_len ops (get_or hdr 0 0))
        (read_front-Hits ops pending IsReady source 1 (b ∷ []) xs refl h)
        (λ s' h'. full_len b len ys r' s' full (next s' h'))

  -- The header of the last part, whatever its length.
  pub next_len-last :
      (len : ℕ) (rest : List ℕ) (r : ℕ) (s : S)
      → len < 2 ^ 32
      → At ops pending IsReady s (write_packet_len len ++ rest) r
      → (r' : ℕ) × Hits ops pending IsReady (next_len ops s) (len, true) rest r'
  next_len-last len rest r s fits h = elim (Bool-cases (ltb len 192)) [
    | inl short ↦
        let w = write_packet_len_short len (ltb→lt _ _ short) in
        (
          r + 1,
          full_header len len rest rest r (r + 1) s (ground arith) (rw w at h) (λ s' h'.
              read_short ops pending IsReady source len rest (r + 1) s' (ltb→lt _ _ short) h'),
        )
    | inr not_short ↦ elim (Bool-cases (ltb len 8384)) [
      | inl middle ↦
          let lo = ltb→le _ _ not_short in
          let hi = ltb→lt _ _ middle in
          let w = write_packet_len_middle len lo hi in
          (
            r + 1 + 1,
            full_header ((len - 192) / 256 + 192) len (((len - 192) % 256) ∷ rest) rest r
                (r + 1 + 1) s (ground arith) (rw w at h)
                (λ s' h'. read_middle ops pending IsReady source len rest (r + 1) s' lo hi h'),
          )
      | inr long ↦
          let w = write_packet_len_long len (ltb→le _ _ long) in
          (
            r + 1 + 4,
            full_header 0xff len (store32be len ++ rest) rest r (r + 1 + 4) s (ground arith)
                (rw w at h)
                (λ s' h'. read_long ops pending IsReady source len rest (r + 1) s' fits h'),
          )
    ]
  ]
