-- ===== src/Armor/Base64.antt =====
-- The tables of src/librepgp/stream-armor.c, and the encoding of three bytes.
-- `|` of numbers whose ones stand in different places is a sum.
use rnp.Prelude.{
  ℕ, ◌+◌, ◌*◌, ◌/◌, ◌%◌, ◌^◌, ◌<◌, bit_and, ◌≡◌, refl, List, [], ◌∷◌, ◌++◌, length, get_or, arith,
}
use rnp.Prelude.Bits.{bit_and_ff, holds_below, agree_below}

-- The 64 digits: A to Z, a to z, 0 to 9, + and /.
abbrev alphabet : List ℕ
alphabet =
    65 ∷ 66 ∷ 67 ∷ 68 ∷ 69 ∷ 70 ∷ 71 ∷ 72 ∷ 73 ∷ 74 ∷ 75 ∷ 76 ∷ 77 ∷ 78 ∷ 79 ∷ 80 ∷ 81 ∷ 82 ∷ 83
    ∷ 84 ∷ 85 ∷ 86 ∷ 87 ∷ 88 ∷ 89 ∷ 90 ∷ 97 ∷ 98 ∷ 99 ∷ 100 ∷ 101 ∷ 102 ∷ 103 ∷ 104 ∷ 105 ∷ 106
    ∷ 107 ∷ 108 ∷ 109 ∷ 110 ∷ 111 ∷ 112 ∷ 113 ∷ 114 ∷ 115 ∷ 116 ∷ 117 ∷ 118 ∷ 119 ∷ 120 ∷ 121 ∷ 122
    ∷ 48 ∷ 49 ∷ 50 ∷ 51 ∷ 52 ∷ 53 ∷ 54 ∷ 55 ∷ 56 ∷ 57 ∷ 43 ∷ 47 ∷ []

-- `B64ENC`, the digits four times over.
pub b64enc : ℕ → ℕ
b64enc i = get_or (alphabet ++ (alphabet ++ (alphabet ++ alphabet))) i 0

-- `armored_encode3`
pub armored_encode3 : ℕ → ℕ → ℕ → List ℕ
unfolding b64enc
armored_encode3 in0 in1 in2 =
    b64enc (in0 / 2 ^ 2)
    ∷ b64enc (bit_and (in0 * 2 ^ 4 + in1 / 2 ^ 4) 0xff)
    ∷ b64enc (bit_and (in1 * 2 ^ 2 + in2 / 2 ^ 6) 0xff)
    ∷ b64enc (bit_and in2 0xff)
    ∷ []

-- The same of `t`, the three bytes in one number.
pub encode_word : ℕ → List ℕ
unfolding b64enc
encode_word t =
    b64enc (bit_and (t / 2 ^ 18) 0xff)
    ∷ b64enc (bit_and (t / 2 ^ 12) 0xff)
    ∷ b64enc (bit_and (t / 2 ^ 6) 0xff)
    ∷ b64enc (bit_and t 0xff)
    ∷ []

pub length-encode_word : (t : ℕ) → length (encode_word t) ≡ 4
unfolding encode_word
length-encode_word t = refl

-- A digit of RFC 4648, section 4.
unfoldable pub digit : ℕ → ℕ
digit i = get_or alphabet (i % 64) 0

-- The four digits of three bytes.
unfoldable pub quad : ℕ → ℕ → ℕ → List ℕ
unfolding digit
quad a b c =
    digit (a / 4) ∷ digit (a % 4 * 16 + b / 16) ∷ digit (b % 16 * 4 + c / 64) ∷ digit (c % 64) ∷ []

-- The table repeats itself.
pub b64enc-digit : (i : ℕ) → i < 256 → b64enc i ≡ digit i
unfolding b64enc digit holds_below
b64enc-digit = agree_below _ _ 256 refl

pub digit_mod : (i j : ℕ) → i % 64 ≡ j % 64 → digit i ≡ digit j
unfolding digit
digit_mod i j e = rw e

module _ (a b c : ℕ) (sa : a < 256) (sb : b < 256) (sc : c < 256) where
  pub armored_encode3-quad : armored_encode3 a b c ≡ quad a b c
  unfolding armored_encode3 quad
  armored_encode3-quad =
      let i1 = bit_and_ff (a * 2 ^ 4 + b / 2 ^ 4) in
      let i2 = bit_and_ff (b * 2 ^ 2 + c / 2 ^ 6) in
      let i3 = bit_and_ff c in
      rw (
        i1,
        i2,
        i3,
        b64enc-digit (a / 2 ^ 2) (omega arith),
        b64enc-digit ((a * 2 ^ 4 + b / 2 ^ 4) % 256) (omega arith),
        b64enc-digit ((b * 2 ^ 2 + c / 2 ^ 6) % 256) (omega arith),
        b64enc-digit (c % 256) (omega arith),
        digit_mod ((a * 2 ^ 4 + b / 2 ^ 4) % 256) (a % 4 * 16 + b / 16) (omega arith),
        digit_mod ((b * 2 ^ 2 + c / 2 ^ 6) % 256) (b % 16 * 4 + c / 64) (omega arith),
        digit_mod (c % 256) (c % 64) (omega arith),
      )

  pub encode_word-quad : encode_word (a * 2 ^ 16 + b * 2 ^ 8 + c) ≡ quad a b c
  unfolding encode_word quad
  encode_word-quad =
      let t = a * 2 ^ 16 + b * 2 ^ 8 + c in
      rw (
        bit_and_ff (t / 2 ^ 18),
        bit_and_ff (t / 2 ^ 12),
        bit_and_ff (t / 2 ^ 6),
        bit_and_ff t,
        b64enc-digit (t / 2 ^ 18 % 256) (omega arith),
        b64enc-digit (t / 2 ^ 12 % 256) (omega arith),
        b64enc-digit (t / 2 ^ 6 % 256) (omega arith),
        b64enc-digit (t % 256) (omega arith),
        digit_mod (t / 2 ^ 18 % 256) (a / 4) (omega arith),
        digit_mod (t / 2 ^ 12 % 256) (a % 4 * 16 + b / 16) (omega arith),
        digit_mod (t / 2 ^ 6 % 256) (b % 16 * 4 + c / 64) (omega arith),
        digit_mod (t % 256) (c % 64) (omega arith),
      )
