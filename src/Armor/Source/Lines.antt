-- ===== src/Armor/Source/Lines.antt =====
-- The lines behind the base64 data, of src/librepgp/stream-armor.c: padding, checksum and trailer.
-- `outside` is what `B64DEC` is read as for a character from 128 on: the code's `char` is signed, and
-- its index is negative then.
use rnp.Prelude.{ℕ, zero, suc, ◌+◌, ◌*◌, ◌/◌, ◌%◌, ◌^◌, bit_and, Bool, true, false, not, ◌&&◌, ◌||◌}
use rnp.Prelude.{List, [], ◌∷◌, ◌++◌, length, drop, get_or, ltb, ◌==◌, if◌then◌else◌}
use rnp.Errors.{Attempt, minus_one, returned}
use rnp.Stream.Source.{Source, src_peek, src_skip}
use rnp.Stream.Line.{state, src_skip_eol, src_peek_line}
use rnp.Armor.Dest.{codes}
use rnp.Armor.Source.{ArmoredSource, b64dec}

-- `strncmp(a, b, n) == 0`, where the lists stand for the texts in front of their `\0`.
pub strncmp_eq : ℕ → List ℕ → List ℕ → Bool
strncmp_eq zero xs ys = true
strncmp_eq (suc n) [] [] = true
strncmp_eq (suc n) [] (b ∷ ys) = b == 0
strncmp_eq (suc n) (a ∷ xs) [] = a == 0
strncmp_eq (suc n) (a ∷ xs) (b ∷ ys) =
    let rest = strncmp_eq n xs ys in if a == b then (if a == 0 then true else rest) else false

b64dec_char : (ℕ → ℕ) → ℕ → ℕ
b64dec_char outside c = if ltb c 128 then b64dec c else outside c

-- `readcrc`, from its four numbers.
pub crc_bytes : ℕ → ℕ → ℕ → ℕ → List ℕ
crc_bytes d0 d1 d2 d3 =
    ((d0 * 2 ^ 2 + bit_and (d1 / 2 ^ 4) 0x0f) % 256)
    ∷ ((d1 * 2 ^ 4 + bit_and (d2 / 2 ^ 2) 0x0f) % 256)
    ∷ ((d2 * 2 ^ 6 + d3) % 256)
    ∷ []

-- The source below, moved.
abbrev pub over : {P C : Type 0} → ArmoredSource P C → Source P → ArmoredSource P C
over param s = record param { readsrc = s }

module _ {P C : Type 0} (read : P → ℕ → Attempt P (List ℕ)) (alloc : ℕ → Bool) where
  -- `src_skip(readsrc, n); src_skip_eol(readsrc);`
  pub skip_line : ArmoredSource P C → ℕ → ArmoredSource P C
  skip_line param n =
      over param (src_skip_eol read alloc (state (src_skip read alloc param.readsrc n))).1

  pub padding_of : List ℕ → ArmoredSource P C → Attempt (ArmoredSource P C) ℕ
  unfolding skip_line
  padding_of st param =
      let stlen = length st in
      if (stlen == 1) || (stlen == 2)
      then (if not (get_or st 0 0 == 61) || ((stlen == 2) && not (get_or st 1 0 == 61))
          then minus_one param
          else returned stlen (skip_line param stlen))
      else if stlen == 5
      then returned 0 param
      else minus_one param

  pub armor_read_padding : ArmoredSource P C → Attempt (ArmoredSource P C) ℕ
  unfolding padding_of
  armor_read_padding param = elim (src_peek_line read param.readsrc 12) [
    | minus_one s ↦ minus_one (over param s)
    | returned st s ↦ padding_of st (over param s)
  ]

  pub crc_of : (ℕ → ℕ) → List ℕ → ArmoredSource P C → Bool × ArmoredSource P C
  unfolding skip_line crc_bytes b64dec_char
  crc_of outside crc param =
      let d0 = b64dec_char outside (get_or crc 1 0) in
      let d1 = b64dec_char outside (get_or crc 2 0) in
      let d2 = b64dec_char outside (get_or crc 3 0) in
      let d3 = b64dec_char outside (get_or crc 4 0) in
      if (length crc == 5) && (get_or crc 0 0 == 61)
      then (if ltb d0 64 && ltb d1 64 && ltb d2 64 && ltb d3 64
          then (true, skip_line (record param { readcrc = crc_bytes d0 d1 d2 d3 }) 5)
          else (false, param))
      else (false, param)

  pub armor_read_crc : (ℕ → ℕ) → ArmoredSource P C → Bool × ArmoredSource P C
  unfolding crc_of
  armor_read_crc outside param = elim (src_peek_line read param.readsrc 8) [
    | minus_one s ↦ (false, over param s)
    | returned crc s ↦ crc_of outside crc (over param s)
  ]

  -- `armorhdr` has five characters at least.
  pub armor_read_trailer : ArmoredSource P C → Bool × ArmoredSource P C
  unfolding strncmp_eq
  armor_read_trailer param =
      let st = codes "-----END" ++ (drop 5 param.armorhdr ++ codes "-----") in
      let stlen = length param.armorhdr + 8 in
      elim (src_peek read param.readsrc stlen) [
        | minus_one s ↦ (false, over param s)
        | returned str s ↦
            if ltb (length str) stlen || not (strncmp_eq stlen str st)
            then (false, over param s)
            else (true, over param (state (src_skip read alloc s stlen)))
      ]
