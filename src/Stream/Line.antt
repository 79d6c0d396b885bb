-- ===== src/Stream/Line.antt =====
-- `src_skip_eol` and `src_peek_line` of src/librepgp/stream-common.c.
pub mod Lines
pub mod Found
use rnp.Prelude.{ℕ, zero, suc, ◌+◌, ◌-◌, Bool, true, false, ◌&&◌}
use rnp.Prelude.{List, [], ◌∷◌, ◌++◌, length, take, get_or, ltb, leb, ◌==◌, if◌then◌else◌}
use rnp.Errors.{Attempt, minus_one, returned}
use rnp.Stream.Source.{Source, sub64, src_peek, src_skip}

abbrev pub lf : ℕ
lf = 10

abbrev pub cr : ℕ
cr = 13

-- What the scan of a chunk finds: the line, or the line so far.
pub data Scan : Type 0 where
  line : List ℕ → Scan
  going : List ℕ → Scan

-- A carriage return at the end of the line is dropped.
pub strip_cr : List ℕ → List ℕ
strip_cr buf =
    let clen = length buf in
    if ltb 0 clen && (get_or buf (clen - 1) 0 == cr) then take (clen - 1) buf else buf

-- `for (int i = 0; i < read; i++)` of `src_peek_line`; `buf` is `buf[0 .. clen)`.
pub scan : List ℕ → List ℕ → Scan
scan buf [] = going buf
scan buf (b ∷ bs) =
    let rest = scan (buf ++ (b ∷ [])) bs in if b == lf then line (strip_cr buf) else rest

abbrev pub state {ℓ} : {S : Type 0} {A : Type ℓ} → Attempt S A → S
state (minus_one s) = s
state (returned _ s) = s

module _ {P : Type 0} (read : P → ℕ → Attempt P (List ℕ)) (alloc : ℕ → Bool) where
  -- The two tests of `src_skip_eol` on the bytes that it peeked at.
  pub skip_eol_at : List ℕ → Source P → Bool × Source P
  skip_eol_at eol s =
      if leb 1 (length eol) && (get_or eol 0 0 == lf)
      then (true, state (src_skip read alloc s 1))
      else if (length eol == 2) && (get_or eol 0 0 == cr) && (get_or eol 1 0 == lf)
      then (true, state (src_skip read alloc s 2))
      else (false, s)

  pub src_skip_eol : Source P → Bool × Source P
  unfolding skip_eol_at
  src_skip_eol s = elim (src_peek read s 2) [
    | minus_one s' ↦ (false, s')
    | returned eol s' ↦ skip_eol_at eol s'
  ]

module _ {P : Type 0} (read : P → ℕ → Attempt P (List ℕ)) where
  -- What a round of `src_peek_line` does with the bytes that it peeked at. `again` is the loop.
  pub peek_line_round :
      (Source P → List ℕ → Attempt (Source P) (List ℕ))
      → ℕ
      → List ℕ
      → Attempt (Source P) (List ℕ)
      → Attempt (Source P) (List ℕ)
  peek_line_round again len buf (minus_one s) = minus_one s
  peek_line_round again len buf (returned [] s) = minus_one s
  peek_line_round again len buf (returned (b ∷ bs) s) = elim (scan buf (b ∷ bs)) [
    | line found ↦ returned found s
    | going buf' ↦ if ltb (length buf') len then again s buf' else minus_one s
  ]

  -- The loop of `src_peek_line`, where `len` leaves no place for the `\\0`. A round adds a byte to
  -- `buf` or ends the loop, so `len` rounds are enough.
  pub peek_line_loop : ℕ → ℕ → Source P → List ℕ → Attempt (Source P) (List ℕ)
  peek_line_loop zero len s buf = minus_one s
  peek_line_loop (suc fuel) len s buf =
      let clen = length buf in
      let want = if ltb len (clen + 64) then len - clen else 64 in
      peek_line_round (peek_line_loop fuel len) len buf (src_peek read s want)

  pub src_peek_line : Source P → ℕ → Attempt (Source P) (List ℕ)
  src_peek_line s len = peek_line_loop (suc (sub64 len 1)) (sub64 len 1) s []
