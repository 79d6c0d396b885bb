-- ===== src/Stream/Line/Lines.antt =====
-- Lines and their ends, and how `src_peek_line` of src/librepgp/stream-common.c scans for one.
use rnp.Prelude.{ℕ, zero, suc, ◌≡◌, refl, sym, ap, inl, inr, ◌&&◌, arith}
use rnp.Prelude.{List, [], ◌∷◌, ◌++◌, take, ◌==◌, if◌then◌else◌}
use rnp.Prelude.{Bool-cases, Option-cases}
use mathlib.Core.Option
use rnp.Prelude.{Option, none, some, append_assoc, append-nil}
use rnp.Errors.{Attempt, minus_one, returned}
use rnp.Stream.Line.{lf, cr, line, going, strip_cr, scan}

-- The length of the end of line that a text begins with, 0 if it begins with none.
abbrev pub eol_len : List ℕ → ℕ
eol_len [] = 0
eol_len (b ∷ []) = if b == lf then 1 else 0
eol_len (b ∷ c ∷ bs) = if b == lf then 1 else if (b == cr) && (c == lf) then 2 else 0

-- The bytes in front of the first line feed, if there is one.
abbrev pub line_of : List ℕ → Option (List ℕ)
line_of [] = none
line_of (b ∷ bs) =
    let rest = line_of bs in if b == lf then some [] else Option.map (λ l. b ∷ l) rest

-- A line without the carriage return that it ends with, if it ends with one.
abbrev pub without_cr : List ℕ → List ℕ
without_cr [] = []
without_cr (b ∷ []) = if b == cr then [] else b ∷ []
without_cr (b ∷ c ∷ bs) = b ∷ without_cr (c ∷ bs)

-- The first line without its end of line, or -1.
abbrev pub answer {ℓ} : {S : Type ℓ} → Option (List ℕ) → S → Attempt S (List ℕ)
answer none s = minus_one s
answer (some l) s = returned (without_cr l) s

pub strip_cr_lem : (l : List ℕ) → strip_cr l ≡ without_cr l
unfolding strip_cr
strip_cr_lem [] = refl
strip_cr_lem (b ∷ []) = ground arith
strip_cr_lem (b ∷ c ∷ bs) = let rest = strip_cr_lem (c ∷ bs) in ground (arith, rest)

pub line_of-take : (k : ℕ) (xs : List ℕ) → line_of xs ≡ none → line_of (take k xs) ≡ none
line_of-take zero xs h = refl
line_of-take (suc k) [] h = refl
line_of-take (suc k) (x ∷ xs) h = ground (arith, line_of-take k xs)

pub scan-none : (buf bs : List ℕ) → line_of bs ≡ none → scan buf bs ≡ going (buf ++ bs)
unfolding scan
scan-none buf [] h = ap going (sym (append-nil buf))
scan-none buf (b ∷ bs) h =
    ground (arith, scan-none (buf ++ (b ∷ [])) bs, append_assoc buf (b ∷ []) bs)

pub scan-some : (buf bs l : List ℕ) → line_of bs ≡ some l → scan buf bs ≡ line (strip_cr (buf ++ l))
unfolding scan
scan-some buf [] l h = cc
scan-some buf (b ∷ bs) l h = elim (Bool-cases (b == lf)) [
  | inl here ↦ ground (arith, append-nil buf)
  | inr later ↦ elim (Option-cases (line_of bs)) [
    | inl missing ↦ ground arith
    | inr (l', found) ↦
        let tail = scan-some (buf ++ (b ∷ [])) bs l' found in
        ground (arith, tail, append_assoc buf (b ∷ []) l')
  ]
]
