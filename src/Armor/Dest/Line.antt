-- ===== src/Armor/Dest/Line.antt =====
-- The lines that src/librepgp/stream-armor.c encodes, against the reference.
use rnp.Prelude.{ℕ, zero, suc, ◌+◌, ◌*◌, ◌≤◌, ◌<◌, ◌≡◌, refl, false, arith}
use rnp.Prelude.{List, [], ◌∷◌, ◌++◌, length, take, drop, All, ◌==◌, if◌then◌else◌}
use rnp.Prelude.{append_assoc, append-nil, ne→==}
use rnp.Armor.Base64.{encode_word-quad}
use rnp.Armor.Dest.{encode_line}
use rnp.Armor.Reference.{Encoded, encode}

abbrev pub AreBytes : List ℕ → Type 0
AreBytes = All (λ b. b < 256)

module _ (eol : List ℕ) (llen : ℕ) where
  -- What the reference makes of whole triples that fit into the line.
  abbrev pub line_end : List ℕ → ℕ → Encoded
  line_end text column =
      let full = column == llen in
      record {
        text = text ++ (if full then eol else []);
        column = if full then 0 else column;
        left = [];
      }

  pub encode-line :
      (m column : ℕ) (xs : List ℕ)
      → length xs ≡ 3 * suc m
      → column + 4 * suc m ≤ llen
      → AreBytes xs
      → encode eol llen column xs ≡ line_end (encode_line xs) (column + 4 * suc m)
  unfolding encode encode_line
  encode-line m column [] size fits bytes = absurd (omega arith)
  encode-line m column (a ∷ []) size fits bytes = absurd (omega arith)
  encode-line m column (a ∷ b ∷ []) size fits bytes = absurd (omega arith)
  encode-line zero column (a ∷ b ∷ c ∷ x ∷ xs) size fits bytes = absurd (omega arith)
  encode-line zero column (a ∷ b ∷ c ∷ []) size fits (ba, (bb, (bc, _))) =
      rw (encode_word-quad a b c ba bb bc) (simp append-nil)
  encode-line (suc m) column (a ∷ b ∷ c ∷ xs) size fits (ba, (bb, (bc, bs))) =
      let more : (column + 4 == llen) ≡ false = ne→== _ _ (λ e. omega arith) in
      let last : column + 4 + 4 * suc m ≡ column + 4 * suc (suc m) = omega arith in
      rw
        (
          more,
          encode-line m (column + 4) xs (omega arith) (omega arith) bs,
          encode_word-quad a b c ba bb bc,
        )
        (rw last (simp append_assoc))

pub AreBytes-take : (n : ℕ) (xs : List ℕ) → AreBytes xs → AreBytes (take n xs)
AreBytes-take zero xs h = tt
AreBytes-take (suc n) [] h = tt
AreBytes-take (suc n) (x ∷ xs) (b, h) = (b, AreBytes-take n xs h)

pub AreBytes-drop : (n : ℕ) (xs : List ℕ) → AreBytes xs → AreBytes (drop n xs)
AreBytes-drop zero xs h = h
AreBytes-drop (suc n) [] h = tt
AreBytes-drop (suc n) (x ∷ xs) (b, h) = AreBytes-drop n xs h

pub AreBytes-append : (xs ys : List ℕ) → AreBytes xs → AreBytes ys → AreBytes (xs ++ ys)
AreBytes-append [] ys h k = k
AreBytes-append (x ∷ xs) ys (b, h) k = (b, AreBytes-append xs ys h k)

-- Less than three bytes are left as they are.
pub encode_short :
    (eol : List ℕ) (llen column : ℕ) (xs : List ℕ)
    → length xs < 3
    → encode eol llen column xs ≡ record { text = []; column = column; left = xs }
unfolding encode
encode_short eol llen column [] h = refl
encode_short eol llen column (a ∷ []) h = refl
encode_short eol llen column (a ∷ b ∷ []) h = refl
encode_short eol llen column (a ∷ b ∷ c ∷ xs) h = absurd (omega arith)
