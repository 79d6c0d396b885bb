-- ===== src/Armor/Reference.antt =====
-- Base64 in lines, as RFC 4880, section 6.3, describes it, independent of how the input is cut.
use rnp.Prelude.{ℕ, ◌+◌, ◌*◌, ◌/◌, ◌%◌, ◌≡◌, refl, sym, ap}
use rnp.Prelude.{List, [], ◌∷◌, ◌++◌, length, get_or, ltb, ◌||◌, ◌==◌, if◌then◌else◌}
use rnp.Prelude.{append_assoc}
use rnp.Armor.Base64.{digit, quad}

-- Text, the column behind it, and the one or two bytes that are left.
pub record Encoded : Type 0 where
  pub text : List ℕ
  pub column : ℕ
  pub left : List ℕ

abbrev pub behind : List ℕ → Encoded → Encoded
behind front e = record e { text = front ++ e.text }

-- The digits of the input from a column on; a line of `llen` digits ends with `eol`.
unfoldable pub encode : List ℕ → ℕ → ℕ → List ℕ → Encoded
encode eol llen column [] = record { text = []; column = column; left = [] }
encode eol llen column (a ∷ []) = record { text = []; column = column; left = a ∷ [] }
encode eol llen column (a ∷ b ∷ []) = record { text = []; column = column; left = a ∷ b ∷ [] }
encode eol llen column (a ∷ b ∷ c ∷ more) =
    let full = column + 4 == llen in
    behind (quad a b c ++ (if full then eol else []))
      (encode eol llen (if full then 0 else column + 4) more)

module _ (eol : List ℕ) (llen : ℕ) where
  -- Encoding goes on where it stopped.
  pub encode-append :
      (column : ℕ) (xs ys : List ℕ)
      → encode eol llen column (xs ++ ys) ≡ (
          let e = encode eol llen column xs in
          behind e.text (encode eol llen e.column (e.left ++ ys)))
  unfolding encode
  encode-append column [] ys = refl
  encode-append column (a ∷ []) ys = refl
  encode-append column (a ∷ b ∷ []) ys = refl
  encode-append column (a ∷ b ∷ c ∷ xs) ys =
      let full = column + 4 == llen in
      let next = if full then 0 else column + 4 in
      let front = quad a b c ++ (if full then eol else []) in
      rw (encode-append next xs ys) (
        let e = encode eol llen next xs in
        ap (λ t. record (encode eol llen e.column (e.left ++ ys)) { text = t })
          (sym (append_assoc front e.text (encode eol llen e.column (e.left ++ ys)).text)))

-- The digits of the last one or two bytes, padded.
unfoldable pub pad : List ℕ → List ℕ
unfolding digit
pad [] = []
pad (a ∷ []) = digit (a / 4) ∷ digit (a % 4 * 16) ∷ 61 ∷ 61 ∷ []
pad (a ∷ b ∷ _) = digit (a / 4) ∷ digit (a % 4 * 16 + b / 16) ∷ digit (b % 16 * 4) ∷ 61 ∷ []

-- The lines of a message; the last one is ended too.
unfoldable pub body : List ℕ → List ℕ → List ℕ
body eol bytes =
    let e = encode eol 76 0 bytes in
    e.text ++ (pad e.left ++ (if ltb 0 (length e.left) || ltb 0 e.column then eol else []))

-- The line of the checksum.
abbrev pub checksum : List ℕ → List ℕ
checksum crc = 61 ∷ quad (get_or crc 0 0) (get_or crc 1 0) (get_or crc 2 0)
