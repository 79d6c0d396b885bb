-- ===== src/Armor/Source/Decode.antt =====
-- The decoding of base64 in src/librepgp/stream-armor.c reads what its encoding writes.
use rnp.Prelude.{
  ℕ, suc, ◌+◌, ◌*◌, ◌/◌, ◌%◌, ◌<◌, ◌≡◌, refl, sym, ap, ap₂, ◌∙◌, Bool, true, false, arith,
}
use rnp.Prelude.{List, [], ◌∷◌, ◌++◌, length, ltb, ◌==◌, ◌||◌, if◌then◌else◌}
use rnp.Prelude.{append_assoc, append-nil, lt→ltb}
use rnp.Prelude.Bits.{holds_below, agree_below}
use rnp.Armor.Base64.{digit, quad}
use rnp.Armor.Dest.{eol_of}
use rnp.Armor.Dest.Line.{AreBytes}
use rnp.Armor.Reference.{encode, pad, body}
use rnp.Armor.Source.{b64dec, padding, scan_block, decode4, decode_groups, last_group}
use rnp.Armor.Source.{decode_last}

-- The two tables are inverse to each other.
b64dec-digit : (i : ℕ) → i < 64 → b64dec (digit i) ≡ i
unfolding b64dec digit holds_below
b64dec-digit = agree_below _ _ 64 refl

scan-digit :
    (i : ℕ) (xs dec : List ℕ) (pos : ℕ)
    → i < 64
    → scan_block (digit i ∷ xs) dec pos ≡ scan_block xs (dec ++ (i ∷ [])) (suc pos)
unfolding scan_block
scan-digit i xs dec pos h = rw (b64dec-digit i h, lt→ltb i 64 h)

scan-eol :
    (crlf : Bool) (xs dec : List ℕ) (pos : ℕ)
    → (pos' : ℕ) × (scan_block (eol_of crlf ++ xs) dec pos ≡ scan_block xs dec pos')
unfolding scan_block b64dec
scan-eol true xs dec pos = (suc (suc pos), refl)
scan-eol false xs dec pos = (suc pos, refl)

scan-padding : (xs dec : List ℕ) (pos : ℕ) → scan_block (61 ∷ xs) dec pos ≡ padding dec (suc pos)
unfolding scan_block b64dec
scan-padding xs dec pos = refl

-- The 6-bit numbers of bytes.
pub sextets : List ℕ → List ℕ
sextets [] = []
sextets (a ∷ []) = (a / 4) ∷ (a % 4 * 16) ∷ []
sextets (a ∷ b ∷ []) = (a / 4) ∷ (a % 4 * 16 + b / 16) ∷ (b % 16 * 4) ∷ []
sextets (a ∷ b ∷ c ∷ more) =
    (a / 4) ∷ (a % 4 * 16 + b / 16) ∷ (b % 16 * 4 + c / 64) ∷ (c % 64) ∷ sextets more

-- How often `=` pads the bytes.
pub pads : List ℕ → ℕ
pads [] = 0
pads (a ∷ []) = 2
pads (a ∷ b ∷ []) = 1
pads (a ∷ b ∷ c ∷ more) = pads more

scan-quad :
    (a b c : ℕ) (xs dec : List ℕ) (pos : ℕ)
    → a < 256
    → b < 256
    → c < 256
    → scan_block (quad a b c ++ xs) dec pos
      ≡ scan_block xs
          (dec ++ ((a / 4) ∷ (a % 4 * 16 + b / 16) ∷ (b % 16 * 4 + c / 64) ∷ (c % 64) ∷ []))
          (suc (suc (suc (suc pos))))
unfolding quad
scan-quad a b c xs dec pos sa sb sc =
    rw
      (
        scan-digit (a / 4)
            (digit (a % 4 * 16 + b / 16) ∷ digit (b % 16 * 4 + c / 64) ∷ digit (c % 64) ∷ xs) dec
            pos (omega arith),
        scan-digit (a % 4 * 16 + b / 16) (digit (b % 16 * 4 + c / 64) ∷ digit (c % 64) ∷ xs)
            (dec ++ ((a / 4) ∷ [])) (suc pos) (omega arith),
        scan-digit (b % 16 * 4 + c / 64) (digit (c % 64) ∷ xs)
            ((dec ++ ((a / 4) ∷ [])) ++ ((a % 4 * 16 + b / 16) ∷ [])) (suc (suc pos)) (omega arith),
        scan-digit (c % 64) xs
            (((dec ++ ((a / 4) ∷ [])) ++ ((a % 4 * 16 + b / 16) ∷ []))
              ++ ((b % 16 * 4 + c / 64) ∷ []))
            (suc (suc (suc pos))) (omega arith),
      )
      (simp append_assoc)

-- The numbers of three bytes.
abbrev four : ℕ → ℕ → ℕ → List ℕ
four a b c = (a / 4) ∷ (a % 4 * 16 + b / 16) ∷ (b % 16 * 4 + c / 64) ∷ (c % 64) ∷ []

-- Four digits, with the end of the line or not.
scan-front :
    (crlf full : Bool) (a b c : ℕ) (xs dec : List ℕ) (pos : ℕ)
    → a < 256
    → b < 256
    → c < 256
    → (pos' : ℕ) × (scan_block ((quad a b c ++ (if full then eol_of crlf else [])) ++ xs) dec pos
        ≡ scan_block xs (dec ++ four a b c) pos')
scan-front crlf true a b c xs dec pos sa sb sc =
    let p = suc (suc (suc (suc pos))) in
    let (p', e) = scan-eol crlf xs (dec ++ four a b c) p in
    (
      p',
      ap (λ l. scan_block l dec pos) (append_assoc (quad a b c) (eol_of crlf) xs)
          ∙ scan-quad a b c (eol_of crlf ++ xs) dec pos sa sb sc
          ∙ e,
    )
scan-front crlf false a b c xs dec pos sa sb sc = (
  suc (suc (suc (suc pos))),
  ap (λ l. scan_block l dec pos) (append_assoc (quad a b c) [] xs)
      ∙ scan-quad a b c xs dec pos sa sb sc,
)

-- Bytes come back from their numbers.
decode-sextets :
    (bytes : List ℕ)
    → AreBytes bytes
    → decode_groups (sextets bytes) ++ decode_last (last_group (sextets bytes)) (pads bytes) ≡ bytes
unfolding decode_groups decode_last last_group decode4 sextets pads
decode-sextets [] h = refl
decode-sextets (a ∷ []) (sa, _) = ap (λ x. x ∷ []) (omega arith)
decode-sextets (a ∷ b ∷ []) (sa, (sb, _)) = ap₂ (λ x y. x ∷ y ∷ []) (omega arith) (omega arith)
decode-sextets (a ∷ b ∷ c ∷ more) (sa, (sb, (sc, h))) =
    let t = a / 4 * 262144 + (a % 4 * 16 + b / 16) * 4096 + (b % 16 * 4 + c / 64) * 64 + c % 64 in
    let first : t / 65536 % 256 ≡ a = omega arith in
    let second : t / 256 % 256 ≡ b = omega arith in
    let third : t % 256 ≡ c = omega arith in
    let others = decode-sextets more h in λ i. first i ∷ second i ∷ third i ∷ others i

-- The digits of the last bytes, before a `=`.
scan-rest :
    (crlf ended : Bool) (bytes rest dec : List ℕ) (pos : ℕ)
    → length bytes < 3
    → AreBytes bytes
    → (pos' : ℕ) × (scan_block
          (pad bytes ++ ((if ended then eol_of crlf else []) ++ (61 ∷ rest)))
          dec
          pos
        ≡ padding (dec ++ sextets bytes) pos')
unfolding pad sextets
scan-rest crlf true [] rest dec pos few h =
    let (p, e) = scan-eol crlf (61 ∷ rest) dec pos in
    (suc p, e ∙ scan-padding rest dec p ∙ ap (λ d. padding d (suc p)) (sym (append-nil dec)))
scan-rest crlf false [] rest dec pos few h =
    (suc pos, scan-padding rest dec pos ∙ ap (λ d. padding d (suc pos)) (sym (append-nil dec)))
scan-rest crlf ended (a ∷ []) rest dec pos few (sa, _) =
    let d0 = a / 4 in
    let d1 = a % 4 * 16 in
    let more = (if ended then eol_of crlf else []) ++ (61 ∷ rest) in
    (
      suc (suc (suc pos)),
      rw
          (
            scan-digit d0 (digit d1 ∷ 61 ∷ 61 ∷ more) dec pos (omega arith),
            scan-digit d1 (61 ∷ 61 ∷ more) (dec ++ (d0 ∷ [])) (suc pos) (omega arith),
            scan-padding (61 ∷ more) ((dec ++ (d0 ∷ [])) ++ (d1 ∷ [])) (suc (suc pos)),
          )
          (simp append_assoc),
    )
scan-rest crlf ended (a ∷ b ∷ []) rest dec pos few (sa, (sb, _)) =
    let d0 = a / 4 in
    let d1 = a % 4 * 16 + b / 16 in
    let d2 = b % 16 * 4 in
    let more = (if ended then eol_of crlf else []) ++ (61 ∷ rest) in
    (
      suc (suc (suc (suc pos))),
      rw
          (
            scan-digit d0 (digit d1 ∷ digit d2 ∷ 61 ∷ more) dec pos (omega arith),
            scan-digit d1 (digit d2 ∷ 61 ∷ more) (dec ++ (d0 ∷ [])) (suc pos) (omega arith),
            scan-digit d2 (61 ∷ more) ((dec ++ (d0 ∷ [])) ++ (d1 ∷ [])) (suc (suc pos))
                (omega arith),
            scan-padding more (((dec ++ (d0 ∷ [])) ++ (d1 ∷ [])) ++ (d2 ∷ []))
                (suc (suc (suc pos))),
          )
          (simp append_assoc),
    )
scan-rest crlf ended (a ∷ b ∷ c ∷ bytes) rest dec pos few h = absurd (omega arith)

-- The digits of all bytes, in lines of any length.
scan-encode :
    (crlf ended : Bool) (llen column : ℕ) (bytes rest dec : List ℕ) (pos : ℕ)
    → AreBytes bytes
    → let e = encode (eol_of crlf) llen column bytes in
      (pos' : ℕ) × (scan_block
          (e.text ++ (pad e.left ++ ((if ended then eol_of crlf else []) ++ (61 ∷ rest))))
          dec
          pos
        ≡ padding (dec ++ sextets bytes) pos')
unfolding encode sextets
scan-encode crlf ended llen column [] rest dec pos h =
    scan-rest crlf ended [] rest dec pos (omega arith) h
scan-encode crlf ended llen column (a ∷ []) rest dec pos h =
    scan-rest crlf ended (a ∷ []) rest dec pos (omega arith) h
scan-encode crlf ended llen column (a ∷ b ∷ []) rest dec pos h =
    scan-rest crlf ended (a ∷ b ∷ []) rest dec pos (omega arith) h
scan-encode crlf ended llen column (a ∷ b ∷ c ∷ more) rest dec pos (sa, (sb, (sc, h))) =
    let full = column + 4 == llen in
    let e = encode (eol_of crlf) llen (if full then 0 else column + 4) more in
    let behind = pad e.left ++ ((if ended then eol_of crlf else []) ++ (61 ∷ rest)) in
    let (p, front) = scan-front crlf full a b c (e.text ++ behind) dec pos sa sb sc in
    let (p', others) =
      scan-encode crlf ended llen (if full then 0 else column + 4) more rest (dec ++ four a b c) p
        h in
    (
      p',
      ap (λ l. scan_block l dec pos)
            (append_assoc (quad a b c ++ (if full then eol_of crlf else [])) e.text behind)
          ∙ front
          ∙ others
          ∙ ap (λ d. padding d p') (append_assoc dec (four a b c) (sextets more)),
    )

-- The text that the destination makes of bytes is read back: the scan reads the lines to the `=` that
-- pads them or begins the checksum, and the numbers before it, in whole groups and a last one, decode
-- to the bytes.
pub scan_block-body :
    (crlf : Bool) (bytes rest : List ℕ)
    → AreBytes bytes
    → (dec : List ℕ) × (pos : ℕ) × (scan_block (body (eol_of crlf) bytes ++ (61 ∷ rest)) [] 0
        ≡ padding dec pos)
      × (decode_groups dec ++ decode_last (last_group dec) (pads bytes) ≡ bytes)
unfolding body
scan_block-body crlf bytes rest h =
    let e = encode (eol_of crlf) 76 0 bytes in
    let ended = ltb 0 (length e.left) || ltb 0 e.column in
    let (pos, found) = scan-encode crlf ended 76 0 bytes rest [] 0 h in
    (
      sextets bytes,
      pos,
      ap (λ l. scan_block l [] 0) (simp append_assoc) ∙ found,
      decode-sextets bytes h,
    )
