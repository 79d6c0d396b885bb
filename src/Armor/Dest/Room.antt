-- ===== src/Armor/Dest/Room.antt =====
-- The buffer `encbuf` of `armored_dst_write` of src/librepgp/stream-armor.c has room for its text.
use rnp.Prelude.{
  ℕ, zero, suc, ◌+◌, ◌-◌, ◌*◌, ◌/◌, ◌≤◌, ◌≡◌, refl, ◌∙◌, inl, inr, Bool, true, false, arith,
}
use rnp.Prelude.{List, [], ◌∷◌, ◌++◌, length, take, ltb, ◌==◌, if◌then◌else◌, Bool-cases}
use rnp.Prelude.{length-append, length-take, ltb→lt, ltb→le}
use native.Mathlib.Nat.{le_trans}
use rnp.Packet.Body.Build.{IsDest}
use rnp.Armor.Base64.{encode_word, length-encode_word}
use rnp.Armor.Dest.{Lines, encbuf_size, eol_of, encode_line, make_space, put_line, line_round}
use rnp.Armor.Dest.{line_rounds}
use rnp.Armor.Dest.Rounds.{IsLines, want_lem, line_round-Advances}

length-encode_line : (xs : List ℕ) → 3 * length (encode_line xs) ≤ 4 * length xs
unfolding encode_line
length-encode_line [] = omega arith
length-encode_line (a ∷ []) = omega arith
length-encode_line (a ∷ b ∷ []) = omega arith
length-encode_line (a ∷ b ∷ c ∷ xs) =
    let word = encode_word (a * 65536 + b * 256 + c) in
    omega (
      arith,
      length-append {0} word (encode_line xs),
      length-encode_word (a * 65536 + b * 256 + c),
      length-encode_line xs,
    )

length-eol_of : (crlf : Bool) → length (eol_of crlf) ≤ 2
length-eol_of true = omega arith
length-eol_of false = omega arith

-- The text of one line at most.
added_room :
    (enc buf : List ℕ) (n : ℕ) (crlf ended : Bool)
    → n ≤ 57
    → length (enc ++ (encode_line (take n buf) ++ (if ended then eol_of crlf else [])))
      ≤ length enc + 78
added_room enc buf n crlf ended small =
    let digits = encode_line (take n buf) in
    let eol = if ended then eol_of crlf else [] in
    let short : length eol ≤ 2 = ground (arith, length-eol_of crlf) in
    omega (
      arith,
      length-append {0} enc (digits ++ eol),
      length-append {0} digits eol,
      length-encode_line (take n buf),
      length-take {0} n buf,
      short,
      small,
    )

-- A line takes no more than a full one.
taken_le :
    (have want lout : ℕ)
    → want ≡ (76 - lout) / 4 * 3
    → (if ltb have want then have / 3 * 3 else want) ≤ 57
taken_le have want lout e = elim (Bool-cases (ltb have want)) [
  | inl short ↦ rw short (omega (arith, ltb→lt _ _ short))
  | inr full ↦ rw full (omega arith)
]

module _ {D C : Type 0} (dst_write : D → List ℕ → D) (sent : D → List ℕ) (IsOpen : D → Type 0)
    (dest : IsDest dst_write sent IsOpen) where
  make_space-room :
      (st : Lines D C)
      → st.param.llen ≡ 76
      → length (make_space dst_write st).encbuf + 78 ≤ encbuf_size
  unfolding make_space
  make_space-room st line =
      elim (Bool-cases (ltb (encbuf_size - st.param.llen - 2) (length st.encbuf))) [
        | inl over ↦ rw over (omega arith)
        | inr room ↦ rw room (omega (arith, ltb→le _ _ room))
      ]

  put_line-room :
      (st : Lines D C)
      → st.param.llen ≡ 76
      → length (put_line dst_write st).encbuf ≤ length st.encbuf + 78
  unfolding put_line
  put_line-room st line =
      let p = st.param in
      let want = if p.lout == 0 then p.llen / 4 + p.llen / 2 else (p.llen - p.lout) / 4 * 3 in
      added_room st.encbuf st.buf _ p.usecrlf _
        (taken_le (length st.buf) want p.lout (want_lem p.llen p.lout line))

  make_space-llen : (st : Lines D C) → (make_space dst_write st).param.llen ≡ st.param.llen
  unfolding make_space
  make_space-llen st =
      elim (Bool-cases (ltb (encbuf_size - st.param.llen - 2) (length st.encbuf))) [
        | inl over ↦ rw over refl
        | inr room ↦ rw room refl
      ]

  line_round-room :
      (st : Lines D C) → st.param.llen ≡ 76 → length (line_round dst_write st).encbuf ≤ encbuf_size
  unfolding line_round
  line_round-room st line =
      le_trans (put_line-room (make_space dst_write st) (make_space-llen st ∙ line))
        (make_space-room st line)

  -- After every round of `armored_dst_write`, the text in `encbuf` is within it, however much input
  -- there is, if it was before the first.
  pub line_rounds-room :
      (fuel : ℕ) (st : Lines D C)
      → IsLines dst_write sent IsOpen dest st
      → length st.encbuf ≤ encbuf_size
      → length (line_rounds dst_write fuel st).encbuf ≤ encbuf_size
  unfolding line_rounds
  line_rounds-room zero st h room = room
  line_rounds-room (suc fuel) st h room = elim (Bool-cases (ltb (length st.buf) 3)) [
    | inl end ↦ rw end room
    | inr more ↦
        let (a, less) = line_round-Advances dst_write sent IsOpen dest st (ltb→le _ _ more) h in
        rw more (line_rounds-room fuel (line_round dst_write st) a.fine (line_round-room st h.line))
  ]
