-- ===== src/Armor/Dest/Rounds.antt =====
-- The rounds of `armored_dst_write` of src/librepgp/stream-armor.c against the reference.
use rnp.Prelude.{
  ℕ, zero, suc, ◌+◌, ◌-◌, ◌*◌, ◌/◌, ◌%◌, ◌≤◌, ◌<◌, ◌≡◌, refl, sym, ap, ◌∙◌, inl, inr, arith,
}
use rnp.Prelude.{List, [], ◌++◌, length, take, drop, ltb, ◌==◌, if◌then◌else◌, Bool-cases}
use rnp.Prelude.{
  append_assoc, append-nil, length-take, length-drop, take-append-drop, ltb→lt, ltb→le, ne→==,
}
use mathlib.Core.Path.{subst}
use rnp.Packet.Body.Build.{IsDest}
use rnp.Armor.Dest.{ArmoredDest, Lines, encbuf_size, eol_of, encode_line, make_space, put_line}
use rnp.Armor.Dest.{line_round, line_rounds}
use rnp.Armor.Reference.{Encoded, behind, encode, encode-append}
use rnp.Armor.Dest.Line.{AreBytes, AreBytes-take, AreBytes-drop, line_end, encode-line}

-- The input that the line has place for.
pub want_lem :
    (llen lout : ℕ)
    → llen ≡ 76
    → (if lout == 0 then llen / 4 + llen / 2 else (llen - lout) / 4 * 3) ≡ (76 - lout) / 4 * 3
want_lem llen lout e = ground arith

module _ {D C : Type 0} (dst_write : D → List ℕ → D) (sent : D → List ℕ) (IsOpen : D → Type 0)
    (dest : IsDest dst_write sent IsOpen) where
  -- The state of the loop: the line has room for whole groups of four digits.
  pub record IsLines (st : Lines D C) : Type 0 where
    pub line : st.param.llen ≡ 76
    pub aligned : st.param.lout % 4 ≡ 0
    pub column : st.param.lout < 76
    pub is_open : IsOpen st.param.writedst
    pub bytes : AreBytes st.buf

  -- All the text that a state has made: what was sent, and `encbuf`.
  abbrev pub made : Lines D C → List ℕ
  made st = sent st.param.writedst ++ st.encbuf

  abbrev pub rest_of : Lines D C → Encoded
  rest_of st = encode (eol_of st.param.usecrlf) 76 st.param.lout st.buf

  -- From `st` to `end` the loop made a part of the text that the reference makes of the input, and
  -- only sent, moved the column, and took input.
  pub record Advances (st end : Lines D C) : Type 0 where
    pub text : List ℕ
    pub went : made end ≡ made st ++ text
    pub same : rest_of st ≡ behind text (rest_of end)
    pub fine : IsLines end
    pub others :
        end.param ≡ record (st.param) { writedst = end.param.writedst; lout = end.param.lout }

  Advances-trans : (st mid end : Lines D C) → Advances st mid → Advances mid end → Advances st end
  Advances-trans st mid end h k = record {
    text = h.text ++ k.text;
    went = k.went ∙ rw h.went (append_assoc (made st) h.text k.text);
    same =
        h.same
        ∙ rw k.same (
            ap (λ t. record (rest_of end) { text = t })
              (sym (append_assoc h.text k.text (rest_of end).text)));
    fine = k.fine;
    others =
        k.others
        ∙ ap
            (λ (p : ArmoredDest D C). record p {
              writedst = end.param.writedst;
              lout = end.param.lout;
            })
            h.others;
  }

  make_space-Advances : (st : Lines D C) → IsLines st → Advances st (make_space dst_write st)
  unfolding make_space
  make_space-Advances st h =
      elim (Bool-cases (ltb (encbuf_size - st.param.llen - 2) (length st.encbuf))) [
        | inl over ↦
            let (e, o) = dest.write_law st.param.writedst st.encbuf h.is_open in
            rw over (record {
              text = [];
              went = rw e (append-nil _) ∙ sym (append-nil _);
              same = refl;
              fine = record {
                line = h.line;
                aligned = h.aligned;
                column = h.column;
                is_open = o;
                bytes = h.bytes;
              };
              others = refl;
            })
        | inr room ↦
            rw room (record {
              text = [];
              went = sym (append-nil _);
              same = refl;
              fine = h;
              others = refl;
            })
      ]

  -- The state behind `n` bytes of input.
  abbrev behind_line : Lines D C → ℕ → ℕ → List ℕ → Lines D C
  behind_line st n lout eol = record {
    param = record (st.param) { lout = lout };
    encbuf = st.encbuf ++ (encode_line (take n st.buf) ++ eol);
    buf = drop n st.buf;
  }

  behind_line-Advances :
      (st : Lines D C) (m n lout : ℕ) (eol : List ℕ)
      → n ≡ 3 * suc m
      → n ≤ length st.buf
      → st.param.lout + 4 * suc m ≤ 76
      → line_end
          (eol_of st.param.usecrlf)
          76
          (encode_line (take n st.buf))
          (st.param.lout + 4 * suc m)
        ≡ record { text = encode_line (take n st.buf) ++ eol; column = lout; left = [] }
      → lout % 4 ≡ 0
      → lout < 76
      → IsLines st
      → Advances st (behind_line st n lout eol)
  behind_line-Advances st m n lout eol size le fits e aligned small h =
      let crlf = eol_of st.param.usecrlf in
      let front =
        encode-line crlf 76 m st.param.lout (take n st.buf) (length-take {0} n st.buf ∙ omega arith)
          fits (AreBytes-take n st.buf h.bytes) in
      record {
        text = encode_line (take n st.buf) ++ eol;
        went = sym (append_assoc (sent st.param.writedst) st.encbuf _);
        same =
            ap (encode crlf 76 st.param.lout) (sym (take-append-drop n st.buf))
            ∙ encode-append crlf 76 st.param.lout (take n st.buf) (drop n st.buf)
            ∙ rw (front ∙ e) refl;
        fine = record {
          line = h.line;
          aligned = aligned;
          column = small;
          is_open = h.is_open;
          bytes = AreBytes-drop n st.buf h.bytes;
        };
        others = refl;
      }

  -- A line, or what there is of it.
  put_line-Advances :
      (st : Lines D C)
      → 3 ≤ length st.buf
      → IsLines st
      → Advances st (put_line dst_write st) × (length (put_line dst_write st).buf < length st.buf)
  unfolding put_line
  put_line-Advances st some h =
      let p = st.param in
      let inllen = p.llen / 4 + p.llen / 2 in
      let want = if p.lout == 0 then inllen else (p.llen - p.lout) / 4 * 3 in
      let w = want_lem p.llen p.lout h.line in
      elim (Bool-cases (ltb (length st.buf) want)) [
        | inl short ↦
            let m = length st.buf / 3 - 1 in
            let less = ltb→lt _ _ short in
            let n = length st.buf / 3 * 3 in
            let lout = p.lout + n / 3 * 4 in
            let col : p.lout + 4 * suc m ≡ lout = omega arith in
            let inside : lout < 76 = omega (arith, w, less, h.column, h.aligned) in
            rw (short, ne→== lout 0 (λ e. omega arith))
              (
                behind_line-Advances st m n lout [] (omega arith) (omega arith) (omega arith)
                    (rw (col, ne→== lout 76 (λ e. omega arith)) refl) (omega (arith, h.aligned))
                    inside h,
                omega (arith, length-drop {0} n st.buf),
              )
        | inr full ↦
            let m = (76 - p.lout) / 4 - 1 in
            let enough = ltb→le _ _ full in
            let col : p.lout + 4 * suc m ≡ 76 = omega (arith, h.column, h.aligned) in
            rw full (
              behind_line-Advances st m want 0 (eol_of p.usecrlf)
                  (w ∙ omega (arith, h.column, h.aligned)) enough (omega arith) (rw col refl)
                  (omega arith) (omega arith) h,
              omega (arith, length-drop {0} want st.buf, w, h.column, h.aligned),
            )
      ]

  make_space-buf : (st : Lines D C) → (make_space dst_write st).buf ≡ st.buf
  unfolding make_space
  make_space-buf st = elim (Bool-cases (ltb (encbuf_size - st.param.llen - 2) (length st.encbuf))) [
    | inl over ↦ rw over refl
    | inr room ↦ rw room refl
  ]

  pub line_round-Advances :
      (st : Lines D C)
      → 3 ≤ length st.buf
      → IsLines st
      → Advances st (line_round dst_write st)
        × (length (line_round dst_write st).buf < length st.buf)
  unfolding line_round
  line_round-Advances st some h =
      let a = make_space-Advances st h in
      let same = make_space-buf st in
      let (b, less) = put_line-Advances (make_space dst_write st) (rw same some) a.fine in
      (
        Advances-trans st (make_space dst_write st) _ a b,
        subst (λ (l : List ℕ). length (line_round dst_write st).buf < length l) same less,
      )

  -- The loop makes all of it but the last one or two bytes.
  pub line_rounds-Advances :
      (fuel : ℕ) (st : Lines D C)
      → length st.buf ≤ fuel
      → IsLines st
      → Advances st (line_rounds dst_write fuel st)
        × (length (line_rounds dst_write fuel st).buf < 3)
  unfolding line_rounds
  line_rounds-Advances zero st enough h = (
    record { text = []; went = sym (append-nil _); same = refl; fine = h; others = refl },
    omega arith,
  )
  line_rounds-Advances (suc fuel) st enough h = elim (Bool-cases (ltb (length st.buf) 3)) [
    | inl end ↦ rw end (
      record { text = []; went = sym (append-nil _); same = refl; fine = h; others = refl },
      ltb→lt _ _ end,
    )
    | inr more ↦
        let (a, less) = line_round-Advances st (ltb→le _ _ more) h in
        let (b, few) = line_rounds-Advances fuel (line_round dst_write st) (omega arith) a.fine in
        rw more (Advances-trans st (line_round dst_write st) _ a b, few)
  ]
