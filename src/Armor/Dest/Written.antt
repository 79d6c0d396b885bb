-- ===== src/Armor/Dest/Written.antt =====
-- What the callbacks of the armoring destination of src/librepgp/stream-armor.c send.
use rnp.Prelude.{ℕ, ◌+◌, ◌-◌, ◌%◌, ◌≤◌, ◌<◌, ◌≡◌, refl, sym, ap, ◌∙◌, inl, inr, arith}
use rnp.Prelude.{List, [], ◌∷◌, ◌++◌, length, take, drop, get_or, ltb, ◌==◌, Bool-cases}
use rnp.Prelude.{append_assoc, append-nil, length-append, length-eq-zero, ltb→lt, ltb→le}
use mathlib.Core.Path.{subst}
use rnp.Errors.{success}
use rnp.Packet.Body.Build.{IsDest}
use rnp.Armor.Base64.{armored_encode3-quad}
use rnp.Armor.Dest.{ArmoredDest, Lines, eol_of, line_rounds, put_tail, write_lines}
use rnp.Armor.Dest.{armored_dst_write}
use rnp.Armor.Reference.{Encoded, behind, encode}
use rnp.Armor.Dest.Line.{AreBytes, AreBytes-append, encode_short}
use rnp.Armor.Dest.Rounds.{IsLines, made, rest_of, line_rounds-Advances}

-- Three bytes, the first of them from the tail.
record Triple (tail buf : List ℕ) : Type 0 where
  a : ℕ
  b : ℕ
  c : ℕ
  more : List ℕ
  all : tail ++ buf ≡ a ∷ b ∷ c ∷ more
  first : get_or (tail ++ take (3 - length tail) buf) 0 0 ≡ a
  second : get_or (tail ++ take (3 - length tail) buf) 1 0 ≡ b
  third : get_or (tail ++ take (3 - length tail) buf) 2 0 ≡ c
  rest : drop (3 - length tail) buf ≡ more
  small_a : a < 256
  small_b : b < 256
  small_c : c < 256
  bytes : AreBytes more

triple :
    (tail buf : List ℕ)
    → 0 < length tail
    → 3 ≤ length buf + length tail
    → length tail < 3
    → AreBytes tail
    → AreBytes buf
    → Triple tail buf
triple [] buf some enough few bt bb = absurd (omega arith)
triple (x ∷ y ∷ z ∷ t) buf some enough few bt bb = absurd (omega arith)
triple (x ∷ []) [] some enough few bt bb = absurd (omega arith)
triple (x ∷ []) (y ∷ []) some enough few bt bb = absurd (omega arith)
triple (x ∷ []) (y ∷ z ∷ r) some enough few (sx, _) (sy, (sz, br)) = record {
  a = x;
  b = y;
  c = z;
  more = r;
  all = refl;
  first = refl;
  second = refl;
  third = refl;
  rest = refl;
  small_a = sx;
  small_b = sy;
  small_c = sz;
  bytes = br;
}
triple (x ∷ y ∷ []) [] some enough few bt bb = absurd (omega arith)
triple (x ∷ y ∷ []) (z ∷ r) some enough few (sx, (sy, _)) (sz, br) = record {
  a = x;
  b = y;
  c = z;
  more = r;
  all = refl;
  first = refl;
  second = refl;
  third = refl;
  rest = refl;
  small_a = sx;
  small_b = sy;
  small_c = sz;
  bytes = br;
}

-- The callback does not fail: an error of the destination below shows when the message is finished.
pub armored_dst_write-success :
    {D C : Type 0} (dst_write : D → List ℕ → D) (hash_add : C → List ℕ → C) (p : ArmoredDest D C)
    (n : ℕ) (buf : List ℕ)
    → (armored_dst_write dst_write hash_add p n buf).0 ≡ success
unfolding armored_dst_write
armored_dst_write-success dst_write hash_add p n buf =
    elim (Bool-cases (ltb (length buf + length p.tail) 3)) [
      | inl few ↦ rw few refl
      | inr enough ↦ elim (Bool-cases (ltb 0 (length p.tail))) [
        | inl some ↦ rw (enough, some) refl
        | inr none ↦ rw (enough, none) refl
      ]
    ]

module _ {D C : Type 0} (dst_write : D → List ℕ → D) (sent : D → List ℕ) (IsOpen : D → Type 0)
    (dest : IsDest dst_write sent IsOpen) where
  -- The invariant of an armoring destination.
  pub record IsArmored (p : ArmoredDest D C) : Type 0 where
    pub line : p.llen ≡ 76
    pub aligned : p.lout % 4 ≡ 0
    pub column : p.lout < 76
    pub is_open : IsOpen p.writedst
    pub bytes : AreBytes p.tail
    pub few : length p.tail < 3

  -- `p'` is `p` after the text of `e`, with its column and what it left.
  pub record Made (p : ArmoredDest D C) (e : Encoded) (crc : C) (p' : ArmoredDest D C)
      : Type 0 where
    pub went : sent p'.writedst ≡ sent p.writedst ++ e.text
    pub column : p'.lout ≡ e.column
    pub left : p'.tail ≡ e.left
    pub hashed : p'.crc_ctx ≡ crc
    pub type : p'.type ≡ p.type
    pub usecrlf : p'.usecrlf ≡ p.usecrlf
    pub fine : IsArmored p'

  write_lines-Made :
      (st : Lines D C) (p : ArmoredDest D C) (front : List ℕ)
      → IsLines dst_write sent IsOpen dest st
      → made dst_write sent IsOpen dest st ≡ sent p.writedst ++ front
      → st.param.type ≡ p.type
      → st.param.usecrlf ≡ p.usecrlf
      → Made p
          (behind front (rest_of dst_write sent IsOpen dest st))
          st.param.crc_ctx
          (write_lines dst_write st)
  unfolding write_lines
  write_lines-Made st p front h so_far type crlf =
      let end = line_rounds dst_write (length st.buf) st in
      let (a, few) =
        line_rounds-Advances dst_write sent IsOpen dest (length st.buf) st (omega arith) h in
      let (e, o) = dest.write_law end.param.writedst end.encbuf a.fine.is_open in
      let last =
        a.same
        ∙ ap (behind a.text)
            (encode_short (eol_of end.param.usecrlf) 76 end.param.lout end.buf few) in
      record {
        went = e ∙ a.went ∙ rw (so_far, last) (simp (append_assoc, append-nil));
        column = sym (ap (λ x. x.column) last);
        left = sym (ap (λ x. x.left) last);
        hashed = ap (λ x. x.crc_ctx) a.others;
        type = ap (λ x. x.type) a.others ∙ type;
        usecrlf = ap (λ x. x.usecrlf) a.others ∙ crlf;
        fine = record {
          line = a.fine.line;
          aligned = a.fine.aligned;
          column = a.fine.column;
          is_open = o;
          bytes = a.fine.bytes;
          few = few;
        };
      }

  -- The tail and the first of the new bytes make four digits.
  put_tail-IsLines :
      (p : ArmoredDest D C) (buf : List ℕ)
      → 0 < length p.tail
      → 3 ≤ length buf + length p.tail
      → AreBytes buf
      → IsArmored p
      → IsLines dst_write sent IsOpen dest (put_tail dst_write p buf)
        × (encode (eol_of p.usecrlf) 76 p.lout (p.tail ++ buf)
            ≡ behind
                (put_tail dst_write p buf).encbuf
                (rest_of dst_write sent IsOpen dest (put_tail dst_write p buf)))
  unfolding put_tail encode
  put_tail-IsLines p buf some enough bytes h =
      let t = triple p.tail buf some enough h.few h.bytes bytes in
      let full = p.lout + 4 == p.llen in
      let same : (p.lout + 4 == 76) ≡ full = ap (λ n. p.lout + 4 == n) (sym h.line) in
      let q = armored_encode3-quad t.a t.b t.c t.small_a t.small_b t.small_c in
      (
        record {
          line = h.line;
          aligned = ground (arith, h.aligned, h.line);
          column = ground (arith, h.column, h.aligned, h.line);
          is_open = h.is_open;
          bytes = rw t.rest t.bytes;
        },
        rw (t.all, t.first, t.second, t.third, t.rest, q, same) refl,
      )

  tagged : {p : ArmoredDest D C} {crc : C} → IsArmored p → IsArmored (record p { crc_ctx = crc })
  tagged h = record {
    line = h.line;
    aligned = h.aligned;
    column = h.column;
    is_open = h.is_open;
    bytes = h.bytes;
    few = h.few;
  }

  -- One call of the callback: it makes the digits of the tail and of the new bytes, in lines, as the
  -- reference does, keeps what the reference leaves, adds the bytes to the checksum, and keeps the
  -- invariant.
  pub armored_dst_write-Made :
      (hash_add : C → List ℕ → C) (p : ArmoredDest D C) (n : ℕ) (buf : List ℕ)
      → AreBytes buf
      → IsArmored p
      → let (res, p') = armored_dst_write dst_write hash_add p n buf in
        (res ≡ success)
        × Made p (encode (eol_of p.usecrlf) 76 p.lout (p.tail ++ buf)) (hash_add p.crc_ctx buf) p'
  unfolding armored_dst_write
  armored_dst_write-Made hash_add p n buf bytes h =
      let q = record p { crc_ctx = hash_add p.crc_ctx buf } in
      elim (Bool-cases (ltb (length buf + length p.tail) 3)) [
        | inl few ↦
            let size = length-append {0} p.tail buf in
            let less = ltb→lt _ _ few in
            rw few (
              refl,
              rw
                  (encode_short (eol_of p.usecrlf) 76 p.lout (p.tail ++ buf)
                    (omega (arith, size, less)))
                  (record {
                    went = sym (append-nil _);
                    column = refl;
                    left = refl;
                    hashed = refl;
                    type = refl;
                    usecrlf = refl;
                    fine = record {
                      line = h.line;
                      aligned = h.aligned;
                      column = h.column;
                      is_open = h.is_open;
                      bytes = AreBytes-append p.tail buf h.bytes bytes;
                      few = omega (arith, size, less);
                    };
                  }),
            )
        | inr enough ↦ elim (Bool-cases (ltb 0 (length p.tail))) [
          | inl some ↦
              let st = put_tail dst_write q buf in
              let (lines, e) =
                put_tail-IsLines q buf (ltb→lt _ _ some) (ltb→le _ _ enough) bytes (tagged h) in
              rw (enough, some)
                (
                  refl,
                  subst (λ x. Made p x (hash_add p.crc_ctx buf) (write_lines dst_write st)) (sym e)
                      (write_lines-Made st p st.encbuf lines refl refl refl),
                )
          | inr none ↦
              let st : Lines D C = record { param = q; encbuf = []; buf = buf } in
              let empty : p.tail ≡ [] = length-eq-zero p.tail (ground arith) in
              rw (enough, none)
                (
                  refl,
                  subst
                      (λ l.
                        Made p (encode (eol_of p.usecrlf) 76 p.lout (l ++ buf))
                          (hash_add p.crc_ctx buf) (write_lines dst_write st))
                      (sym empty)
                      (write_lines-Made st p []
                        (record {
                          line = h.line;
                          aligned = h.aligned;
                          column = h.column;
                          is_open = h.is_open;
                          bytes = bytes;
                        })
                        refl refl refl),
                )
        ]
      ]
