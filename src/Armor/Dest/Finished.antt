-- ===== src/Armor/Dest/Finished.antt =====
-- The end of an armored message, for src/librepgp/stream-armor.c.
use rnp.Prelude.{
  ℕ, ◌+◌, ◌*◌, ◌/◌, ◌%◌, ◌^◌, ◌<◌, ◌≡◌, refl, sym, ap, ◌∙◌, inl, inr, true, some, arith,
}
use rnp.Prelude.{List, [], ◌∷◌, ◌++◌, length, get_or, ltb, ◌||◌, if◌then◌else◌, Bool-cases}
use rnp.Prelude.{append_assoc, append-nil, length-eq-zero}
use mathlib.Core.Path.{subst}
use rnp.Prelude.Bits.{bit_and_ff}
use rnp.Errors.{RnpResult}
use rnp.Stream.Dest.{Dest}
use rnp.Packet.Body.Build.{IsDest}
use rnp.Armor.Base64.{b64enc-digit, digit_mod, armored_encode3, armored_encode3-quad}
use rnp.Armor.Dest.{ArmoredDest, armor_message_header, armor_write_eol, tail_digits}
use rnp.Armor.Dest.{write_tail, end_line, write_crc, write_trailer, armored_dst_finish}
use rnp.Armor.Reference.{pad, checksum}
use rnp.Armor.Dest.Line.{AreBytes}

abbrev pub crlf : List ℕ
crlf = 13 ∷ 10 ∷ []

pub tail_digits-pad : (xs : List ℕ) → length xs < 3 → AreBytes xs → tail_digits xs ≡ pad xs
unfolding tail_digits pad
tail_digits-pad [] few h = refl
tail_digits-pad (a ∷ []) few (sa, _) = rw (
  bit_and_ff (a * 2 ^ 4),
  b64enc-digit (a / 2 ^ 2) (omega arith),
  b64enc-digit (a * 2 ^ 4 % 256) (omega arith),
  digit_mod (a * 2 ^ 4 % 256) (a % 4 * 16) (omega arith),
)
tail_digits-pad (a ∷ b ∷ []) few (sa, (sb, _)) = rw (
  bit_and_ff (a * 2 ^ 4 + b / 2 ^ 4),
  bit_and_ff (b * 2 ^ 2),
  b64enc-digit (a / 2 ^ 2) (omega arith),
  b64enc-digit ((a * 2 ^ 4 + b / 2 ^ 4) % 256) (omega arith),
  b64enc-digit (b * 2 ^ 2 % 256) (omega arith),
  digit_mod ((a * 2 ^ 4 + b / 2 ^ 4) % 256) (a % 4 * 16 + b / 16) (omega arith),
  digit_mod (b * 2 ^ 2 % 256) (b % 16 * 4) (omega arith),
)
tail_digits-pad (a ∷ b ∷ c ∷ xs) few h = absurd (omega arith)

-- A checksum of three bytes.
abbrev pub IsChecksum : List ℕ → Type 0
IsChecksum crc = (get_or crc 0 0 < 256) × (get_or crc 1 0 < 256) × (get_or crc 2 0 < 256)

-- What the `finish` callback sends.
abbrev pub ending : List ℕ → ℕ → List ℕ → List ℕ → List ℕ
ending left column crc trailer =
    pad left
    ++ ((if ltb 0 (length left) || ltb 0 column then crlf else [])
        ++ ((checksum crc ++ crlf) ++ (trailer ++ crlf)))

module _ {D C : Type 0} (dst_write : D → List ℕ → D) (sent : D → List ℕ) (IsOpen : D → Type 0)
    (dest : IsDest dst_write sent IsOpen) where
  -- `p'` is `p` with `bytes` sent, and nothing else changed.
  pub record Adds (p : ArmoredDest D C) (bytes : List ℕ) (p' : ArmoredDest D C) : Type 0 where
    pub went : sent p'.writedst ≡ sent p.writedst ++ bytes
    pub is_open : IsOpen p'.writedst
    pub others : p' ≡ record p { writedst = p'.writedst }

  pub Adds-trans :
      (p q r : ArmoredDest D C) (xs ys : List ℕ) → Adds p xs q → Adds q ys r → Adds p (xs ++ ys) r
  Adds-trans p q r xs ys h k = record {
    went = k.went ∙ rw h.went (append_assoc (sent p.writedst) xs ys);
    is_open = k.is_open;
    others = k.others ∙ ap (λ (x : ArmoredDest D C). record x { writedst = r.writedst }) h.others;
  }

  -- A step behind what was sent.
  pub Adds-then :
      (f : ArmoredDest D C → ArmoredDest D C) (p q : ArmoredDest D C) (xs ys : List ℕ)
      → Adds p xs q
      → ((d : D) → IsOpen d → Adds (record p { writedst = d }) ys (f (record p { writedst = d })))
      → Adds p (xs ++ ys) (f q)
  Adds-then f p q xs ys a next =
      Adds-trans p q (f q) xs ys a
        (subst (λ x. Adds x ys (f x)) (sym a.others) (next q.writedst a.is_open))

  pub write-Adds :
      (p : ArmoredDest D C) (bytes : List ℕ)
      → IsOpen p.writedst
      → Adds p bytes (record p { writedst = dst_write p.writedst bytes })
  write-Adds p bytes h =
      let (e, o) = dest.write_law p.writedst bytes h in
      record { went = e; is_open = o; others = refl }

  pub armor_write_eol-Adds :
      (p : ArmoredDest D C)
      → p.usecrlf ≡ true
      → IsOpen p.writedst
      → Adds p crlf (armor_write_eol dst_write p)
  unfolding armor_write_eol
  armor_write_eol-Adds p on h =
      let (e, o) = dest.write_law p.writedst crlf h in
      record { went = simp on e; is_open = simp on o; others = refl }

  write_tail-Adds :
      (p : ArmoredDest D C)
      → length p.tail < 3
      → AreBytes p.tail
      → IsOpen p.writedst
      → Adds p (pad p.tail) (write_tail dst_write p)
  unfolding write_tail
  write_tail-Adds p few bytes h = elim (Bool-cases (ltb 0 (length p.tail))) [
    | inl some_left ↦ rw some_left (
        subst (λ l. Adds p l (record p { writedst = dst_write p.writedst (tail_digits p.tail) }))
          (tail_digits-pad p.tail few bytes) (write-Adds p (tail_digits p.tail) h))
    | inr none_left ↦
        let empty : p.tail ≡ [] = length-eq-zero p.tail (ground arith) in
        rw none_left (record {
          went = sym (ap (λ l. sent p.writedst ++ pad l) empty ∙ pad_none (sent p.writedst));
          is_open = h;
          others = refl;
        })
  ]
    where
      pad_none : (l : List ℕ) → l ++ pad [] ≡ l
      pad_none l = unfold pad in append-nil l

  end_line-Adds :
      (p : ArmoredDest D C)
      → p.usecrlf ≡ true
      → IsOpen p.writedst
      → Adds p (if ltb 0 (length p.tail) || ltb 0 p.lout then crlf else []) (end_line dst_write p)
  unfolding end_line
  end_line-Adds p on h = elim (Bool-cases (ltb 0 (length p.tail) || ltb 0 p.lout)) [
    | inl open_line ↦ rw open_line (armor_write_eol-Adds p on h)
    | inr ended ↦ rw ended (record { went = sym (append-nil _); is_open = h; others = refl })
  ]

  -- A text and its end of line.
  pub line-Adds :
      (p : ArmoredDest D C) (bytes : List ℕ)
      → p.usecrlf ≡ true
      → IsOpen p.writedst
      → Adds p
          (bytes ++ crlf)
          (armor_write_eol dst_write (record p { writedst = dst_write p.writedst bytes }))
  line-Adds p bytes on h =
      let a = write-Adds p bytes h in
      Adds-trans p (record p { writedst = dst_write p.writedst bytes }) _ bytes crlf a
        (armor_write_eol-Adds (record p { writedst = dst_write p.writedst bytes }) on a.is_open)

  write_crc-Adds :
      (hash_finish : C → List ℕ) (p : ArmoredDest D C)
      → IsChecksum (hash_finish p.crc_ctx)
      → p.usecrlf ≡ true
      → IsOpen p.writedst
      → Adds p (checksum (hash_finish p.crc_ctx) ++ crlf) (write_crc dst_write hash_finish p)
  unfolding write_crc
  write_crc-Adds hash_finish p (sa, sb, sc) on h =
      let crc = hash_finish p.crc_ctx in
      rw (← armored_encode3-quad (get_or crc 0 0) (get_or crc 1 0) (get_or crc 2 0) sa sb sc)
        (line-Adds p (61 ∷ armored_encode3 (get_or crc 0 0) (get_or crc 1 0) (get_or crc 2 0)) on h)

  write_trailer-Adds :
      (p : ArmoredDest D C) (trailer : List ℕ)
      → armor_message_header p.type true ≡ some trailer
      → p.usecrlf ≡ true
      → IsOpen p.writedst
      → Adds p (trailer ++ crlf) (write_trailer dst_write p)
  unfolding write_trailer
  write_trailer-Adds p trailer e on h = rw (e, write_trailer) (line-Adds p trailer on h)

  pub armored_dst_finish-Adds :
      (hash_finish : C → List ℕ) (werr : D → RnpResult) (dst : Dest (ArmoredDest D C))
      (trailer : List ℕ)
      → let p = dst.param in
        let (res, dst') = armored_dst_finish dst_write hash_finish werr dst in
        length p.tail < 3
        → AreBytes p.tail
        → IsOpen p.writedst
        → p.usecrlf ≡ true
        → IsChecksum (hash_finish p.crc_ctx)
        → armor_message_header p.type true ≡ some trailer
        → (res ≡ werr dst'.param.writedst)
          × Adds p (ending p.tail p.lout (hash_finish p.crc_ctx) trailer) dst'.param
  unfolding armored_dst_finish
  armored_dst_finish-Adds hash_finish werr dst trailer few bytes h on sum e =
      let p = dst.param in
      let sum_line = checksum (hash_finish p.crc_ctx) ++ crlf in
      let line_end = if ltb 0 (length p.tail) || ltb 0 p.lout then crlf else [] in
      (
        refl,
        Adds-then
            (λ x. write_trailer dst_write (write_crc dst_write hash_finish (end_line dst_write x)))
            p (write_tail dst_write p) (pad p.tail) (line_end ++ (sum_line ++ (trailer ++ crlf)))
            (write_tail-Adds p few bytes h)
            (λ d1 o1.
              let p1 = record p { writedst = d1 } in
              Adds-then (λ x. write_trailer dst_write (write_crc dst_write hash_finish x)) p1
                (end_line dst_write p1) line_end (sum_line ++ (trailer ++ crlf))
                (end_line-Adds p1 on o1)
                (λ d2 o2.
                  let p2 = record p { writedst = d2 } in
                  Adds-then (write_trailer dst_write) p2 (write_crc dst_write hash_finish p2)
                    sum_line (trailer ++ crlf) (write_crc-Adds hash_finish p2 sum on o2)
                    (λ d3 o3. write_trailer-Adds (record p { writedst = d3 }) trailer e on o3))),
      )
