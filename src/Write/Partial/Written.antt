-- ===== src/Write/Partial/Written.antt =====
-- What the destination for partial lengths sends, however its input is cut into writes.
use rnp.Prelude.{
  ℕ, zero, suc, ◌+◌, ◌-◌, ◌≤◌, ◌≡◌, refl, sym, ap, ◌∙◌, inl, inr, true, false, some, arith,
}
use rnp.Prelude.{List, [], ◌∷◌, ◌++◌, length, take, drop, ltb, leb, Bool-cases}
use rnp.Prelude.{
  append_assoc, append-nil, length-append, length-take, length-drop, take-append-drop,
}
use mathlib.Core.Path.{subst}
use rnp.Errors.{RnpResult, success}
use rnp.Stream.Dest.{Dest}
use rnp.Packet.Length.{write_packet_len}
use rnp.Packet.Body.Build.{IsDest}
use rnp.Write.Partial.{PartialDest, init_partial_pkt_dst, write_part, write_full}
use rnp.Write.Partial.{full_parts, cache_rest, partial_dst_write, partial_dst_finish}
use rnp.Write.Partial.Parts.{Parts, last, Opens, Opens-part}

module _ {D : Type 0} (dst_write : D → List ℕ → D) (sent : D → List ℕ) (IsOpen : D → Type 0)
    (dest : IsDest dst_write sent IsOpen) where
  -- The destination sent whole parts behind `start`; with the part that it caches they make up
  -- `given`.
  pub record IsPartial (start given : List ℕ) (param : PartialDest D) : Type 0 where
    pub wire : List ℕ
    pub taken : List ℕ
    pub header : param.parthdr ≡ 237
    pub whole : param.partlen ≡ 8192
    pub is_open : IsOpen param.writedst
    pub went : sent param.writedst ≡ start ++ wire
    pub opens : Opens wire taken
    pub accounts : given ≡ taken ++ param.part
    pub room : length param.part ≤ 8192

  -- The bytes given, cut after `n` bytes of a buffer.
  IsPartial-cut :
      (start given buf : List ℕ) (n : ℕ) {param : PartialDest D}
      → IsPartial start ((given ++ take n buf) ++ drop n buf) param
      → IsPartial start (given ++ buf) param
  IsPartial-cut start given buf n {param} h =
      subst (λ g. IsPartial start g param)
        (append_assoc given (take n buf) (drop n buf)
          ∙ ap (λ l. given ++ l) (take-append-drop n buf))
        h

  write_part-IsPartial :
      (start given buf : List ℕ) (param : PartialDest D)
      → length param.part + length buf ≡ 8192
      → IsPartial start given param
      → IsPartial start (given ++ buf) (write_part dst_write param buf)
  unfolding write_part
  write_part-IsPartial start given buf param full h =
      let (e1, o1) = dest.write_law param.writedst (param.parthdr ∷ []) h.is_open in
      let (e2, o2) = dest.write_law (dst_write param.writedst (param.parthdr ∷ [])) param.part o1 in
      let (e3, o3) = dest.write_law _ buf o2 in
      record {
        wire = h.wire ++ (237 ∷ (param.part ++ buf));
        taken = h.taken ++ (param.part ++ buf);
        header = h.header;
        whole = h.whole;
        is_open = o3;
        went = rw (e3, e2, e1, h.went, h.header) (simp append_assoc);
        opens =
            Opens-part h.wire h.taken 13 (param.part ++ buf) (omega arith)
              (length-append param.part buf ∙ full) h.opens;
        accounts = rw h.accounts (simp (append_assoc, append-nil));
        room = omega arith;
      }

  write_full-IsPartial :
      (start given buf : List ℕ) (param : PartialDest D)
      → param.part ≡ []
      → length buf ≡ 8192
      → IsPartial start given param
      → IsPartial start (given ++ buf) (write_full dst_write param buf)
  unfolding write_full
  write_full-IsPartial start given buf param none full h =
      let (e1, o1) = dest.write_law param.writedst (param.parthdr ∷ []) h.is_open in
      let (e2, o2) = dest.write_law (dst_write param.writedst (param.parthdr ∷ [])) buf o1 in
      record {
        wire = h.wire ++ (237 ∷ buf);
        taken = h.taken ++ buf;
        header = h.header;
        whole = h.whole;
        is_open = o2;
        went = rw (e2, e1, h.went, h.header) (simp append_assoc);
        opens = Opens-part h.wire h.taken 13 buf (omega arith) full h.opens;
        accounts = rw (h.accounts, none) (simp (append_assoc, append-nil));
        room = h.room;
      }

  cache_rest-IsPartial :
      (start given buf : List ℕ) (param : PartialDest D)
      → length param.part + length buf ≤ 8192
      → IsPartial start given param
      → IsPartial start (given ++ buf) (cache_rest dst_write param buf)
  unfolding cache_rest
  cache_rest-IsPartial start given buf param fits h = record {
    wire = h.wire;
    taken = h.taken;
    header = h.header;
    whole = h.whole;
    is_open = h.is_open;
    went = h.went;
    opens = h.opens;
    accounts = rw h.accounts (append_assoc h.taken param.part buf);
    room = omega (arith, length-append {0} param.part buf);
  }

  -- The parts that are written straight from the buffer, and then the rest of it.
  full_parts-IsPartial :
      (fuel : ℕ) (start given buf : List ℕ) (param : PartialDest D)
      → length buf ≤ fuel
      → param.part ≡ []
      → IsPartial start given param
      → let (param', rest) = full_parts dst_write fuel param buf in
        IsPartial start (given ++ buf) (cache_rest dst_write param' rest)
  unfolding full_parts
  full_parts-IsPartial zero start given buf param enough none h =
      cache_rest-IsPartial start given buf param (omega (arith, ap (λ (l : List ℕ). length l) none))
        h
  full_parts-IsPartial (suc fuel) start given buf param enough none h =
      elim (Bool-cases (leb param.partlen (length buf))) [
        | inl more ↦
            let n = param.partlen in
            let size : length (take n buf) ≡ 8192 =
              ground (arith, length-take {0} n buf, h.whole) in
            let left = length-drop {0} n buf in
            rw more (
              IsPartial-cut start given buf n (
                full_parts-IsPartial fuel start (given ++ take n buf) (drop n buf)
                  (write_full dst_write param (take n buf)) (ground (arith, left, h.whole))
                  (unfold write_full in none)
                  (write_full-IsPartial start given (take n buf) param none size h)))
        | inr done ↦ rw done (
            cache_rest-IsPartial start given buf param
              (let e = ap (λ (l : List ℕ). length l) none in ground (arith, h.whole)) h)
      ]

  pub partial_dst_write-success :
      (param : PartialDest D) (writeb : ℕ) (buf : List ℕ)
      → (partial_dst_write dst_write param writeb buf).0 ≡ success
  unfolding partial_dst_write
  partial_dst_write-success param writeb buf =
      elim (Bool-cases (ltb (param.partlen - length param.part) (length buf))) [
        | inl full ↦ rw full refl
        | inr fits ↦ rw fits refl
      ]

  -- One call of the callback.
  pub partial_dst_write-IsPartial :
      (start given buf : List ℕ) (writeb : ℕ) (param : PartialDest D)
      → IsPartial start given param
      → IsPartial start (given ++ buf) (partial_dst_write dst_write param writeb buf).1
  unfolding partial_dst_write
  partial_dst_write-IsPartial start given buf writeb param h =
      let n = param.partlen - length param.part in
      elim (Bool-cases (ltb n (length buf))) [
        | inl full ↦
            let filled : length param.part + length (take n buf) ≡ 8192 =
              ground (arith, length-take {0} n buf, h.whole, h.room) in
            let left = length-drop {0} n buf in
            rw full (
              IsPartial-cut start given buf n (
                full_parts-IsPartial (length buf) start (given ++ take n buf) (drop n buf)
                  (write_part dst_write param (take n buf)) (omega (arith, left))
                  (unfold write_part in refl)
                  (write_part-IsPartial start given (take n buf) param filled h)))
        | inr fits ↦
            rw fits (cache_rest-IsPartial start given buf param (ground (arith, h.whole, h.room)) h)
      ]

  -- A new destination has sent nothing.
  pub init_partial_pkt_dst-IsPartial :
      (d : D)
      → IsOpen d
      → (dst : Dest (PartialDest D)) × (init_partial_pkt_dst true d ≡ some dst)
        × IsPartial (sent d) [] dst.param
        × (dst.werr ≡ success)
        × (dst.no_cache ≡ false)
        × (dst.cache ≡ [])
  unfolding init_partial_pkt_dst
  init_partial_pkt_dst-IsPartial d h = (
    _,
    refl,
    record {
      wire = [];
      taken = [];
      header = refl;
      whole = refl;
      is_open = h;
      went = sym (append-nil (sent d));
      opens = λ w c p. p;
      accounts = refl;
      room = omega arith;
    },
    refl,
    refl,
    refl,
  )

  -- The end: the last part closes the format.
  pub partial_dst_finish-Parts :
      (werr : D → RnpResult) (start given : List ℕ) (dst : Dest (PartialDest D))
      → IsPartial start given dst.param
      → let (res, dst') = partial_dst_finish dst_write werr dst in
        (wire : List ℕ) × (sent dst'.param.writedst ≡ start ++ wire)
        × Parts wire given
        × (res ≡ werr dst'.param.writedst)
        × IsOpen dst'.param.writedst
  unfolding partial_dst_finish
  partial_dst_finish-Parts werr start given dst h =
      let param = dst.param in
      let len = write_packet_len (length param.part) in
      let (e1, o1) = dest.write_law param.writedst len h.is_open in
      let (e2, o2) = dest.write_law (dst_write param.writedst len) param.part o1 in
      (
        h.wire ++ (len ++ param.part),
        e2 ∙ rw (e1, h.went) (simp append_assoc),
        rw h.accounts (h.opens _ _ (last (omega (arith, h.room)) refl)),
        refl,
        o2,
      )
