-- ===== src/Write/Literal/Made.antt =====
-- What a literal packet of src/librepgp/stream-write.c sends, through the caches of its destination
-- and of the one for its parts.
use rnp.Prelude.{ℕ, ◌≡◌, refl, sym, ap, ◌∙◌, true, false, Option, inl, inr, none, some, arith}
use rnp.Prelude.{
  List, [], ◌∷◌, ◌++◌, length, append_assoc, append-nil, take, take_all, ltb, ltb→le, Bool-cases,
  if◌then◌else◌,
}
use mathlib.Core.Path.{subst}
use rnp.Errors.{RnpResult, success}
use rnp.Stream.Dest.{Dest, init_dst, dst_write, dst_flush, dst_finish}
use rnp.Stream.Dest.Given.{IsStreaming, write_each, write_each-IsStreaming, dst_flush-Holds}
use rnp.Stream.Dest.Given.{dst_write-IsStreaming}
use rnp.Stream.Dest.Memory.Writes.{joined}
use rnp.Packet.Body.Build.{IsDest}
use rnp.Packet.Length.{store32be}
use rnp.Write.Partial.{PartialDest, partial_dst_write}
use rnp.Write.Partial.Parts.{Parts}
use rnp.Write.Partial.Written.{IsPartial}
use rnp.Write.Packet.{WriteDest, unset, parts, PacketDest}
use rnp.Write.Packet.Sent.{passes, init_streamed_packet-IsStreaming, finish_streamed_packet-Ends}
use rnp.Write.Literal.{name_of, origdst_of, write_to, write_fields, literal_of}
use rnp.Write.Literal.{literal_dst_write, literal_dst_finish, init_literal_dst}

-- The name, cut to 255 bytes.
abbrev pub cut_name : Option (List ℕ) → List ℕ
cut_name none = []
cut_name (some filename) = take 255 filename

name_of-cut_name : (filename : Option (List ℕ)) → name_of filename ≡ cut_name filename
unfolding name_of
name_of-cut_name none = refl
name_of-cut_name (some filename) = elim (Bool-cases (ltb 255 (length filename))) [
  | inl long ↦ rw (name_of, long) refl
  | inr short ↦ rw (name_of, short) (sym (take_all 255 filename (ltb→le _ _ short)))
]

-- What stands in front of the data.
abbrev pub fields : List ℕ → ℕ → List ℕ
fields name filemtime = ((98 ∷ length name ∷ []) ++ name) ++ store32be filemtime

module _ {D : Type 0} (write_below : D → List ℕ → D) (sent : D → List ℕ) (IsOpen : D → Type 0)
    (dest : IsDest write_below sent IsOpen) where
  -- A destination above the one for the parts, which was given these bytes.
  record Carries (start given : List ℕ) (writedst : WriteDest D) : Type 0 where
    dst : Dest (PartialDest D)
    writes : writedst ≡ parts dst
    streams :
        IsStreaming
          (partial_dst_write write_below)
          (IsPartial write_below sent IsOpen dest start)
          (passes write_below sent IsOpen dest start)
          given
          dst

  write_to-Carries :
      (start given bytes : List ℕ) (writedst : WriteDest D)
      → Carries start given writedst
      → Carries start (given ++ bytes) (write_to write_below writedst bytes)
  unfolding write_to
  write_to-Carries start given bytes writedst h = record {
    dst = dst_write (partial_dst_write write_below) h.dst bytes;
    writes = rw h.writes;
    streams =
        dst_write-IsStreaming (partial_dst_write write_below)
          (IsPartial write_below sent IsOpen dest start) (passes write_below sent IsOpen dest start)
          given bytes h.dst h.streams;
  }

  named-Carries :
      (start given name : List ℕ) (writedst : WriteDest D)
      → Carries start given writedst
      → Carries start
          (given ++ name)
          (if ltb 0 (length name) then write_to write_below writedst name else writedst)
  named-Carries start given [] writedst h =
      subst (λ l. Carries start l writedst) (sym (append-nil given)) h
  named-Carries start given (c ∷ cs) writedst h =
      let some_name : ltb 0 (length (c ∷ cs)) ≡ true = ground arith in
      rw some_name (write_to-Carries start given (c ∷ cs) writedst h)

  write_fields-Carries :
      (start : List ℕ) (filename : Option (List ℕ)) (filemtime : ℕ) (writedst : WriteDest D)
      → Carries start [] writedst
      → Carries start
          (fields (cut_name filename) filemtime)
          (write_fields write_below filename filemtime writedst)
  unfolding write_fields
  write_fields-Carries start filename filemtime writedst h =
      let name = cut_name filename in
      rw (write_fields, name_of-cut_name filename)
        (write_to-Carries start _ (store32be filemtime) _ (
          named-Carries start _ name _
            (write_to-Carries start [] (98 ∷ length name ∷ []) writedst h)))

  -- The state of the destination for the literal data: the fields are written, and these bytes.
  abbrev Given : List ℕ → List ℕ → List ℕ → PacketDest D → Type 0
  Given start front given param =
      (param.partial ≡ true) × Carries start (front ++ given) param.writedst

  step :
      (start front given : List ℕ) (p : PacketDest D) (n : ℕ) (bytes : List ℕ)
      → Given start front given p
      → ((literal_dst_write write_below p n bytes).0 ≡ success)
        × Given start front (given ++ bytes) (literal_dst_write write_below p n bytes).1
  unfolding literal_dst_write
  step start front given p n bytes (partial, h) = (
    refl,
    (
      partial,
      subst (λ l. Carries start l (write_to write_below p.writedst bytes))
          (append_assoc front given bytes) (write_to-Carries start _ bytes p.writedst h),
    ),
  )

  init_literal_dst-IsStreaming :
      (filename : Option (List ℕ)) (filemtime : ℕ) (d : D)
      → IsOpen d
      → (dst : Dest (PacketDest D)) × (init_literal_dst write_below true true true filename
            filemtime d
          ≡ inr dst)
        × IsStreaming
            (literal_dst_write write_below)
            (Given (sent d ++ (203 ∷ [])) (fields (cut_name filename) filemtime))
            (step (sent d ++ (203 ∷ [])) (fields (cut_name filename) filemtime))
            []
            dst
  unfolding init_literal_dst literal_of init_dst
  init_literal_dst-IsStreaming filename filemtime d h =
      let param : PacketDest D = record {
        writedst = unset d;
        partial = true;
        indeterminate = false;
        tag = 11;
      } in
      let (partdst, e, new) =
        init_streamed_packet-IsStreaming write_below sent IsOpen dest param d refl (omega arith)
          h in
      let start = sent d ++ (203 ∷ []) in
      let front = fields (cut_name filename) filemtime in
      let writedst = write_fields write_below filename filemtime (parts partdst) in
      let written =
        write_fields-Carries start filename filemtime (parts partdst)
          (record { dst = partdst; writes = refl; streams = new }) in
      (
        init_dst (record param { writedst = writedst }) false,
        ap (literal_of write_below filename filemtime) e,
        record {
          passed = [];
          good = refl;
          cached = refl;
          holds = (refl, subst (λ l. Carries start l writedst) (sym (append-nil front)) written);
          accounts = refl;
          room = omega arith;
        },
      )

  literal_dst_finish-Ends :
      (werr : D → RnpResult) (start content : List ℕ) (dst : Dest (PacketDest D))
      → (dst.param.partial ≡ true) × Carries start content dst.param.writedst
      → let (res, end) = literal_dst_finish write_below werr dst in
        (res ≡ werr (origdst_of end.param.writedst))
        × (wire : List ℕ) × (sent (origdst_of end.param.writedst) ≡ start ++ wire)
        × Parts wire content
  unfolding literal_dst_finish origdst_of
  literal_dst_finish-Ends werr start content dst (partial, h) =
      let (end, wire, res, went, format, _) =
        finish_streamed_packet-Ends write_below sent IsOpen dest werr start content h.dst
          h.streams in
      rw (partial, h.writes, res) (refl, wire, went, format)

  -- Over a destination that keeps its law: a literal packet that is begun, is given buffer after
  -- buffer, and is finished, sends its tag and parts that carry, in this order, the letter b, the
  -- length of the file name and the name, cut to 255 bytes, the time, and all the bytes; it returns the
  -- result of the destination below. The allocations succeed.
  pub dst_finish-literal :
      (werr : D → RnpResult) (filename : Option (List ℕ)) (filemtime : ℕ) (d : D)
      (bufs : List (List ℕ))
      → IsOpen d
      → (dst : Dest (PacketDest D)) × (end : Dest (PacketDest D)) × (wire : List ℕ)
        × (init_literal_dst write_below true true true filename filemtime d ≡ inr dst)
        × (dst_finish
              (literal_dst_write write_below)
              (some (literal_dst_finish write_below werr))
              (write_each (literal_dst_write write_below) bufs dst)
            ≡ (werr (origdst_of end.param.writedst), end))
        × (sent (origdst_of end.param.writedst) ≡ sent d ++ (203 ∷ wire))
        × Parts wire (fields (cut_name filename) filemtime ++ joined bufs)
  unfolding dst_finish
  dst_finish-literal werr filename filemtime d bufs h =
      let write = literal_dst_write write_below in
      let start = sent d ++ (203 ∷ []) in
      let front = fields (cut_name filename) filemtime in
      let (dst, e, new) = init_literal_dst-IsStreaming filename filemtime d h in
      let all =
        write_each-IsStreaming write (Given start front) (step start front) [] bufs dst new in
      let last = dst_flush write (write_each write bufs dst) in
      let held =
        dst_flush-Holds write (Given start front) (step start front) (joined bufs)
          (write_each write bufs dst) all in
      let (res, wire, went, format) =
        literal_dst_finish-Ends werr start (front ++ joined bufs) last held in
      let end = record ((literal_dst_finish write_below werr last).1) { finished = true } in
      (
        dst,
        end,
        wire,
        e,
        ap (λ r. (r, end)) res,
        went ∙ append_assoc (sent d) (203 ∷ []) wire,
        format,
      )
