-- ===== src/Armor/Dest/Message.antt =====
-- A whole armored message, for src/librepgp/stream-armor.c: its header, its lines, its checksum and
-- its end, however the input is cut into writes and by the cache.
use rnp.Prelude.{ℕ, ◌≡◌, refl, sym, ap, ◌∙◌, true, false, some, arith}
use rnp.Prelude.{List, [], ◌∷◌, ◌++◌, if◌then◌else◌, append_assoc, append-nil}
use mathlib.Core.Path.{subst}
use rnp.Errors.{RnpResult, success}
use rnp.Stream.Dest.{Dest, init_dst, dst_flush, dst_finish}
use rnp.Stream.Dest.Given.{IsStreaming, write_each, write_each-IsStreaming, dst_flush-Holds}
use rnp.Stream.Dest.Memory.Writes.{joined}
use rnp.Packet.Body.Build.{IsDest}
use rnp.Armor.Dest.{ArmoredDest, ArmoredMsg, codes, armor_message_header, armor_write_eol}
use rnp.Armor.Dest.{write_header, init_armored_dst, armored_dst_write, armored_dst_finish}
use rnp.Armor.Reference.{Encoded, encode, encode-append, body, checksum}
use rnp.Armor.Dest.Line.{AreBytes}
use rnp.Armor.Dest.Written.{IsArmored, Made, armored_dst_write-Made}
use rnp.Armor.Dest.Written.{armored_dst_write-success}
use rnp.Armor.Dest.Finished.{crlf, ending, Adds, Adds-then, line-Adds}
use rnp.Armor.Dest.Finished.{armor_write_eol-Adds, armored_dst_finish-Adds}
use rnp.Armor.Dest.Format.{AreBytes-front, AreBytes-back, IsHash, heading, armored}

module _ {D C : Type 0} (dst_write : D → List ℕ → D) (sent : D → List ℕ) (IsOpen : D → Type 0)
    (dest : IsDest dst_write sent IsOpen) where
  write_header-Adds :
      (package_string hdr : List ℕ) (p : ArmoredDest D C)
      → p.usecrlf ≡ true
      → IsOpen p.writedst
      → Adds dst_write sent IsOpen dest p
          (heading hdr package_string)
          (write_header dst_write package_string p hdr)
  unfolding write_header
  write_header-Adds package_string hdr p on h =
      let version = codes "Version: " ++ package_string in
      Adds-then dst_write sent IsOpen dest
        (λ x.
          armor_write_eol dst_write
            (armor_write_eol dst_write (record x { writedst = dst_write x.writedst version })))
        p (armor_write_eol dst_write (record p { writedst = dst_write p.writedst hdr }))
        (hdr ++ crlf) ((version ++ crlf) ++ crlf) (line-Adds dst_write sent IsOpen dest p hdr on h)
        (λ d1 o1.
          let p1 = record p { writedst = d1 } in
          Adds-then dst_write sent IsOpen dest (armor_write_eol dst_write) p1
            (armor_write_eol dst_write (record p1 { writedst = dst_write p1.writedst version }))
            (version ++ crlf) crlf (line-Adds dst_write sent IsOpen dest p1 version on o1)
            (λ d2 o2.
              armor_write_eol-Adds dst_write sent IsOpen dest (record p1 { writedst = d2 }) on o2))

  module _ (hash_add : C → List ℕ → C) (hash_finish : C → List ℕ)
      (hash : IsHash hash_add hash_finish) where
    -- A destination that made the text of `given` behind `start`.
    record IsText (start : List ℕ) (type : ArmoredMsg) (crc : C) (given : List ℕ)
        (p : ArmoredDest D C) : Type 0 where
      went : sent p.writedst ≡ start ++ (encode crlf 76 0 given).text
      column : p.lout ≡ (encode crlf 76 0 given).column
      left : p.tail ≡ (encode crlf 76 0 given).left
      hashed : p.crc_ctx ≡ hash_add crc given
      kind : p.type ≡ type
      usecrlf : p.usecrlf ≡ true
      fine : IsArmored dst_write sent IsOpen dest p

    -- If the input is bytes.
    abbrev Text : List ℕ → ArmoredMsg → C → List ℕ → ArmoredDest D C → Type 0
    Text start type crc given p = AreBytes given → IsText start type crc given p

    -- More input behind what was given.
    more-IsText :
        (start given bytes : List ℕ) (type : ArmoredMsg) (crc : C) (p p' : ArmoredDest D C)
        → IsText start type crc given p
        → Made dst_write sent IsOpen dest p
            (encode crlf 76 p.lout (p.tail ++ bytes))
            (hash_add p.crc_ctx bytes)
            p'
        → IsText start type crc (given ++ bytes) p'
    more-IsText start given bytes type crc p p' h m =
        let e = encode crlf 76 0 given in
        let e' = encode crlf 76 e.column (e.left ++ bytes) in
        let same : encode crlf 76 p.lout (p.tail ++ bytes) ≡ e' = rw (h.column, h.left) refl in
        let whole = encode-append crlf 76 0 given bytes in
        record {
          went = m.went ∙ rw (h.went, same, whole) (append_assoc start e.text e'.text);
          column =
              m.column
              ∙ ap (λ (x : Encoded). x.column) same
              ∙ sym (ap (λ (x : Encoded). x.column) whole);
          left =
              m.left ∙ ap (λ (x : Encoded). x.left) same ∙ sym (ap (λ (x : Encoded). x.left) whole);
          hashed = m.hashed ∙ rw h.hashed (hash.add_both crc given bytes);
          kind = m.type ∙ h.kind;
          usecrlf = m.usecrlf ∙ h.usecrlf;
          fine = m.fine;
        }

    -- One call of the callback.
    step :
        (start : List ℕ) (type : ArmoredMsg) (crc : C) (given : List ℕ) (p : ArmoredDest D C)
        (n : ℕ) (bytes : List ℕ)
        → Text start type crc given p
        → ((armored_dst_write dst_write hash_add p n bytes).0 ≡ success)
          × Text start type crc (given ++ bytes) (armored_dst_write dst_write hash_add p n bytes).1
    step start type crc given p n bytes h = (
      armored_dst_write-success dst_write hash_add p n bytes,
      λ all.
          let t = h (AreBytes-front given bytes all) in
          let (_, m) =
            armored_dst_write-Made dst_write sent IsOpen dest hash_add p n bytes
              (AreBytes-back given bytes all) t.fine in
          more-IsText start given bytes type crc p _ t (
            subst
              (λ b.
                Made dst_write sent IsOpen dest p
                  (encode (if b then crlf else 10 ∷ []) 76 p.lout (p.tail ++ bytes))
                  (hash_add p.crc_ctx bytes) (armored_dst_write dst_write hash_add p n bytes).1)
              t.usecrlf m),
    )

    -- A new destination has sent the header.
    init_armored_dst-Text :
        (crc : C) (package_string : List ℕ) (d : D) (type : ArmoredMsg) (hdr : List ℕ)
        → armor_message_header type false ≡ some hdr
        → IsOpen d
        → (dst : Dest (ArmoredDest D C)) × (init_armored_dst dst_write
              (some crc)
              package_string
              d
              type
            ≡ (success, some dst))
          × IsStreaming
              (armored_dst_write dst_write hash_add)
              (Text (sent d ++ heading hdr package_string) type crc)
              (step (sent d ++ heading hdr package_string) type crc)
              []
              dst
    unfolding init_armored_dst encode init_dst
    init_armored_dst-Text crc package_string d type hdr e h =
        let param : ArmoredDest D C = record {
          writedst = d;
          type = type;
          usecrlf = true;
          lout = 0;
          llen = 76;
          tail = [];
          crc_ctx = crc;
        } in
        let a = write_header-Adds package_string hdr param refl h in
        (
          init_dst (write_header dst_write package_string param hdr) false,
          rw (e, init_armored_dst) refl,
          record {
            passed = [];
            good = refl;
            cached = refl;
            holds = λ all. record {
              went = a.went ∙ sym (append-nil (sent d ++ heading hdr package_string));
              column = refl;
              left = refl;
              hashed = sym (hash.add_none crc);
              kind = refl;
              usecrlf = refl;
              fine = record {
                line = refl;
                aligned = omega arith;
                column = omega arith;
                is_open = a.is_open;
                bytes = tt;
                few = omega arith;
              };
            };
            accounts = refl;
            room = omega arith;
          },
        )

    ending-body :
        (start bytes sum trailer : List ℕ)
        → let e = encode crlf 76 0 bytes in
          (start ++ e.text) ++ ending e.left e.column sum trailer
          ≡ start ++ (body crlf bytes ++ ((checksum sum ++ crlf) ++ (trailer ++ crlf)))
    unfolding body
    ending-body start bytes sum trailer = simp append_assoc

    -- The text is ended.
    finished :
        (werr : D → RnpResult) (start bytes trailer : List ℕ) (type : ArmoredMsg) (crc : C)
        (dst : Dest (ArmoredDest D C))
        → armor_message_header type true ≡ some trailer
        → IsText start type crc bytes dst.param
        → let (res, end) = armored_dst_finish dst_write hash_finish werr dst in
          (res ≡ werr end.param.writedst)
          × (sent end.param.writedst
              ≡ start
                ++ (body crlf bytes
                    ++ ((checksum (hash_finish (hash_add crc bytes)) ++ crlf)
                        ++ (trailer ++ crlf))))
    finished werr start bytes trailer type crc dst e t =
        let p = dst.param in
        let (res, a) =
          armored_dst_finish-Adds dst_write sent IsOpen dest hash_finish werr dst trailer t.fine.few
            t.fine.bytes t.fine.is_open t.usecrlf (hash.three p.crc_ctx)
            (ap (λ k. armor_message_header k true) t.kind ∙ e) in
        (
          res,
          a.went
              ∙ rw (t.went, t.left, t.column, t.hashed)
                  (ending-body start bytes (hash_finish (hash_add crc bytes)) trailer),
        )

    -- Over a destination and a hash that keep their laws: an armored message that is begun, is given
    -- buffer after buffer, through the cache of its destination, and is finished, is its header line,
    -- the version and an empty line, the input in base64 in lines of 76 digits, the checksum of the
    -- input and the last line; the result is that of the destination below.
    pub dst_finish-armored :
        (werr : D → RnpResult) (crc : C) (package_string : List ℕ) (d : D) (type : ArmoredMsg)
        (hdr trailer : List ℕ) (bufs : List (List ℕ))
        → armor_message_header type false ≡ some hdr
        → armor_message_header type true ≡ some trailer
        → AreBytes (joined bufs)
        → IsOpen d
        → (dst : Dest (ArmoredDest D C)) × (end : Dest (ArmoredDest D C)) × (init_armored_dst
              dst_write
              (some crc)
              package_string
              d
              type
            ≡ (success, some dst))
          × (dst_finish
                (armored_dst_write dst_write hash_add)
                (some (armored_dst_finish dst_write hash_finish werr))
                (write_each (armored_dst_write dst_write hash_add) bufs dst)
              ≡ (werr end.param.writedst, end))
          × (sent end.param.writedst
              ≡ sent d
                ++ armored hdr package_string
                    (joined bufs)
                    (hash_finish (hash_add crc (joined bufs)))
                    trailer)
    unfolding dst_finish
    dst_finish-armored werr crc package_string d type hdr trailer bufs e f bytes h =
        let write = armored_dst_write dst_write hash_add in
        let start = sent d ++ heading hdr package_string in
        let (dst, eq, new) = init_armored_dst-Text crc package_string d type hdr e h in
        let all =
          write_each-IsStreaming write (Text start type crc) (step start type crc) [] bufs dst
            new in
        let last = dst_flush write (write_each write bufs dst) in
        let t =
          dst_flush-Holds write (Text start type crc) (step start type crc) (joined bufs)
            (write_each write bufs dst) all bytes in
        let (res, went) = finished werr start (joined bufs) trailer type crc last f t in
        let end = record ((armored_dst_finish dst_write hash_finish werr last).1) {
          finished = true;
        } in
        (
          dst,
          end,
          eq,
          ap (λ r. (r, end)) res,
          went ∙ append_assoc (sent d) (heading hdr package_string) _,
        )
