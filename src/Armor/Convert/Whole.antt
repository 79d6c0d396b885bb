-- ===== src/Armor/Convert/Whole.antt =====
-- `rnp_armor_source` of src/librepgp/stream-armor.c: a source is armored as a whole.
use rnp.Prelude.{ℕ, ◌<◌, ◌≡◌, refl, sym, ap, ◌∙◌, true, false, Option, none, some}
use rnp.Prelude.{List, [], ◌++◌, length}
use mathlib.Core.Path.{subst}
use rnp.Errors.{RnpResult, success, Attempt}
use rnp.Stream.Source.{Source}
use rnp.Stream.Source.Reader.{IsReader, pending, IsReady}
use rnp.Stream.Dest.{Dest, init_dst, dst_finish, dst_close}
use rnp.Stream.Dest.Given.{write_each}
use rnp.Stream.Dest.Memory.Writes.{joined}
use rnp.Packet.Body.Build.{IsDest}
use rnp.Armor.Dest.{ArmoredDest, ArmoredMsg, armor_message_header, init_armored_dst}
use rnp.Armor.Dest.{write_header, armored_dst_write, armored_dst_finish}
use rnp.Armor.Dest.Line.{AreBytes}
use rnp.Armor.Dest.Written.{armored_dst_write-success}
use rnp.Armor.Dest.Format.{IsHash, armored}
use rnp.Armor.Dest.Message.{dst_finish-armored}
use rnp.Armor.Convert.{rnp_armor_source, close_below, closed, closed_if, convert_to}
use rnp.Armor.Convert.Rounds.{IsFresh, convert_rounds-Converts}

-- The new destination is fresh.
init_armored_dst-IsFresh :
    {D C : Type 0} (dst_write : D → List ℕ → D) (crc : C) (package_string : List ℕ) (d : D)
    (type : ArmoredMsg) (hdr : List ℕ)
    → armor_message_header type false ≡ some hdr
    → (dst : Dest (ArmoredDest D C)) × (init_armored_dst dst_write (some crc) package_string d type
        ≡ (success, some dst))
      × IsFresh dst
unfolding init_armored_dst init_dst
init_armored_dst-IsFresh {D} {C} dst_write crc package_string d type hdr e =
    let param : ArmoredDest D C = record {
      writedst = d;
      type = type;
      usecrlf = true;
      lout = 0;
      llen = 76;
      tail = [];
      crc_ctx = crc;
    } in
    (
      init_dst (write_header dst_write package_string param hdr) false,
      rw (e, init_armored_dst) refl,
      (refl, refl),
    )

-- What is left of the destination is what `dst_finish` leaves.
close_below-finish :
    {D C : Type 0} (dst_write : D → List ℕ → D) (hash_add : C → List ℕ → C)
    (hash_finish : C → List ℕ) (werr : D → RnpResult) (dst end : Dest (ArmoredDest D C))
    (res : RnpResult)
    → dst.finished ≡ false
    → dst_finish
        (armored_dst_write dst_write hash_add)
        (some (armored_dst_finish dst_write hash_finish werr))
        dst
      ≡ (res, end)
    → close_below dst_write werr hash_add hash_finish dst success ≡ end.param.writedst
unfolding close_below dst_close
close_below-finish dst_write hash_add hash_finish werr dst end res open_still ends =
    simp (close_below, dst_close, open_still) (ap (λ r. r.1.param.writedst) ends)

abbrev some_or : {A : Type 0} → A → Option A → A
some_or a none = a
some_or a (some b) = b

module _ {P : Type 0} (read : P → ℕ → Attempt P (List ℕ)) (rest : P → List ℕ)
    (reader : IsReader read rest) {D C : Type 0} (dst_write_below : D → List ℕ → D)
    (sent : D → List ℕ) (IsOpen : D → Type 0) (dest : IsDest dst_write_below sent IsOpen)
    (hash_add : C → List ℕ → C) (hash_finish : C → List ℕ)
    (hash : IsHash hash_add hash_finish) where
  -- Over a callback, a destination and a hash that keep their laws: `rnp_armor_source` ends with
  -- success, having read its source to the end and written the armor of all its bytes, with the
  -- header, the lines and the checksum of a whole message. It takes at most a round for each byte, and
  -- one more.
  pub rnp_armor_source-armored :
      (werr : D → RnpResult) (crc : C) (package_string : List ℕ) (src : Source P) (d : D)
      (type : ArmoredMsg) (hdr trailer : List ℕ) (fuel : ℕ)
      → armor_message_header type false ≡ some hdr
      → armor_message_header type true ≡ some trailer
      → IsReady rest src
      → AreBytes (pending rest src)
      → IsOpen d
      → length (pending rest src) < fuel
      → (after : Source P) × (d' : D) × (rnp_armor_source dst_write_below werr hash_add hash_finish
            read fuel
            (some crc)
            package_string
            src
            d
            type
          ≡ some (success, after, d'))
        × (pending rest after ≡ [])
        × (sent d'
            ≡ sent d
              ++ armored hdr package_string
                  (pending rest src)
                  (hash_finish (hash_add crc (pending rest src)))
                  trailer)
  unfolding rnp_armor_source convert_to closed_if closed joined
  rnp_armor_source-armored werr crc package_string src d type hdr trailer fuel e f ready bytes
        opened enough =
      let write = armored_dst_write dst_write_below hash_add in
      let (dst, made, fresh) =
        init_armored_dst-IsFresh dst_write_below crc package_string d type hdr e in
      let c =
        convert_rounds-Converts read rest reader write
          (armored_dst_write-success dst_write_below hash_add) fuel src dst ready fresh enough in
      let (dst', end, made', ends, went) =
        dst_finish-armored dst_write_below sent IsOpen dest hash_add hash_finish hash werr crc
          package_string d type hdr trailer c.bufs e f (subst AreBytes (sym c.all) bytes) opened in
      let same : dst' ≡ dst = ap (λ r. some_or dst r.1) (sym made' ∙ made) in
      let d' =
        close_below dst_write_below werr hash_add hash_finish (write_each write c.bufs dst)
          success in
      let below : d' ≡ end.param.writedst =
        close_below-finish dst_write_below hash_add hash_finish werr (write_each write c.bufs dst)
          end (werr end.param.writedst) c.fresh.1
          (subst
            (λ x.
              dst_finish write (some (armored_dst_finish dst_write_below hash_finish werr))
                (write_each write c.bufs x)
              ≡ (werr end.param.writedst, end))
            same ends) in
      let text = λ (l : List ℕ).
        sent d ++ armored hdr package_string l (hash_finish (hash_add crc l)) trailer in
      (
        c.after,
        d',
        ap (convert_to dst_write_below werr hash_add hash_finish read fuel src d) made
            ∙ ap (closed_if dst_write_below werr hash_add hash_finish) c.result,
        c.none_left,
        ap sent below ∙ went ∙ ap text c.all,
      )

module _ {P : Type 0} (read : P → ℕ → Attempt P (List ℕ)) (rest : P → List ℕ)
    (reader : IsReader read rest) {D C : Type 0} (dst_write_below : D → List ℕ → D)
    (hash_add : C → List ℕ → C) (hash_finish : C → List ℕ) where
  -- Over a callback that keeps its contract, and any destination: `rnp_armor_source` answers with
  -- success if the type has a header and the hash is made, whatever the destination does with what is
  -- written to it, and whatever error it shows. It takes at most a round for each byte, and one more.
  pub rnp_armor_source-success :
      (werr : D → RnpResult) (crc : C) (package_string : List ℕ) (src : Source P) (d : D)
      (type : ArmoredMsg) (hdr : List ℕ) (fuel : ℕ)
      → armor_message_header type false ≡ some hdr
      → IsReady rest src
      → length (pending rest src) < fuel
      → (after : Source P) × (d' : D) × (rnp_armor_source dst_write_below werr hash_add hash_finish
            read fuel
            (some crc)
            package_string
            src
            d
            type
          ≡ some (success, after, d'))
  unfolding rnp_armor_source convert_to closed_if closed
  rnp_armor_source-success werr crc package_string src d type hdr fuel e ready enough =
      let (dst, made, fresh) =
        init_armored_dst-IsFresh dst_write_below crc package_string d type hdr e in
      let c =
        convert_rounds-Converts read rest reader (armored_dst_write dst_write_below hash_add)
          (armored_dst_write-success dst_write_below hash_add) fuel src dst ready fresh enough in
      (
        c.after,
        _,
        ap (convert_to dst_write_below werr hash_add hash_finish read fuel src d) made
            ∙ ap (closed_if dst_write_below werr hash_add hash_finish) c.result,
      )
