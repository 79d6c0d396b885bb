-- ===== src/Armor/Dest.antt =====
-- The armoring destination of src/librepgp/stream-armor.c.
-- `D` is the destination below, and `dst_write` and `werr` are what the code uses of it. The hash
-- `C` of the checksum is computed by the Botan library: `hash_add` and `hash_finish` stand for its
-- calls in `pgp_hash_add` and `pgp_hash_finish`. The `param` of an initialised destination is not NULL.
pub mod Line
pub mod Rounds
pub mod Written
pub mod Finished
pub mod Room
pub mod Format
pub mod Message
use Prim.Native.Char.{code}
use Prim.Native.String.{String}
use rnp.Prelude.{
  ℕ, zero, suc, ◌+◌, ◌-◌, ◌*◌, ◌/◌, ◌^◌, bit_and, Bool, true, false, Option, none, some,
}
use rnp.Prelude.{List, [], ◌∷◌, ◌++◌, length, take, drop, get_or, ltb, ◌==◌, ◌||◌, if◌then◌else◌}
use rnp.Errors.{RnpResult, success, generic, bad_parameters}
use rnp.Stream.Dest.{Dest, init_dst}
use rnp.Armor.Base64.{b64enc, armored_encode3, encode_word}

abbrev pub codes : String → List ℕ
codes String.[] = []
codes (String.◌∷◌ c s) = code c ∷ codes s

-- `pgp_armored_msg_t`
pub data ArmoredMsg : Type 0 where
  unknown message public_key secret_key signature cleartext : ArmoredMsg

-- `pgp_dest_armored_param_t`; its `tailc` is the length of `tail`.
pub record ArmoredDest (D C : Type 0) : Type 0 where
  pub writedst : D
  pub type : ArmoredMsg
  pub usecrlf : Bool
  pub lout : ℕ
  pub llen : ℕ
  pub tail : List ℕ
  pub crc_ctx : C

-- The size of `encbuf`, which is `PGP_INPUT_CACHE_SIZE / 2`.
abbrev pub encbuf_size : ℕ
encbuf_size = 16384

abbrev pub ch_eq : ℕ
ch_eq = 61

abbrev pub eol_of : Bool → List ℕ
eol_of usecrlf = if usecrlf then 13 ∷ 10 ∷ [] else 10 ∷ []

-- `armor_message_header`; `none` is for a type that has none.
unfoldable pub armor_message_header : ArmoredMsg → Bool → Option (List ℕ)
armor_message_header type finish =
    let str = if finish then codes "-----END PGP " else codes "-----BEGIN PGP " in
    elim type [
      | message ↦ some (str ++ (codes "MESSAGE" ++ codes "-----"))
      | public_key ↦ some (str ++ (codes "PUBLIC KEY BLOCK" ++ codes "-----"))
      | secret_key ↦ some (str ++ (codes "SECRET KEY BLOCK" ++ codes "-----"))
      | signature ↦ some (str ++ (codes "SIGNATURE" ++ codes "-----"))
      | cleartext ↦ some (str ++ (codes "SIGNED MESSAGE" ++ codes "-----"))
      | unknown ↦ none
    ]

-- `while (bufptr < inlend)`, over the whole input of one line.
pub encode_line : List ℕ → List ℕ
encode_line [] = []
encode_line (a ∷ []) = []
encode_line (a ∷ b ∷ []) = []
encode_line (a ∷ b ∷ c ∷ more) = encode_word (a * 2 ^ 16 + b * 2 ^ 8 + c) ++ encode_line more

-- The variables of the loop of `armored_dst_write`: `encbuf[0 .. encptr)`, and what is left of the
-- input.
pub record Lines (D C : Type 0) : Type 0 where
  pub param : ArmoredDest D C
  pub encbuf : List ℕ
  pub buf : List ℕ

-- The last digits of `armored_dst_finish`: those of the tail, padded.
pub tail_digits : List ℕ → List ℕ
tail_digits [] = []
tail_digits (a ∷ []) = b64enc (a / 2 ^ 2) ∷ b64enc (bit_and (a * 2 ^ 4) 0xff) ∷ ch_eq ∷ ch_eq ∷ []
tail_digits (a ∷ b ∷ _) =
    b64enc (a / 2 ^ 2)
    ∷ b64enc (bit_and (a * 2 ^ 4 + b / 2 ^ 4) 0xff)
    ∷ b64enc (bit_and (b * 2 ^ 2) 0xff)
    ∷ ch_eq
    ∷ []

module _ {D C : Type 0} (dst_write : D → List ℕ → D) where
  pub armor_write_eol : ArmoredDest D C → ArmoredDest D C
  armor_write_eol param = record param {
    writedst =
        if param.usecrlf
        then dst_write param.writedst (13 ∷ 10 ∷ [])
        else dst_write param.writedst (10 ∷ []);
  }

  -- "checking whether we have enough space in encbuf"
  pub make_space : Lines D C → Lines D C
  make_space st =
      if ltb (encbuf_size - st.param.llen - 2) (length st.encbuf)
      then record st {
        param = record (st.param) { writedst = dst_write st.param.writedst st.encbuf };
        encbuf = [];
      }
      else st

  -- Input for one line, or what there is of it, with the end of a full line.
  pub put_line : Lines D C → Lines D C
  put_line st =
      let inllen = st.param.llen / 4 + st.param.llen / 2 in
      let want = if st.param.lout == 0 then inllen else (st.param.llen - st.param.lout) / 4 * 3 in
      let have = length st.buf / 3 * 3 in
      let short = ltb (length st.buf) want in
      let n = if short then have else want in
      let lout = if short then st.param.lout + n / 3 * 4 else 0 in
      record {
        param = record (st.param) { lout = lout };
        encbuf =
            st.encbuf
            ++ (encode_line (take n st.buf) ++ (if lout == 0 then eol_of st.param.usecrlf else []));
        buf = drop n st.buf;
      }

  -- A round of "processing line chunks".
  pub line_round : Lines D C → Lines D C
  unfolding make_space put_line
  line_round st = put_line (make_space st)

  -- `while (bufptr + 3 <= bufend)`. A round takes three bytes at least, so the length of the input
  -- is enough.
  pub line_rounds : ℕ → Lines D C → Lines D C
  line_rounds zero st = st
  line_rounds (suc fuel) st =
      let again = line_rounds fuel (line_round st) in if ltb (length st.buf) 3 then st else again

  -- The tail with the bytes that fill it up to three.
  pub put_tail : ArmoredDest D C → List ℕ → Lines D C
  put_tail param buf =
      let n = 3 - length param.tail in
      let dec3 = param.tail ++ take n buf in
      let full = param.lout + 4 == param.llen in
      record {
        param = record param { tail = []; lout = if full then 0 else param.lout + 4 };
        encbuf =
            armored_encode3 (get_or dec3 0 0) (get_or dec3 1 0) (get_or dec3 2 0)
            ++ (if full then eol_of param.usecrlf else []);
        buf = drop n buf;
      }

  -- The loop, the last write, and the new tail.
  pub write_lines : Lines D C → ArmoredDest D C
  unfolding line_rounds line_round
  write_lines st =
      let end = line_rounds (length st.buf) st in
      record (end.param) { writedst = dst_write end.param.writedst end.encbuf; tail = end.buf }

  module _ (hash_add : C → List ℕ → C) where
    -- The `write` callback.
    pub armored_dst_write : ArmoredDest D C → ℕ → List ℕ → RnpResult × ArmoredDest D C
    unfolding write_lines put_tail
    armored_dst_write param' writeb buf =
        let param = record param' { crc_ctx = hash_add param'.crc_ctx buf } in
        if ltb (length buf + length param.tail) 3
        then (success, record param { tail = param.tail ++ buf })
        else if ltb 0 (length param.tail)
        then (success, write_lines (put_tail param buf))
        else (success, write_lines (record { param = param; encbuf = []; buf = buf }))

  pub write_tail : ArmoredDest D C → ArmoredDest D C
  unfolding tail_digits
  write_tail param =
      if ltb 0 (length param.tail)
      then record param { writedst = dst_write param.writedst (tail_digits param.tail) }
      else param

  pub end_line : ArmoredDest D C → ArmoredDest D C
  unfolding armor_write_eol
  end_line param =
      if ltb 0 (length param.tail) || ltb 0 param.lout then armor_write_eol param else param

  -- The armor tail. A type that has none was refused when the destination was initialised.
  pub write_trailer : ArmoredDest D C → ArmoredDest D C
  unfolding armor_write_eol
  write_trailer param = elim (armor_message_header param.type true) [
    | none ↦ armor_write_eol param
    | some hdr ↦ armor_write_eol (record param { writedst = dst_write param.writedst hdr })
  ]

  module _ (hash_finish : C → List ℕ) where
    -- The checksum, on a line of its own.
    pub write_crc : ArmoredDest D C → ArmoredDest D C
    unfolding armor_write_eol
    write_crc param =
        let crc = hash_finish param.crc_ctx in
        let digits = armored_encode3 (get_or crc 0 0) (get_or crc 1 0) (get_or crc 2 0) in
        armor_write_eol (record param { writedst = dst_write param.writedst (ch_eq ∷ digits) })

    -- The `finish` callback.
    pub armored_dst_finish :
        (D → RnpResult) → Dest (ArmoredDest D C) → RnpResult × Dest (ArmoredDest D C)
    unfolding write_tail end_line write_crc write_trailer
    armored_dst_finish werr dst =
        let param = write_trailer (write_crc (end_line (write_tail dst.param))) in
        (werr param.writedst, record dst { param = param })

  -- The first lines of `init_armored_dst`; `package_string` is the name and the version of the package.
  pub write_header : List ℕ → ArmoredDest D C → List ℕ → ArmoredDest D C
  unfolding armor_write_eol
  write_header package_string param hdr =
      let begun = armor_write_eol (record param { writedst = dst_write param.writedst hdr }) in
      let version = codes "Version: " ++ package_string in
      let named = armor_write_eol (record begun { writedst = dst_write begun.writedst version }) in
      armor_write_eol named

  -- The destination of `init_armored_dst`, or its error. `hash_create` is the new hash, if it can be
  -- made; `params` are allocated. The name of the package leaves `hdr` its end.
  unfoldable pub init_armored_dst :
      Option C → List ℕ → D → ArmoredMsg → RnpResult × Option (Dest (ArmoredDest D C))
  unfolding init_dst write_header
  init_armored_dst hash_create package_string writedst msgtype = elim hash_create [
    | none ↦ (generic, none)
    | some crc_ctx ↦ elim (armor_message_header msgtype false) [
      | none ↦ (bad_parameters, none)
      | some hdr ↦
          let param : ArmoredDest D C = record {
            writedst = writedst;
            type = msgtype;
            usecrlf = true;
            lout = 0;
            llen = 76;
            tail = [];
            crc_ctx = crc_ctx;
          } in
          (success, some (init_dst (write_header package_string param hdr) false))
    ]
  ]
