-- ===== src/Armor/Source/Read.antt =====
-- `armored_src_read` of src/librepgp/stream-armor.c.
-- `hash_add` and `hash_finish` stand for the calls of Botan in `pgp_hash_add` and `pgp_hash_finish`.
-- `param` of an initialised source is not NULL.
pub mod Endless
use rnp.Prelude.{ℕ, zero, suc, ◌+◌, ◌-◌, ◌*◌, ◌/◌, ◌%◌, Bool, true, false, not, ◌&&◌}
use rnp.Prelude.{Option, none, some, ◌⊎◌, inl, inr}
use rnp.Prelude.{List, [], ◌∷◌, ◌++◌, length, take, drop, get_or, ltb, leb, ◌==◌, if◌then◌else◌}
use rnp.Errors.{Attempt, minus_one, returned}
use rnp.Stream.Source.{Source, src_peek, src_skip}
use rnp.Stream.Line.{state}
use rnp.Armor.Source.{ArmoredSource, block_size, Scanned, all_digits, padding, wrong, scan_block}
use rnp.Armor.Source.{decode_groups, last_group, decode_last}
use rnp.Armor.Source.Lines.{over, armor_read_padding, armor_read_crc}
use rnp.Armor.Source.Lines.{armor_read_trailer}

-- `memcmp(a, b, n) == 0`
bytes_eq : List ℕ → List ℕ → Bool
bytes_eq [] [] = true
bytes_eq (x ∷ xs) (y ∷ ys) = (x == y) && bytes_eq xs ys
bytes_eq _ _ = false

-- The variables of the loop: the 6-bit numbers of `decbuf`, what is wanted yet, and the bytes that
-- are in the caller's buffer.
pub record Decoding (P C : Type 0) : Type 0 where
  pub param : ArmoredSource P C
  pub dec : List ℕ
  pub left : ℕ
  pub out : List ℕ

-- How the loop ends: with an error, or with so many `=` read.
pub data Ended (P C : Type 0) : Type 0 where
  failed : ArmoredSource P C → Ended P C
  ended : Decoding P C → ℕ → Ended P C

-- The full groups that go directly to the caller's buffer.
pub take_groups : {P C : Type 0} → Decoding P C → Decoding P C
take_groups st =
    let full = length st.dec / 4 in
    let n = if ltb (full * 3) st.left then full else st.left / 3 in
    record st {
      dec = drop (n * 4) st.dec;
      left = st.left - n * 3;
      out = st.out ++ decode_groups (take (n * 4) st.dec);
    }

module _ {P C : Type 0} (read : P → ℕ → Attempt P (List ℕ)) (alloc : ℕ → Bool)
    (outside : ℕ → ℕ) where
  -- "reading b64 padding if any", the checksum and the trailer.
  pub read_end : Decoding P C → Ended P C
  read_end st = elim (armor_read_padding read alloc st.param) [
    | minus_one param ↦ failed param
    | returned eqcount param ↦
        let (crc, param1) = armor_read_crc read alloc outside param in
        let (trailer, param2) = armor_read_trailer read alloc param1 in
        if not crc
        then failed param1
        else if not trailer
        then failed param2
        else ended (record st { param = param2 }) eqcount
  ]

  -- What follows the scan of a block of `n` bytes.
  pub scanned : Decoding P C → ℕ → Scanned → Ended P C ⊎ Decoding P C
  unfolding take_groups read_end
  scanned st n wrong = inl (failed st.param)
  scanned st n (padding dec pos) =
      let st' = take_groups (record st { dec = dec }) in
      let s = state (src_skip read alloc st.param.readsrc (pos - 1)) in
      inl (read_end (record st' { param = record (over st.param s) { eofb64 = true } }))
  scanned st n (all_digits dec) =
      let st' = take_groups (record st { dec = dec }) in
      let s = state (src_skip read alloc st.param.readsrc n) in
      let next = record st' { param = over st.param s } in
      if leb 3 next.left then inr next else inl (ended next 0)

  -- A round of `do ... while (left >= 3)`.
  pub b64_round : Decoding P C → Ended P C ⊎ Decoding P C
  unfolding scanned
  b64_round st = elim (src_peek read st.param.readsrc block_size) [
    | minus_one s ↦ inl (failed (over st.param s))
    | returned block s ↦
        scanned (record st { param = over st.param s }) (length block) (scan_block block st.dec 0)
  ]

  -- The loop, for so many rounds; `none` if it has not ended by then.
  pub b64_rounds : ℕ → Decoding P C → Option (Ended P C)
  b64_rounds zero st = none
  b64_rounds (suc fuel) st = elim (b64_round st) [
    | inl end ↦ some end
    | inr next ↦ b64_rounds fuel next
  ]

  module _ (hash_add : C → List ℕ → C) (hash_finish : C → Option (List ℕ)) where
    -- "check whether we have some bytes to add"
    pub add_rest : Decoding P C → Attempt (ArmoredSource P C) (List ℕ)
    add_rest st =
        let param = st.param in
        let n = if ltb (length param.rest) st.left then length param.rest else st.left in
        let more = take n param.rest in
        if ltb 0 st.left && ltb 0 (length param.rest)
        then returned (st.out ++ more) (record param {
          crc_ctx = if param.eofb64 then param.crc_ctx else hash_add param.crc_ctx more;
          restpos = param.restpos + n;
        })
        else returned st.out param

    -- The end of the base64 data: the last bytes, and the checksum of all.
    pub check_crc : Decoding P C → List ℕ → ℕ → Attempt (ArmoredSource P C) (List ℕ)
    unfolding add_rest bytes_eq
    check_crc st rest eqcount =
        let param = st.param in
        let whole = rest ++ decode_last st.dec eqcount in
        let crc_ctx = hash_add param.crc_ctx whole in
        if not ((length st.dec + eqcount) % 4 == 0)
        then minus_one param
        else elim (hash_finish crc_ctx) [
          | none ↦ minus_one (record param { crc_ctx = crc_ctx })
          | some crc_fin ↦
              if bytes_eq (take 3 param.readcrc) (take 3 crc_fin)
              then add_rest (record st { param = record param { crc_ctx = crc_ctx; rest = whole } })
              else minus_one (record param { crc_ctx = crc_ctx })
        ]

    -- What `armored_src_read` does behind the loop.
    pub end_read : Ended P C → Attempt (ArmoredSource P C) (List ℕ)
    unfolding check_crc add_rest
    end_read (failed param) = minus_one param
    end_read (ended st eqcount) =
        let rest = decode_groups st.dec in
        let param = record (st.param) { crc_ctx = hash_add st.param.crc_ctx st.out } in
        let st' = record st { param = param; dec = last_group st.dec } in
        if param.eofb64
        then check_crc st' rest eqcount
        else add_rest
            (record st' { param = record param { brest = last_group st.dec; rest = rest } })

    -- The base64 data behind `out`, which was decoded before.
    pub read_b64 :
        ℕ → ArmoredSource P C → ℕ → List ℕ → Option (Attempt (ArmoredSource P C) (List ℕ))
    unfolding b64_rounds b64_round end_read
    read_b64 fuel param left out =
        if param.eofb64
        then some (returned out param)
        else elim (b64_rounds fuel
            (record { param = param; dec = param.brest; left = left; out = out })) [
              | none ↦ none
              | some end ↦ some (end_read end)
            ]

    -- `armored_src_read`, of at most `fuel` rounds of its loop; `none` if it has not returned then.
    pub armored_src_read : ℕ → ArmoredSource P C → ℕ → Option (Attempt (ArmoredSource P C) (List ℕ))
    unfolding read_b64
    armored_src_read fuel param len =
        let held = drop param.restpos param.rest in
        let out = take len held in
        if ltb param.restpos (length param.rest)
        then (if leb len (length held)
            then some (
                returned out (record param {
                  restpos = param.restpos + len;
                  crc_ctx = hash_add param.crc_ctx out;
                }))
            else read_b64 fuel (record param { rest = []; restpos = 0 }) (len - length held) held)
        else read_b64 fuel param len []
