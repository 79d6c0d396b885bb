-- ===== src/Armor/Source/Read/Endless.antt =====
-- Armored data of src/librepgp/stream-armor.c that ends without its `=`.
use rnp.Prelude.{
  ℕ, zero, suc, ◌-◌, ◌*◌, ◌/◌, ◌≤◌, ◌<◌, ◌≡◌, refl, ap, ap₂, ◌∙◌, ◌⊎◌, inl, inr, Bool, true, false,
  Option, none, arith,
}
use rnp.Prelude.{List, [], length, take, ltb, leb, if◌then◌else◌}
use rnp.Prelude.{append-nil, take-nil, le→ltb}
use rnp.Errors.{Attempt, returned}
use rnp.Stream.Source.{src_peek, src_skip}
use rnp.Stream.Source.Reader.{IsReader, pending, IsReady}
use rnp.Stream.Line.{state}
use rnp.Stream.Source.Peek.{src_peek-Peeks}
use rnp.Stream.Source.Skip.{src_skip-Skips}
use rnp.Armor.Source.{ArmoredSource, all_digits, scan_block, decode_groups, block_size}
use rnp.Armor.Source.Lines.{over}
use rnp.Armor.Source.Read.{
  Decoding, Ended, ended, take_groups, scanned, b64_round, b64_rounds, armored_src_read,
}
use rnp.Armor.Source.Read.{read_b64}

-- Nothing is taken from so few numbers.
take_groups-few :
    {P C : Type 0} (st : Decoding P C) → length st.dec < 4 → 3 ≤ st.left → take_groups st ≡ st
unfolding take_groups decode_groups
take_groups-few st few wanted =
    let none : (if ltb (length st.dec / 4 * 3) st.left then length st.dec / 4 else st.left / 3)
        ≡ 0 =
      ground arith in
    rw none (
      ap₂ (λ l o. record st { left = l; out = o }) {x = st.left - 0} (omega arith)
        (append-nil st.out))

module _ {P C : Type 0} (read : P → ℕ → Attempt P (List ℕ)) (rest : P → List ℕ)
    (reader : IsReader read rest) (alloc : ℕ → Bool) (outside : ℕ → ℕ) where
  -- The source below has ended, less than a group of numbers is held, and a group of bytes is
  -- wanted.
  record IsStuck (st : Decoding P C) : Type 0 where
    ready : IsReady rest st.param.readsrc
    over_there : pending rest st.param.readsrc ≡ []
    few : length st.dec < 4
    wanted : 3 ≤ st.left

  scanned_idle :
      (st : Decoding P C)
      → length st.dec < 4
      → 3 ≤ st.left
      → scanned read alloc outside st 0 (all_digits st.dec)
        ≡ inr (record st { param = over st.param (state (src_skip read alloc st.param.readsrc 0)) })
  unfolding scanned
  scanned_idle st few wanted =
      let s = state (src_skip read alloc st.param.readsrc 0) in
      let more : leb 3 st.left ≡ true = ground arith in
      let finish : Decoding P C → Ended P C ⊎ Decoding P C = λ g.
        if leb 3 g.left
        then inr (record g { param = over st.param s })
        else inl (ended (record g { param = over st.param s }) 0) in
      ap finish (take_groups-few st few wanted) ∙ rw more refl

  b64_round-IsStuck :
      (st : Decoding P C)
      → IsStuck st
      → (next : Decoding P C) × (b64_round read alloc outside st ≡ inr next) × IsStuck next
  unfolding b64_round scan_block
  b64_round-IsStuck st h =
      let s = st.param.readsrc in
      let peek = src_peek-Peeks read rest reader s block_size (omega arith) h.ready in
      let skip =
        src_skip-Skips read rest reader alloc peek.after 0 (λ big. absurd (omega arith))
          peek.ready in
      let block : src_peek read s block_size ≡ returned [] peek.after =
        peek.result
        ∙ ap (λ l. returned l peek.after)
            (ap (take block_size) h.over_there ∙ take-nil block_size) in
      let next = record st { param = over st.param skip.after } in
      (
        next,
        rw (block, b64_round)
            (scanned_idle (record st { param = over st.param peek.after }) h.few h.wanted
              ∙ rw skip.result refl),
        record {
          ready = skip.ready;
          over_there = skip.left ∙ peek.left ∙ h.over_there;
          few = h.few;
          wanted = h.wanted;
        },
      )

  -- The loop goes on, however many rounds it is given.
  b64_rounds-IsStuck :
      (fuel : ℕ) (st : Decoding P C) → IsStuck st → b64_rounds read alloc outside fuel st ≡ none
  unfolding b64_rounds
  b64_rounds-IsStuck zero st h = refl
  b64_rounds-IsStuck (suc fuel) st h =
      let (next, e, h') = b64_round-IsStuck st h in
      rw (e, b64_rounds) (b64_rounds-IsStuck fuel next h')

  -- Over a callback that keeps its contract: `armored_src_read` does not return if three bytes or
  -- more are wanted, none is decoded, no `=` was read, less than four 6-bit numbers are held, and the
  -- source below has come to its end. No number of rounds of its loop is enough.
  pub armored_src_read-none :
      (hash_add : C → List ℕ → C) (hash_finish : C → Option (List ℕ)) (param : ArmoredSource P C)
      (len fuel : ℕ)
      → IsReady rest param.readsrc
      → pending rest param.readsrc ≡ []
      → length param.rest ≤ param.restpos
      → param.eofb64 ≡ false
      → length param.brest < 4
      → 3 ≤ len
      → armored_src_read read alloc outside hash_add hash_finish fuel param len ≡ none
  unfolding armored_src_read read_b64
  armored_src_read-none hash_add hash_finish param len fuel ready empty none_held more few wanted =
      let stuck =
        b64_rounds-IsStuck fuel (record { param = param; dec = param.brest; left = len; out = [] })
          (record { ready = ready; over_there = empty; few = few; wanted = wanted }) in
      simp (le→ltb param.restpos (length param.rest) none_held, more, stuck)
