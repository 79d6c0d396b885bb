-- ===== src/Armor/Convert/Rounds.antt =====
-- The loop of `rnp_armor_source` of src/librepgp/stream-armor.c: it gives its destination all the
-- bytes of the source, and ends.
use rnp.Prelude.{ℕ, zero, suc, ◌+◌, ◌-◌, ◌<◌, ◌≡◌, refl, sym, ap, ◌∙◌, true, false, arith}
use rnp.Prelude.{inl, inr, ◌&&◌, ◌||◌, some, List, [], ◌∷◌, ◌++◌, length, take, drop, ltb}
use rnp.Prelude.{Bool-cases, length-drop, take-append-drop, drop-nil}
use rnp.Errors.{RnpResult, success, Attempt, returned}
use rnp.Stream.Source.{Source, cache_size, src_read}
use rnp.Stream.Source.Reader.{IsReader, pending, IsReady}
use rnp.Stream.Source.Read.{src_read-Serves}
use rnp.Stream.Source.AtEnd.{src_read-Ends}
use rnp.Stream.Line.{state}
use rnp.Stream.Dest.{Dest, is_success, write_out, write_or_cache, write_cache, dst_write}
use rnp.Stream.Dest.{output_cache_size}
use rnp.Stream.Dest.Given.{write_each}
use rnp.Stream.Dest.Memory.Writes.{joined}
use rnp.Armor.Convert.{convert_rounds, convert_round}

-- A destination that can be written to and is not finished.
abbrev pub IsFresh : {A : Type 0} → Dest A → Type 0
IsFresh dst = (dst.werr ≡ success) × (dst.finished ≡ false)

module _ {A : Type 0} (write : A → ℕ → List ℕ → RnpResult × A)
    (succeeds : (p : A) (n : ℕ) (buf : List ℕ) → (write p n buf).0 ≡ success) where
  write_or_cache-IsFresh :
      (dst : Dest A) (buf : List ℕ) → IsFresh dst → IsFresh (write_or_cache write dst buf)
  unfolding write_or_cache write_out
  write_or_cache-IsFresh dst buf h =
      elim (Bool-cases (dst.no_cache || ltb output_cache_size (length buf))) [
        | inl direct ↦ rw direct (succeeds dst.param dst.writeb buf, h.1)
        | inr cached ↦ rw cached h
      ]

  dst_write-IsFresh :
      (dst : Dest A) (buf : List ℕ) → IsFresh dst → IsFresh (dst_write write dst buf)
  unfolding dst_write write_cache write_out
  dst_write-IsFresh dst [] h = h
  dst_write-IsFresh dst (b ∷ bs) h =
      let bytes = b ∷ bs in
      let n = output_cache_size - length dst.cache in
      let some_bytes : ltb 0 (length bytes) ≡ true = ground arith in
      let fine : is_success dst.werr ≡ true = ap is_success h.0 in
      let out = succeeds dst.param dst.writeb (dst.cache ++ take n bytes) in
      elim (Bool-cases
        (ltb 0 (length dst.cache) && ltb output_cache_size (length dst.cache + length bytes))) [
          | inl over ↦
              simp (some_bytes, fine, over, ap is_success out)
                (write_or_cache-IsFresh (write_cache write dst bytes) (drop n bytes) (out, h.1))
          | inr fits ↦ simp (some_bytes, fine, fits) (write_or_cache-IsFresh dst bytes h)
        ]

module _ {P A : Type 0} (read : P → ℕ → Attempt P (List ℕ)) (rest : P → List ℕ)
    (reader : IsReader read rest) (write : A → ℕ → List ℕ → RnpResult × A)
    (succeeds : (p : A) (n : ℕ) (buf : List ℕ) → (write p n buf).0 ≡ success) where
  -- The loop was ended by the end of the source, after writes of so many bytes.
  pub record Converts (fuel : ℕ) (src : Source P) (dst : Dest A) : Type 0 where
    pub after : Source P
    pub bufs : List (List ℕ)
    pub result :
        convert_rounds read write fuel src dst ≡ some (success, after, write_each write bufs dst)
    pub all : joined bufs ≡ pending rest src
    pub none_left : pending rest after ≡ []
    pub fresh : IsFresh (write_each write bufs dst)

  at_eof-Converts :
      (fuel : ℕ) (src : Source P) (dst : Dest A)
      → src.eof ≡ true
      → pending rest src ≡ []
      → IsFresh dst
      → Converts fuel src dst
  unfolding convert_rounds write_each joined
  at_eof-Converts zero src dst e none fresh = record {
    after = src;
    bufs = [];
    result = rw e;
    all = sym none;
    none_left = none;
    fresh = fresh;
  }
  at_eof-Converts (suc fuel) src dst e none fresh = record {
    after = src;
    bufs = [];
    result = rw e;
    all = sym none;
    none_left = none;
    fresh = fresh;
  }

  round_lem :
      (fuel : ℕ) (src : Source P) (dst : Dest A) (r : Attempt (Source P) (List ℕ))
      → src.eof ≡ false
      → src_read read src cache_size ≡ r
      → convert_rounds read write (suc fuel) src dst
        ≡ convert_round read write (convert_rounds read write fuel) dst r
  unfolding convert_rounds
  round_lem fuel src dst r e reads =
      simp e (ap (convert_round read write (convert_rounds read write fuel) dst) reads)

  -- A round that reads some bytes.
  some-Converts :
      (fuel : ℕ) (src s : Source P) (dst : Dest A) (b : ℕ) (bs : List ℕ)
      → src.eof ≡ false
      → src_read read src cache_size ≡ returned (b ∷ bs) s
      → pending rest src ≡ (b ∷ bs) ++ pending rest s
      → IsFresh dst
      → Converts fuel s (dst_write write dst (b ∷ bs))
      → Converts (suc fuel) src dst
  unfolding convert_round write_each joined
  some-Converts fuel src s dst b bs e reads all fresh h =
      let written = dst_write-IsFresh write succeeds dst (b ∷ bs) fresh in
      record {
        after = h.after;
        bufs = (b ∷ bs) ∷ h.bufs;
        result =
            round_lem fuel src dst (returned (b ∷ bs) s) e reads
            ∙ rw (ap is_success written.0) h.result;
        all = ap (λ l. (b ∷ bs) ++ l) h.all ∙ sym all;
        none_left = h.none_left;
        fresh = h.fresh;
      }

  -- A round that finds the end.
  last-Converts :
      (fuel : ℕ) (src s : Source P) (dst : Dest A)
      → src.eof ≡ false
      → src_read read src cache_size ≡ returned [] s
      → pending rest src ≡ []
      → pending rest s ≡ []
      → Converts fuel s dst
      → Converts (suc fuel) src dst
  unfolding convert_round
  last-Converts fuel src s dst e reads none left h = record {
    after = h.after;
    bufs = h.bufs;
    result = round_lem fuel src dst (returned [] s) e reads ∙ h.result;
    all = h.all ∙ left ∙ sym none;
    none_left = h.none_left;
    fresh = h.fresh;
  }

  -- `rnp_armor_source` ends: each round takes a byte, or the source is at its end.
  pub convert_rounds-Converts :
      (fuel : ℕ) (src : Source P) (dst : Dest A)
      → IsReady rest src
      → IsFresh dst
      → length (pending rest src) < fuel
      → Converts fuel src dst
  convert_rounds-Converts zero src dst h fresh enough = absurd (omega arith)
  convert_rounds-Converts (suc fuel) src dst h fresh enough = elim (Bool-cases src.eof) [
    | inl end ↦ at_eof-Converts (suc fuel) src dst end (h.at_eof end) fresh
    | inr more ↦ go (pending rest src) refl more (convert_rounds-Converts fuel)
  ]
    where
      go :
          (bytes : List ℕ)
          → pending rest src ≡ bytes
          → src.eof ≡ false
          → ((s : Source P) (dst' : Dest A)
              → IsReady rest s
              → IsFresh dst'
              → length (pending rest s) < fuel
              → Converts fuel s dst')
          → Converts (suc fuel) src dst
      go [] none more again =
          let (s, reads, end) =
            src_read-Ends read rest reader src cache_size h none (omega arith) in
          let served = src_read-Serves read rest reader src cache_size h in
          let same : s ≡ served.after = ap state (sym reads ∙ served.result) in
          let left : pending rest s ≡ [] =
            ap (λ x. pending rest x) same ∙ served.left ∙ rw none (drop-nil cache_size) in
          last-Converts fuel src s dst more reads none left
            (at_eof-Converts fuel s dst end left fresh)
      go (b ∷ bs) some_left more again =
          let served = src_read-Serves read rest reader src cache_size h in
          let got = take cache_size (b ∷ bs) in
          let reads : src_read read src cache_size ≡ returned got served.after =
            served.result ∙ ap (λ l. returned (take cache_size l) served.after) some_left in
          let left : pending rest served.after ≡ drop cache_size (b ∷ bs) =
            served.left ∙ ap (λ l. drop cache_size l) some_left in
          let split : pending rest src ≡ got ++ pending rest served.after =
            some_left
            ∙ sym (take-append-drop cache_size (b ∷ bs))
            ∙ ap (λ l. got ++ l) (sym left) in
          let fewer : length (pending rest served.after) < fuel = omega (
            arith,
            ap (λ (l : List ℕ). length l) left,
            ap (λ (l : List ℕ). length l) some_left,
            length-drop {0} cache_size (b ∷ bs),
            enough,
          ) in
          some-Converts fuel src served.after dst b (take 32767 bs) more reads split fresh (
            again served.after _ served.ready (dst_write-IsFresh write succeeds dst got fresh)
              fewer)
