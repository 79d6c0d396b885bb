-- ===== src/Stream/Dest/Given.antt =====
-- What the callback of a cached destination was given, for src/librepgp/stream-common.c: all the
-- bytes that were written, in order, however the cache cuts them.
use rnp.Prelude.{
  ℕ, ◌+◌, ◌-◌, ◌≤◌, ◌≡◌, refl, sym, ap, ◌∙◌, ◌⊎◌, inl, inr, true, false, ◌&&◌, ◌||◌, arith,
}
use rnp.Prelude.{List, [], ◌∷◌, ◌++◌, length, take, drop, ltb, Bool-cases}
use rnp.Prelude.{append_assoc, append-nil, length-append, take-append-drop, length-eq-zero, ltb→le}
use mathlib.Core.Path.{subst}
use rnp.Errors.{RnpResult, success}
use rnp.Stream.Dest.{Dest, output_cache_size, is_success, write_out, write_or_cache, write_cache}
use rnp.Stream.Dest.{dst_write, dst_flush}
use rnp.Stream.Dest.Memory.Writes.{joined}

-- Buffers that are written one after the other.
unfoldable pub write_each :
    {P : Type 0} → (P → ℕ → List ℕ → RnpResult × P) → List (List ℕ) → Dest P → Dest P
write_each write [] dst = dst
write_each write (bytes ∷ more) dst = write_each write more (dst_write write dst bytes)

-- What the test of `dst_write` leaves.
fits_cases :
    (cache bytes : List ℕ)
    → (ltb 0 (length cache) && ltb output_cache_size (length cache + length bytes)) ≡ false
    → (cache ≡ []) ⊎ (length cache + length bytes ≤ output_cache_size)
fits_cases [] bytes h = inl refl
fits_cases (c ∷ cs) bytes h = inr (ground arith)

-- What the code above a cache relies on: a callback that does not fail, and keeps an invariant of
-- the bytes that it was given since the beginning.
module _ {P : Type 0} (write : P → ℕ → List ℕ → RnpResult × P) (Holds : List ℕ → P → Type 0)
    (step : (given : List ℕ) (p : P) (n : ℕ) (bytes : List ℕ)
      → Holds given p
      → ((write p n bytes).0 ≡ success) × Holds (given ++ bytes) (write p n bytes).1) where
  -- The bytes given to a destination: those given to its callback, and those in its cache.
  pub record IsStreaming (given : List ℕ) (dst : Dest P) : Type 0 where
    pub passed : List ℕ
    pub good : dst.werr ≡ success
    pub cached : dst.no_cache ≡ false
    pub holds : Holds passed dst.param
    pub accounts : given ≡ passed ++ dst.cache
    pub room : length dst.cache ≤ output_cache_size

  -- The callback is given the whole cache, and bytes behind it.
  passes :
      (given bytes : List ℕ) (dst : Dest P)
      → (h : IsStreaming given dst)
      → IsStreaming (h.passed ++ bytes) (record (write_out write dst bytes) { cache = [] })
  unfolding write_out
  passes given bytes dst h = record {
    passed = h.passed ++ bytes;
    good = (step h.passed dst.param dst.writeb bytes h.holds).0;
    cached = h.cached;
    holds = (step h.passed dst.param dst.writeb bytes h.holds).1;
    accounts = sym (append-nil (h.passed ++ bytes));
    room = omega arith;
  }

  write_or_cache-IsStreaming :
      (given bytes : List ℕ) (dst : Dest P)
      → (dst.cache ≡ []) ⊎ (length dst.cache + length bytes ≤ output_cache_size)
      → IsStreaming given dst
      → IsStreaming (given ++ bytes) (write_or_cache write dst bytes)
  unfolding write_or_cache write_out
  write_or_cache-IsStreaming given bytes dst fits h =
      elim (Bool-cases (ltb output_cache_size (length bytes))) [
        | inl large ↦
            let none : dst.cache ≡ [] = elim fits [
              | inl empty ↦ empty
              | inr sum ↦ absurd (ground arith)
            ] in
            let out : (dst.no_cache || ltb output_cache_size (length bytes)) ≡ true =
              ground arith in
            simp out (record {
              passed = h.passed ++ bytes;
              good = (step h.passed dst.param dst.writeb bytes h.holds).0;
              cached = h.cached;
              holds = (step h.passed dst.param dst.writeb bytes h.holds).1;
              accounts = rw h.accounts (simp (none, append-nil));
              room = h.room;
            })
        | inr small ↦
            let kept : (dst.no_cache || ltb output_cache_size (length bytes)) ≡ false =
              ground arith in
            simp kept (record {
              passed = h.passed;
              good = h.good;
              cached = h.cached;
              holds = h.holds;
              accounts = rw h.accounts (append_assoc h.passed dst.cache bytes);
              room = elim fits [
                | inl empty ↦
                    let e = ap (λ (l : List ℕ). length l) empty in
                    omega (arith, length-append {0} dst.cache bytes, ltb→le _ _ small)
                | inr sum ↦ omega (arith, length-append {0} dst.cache bytes)
              ];
            })
      ]

  -- One call of `dst_write`.
  pub dst_write-IsStreaming :
      (given bytes : List ℕ) (dst : Dest P)
      → IsStreaming given dst
      → IsStreaming (given ++ bytes) (dst_write write dst bytes)
  unfolding dst_write write_cache
  dst_write-IsStreaming given [] dst h = subst (λ l. IsStreaming l dst) (sym (append-nil given)) h
  dst_write-IsStreaming given (b ∷ bs) dst h =
      let bytes = b ∷ bs in
      let n = output_cache_size - length dst.cache in
      let some_bytes : ltb 0 (length bytes) ≡ true = ground arith in
      let fine : is_success dst.werr ≡ true = rw h.good in
      elim (Bool-cases
        (ltb 0 (length dst.cache) && ltb output_cache_size (length dst.cache + length bytes))) [
          | inl over ↦
              let filled = passes given (dst.cache ++ take n bytes) dst h in
              let whole : (h.passed ++ (dst.cache ++ take n bytes)) ++ drop n bytes
                  ≡ given ++ bytes =
                rw h.accounts (simp append_assoc (rw (take-append-drop n bytes))) in
              simp (some_bytes, fine, over, ap is_success filled.good)
                (subst
                  (λ l.
                    IsStreaming l
                      (write_or_cache write (write_cache write dst bytes) (drop n bytes)))
                  whole (write_or_cache-IsStreaming _ (drop n bytes) _ (inl refl) filled))
          | inr fits ↦
              simp (some_bytes, fine, fits)
                (write_or_cache-IsStreaming given bytes dst (fits_cases dst.cache bytes fits) h)
        ]

  pub write_each-IsStreaming :
      (given : List ℕ) (bufs : List (List ℕ)) (dst : Dest P)
      → IsStreaming given dst
      → IsStreaming (given ++ joined bufs) (write_each write bufs dst)
  unfolding write_each joined
  write_each-IsStreaming given [] dst h = subst (λ l. IsStreaming l dst) (sym (append-nil given)) h
  write_each-IsStreaming given (bytes ∷ more) dst h =
      subst (λ l. IsStreaming l (write_each write more (dst_write write dst bytes)))
        (append_assoc given bytes (joined more))
        (write_each-IsStreaming (given ++ bytes) more _ (dst_write-IsStreaming given bytes dst h))

  -- The cache is flushed before the end.
  pub dst_flush-Holds :
      (given : List ℕ) (dst : Dest P)
      → IsStreaming given dst
      → Holds given (dst_flush write dst).param
  unfolding dst_flush write_out
  dst_flush-Holds given dst h =
      let fine : is_success dst.werr ≡ true = rw h.good in
      elim (Bool-cases (ltb 0 (length dst.cache))) [
        | inl some_bytes ↦
            simp (some_bytes, fine)
              (subst (λ l. Holds l (write dst.param dst.writeb dst.cache).1) (sym h.accounts)
                (step h.passed dst.param dst.writeb dst.cache h.holds).1)
        | inr empty ↦ simp empty (
            subst (λ l. Holds l dst.param)
              (sym (
                h.accounts
                ∙ ap (λ l. h.passed ++ l) (length-eq-zero dst.cache (ground arith))
                ∙ append-nil h.passed))
              h.holds)
      ]
