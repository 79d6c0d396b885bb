-- ===== src/Stream/Source/AtEnd.antt =====
-- A source at its end, for src/librepgp/stream-common.c: `src_read` returns nothing and sets `eof`.
use rnp.Prelude.{ℕ, zero, suc, ◌+◌, ◌≤◌, ◌<◌, ◌≡◌, refl, ap, ◌∙◌, Bool, true, false}
use rnp.Prelude.{not, ◌&&◌, ◌||◌, arith, inl, inr, List, [], ◌∷◌, ◌++◌, length, ltb, ◌==◌}
use rnp.Prelude.{Bool-cases, length-drop, take-nil}
use rnp.Errors.{Attempt, returned}
use rnp.Stream.Source.{Source, cache_size, unread, u64, sub64, finish_read, read_directly}
use rnp.Stream.Source.{read_to_cache, read_loop, read_len, src_read}
use rnp.Stream.Source.Reader.{IsReader, pending, IsReady}

-- A call returns nothing, and leaves a source whose flag is set.
abbrev pub Ends : {P : Type 0} → Attempt (Source P) (List ℕ) → Type 0
Ends {P} r = (s : Source P) × (r ≡ returned [] s) × (s.eof ≡ true)

append-nil-parts : (xs ys : List ℕ) → xs ++ ys ≡ [] → (xs ≡ []) × (ys ≡ [])
append-nil-parts [] ys e = (refl, e)
append-nil-parts (x ∷ xs) ys e = absurd (omega (arith, ap (λ (l : List ℕ). length l) e))

module _ {P : Type 0} (read : P → ℕ → Attempt P (List ℕ)) (rest : P → List ℕ)
    (reader : IsReader read rest) where
  -- A callback with nothing left returns nothing.
  read_nothing : (p : P) (n : ℕ) → 0 < n → rest p ≡ [] → (p' : P) × (read p n ≡ returned [] p')
  read_nothing p n some_asked none =
      let c = reader.serve p n some_asked in
      (c.after, c.result ∙ ap (λ l. returned l c.after) (rw none (take-nil c.size)))

  read_loop-Ends :
      (fuel : ℕ) (readahead : Bool) (s : Source P) (left : ℕ)
      → left ≤ fuel
      → 0 < left
      → rest s.param ≡ []
      → Ends (read_loop read fuel readahead s left [])
  unfolding read_loop read_directly read_to_cache finish_read
  read_loop-Ends zero readahead s left enough more none = absurd (omega arith)
  read_loop-Ends (suc fuel) readahead s left enough more none =
      elim (Bool-cases (ltb cache_size left || not readahead)) [
        | inl direct ↦
            let (p, e) = read_nothing s.param left more none in
            rw (asks, direct, e, read_directly)
              (record s { param = p; eof = true; readb = u64 (s.readb + 0) }, refl, refl)
        | inr cached ↦
            let (p, e) = read_nothing s.param cache_size (omega arith) none in
            rw (asks, cached, e, read_to_cache)
              (record s { param = p; eof = true; readb = u64 (s.readb + 0) }, refl, refl)
      ]
    where
      asks : (left == 0) ≡ false
      asks = ground arith

  -- Nothing is cached.
  read_len-loop :
      (readahead : Bool) (s : Source P) (len : ℕ)
      → unread s.cache ≡ []
      → read_len read readahead s len ≡ read_loop read len readahead s len []
  unfolding read_len
  read_len-loop readahead s len e =
      let used : ltb s.cache.pos (length s.cache.buf) ≡ false =
        ground (arith, length-drop {0} s.cache.pos s.cache.buf, ap (λ (l : List ℕ). length l) e) in
      rw used

  -- `src_read` of a source with nothing left.
  pub src_read-Ends :
      (s : Source P) (n : ℕ)
      → IsReady rest s
      → pending rest s ≡ []
      → 0 < n
      → Ends (src_read read s n)
  unfolding src_read read_loop finish_read
  src_read-Ends s n h none more = elim (Bool-cases s.eof) [
    | inl at_end ↦
        let stops : (s.eof || (n == 0)) ≡ true = ground arith in rw stops (s, refl, at_end)
    | inr before ↦
        let cached = (append-nil-parts (unread s.cache) (rest s.param) none).0 in
        let left = (append-nil-parts (unread s.cache) (rest s.param) none).1 in
        let reads : (s.eof || (n == 0)) ≡ false = ground arith in
        elim (Bool-cases (s.knownsize && ltb s.size (u64 (s.readb + n)))) [
          | inl cut ↦
              let sized : s.size ≡ s.readb =
                ground (arith, h.sized, ap (λ (l : List ℕ). length l) none) in
              let nothing : sub64 s.size s.readb ≡ 0 = omega (arith, sized, h.fits) in
              let done : (s.eof || (s.knownsize && (u64 (s.readb + 0) == s.size))) ≡ true =
                ground (arith, sized, h.fits) in
              rw (reads, cut, nothing, read_len-loop false s 0 cached)
                (
                  record s {
                    eof = s.eof || (s.knownsize && (u64 (s.readb + 0) == s.size));
                    readb = u64 (s.readb + 0);
                  },
                  refl,
                  done,
                )
          | inr whole ↦
              rw (reads, whole, read_len-loop s.cache.readahead s n cached)
                (read_loop-Ends n s.cache.readahead s n (omega arith) more left)
        ]
  ]
