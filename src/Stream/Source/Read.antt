-- ===== src/Stream/Source/Read.antt =====
-- `src_read` of src/librepgp/stream-common.c over a callback that keeps its contract.
use rnp.Prelude.{
  ℕ, zero, suc, ◌+◌, ◌-◌, ◌≤◌, ◌<◌, ◌≡◌, sym, ap, ◌∙◌, ◌⊎◌, inl, inr, Bool, true, false, not, ◌&&◌,
  ◌||◌, arith,
}
use rnp.Prelude.{List, [], length, take, drop, ltb, leb, ◌==◌, Bool-cases}
use rnp.Prelude.{append-nil, length-take, length-drop}
use rnp.Prelude.{take-append_le, take-append_ge, drop-append_ge, take_all}
use rnp.Prelude.{ltb→le, ==→eq, take-nil, drop-nil, drop_all}
use rnp.Errors.{Attempt, returned}
use rnp.Stream.Source.{Source, cache_size, unread, u64, sub64, advance, finish_read}
use rnp.Stream.Source.{read_loop, read_len, src_read}
use rnp.Stream.Source.Reader.{IsReader, pending, IsReady, Serves}
use rnp.Stream.Source.Cursor.{Serves-eq, pending-advance, advance-IsMid, finish_read-Serves}
use rnp.Stream.Source.Rounds.{Loops, read_directly-Serves}
use rnp.Stream.Source.Fill.{read_to_cache-Serves}

module _ {P : Type 0} (read : P → ℕ → Attempt P (List ℕ)) (rest : P → List ℕ)
    (reader : IsReader read rest) where
  read_loop-Loops :
      (fuel : ℕ) (readahead : Bool) → Loops read rest reader (read_loop read fuel readahead) fuel
  unfolding read_loop
  read_loop-Loops zero readahead s left buf enough h used =
      let none : left ≡ 0 = omega arith in
      rw none (Serves-eq rest (sym (append-nil buf)) (rw used) (finish_read-Serves rest s buf h))
  read_loop-Loops (suc fuel) readahead s left buf enough h used = elim (Bool-cases (left == 0)) [
    | inl none ↦
        rw (none, ==→eq _ _ none)
          (Serves-eq rest (sym (append-nil buf)) (rw used) (finish_read-Serves rest s buf h))
    | inr more ↦ elim (Bool-cases (ltb cache_size left || not readahead)) [
      | inl direct ↦
          rw (more, direct)
            (read_directly-Serves read rest reader fuel _ (read_loop-Loops fuel readahead) s left
              buf enough (ground arith) h used)
      | inr cached ↦
          rw (more, cached)
            (read_to_cache-Serves read rest reader fuel _ (read_loop-Loops fuel readahead) s left
              buf enough h used)
    ]
  ]

  -- The cursor at the end of the cache.
  used_up :
      (s : Source P) → IsReady rest s → unread (advance s (length (unread s.cache))).cache ≡ []
  used_up s h =
      drop_all _ s.cache.buf (omega (arith, h.cursor, length-drop {0} s.cache.pos s.cache.buf))

  read_len-Serves :
      (readahead : Bool) (s : Source P) (len : ℕ)
      → IsReady rest s
      → Serves rest s.readb
          (take len (pending rest s))
          (drop len (pending rest s))
          (read_len read readahead s len)
  unfolding read_len
  read_len-Serves readahead s len h = elim (Bool-cases (ltb s.cache.pos (length s.cache.buf))) [
    | inl some_cached ↦ elim (Bool-cases (leb len (length (unread s.cache)))) [
      | inl enough ↦
          let le : len ≤ length (unread s.cache) = ground arith in
          rw (some_cached, enough) (from_cache le)
      | inr short ↦
          let gt : length (unread s.cache) < len = ground arith in
          rw (some_cached, short) (beyond gt)
    ]
    | inr none_cached ↦
        let empty : unread s.cache ≡ [] =
          drop_all s.cache.pos s.cache.buf (ltb→le _ _ none_cached) in
        rw (none_cached, empty) (read_loop-Loops len readahead s len [] (omega arith) h empty)
  ]
    where
      cached : List ℕ
      cached = unread s.cache

      from_cache :
          len ≤ length cached
          → Serves rest s.readb
              (take len (pending rest s))
              (drop len (pending rest s))
              (finish_read (advance s len) (take len cached))
      from_cache le =
          let taken : len ≡ length (take len cached) = omega (arith, length-take {0} len cached) in
          Serves-eq rest (sym (take-append_le len cached (rest s.param) le))
            (pending-advance rest s len le)
            (finish_read-Serves rest (advance s len) (take len cached)
              (rw (← taken) (advance-IsMid rest s len le h)))

      beyond :
          length cached < len
          → Serves rest s.readb (take len (pending rest s)) (drop len (pending rest s)) (
              read_loop read
                (len - length cached)
                readahead
                (advance s (length cached))
                (len - length cached)
                cached)
      beyond gt =
          let n = length cached in
          Serves-eq rest (sym (take-append_ge len cached (rest s.param) (omega arith)))
            (sym (drop-append_ge len cached (rest s.param) (omega arith)))
            (read_loop-Loops (len - n) readahead (advance s n) (len - n) cached (omega arith)
              (advance-IsMid rest s n (omega arith) h) (used_up s h))

  -- `src_read` returns the next bytes of the source, as many as asked for or as there are, takes
  -- them off what is pending, counts them, and keeps the invariant.
  pub src_read-Serves :
      (s : Source P) (n : ℕ)
      → IsReady rest s
      → Serves rest s.readb (take n (pending rest s)) (drop n (pending rest s)) (src_read read s n)
  unfolding src_read
  src_read-Serves s n h = elim (Bool-cases (s.eof || (n == 0))) [
    | inl at_once ↦ rw at_once (record {
      after = s;
      result = ap (λ w. returned w s) (sym (nothing_taken at_once));
      ready = h;
      left = sym (nothing_dropped at_once);
      counted = rw (nothing_taken at_once) (omega (arith, h.fits));
    })
    | inr reads ↦ elim (Bool-cases (s.knownsize && ltb s.size (u64 (s.readb + n)))) [
      | inl cut ↦
          let len = length (pending rest s) in
          let exact : sub64 s.size s.readb ≡ len = ground (arith, h.sized, h.narrow, h.fits) in
          let less : len ≤ n = ground (arith, h.sized, h.narrow, h.fits) in
          rw (reads, cut, exact)
            (Serves-eq rest (take_all len _ (omega arith) ∙ sym (take_all n _ less))
              (drop_all len _ (omega arith) ∙ sym (drop_all n _ less))
              (read_len-Serves false s len h))
      | inr whole ↦ rw (reads, whole) (read_len-Serves s.cache.readahead s n h)
    ]
  ]
    where
      at_once_cases : (s.eof || (n == 0)) ≡ true → (pending rest s ≡ []) ⊎ (n ≡ 0)
      at_once_cases e = elim (Bool-cases s.eof) [
        | inl at_end ↦ inl (h.at_eof at_end)
        | inr still ↦ inr (ground arith)
      ]

      nothing_taken : (s.eof || (n == 0)) ≡ true → take n (pending rest s) ≡ []
      nothing_taken e = elim (at_once_cases e) [
        | inl none ↦ rw none (take-nil n)
        | inr zero_len ↦ rw zero_len
      ]

      nothing_dropped : (s.eof || (n == 0)) ≡ true → drop n (pending rest s) ≡ pending rest s
      nothing_dropped e = elim (at_once_cases e) [
        | inl none ↦ rw none (drop-nil n)
        | inr zero_len ↦ rw zero_len
      ]
