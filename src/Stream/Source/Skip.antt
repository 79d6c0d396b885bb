-- ===== src/Stream/Source/Skip.antt =====
-- `src_skip` and `src_eof` over a callback that keeps its contract.
use rnp.Prelude.{ℕ, ◌+◌, ◌≤◌, ◌≡◌, refl, ap, ◌∙◌, inl, inr, Bool, true, ◌||◌, arith, min}
use rnp.Prelude.{List, length, drop, ltb, leb, ◌==◌, Bool-cases}
use rnp.Prelude.{length-append, length-take}
use rnp.Errors.{Attempt, returned}
use rnp.Stream.Source.{Source, unread, u64, advance, read_count, src_skip, src_eof}
use rnp.Stream.Source.Reader.{IsReader, pending, IsReady}
use rnp.Stream.Source.Cursor.{advance-IsMid, pending-advance}
use rnp.Stream.Source.Read.{src_read-Serves}
use rnp.Stream.Source.Peek.{src_peek-Peeks}

-- `r` returns `n`, counts it, and leaves the bytes `more`.
pub record Skips {P : Type 0} (rest : P → List ℕ) (readb n : ℕ) (more : List ℕ)
    (r : Attempt (Source P) ℕ) : Type 0 where
  pub after : Source P
  pub result : r ≡ returned n after
  pub ready : IsReady rest after
  pub left : pending rest after ≡ more
  pub counted : after.readb ≡ u64 (readb + n)

module _ {P : Type 0} (read : P → ℕ → Attempt P (List ℕ)) (rest : P → List ℕ)
    (reader : IsReader read rest) where
  -- `src_skip` takes the next bytes off what is pending, as many as asked for or as there are, and
  -- counts them, from the cache or by a read, if the buffer that it reads into can be had.
  pub src_skip-Skips :
      (alloc : ℕ → Bool) (s : Source P) (n : ℕ)
      → (16 ≤ n → alloc n ≡ true)
      → IsReady rest s
      → Skips rest s.readb
          (min n (length (pending rest s)))
          (drop n (pending rest s))
          (src_skip read alloc s n)
  unfolding src_skip read_count
  src_skip-Skips alloc s n memory h = elim (Bool-cases (leb n (length (unread s.cache)))) [
    | inl cached ↦
        let le : n ≤ length (unread s.cache) = ground arith in
        let whole : min n (length (pending rest s)) ≡ n =
          omega (arith, length-append {0} (unread s.cache) (rest s.param)) in
        let m = advance-IsMid rest s n le h in
        rw (cached, whole)
          (record {
            after = record (advance s n) { readb = u64 (s.readb + n) };
            result = refl;
            ready = record {
              cursor = m.cursor;
              room = m.room;
              at_eof = m.at_eof;
              sized = λ k. omega (arith, m.sized k, m.narrow k);
              fits = omega arith;
              narrow = m.narrow;
            };
            left = pending-advance rest s n le;
            counted = refl;
          })
    | inr beyond ↦
        let buffer : (ltb n 16 || alloc n) ≡ true = ground arith in
        let r = src_read-Serves read rest reader s n h in
        let count = length-take {0} n (pending rest s) in
        simp (beyond, buffer)
          (record {
            after = r.after;
            result = rw (r.result) (ap (λ k. returned k (r.after)) count);
            ready = r.ready;
            left = r.left;
            counted = r.counted ∙ ap (λ k. u64 (s.readb + k)) count;
          })
  ]

  -- `src_eof` says yes exactly when no byte is pending, and takes none.
  src_eof_lem :
      (s : Source P)
      → IsReady rest s
      → ((src_eof read s).0 ≡ (length (pending rest s) == 0))
        × (pending rest (src_eof read s).1 ≡ pending rest s)
        × IsReady rest (src_eof read s).1
  unfolding src_eof
  src_eof_lem s h = elim (Bool-cases s.eof) [
    | inl at_end ↦
        let none : length (pending rest s) ≡ 0 = ap (λ (l : List ℕ). length l) (h.at_eof at_end) in
        simp at_end (ground arith, refl, h)
    | inr open_still ↦
        let p = src_peek-Peeks read rest reader s 1 (omega arith) h in
        let count = length-take {0} 1 (pending rest s) in
        simp (open_still, p.result) (ground arith, p.left, p.ready)
  ]
