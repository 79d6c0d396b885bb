-- ===== src/Stream/Source/Peek.antt =====
-- `src_peek` over a callback that keeps its contract.
use rnp.Prelude.{
  ℕ, zero, suc, ◌+◌, ◌≤◌, ◌<◌, ◌≡◌, refl, sym, ap, ◌∙◌, inl, inr, Bool, false, ◌&&◌, arith,
}
use rnp.Prelude.{List, [], ◌∷◌, ◌++◌, length, take, drop, ltb, leb, Bool-cases}
use rnp.Prelude.{append_assoc, append-nil, length-append, length-drop, take_all}
use rnp.Prelude.{take-append_le, take-append-drop, take-nil, lt→ltb, le→ltb}
use mathlib.Core.Path.{subst₂}
use rnp.Errors.{Attempt, returned}
use rnp.Stream.Source.{
  Source, cache_size, unread, u64, sub64, peek_round, peek_loop, peek_len, src_peek,
}
use rnp.Stream.Source.Reader.{Chunk, IsReader, pending, IsReady}
use rnp.Stream.Source.Rounds.{Chunk-empty, Chunk-length}

-- `r` returns the bytes `want` of a source that still has all of `whole` to deliver.
pub record Peeks {P : Type 0} (rest : P → List ℕ) (readb : ℕ) (want whole : List ℕ)
    (r : Attempt (Source P) (List ℕ)) : Type 0 where
  pub after : Source P
  pub result : r ≡ returned want after
  pub ready : IsReady rest after
  pub left : pending rest after ≡ whole
  pub counted : after.readb ≡ readb

module _ {P : Type 0} (read : P → ℕ → Attempt P (List ℕ)) (rest : P → List ℕ)
    (reader : IsReader read rest) where
  Peeks-eq :
      {readb : ℕ} {want whole want' whole' : List ℕ} {r : Attempt (Source P) (List ℕ)}
      → want ≡ want'
      → whole ≡ whole'
      → Peeks rest readb want whole r
      → Peeks rest readb want' whole' r
  Peeks-eq {readb} {r = r} p q h = subst₂ (λ w m. Peeks rest readb w m r) p q h

  -- A source whose callback and cache changed, with the same bytes to deliver.
  same_pending-IsReady :
      (s s' : Source P)
      → IsReady rest s
      → pending rest s' ≡ pending rest s
      → s'.cache.pos ≤ length s'.cache.buf
      → length s'.cache.buf ≤ cache_size
      → (s'.eof ≡ s.eof) × (s'.knownsize ≡ s.knownsize) × (s'.size ≡ s.size) × (s'.readb ≡ s.readb)
      → IsReady rest s'
  same_pending-IsReady s s' h same cursor room e = record {
    cursor = cursor;
    room = room;
    at_eof = λ at_end. same ∙ h.at_eof (sym e.0 ∙ at_end);
    sized = λ k.
        let whole = ap (λ (l : List ℕ). length l) same in
        omega (arith, h.sized (sym e.1 ∙ k), whole, e.2, e.3);
    fits = omega (arith, h.fits, e.3);
    narrow = λ k. omega (arith, h.narrow (sym e.1 ∙ k), e.2);
  }

  -- What the loop of `src_peek` does over a cache with its cursor at the start.
  abbrev Peeking : (Source P → ℕ → Attempt (Source P) (List ℕ)) → ℕ → Type 0
  Peeking again fuel =
      (s : Source P) (len : ℕ)
      → len ≤ fuel + length s.cache.buf
      → length s.cache.buf < len
      → len ≤ cache_size
      → s.cache.pos ≡ 0
      → IsReady rest s
      → Peeks rest s.readb (take len (s.cache.buf ++ rest s.param)) (s.cache.buf ++ rest s.param)
          (again s len)

  peek_round-Peeks :
      (fuel : ℕ) (again : Source P → ℕ → Attempt (Source P) (List ℕ))
      → Peeking again fuel
      → (s : Source P) (len want : ℕ) → 0 < want
      → want + length s.cache.buf ≤ cache_size
      → len ≤ suc fuel + length s.cache.buf
      → length s.cache.buf < len
      → len ≤ cache_size
      → s.cache.pos ≡ 0
      → IsReady rest s
      → Peeks rest s.readb
          (take len (s.cache.buf ++ rest s.param))
          (s.cache.buf ++ rest s.param)
          (peek_round read again s len want)
  unfolding peek_round
  peek_round-Peeks fuel again loops s len want some_want fits enough short le start h =
      go (take c.size (rest s.param)) refl
    where
      held : List ℕ
      held = s.cache.buf

      c : Chunk read rest s.param want
      c = reader.serve s.param want some_want

      whole : List ℕ
      whole = held ++ rest s.param

      from_start : (x : List ℕ) (p : P) → drop s.cache.pos x ++ rest p ≡ x ++ rest p
      from_start x p = ap (λ k. drop k x ++ rest p) start

      at_start : pending rest s ≡ whole
      at_start = from_start held s.param

      more : List ℕ
      more = held ++ take c.size (rest s.param)

      s' : Source P
      s' = record s { param = c.after; cache = record (s.cache) { buf = more } }

      kept : more ++ rest c.after ≡ whole
      kept = append_assoc held _ _ ∙ rw (c.left) (rw (take-append-drop c.size (rest s.param)))

      grown : length more ≡ length held + c.size
      grown = length-append held _ ∙ rw (Chunk-length read rest reader c)

      filled : IsReady rest s'
      filled =
          same_pending-IsReady s s' h (from_start more c.after ∙ kept ∙ sym at_start) (omega arith)
            (omega (arith, grown, c.asked)) (refl, refl, refl, refl)

      go :
          (got : List ℕ)
          → take c.size (rest s.param) ≡ got
          → Peeks rest s.readb (take len whole) whole (peek_round read again s len want)
      go [] e =
          let (none, none_after) = Chunk-empty read rest reader c e in
          let only_held : whole ≡ held = rw none (append-nil held) in
          rw (c.result, e, peek_round)
            (record {
              after = record s { param = c.after };
              result =
                  ap (λ w. returned w (record s { param = c.after }))
                    (sym (rw only_held (take_all len held (omega arith))));
              ready =
                  same_pending-IsReady s (record s { param = c.after }) h (rw (none, none_after))
                    (omega arith) h.room (refl, refl, refl, refl);
              left = from_start held c.after ∙ rw (none, none_after);
              counted = refl;
            })
      go (b ∷ bs) e = elim (Bool-cases (leb len (length more))) [
        | inl full ↦
            rw (c.result, e, peek_round, ← e, full)
              (record {
                after = s';
                result =
                    ap (λ w. returned w s')
                      (sym (take-append_le len more (rest c.after) (ground arith))
                        ∙ ap (λ w. take len w) kept);
                ready = filled;
                left = from_start more c.after ∙ kept;
                counted = refl;
              })
        | inr partial ↦
            rw (c.result, e, peek_round, ← e, partial)
              (Peeks-eq (ap (λ w. take len w) kept) kept
                (loops s' len (omega (arith, grown, progress e)) (ground arith) le start filled))
      ]
        where
          progress : take c.size (rest s.param) ≡ b ∷ bs → 0 < c.size
          progress e =
              omega (arith, Chunk-length read rest reader c, ap (λ (l : List ℕ). length l) e)

  peek_loop-Peeking : (fuel : ℕ) (readahead : Bool) → Peeking (peek_loop read fuel readahead) fuel
  unfolding peek_loop
  peek_loop-Peeking zero readahead s len enough short le start h = absurd (omega arith)
  peek_loop-Peeking (suc fuel) readahead s len enough short le start h = rw (lt→ltb _ _ short) (
      peek_round-Peeks fuel _ (peek_loop-Peeking fuel readahead) s len _ (ground arith)
        (ground arith) enough short le start h)

  peek_len-Peeks :
      (readahead : Bool) (s : Source P) (len : ℕ)
      → len ≤ cache_size
      → IsReady rest s
      → Peeks rest s.readb
          (take len (pending rest s))
          (pending rest s)
          (peek_len read readahead s len)
  unfolding peek_len
  peek_len-Peeks readahead s len le h = elim (Bool-cases (leb len (length (unread s.cache)))) [
    | inl enough ↦ rw enough (record {
      after = s;
      result =
          ap (λ w. returned w s)
            (sym (take-append_le len (unread s.cache) (rest s.param) (ground arith)));
      ready = h;
      left = refl;
      counted = refl;
    })
    | inr short ↦
        rw short
          (peek_loop-Peeking len readahead s' len (omega arith) (ground arith) le refl compacted)
  ]
    where
      s' : Source P
      s' = record s { cache = record (s.cache) { buf = unread s.cache; pos = 0 } }

      compacted : IsReady rest s'
      compacted =
          same_pending-IsReady s s' h refl (omega arith)
            (omega (arith, h.room, length-drop {0} s.cache.pos s.cache.buf))
            (refl, refl, refl, refl)

  -- `src_peek` returns what the next `src_read` of the same length would return, and leaves the
  -- bytes pending and the count of read bytes as they are.
  pub src_peek-Peeks :
      (s : Source P) (n : ℕ)
      → n ≤ cache_size
      → IsReady rest s
      → Peeks rest s.readb (take n (pending rest s)) (pending rest s) (src_peek read s n)
  unfolding src_peek
  src_peek-Peeks s n le h = elim (Bool-cases s.eof) [
    | inl at_end ↦
        simp (le→ltb cache_size n le, at_end)
          (record {
            after = s;
            result = ap (λ w. returned w s) (sym (rw (h.at_eof at_end) (take-nil n)));
            ready = h;
            left = refl;
            counted = refl;
          })
    | inr open_still ↦ elim (Bool-cases (s.knownsize && ltb s.size (u64 (s.readb + n)))) [
      | inl cut ↦
          let len = length (pending rest s) in
          let exact : sub64 s.size s.readb ≡ len = ground (arith, h.sized, h.narrow, h.fits) in
          let less : len ≤ n = ground (arith, h.sized, h.narrow, h.fits) in
          simp (le→ltb cache_size n le, open_still, cut, exact)
            (Peeks-eq (take_all len _ (omega arith) ∙ sym (take_all n _ less)) refl
              (peek_len-Peeks false s len (omega arith) h))
      | inr whole ↦
          simp (le→ltb cache_size n le, open_still, whole)
            (peek_len-Peeks s.cache.readahead s n le h)
    ]
  ]
