-- ===== src/Stream/Source/Fill.antt =====
-- The rounds of the loop of `src_read` of src/librepgp/stream-common.c that fill the cache.
use rnp.Prelude.{ℕ, suc, ◌+◌, ◌≤◌, ◌≡◌, refl, sym, ap, ◌∙◌, inl, inr, arith}
use rnp.Prelude.{List, [], ◌∷◌, ◌++◌, length, take, drop, ltb, Bool-cases}
use rnp.Prelude.{length-append, length-take, length-drop}
use rnp.Prelude.{take-take, drop-take-append, ltb→le, length-eq-zero}
use rnp.Errors.{Attempt}
use rnp.Stream.Source.{Source, cache_size, unread, finish_read}
use rnp.Stream.Source.{read_to_cache}
use rnp.Stream.Source.Reader.{Chunk, IsReader, pending, IsMid, Serves}
use rnp.Stream.Source.Cursor.{Serves-eq, finish_read-Serves}
use rnp.Stream.Source.Rounds.{Loops, at_end_Serves, again_Serves, Chunk-empty, Chunk-length}

module _ {P : Type 0} (read : P → ℕ → Attempt P (List ℕ)) (rest : P → List ℕ)
    (reader : IsReader read rest) where
  -- The cache is filled with more than what is wanted.
  filled_Serves :
      (s : Source P) (left : ℕ) (buf : List ℕ) (c : Chunk read rest s.param cache_size)
      → left ≤ c.size
      → IsMid rest s (length buf)
      → unread s.cache ≡ []
      → Serves rest s.readb (buf ++ take left (rest s.param)) (drop left (rest s.param)) (
          finish_read
            (record s {
              param = c.after;
              cache = record (s.cache) { buf = take c.size (rest s.param); pos = left };
            })
            (buf ++ take left (take c.size (rest s.param))))
  filled_Serves s left buf c le h used =
      Serves-eq rest (ap (λ t. buf ++ t) (take-take left c.size (rest s.param) le)) kept
        (finish_read-Serves rest s' (buf ++ take left got) mid)
    where
      got : List ℕ
      got = take c.size (rest s.param)

      s' : Source P
      s' = record s {
        param = c.after;
        cache = record (s.cache) { buf = take c.size (rest s.param); pos = left };
      }

      kept : pending rest s' ≡ drop left (rest s.param)
      kept = rw (c.left) (drop-take-append left c.size (rest s.param) le)

      taken : length (buf ++ take left got) ≡ length buf + left
      taken = omega (
        arith,
        length-append {0} buf (take left got),
        length-take {0} left got,
        Chunk-length read rest reader c,
      )

      left_after : length (pending rest s') + left ≡ length (pending rest s)
      left_after = rw (kept, used) (omega (arith, length-drop {0} left (rest s.param), c.had))

      mid : IsMid rest s' (length (buf ++ take left got))
      mid = record {
        cursor = omega (arith, Chunk-length read rest reader c);
        room = omega (arith, Chunk-length read rest reader c, c.asked);
        at_eof = λ e.
            length-eq-zero (pending rest s')
              (omega (arith, left_after, ap (λ (l : List ℕ). length l) (h.at_eof e)));
        sized = λ e. omega (arith, left_after, taken, h.sized e);
        fits = h.fits;
        narrow = h.narrow;
      }

  pub read_to_cache-Serves :
      (fuel : ℕ) (again : Source P → ℕ → List ℕ → Attempt (Source P) (List ℕ))
      → Loops read rest reader again fuel
      → (s : Source P) (left : ℕ) (buf : List ℕ) → left ≤ suc fuel
      → IsMid rest s (length buf)
      → unread s.cache ≡ []
      → Serves rest s.readb
          (buf ++ take left (rest s.param))
          (drop left (rest s.param))
          (read_to_cache read again s left buf)
  unfolding read_to_cache
  read_to_cache-Serves fuel again loops s left buf enough h used =
      go (take c.size (rest s.param)) refl
    where
      c : Chunk read rest s.param cache_size
      c = reader.serve s.param cache_size (omega arith)

      go :
          (got : List ℕ)
          → take c.size (rest s.param) ≡ got
          → Serves rest s.readb
              (buf ++ take left (rest s.param))
              (drop left (rest s.param))
              (read_to_cache read again s left buf)
      go [] e =
          let (none, none_after) = Chunk-empty read rest reader c e in
          rw (c.result, e, read_to_cache)
            (at_end_Serves read rest reader s left buf c.after h used none none_after)
      go (b ∷ bs) e =
          let size : suc (length bs) ≡ c.size =
            ap (λ (l : List ℕ). length l) (sym e) ∙ Chunk-length read rest reader c in
          elim (Bool-cases (ltb c.size left)) [
            | inl short ↦
                let step =
                  again_Serves read rest reader fuel again loops s left c.size buf c.after
                    (omega arith) (ground arith) c.had h used c.left in
                rw (c.result, e, read_to_cache, size, short, ← e) step
            | inr filled ↦
                rw (c.result, e, read_to_cache, size, filled, ← e)
                  (filled_Serves s left buf c (ltb→le _ _ filled) h used)
          ]
