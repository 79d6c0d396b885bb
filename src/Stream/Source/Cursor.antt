-- ===== src/Stream/Source/Cursor.antt =====
-- The cursor of the cache, and the end of a read, for src/librepgp/stream-common.c.
use rnp.Prelude.{ℕ, ◌+◌, ◌≤◌, ◌≡◌, refl, sym, ap, inl, inr, ◌&&◌, ◌||◌, arith}
use rnp.Prelude.{List, length, drop, ◌==◌, Bool-cases}
use rnp.Prelude.{length-append, length-drop}
use rnp.Prelude.{drop-drop, drop-append_le}
use rnp.Prelude.{length-eq-zero}
use mathlib.Core.Path.{subst₂}
use rnp.Errors.{Attempt}
use rnp.Stream.Source.{Source, unread, u64, advance, finish_read}
use rnp.Stream.Source.Reader.{pending, IsMid, IsReady, Serves}

module _ {P : Type 0} (rest : P → List ℕ) where
  pub Serves-eq :
      {readb : ℕ} {want more want' more' : List ℕ} {r : Attempt (Source P) (List ℕ)}
      → want ≡ want'
      → more ≡ more'
      → Serves rest readb want more r
      → Serves rest readb want' more' r
  Serves-eq {readb} {r = r} p q h = subst₂ (λ w m. Serves rest readb w m r) p q h

  -- Moving the cursor over `n` cached bytes.
  pub pending-advance :
      (s : Source P) (n : ℕ)
      → n ≤ length (unread s.cache)
      → pending rest (advance s n) ≡ drop n (pending rest s)
  pending-advance s n le =
      rw (← drop-drop s.cache.pos n s.cache.buf)
        (sym (drop-append_le n (unread s.cache) (rest s.param) le))

  pub advance-IsMid :
      (s : Source P) (n : ℕ)
      → n ≤ length (unread s.cache)
      → IsReady rest s
      → IsMid rest (advance s n) n
  advance-IsMid s n le h = record {
    cursor = omega (arith, length-drop {0} s.cache.pos s.cache.buf, h.cursor);
    room = h.room;
    at_eof = λ e.
        length-eq-zero (pending rest (advance s n))
          (omega (arith, fewer, ap (λ (l : List ℕ). length l) (h.at_eof e)));
    sized = λ e. omega (arith, fewer, h.sized e);
    fits = h.fits;
    narrow = h.narrow;
  }
    where
      fewer : length (pending rest (advance s n)) + n ≡ length (pending rest s)
      fewer = rw (pending-advance s n le) (
          omega (
            arith,
            length-drop {0} n (pending rest s),
            length-append {0} (unread s.cache) (rest s.param),
          ))

  pub finish_read-Serves :
      (s : Source P) (buf : List ℕ)
      → IsMid rest s (length buf)
      → Serves rest s.readb buf (pending rest s) (finish_read s buf)
  unfolding finish_read
  finish_read-Serves s buf h = record {
    after = record s {
      readb = u64 (s.readb + length buf);
      eof = s.eof || (s.knownsize && (u64 (s.readb + length buf) == s.size));
    };
    result = refl;
    ready = record {
      cursor = h.cursor;
      room = h.room;
      at_eof = λ e. elim (Bool-cases s.eof) [
        | inl at_end ↦ h.at_eof at_end
        | inr open_still ↦ length-eq-zero (pending rest s) (ground arith)
      ];
      sized = ground arith;
      fits = omega arith;
      narrow = h.narrow;
    };
    left = refl;
    counted = refl;
  }
