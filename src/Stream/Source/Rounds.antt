-- ===== src/Stream/Source/Rounds.antt =====
-- The rounds of the loop of `src_read` of src/librepgp/stream-common.c that fill the caller's buffer.
use rnp.Prelude.{ℕ, suc, ◌+◌, ◌-◌, ◌≤◌, ◌<◌, ◌≡◌, refl, sym, ap, ◌∙◌, true, arith}
use rnp.Prelude.{List, [], ◌∷◌, ◌++◌, length, take, drop}
use rnp.Prelude.{append_assoc, append-nil, length-append, length-take, length-drop, take_split}
use rnp.Prelude.{take-nil, drop-nil, drop_split, length-eq-zero}
use rnp.Errors.{Attempt}
use rnp.Stream.Source.{Source, unread, finish_read}
use rnp.Stream.Source.{read_directly}
use rnp.Stream.Source.Reader.{Chunk, IsReader, pending, IsMid, Serves}
use rnp.Stream.Source.Cursor.{Serves-eq, finish_read-Serves}

module _ {P : Type 0} (read : P → ℕ → Attempt P (List ℕ)) (rest : P → List ℕ)
    (reader : IsReader read rest) where
  -- What the loop of `src_read` does when the cache is used up.
  abbrev pub Loops : (Source P → ℕ → List ℕ → Attempt (Source P) (List ℕ)) → ℕ → Type 0
  Loops again fuel =
      (s : Source P) (left : ℕ) (buf : List ℕ)
      → left ≤ fuel
      → IsMid rest s (length buf)
      → unread s.cache ≡ []
      → Serves rest s.readb (buf ++ take left (rest s.param)) (drop left (rest s.param))
          (again s left buf)

  -- A callback that has nothing left ends the read.
  pub at_end_Serves :
      (s : Source P) (left : ℕ) (buf : List ℕ) (p : P)
      → IsMid rest s (length buf)
      → unread s.cache ≡ []
      → rest s.param ≡ []
      → rest p ≡ []
      → Serves rest s.readb
          (buf ++ take left (rest s.param))
          (drop left (rest s.param))
          (finish_read (record s { param = p; eof = true }) buf)
  at_end_Serves s left buf p h used none_left none_after =
      Serves-eq rest (sym (rw (none_left, take-nil left) (append-nil buf))) empty_after
        (finish_read-Serves rest s' buf mid)
    where
      s' : Source P
      s' = record s { param = p; eof = true }

      nothing : pending rest s ≡ []
      nothing = rw (used, none_left)

      nothing_after : pending rest s' ≡ []
      nothing_after = rw (used, none_after)

      empty_after : pending rest s' ≡ drop left (rest s.param)
      empty_after = nothing_after ∙ sym (rw none_left (drop-nil left))

      mid : IsMid rest s' (length buf)
      mid = record {
        cursor = h.cursor;
        room = h.room;
        at_eof = λ _. nothing_after;
        sized = λ k.
            h.sized k
            ∙ ap (λ (l : List ℕ). s.readb + length buf + length l) (nothing ∙ sym nothing_after);
        fits = h.fits;
        narrow = h.narrow;
      }

  -- A chunk of the callback goes to the caller's buffer, and the loop goes on.
  pub again_Serves :
      (fuel : ℕ) (again : Source P → ℕ → List ℕ → Attempt (Source P) (List ℕ))
      → Loops again fuel
      → (s : Source P) (left k : ℕ) (buf : List ℕ) (p : P) → left ≤ fuel + k
      → k ≤ left
      → k ≤ length (rest s.param)
      → IsMid rest s (length buf)
      → unread s.cache ≡ []
      → rest p ≡ drop k (rest s.param)
      → Serves rest s.readb
          (buf ++ take left (rest s.param))
          (drop left (rest s.param))
          (again (record s { param = p }) (left - k) (buf ++ take k (rest s.param)))
  again_Serves fuel again loops s left k buf p enough le had h used after =
      Serves-eq rest
        (append_assoc buf _ _ ∙ ap (λ t. buf ++ t) (rw after (take_split k left (rest s.param) le)))
        (rw after (drop_split k left (rest s.param) le))
        (loops s' (left - k) (buf ++ take k (rest s.param)) (omega arith) mid used)
    where
      s' : Source P
      s' = record s { param = p }

      taken : length (buf ++ take k (rest s.param)) ≡ length buf + k
      taken =
          omega
            (arith, length-append {0} buf (take k (rest s.param)), length-take {0} k (rest s.param))

      left_after : length (pending rest s') + k ≡ length (pending rest s)
      left_after = rw (used, after) (omega (arith, length-drop {0} k (rest s.param)))

      mid : IsMid rest s' (length (buf ++ take k (rest s.param)))
      mid = record {
        cursor = h.cursor;
        room = h.room;
        at_eof = λ e.
            length-eq-zero (pending rest s')
              (omega (arith, left_after, ap (λ (l : List ℕ). length l) (h.at_eof e)));
        sized = λ e. omega (arith, left_after, taken, h.sized e);
        fits = h.fits;
        narrow = h.narrow;
      }

  -- A callback whose chunk is empty has nothing left.
  pub Chunk-empty :
      {p : P} {n : ℕ} (c : Chunk read rest p n)
      → take c.size (rest p) ≡ []
      → (rest p ≡ []) × (rest c.after ≡ [])
  Chunk-empty {p} c e =
      let none : rest p ≡ [] = length-eq-zero (rest p) (
        ground (
          arith,
          c.progress,
          c.had,
          length-take {0} c.size (rest p),
          ap (λ (l : List ℕ). length l) e,
        )) in
      (none, c.left ∙ rw none (drop-nil c.size))

  pub Chunk-length :
      {p : P} {n : ℕ} (c : Chunk read rest p n) → length (take c.size (rest p)) ≡ c.size
  Chunk-length {p} c = omega (arith, c.had, length-take {0} c.size (rest p))

  pub read_directly-Serves :
      (fuel : ℕ) (again : Source P → ℕ → List ℕ → Attempt (Source P) (List ℕ))
      → Loops again fuel
      → (s : Source P) (left : ℕ) (buf : List ℕ) → left ≤ suc fuel
      → 0 < left
      → IsMid rest s (length buf)
      → unread s.cache ≡ []
      → Serves rest s.readb
          (buf ++ take left (rest s.param))
          (drop left (rest s.param))
          (read_directly read again s left buf)
  unfolding read_directly
  read_directly-Serves fuel again loops s left buf enough more h used =
      go (take c.size (rest s.param)) refl
    where
      c : Chunk read rest s.param left
      c = reader.serve s.param left more

      go :
          (got : List ℕ)
          → take c.size (rest s.param) ≡ got
          → Serves rest s.readb
              (buf ++ take left (rest s.param))
              (drop left (rest s.param))
              (read_directly read again s left buf)
      go [] e =
          let (none, none_after) = Chunk-empty c e in
          rw (c.result, e, read_directly) (at_end_Serves s left buf c.after h used none none_after)
      go (b ∷ bs) e =
          let size : suc (length bs) ≡ c.size =
            ap (λ (l : List ℕ). length l) (sym e) ∙ Chunk-length c in
          let step =
            again_Serves fuel again loops s left c.size buf c.after (omega arith) c.asked c.had h
              used c.left in
          rw (c.result, e, read_directly, size, ← e) step
