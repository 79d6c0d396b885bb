-- ===== src/Stream/Source/Reader.antt =====
-- What the code relies on in a `read` callback of `pgp_source_t`, and what a source still holds.
use rnp.Prelude.{ℕ, ◌+◌, ◌^◌, ◌≤◌, ◌<◌, ◌≡◌, true}
use rnp.Prelude.{List, [], ◌++◌, length, take, drop}
use rnp.Errors.{Attempt, returned}
use rnp.Stream.Source.{Source, cache_size, unread, u64}

-- One call of `read` for `n` bytes: it returns the next `size` bytes of `rest`, some of them at
-- least unless nothing is left, and keeps the others for later. Short reads are allowed.
pub record Chunk {P : Type 0} (read : P → ℕ → Attempt P (List ℕ)) (rest : P → List ℕ) (p : P)
    (n : ℕ) : Type 0 where
  pub size : ℕ
  pub asked : size ≤ n
  pub had : size ≤ length (rest p)
  pub progress : 0 < length (rest p) → 0 < size
  pub after : P
  pub result : read p n ≡ returned (take size (rest p)) after
  pub left : rest after ≡ drop size (rest p)

-- A callback that never fails: `rest p` are the bytes that it has still to deliver.
pub record IsReader {P : Type 0} (read : P → ℕ → Attempt P (List ℕ)) (rest : P → List ℕ)
    : Type 0 where
  pub serve : (p : P) (n : ℕ) → 0 < n → Chunk read rest p n

module _ {P : Type 0} (rest : P → List ℕ) where
  -- The bytes that a source has still to deliver.
  abbrev pub pending : Source P → List ℕ
  pending s = unread s.cache ++ rest s.param

  -- A source in the course of a read that has filled `k` bytes of the caller's buffer.
  pub record IsMid (s : Source P) (k : ℕ) : Type 0 where
    pub cursor : s.cache.pos ≤ length s.cache.buf
    pub room : length s.cache.buf ≤ cache_size
    pub at_eof : s.eof ≡ true → pending s ≡ []
    pub sized : s.knownsize ≡ true → s.size ≡ s.readb + k + length (pending s)
    pub fits : s.readb < 2 ^ 64
    pub narrow : s.knownsize ≡ true → s.size < 2 ^ 64

  -- The invariant of a source between calls.
  abbrev pub IsReady : Source P → Type 0
  IsReady s = IsMid s 0

  -- `r` returns the bytes `want`, counts them, and leaves `more`.
  pub record Serves (readb : ℕ) (want more : List ℕ) (r : Attempt (Source P) (List ℕ))
      : Type 0 where
    pub after : Source P
    pub result : r ≡ returned want after
    pub ready : IsReady after
    pub left : pending after ≡ more
    pub counted : after.readb ≡ u64 (readb + length want)
