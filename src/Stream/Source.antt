-- ===== src/Stream/Source.antt =====
-- Sources of src/librepgp/stream-common.c: the cached reads of `pgp_source_t`.
-- `Source P` is `pgp_source_t` over a `param` of type `P`; its `read` callback is the argument
-- `read` of each function. The cache holds `buf[0 .. len)`, so `cache->len` is the list's length:
-- what a read leaves behind `pos` is never looked at again. A buffer that a function fills is its
-- result, and its length the returned number.
pub mod Reader
pub mod Cursor
pub mod Rounds
pub mod Fill
pub mod Read
pub mod Peek
pub mod Skip
pub mod AtEnd
pub mod Along
use rnp.Prelude.{ℕ, zero, suc, ◌+◌, ◌-◌, ◌%◌, ◌^◌, Bool, true, false, not, ◌&&◌, ◌||◌}
use rnp.Prelude.{List, [], ◌∷◌, ◌++◌, length, take, drop, ltb, leb, ◌==◌, if◌then◌else◌}
use rnp.Errors.{Attempt, minus_one, returned}

abbrev pub cache_size : ℕ
cache_size = 32768

-- Arithmetic of `uint64_t` and `size_t`.
abbrev pub u64 : ℕ → ℕ
u64 n = n % 2 ^ 64

abbrev pub sub64 : ℕ → ℕ → ℕ
sub64 a b = u64 (a + 2 ^ 64 - b)

-- `pgp_source_cache_t`
pub record Cache : Type 0 where
  pub buf : List ℕ
  pub pos : ℕ
  pub readahead : Bool

abbrev pub unread : Cache → List ℕ
unread c = drop c.pos c.buf

-- `pgp_source_t`
pub record Source (P : Type 0) : Type 0 where
  pub size : ℕ
  pub readb : ℕ
  pub cache : Cache
  pub param : P
  pub eof : Bool
  pub knownsize : Bool

-- Moves the cursor of the cache over `n` bytes.
abbrev pub advance : {P : Type 0} → Source P → ℕ → Source P
advance s n = record s { cache = record (s.cache) { pos = s.cache.pos + n } }

module _ {P : Type 0} where
  -- `init_src_common` with the fields that the callers set; `size` is `none` where it is unknown.
  unfoldable pub init_src : P → Bool → ℕ → Source P
  init_src param knownsize size = record {
    size = size;
    readb = 0;
    cache = record { buf = []; pos = 0; readahead = true };
    param = param;
    eof = false;
    knownsize = knownsize;
  }

  -- The end of `src_read`, at the label `finish`.
  pub finish_read : Source P → List ℕ → Attempt (Source P) (List ℕ)
  finish_read s buf =
      let readb = u64 (s.readb + length buf) in
      returned buf (record s { readb = readb; eof = s.eof || (s.knownsize && (readb == s.size)) })

module _ {P : Type 0} (read : P → ℕ → Attempt P (List ℕ)) where
  -- A round of the loop of `src_read` that reads into the caller's buffer. `again` is the loop.
  pub read_directly :
      (Source P → ℕ → List ℕ → Attempt (Source P) (List ℕ))
      → Source P
      → ℕ
      → List ℕ
      → Attempt (Source P) (List ℕ)
  read_directly again s left buf = elim (read s.param left) [
    | minus_one p ↦ minus_one (record s { param = p })
    | returned [] p ↦ finish_read (record s { param = p; eof = true }) buf
    | returned (b ∷ bs) p ↦
        again (record s { param = p }) (left - length (b ∷ bs)) (buf ++ (b ∷ bs))
  ]

  -- A round that fills the cache.
  pub read_to_cache :
      (Source P → ℕ → List ℕ → Attempt (Source P) (List ℕ))
      → Source P
      → ℕ
      → List ℕ
      → Attempt (Source P) (List ℕ)
  read_to_cache again s left buf = elim (read s.param cache_size) [
    | minus_one p ↦ minus_one (record s { param = p })
    | returned [] p ↦ finish_read (record s { param = p; eof = true }) buf
    | returned (b ∷ bs) p ↦
        let got = b ∷ bs in
        if ltb (length got) left
        then again (record s { param = p }) (left - length got) (buf ++ got)
        else finish_read
            (record s { param = p; cache = record (s.cache) { buf = got; pos = left } })
            (buf ++ take left got)
  ]

  -- `while (left > 0)`. A round takes a byte or ends the loop, so `left` rounds are enough.
  pub read_loop : ℕ → Bool → Source P → ℕ → List ℕ → Attempt (Source P) (List ℕ)
  read_loop zero readahead s left buf = finish_read s buf
  read_loop (suc fuel) readahead s left buf =
      if left == 0
      then finish_read s buf
      else if ltb cache_size left || not readahead
      then read_directly (read_loop fuel readahead) s left buf
      else read_to_cache (read_loop fuel readahead) s left buf

  -- `src_read` after the length is cut to what the source has.
  pub read_len : Bool → Source P → ℕ → Attempt (Source P) (List ℕ)
  read_len readahead s len =
      let cached = unread s.cache in
      if ltb s.cache.pos (length s.cache.buf)
      then (if leb len (length cached)
          then finish_read (advance s len) (take len cached)
          else read_loop (len - length cached) readahead (advance s (length cached))
              (len - length cached) cached)
      else read_loop len readahead s len []

  pub src_read : Source P → ℕ → Attempt (Source P) (List ℕ)
  src_read s len =
      if s.eof || (len == 0)
      then returned [] s
      else if s.knownsize && ltb s.size (u64 (s.readb + len))
      then read_len false s (sub64 s.size s.readb)
      else read_len s.cache.readahead s len

  -- A round of the loop of `src_peek` that asks for `want` bytes. `again` is the loop.
  pub peek_round :
      (Source P → ℕ → Attempt (Source P) (List ℕ)) → Source P → ℕ → ℕ → Attempt (Source P) (List ℕ)
  peek_round again s len want = elim (read s.param want) [
    | minus_one p ↦ minus_one (record s { param = p })
    | returned [] p ↦ returned s.cache.buf (record s { param = p })
    | returned (b ∷ bs) p ↦
        let more = s.cache.buf ++ (b ∷ bs) in
        let s' = record s { param = p; cache = record (s.cache) { buf = more } } in
        if leb len (length more) then returned (take len more) s' else again s' len
  ]

  -- `while (cache->len < len)` of `src_peek`, over a cache whose cursor is at its start. The last
  -- `return -1` is reached only with `len` bytes in the cache already.
  pub peek_loop : ℕ → Bool → Source P → ℕ → Attempt (Source P) (List ℕ)
  peek_loop zero readahead s len = minus_one s
  peek_loop (suc fuel) readahead s len =
      let held = length s.cache.buf in
      if ltb held len
      then peek_round (peek_loop fuel readahead) s len
          (if readahead then cache_size - held else len - held)
      else minus_one s

  pub peek_len : Bool → Source P → ℕ → Attempt (Source P) (List ℕ)
  peek_len readahead s len =
      let cached = unread s.cache in
      if leb len (length cached)
      then returned (take len cached) s
      else peek_loop len readahead (record s { cache = record (s.cache) { buf = cached; pos = 0 } })
          len

  pub src_peek : Source P → ℕ → Attempt (Source P) (List ℕ)
  src_peek s len =
      if ltb cache_size len
      then minus_one s
      else if s.eof
      then returned [] s
      else if s.knownsize && ltb s.size (u64 (s.readb + len))
      then peek_len false s (sub64 s.size s.readb)
      else peek_len s.cache.readahead s len

  -- The number of bytes that a read returned.
  pub read_count : Attempt (Source P) (List ℕ) → Attempt (Source P) ℕ
  read_count (minus_one s) = minus_one s
  read_count (returned bs s) = returned (length bs) s

  -- `alloc n` says whether `calloc(1, n)` finds memory.
  pub src_skip : (ℕ → Bool) → Source P → ℕ → Attempt (Source P) ℕ
  src_skip alloc s len =
      if leb len (length (unread s.cache))
      then returned len (record (advance s len) { readb = u64 (s.readb + len) })
      else if ltb len 16 || alloc len
      then read_count (src_read s len)
      else minus_one s

  -- `src_eof` gives the answer and the source, whose cache the peek may have filled.
  pub src_eof : Source P → Bool × Source P
  src_eof s = if s.eof then (true, s) else elim (src_peek s 1) [
    | minus_one s' ↦ (false, s')
    | returned bs s' ↦ (length bs == 0, s')
  ]
