-- ===== src/Stream/Dest/Write.antt =====
-- What a destination was given, over a `write` callback that keeps its contract.
use rnp.Prelude.{ℕ, ◌+◌, ◌-◌, ◌≤◌, ◌≡◌, refl, sym, ap, ◌∙◌, ◌⊎◌, inl, inr, true, false, arith}
use rnp.Prelude.{◌||◌, ◌&&◌, none, List, [], ◌++◌, length, take, drop, ltb}
use rnp.Prelude.{append_assoc, append-nil, length-append, take-append-drop}
use rnp.Prelude.{if◌then◌else◌, Bool-cases, length-eq-zero}
use rnp.Errors.{RnpResult, success}
use rnp.Stream.Dest.{Dest, output_cache_size, is_success, write_out, write_or_cache, write_cache}
use rnp.Stream.Dest.{dst_write, dst_flush, call_finish, dst_finish}

-- What the code relies on in a `write` callback: where it succeeds, the bytes were added to what it
-- stored; it is called with the number of bytes stored before.
pub record IsWriter {P : Type 0} (write : P → ℕ → List ℕ → RnpResult × P) (stored : P → List ℕ)
    : Type 0 where
  pub store :
      (p : P) (n : ℕ) (bytes : List ℕ)
      → n ≡ length (stored p)
      → (write p n bytes).0 ≡ success
      → stored (write p n bytes).1 ≡ stored p ++ bytes

pub is_success-success : (e : RnpResult) → is_success e ≡ true → e ≡ success
is_success-success RnpResult.success h = refl
is_success-success RnpResult.bad_format h = cc
is_success-success RnpResult.bad_parameters h = cc
is_success-success RnpResult.out_of_memory h = cc
is_success-success RnpResult.read_error h = cc
is_success-success RnpResult.write_error h = cc
is_success-success RnpResult.generic h = cc

module _ {P : Type 0} (stored : P → List ℕ) where
  -- All the bytes that a destination was given: those stored, and those in its cache.
  abbrev pub accepted : Dest P → List ℕ
  accepted d = stored d.param ++ d.cache

  -- A destination that no write failed on.
  pub record IsOpen (d : Dest P) : Type 0 where
    pub good : d.werr ≡ success
    pub counts : d.writeb ≡ length (stored d.param)
    pub room : length d.cache ≤ output_cache_size
    pub direct : d.no_cache ≡ true → d.cache ≡ []

  -- `d'` is `d` after `bytes`, unless a write failed.
  abbrev pub Takes : Dest P → List ℕ → Dest P → Type 0
  Takes d bytes d' = d'.werr ≡ success → (accepted d' ≡ accepted d ++ bytes) × IsOpen d'

module _ {P : Type 0} (write : P → ℕ → List ℕ → RnpResult × P) (stored : P → List ℕ)
    (writer : IsWriter write stored) where
  -- Bytes are written past an empty cache.
  write_out-Takes :
      (d : Dest P) (bytes : List ℕ)
      → IsOpen stored d
      → d.cache ≡ []
      → Takes stored d bytes (write_out write d bytes)
  unfolding write_out
  write_out-Takes d bytes h empty ok =
      let e = writer.store d.param d.writeb bytes h.counts ok in
      (
        simp (empty, e, append-nil),
        record {
          good = ok;
          counts = omega (
            arith,
            h.counts,
            ap (λ (l : List ℕ). length l) e,
            length-append {0} (stored d.param) bytes,
          );
          room = h.room;
          direct = h.direct;
        },
      )

  write_or_cache-Takes :
      (d : Dest P) (bytes : List ℕ)
      → IsOpen stored d
      → (d.cache ≡ [])
        ⊎ ((d.no_cache ≡ false) × (length d.cache + length bytes ≤ output_cache_size))
      → Takes stored d bytes (write_or_cache write d bytes)
  unfolding write_or_cache
  write_or_cache-Takes d bytes h room =
      elim (Bool-cases (d.no_cache || ltb output_cache_size (length bytes))) [
        | inl out ↦
            let empty : d.cache ≡ [] = elim room [
              | inl e ↦ e
              | inr (off, fit) ↦ length-eq-zero d.cache (ground arith)
            ] in
            simp out (write_out-Takes d bytes h empty)
        | inr kept ↦ simp kept (λ ok. (
          sym (append_assoc (stored d.param) d.cache bytes),
          record {
            good = ok;
            counts = h.counts;
            room = elim room [
              | inl e ↦ simp e (ground arith)
              | inr (off, fit) ↦ omega (arith, length-append {0} d.cache bytes)
            ];
            direct = λ direct. absurd (ground arith);
          },
        ))
      ]

  -- The cache is filled with the first of the bytes and written.
  write_cache-Takes :
      (d : Dest P) (bytes : List ℕ)
      → IsOpen stored d
      → Takes stored d (take (output_cache_size - length d.cache) bytes) (write_cache write d bytes)
  unfolding write_cache write_out
  write_cache-Takes d bytes h ok =
      let front = take (output_cache_size - length d.cache) bytes in
      let e = writer.store d.param d.writeb (d.cache ++ front) h.counts ok in
      (
        simp (e, append-nil, append_assoc),
        record {
          good = ok;
          counts = omega (
            arith,
            h.counts,
            ap (λ (l : List ℕ). length l) e,
            length-append {0} (stored d.param) (d.cache ++ front),
          );
          room = omega arith;
          direct = λ direct. refl;
        },
      )

  room :
      (d : Dest P) (bytes : List ℕ)
      → IsOpen stored d
      → (ltb 0 (length d.cache) && ltb output_cache_size (length d.cache + length bytes)) ≡ false
      → (d.cache ≡ [])
        ⊎ ((d.no_cache ≡ false) × (length d.cache + length bytes ≤ output_cache_size))
  room d bytes h fits = elim (Bool-cases (ltb 0 (length d.cache))) [
    | inl held ↦ elim (Bool-cases d.no_cache) [
      | inl direct ↦ inl (h.direct direct)
      | inr cached ↦ inr (cached, ground arith)
    ]
    | inr empty ↦ inl (length-eq-zero d.cache (ground arith))
  ]

  -- The cache is written, and the other bytes behind it.
  overflow-Takes :
      (d : Dest P) (bytes : List ℕ)
      → IsOpen stored d
      → Takes stored d bytes (
          let d' = write_cache write d bytes in
          if is_success d'.werr
          then write_or_cache write d' (drop (output_cache_size - length d.cache) bytes)
          else d')
  unfolding write_cache
  overflow-Takes d bytes h = elim (Bool-cases (is_success (write_cache write d bytes).werr)) [
    | inl good ↦ simp good (λ ok.
        let (e, h') = write_cache-Takes d bytes h (is_success-success _ good) in
        let (e', h'') =
          write_or_cache-Takes (write_cache write d bytes) (drop n bytes) h' (inl refl) ok in
        (
          e' ∙ rw (e, append_assoc) (ap (λ l. accepted stored d ++ l) (take-append-drop n bytes)),
          h'',
        ))
    | inr bad ↦ simp bad (λ ok. absurd (not_success bad ok))
  ]
    where
      n : ℕ
      n = output_cache_size - length d.cache

      not_success : {e : RnpResult} → is_success e ≡ false → e ≡ success → ⊥
      not_success bad ok = let e : true ≡ false = ap is_success (sym ok) ∙ bad in cc

  -- `dst_write` gives a destination all the bytes, those that fill the cache first, or a write
  -- failed.
  pub dst_write-Takes :
      (d : Dest P) (bytes : List ℕ)
      → IsOpen stored d
      → Takes stored d bytes (dst_write write d bytes)
  unfolding dst_write
  dst_write-Takes d bytes h = elim (Bool-cases (ltb 0 (length bytes) && is_success d.werr)) [
    | inl some ↦
        elim (Bool-cases
          (ltb 0 (length d.cache) && ltb output_cache_size (length d.cache + length bytes))) [
            | inl full ↦ simp (some, full) (overflow-Takes d bytes h)
            | inr fits ↦ simp (some, fits) (write_or_cache-Takes d bytes h (room d bytes h fits))
          ]
    | inr idle ↦
        let nothing : bytes ≡ [] = length-eq-zero bytes (ground (arith, ap is_success h.good)) in
        simp idle (λ ok. (simp (nothing, append-nil), h))
  ]

  -- `dst_finish`, without a callback of its own, writes the cache out: all the bytes that the
  -- destination was given are stored then, or a write failed.
  pub dst_finish-stored :
      (d : Dest P)
      → IsOpen stored d
      → let d' = (dst_finish write none d).1 in
        d'.werr ≡ success
        → (stored d'.param ≡ accepted stored d) × (d'.cache ≡ []) × (d'.finished ≡ true)
  unfolding dst_finish dst_flush call_finish write_out
  dst_finish-stored d h ok = elim (Bool-cases (ltb 0 (length d.cache) && is_success d.werr)) [
    | inl some ↦
        simp some (writer.store d.param d.writeb d.cache h.counts (simp some at ok), refl, refl)
    | inr idle ↦
        let empty : d.cache ≡ [] = length-eq-zero d.cache (ground (arith, ap is_success h.good)) in
        simp idle (simp (empty, append-nil) refl, empty, refl)
  ]
