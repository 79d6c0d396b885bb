-- ===== src/Stream/Dest/Sink.antt =====
-- A destination whose `write` callback never fails, for the packet code.
use rnp.Prelude.{ℕ, ◌+◌, ◌-◌, ◌≡◌, ap, inl, inr}
use rnp.Prelude.{◌||◌, ◌&&◌, List, ◌++◌, length, take, drop, ltb}
use rnp.Prelude.{Bool-cases}
use rnp.Errors.{RnpResult, success}
use rnp.Packet.Body.Build.{IsDest}
use rnp.Stream.Dest.{Dest, output_cache_size, is_success, write_out, write_or_cache, write_cache}
use rnp.Stream.Dest.{dst_write}
use rnp.Stream.Dest.Write.{IsWriter, IsOpen, accepted, dst_write-Takes}

module _ {P : Type 0} (write : P → ℕ → List ℕ → RnpResult × P)
    (works : (p : P) (n : ℕ) (bytes : List ℕ) → (write p n bytes).0 ≡ success) where
  write_or_cache_works :
      (d : Dest P) (bytes : List ℕ)
      → d.werr ≡ success
      → (write_or_cache write d bytes).werr ≡ success
  unfolding write_or_cache write_out
  write_or_cache_works d bytes h =
      elim (Bool-cases (d.no_cache || ltb output_cache_size (length bytes))) [
        | inl out ↦ simp out (works d.param d.writeb bytes)
        | inr kept ↦ simp kept h
      ]

  dst_write_works :
      (d : Dest P) (bytes : List ℕ) → d.werr ≡ success → (dst_write write d bytes).werr ≡ success
  unfolding dst_write write_cache write_out
  dst_write_works d bytes h =
      let n = output_cache_size - length d.cache in
      elim (Bool-cases (ltb 0 (length bytes) && is_success d.werr)) [
        | inl some ↦
            elim (Bool-cases
              (ltb 0 (length d.cache) && ltb output_cache_size (length d.cache + length bytes))) [
                | inl full ↦
                    let good = works d.param d.writeb (d.cache ++ take n bytes) in
                    simp (some, full, ap is_success good)
                      (write_or_cache_works (write_cache write d bytes) (drop n bytes) good)
                | inr fits ↦ simp (some, fits) (write_or_cache_works d bytes h)
              ]
        | inr idle ↦ simp idle h
      ]

-- Over a callback that never fails, `dst_write` is what the packet code relies on.
pub dst_write-IsDest :
    {P : Type 0} (write : P → ℕ → List ℕ → RnpResult × P) (stored : P → List ℕ)
    → IsWriter write stored
    → ((p : P) (n : ℕ) (bytes : List ℕ) → (write p n bytes).0 ≡ success)
    → IsDest (dst_write write) (accepted stored) (IsOpen stored)
dst_write-IsDest write stored writer works = record {
  write_law = λ d bytes h.
      dst_write-Takes write stored writer d bytes h (dst_write_works write works d bytes h.good);
}
