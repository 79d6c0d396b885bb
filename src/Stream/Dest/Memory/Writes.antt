-- ===== src/Stream/Dest/Memory/Writes.antt =====
-- What a memory destination of src/librepgp/stream-common.c holds after any number of writes.
use rnp.Prelude.{ℕ, ◌+◌, ◌≤◌, ◌<◌, ◌≡◌, refl, sym, ap, ◌∙◌, inl, inr, Bool, true, arith}
use rnp.Prelude.{List, [], ◌∷◌, ◌++◌, length, ltb}
use rnp.Prelude.{
  append_assoc, append-nil, length-append, le→ltb, lt→ltb, Bool-cases, length-eq-zero,
}
use rnp.Errors.{success, out_of_memory}
use rnp.Stream.Dest.{Dest, dst_write, write_out, write_or_cache}
use rnp.Stream.Dest.Memory.{MemDestParam, copy_at, grown, mem_dst_write, init_mem_dest}
use rnp.Stream.Dest.Memory.{mem_dest_get_memory, mem_dst_write-IsWriter, copy_at_end, grown_bounds}

-- The bounds of a memory destination.
pub record IsBounded (p : MemDestParam) : Type 0 where
  pub within : length p.memory ≤ p.allocated
  pub capped : p.allocated ≤ p.maxalloc

-- A memory destination between writes, no write having failed.
pub record IsMemDest (d : Dest MemDestParam) : Type 0 where
  pub good : d.werr ≡ success
  pub direct : d.no_cache ≡ true
  pub uncached : d.cache ≡ []
  pub counts : d.writeb ≡ length d.param.memory
  pub bounds : IsBounded d.param

-- The calls of `dst_write` with these buffers, in order.
pub write_all : (ℕ → Bool) → List (List ℕ) → Dest MemDestParam → Dest MemDestParam
write_all realloc [] d = d
write_all realloc (bytes ∷ more) d =
    write_all realloc more (dst_write (mem_dst_write realloc) d bytes)

unfoldable pub joined : List (List ℕ) → List ℕ
joined [] = []
joined (bytes ∷ more) = bytes ++ joined more

module _ (realloc : ℕ → Bool) (memory : (n : ℕ) → realloc n ≡ true) where
  -- A write that stays within the maximum succeeds.
  mem_dst_write_within :
      (p : MemDestParam) (n : ℕ) (bytes : List ℕ)
      → IsBounded p
      → n ≡ length p.memory
      → n + length bytes ≤ p.maxalloc
      → ((mem_dst_write realloc p n bytes).0 ≡ success)
        × IsBounded (mem_dst_write realloc p n bytes).1
        × ((mem_dst_write realloc p n bytes).1.maxalloc ≡ p.maxalloc)
  unfolding mem_dst_write
  mem_dst_write_within p n bytes h e room =
      let needed = n + length bytes in
      let size : length (copy_at p n bytes).memory ≡ needed =
        ap (λ (l : List ℕ). length l) (copy_at_end p n bytes e)
        ∙ omega (arith, e, length-append {0} p.memory bytes) in
      elim (Bool-cases (ltb p.allocated needed)) [
        | inl grows ↦
            simp (grows, le→ltb p.maxalloc needed room, memory (grown p.maxalloc needed))
              (
                refl,
                record {
                  within = rw size (grown_bounds p.maxalloc needed room).0;
                  capped = (grown_bounds p.maxalloc needed room).1;
                },
                refl,
              )
        | inr fits ↦
            simp fits (refl, record { within = rw size (ground arith); capped = h.capped }, refl)
      ]

  -- What a write does to a memory destination that has room for it.
  pub record Stores (d : Dest MemDestParam) (bytes : List ℕ) (d' : Dest MemDestParam) : Type 0 where
    pub is_dest : IsMemDest d'
    pub stored : d'.param.memory ≡ d.param.memory ++ bytes
    pub same_cap : d'.param.maxalloc ≡ d.param.maxalloc

  dst_write-Stores :
      (d : Dest MemDestParam) (bytes : List ℕ)
      → IsMemDest d
      → length d.param.memory + length bytes ≤ d.param.maxalloc
      → Stores d bytes (dst_write (mem_dst_write realloc) d bytes)
  unfolding dst_write write_or_cache write_out
  dst_write-Stores d bytes h room = elim (Bool-cases (ltb 0 (length bytes))) [
    | inl some ↦
        let v =
          mem_dst_write_within d.param d.writeb bytes h.bounds h.counts (rw (← h.counts) at room) in
        let e = (mem_dst_write-IsWriter realloc).store d.param d.writeb bytes h.counts v.0 in
        simp (some, h.good, h.uncached, h.direct)
          (record {
            is_dest = record {
              good = v.0;
              direct = refl;
              uncached = refl;
              counts = omega (
                arith,
                h.counts,
                ap (λ (l : List ℕ). length l) e,
                length-append {0} d.param.memory bytes,
              );
              bounds = v.1;
            };
            stored = e;
            same_cap = v.2;
          })
    | inr idle ↦
        let nothing : bytes ≡ [] = length-eq-zero bytes (ground arith) in
        simp idle
          (record { is_dest = h; stored = simp (nothing, append-nil) refl; same_cap = refl })
  ]

  write_all-stored :
      (chunks : List (List ℕ)) (d : Dest MemDestParam)
      → IsMemDest d
      → length d.param.memory + length (joined chunks) ≤ d.param.maxalloc
      → ((write_all realloc chunks d).werr ≡ success)
        × ((write_all realloc chunks d).param.memory ≡ d.param.memory ++ joined chunks)
  unfolding write_all joined
  write_all-stored [] d h room = (h.good, sym (append-nil d.param.memory))
  write_all-stored (bytes ∷ more) d h room =
      let both = length-append {0} bytes (joined more) in
      let v = dst_write-Stores d bytes h (omega arith) in
      let first = ap (λ (l : List ℕ). length l) v.stored ∙ length-append {0} d.param.memory bytes in
      let (good, e) =
        write_all-stored more (dst_write (mem_dst_write realloc) d bytes) v.is_dest
          (omega (arith, v.same_cap)) in
      (good, e ∙ rw v.stored (append_assoc d.param.memory bytes (joined more)))

  -- A memory destination that is written to from its beginning keeps all the bytes of all the
  -- writes, in order, if their sum is within the maximum and `realloc` does not fail.
  pub mem_dest_get_memory-write_all :
      (maxalloc : ℕ) (chunks : List (List ℕ))
      → length (joined chunks) ≤ maxalloc
      → ((write_all realloc chunks (init_mem_dest maxalloc)).werr ≡ success)
        × (mem_dest_get_memory (write_all realloc chunks (init_mem_dest maxalloc)) ≡ joined chunks)
  unfolding init_mem_dest mem_dest_get_memory
  mem_dest_get_memory-write_all maxalloc chunks room =
      write_all-stored chunks (init_mem_dest maxalloc)
        (record {
          good = refl;
          direct = refl;
          uncached = refl;
          counts = refl;
          bounds = record { within = omega arith; capped = omega arith };
        })
        (omega arith)

-- A write beyond the maximum is refused: the memory stays as it is, and the destination keeps the
-- error, whatever `realloc` does.
pub dst_write_over :
    (realloc : ℕ → Bool) (d : Dest MemDestParam) (bytes : List ℕ)
    → IsMemDest d
    → 0 < length bytes
    → d.param.maxalloc < length d.param.memory + length bytes
    → ((dst_write (mem_dst_write realloc) d bytes).werr ≡ out_of_memory)
      × (mem_dest_get_memory (dst_write (mem_dst_write realloc) d bytes) ≡ mem_dest_get_memory d)
unfolding dst_write write_or_cache write_out mem_dst_write mem_dest_get_memory
dst_write_over realloc d bytes h some over =
    let grows =
      lt→ltb d.param.allocated (d.writeb + length bytes)
        (omega (arith, h.counts, h.bounds.capped)) in
    let beyond = lt→ltb d.param.maxalloc (d.writeb + length bytes) (omega (arith, h.counts)) in
    simp (lt→ltb 0 (length bytes) some, h.good, h.uncached, h.direct, grows, beyond) (refl, refl)
