-- ===== src/Stream/Dest/Memory.antt =====
-- The memory destination of src/librepgp/stream-common.c: `init_mem_dest`, `mem_dst_write` and
-- `mem_dest_get_memory`. Whether `realloc` finds so many bytes is a parameter.
pub mod Writes
use rnp.Prelude.{ℕ, ◌+◌, ◌*◌, ◌/◌, ◌≤◌, ◌<◌, ◌≡◌, refl, sym, ap, ◌∙◌, inl, inr, Bool, true, arith}
use rnp.Prelude.{List, [], ◌∷◌, ◌++◌, length, take, drop, ltb, if◌then◌else◌}
use rnp.Prelude.{
  append_assoc, append-nil, length-append, le→ltb, lt→ltb, take_all, drop_all, Bool-cases,
  length-eq-zero,
}
use rnp.Errors.{RnpResult, success, out_of_memory}
use rnp.Stream.Dest.{Dest, init_dst, dst_write, write_out, write_or_cache}
use rnp.Stream.Dest.Write.{IsWriter}

-- `pgp_dest_mem_param_t`; of the `allocated` bytes of its memory, `memory` has those written.
pub record MemDestParam : Type 0 where
  pub maxalloc : ℕ
  pub allocated : ℕ
  pub memory : List ℕ

-- `memcpy((uint8_t *) param->memory + dst->writeb, buf, len)`
abbrev pub copy_at : MemDestParam → ℕ → List ℕ → MemDestParam
copy_at param writeb buf = record param {
  memory = take writeb param.memory ++ (buf ++ drop (writeb + length buf) param.memory);
}

-- The size that the memory grows to: twice what is needed, in pages, up to the maximum.
unfoldable pub grown : ℕ → ℕ → ℕ
grown maxalloc needed =
    let alloc = (needed * 2 + 4095) / 4096 * 4096 in if ltb maxalloc alloc then maxalloc else alloc

module _ (realloc : ℕ → Bool) where
  unfoldable pub mem_dst_write : MemDestParam → ℕ → List ℕ → RnpResult × MemDestParam
  mem_dst_write param writeb buf =
      let needed = writeb + length buf in
      let alloc = grown param.maxalloc needed in
      if ltb param.allocated needed
      then (if ltb param.maxalloc needed
          then (out_of_memory, param)
          else if realloc alloc
          then (success, copy_at (record param { allocated = alloc }) writeb buf)
          else (out_of_memory, param))
      else (success, copy_at param writeb buf)

-- `init_mem_dest`; its `param` is allocated.
unfoldable pub init_mem_dest : ℕ → Dest MemDestParam
unfolding init_dst
init_mem_dest maxalloc = init_dst (record { maxalloc = maxalloc; allocated = 0; memory = [] }) true

unfoldable pub mem_dest_get_memory : Dest MemDestParam → List ℕ
mem_dest_get_memory dst = dst.param.memory

pub grown_bounds :
    (maxalloc needed : ℕ)
    → needed ≤ maxalloc
    → (needed ≤ grown maxalloc needed) × (grown maxalloc needed ≤ maxalloc)
unfolding grown
grown_bounds maxalloc needed le = (ground arith, ground arith)

pub copy_at_end :
    (p : MemDestParam) (n : ℕ) (bytes : List ℕ)
    → n ≡ length p.memory
    → (copy_at p n bytes).memory ≡ p.memory ++ bytes
copy_at_end p n bytes e = simp (
  take_all n p.memory (omega arith),
  drop_all (n + length bytes) p.memory (omega arith),
  append-nil,
)

-- `mem_dst_write` keeps the contract of a `write` callback.
pub mem_dst_write-IsWriter : (realloc : ℕ → Bool) → IsWriter (mem_dst_write realloc) (λ p. p.memory)
unfolding mem_dst_write
mem_dst_write-IsWriter realloc = record { store = store }
  where
    store :
        (p : MemDestParam) (n : ℕ) (bytes : List ℕ)
        → n ≡ length p.memory
        → (mem_dst_write realloc p n bytes).0 ≡ success
        → (mem_dst_write realloc p n bytes).1.memory ≡ p.memory ++ bytes
    store p n bytes e ok =
        let needed = n + length bytes in
        elim (Bool-cases (ltb p.allocated needed)) [
          | inl grows ↦ elim (Bool-cases (ltb p.maxalloc needed)) [
            | inl over ↦ absurd (let f = (simp (grows, over) at ok) in cc)
            | inr within ↦ elim (Bool-cases (realloc (grown p.maxalloc needed))) [
              | inl had ↦ simp (grows, within, had) (copy_at_end p n bytes e)
              | inr failed ↦ absurd (let f = (simp (grows, within, failed) at ok) in cc)
            ]
          ]
          | inr fits ↦ simp fits (copy_at_end p n bytes e)
        ]
