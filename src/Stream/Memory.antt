-- ===== src/Stream/Memory.antt =====
-- The memory source of src/librepgp/stream-common.c: `init_mem_src` and `mem_src_read`.
use rnp.Prelude.{ℕ, ◌+◌, ◌-◌, ◌<◌, ◌^◌, ◌≡◌, refl, sym, true, arith}
use rnp.Prelude.{List, length, take, drop, ltb, if◌then◌else◌}
use rnp.Prelude.{length-drop, drop-drop}
use rnp.Errors.{Attempt, returned}
use rnp.Stream.Source.{Source, init_src}
use rnp.Stream.Source.Reader.{Chunk, IsReader, pending, IsReady}

-- `pgp_source_mem_param_t`; its `len` is the length of `memory`.
pub record MemParam : Type 0 where
  pub memory : List ℕ
  pub pos : ℕ

unfoldable pub mem_src_read : MemParam → ℕ → Attempt MemParam (List ℕ)
mem_src_read param len =
    let left = length param.memory - param.pos in
    let n = if ltb left len then left else len in
    returned (take n (drop param.pos param.memory)) (record param { pos = param.pos + n })

-- `init_mem_src`; `param` and the cache are allocated.
unfoldable pub init_mem_src : List ℕ → Source MemParam
unfolding init_src
init_mem_src mem = init_src (record { memory = mem; pos = 0 }) true (length mem)

-- What a memory source has still to deliver.
abbrev pub mem_rest : MemParam → List ℕ
mem_rest param = drop param.pos param.memory

-- `mem_src_read` keeps the contract of a `read` callback.
pub mem_src_read-IsReader : IsReader mem_src_read mem_rest
unfolding mem_src_read
mem_src_read-IsReader = record { serve = λ p n some. chunk p n some }
  where
    chunk : (p : MemParam) (n : ℕ) → 0 < n → Chunk mem_src_read mem_rest p n
    chunk p n some =
        let left = length p.memory - p.pos in
        let size = if ltb left n then left else n in
        let whole = length-drop {0} p.pos p.memory in
        record {
          size = size;
          asked = ground arith;
          had = ground (arith, whole);
          progress = ground (arith, whole);
          after = record p { pos = p.pos + size };
          result = refl;
          left = sym (drop-drop p.pos size p.memory);
        }

-- A memory source begins with its whole memory pending.
pub init_mem_src_lem :
    (mem : List ℕ)
    → length mem < 2 ^ 64
    → (pending mem_rest (init_mem_src mem) ≡ mem) × IsReady mem_rest (init_mem_src mem)
unfolding init_mem_src
init_mem_src_lem mem small = (
  refl,
  record {
    cursor = omega arith;
    room = omega arith;
    at_eof = λ e. cc;
    sized = λ e. omega arith;
    fits = omega arith;
    narrow = λ e. small;
  },
)
