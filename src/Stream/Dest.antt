-- ===== src/Stream/Dest.antt =====
-- `pgp_dest_t` of src/librepgp/stream-common.h and the `dst_*` functions of
-- src/librepgp/stream-common.c.
-- The callbacks are parameters. `write` takes what they read of the destination, its `param` and
-- `writeb`; the buffers are lists, so the sums of their lengths do not reach 2^64, and `writeb`,
-- signed in the code, does not reach its bound.
pub mod Write
pub mod Sink
pub mod Memory
pub mod Given
use rnp.Prelude.{ℕ, ◌+◌, ◌-◌, ◌&&◌, ◌||◌, not, Bool, true, false, Option, none, some}
use rnp.Prelude.{List, [], ◌++◌, length, take, drop, ltb, if◌then◌else◌}
use rnp.Errors.{RnpResult, success}

-- `PGP_OUTPUT_CACHE_SIZE`, the size of `cache`.
abbrev pub output_cache_size : ℕ
output_cache_size = 32768

-- `pgp_dest_t`. Its `clen` is the length of `cache`, which is `cache[0 .. clen)`.
pub record Dest (P : Type 0) : Type 0 where
  pub werr : RnpResult
  pub writeb : ℕ
  pub param : P
  pub no_cache : Bool
  pub cache : List ℕ
  pub finished : Bool

-- `dst->werr == RNP_SUCCESS`
abbrev pub is_success : RnpResult → Bool
is_success success = true
is_success _ = false

-- A destination whose fields `init_dst_common` set, and its caller the `param` and `no_cache`.
unfoldable pub init_dst : {P : Type 0} → P → Bool → Dest P
init_dst param no_cache = record {
  werr = success;
  writeb = 0;
  param = param;
  no_cache = no_cache;
  cache = [];
  finished = false;
}

module _ {P : Type 0} (write : P → ℕ → List ℕ → RnpResult × P) where
  -- `dst->werr = dst->write(dst, buf, len); dst->writeb += len;`
  unfoldable pub write_out : Dest P → List ℕ → Dest P
  write_out dst buf =
      let (werr, param) = write dst.param dst.writeb buf in
      record dst { werr = werr; param = param; writeb = dst.writeb + length buf }

  -- The second half of `dst_write`: the bytes fit into the cache, or the cache is empty.
  unfoldable pub write_or_cache : Dest P → List ℕ → Dest P
  write_or_cache dst buf =
      if dst.no_cache || ltb output_cache_size (length buf)
      then write_out dst buf
      else record dst { cache = dst.cache ++ buf }

  -- The first half: the cache is filled and written.
  unfoldable pub write_cache : Dest P → List ℕ → Dest P
  write_cache dst buf =
      record (write_out dst (dst.cache ++ take (output_cache_size - length dst.cache) buf)) {
        cache = [];
      }

  unfoldable pub dst_write : Dest P → List ℕ → Dest P
  dst_write dst buf =
      let room = output_cache_size - length dst.cache in
      if ltb 0 (length buf) && is_success dst.werr
      then (if ltb 0 (length dst.cache) && ltb output_cache_size (length dst.cache + length buf)
          then (let dst' = write_cache dst buf in
              if is_success dst'.werr then write_or_cache dst' (drop room buf) else dst')
          else write_or_cache dst buf)
      else dst

  unfoldable pub dst_flush : Dest P → Dest P
  dst_flush dst =
      if ltb 0 (length dst.cache) && is_success dst.werr
      then record (write_out dst dst.cache) { cache = [] }
      else dst

  module _ (finish : Option (Dest P → RnpResult × Dest P)) where
    -- `if (dst->finish) res = dst->finish(dst)`
    pub call_finish : Dest P → RnpResult × Dest P
    call_finish dst = elim finish [ none ↦ (success, dst) | some f ↦ f dst ]

    unfoldable pub dst_finish : Dest P → RnpResult × Dest P
    unfolding call_finish
    dst_finish dst =
        let (res, dst') = call_finish (dst_flush dst) in (res, record dst' { finished = true })

    -- What `dst_close` leaves; `close` is the callback, that frees `param`.
    unfoldable pub dst_close : (Bool → Dest P → Dest P) → Dest P → Bool → Dest P
    dst_close close dst discard =
        close discard (if not discard && not dst.finished then (dst_finish dst).1 else dst)
