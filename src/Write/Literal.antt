-- ===== src/Write/Literal.antt =====
-- The destination for literal data of src/librepgp/stream-write.c.
-- `filename` and `filemtime` are those of the context of the handler; the file name is its text in
-- front of the `\0`. The `param` of an initialised destination is not NULL.
pub mod Made
use rnp.Prelude.{ℕ, Bool, true, false, not, Option, none, some, ◌⊎◌, inl, inr, List, [], ◌∷◌}
use rnp.Prelude.{length, take, ltb, if◌then◌else◌}
use rnp.Errors.{RnpResult, success, bad_parameters, out_of_memory}
use rnp.Stream.Dest.{Dest, init_dst, dst_write}
use rnp.Packet.Length.{store32be}
use rnp.Write.Partial.{partial_dst_write}
use rnp.Write.Packet.{WriteDest, unset, below, parts, PacketDest, init_streamed_packet}
use rnp.Write.Packet.{finish_streamed_packet}

-- The file name that is written, of 255 bytes at most.
pub name_of : Option (List ℕ) → List ℕ
name_of none = []
name_of (some filename) = if ltb 255 (length filename) then take 255 filename else filename

-- `origdst`
pub origdst_of : {D : Type 0} → WriteDest D → D
origdst_of (unset d) = d
origdst_of (below d) = d
origdst_of (parts dst) = dst.param.writedst

module _ {D : Type 0} (dst_write_below : D → List ℕ → D) where
  -- `dst_write(param->writedst, buf, len)`
  pub write_to : WriteDest D → List ℕ → WriteDest D
  write_to (unset d) buf = unset d
  write_to (below d) buf = below (dst_write_below d buf)
  write_to (parts dst) buf = parts (dst_write (partial_dst_write dst_write_below) dst buf)

  -- The `write` callback.
  pub literal_dst_write : PacketDest D → ℕ → List ℕ → RnpResult × PacketDest D
  unfolding write_to
  literal_dst_write param writeb buf =
      (success, record param { writedst = write_to param.writedst buf })

  -- The `finish` callback.
  pub literal_dst_finish : (D → RnpResult) → Dest (PacketDest D) → RnpResult × Dest (PacketDest D)
  literal_dst_finish werr dst =
      let param = dst.param in
      let (res, writedst) =
        finish_streamed_packet dst_write_below werr param.writedst param.partial in
      (res, record dst { param = record param { writedst = writedst } })

  -- The content type, the file name and the time.
  pub write_fields : Option (List ℕ) → ℕ → WriteDest D → WriteDest D
  unfolding write_to name_of
  write_fields filename filemtime writedst =
      let name = name_of filename in
      let begun = write_to writedst (98 ∷ length name ∷ []) in
      let named = if ltb 0 (length name) then write_to begun name else begun in
      write_to named (store32be filemtime)

  -- What follows `init_streamed_packet`.
  pub literal_of : Option (List ℕ) → ℕ → Bool × PacketDest D → (RnpResult × D) ⊎ Dest (PacketDest D)
  unfolding write_fields init_dst origdst_of
  literal_of filename filemtime (false, param) = inl (bad_parameters, origdst_of param.writedst)
  literal_of filename filemtime (true, param) =
      inr (
        init_dst (record param { writedst = write_fields filename filemtime param.writedst }) false)

  -- `init_literal_dst`: an error with what it left of the destination below, or the destination.
  -- `memory` says whether the parameters are allocated, and `calloc` and `parts_memory` are those of
  -- `init_streamed_packet`.
  pub init_literal_dst :
      Bool → Bool → Bool → Option (List ℕ) → ℕ → D → (RnpResult × D) ⊎ Dest (PacketDest D)
  unfolding literal_of
  init_literal_dst memory calloc parts_memory filename filemtime d =
      let param : PacketDest D = record {
        writedst = unset d;
        partial = true;
        indeterminate = false;
        tag = 11;
      } in
      if not memory
      then inl (out_of_memory, d)
      else literal_of filename filemtime
          (init_streamed_packet dst_write_below calloc parts_memory param d)
