-- ===== src/Armor/Convert.antt =====
-- `rnp_armor_source` of src/librepgp/stream-armor.c.
-- `read` is the callback of the source, `dst_write` what the code uses of the destination.
pub mod Rounds
pub mod Whole
use rnp.Prelude.{ℕ, zero, suc, Bool, true, false, not, Option, none, some, List, [], ◌∷◌}
use rnp.Prelude.{if◌then◌else◌}
use rnp.Errors.{RnpResult, success, read_error, write_error, Attempt, minus_one, returned}
use rnp.Stream.Source.{Source, cache_size, src_read}
use rnp.Stream.Dest.{Dest, is_success, dst_write, dst_close}
use rnp.Armor.Dest.{ArmoredDest, ArmoredMsg, init_armored_dst, armored_dst_write}
use rnp.Armor.Dest.{armored_dst_finish}

-- The loop of `rnp_armor_source`, whose destination has the callback `write`.
module _ {P A : Type 0} (read : P → ℕ → Attempt P (List ℕ))
    (write : A → ℕ → List ℕ → RnpResult × A) where
  -- A round, with what `src_read` returned. `again` is the loop.
  pub convert_round :
      (Source P → Dest A → Option (RnpResult × Source P × Dest A))
      → Dest A
      → Attempt (Source P) (List ℕ)
      → Option (RnpResult × Source P × Dest A)
  convert_round again dst (minus_one s) = some (read_error, s, dst)
  convert_round again dst (returned [] s) = again s dst
  convert_round again dst (returned (b ∷ bs) s) =
      let dst' = dst_write write dst (b ∷ bs) in
      let rest = again s dst' in if is_success dst'.werr then rest else some (write_error, s, dst')

  -- `while (!src->eof)`, of at most `fuel` rounds; `none` if it goes on then.
  pub convert_rounds : ℕ → Source P → Dest A → Option (RnpResult × Source P × Dest A)
  convert_rounds zero src dst = if src.eof then some (success, src, dst) else none
  convert_rounds (suc fuel) src dst =
      if src.eof
      then some (success, src, dst)
      else convert_round (convert_rounds fuel) dst (src_read read src cache_size)

module _ {D C : Type 0} (dst_write_below : D → List ℕ → D) (werr : D → RnpResult)
    (hash_add : C → List ℕ → C) (hash_finish : C → List ℕ) where
  -- `dst_close` of the armoring destination: what it leaves of the destination below. Its `close`
  -- callback frees the parameters.
  pub close_below : Dest (ArmoredDest D C) → RnpResult → D
  close_below dst res =
      let closed =
        dst_close (armored_dst_write dst_write_below hash_add)
          (some (armored_dst_finish dst_write_below hash_finish werr)) (λ discard d. d) dst
          (not (is_success res)) in
      closed.param.writedst

  -- The result of the loop, and the source and the destination below.
  pub closed :
      {P : Type 0} → RnpResult × Source P × Dest (ArmoredDest D C) → RnpResult × Source P × D
  unfolding close_below
  closed (res, src, dst) = (res, src, close_below dst res)

  pub closed_if :
      {P : Type 0}
      → Option (RnpResult × Source P × Dest (ArmoredDest D C))
      → Option (RnpResult × Source P × D)
  unfolding closed
  closed_if none = none
  closed_if (some end) = some (closed end)

  -- What follows `init_armored_dst`. Where the armoring destination is not made, nothing was written.
  pub convert_to :
      {P : Type 0}
      → (P → ℕ → Attempt P (List ℕ))
      → ℕ
      → Source P
      → D
      → RnpResult × Option (Dest (ArmoredDest D C))
      → Option (RnpResult × Source P × D)
  unfolding convert_rounds convert_round closed_if
  convert_to read fuel src dst (res, none) = some (res, src, dst)
  convert_to read fuel src dst (res, some armordst) =
      closed_if (convert_rounds read (armored_dst_write dst_write_below hash_add) fuel src armordst)

  -- `rnp_armor_source`, of at most `fuel` rounds of its loop.
  pub rnp_armor_source :
      {P : Type 0}
      → (P → ℕ → Attempt P (List ℕ))
      → ℕ
      → Option C
      → List ℕ
      → Source P
      → D
      → ArmoredMsg
      → Option (RnpResult × Source P × D)
  unfolding convert_to
  rnp_armor_source read fuel hash_create package_string src dst msgtype =
      convert_to read fuel src dst
        (init_armored_dst dst_write_below hash_create package_string dst msgtype)
