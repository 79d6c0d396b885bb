-- ===== src/Packet/PkSesskey/Sent.antt =====
-- What `stream_write_pk_sesskey` sends.
use rnp.Prelude.{ℕ, ◌<◌, ◌≡◌, refl, Bool, true, arith}
use rnp.Prelude.{List, [], ◌∷◌, ◌++◌, length, append_assoc}
use mathlib.Core.Path.{subst}
use rnp.Packet.Body.{Body, mpi_header, add_packet_body_mpi}
use rnp.Packet.Body.Build.{Holds, bind-Holds, init-Holds, add-Holds, add_small-Holds, add_mpi-Holds}
use rnp.Packet.Body.Build.{packet, IsDest, Sends, flush-Sends}
use rnp.Packet.PkSesskey.{PkSesskey, PkParams, rsa, eg, sm2, ecdh, pk_tag, add_params, pk_body}
use rnp.Packet.PkSesskey.{add_rsa, add_eg, add_sm2, add_ecdh, stream_write_pk_sesskey}
use rnp.Packet.PkSesskey.Content.{IsMpi, Fits, IsPkSesskey, mpi_content, params_content, pk_front}
use rnp.Packet.PkSesskey.Content.{pk_content, skip_zeros-IsMpi}

module _ (alloc : ℕ → Bool) (memory : (n : ℕ) → alloc n ≡ true) where
  mpi-Holds :
      {tag : ℕ} (xs m : List ℕ) (b : Body)
      → IsMpi m
      → b.tag ≡ tag
      → b.content ≡ xs
      → Holds (add_packet_body_mpi alloc b m) tag (xs ++ mpi_content m)
  mpi-Holds {tag} xs m b v t c =
      subst (λ n. Holds (add_packet_body_mpi alloc b m) tag (xs ++ (mpi_header n ++ n)))
        (skip_zeros-IsMpi m v) (add_mpi-Holds alloc memory b m t c)

  params-Holds :
      (k : PkSesskey) (p : PkParams) (xs : List ℕ) (b : Body)
      → Fits k.alg p
      → k.params ≡ p
      → b.tag ≡ pk_tag
      → b.content ≡ xs
      → Holds (add_params alloc k b) pk_tag (xs ++ params_content p)
  unfolding add_params add_rsa add_eg add_sm2 add_ecdh
  params-Holds k (rsa m) xs b v e t c = simp (v.0, e) (mpi-Holds xs m b v.1 t c)
  params-Holds k (eg g m) xs b v e t c =
      simp (v.0, e)
        (rw (← append_assoc xs (mpi_content g) (mpi_content m))
          (bind-Holds _ _ (mpi-Holds xs g b v.1 t c) λ b t c. mpi-Holds _ m b v.2 t c))
  params-Holds k (sm2 m) xs b v e t c = simp (v.0, e) (mpi-Holds xs m b v.1 t c)
  params-Holds k (ecdh p m) xs b v e t c =
      simp (v.0, e)
        (rw
          (
            ← append_assoc xs (mpi_content p) (length m ∷ m),
            ← append_assoc (xs ++ mpi_content p) (length m ∷ []) m,
          )
          (bind-Holds _ _ (mpi-Holds xs p b v.1 t c) λ b t c.
            bind-Holds _ _ (add_small-Holds alloc memory b (length m) (omega (arith, v.2)) t c)
              λ b t c. add-Holds alloc memory b m t c))

  pk_body-Holds :
      (k : PkSesskey) → IsPkSesskey k → k.alg < 256 → Holds (pk_body alloc k) pk_tag (pk_content k)
  unfolding pk_body
  pk_body-Holds k v alg_byte = bind-Holds _ _ (init-Holds alloc memory pk_tag) λ b t c.
      bind-Holds _ _ (add_small-Holds alloc memory b k.version (omega (arith, v.is_v3)) t c)
        λ b t c. bind-Holds _ _ (add-Holds alloc memory b k.key_id t c) λ b t c.
          bind-Holds _ _ (add_small-Holds alloc memory b k.alg alg_byte t c)
            λ b t c. params-Holds k k.params (pk_front k) b v.fits refl t c

Fits-alg : (alg : ℕ) (p : PkParams) → Fits alg p → alg < 256
Fits-alg alg (rsa m) v = omega (arith, v.0)
Fits-alg alg (eg g m) v = omega (arith, v.0)
Fits-alg alg (sm2 m) v = omega (arith, v.0)
Fits-alg alg (ecdh p m) v = omega (arith, v.0)

-- `stream_write_pk_sesskey` sends the packet of a version 3 session key, whatever its algorithm, if
-- the allocations succeed.
pub stream_write_pk_sesskey-Sends :
    {D : Type 0} (dst_write : D → List ℕ → D) (sent : D → List ℕ) (IsOpen : D → Type 0)
    → IsDest dst_write sent IsOpen
    → (alloc : ℕ → Bool) (k : PkSesskey) (d : D) → ((n : ℕ) → alloc n ≡ true)
    → IsPkSesskey k
    → IsOpen d
    → Sends sent IsOpen d
        (packet pk_tag (pk_content k))
        (stream_write_pk_sesskey dst_write alloc k d)
unfolding stream_write_pk_sesskey
stream_write_pk_sesskey-Sends dst_write sent IsOpen dest alloc k d memory v h =
    flush-Sends dst_write sent IsOpen dest (pk_body alloc k) pk_tag (pk_content k) d (omega arith)
      (pk_body-Holds alloc memory k v (Fits-alg k.alg k.params v.fits)) h
