-- ===== src/Packet/PkSesskey/Content.antt =====
-- The session keys that a packet can show, and the body of their packet.
use rnp.Prelude.{
  ℕ, suc, ◌+◌, ◌≤◌, ◌<◌, ◌≡◌, ◌≢◌, refl, sym, ◌⊎◌, arith, List, [], ◌∷◌, ◌++◌, length,
}
use rnp.Prelude.{ne→==, append_assoc, append-nil}
use rnp.Packet.Alg
use rnp.Packet.Input.{SourceOps, IsSource, At, Hits}
use rnp.Packet.Input.Rules.{Hits-eq}
use rnp.Packet.Body.{skip_zeros, mpi_header}
use rnp.Packet.Mpi.{stream_read_mpi}
use rnp.Packet.Mpi.RoundTrip.{stream_read_mpi-write}
use rnp.Packet.PkSesskey.{PkSesskey, PkParams, rsa, eg, sm2, ecdh}

-- The bytes of a number without leading zeros that fits `PGP_MPINT_SIZE`.
abbrev pub IsMpi : List ℕ → Type 0
IsMpi [] = ⊥
IsMpi (b ∷ bs) = (b < 256) × (b ≢ 0) × (length bs < 2048)

-- The parameters that the reader takes for an algorithm.
abbrev pub Fits : ℕ → PkParams → Type 0
Fits alg (rsa m) = (alg ≡ Alg.rsa) × IsMpi m
Fits alg (eg g m) = (alg ≡ Alg.elgamal) × IsMpi g × IsMpi m
Fits alg (sm2 m) = (alg ≡ Alg.sm2) × IsMpi m
Fits alg (ecdh p m) = (alg ≡ Alg.ecdh) × IsMpi p × (length m ≤ 48)

pub record IsPkSesskey (k : PkSesskey) : Type 0 where
  pub is_v3 : k.version ≡ 3
  pub id_size : length k.key_id ≡ 8
  pub fits : Fits k.alg k.params

abbrev pub mpi_content : List ℕ → List ℕ
mpi_content m = mpi_header m ++ m

abbrev pub params_content : PkParams → List ℕ
params_content (rsa m) = mpi_content m
params_content (eg g m) = mpi_content g ++ mpi_content m
params_content (sm2 m) = mpi_content m
params_content (ecdh p m) = mpi_content p ++ (length m ∷ m)

-- The number that all algorithms begin with, and what comes behind it.
abbrev pub first_mpi : PkParams → List ℕ
first_mpi (rsa m) = m
first_mpi (eg g m) = g
first_mpi (sm2 m) = m
first_mpi (ecdh p m) = p

abbrev pub other_params : PkParams → List ℕ
other_params (rsa m) = []
other_params (eg g m) = mpi_content m
other_params (sm2 m) = []
other_params (ecdh p m) = length m ∷ m

pub params_content-first_mpi :
    (p : PkParams) → params_content p ≡ mpi_content (first_mpi p) ++ other_params p
params_content-first_mpi (rsa m) = sym (append-nil (mpi_content m))
params_content-first_mpi (eg g m) = refl
params_content-first_mpi (sm2 m) = sym (append-nil (mpi_content m))
params_content-first_mpi (ecdh p m) = refl

pub IsMpi-length : (m : List ℕ) → IsMpi m → length m ≤ 2048
IsMpi-length [] v = omega arith
IsMpi-length (b ∷ bs) v = omega (arith, v.2)

pub first_mpi-IsMpi : (alg : ℕ) (p : PkParams) → Fits alg p → IsMpi (first_mpi p)
first_mpi-IsMpi alg (rsa m) v = v.1
first_mpi-IsMpi alg (eg g m) v = v.1
first_mpi-IsMpi alg (sm2 m) v = v.1
first_mpi-IsMpi alg (ecdh p m) v = v.1

abbrev pub pk_front : PkSesskey → List ℕ
pk_front k = k.version ∷ (k.key_id ++ (k.alg ∷ []))

abbrev pub pk_content : PkSesskey → List ℕ
pk_content k = pk_front k ++ params_content k.params

pub length-mpi_content : (m : List ℕ) → length (mpi_content m) ≡ 2 + length m
unfolding mpi_header
length-mpi_content m = omega arith

-- A number without leading zeros is written whole.
pub skip_zeros-IsMpi : (m : List ℕ) → IsMpi m → skip_zeros m ≡ m
unfolding skip_zeros
skip_zeros-IsMpi [] v = elim v [ ]
skip_zeros-IsMpi (b ∷ []) v = refl
skip_zeros-IsMpi (b ∷ c ∷ bs) v = rw (ne→== b 0 v.1)

module _ {S : Type 0} (ops : SourceOps S) (pending : S → List ℕ) (IsReady : S → Type 0)
    (source : IsSource ops pending IsReady) where
  pub mpi-Hits :
      (maxlen : ℕ) (m rest : List ℕ) (r : ℕ) (s : S)
      → IsMpi m
      → (maxlen ≡ 0) ⊎ (length m + 2 ≤ maxlen)
      → At ops pending IsReady s (mpi_content m ++ rest) r
      → Hits ops pending IsReady (stream_read_mpi ops maxlen s) m rest (r + (2 + length m))
  mpi-Hits maxlen [] rest r s v room h = elim v [ ]
  mpi-Hits maxlen (b ∷ bs) rest r s v room h =
      Hits-eq ops pending IsReady {r = r + 2 + suc (length bs)} (omega arith) (
        stream_read_mpi-write ops pending IsReady source maxlen b bs rest r s v.0 v.1 v.2 room
          (rw (append_assoc (mpi_header (b ∷ bs)) (b ∷ bs) rest) at h))

pub other_params-length : (alg : ℕ) (p : PkParams) → Fits alg p → length (other_params p) ≤ 2050
other_params-length alg (rsa m) v = omega arith
other_params-length alg (eg g m) v = omega (arith, length-mpi_content m, IsMpi-length m v.2)
other_params-length alg (sm2 m) v = omega arith
other_params-length alg (ecdh p m) v = omega (arith, v.2)
