-- ===== src/Packet/PkSesskey.antt =====
-- Public-key encrypted session keys of src/librepgp/stream-packet.c, and how they are written.
pub mod Parse
pub mod Content
pub mod RoundTrip
pub mod Sent
pub mod Unbounded
use rnp.Prelude.{ℕ, ◌||◌, Bool, Option, none, List, [], length, ◌==◌, if◌then◌else◌}
use rnp.Packet.Alg
use rnp.Packet.Body.{Body, ◌>>=◌, init_packet_body, add_packet_body, add_packet_body_byte}
use rnp.Packet.Body.{add_packet_body_mpi, flush_or_free}

-- `PGP_PTAG_CT_PK_SESSION_KEY`
abbrev pub pk_tag : ℕ
pk_tag = 1

-- The members of the union `params` of `pgp_pk_sesskey_pkt_t`; a byte array and its length are a
-- list.
pub data PkParams : Type 0 where
  rsa : List ℕ → PkParams
  eg : List ℕ → List ℕ → PkParams
  sm2 : List ℕ → PkParams
  ecdh : List ℕ → List ℕ → PkParams

-- `pgp_pk_sesskey_pkt_t`
pub record PkSesskey : Type 0 where
  pub version : ℕ
  pub key_id : List ℕ
  pub alg : ℕ
  pub params : PkParams

module _ (alloc : ℕ → Bool) where
  pub add_rsa : PkParams → Body → Option Body
  add_rsa (rsa m) b = add_packet_body_mpi alloc b m
  add_rsa _ b = none

  pub add_sm2 : PkParams → Body → Option Body
  add_sm2 (sm2 m) b = add_packet_body_mpi alloc b m
  add_sm2 _ b = none

  pub add_ecdh : PkParams → Body → Option Body
  add_ecdh (ecdh p m) b = do
    b ← add_packet_body_mpi alloc b p
    b ← add_packet_body_byte alloc b (length m)
    add_packet_body alloc b m
  add_ecdh _ b = none

  pub add_eg : PkParams → Body → Option Body
  add_eg (eg g m) b = do b ← add_packet_body_mpi alloc b g; add_packet_body_mpi alloc b m
  add_eg _ b = none

  -- `switch (pkey->alg)`. The code reads the member of the union that belongs to `alg`; where
  -- another member was set, which C leaves undefined, the model fails.
  pub add_params : PkSesskey → Body → Option Body
  unfolding add_rsa add_sm2 add_ecdh add_eg
  add_params pkey b =
      if (pkey.alg == Alg.rsa) || (pkey.alg == Alg.rsa_encrypt_only)
      then add_rsa pkey.params b
      else if pkey.alg == Alg.sm2
      then add_sm2 pkey.params b
      else if pkey.alg == Alg.ecdh
      then add_ecdh pkey.params b
      else if (pkey.alg == Alg.elgamal) || (pkey.alg == Alg.elgamal_encrypt_or_sign)
      then add_eg pkey.params b
      else none

  -- The body that `stream_write_pk_sesskey` builds.
  pub pk_body : PkSesskey → Option Body
  pk_body pkey = do
    b ← init_packet_body alloc pk_tag
    b ← add_packet_body_byte alloc b pkey.version
    b ← add_packet_body alloc b pkey.key_id
    b ← add_packet_body_byte alloc b pkey.alg
    add_params pkey b

pub stream_write_pk_sesskey :
    {D : Type 0} → (D → List ℕ → D) → (ℕ → Bool) → PkSesskey → D → Bool × D
stream_write_pk_sesskey dst_write alloc pkey dst = flush_or_free dst_write (pk_body alloc pkey) dst
