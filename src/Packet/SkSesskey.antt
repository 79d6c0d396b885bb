-- ===== src/Packet/SkSesskey.antt =====
-- Symmetric-key encrypted session keys of src/librepgp/stream-packet.c, and how they are written.
pub mod Parse
pub mod Content
pub mod RoundTrip
pub mod Sent
use rnp.Prelude.{ℕ, Bool, Option, some, List, [], length, ltb, ◌==◌, if◌then◌else◌}
use rnp.Packet.Body.{Body, ◌>>=◌, init_packet_body, add_packet_body, add_packet_body_byte}
use rnp.Packet.Body.{flush_or_free}

-- `PGP_PTAG_CT_SK_SESSION_KEY`
abbrev pub sk_tag : ℕ
sk_tag = 3

-- `PGP_S2KS_*` of include/repgp/repgp_def.h
abbrev pub simple : ℕ
simple = 0

abbrev pub salted : ℕ
salted = 1

abbrev pub iterated_and_salted : ℕ
iterated_and_salted = 3

-- `pgp_sk_sesskey_t` with the fields of its `pgp_s2k_t` that the packet shows; `enckeylen` is the
-- length of `enckey`.
pub record SkSesskey : Type 0 where
  pub version : ℕ
  pub alg : ℕ
  pub specifier : ℕ
  pub hash_alg : ℕ
  pub salt : List ℕ
  pub iterations : ℕ
  pub enckey : List ℕ

module _ (alloc : ℕ → Bool) where
  -- `switch (skey->s2k.specifier)`
  pub add_s2k : SkSesskey → Body → Option Body
  add_s2k skey b =
      if skey.specifier == salted
      then add_packet_body alloc b skey.salt
      else if skey.specifier == iterated_and_salted
      then (do b ← add_packet_body alloc b skey.salt; add_packet_body_byte alloc b skey.iterations)
      else some b

  pub add_enckey : SkSesskey → Body → Option Body
  add_enckey skey b =
      if ltb 0 (length skey.enckey) then add_packet_body alloc b skey.enckey else some b

  -- The body that `stream_write_sk_sesskey` builds.
  pub sk_body : SkSesskey → Option Body
  unfolding add_s2k add_enckey
  sk_body skey = do
    b ← init_packet_body alloc sk_tag
    b ← add_packet_body_byte alloc b skey.version
    b ← add_packet_body_byte alloc b skey.alg
    b ← add_packet_body_byte alloc b skey.specifier
    b ← add_packet_body_byte alloc b skey.hash_alg
    b ← add_s2k skey b
    add_enckey skey b

pub stream_write_sk_sesskey :
    {D : Type 0} → (D → List ℕ → D) → (ℕ → Bool) → SkSesskey → D → Bool × D
stream_write_sk_sesskey dst_write alloc skey dst = flush_or_free dst_write (sk_body alloc skey) dst
