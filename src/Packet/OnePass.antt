-- ===== src/Packet/OnePass.antt =====
-- One-pass signature packets of src/librepgp/stream-packet.c, and how they are written.
pub mod Parse
pub mod RoundTrip
use rnp.Prelude.{ℕ, Bool, Option, List}
use rnp.Packet.Body.{Body, ◌>>=◌, init_packet_body, add_packet_body, add_packet_body_byte}
use rnp.Packet.Body.{flush_or_free}

-- `PGP_PTAG_CT_1_PASS_SIG`
abbrev pub one_pass_tag : ℕ
one_pass_tag = 4

-- `pgp_one_pass_sig_t`
pub record OnePassSig : Type 0 where
  pub version : ℕ
  pub type : ℕ
  pub halg : ℕ
  pub palg : ℕ
  pub keyid : List ℕ
  pub nested : ℕ

-- The body that `stream_write_one_pass` builds.
pub one_pass_body : (ℕ → Bool) → OnePassSig → Option Body
one_pass_body alloc onepass = do
  b ← init_packet_body alloc one_pass_tag
  b ← add_packet_body_byte alloc b onepass.version
  b ← add_packet_body_byte alloc b onepass.type
  b ← add_packet_body_byte alloc b onepass.halg
  b ← add_packet_body_byte alloc b onepass.palg
  b ← add_packet_body alloc b onepass.keyid
  add_packet_body_byte alloc b onepass.nested

pub stream_write_one_pass : {D : Type 0} → (D → List ℕ → D) → (ℕ → Bool) → OnePassSig → D → Bool × D
stream_write_one_pass dst_write alloc onepass dst =
    flush_or_free dst_write (one_pass_body alloc onepass) dst
