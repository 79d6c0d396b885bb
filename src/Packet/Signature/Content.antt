-- ===== src/Packet/Signature/Content.antt =====
-- What the packet of a version 4 signature shows, and its bytes.
use rnp.Prelude.{ℕ, ◌/◌, ◌%◌, ◌^◌, ◌≤◌, ◌<◌, ◌≡◌, arith, true, false}
use rnp.Prelude.{List, [], ◌∷◌, ◌++◌, length, length-append}
use rnp.Packet.Length.{read_uint16}
use rnp.Packet.PkSesskey.Content.{IsMpi-length, mpi_content, length-mpi_content}
use rnp.Packet.Signature.{
  Signature, zeroed, SigMaterial, no_material, rsa_sig, dsa_sig, ecc_sig, eg_sig,
}
use rnp.Packet.Signature.Subpkts.Written.{Raw, AllRaw, region, all_accepted, with_subpkts}
use rnp.Packet.Signature.Material.{FitsSig, material_content}

-- `PGP_PTAG_CT_SIGNATURE`
abbrev pub sig_tag : ℕ
sig_tag = 2

-- What a version 4 packet shows.
pub record SigV4 : Type 0 where
  pub type : ℕ
  pub palg : ℕ
  pub halg : ℕ
  pub hashed : List Raw
  pub unhashed : List Raw
  pub lbits : List ℕ
  pub material : SigMaterial

pub record IsSigV4 (k : SigV4) : Type 0 where
  pub hashed_raw : AllRaw k.hashed
  pub unhashed_raw : AllRaw k.unhashed
  pub hashed_accepted : all_accepted true k.hashed ≡ true
  pub unhashed_accepted : all_accepted false k.unhashed ≡ true
  pub hashed_size : length (region k.hashed) < 2 ^ 16
  pub unhashed_size : length (region k.unhashed) < 2 ^ 16
  pub two_bytes : length k.lbits ≡ 2
  pub fits : FitsSig k.palg k.material

-- Two bytes, the higher first.
abbrev pub be16 : ℕ → List ℕ
be16 n = (n / 2 ^ 8) ∷ (n % 2 ^ 8) ∷ []

abbrev pub v4_front : SigV4 → List ℕ
v4_front k = k.type ∷ k.palg ∷ k.halg ∷ be16 (length (region k.hashed))

abbrev pub v4_body : SigV4 → List ℕ
v4_body k =
    v4_front k ++ (region k.hashed ++ (be16 (length (region k.unhashed)) ++ region k.unhashed))

abbrev pub v4_content : SigV4 → List ℕ
v4_content k = 4 ∷ (v4_body k ++ (k.lbits ++ material_content k.material))

-- The fields before the subpackets. The hashed data is the packet's up to the last hashed subpacket.
abbrev pub v4_begun : SigV4 → Signature
v4_begun k = record zeroed {
  version = 4;
  type = k.type;
  palg = k.palg;
  halg = k.halg;
  hashed_data = 4 ∷ k.type ∷ k.palg ∷ k.halg ∷ (be16 (length (region k.hashed)) ++ region k.hashed);
}

-- The signature with its subpackets, parsed.
abbrev pub v4_read : SigV4 → Signature
v4_read k = with_subpkts false (with_subpkts true (v4_begun k) k.hashed) k.unhashed

abbrev pub v4_signature : SigV4 → Signature
v4_signature k = record (v4_read k) { lbits = k.lbits; material = k.material }

pub read_uint16-be16 : (n : ℕ) → read_uint16 (be16 n) ≡ n
unfolding read_uint16
read_uint16-be16 n = omega arith

pub material-length :
    (alg : ℕ) (p : SigMaterial) → FitsSig alg p → length (material_content p) ≤ 4100
material-length alg no_material v = omega arith
material-length alg (rsa_sig t) v = omega (arith, length-mpi_content t, IsMpi-length t v.1)
material-length alg (dsa_sig r t) v = omega (
  arith,
  length-append {0} (mpi_content r) (mpi_content t),
  length-mpi_content r,
  length-mpi_content t,
  IsMpi-length r v.1,
  IsMpi-length t v.2,
)
material-length alg (ecc_sig r t) v = omega (
  arith,
  length-append {0} (mpi_content r) (mpi_content t),
  length-mpi_content r,
  length-mpi_content t,
  IsMpi-length r v.1,
  IsMpi-length t v.2,
)
material-length alg (eg_sig r t) v = omega (
  arith,
  length-append {0} (mpi_content r) (mpi_content t),
  length-mpi_content r,
  length-mpi_content t,
  IsMpi-length r v.1,
  IsMpi-length t v.2,
)
