-- ===== src/Packet/Signature.antt =====
-- Signatures of src/librepgp/stream-packet.c: the structures of src/lib/types.h and the functions
-- that look into them.
pub mod Kind
pub mod Subpkt
pub mod Subpkts
pub mod Parse
pub mod Find
pub mod Material
pub mod RoundTrip
pub mod Older
pub mod Truncated
pub mod Content
use rnp.Prelude.{ℕ, ◌-◌, ◌&&◌, Bool, true, false, Option, none, some}
use rnp.Prelude.{List, [], ◌∷◌, length, take, drop, ltb, ◌==◌, if◌then◌else◌}
use rnp.Packet.OnePass.{OnePassSig}
use rnp.Packet.Signature.Kind

-- The union `fields` of `pgp_sig_subpkt_t`. `no_fields` is the union as `memset` leaves it; a
-- pointer and a length are the list that they show.
pub data SubpktFields : Type 0 where
  no_fields : SubpktFields
  create : ℕ → SubpktFields
  expiry : ℕ → SubpktFields
  exportable : Bool → SubpktFields
  trust : ℕ → ℕ → SubpktFields
  regexp : List ℕ → SubpktFields
  revocable : Bool → SubpktFields
  preferred : List ℕ → SubpktFields
  revocation_key : ℕ → ℕ → List ℕ → SubpktFields
  issuer : List ℕ → SubpktFields
  notation : ℕ → ℕ → List ℕ → List ℕ → SubpktFields
  ks_prefs : Bool → SubpktFields
  preferred_ks : List ℕ → SubpktFields
  primary_uid : Bool → SubpktFields
  policy : List ℕ → SubpktFields
  key_flags : ℕ → SubpktFields
  signer_uid : List ℕ → SubpktFields
  revocation_reason : ℕ → List ℕ → SubpktFields
  feature_mdc : Bool → SubpktFields
  sig_target : ℕ → ℕ → List ℕ → SubpktFields
  issuer_fp : ℕ → List ℕ → SubpktFields

-- `pgp_sig_subpkt_t`; its `len` is the length of `content`, which is `data`.
pub record SigSubpkt : Type 0 where
  pub type : ℕ
  pub content : List ℕ
  pub critical : Bool
  pub hashed : Bool
  pub parsed : Bool
  pub fields : SubpktFields

-- The union `material` of `pgp_signature_t`.
pub data SigMaterial : Type 0 where
  no_material : SigMaterial
  rsa_sig : List ℕ → SigMaterial
  dsa_sig : List ℕ → List ℕ → SigMaterial
  ecc_sig : List ℕ → List ℕ → SigMaterial
  eg_sig : List ℕ → List ℕ → SigMaterial

-- `pgp_signature_t`; its `hashed_len` is the length of `hashed_data`.
pub record Signature : Type 0 where
  pub version : ℕ
  pub type : ℕ
  pub palg : ℕ
  pub halg : ℕ
  pub lbits : List ℕ
  pub hashed_data : List ℕ
  pub material : SigMaterial
  pub creation_time : ℕ
  pub signer : List ℕ
  pub subpkts : List SigSubpkt
  pub hashed_subpkts : ℕ

-- `memset(sig, 0, sizeof(*sig))`
abbrev pub zeroed : Signature
zeroed = record {
  version = 0;
  type = 0;
  palg = 0;
  halg = 0;
  lbits = 0 ∷ 0 ∷ [];
  hashed_data = [];
  material = no_material;
  creation_time = 0;
  signer = 0 ∷ 0 ∷ 0 ∷ 0 ∷ 0 ∷ 0 ∷ 0 ∷ 0 ∷ [];
  subpkts = [];
  hashed_subpkts = 0;
}

-- The loop of `signature_get_subpkt`: the first of the type decides.
unfoldable pub first_subpkt : List SigSubpkt → ℕ → Option SigSubpkt
first_subpkt [] type = none
first_subpkt (sp ∷ more) type =
    let rest = first_subpkt more type in
    if sp.type == type then (if sp.parsed then some sp else none) else rest

unfoldable pub signature_get_subpkt : Signature → ℕ → Option SigSubpkt
signature_get_subpkt sig type = if ltb sig.version 4 then none else first_subpkt sig.subpkts type

-- The bytes `fields.issuer_fp.fp`, `fields.issuer`, and the numbers `fields.create` and
-- `fields.expiry`. A parsed subpacket has the member of its type.
abbrev pub fp_of : SubpktFields → List ℕ
fp_of (issuer_fp version fp) = fp
fp_of _ = []

abbrev pub issuer_of : SubpktFields → List ℕ
issuer_of (issuer id) = id
issuer_of _ = []

abbrev pub create_of : SubpktFields → ℕ
create_of (create time) = time
create_of _ = 0

abbrev pub expiry_of : SubpktFields → ℕ
expiry_of (expiry time) = time
expiry_of _ = 0

-- What `signature_get_keyfp` copies; `none` is `false`.
unfoldable pub signature_get_keyfp : Signature → Option (List ℕ)
signature_get_keyfp sig =
    if ltb 3 sig.version
    then elim (signature_get_subpkt sig Kind.issuer_fpr) [
      | none ↦ none
      | some sp ↦ some (fp_of sp.fields)
    ]
    else none

-- The key id is the last eight bytes of a fingerprint.
unfoldable pub id_of_fp : List ℕ → List ℕ
id_of_fp fp = take 8 (drop (length fp - 8) fp)

unfoldable pub keyid_of_subpkts : Option SigSubpkt → Option SigSubpkt → Option (List ℕ)
keyid_of_subpkts (some sp) fpr = some (take 8 (issuer_of sp.fields))
keyid_of_subpkts none (some sp) = some (id_of_fp (fp_of sp.fields))
keyid_of_subpkts none none = none

unfoldable pub signature_get_keyid : Signature → Option (List ℕ)
signature_get_keyid sig =
    if ltb sig.version 4
    then some sig.signer
    else keyid_of_subpkts (signature_get_subpkt sig Kind.issuer_key_id)
        (signature_get_subpkt sig Kind.issuer_fpr)

unfoldable pub signature_get_creation : Signature → ℕ
signature_get_creation sig =
    if ltb sig.version 4
    then sig.creation_time
    else elim (signature_get_subpkt sig Kind.creation_time) [
      | none ↦ 0
      | some sp ↦ create_of sp.fields
    ]

unfoldable pub signature_get_expiration : Signature → ℕ
signature_get_expiration sig =
    if ltb 3 sig.version
    then elim (signature_get_subpkt sig Kind.expiration_time) [
      | none ↦ 0
      | some sp ↦ expiry_of sp.fields
    ]
    else 0

-- `!memcmp(a, b, n)` of two arrays of the same size.
unfoldable pub same_bytes : List ℕ → List ℕ → Bool
same_bytes [] [] = true
same_bytes (x ∷ xs) (y ∷ ys) = let rest = same_bytes xs ys in (x == y) && rest
same_bytes _ _ = false

unfoldable pub signature_matches_onepass : Signature → OnePassSig → Bool
signature_matches_onepass sig onepass = elim (signature_get_keyid sig) [
  | none ↦ false
  | some keyid ↦
      same_bytes keyid onepass.keyid
      && (sig.halg == onepass.halg)
      && (sig.palg == onepass.palg)
      && (sig.type == onepass.type)
]
