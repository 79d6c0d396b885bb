-- ===== src/Packet/Signature/Kind.antt =====
-- Numbers of include/repgp/repgp_def.h: signature subpackets (`PGP_SIG_SUBPKT_*`).
use rnp.Prelude.{ℕ}

abbrev pub creation_time : ℕ
creation_time = 2

abbrev pub expiration_time : ℕ
expiration_time = 3

abbrev pub export_cert : ℕ
export_cert = 4

abbrev pub trust : ℕ
trust = 5

abbrev pub regexp : ℕ
regexp = 6

abbrev pub revocable : ℕ
revocable = 7

abbrev pub key_expiry : ℕ
key_expiry = 9

abbrev pub preferred_ska : ℕ
preferred_ska = 11

abbrev pub revocation_key : ℕ
revocation_key = 12

abbrev pub issuer_key_id : ℕ
issuer_key_id = 16

abbrev pub notation_data : ℕ
notation_data = 20

abbrev pub preferred_hash : ℕ
preferred_hash = 21

abbrev pub pref_compress : ℕ
pref_compress = 22

abbrev pub keyserv_prefs : ℕ
keyserv_prefs = 23

abbrev pub pref_keyserv : ℕ
pref_keyserv = 24

abbrev pub primary_user_id : ℕ
primary_user_id = 25

abbrev pub policy_uri : ℕ
policy_uri = 26

abbrev pub key_flags : ℕ
key_flags = 27

abbrev pub signers_user_id : ℕ
signers_user_id = 28

abbrev pub revocation_reason : ℕ
revocation_reason = 29

abbrev pub features : ℕ
features = 30

abbrev pub signature_target : ℕ
signature_target = 31

abbrev pub embedded_signature : ℕ
embedded_signature = 32

abbrev pub issuer_fpr : ℕ
issuer_fpr = 33
