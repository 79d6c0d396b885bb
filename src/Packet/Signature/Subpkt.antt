-- ===== src/Packet/Signature/Subpkt.antt =====
-- `signature_parse_subpacket` of src/librepgp/stream-packet.c.
pub mod Checked
use rnp.Prelude.{ℕ, ◌+◌, ◌||◌, not, bit_and, Bool, true, false}
use rnp.Prelude.{[], length, take, drop, get_or, ltb, leb, ◌==◌, if◌then◌else◌}
use rnp.Packet.Length.{read_uint16, read_uint32}
use rnp.Packet.Signature.Kind
use rnp.Packet.Signature.{
  SigSubpkt, SubpktFields, create, expiry, exportable, trust, regexp, revocable,
}
use rnp.Packet.Signature.{preferred, revocation_key, issuer, notation, ks_prefs, preferred_ks}
use rnp.Packet.Signature.{
  primary_uid, policy, key_flags, signer_uid, revocation_reason, feature_mdc,
}
use rnp.Packet.Signature.{sig_target, issuer_fp}

-- The end of the function: a subpacket of the right length gets its fields and is parsed. The other
-- test, `checked`, only decides what is returned.
unfoldable pub parsed_if : Bool → Bool → SubpktFields → SigSubpkt → Bool × SigSubpkt
parsed_if oklen checked fields subpkt =
    if oklen then (checked, record subpkt { parsed = true; fields = fields }) else (false, subpkt)

-- A notation keeps the two lengths it declares also where the subpacket does not fit them.
unfoldable pub parse_notation : SigSubpkt → Bool × SigSubpkt
parse_notation subpkt =
    let nlen = read_uint16 (drop 4 subpkt.content) in
    let vlen = read_uint16 (drop 6 subpkt.content) in
    if ltb (length subpkt.content) 8
    then (false, subpkt)
    else if length subpkt.content == 8 + nlen + vlen
    then parsed_if true true
        (notation nlen vlen (take nlen (drop 8 subpkt.content)) (drop (8 + nlen) subpkt.content))
        subpkt
    else (false, record subpkt { fields = notation nlen vlen [] [] })

-- A byte of `data`.
abbrev pub byte_at : SigSubpkt → ℕ → ℕ
byte_at subpkt n = get_or subpkt.content n 0

unfoldable pub signature_parse_subpacket : SigSubpkt → Bool × SigSubpkt
signature_parse_subpacket subpkt =
    let bytes = subpkt.content in
    let len = length bytes in
    if subpkt.type == Kind.creation_time
    then parsed_if (len == 4) subpkt.hashed (create (read_uint32 bytes)) subpkt
    else if (subpkt.type == Kind.expiration_time) || (subpkt.type == Kind.key_expiry)
    then parsed_if (len == 4) true (expiry (read_uint32 bytes)) subpkt
    else if subpkt.type == Kind.export_cert
    then parsed_if (len == 1) true (exportable (not (byte_at subpkt 0 == 0))) subpkt
    else if subpkt.type == Kind.trust
    then parsed_if (len == 2) true (trust (byte_at subpkt 0) (byte_at subpkt 1)) subpkt
    else if subpkt.type == Kind.regexp
    then parsed_if true true (regexp bytes) subpkt
    else if subpkt.type == Kind.revocable
    then parsed_if (len == 1) true (revocable (not (byte_at subpkt 0 == 0))) subpkt
    else if (subpkt.type == Kind.preferred_ska)
        || (subpkt.type == Kind.preferred_hash)
        || (subpkt.type == Kind.pref_compress)
    then parsed_if true true (preferred bytes) subpkt
    else if subpkt.type == Kind.revocation_key
    then parsed_if (len == 22) true
        (revocation_key (byte_at subpkt 0) (byte_at subpkt 1) (drop 2 bytes)) subpkt
    else if subpkt.type == Kind.issuer_key_id
    then parsed_if (len == 8) true (issuer bytes) subpkt
    else if subpkt.type == Kind.notation_data
    then parse_notation subpkt
    else if subpkt.type == Kind.keyserv_prefs
    then parsed_if (leb 1 len) true (ks_prefs (not (bit_and (byte_at subpkt 0) 0x80 == 0))) subpkt
    else if subpkt.type == Kind.pref_keyserv
    then parsed_if true true (preferred_ks bytes) subpkt
    else if subpkt.type == Kind.primary_user_id
    then parsed_if (len == 1) true (primary_uid (not (byte_at subpkt 0 == 0))) subpkt
    else if subpkt.type == Kind.policy_uri
    then parsed_if true true (policy bytes) subpkt
    else if subpkt.type == Kind.key_flags
    then parsed_if (leb 1 len) true (key_flags (byte_at subpkt 0)) subpkt
    else if subpkt.type == Kind.signers_user_id
    then parsed_if true true (signer_uid bytes) subpkt
    else if subpkt.type == Kind.revocation_reason
    then parsed_if (leb 1 len) true (revocation_reason (byte_at subpkt 0) (drop 1 bytes)) subpkt
    else if subpkt.type == Kind.features
    then parsed_if (leb 1 len) true (feature_mdc (not (bit_and (byte_at subpkt 0) 0x01 == 0)))
        subpkt
    else if subpkt.type == Kind.signature_target
    then parsed_if (leb 18 len) true
        (sig_target (byte_at subpkt 0) (byte_at subpkt 1) (drop 2 bytes)) subpkt
    else if subpkt.type == Kind.embedded_signature
    then parsed_if true true subpkt.fields subpkt
    else if subpkt.type == Kind.issuer_fpr
    then parsed_if (leb 21 len) true (issuer_fp (byte_at subpkt 0) (drop 1 bytes)) subpkt
    else (not subpkt.critical, subpkt)
