-- ===== src/Packet/Signature/Older.antt =====
-- Signature packets of the versions 2 and 3, and what `stream_parse_signature` makes of them.
use rnp.Prelude.{ℕ, ◌+◌, ◌-◌, ◌^◌, ◌≤◌, ◌<◌, ◌≡◌, refl, sym, ap, ◌∙◌, ◌⊎◌, arith, true, ◌||◌}
use rnp.Prelude.{List, [], ◌∷◌, ◌++◌, length, ◌==◌, append_assoc, length-append, get_or}
use rnp.Prelude.{le→ltb, take-append_exact, get_or-append_exact}
use mathlib.Core.Path.{subst}
use rnp.Errors.{read_error, done}
use rnp.Packet.Input.{SourceOps, IsSource, At, Gives}
use rnp.Packet.Input.Rules.{bind-Gives, or_fail-Gives, read_front-Hits}
use rnp.Packet.Length.{store32be}
use rnp.Packet.Length.RoundTrip.{read_uint32-store32be}
use rnp.Packet.Body.Build.{packet}
use rnp.Packet.Body.Read.{packet-Hits, length-packet, header_size}
use rnp.Packet.Signature.{Signature, zeroed, SigMaterial}
use rnp.Packet.Signature.Parse.{v3_fields, signature_read_v3, read_version}
use rnp.Packet.Signature.Parse.{signature_of_len, stream_parse_signature}
use rnp.Packet.Signature.Material.{FitsSig, material_content, signature_of_len-Gives}
use rnp.Packet.Signature.Content.{sig_tag, material-length}

-- What a packet of these versions shows.
pub record SigV3 : Type 0 where
  pub version : ℕ
  pub type : ℕ
  pub creation_time : ℕ
  pub signer : List ℕ
  pub palg : ℕ
  pub halg : ℕ
  pub lbits : List ℕ
  pub material : SigMaterial

pub record IsSigV3 (k : SigV3) : Type 0 where
  pub known : (k.version ≡ 2) ⊎ (k.version ≡ 3)
  pub time_size : k.creation_time < 2 ^ 32
  pub id_size : length k.signer ≡ 8
  pub two_bytes : length k.lbits ≡ 2
  pub fits : FitsSig k.palg k.material

abbrev pub v3_front : SigV3 → List ℕ
v3_front k = 5 ∷ k.type ∷ (store32be k.creation_time ++ (k.signer ++ (k.palg ∷ k.halg ∷ [])))

abbrev pub v3_content : SigV3 → List ℕ
v3_content k = k.version ∷ (v3_front k ++ (k.lbits ++ material_content k.material))

-- The signature that the first 17 bytes show.
abbrev pub v3_begun : SigV3 → Signature
v3_begun k = record zeroed {
  version = k.version;
  type = k.type;
  palg = k.palg;
  halg = k.halg;
  hashed_data = k.type ∷ store32be k.creation_time;
  creation_time = k.creation_time;
  signer = k.signer;
}

abbrev pub v3_signature : SigV3 → Signature
v3_signature k = record (v3_begun k) { lbits = k.lbits; material = k.material }

v3_fields-front :
    (k : SigV3)
    → length k.signer ≡ 8
    → k.creation_time < 2 ^ 32
    → v3_fields (record zeroed { version = k.version }) (v3_front k) ≡ v3_begun k
unfolding v3_fields store32be
v3_fields-front k size small =
    simp
      (
        take-append_exact 8 k.signer (k.palg ∷ k.halg ∷ []) size,
        read_uint32-store32be k.creation_time (k.signer ++ (k.palg ∷ k.halg ∷ [])) small,
        get_or-append_exact 8 k.signer (k.halg ∷ []) k.palg 0 size,
        last,
      )
      refl
  where
    last : get_or (k.signer ++ (k.palg ∷ k.halg ∷ [])) 9 0 ≡ k.halg
    last = rw (← append_assoc k.signer (k.palg ∷ []) (k.halg ∷ [])) (
        get_or-append_exact 9 (k.signer ++ (k.palg ∷ [])) [] k.halg 0
          (omega (arith, size, length-append {0} k.signer (k.palg ∷ []))))

pub length-v3_front : (k : SigV3) → length k.signer ≡ 8 → length (v3_front k) ≡ 16
unfolding store32be
length-v3_front k size = omega (arith, size, length-append {0} k.signer (k.palg ∷ k.halg ∷ []))

module _ {S : Type 0} (ops : SourceOps S) (pending : S → List ℕ) (IsReady : S → Type 0)
    (source : IsSource ops pending IsReady) (memory : (n : ℕ) → ops.alloc n ≡ true) where
  pub read_version-v3 :
      (k : SigV3) (len : ℕ) (more : List ℕ) (r : ℕ) (s : S)
      → IsSigV3 k
      → 16 ≤ len
      → At ops pending IsReady s (v3_front k ++ more) r
      → Gives ops pending IsReady
          (read_version ops (record zeroed { version = k.version }) len s)
          (v3_begun k)
          more
          (r + 16)
  unfolding read_version signature_read_v3
  read_version-v3 k len more r s v room h =
      simp (older k.version v.known, le→ltb len 16 room)
        (bind-Gives ops pending IsReady _ _
          (or_fail-Gives ops pending IsReady read_error (
            read_front-Hits ops pending IsReady source 16 (v3_front k) more
              (length-v3_front k v.id_size) h))
          (λ s1 h1.
            simp (memory 5)
              (s1, ap (λ sig. done sig s1) (v3_fields-front k v.id_size v.time_size), h1)))
    where
      older :
          (version : ℕ) → (version ≡ 2) ⊎ (version ≡ 3) → ((version == 2) || (version == 3)) ≡ true
      older version known = ground arith

  -- `stream_parse_signature` reads the packet of a version 2 or 3 signature: it gives all fields, the
  -- hashed data, the left bits and the numbers, and leaves what follows the packet. The algorithm is
  -- one that the reader knows (RSA, DSA, Elgamal encrypt-or-sign, EdDSA, ECDSA, SM2, ECDH), the
  -- numbers have 1 to 2048 bytes and no leading zeros, the time is below 2^32, the signer has 8
  -- bytes, there are two left bits, and the allocations succeed.
  pub stream_parse_signature-v3 :
      (k : SigV3) (rest : List ℕ) (r : ℕ) (s : S)
      → IsSigV3 k
      → At ops pending IsReady s (packet sig_tag (v3_content k) ++ rest) r
      → Gives ops pending IsReady
          (stream_parse_signature ops s)
          (v3_signature k)
          rest
          (r + length (packet sig_tag (v3_content k)))
  unfolding stream_parse_signature
  stream_parse_signature-v3 k rest r s v h =
      bind-Gives ops pending IsReady _ _
        (or_fail-Gives ops pending IsReady read_error (
          packet-Hits ops pending IsReady source sig_tag n (v3_content k) rest r s (omega arith)
            size (omega (arith, bounds)) h))
        (λ s1 h1. rw (le→ltb n 1 (omega arith)) (
          subst (λ m. Gives ops pending IsReady (signature_of_len ops n s1) (v3_signature k) rest m)
            total
            (signature_of_len-Gives ops pending IsReady source k.version (v3_front k) k.lbits
              k.material (v3_begun k) n rest (r + header_size n) s1 (omega (arith, front))
              (omega (arith, bounds)) v.fits v.two_bytes
              (λ s2 more h2.
                subst
                  (λ m.
                    Gives ops pending IsReady
                      (read_version ops (record zeroed { version = k.version }) (n - 1) s2)
                      (v3_begun k) more (r + header_size n + 1 + m))
                  (sym front)
                  (read_version-v3 k (n - 1) more (r + header_size n + 1) s2 v (omega arith) h2))
              (subst (λ l. At ops pending IsReady s1 (k.version ∷ l) (r + header_size n)) parts
                h1))))
    where
      n : ℕ
      n = 19 + length (material_content k.material)

      front : length (v3_front k) ≡ 16
      front = length-v3_front k v.id_size

      parts :
          (v3_front k ++ (k.lbits ++ material_content k.material)) ++ rest
          ≡ v3_front k ++ (k.lbits ++ (material_content k.material ++ rest))
      parts =
          append_assoc (v3_front k) (k.lbits ++ material_content k.material) rest
          ∙ ap (λ l. v3_front k ++ l) (append_assoc k.lbits (material_content k.material) rest)

      bounds : n < 2 ^ 32
      bounds = omega (arith, material-length k.palg k.material v.fits)

      size : length (v3_content k) ≡ n
      size = omega (
        arith,
        v.two_bytes,
        front,
        length-append {0} (v3_front k) (k.lbits ++ material_content k.material),
        length-append {0} k.lbits (material_content k.material),
      )

      total : r + header_size n + n ≡ r + length (packet sig_tag (v3_content k))
      total =
          omega (arith, length-packet sig_tag (v3_content k), ap (λ m. header_size m) size, size)
