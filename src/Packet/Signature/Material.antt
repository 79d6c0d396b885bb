-- ===== src/Packet/Signature/Material.antt =====
-- The left bits and the numbers at the end of a signature packet, and how they are read.
use rnp.Prelude.{ℕ, ◌+◌, ◌-◌, ◌^◌, ◌≤◌, ◌<◌, ◌≡◌, refl, ◌∙◌, ◌⊎◌, inr, arith, true, ◌||◌, ◌≢◌}
use rnp.Prelude.{List, [], ◌∷◌, ◌++◌, length, ◌==◌, append_assoc, length-append}
use rnp.Prelude.{le→ltb, eq→==, ne→==}
use mathlib.Core.Path.{subst}
use rnp.Errors.{read_error, bad_format, Parsed}
use rnp.Stream.Source.{u64, sub64}
use rnp.Packet.Alg
use rnp.Packet.Input.{SourceOps, IsSource, At, Gives, ◌>>=◌}
use rnp.Packet.Input.Rules.{bind-Gives, or_fail-Gives, read_front-Hits}
use rnp.Packet.PkSesskey.Content.{IsMpi, mpi_content, length-mpi_content, mpi-Hits}
use rnp.Packet.Signature.{
  Signature, zeroed, SigMaterial, no_material, rsa_sig, dsa_sig, ecc_sig, eg_sig,
}
use rnp.Packet.Signature.Parse.{read_sig_mpi, read_two, read_material, read_left_bits, skip_rest}
use rnp.Packet.Signature.Parse.{read_version, signature_of_len}

-- The numbers that the reader takes for an algorithm.
abbrev pub FitsSig : ℕ → SigMaterial → Type 0
FitsSig alg no_material = ⊥
FitsSig alg (rsa_sig t) = (alg ≡ Alg.rsa) × IsMpi t
FitsSig alg (dsa_sig r t) = (alg ≡ Alg.dsa) × IsMpi r × IsMpi t
FitsSig alg (ecc_sig r t) =
    ((alg ≡ Alg.eddsa) ⊎ (alg ≡ Alg.ecdsa) ⊎ (alg ≡ Alg.sm2) ⊎ (alg ≡ Alg.ecdh)) × IsMpi r × IsMpi t
FitsSig alg (eg_sig r t) = (alg ≡ Alg.elgamal_encrypt_or_sign) × IsMpi r × IsMpi t

abbrev pub material_content : SigMaterial → List ℕ
material_content no_material = []
material_content (rsa_sig t) = mpi_content t
material_content (dsa_sig r t) = mpi_content r ++ mpi_content t
material_content (ecc_sig r t) = mpi_content r ++ mpi_content t
material_content (eg_sig r t) = mpi_content r ++ mpi_content t

ecc_test :
    (alg : ℕ)
    → (alg ≡ Alg.eddsa) ⊎ (alg ≡ Alg.ecdsa) ⊎ (alg ≡ Alg.sm2) ⊎ (alg ≡ Alg.ecdh)
    → ((alg == 22) || (alg == 19) || (alg == 99) || (alg == 18)) ≡ true
ecc_test alg known = ground arith

-- Reading `k` bytes takes them off what is left of a packet.
pub sub64-advance :
    (pktend r k : ℕ)
    → k ≤ sub64 pktend (u64 r)
    → sub64 pktend (u64 (r + k)) ≡ sub64 pktend (u64 r) - k
sub64-advance pktend r k le = omega arith

module _ {S : Type 0} (ops : SourceOps S) (pending : S → List ℕ) (IsReady : S → Type 0)
    (source : IsSource ops pending IsReady) where
  read_sig_mpi-Gives :
      (pktend : ℕ) (m rest : List ℕ) (r : ℕ) (s : S)
      → IsMpi m
      → length m + 2 ≤ sub64 pktend (u64 r)
      → At ops pending IsReady s (mpi_content m ++ rest) r
      → Gives ops pending IsReady (read_sig_mpi ops pktend s) m rest (r + (2 + length m))
  unfolding read_sig_mpi
  read_sig_mpi-Gives pktend m rest r s v room h = rw h.counts (
      or_fail-Gives ops pending IsReady bad_format
        (mpi-Hits ops pending IsReady source (sub64 pktend (u64 r)) m rest r s v (inr room) h))

  read_two-Gives :
      (material : List ℕ → List ℕ → SigMaterial) (pktend : ℕ) (sig : Signature)
      → (a b rest : List ℕ) (r : ℕ) (s : S) → IsMpi a
      → IsMpi b
      → sub64 pktend (u64 r) ≡ length (mpi_content a ++ mpi_content b)
      → At ops pending IsReady s ((mpi_content a ++ mpi_content b) ++ rest) r
      → Gives ops pending IsReady
          (read_two ops material pktend sig s)
          (record sig { material = material a b })
          rest
          (r + length (mpi_content a ++ mpi_content b))
  unfolding read_two
  read_two-Gives material pktend sig a b rest r s va vb left h =
      bind-Gives ops pending IsReady _ _
        (read_sig_mpi-Gives pktend a (mpi_content b ++ rest) r s va (omega (arith, left, size))
          (rw append_assoc at h))
        (λ s1 h1.
          bind-Gives ops pending IsReady _ _
            (read_sig_mpi-Gives pktend b rest (r + (2 + length a)) s1 vb
              (omega (
                arith,
                left,
                size,
                sub64-advance pktend r (2 + length a) (omega (arith, left, size)),
              ))
              h1)
            (λ s2 h2.
              (s2, refl, subst (λ n. At ops pending IsReady s2 rest n) (omega (arith, size)) h2)))
    where
      size : length (mpi_content a ++ mpi_content b) ≡ 2 + length a + (2 + length b)
      size = omega (
        arith,
        length-append {0} (mpi_content a) (mpi_content b),
        length-mpi_content a,
        length-mpi_content b,
      )

  -- The numbers are read for the algorithm that they fit.
  read_material-Gives :
      (p : SigMaterial) (pktend : ℕ) (sig : Signature) (rest : List ℕ) (r : ℕ) (s : S)
      → FitsSig sig.palg p
      → sub64 pktend (u64 r) ≡ length (material_content p)
      → At ops pending IsReady s (material_content p ++ rest) r
      → Gives ops pending IsReady
          (read_material ops pktend sig s)
          (record sig { material = p })
          rest
          (r + length (material_content p))
  unfolding read_material
  read_material-Gives no_material pktend sig rest r s v left h = absurd v
  read_material-Gives (rsa_sig t) pktend sig rest r s v left h = simp (eq→== sig.palg 1 v.0) (
      bind-Gives ops pending IsReady _ _
        (read_sig_mpi-Gives pktend t rest r s v.1 (omega (arith, left, length-mpi_content t)) h)
        (λ s1 h1. (
          s1,
          refl,
          subst (λ n. At ops pending IsReady s1 rest n) (omega (arith, length-mpi_content t)) h1,
        )))
  read_material-Gives (dsa_sig a b) pktend sig rest r s v left h =
      simp (ne→== sig.palg 1 (omega (arith, v.0)), eq→== sig.palg 17 v.0)
        (read_two-Gives dsa_sig pktend sig a b rest r s v.1 v.2 left h)
  read_material-Gives (ecc_sig a b) pktend sig rest r s v left h =
      simp (ne→== sig.palg 1 other.0, ne→== sig.palg 17 other.1, ecc_test sig.palg v.0)
        (read_two-Gives ecc_sig pktend sig a b rest r s v.1 v.2 left h)
    where
      other : (sig.palg ≢ 1) × (sig.palg ≢ 17)
      other = ground (arith, v.0)
  read_material-Gives (eg_sig a b) pktend sig rest r s v left h =
      simp
        (
          ne→== sig.palg 1 (omega (arith, v.0)),
          ne→== sig.palg 17 (omega (arith, v.0)),
          ne→== sig.palg 22 (omega (arith, v.0)),
          ne→== sig.palg 19 (omega (arith, v.0)),
          ne→== sig.palg 99 (omega (arith, v.0)),
          ne→== sig.palg 18 (omega (arith, v.0)),
          eq→== sig.palg 20 v.0,
        )
        (read_two-Gives eg_sig pktend sig a b rest r s v.1 v.2 left h)

  read_left_bits-Gives :
      (p : SigMaterial) (lbits : List ℕ) (pktend : ℕ) (sig : Signature) (rest : List ℕ)
      → (r : ℕ) (s : S) → FitsSig sig.palg p
      → length lbits ≡ 2
      → sub64 pktend (u64 r) ≡ 2 + length (material_content p)
      → At ops pending IsReady s (lbits ++ (material_content p ++ rest)) r
      → Gives ops pending IsReady
          (read_left_bits ops pktend sig s)
          (record sig { lbits = lbits; material = p })
          rest
          (r + 2 + length (material_content p))
  unfolding read_left_bits
  read_left_bits-Gives p lbits pktend sig rest r s v size left h =
      rw (h.counts, left, le→ltb (2 + length (material_content p)) 2 (omega arith))
        (bind-Gives ops pending IsReady _ _
          (or_fail-Gives ops pending IsReady read_error (
            read_front-Hits ops pending IsReady source 2 lbits (material_content p ++ rest) size h))
          (λ s1 h1.
            read_material-Gives p pktend (record sig { lbits = lbits }) rest (r + 2) s1 v
              (sub64-advance pktend r 2 (omega (arith, left)) ∙ omega (arith, left)) h1))

  pub skip_rest-Gives :
      (pktend : ℕ) {m : Parsed S Signature} {sig : Signature} {xs : List ℕ} {r : ℕ}
      → Gives ops pending IsReady m sig xs r
      → Gives ops pending IsReady (skip_rest ops pktend m) sig xs r
  unfolding skip_rest
  skip_rest-Gives pktend (s, e, h) = (s, rw (e, skip_rest), h)

  -- A signature packet whose version is followed by `body`, that `read_version` makes `sig` of.
  pub signature_of_len-Gives :
      (version : ℕ) (body lbits : List ℕ) (p : SigMaterial) (sig : Signature) (n : ℕ)
      → (rest : List ℕ) (r : ℕ) (s : S) → n ≡ 1 + length body + 2 + length (material_content p)
      → n < 2 ^ 32
      → FitsSig sig.palg p
      → length lbits ≡ 2
      → ((s' : S) (more : List ℕ)
          → At ops pending IsReady s' (body ++ more) (r + 1)
          → Gives ops pending IsReady
              (read_version ops (record zeroed { version = version }) (n - 1) s')
              sig
              more
              (r + 1 + length body))
      → At ops pending IsReady s (version ∷ (body ++ (lbits ++ (material_content p ++ rest)))) r
      → Gives ops pending IsReady
          (signature_of_len ops n s)
          (record sig { lbits = lbits; material = p })
          rest
          (r + n)
  unfolding signature_of_len skip_rest
  signature_of_len-Gives version body lbits p sig n rest r s size small v lsize next h =
      bind-Gives ops pending IsReady _ _
        (or_fail-Gives ops pending IsReady read_error (
          read_front-Hits ops pending IsReady source 1 (version ∷ [])
            (body ++ (lbits ++ (material_content p ++ rest))) refl h))
        (λ s1 h1.
          subst
            (λ k.
              Gives ops pending IsReady
                (skip_rest ops (u64 (ops.readb s + n)) (
                  (read_version ops (record zeroed { version = version }) (n - 1)
                      >>= read_left_bits ops (u64 (ops.readb s + n)))
                    s1))
                (record sig { lbits = lbits; material = p }) rest k)
            total
            (skip_rest-Gives (u64 (ops.readb s + n)) (
              bind-Gives ops pending IsReady
                (read_version ops (record zeroed { version = version }) (n - 1))
                (read_left_bits ops (u64 (ops.readb s + n)))
                (next s1 (lbits ++ (material_content p ++ rest)) h1)
                (λ s2 h2.
                  read_left_bits-Gives p lbits (u64 (ops.readb s + n)) sig rest
                    (r + 1 + length body) s2 v lsize left h2))))
    where
      left :
          sub64 (u64 (ops.readb s + n)) (u64 (r + 1 + length body))
          ≡ 2 + length (material_content p)
      left = rw h.counts (omega (arith, size, small))

      total : r + 1 + length body + 2 + length (material_content p) ≡ r + n
      total = omega (arith, size)
