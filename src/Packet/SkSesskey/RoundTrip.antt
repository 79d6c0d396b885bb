-- ===== src/Packet/SkSesskey/RoundTrip.antt =====
-- Symmetric-key encrypted session keys are read back as they were written.
use rnp.Prelude.{ℕ, ◌+◌, ◌-◌, ◌≤◌, ◌≡◌, refl, ap, inl, inr, arith}
use rnp.Prelude.{List, [], ◌∷◌, ◌++◌, length, ◌==◌, if◌then◌else◌}
use rnp.Prelude.{append_assoc, length-append, le→ltb, lt→ltb, eq→==, ne→==}
use mathlib.Core.Path.{subst}
use rnp.Errors.{read_error}
use rnp.Packet.Input.{SourceOps, IsSource, At, Gives}
use rnp.Packet.Input.Rules.{bind-Gives, or_fail-Gives, read_front-Hits}
use rnp.Packet.Body.Build.{packet}
use rnp.Packet.Body.Read.{packet-Hits, length-packet, header_size}
use rnp.Packet.SkSesskey.{SkSesskey, sk_tag, simple, salted, iterated_and_salted}
use rnp.Packet.SkSesskey.Parse.{max_esk, read_esk, read_iterations, read_salt, read_s2k}
use rnp.Packet.SkSesskey.Parse.{read_sk_fields, sk_of_len, stream_parse_sk_sesskey}
use rnp.Packet.SkSesskey.Content.{IsSkSesskey, s2k_content, sk_content}

-- What the reader ends with that began with `init`: a field that the packet does not show is kept.
abbrev pub received : SkSesskey → SkSesskey → SkSesskey
received init k = record k {
  salt = if k.specifier == simple then init.salt else k.salt;
  iterations = if k.specifier == iterated_and_salted then k.iterations else init.iterations;
}

module _ {S : Type 0} (ops : SourceOps S) (pending : S → List ℕ) (IsReady : S → Type 0)
    (source : IsSource ops pending IsReady) where
  read_esk-Gives :
      (k : SkSesskey) (key rest : List ℕ) (r : ℕ) (s : S)
      → length key ≤ max_esk
      → At ops pending IsReady s (key ++ rest) r
      → Gives ops pending IsReady
          (read_esk ops (length key) k s)
          (record k { enckey = key })
          rest
          (r + length key)
  unfolding read_esk
  read_esk-Gives k [] rest r s fits h =
      (s, refl, subst (λ n. At ops pending IsReady s rest n) (omega arith) h)
  read_esk-Gives k (b ∷ bs) rest r s fits h =
      rw (lt→ltb 0 (length (b ∷ bs)) (omega arith), le→ltb max_esk (length (b ∷ bs)) fits)
        (bind-Gives ops pending IsReady _ _
          (or_fail-Gives ops pending IsReady read_error
            (read_front-Hits ops pending IsReady source (length (b ∷ bs)) (b ∷ bs) rest refl h))
          (λ s' h'. (s', refl, h')))

  read_iterations-Gives :
      (k : SkSesskey) (n : ℕ) (key rest : List ℕ) (r : ℕ) (s : S)
      → k.specifier ≡ iterated_and_salted
      → length key ≤ max_esk
      → At ops pending IsReady s (n ∷ (key ++ rest)) r
      → Gives ops pending IsReady
          (read_iterations ops (length key + 1) k s)
          (record k { iterations = n; enckey = key })
          rest
          (r + 1 + length key)
  unfolding read_iterations
  read_iterations-Gives k n key rest r s e fits h =
      rw (eq→== k.specifier 3 e, le→ltb (length key + 1) 1 (omega arith), one_less)
        (bind-Gives ops pending IsReady _ _
          (or_fail-Gives ops pending IsReady read_error
            (read_front-Hits ops pending IsReady source 1 (n ∷ []) (key ++ rest) refl h))
          (λ s' h'. read_esk-Gives (record k { iterations = n }) key rest (r + 1) s' fits h'))
    where
      one_less : length key + 1 - 1 ≡ length key
      one_less = omega arith

  -- The salt and what comes behind it, of `n` bytes.
  read_salt-Gives :
      (k k' : SkSesskey) (n : ℕ) (salt more rest : List ℕ) (r r' : ℕ) (s : S)
      → length salt ≡ 8
      → At ops pending IsReady s (salt ++ (more ++ rest)) r
      → ((s' : S)
          → At ops pending IsReady s' (more ++ rest) (r + 8)
          → Gives ops pending IsReady
              (read_iterations ops n (record k { salt = salt }) s')
              k'
              rest
              r')
      → Gives ops pending IsReady (read_salt ops (8 + n) k s) k' rest r'
  unfolding read_salt
  read_salt-Gives k k' n salt more rest r r' s size h next =
      rw (le→ltb (8 + n) 8 (omega arith), left_over)
        (bind-Gives ops pending IsReady _ _
          (or_fail-Gives ops pending IsReady read_error
            (read_front-Hits ops pending IsReady source 8 salt (more ++ rest) size h))
          next)
    where
      left_over : 8 + n - 8 ≡ n
      left_over = omega arith

  -- The structure once the first four bytes of the body are read.
  abbrev begun : SkSesskey → SkSesskey → SkSesskey
  begun init k = record init {
    version = k.version;
    alg = k.alg;
    specifier = k.specifier;
    hash_alg = k.hash_alg;
  }

  abbrev ReadsS2k : SkSesskey → SkSesskey → List ℕ → ℕ → S → Type 0
  ReadsS2k init k rest r s =
      Gives ops pending IsReady (read_s2k ops (length (s2k_content k ++ k.enckey)) (begun init k) s)
        (received init k) rest (r + length (s2k_content k ++ k.enckey))

  read_simple :
      (init k : SkSesskey) (rest : List ℕ) (r : ℕ) (s : S)
      → IsSkSesskey k
      → k.specifier ≡ simple
      → At ops pending IsReady s ((s2k_content k ++ k.enckey) ++ rest) r
      → ReadsS2k init k rest r s
  unfolding read_s2k
  read_simple init k rest r s v e h =
      let t0 = eq→== k.specifier 0 e in
      let t1 = ne→== k.specifier 1 (omega arith) in
      let t3 = ne→== k.specifier 3 (omega arith) in
      simp (t0, t1, t3)
        (read_esk-Gives (begun init k) k.enckey rest r s v.key_size (simp (t1, t3) at h))

  read_salted :
      (init k : SkSesskey) (rest : List ℕ) (r : ℕ) (s : S)
      → IsSkSesskey k
      → k.specifier ≡ salted
      → At ops pending IsReady s ((s2k_content k ++ k.enckey) ++ rest) r
      → ReadsS2k init k rest r s
  unfolding read_s2k read_iterations
  read_salted init k rest r s v e h =
      let t0 = ne→== k.specifier 0 (omega arith) in
      let t1 = eq→== k.specifier 1 e in
      let t3 = ne→== k.specifier 3 (omega arith) in
      let size : length (k.salt ++ k.enckey) ≡ 8 + length k.enckey =
        omega (arith, length-append {0} k.salt k.enckey, v.salt_size) in
      let total : r + 8 + length k.enckey ≡ r + (8 + length k.enckey) = omega arith in
      simp (t0, t1, t3, size)
        (rw (← total) (
          read_salt-Gives (begun init k) (record k { iterations = init.iterations })
            (length k.enckey) k.salt k.enckey rest r (r + 8 + length k.enckey) s v.salt_size
            (simp (t1, append_assoc) at h)
            (λ s' h'. rw t3 (
              read_esk-Gives (record (begun init k) { salt = k.salt }) k.enckey rest (r + 8) s'
                v.key_size h'))))

  read_iterated :
      (init k : SkSesskey) (rest : List ℕ) (r : ℕ) (s : S)
      → IsSkSesskey k
      → k.specifier ≡ iterated_and_salted
      → At ops pending IsReady s ((s2k_content k ++ k.enckey) ++ rest) r
      → ReadsS2k init k rest r s
  unfolding read_s2k
  read_iterated init k rest r s v e h =
      let t0 = ne→== k.specifier 0 (omega arith) in
      let t1 = ne→== k.specifier 1 (omega arith) in
      let t3 = eq→== k.specifier 3 e in
      let size : length (k.salt ++ (k.iterations ∷ k.enckey)) ≡ 8 + (length k.enckey + 1) =
        omega (arith, length-append {0} k.salt (k.iterations ∷ k.enckey), v.salt_size) in
      let total : r + 8 + 1 + length k.enckey ≡ r + (8 + (length k.enckey + 1)) = omega arith in
      simp (t0, t1, t3, append_assoc, size)
        (rw (← total) (
          read_salt-Gives (begun init k) k (length k.enckey + 1) k.salt (k.iterations ∷ k.enckey)
            rest r (r + 8 + 1 + length k.enckey) s v.salt_size (simp (t1, t3, append_assoc) at h)
            (λ s' h'.
              read_iterations-Gives (record (begun init k) { salt = k.salt }) k.iterations k.enckey
                rest (r + 8) s' e v.key_size h')))

  read_s2k-Gives :
      (init k : SkSesskey) (rest : List ℕ) (r : ℕ) (s : S)
      → IsSkSesskey k
      → At ops pending IsReady s ((s2k_content k ++ k.enckey) ++ rest) r
      → ReadsS2k init k rest r s
  read_s2k-Gives init k rest r s v h = elim v.known [
    | inl e ↦ read_simple init k rest r s v e h
    | inr (inl e) ↦ read_salted init k rest r s v e h
    | inr (inr e) ↦ read_iterated init k rest r s v e h
  ]

  -- `stream_parse_sk_sesskey` reads back the packet of a version 4 session key with any of the
  -- three specifiers and an encrypted key of up to 33 bytes, keeps the fields that the packet does
  -- not show as they were, and leaves what follows the packet.
  pub stream_parse_sk_sesskey-packet :
      (init k : SkSesskey) (rest : List ℕ) (r : ℕ) (s : S)
      → IsSkSesskey k
      → At ops pending IsReady s (packet sk_tag (sk_content k) ++ rest) r
      → Gives ops pending IsReady
          (stream_parse_sk_sesskey ops init s)
          (received init k)
          rest
          (r + length (packet sk_tag (sk_content k)))
  unfolding stream_parse_sk_sesskey sk_of_len read_sk_fields
  stream_parse_sk_sesskey-packet init k rest r s v h =
      bind-Gives ops pending IsReady _ _
        (or_fail-Gives ops pending IsReady read_error (
          packet-Hits ops pending IsReady source sk_tag (4 + n) (sk_content k) rest r s
            (omega arith) size (omega (arith, small)) h))
        (λ s1 h1. rw (le→ltb (4 + n) 4 (omega arith)) (
          bind-Gives ops pending IsReady _ _
            (or_fail-Gives ops pending IsReady read_error (
              read_front-Hits ops pending IsReady source 4
                (k.version ∷ k.alg ∷ k.specifier ∷ k.hash_alg ∷ []) (tail ++ rest) refl h1))
            (λ s2 h2.
              rw (eq→== k.version 4 v.is_v4, four_less)
                (subst
                  (λ m.
                    Gives ops pending IsReady (read_s2k ops n (begun init k) s2) (received init k)
                      rest m)
                  total (read_s2k-Gives init k rest (r + header_size (4 + n) + 4) s2 v h2)))))
    where
      tail : List ℕ
      tail = s2k_content k ++ k.enckey

      n : ℕ
      n = length (s2k_content k ++ k.enckey)

      size : length (sk_content k) ≡ 4 + n
      size = omega arith

      four_less : 4 + n - 4 ≡ n
      four_less = omega arith

      s2k_size : length (s2k_content k) ≤ 9
      s2k_size = ground (arith, v.salt_size, length-append k.salt (k.iterations ∷ []))

      small : n ≤ 42
      small = omega (arith, length-append {0} (s2k_content k) k.enckey, s2k_size, v.key_size)

      total : r + header_size (4 + n) + 4 + n ≡ r + length (packet sk_tag (sk_content k))
      total = omega (arith, length-packet sk_tag (sk_content k), ap (λ m. header_size m) size, size)
