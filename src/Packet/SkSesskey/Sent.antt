-- ===== src/Packet/SkSesskey/Sent.antt =====
-- What `stream_write_sk_sesskey` sends.
use rnp.Prelude.{ℕ, ◌≡◌, refl, sym, ◌∙◌, inl, inr, Bool, true, arith}
use rnp.Prelude.{List, [], ◌∷◌, ◌++◌, length, ltb}
use rnp.Prelude.{append-nil, eq→==, ne→==, Bool-cases, length-eq-zero}
use rnp.Packet.Body.{Body}
use rnp.Packet.Body.Build.{Holds, bind-Holds, init-Holds, add-Holds, add_small-Holds, packet}
use rnp.Packet.Body.Build.{IsDest, Sends, flush-Sends}
use rnp.Packet.SkSesskey.{SkSesskey, sk_tag, add_s2k, add_enckey}
use rnp.Packet.SkSesskey.{sk_body, stream_write_sk_sesskey}
use rnp.Packet.SkSesskey.Content.{IsSkSesskey, s2k_content, sk_content}

module _ (alloc : ℕ → Bool) (memory : (n : ℕ) → alloc n ≡ true) where
  sk_body-Holds : (k : SkSesskey) → IsSkSesskey k → Holds (sk_body alloc k) sk_tag (sk_content k)
  unfolding sk_body
  sk_body-Holds k v = bind-Holds _ _ (init-Holds alloc memory sk_tag) λ b t c.
      bind-Holds _ _ (add_small-Holds alloc memory b k.version (omega (arith, v.is_v4)) t c)
        λ b t c. bind-Holds _ _ (add_small-Holds alloc memory b k.alg v.alg_byte t c) λ b t c.
          bind-Holds _ _ (add_small-Holds alloc memory b k.specifier (omega (arith, v.known)) t c)
            λ b t c.
              bind-Holds _ _ (add_small-Holds alloc memory b k.hash_alg v.hash_byte t c)
                λ b t c. bind-Holds _ _ (s2k b t c) λ b t c. key b t c
    where
      front : List ℕ
      front = k.version ∷ k.alg ∷ k.specifier ∷ k.hash_alg ∷ []

      s2k :
          (b : Body)
          → b.tag ≡ sk_tag
          → b.content ≡ front
          → Holds (add_s2k alloc k b) sk_tag (front ++ s2k_content k)
      s2k b t c = elim v.known [
        | inl e ↦
            simp (ne→== k.specifier 1 (omega arith), ne→== k.specifier 3 (omega arith))
              (b, refl, t, c)
        | inr (inl e) ↦ simp (eq→== k.specifier 1 e) (add-Holds alloc memory b k.salt t c)
        | inr (inr e) ↦
            simp (ne→== k.specifier 1 (omega arith), eq→== k.specifier 3 e)
              (bind-Holds _ _ (add-Holds alloc memory b k.salt t c)
                (λ b t c. add_small-Holds alloc memory b k.iterations v.iterations_byte t c))
      ]

      key :
          (b : Body)
          → b.tag ≡ sk_tag
          → b.content ≡ front ++ s2k_content k
          → Holds (add_enckey alloc k b) sk_tag (sk_content k)
      key b t c = elim (Bool-cases (ltb 0 (length k.enckey))) [
        | inl some_key ↦ simp some_key (add-Holds alloc memory b k.enckey t c)
        | inr no_key ↦
            let none : k.enckey ≡ [] = length-eq-zero k.enckey (ground arith) in
            simp no_key (b, refl, t, c ∙ sym (rw none (append-nil (front ++ s2k_content k))))
      ]

-- `stream_write_sk_sesskey` sends the packet of a version 4 session key, if the allocations succeed.
pub stream_write_sk_sesskey-Sends :
    {D : Type 0} (dst_write : D → List ℕ → D) (sent : D → List ℕ) (IsOpen : D → Type 0)
    → IsDest dst_write sent IsOpen
    → (alloc : ℕ → Bool) (k : SkSesskey) (d : D) → ((n : ℕ) → alloc n ≡ true)
    → IsSkSesskey k
    → IsOpen d
    → Sends sent IsOpen d
        (packet sk_tag (sk_content k))
        (stream_write_sk_sesskey dst_write alloc k d)
unfolding stream_write_sk_sesskey
stream_write_sk_sesskey-Sends dst_write sent IsOpen dest alloc k d memory v h =
    flush-Sends dst_write sent IsOpen dest (sk_body alloc k) sk_tag (sk_content k) d (omega arith)
      (sk_body-Holds alloc memory k v) h
