-- ===== src/Packet/OnePass/RoundTrip.antt =====
-- One-pass signature packets are read back as they were written.
use rnp.Prelude.{ℕ, ◌+◌, ◌≤◌, ◌<◌, ◌≡◌, ap, arith, List, [], ◌∷◌}
use rnp.Prelude.{◌++◌, length, get_or, ◌==◌, if◌then◌else◌, length-append}
use rnp.Prelude.{take-append_exact, get_or-append_exact, eq→==, Bool, true}
use rnp.Errors.{read_error, done}
use rnp.Packet.Input.{SourceOps, IsSource, At, Gives}
use rnp.Packet.Input.Rules.{bind-Gives, or_fail-Gives, read_front-Hits}
use rnp.Packet.Body.Build.{add_small-Holds, Holds, bind-Holds, init-Holds, add-Holds, packet}
use rnp.Packet.Body.Build.{IsDest, Sends, flush-Sends}
use rnp.Packet.Body.Read.{packet-Hits, length-packet, header_size}
use mathlib.Core.Path.{subst}
use rnp.Packet.OnePass.{OnePassSig, one_pass_tag, one_pass_body, stream_write_one_pass}
use rnp.Packet.OnePass.Parse.{one_pass_fields, stream_parse_one_pass}

-- The values that a one-pass packet can show.
pub record IsOnePass (p : OnePassSig) : Type 0 where
  pub is_v3 : p.version ≡ 3
  pub type_byte : p.type < 256
  pub halg_byte : p.halg < 256
  pub palg_byte : p.palg < 256
  pub id_size : length p.keyid ≡ 8
  pub flag : p.nested ≤ 1

abbrev pub one_pass_content : OnePassSig → List ℕ
one_pass_content p = p.version ∷ p.type ∷ p.halg ∷ p.palg ∷ (p.keyid ++ (p.nested ∷ []))

one_pass_body-Holds :
    (alloc : ℕ → Bool) (p : OnePassSig)
    → ((n : ℕ) → alloc n ≡ true)
    → IsOnePass p
    → Holds (one_pass_body alloc p) one_pass_tag (one_pass_content p)
unfolding one_pass_body
one_pass_body-Holds alloc p memory v =
    bind-Holds _ _ (init-Holds alloc memory one_pass_tag) λ b t c.
      bind-Holds _ _ (add_small-Holds alloc memory b p.version (omega (arith, v.is_v3)) t c)
        λ b t c. bind-Holds _ _ (add_small-Holds alloc memory b p.type v.type_byte t c) λ b t c.
          bind-Holds _ _ (add_small-Holds alloc memory b p.halg v.halg_byte t c) λ b t c.
            bind-Holds _ _ (add_small-Holds alloc memory b p.palg v.palg_byte t c) λ b t c.
              bind-Holds _ _ (add-Holds alloc memory b p.keyid t c)
                λ b t c. add_small-Holds alloc memory b p.nested (omega (arith, v.flag)) t c

one_pass_fields_lem :
    {S : Type 0} (p : OnePassSig) (s : S)
    → IsOnePass p
    → one_pass_fields (one_pass_content p) s ≡ done p s
unfolding one_pass_fields
one_pass_fields_lem p s v =
    simp (eq→== p.version 3 v.is_v3, take-append_exact 8 p.keyid (p.nested ∷ []) v.id_size, flag)
  where
    flag : (if get_or (p.keyid ++ (p.nested ∷ [])) 8 0 == 0 then 0 else 1) ≡ p.nested
    flag = rw (get_or-append_exact 8 p.keyid [] p.nested 0 v.id_size) (ground (arith, v.flag))

length-one_pass_content : (p : OnePassSig) → IsOnePass p → length (one_pass_content p) ≡ 13
length-one_pass_content p v = omega (arith, v.id_size, length-append {0} p.keyid (p.nested ∷ []))

module _ {S : Type 0} (ops : SourceOps S) (pending : S → List ℕ) (IsReady : S → Type 0)
    (source : IsSource ops pending IsReady) where
  -- `stream_parse_one_pass` reads back the packet of a one-pass signature, and leaves what follows.
  pub stream_parse_one_pass-packet :
      (p : OnePassSig) (rest : List ℕ) (r : ℕ) (s : S)
      → IsOnePass p
      → At ops pending IsReady s (packet one_pass_tag (one_pass_content p) ++ rest) r
      → Gives ops pending IsReady
          (stream_parse_one_pass ops s)
          p
          rest
          (r + length (packet one_pass_tag (one_pass_content p)))
  unfolding stream_parse_one_pass
  stream_parse_one_pass-packet p rest r s v h =
      let size = length-one_pass_content p v in
      bind-Gives ops pending IsReady _ _
        (or_fail-Gives ops pending IsReady read_error (
          packet-Hits ops pending IsReady source one_pass_tag 13 (one_pass_content p) rest r s
            (omega arith) size (omega arith) h))
        (λ s1 h1.
          bind-Gives ops pending IsReady _ _
            (or_fail-Gives ops pending IsReady read_error
              (read_front-Hits ops pending IsReady source 13 (one_pass_content p) rest size h1))
            (λ s2 h2. (
              s2,
              one_pass_fields_lem p s2 v,
              subst (λ k. At ops pending IsReady s2 rest k)
                  (omega (
                    arith,
                    size,
                    length-packet one_pass_tag (one_pass_content p),
                    ap (λ n. header_size n) size,
                  ))
                  h2,
            )))

-- `stream_write_one_pass` sends the packet of the signature, if the allocations succeed.
pub stream_write_one_pass-Sends :
    {D : Type 0} (dst_write : D → List ℕ → D) (sent : D → List ℕ) (IsOpen : D → Type 0)
    → IsDest dst_write sent IsOpen
    → (alloc : ℕ → Bool) (p : OnePassSig) (d : D) → ((n : ℕ) → alloc n ≡ true)
    → IsOnePass p
    → IsOpen d
    → Sends sent IsOpen d
        (packet one_pass_tag (one_pass_content p))
        (stream_write_one_pass dst_write alloc p d)
unfolding stream_write_one_pass
stream_write_one_pass-Sends dst_write sent IsOpen dest alloc p d memory v h =
    flush-Sends dst_write sent IsOpen dest (one_pass_body alloc p) one_pass_tag (one_pass_content p)
      d (omega arith) (one_pass_body-Holds alloc p memory v) h
