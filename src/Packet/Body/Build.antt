-- ===== src/Packet/Body/Build.antt =====
-- What a packet body holds while it is built, and what is written of it.
use rnp.Prelude.{ℕ, ◌+◌, ◌*◌, ◌<◌, ◌≡◌, refl, ap, ◌∙◌}
use rnp.Prelude.{inl, inr, Bool, true, Option, some, arith, List, [], ◌∷◌, ◌++◌, length}
use rnp.Prelude.{ltb, Bool-cases, append_assoc}
use rnp.Prelude.Bits.{bit_or_c0}
use mathlib.Core.Path.{subst}
use rnp.Packet.Length.{write_packet_len}
use rnp.Packet.Body.{Body, ◌>>=◌, u8, skip_zeros, mpi_header, body_header}
use rnp.Packet.Body.{init_packet_body, add_packet_body, add_packet_body_byte, add_packet_body_mpi}
use rnp.Packet.Body.{flush_or_free}

pub u8_byte : (b : ℕ) → b < 256 → u8 b ≡ b
u8_byte b h = omega arith

-- `o` is a body with this tag and these bytes.
abbrev pub Holds : Option Body → ℕ → List ℕ → Type 0
Holds o tag bytes = (b : Body) × (o ≡ some b) × (b.tag ≡ tag) × (b.content ≡ bytes)

pub bind-Holds :
    (m : Option Body) (f : Body → Option Body) {tag : ℕ} {xs ys : List ℕ}
    → Holds m tag xs
    → ((b : Body) → b.tag ≡ tag → b.content ≡ xs → Holds (f b) tag ys)
    → Holds (m >>= f) tag ys
unfolding ◌>>=◌
bind-Holds m f (b, e, t, c) next =
    let (b', e', t', c') = next b t c in (b', rw (e, ◌>>=◌) e', t', c')

module _ (alloc : ℕ → Bool) (memory : (n : ℕ) → alloc n ≡ true) where
  pub init-Holds : (tag : ℕ) → Holds (init_packet_body alloc tag) tag []
  unfolding init_packet_body
  init-Holds tag = (record { tag = tag; content = []; allocated = 16 }, rw (memory 16), refl, refl)

  pub add-Holds :
      {tag : ℕ} {xs : List ℕ} (b : Body) (bytes : List ℕ)
      → b.tag ≡ tag
      → b.content ≡ xs
      → Holds (add_packet_body alloc b bytes) tag (xs ++ bytes)
  unfolding add_packet_body
  add-Holds b bytes t c =
      let newlen = (length b.content + length bytes) * 2 in
      elim (Bool-cases (ltb b.allocated (length b.content + length bytes))) [
        | inl grows ↦ (
          record b { content = b.content ++ bytes; allocated = newlen },
          simp (grows, memory newlen),
          t,
          ap (λ l. l ++ bytes) c,
        )
        | inr fits ↦
            (record b { content = b.content ++ bytes }, simp fits, t, ap (λ l. l ++ bytes) c)
      ]

  pub add_byte-Holds :
      {tag : ℕ} {xs : List ℕ} (b : Body) (byte : ℕ)
      → b.tag ≡ tag
      → b.content ≡ xs
      → Holds (add_packet_body_byte alloc b byte) tag (xs ++ (u8 byte ∷ []))
  unfolding add_packet_body_byte
  add_byte-Holds b byte t c = elim (Bool-cases (ltb (length b.content) b.allocated)) [
    | inl room ↦ (
      record b { content = b.content ++ (u8 byte ∷ []) },
      simp room,
      t,
      ap (λ l. l ++ (u8 byte ∷ [])) c,
    )
    | inr full ↦ simp full (add-Holds b (u8 byte ∷ []) t c)
  ]

  pub add_small-Holds :
      {tag : ℕ} {xs : List ℕ} (b : Body) (byte : ℕ)
      → byte < 256
      → b.tag ≡ tag
      → b.content ≡ xs
      → Holds (add_packet_body_byte alloc b byte) tag (xs ++ (byte ∷ []))
  add_small-Holds {tag} {xs} b byte small t c =
      subst (λ k. Holds (add_packet_body_byte alloc b byte) tag (xs ++ (k ∷ [])))
        (u8_byte byte small) (add_byte-Holds b byte t c)

  -- An MPI is written as its bit count and its bytes, without the leading zeros.
  pub add_mpi-Holds :
      {tag : ℕ} {xs : List ℕ} (b : Body) (mpi : List ℕ)
      → b.tag ≡ tag
      → b.content ≡ xs
      → Holds
          (add_packet_body_mpi alloc b mpi)
          tag
          (xs ++ (mpi_header (skip_zeros mpi) ++ skip_zeros mpi))
  unfolding add_packet_body_mpi
  add_mpi-Holds {xs = xs} b mpi t c =
      rw (← append_assoc xs (mpi_header (skip_zeros mpi)) (skip_zeros mpi)) (
        bind-Holds _ _ (add-Holds b (mpi_header (skip_zeros mpi)) t c)
          (λ b' t' c'. add-Holds b' (skip_zeros mpi) t' c'))

-- The bytes of a packet in the new format.
abbrev pub packet : ℕ → List ℕ → List ℕ
packet tag content = (tag + 192) ∷ (write_packet_len (length content) ++ content)

-- The bytes of a packet, the header apart.
pub packet-append :
    (tag : ℕ) (content rest : List ℕ)
    → packet tag content ++ rest
      ≡ (tag + 192) ∷ (write_packet_len (length content) ++ (content ++ rest))
packet-append tag content rest =
    ap (λ l. (tag + 192) ∷ l) (append_assoc (write_packet_len (length content)) content rest)

body_header_lem :
    (b : Body) → b.tag < 64 → body_header b ≡ (b.tag + 192) ∷ write_packet_len (length b.content)
unfolding body_header
body_header_lem b small =
    rw (bit_or_c0 b.tag small) (ap (λ t. t ∷ write_packet_len (length b.content)) (omega arith))

-- What the packet code relies on in `dst_write`: while the destination is open, the bytes are
-- added to those sent.
pub record IsDest {D : Type 0} (dst_write : D → List ℕ → D) (sent : D → List ℕ)
    (IsOpen : D → Type 0) : Type 0 where
  pub write_law :
      (d : D) (bytes : List ℕ)
      → IsOpen d
      → (sent (dst_write d bytes) ≡ sent d ++ bytes) × IsOpen (dst_write d bytes)

-- `r` is `true` and a destination to which `bytes` were sent.
abbrev pub Sends : {D : Type 0} → (D → List ℕ) → (D → Type 0) → D → List ℕ → Bool × D → Type 0
Sends sent IsOpen d bytes r = (r.0 ≡ true) × (sent r.1 ≡ sent d ++ bytes) × IsOpen r.1

module _ {D : Type 0} (dst_write : D → List ℕ → D) (sent : D → List ℕ) (IsOpen : D → Type 0)
    (dest : IsDest dst_write sent IsOpen) where
  -- A body that was built is sent as a packet.
  pub flush-Sends :
      (o : Option Body) (tag : ℕ) (bytes : List ℕ) (d : D)
      → tag < 64
      → Holds o tag bytes
      → IsOpen d
      → Sends sent IsOpen d (packet tag bytes) (flush_or_free dst_write o d)
  unfolding flush_or_free
  flush-Sends o tag bytes d small (b, e, t, c) h =
      let (e1, h1) = dest.write_law d (body_header b) h in
      let (e2, h2) = dest.write_law (dst_write d (body_header b)) b.content h1 in
      let header = body_header_lem b (omega (arith, t)) in
      rw (e, flush_or_free) (refl, e2 ∙ rw (e1, append_assoc, header, t, c), h2)
