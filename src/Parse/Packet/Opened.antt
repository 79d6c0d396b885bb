-- ===== src/Parse/Packet/Opened.antt =====
-- What `init_packet_params` of src/librepgp/stream-parse.c makes of a packet's header.
use rnp.Prelude.{ℕ, ◌+◌, ◌-◌, ◌/◌, ◌%◌, ◌<◌, ◌^◌, bit_and, ◌≡◌, refl, sym, ap, ◌∙◌, inl, inr, arith}
use rnp.Prelude.{Bool, true, false, ◌&&◌, Option, List, [], ◌∷◌, ◌++◌, length, ltb, leb, ◌==◌}
use rnp.Prelude.{Bool-cases, append_assoc, ltb→lt, ltb→le, if◌then◌else◌}
use mathlib.Core.Path.{subst}
use rnp.Errors.{minus_one, returned, Parsed, done}
use rnp.Stream.Source.{Source, init_src}
use rnp.Packet.Input.{SourceOps, IsSource, At}
use rnp.Packet.Length.{always_set, write_packet_len, stream_pkt_hdr_len, hdr_len, store32be}
use rnp.Packet.Length.RoundTrip.{
  write_packet_len_short, write_packet_len_middle, write_packet_len_long, stream_read_pkt_len-write,
}
use rnp.Parse.Partial.{PartialSource}
use rnp.Parse.Partial.Next.{in_part_header}
use rnp.Parse.Partial.Init.{partial_peeks, indeterminate_peeks, init_partial_pkt_src-Reads}
use rnp.Parse.Partial.Read.{Reads}
use rnp.Parse.Packet.{whole, parts, PacketSource, counted, init_packet_params}
use rnp.Parse.Packet.{open_partial, open_whole}
use rnp.Write.Partial.Parts.{Parts, last, more}

module _ {S : Type 0} (ops : SourceOps S) (pending : S → List ℕ) (IsReady : S → Type 0)
    (source : IsSource ops pending IsReady) where
  -- The header is understood or not: nothing is taken.
  hdr_len_peeks :
      (a b : ℕ) (xs : List ℕ) (r : ℕ) (s : S)
      → At ops pending IsReady s (a ∷ b ∷ xs) r
      → (n : Option ℕ) × (s' : S) × (counted (stream_pkt_hdr_len ops s) ≡ (n, s'))
        × At ops pending IsReady s' (a ∷ b ∷ xs) r
  unfolding stream_pkt_hdr_len counted
  hdr_len_peeks a b xs r s h =
      let (s', e, h') = source.peek_law s 2 (a ∷ b ∷ xs) r (omega arith) h in
      rw (e, stream_pkt_hdr_len) (go s' h' (bit_and a always_set == 0))
    where
      go :
          (s' : S)
          → At ops pending IsReady s' (a ∷ b ∷ xs) r
          → (bad : Bool)
          → (n : Option ℕ) × (t : S) × (counted
                (if bad then minus_one s' else returned (hdr_len a b) s')
              ≡ (n, t))
            × At ops pending IsReady t (a ∷ b ∷ xs) r
      go s' h' true = (_, s', refl, h')
      go s' h' false = (_, s', refl, h')

  -- What a packet's source gives: the body in parts, with memory for their source, or as it lies in
  -- the source below, with its length.
  pub data Opened (content rest : List ℕ) : Parsed S (PacketSource S) → Type 0 where
    in_parts :
        (p : PacketSource S) (src : Source (PartialSource S)) (s : S)
        → p.readsrc ≡ parts src
        → p.partial ≡ true
        → src ≡ init_src src.param false 0
        → Reads ops pending IsReady source src.param content rest
        → Opened content rest (done p s)
    in_whole :
        (p : PacketSource S) (r : ℕ) (s : S)
        → p.readsrc ≡ whole s
        → p.partial ≡ false
        → p.indeterminate ≡ false
        → p.len ≡ length content
        → length content < 2 ^ 32
        → At ops pending IsReady s (content ++ rest) r
        → Opened content rest (done p s)

  open_partial-Opened :
      (tag k : ℕ) (part wire after rest : List ℕ) (r : ℕ) (s : S)
      → tag < 64
      → k < 31
      → length part ≡ 2 ^ k
      → Parts wire after
      → At ops pending IsReady s ((tag + 192) ∷ (k + 224) ∷ (part ++ (wire ++ rest))) r
      → Opened (part ++ after) rest (init_packet_params ops true true s)
  unfolding init_packet_params open_partial
  open_partial-Opened tag k part wire after rest r s small size len w h =
      let (n, s1, e1, h1) = hdr_len_peeks (tag + 192) (k + 224) _ r s h in
      let (s2, e2, h2) = partial_peeks ops pending IsReady source tag (k + 224) _ r s1 small h1 in
      let (src, s3, e3, new, h3) =
        init_partial_pkt_src-Reads ops pending IsReady source tag k part wire after rest r s2 small
          size len w h2 in
      rw (e1, e2, in_part_header k size, e3) (in_parts _ src s3 refl refl new h3)

  -- A length in full.
  open_whole-Opened :
      (tag b : ℕ) (xs content rest : List ℕ) (r : ℕ) (s : S)
      → tag < 64
      → length content < 2 ^ 32
      → write_packet_len (length content) ≡ b ∷ xs
      → (leb 224 b && ltb b 255) ≡ false
      → At ops pending IsReady s ((tag + 192) ∷ b ∷ (xs ++ (content ++ rest))) r
      → Opened content rest (init_packet_params ops true true s)
  unfolding init_packet_params open_whole
  open_whole-Opened tag b xs content rest r s small fits w full h =
      let (n, s1, e1, h1) = hdr_len_peeks (tag + 192) b _ r s h in
      let (s2, e2, h2) = partial_peeks ops pending IsReady source tag b _ r s1 small h1 in
      let (s3, e3, h3) = indeterminate_peeks ops pending IsReady source tag _ r s2 small h2 in
      let (s4, e4, h4) =
        stream_read_pkt_len-write ops pending IsReady source tag (length content) (content ++ rest)
          r s3 small fits (rw w h3) in
      rw (e1, e2, full, e3) (rw (e4, open_whole) (in_whole _ _ s4 refl refl refl refl fits h4))

  -- The first byte of a length in full is no header of a part.
  full_first :
      (n : ℕ)
      → (b : ℕ) × (xs : List ℕ) × (write_packet_len n ≡ b ∷ xs) × ((leb 224 b && ltb b 255) ≡ false)
  full_first n = elim (Bool-cases (ltb n 192)) [
    | inl short ↦ (n, [], write_packet_len_short n (ltb→lt _ _ short), ground arith)
    | inr not_short ↦ elim (Bool-cases (ltb n 8384)) [
      | inl middle ↦ (
        (n - 192) / 256 + 192,
        ((n - 192) % 256) ∷ [],
        write_packet_len_middle n (ltb→le _ _ not_short) (ltb→lt _ _ middle),
        ground arith,
      )
      | inr long ↦ (0xff, store32be n, write_packet_len_long n (ltb→le _ _ long), ground arith)
    ]
  ]

  -- `init_packet_params` opens a packet of the format of partial lengths, whatever its parts: its
  -- body is in parts, or it is all in the last part, and then the packet is one with a length in
  -- full. The allocations succeed.
  pub init_packet_params-Opened :
      (tag : ℕ) (wire content rest : List ℕ) (r : ℕ) (s : S)
      → tag < 64
      → Parts wire content
      → At ops pending IsReady s ((tag + 192) ∷ (wire ++ rest)) r
      → Opened content rest (init_packet_params ops true true s)
  init_packet_params-Opened tag wire content rest r s small (last fits f) h =
      let (b, xs, w, full) = full_first (length content) in
      open_whole-Opened tag b xs content rest r s small fits w full (
        subst (λ l. At ops pending IsReady s ((tag + 192) ∷ l) r)
          (ap (λ l. l ++ rest) (f ∙ ap (λ l. l ++ content) w)
            ∙ ap (λ l. b ∷ l) (append_assoc xs content rest))
          h)
  init_packet_params-Opened tag wire content rest r s small (more k part wire' after size len w f g)
        h =
      subst (λ l. Opened l rest (init_packet_params ops true true s)) (sym g)
        (open_partial-Opened tag k part wire' after rest r s small size len w (
          subst (λ l. At ops pending IsReady s ((tag + 192) ∷ l) r)
            (ap (λ l. l ++ rest) f ∙ ap (λ l. (k + 224) ∷ l) (append_assoc part wire' rest)) h))
