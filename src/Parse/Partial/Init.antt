-- ===== src/Parse/Partial/Init.antt =====
-- The first header of a packet of partial lengths, for src/librepgp/stream-parse.c.
use rnp.Prelude.{ℕ, ◌+◌, ◌<◌, ◌^◌, bit_and, ◌≡◌, refl, sym, ◌∙◌, arith, true, false, ◌&&◌}
use rnp.Prelude.{List, [], ◌∷◌, ◌++◌, length, ltb, leb, ◌==◌}
use rnp.Prelude.Bits.{bit_and_40}
use rnp.Errors.{done}
use rnp.Stream.Source.{Source, init_src}
use rnp.Packet.Input.{SourceOps, IsSource, At}
use rnp.Packet.Length.{new_format}
use rnp.Parse.Partial.{PartialSource, stream_partial_pkt_len, stream_indeterminate_pkt_len}
use rnp.Parse.Partial.{init_partial_pkt_src, first_part}
use rnp.Parse.Partial.Next.{get_part_len_lem, in_part_header}
use rnp.Parse.Partial.Read.{Reads, in_part}
use rnp.Write.Partial.Parts.{Parts}

is_new : (tag : ℕ) → tag < 64 → (bit_and (tag + 192) new_format == 0) ≡ false
is_new tag h = ground (arith, bit_and_40 (tag + 192))

module _ {S : Type 0} (ops : SourceOps S) (pending : S → List ℕ) (IsReady : S → Type 0)
    (source : IsSource ops pending IsReady) where
  pub partial_peeks :
      (tag b : ℕ) (xs : List ℕ) (r : ℕ) (s : S)
      → tag < 64
      → At ops pending IsReady s ((tag + 192) ∷ b ∷ xs) r
      → (s' : S) × (stream_partial_pkt_len ops s ≡ (leb 224 b && ltb b 255, s'))
        × At ops pending IsReady s' ((tag + 192) ∷ b ∷ xs) r
  unfolding stream_partial_pkt_len
  partial_peeks tag b xs r s small h =
      let (s', e, h') = source.peek_law s 2 ((tag + 192) ∷ b ∷ xs) r (omega arith) h in
      (s', rw (e, stream_partial_pkt_len) (simp (is_new tag small)), h')

  pub indeterminate_peeks :
      (tag : ℕ) (xs : List ℕ) (r : ℕ) (s : S)
      → tag < 64
      → At ops pending IsReady s ((tag + 192) ∷ xs) r
      → (s' : S) × (stream_indeterminate_pkt_len ops s ≡ (false, s'))
        × At ops pending IsReady s' ((tag + 192) ∷ xs) r
  unfolding stream_indeterminate_pkt_len
  indeterminate_peeks tag xs r s small h =
      let (s', e, h') = source.peek_law s 1 ((tag + 192) ∷ xs) r (omega arith) h in
      (s', rw (e, stream_indeterminate_pkt_len) (simp (is_new tag small)), h')

  -- A source for the body whose first part the header names; `memory` is found.
  pub init_partial_pkt_src-Reads :
      (tag k : ℕ) (part wire after rest : List ℕ) (r : ℕ) (s : S)
      → tag < 64
      → k < 31
      → length part ≡ 2 ^ k
      → Parts wire after
      → At ops pending IsReady s ((tag + 192) ∷ (k + 224) ∷ (part ++ (wire ++ rest))) r
      → (src : Source (PartialSource S)) × (s' : S) × (init_partial_pkt_src ops true s
          ≡ done src s')
        × (src ≡ init_src src.param false 0)
        × Reads ops pending IsReady source src.param (part ++ after) rest
  unfolding init_partial_pkt_src init_src
  init_partial_pkt_src-Reads tag k part wire after rest r s small size len w h =
      let (s1, e1, h1) = partial_peeks tag (k + 224) (part ++ (wire ++ rest)) r s small h in
      let (s2, e2, h2) = source.read_law s1 2 _ r h1 in
      (
        init_src (first_part ops s2 ((tag + 192) ∷ (k + 224) ∷ [])) false 0,
        s2,
        rw (e1, in_part_header k size, e2) refl,
        refl,
        in_part (r + 2) part wire after refl (len ∙ sym (get_part_len_lem k size)) w refl h2,
      )
