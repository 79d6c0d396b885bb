-- ===== src/Parse/Literal/Made.antt =====
-- What `init_literal_src` of src/librepgp/stream-parse.c makes of a literal packet.
use rnp.Prelude.{
  ℕ, ◌+◌, ◌<◌, ◌^◌, ◌≡◌, refl, sym, true, false, inl, inr, not, ◌&&◌, arith, Bool, Bool-cases,
}
use rnp.Prelude.{List, [], ◌∷◌, ◌++◌, length}
use rnp.Prelude.{length-append}
use mathlib.Core.Path.{subst}
use rnp.Errors.{Parsed, done}
use rnp.Stream.Source.{Source, init_src, sub64}
use rnp.Packet.Input.{SourceOps, IsSource, At}
use rnp.Packet.Length.{store32be}
use rnp.Packet.Length.RoundTrip.{length-store32be}
use rnp.Parse.Partial.Cached.{Streams, init_src-Streams}
use rnp.Parse.Packet.{ReadSource, PacketSource}
use rnp.Parse.Packet.Opened.{Opened, in_parts, in_whole, init_packet_params-Opened}
use rnp.Parse.Literal.{LiteralSource, literal_source, literal_of}
use rnp.Parse.Literal.{literal_fields, init_literal_src}
use rnp.Write.Partial.Parts.{Parts}
use rnp.Write.Literal.Made.{fields}
use rnp.Parse.Literal.Fields.{HasBody, in_source, in_stream, literal_fields-Reaches}

and_not : (a b : Bool) → b ≡ true → (not a && not b) ≡ false
and_not a b h = ground arith

-- The size of the data is what the fields leave of the body.
data_size :
    (len : ℕ) (name bytes : List ℕ) (time : ℕ)
    → len ≡ length (fields name time ++ bytes)
    → length (fields name time ++ bytes) < 2 ^ 32
    → sub64 len (1 + 1 + length name + 4) ≡ length bytes
data_size len name bytes time e small = omega (
  arith,
  length-append {0} (fields name time) bytes,
  length-append {0} ((98 ∷ length name ∷ []) ++ name) (store32be time),
  length-append {0} (98 ∷ length name ∷ []) name,
  length-store32be time,
)

module _ {S : Type 0} (ops : SourceOps S) (pending : S → List ℕ) (IsReady : S → Type 0)
    (source : IsSource ops pending IsReady) (behind : List ℕ) where
  -- What is known of the size of a packet with the body `content`.
  record Sized (content : List ℕ) (pkt : PacketSource S) : Type 0 where
    definite : pkt.partial ≡ false → pkt.indeterminate ≡ false
    size : pkt.partial ≡ false → pkt.len ≡ length content
    fits : pkt.partial ≡ false → length content < 2 ^ 32

  -- A source for literal data: its fields, and what it has to deliver. Its size is known where the
  -- packet is not in parts, and it is the number of the bytes then.
  pub record Literal (name bytes : List ℕ) (time : ℕ) (src : Source (LiteralSource S))
      : Type 0 where
    pub binary : src.param.text ≡ false
    pub named : src.param.filename ≡ name
    pub timed : src.param.timestamp ≡ time
    pub body : HasBody ops pending IsReady source behind bytes src.param.pkt.readsrc
    pub known : src.knownsize ≡ not src.param.pkt.partial
    pub size : src.knownsize ≡ true → src.size ≡ length bytes

  literal_source-Literal :
      (pkt : PacketSource S) (name bytes : List ℕ) (time : ℕ) (r : ReadSource S)
      → HasBody ops pending IsReady source behind bytes r
      → Sized (fields name time ++ bytes) pkt
      → Literal name bytes time (literal_source pkt (false, name, time) r)
  unfolding literal_source init_src
  literal_source-Literal pkt name bytes time r h sized = elim (Bool-cases pkt.partial) [
    | inl split ↦
        rw (literal_source, and_not pkt.indeterminate pkt.partial split)
          (record {
            binary = refl;
            named = refl;
            timed = refl;
            body = h;
            known = rw split refl;
            size = λ e. cc;
          })
    | inr entire ↦
        rw (literal_source, sized.definite entire, entire)
          (record {
            binary = refl;
            named = refl;
            timed = refl;
            body = h;
            known = refl;
            size = λ e. data_size pkt.len name bytes time (sized.size entire) (sized.fits entire);
          })
  ]

  literal_of-Literal :
      (pkt : PacketSource S) (name bytes : List ℕ) (time : ℕ)
      → time < 2 ^ 32
      → HasBody ops pending IsReady source behind (fields name time ++ bytes) pkt.readsrc
      → Sized (fields name time ++ bytes) pkt
      → (src : Source (LiteralSource S)) × (literal_of pkt (literal_fields ops pkt.readsrc)
          ≡ inr src)
        × Literal name bytes time src
  unfolding literal_of
  literal_of-Literal pkt name bytes time small h sized =
      let (r, e, h') =
        literal_fields-Reaches ops pending IsReady source behind name bytes time pkt.readsrc small
          h in
      (
        literal_source pkt (false, name, time) r,
        rw e refl,
        literal_source-Literal pkt name bytes time r h' sized,
      )

  Opened-HasBody :
      (p : Parsed S (PacketSource S)) (content : List ℕ)
      → Opened ops pending IsReady source content behind p
      → (pkt : PacketSource S) × (s : S) × (p ≡ done pkt s)
        × HasBody ops pending IsReady source behind content pkt.readsrc
        × Sized content pkt
  Opened-HasBody _ content (in_parts pkt src s e partial new h) = (
    pkt,
    s,
    refl,
    subst (λ r. HasBody ops pending IsReady source behind content r) (sym e)
        (in_stream src (
          subst (λ x. Streams ops pending IsReady source behind x content) (sym new)
            (init_src-Streams ops pending IsReady source behind src.param content h))),
    record { definite = λ f. cc; size = λ f. cc; fits = λ f. cc },
  )
  Opened-HasBody _ content (in_whole pkt k s e _ definite size fits h) = (
    pkt,
    s,
    refl,
    subst (λ r. HasBody ops pending IsReady source behind content r) (sym e) (in_source k s h),
    record { definite = λ f. definite; size = λ f. size; fits = λ f. fits },
  )

  -- Over a source that keeps its laws: `init_literal_src` reads the fields of a literal packet of the
  -- format of partial lengths, whatever its parts, and gives a source that has exactly the data to
  -- deliver, whose size is known where the packet is not in parts. The allocations succeed.
  pub init_literal_src-Literal :
      (wire name bytes : List ℕ) (time r : ℕ) (s : S)
      → Parts wire (fields name time ++ bytes)
      → time < 2 ^ 32
      → At ops pending IsReady s (203 ∷ (wire ++ behind)) r
      → (src : Source (LiteralSource S)) × (init_literal_src ops true true true s ≡ inr src)
        × Literal name bytes time src
  unfolding init_literal_src
  init_literal_src-Literal wire name bytes time r s format small h =
      let opened =
        init_packet_params-Opened ops pending IsReady source 11 wire (fields name time ++ bytes)
          behind r s (omega arith) format h in
      let (pkt, s', e, body, sized) = Opened-HasBody _ _ opened in
      let (src, made, l) = literal_of-Literal pkt name bytes time small body sized in
      (src, rw (e, init_literal_src) made, l)
