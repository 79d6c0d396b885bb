-- ===== src/Parse/Packet.antt =====
-- The header of a streamed packet, of src/librepgp/stream-parse.c: whether it has a length in full,
-- partial lengths, or no length.
pub mod Opened
use rnp.Prelude.{ℕ, Bool, true, false, Option, none, some, if◌then◌else◌}
use rnp.Errors.{bad_format, out_of_memory, Attempt, minus_one, returned, Parsed, fail, done}
use rnp.Stream.Source.{Source}
use rnp.Packet.Input.{SourceOps}
use rnp.Packet.Length.{stream_pkt_hdr_len, stream_read_pkt_len}
use rnp.Parse.Partial.{PartialSource, stream_partial_pkt_len, stream_indeterminate_pkt_len}
use rnp.Parse.Partial.{init_partial_pkt_src}

-- `readsrc` of a packet: the source that it was found in, or one for its parts above that source,
-- which is `origsrc` then.
pub data ReadSource (S : Type 0) : Type 0 where
  whole : S → ReadSource S
  parts : Source (PartialSource S) → ReadSource S

-- `pgp_source_packet_param_t`; a header that is not understood has the length -1, here `none`.
pub record PacketSource (S : Type 0) : Type 0 where
  pub readsrc : ReadSource S
  pub partial : Bool
  pub indeterminate : Bool
  pub hdrlen : Option ℕ
  pub len : ℕ

pub counted : {S : Type 0} → Attempt S ℕ → Option ℕ × S
counted (minus_one s) = (none, s)
counted (returned n s) = (some n, s)

abbrev pub params : {S : Type 0} → ReadSource S → Bool → Bool → Option ℕ → ℕ → PacketSource S
params readsrc partial indeterminate hdrlen len = record {
  readsrc = readsrc;
  partial = partial;
  indeterminate = indeterminate;
  hdrlen = hdrlen;
  len = len;
}

module _ {S : Type 0} (ops : SourceOps S) where
  pub open_partial : Option ℕ → Parsed S (Source (PartialSource S)) → Parsed S (PacketSource S)
  open_partial hdrlen (fail e s) = fail e s
  open_partial hdrlen (done src s) = done (params (parts src) true false hdrlen 0) s

  pub open_whole : Option ℕ → S → Parsed S (PacketSource S)
  open_whole hdrlen s = elim (stream_read_pkt_len ops s) [
    | minus_one s' ↦ fail bad_format s'
    | returned len s' ↦ done (params (whole s') false false hdrlen len) s'
  ]

  -- `init_packet_params`. `calloc` says whether the source for the parts is allocated, and `memory`
  -- whether `init_src_common` finds memory for its parameters.
  pub init_packet_params : Bool → Bool → S → Parsed S (PacketSource S)
  unfolding counted open_partial open_whole
  init_packet_params calloc memory readsrc =
      let (hdrlen, s) = counted (stream_pkt_hdr_len ops readsrc) in
      let (is_partial, s1) = stream_partial_pkt_len ops s in
      let (is_indeterminate, s2) = stream_indeterminate_pkt_len ops s1 in
      if is_partial
      then (if calloc
          then open_partial hdrlen (init_partial_pkt_src ops memory s1)
          else fail out_of_memory s1)
      else if is_indeterminate
      then (let (_, s3) = counted (ops.skip s2 1) in
          done (params (whole s3) false true hdrlen 0) s3)
      else open_whole hdrlen s2
