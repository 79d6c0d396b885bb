-- ===== src/Parse/Literal.antt =====
-- The source for literal data of src/librepgp/stream-parse.c. `param` of an initialised source is not
-- NULL, and the flag `eof` of the source for the parts is what `src_read` tests before it calls back.
pub mod Fields
pub mod Made
use rnp.Prelude.{ℕ, ◌+◌, Bool, true, false, not, ◌&&◌, ◌||◌, ◌⊎◌, inl, inr, List, [], ◌∷◌, length}
use rnp.Prelude.{get_or, ltb, ◌==◌, if◌then◌else◌}
use rnp.Errors.{RnpResult, bad_format, out_of_memory, read_error, Attempt, minus_one, returned}
use rnp.Errors.{Parsed, fail, done}
use rnp.Stream.Source.{Source, init_src, src_read, sub64}
use rnp.Packet.Input.{SourceOps, ◌>>=◌}
use rnp.Packet.Length.{read_uint32}
use rnp.Parse.Partial.{partial_pkt_src_read}
use rnp.Parse.Packet.{ReadSource, whole, parts, PacketSource, init_packet_params}

-- `pgp_source_literal_param_t`
pub record LiteralSource (S : Type 0) : Type 0 where
  pub pkt : PacketSource S
  pub text : Bool
  pub filename : List ℕ
  pub timestamp : ℕ

-- "data format"
pub text_of : {S : Type 0} → ℕ → S → Parsed S Bool
text_of bt s =
    if bt == 98
    then done false s
    else if (bt == 116) || (bt == 117) || (bt == 108) || (bt == 49)
    then done true s
    else fail bad_format s

-- The source of a packet with these fields: its size is known where the length is.
pub literal_source :
    {S : Type 0} → PacketSource S → Bool × List ℕ × ℕ → ReadSource S → Source (LiteralSource S)
unfolding init_src
literal_source {S} pkt (text, filename, timestamp) r =
    let param : LiteralSource S = record {
      pkt = record pkt { readsrc = r };
      text = text;
      filename = filename;
      timestamp = timestamp;
    } in
    if not pkt.indeterminate && not pkt.partial
    then init_src param true (sub64 pkt.len (1 + 1 + length filename + 4))
    else init_src param false 0

pub literal_of :
    {S : Type 0}
    → PacketSource S
    → Parsed (ReadSource S) (Bool × List ℕ × ℕ)
    → (RnpResult × ReadSource S) ⊎ Source (LiteralSource S)
unfolding literal_source
literal_of pkt (fail e r) = inl (e, r)
literal_of pkt (done fields r) = inr (literal_source pkt fields r)

module _ {S : Type 0} (ops : SourceOps S) where
  -- `src_read(param->pkt.readsrc, buf, len)`
  pub read_from : ReadSource S → ℕ → Attempt (ReadSource S) (List ℕ)
  read_from (whole s) len = elim (ops.read s len) [
    | minus_one s' ↦ minus_one (whole s')
    | returned buf s' ↦ returned buf (whole s')
  ]
  read_from (parts src) len = elim (src_read (partial_pkt_src_read ops false) src len) [
    | minus_one src' ↦ minus_one (parts src')
    | returned buf src' ↦ returned buf (parts src')
  ]

  -- The `read` callback.
  pub literal_src_read : LiteralSource S → ℕ → Attempt (LiteralSource S) (List ℕ)
  unfolding read_from
  literal_src_read param len = elim (read_from param.pkt.readsrc len) [
    | minus_one r ↦ minus_one (record param { pkt = record (param.pkt) { readsrc = r } })
    | returned buf r ↦ returned buf (record param { pkt = record (param.pkt) { readsrc = r } })
  ]

  -- So many bytes, or an error.
  pub read_bytes : ℕ → ReadSource S → Parsed (ReadSource S) (List ℕ)
  unfolding read_from
  read_bytes len r = elim (read_from r len) [
    | minus_one r' ↦ fail read_error r'
    | returned buf r' ↦ if ltb (length buf) len then fail read_error r' else done buf r'
  ]

  -- "file name"
  pub read_name : ℕ → ReadSource S → Parsed (ReadSource S) (List ℕ)
  unfolding read_bytes
  read_name len r = if len == 0 then done [] r else read_bytes len r

  -- "timestamp"
  pub read_time : Bool → List ℕ → ReadSource S → Parsed (ReadSource S) (Bool × List ℕ × ℕ)
  unfolding read_bytes
  read_time text name = read_bytes 4 >>= λ time. done (text, name, read_uint32 time)

  -- The name behind its length, and the time.
  pub read_named : Bool → ReadSource S → Parsed (ReadSource S) (Bool × List ℕ × ℕ)
  unfolding read_name read_time
  read_named text = read_bytes 1 >>= λ len. read_name (get_or len 0 0) >>= read_time text

  -- The fields in front of the data.
  pub literal_fields : ReadSource S → Parsed (ReadSource S) (Bool × List ℕ × ℕ)
  unfolding read_bytes read_named text_of ◌>>=◌
  literal_fields = read_bytes 1 >>= λ format. text_of (get_or format 0 0) >>= read_named

  -- `init_literal_src`: an error with the source that it left, or the new source. `memory` says
  -- whether `init_src_common` finds memory, and `calloc` and `parts_memory` are those of
  -- `init_packet_params`.
  pub init_literal_src :
      Bool → Bool → Bool → S → (RnpResult × ReadSource S) ⊎ Source (LiteralSource S)
  unfolding literal_of literal_fields
  init_literal_src memory calloc parts_memory readsrc =
      if not memory
      then inl (out_of_memory, whole readsrc)
      else elim (init_packet_params ops calloc parts_memory readsrc) [
        | fail e s ↦ inl (e, whole s)
        | done pkt s ↦ literal_of pkt (literal_fields pkt.readsrc)
      ]
