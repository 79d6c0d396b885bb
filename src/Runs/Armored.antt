-- ===== src/Runs/Armored.antt =====
-- Armored messages.
use rnp.Prelude.{ℕ, ◌≤◌, ◌≡◌, refl, true, false, none, some, arith}
use rnp.Prelude.{List, [], ◌∷◌, ◌++◌, length, append-nil, append_assoc}
use rnp.Errors.{success, write_error}
use rnp.Stream.Source.{Source}
use rnp.Stream.Source.Reader.{pending}
use rnp.Armor.Convert.{rnp_armor_source}
use rnp.Armor.Convert.Whole.{rnp_armor_source-armored, rnp_armor_source-success}
use rnp.Stream.Memory.{MemParam, mem_src_read, init_mem_src, mem_rest, mem_src_read-IsReader}
use rnp.Stream.Memory.{init_mem_src_lem}
use rnp.Stream.Dest.{Dest, dst_write, dst_finish}
use rnp.Stream.Dest.Given.{write_each}
use rnp.Stream.Dest.Write.{IsOpen, accepted}
use rnp.Stream.Dest.Memory.Writes.{joined}
use rnp.Armor.Dest.{ArmoredDest, message, Lines, codes, armor_message_header, eol_of}
use rnp.Armor.Dest.{
  encbuf_size, line_rounds, init_armored_dst, armored_dst_write, armored_dst_finish,
}
use rnp.Armor.Dest.Rounds.{IsLines}
use rnp.Armor.Dest.Room.{line_rounds-room}
use rnp.Armor.Dest.Format.{IsHash, armored}
use rnp.Armor.Dest.Message.{dst_finish-armored}
use rnp.Armor.Reference.{body}
use rnp.Armor.Source.{ArmoredSource, padding, scan_block, decode_groups, decode_last, last_group}
use rnp.Armor.Source.Decode.{pads, scan_block-body}
use rnp.Armor.Source.Read.{armored_src_read}
use rnp.Armor.Source.Read.Endless.{armored_src_read-none}
use rnp.Runs.{memory, log_write, empty_log, empty_log-IsOpen, log-IsDest}

-- A hash that keeps all that is added, and a checksum of it that is always the same.
abbrev log_add : List ℕ → List ℕ → List ℕ
log_add log bytes = log ++ bytes

abbrev log_sum : List ℕ → List ℕ
log_sum log = 1 ∷ 2 ∷ 3 ∷ []

log-IsHash : IsHash log_add log_sum
log-IsHash = record {
  add_none = append-nil;
  add_both = append_assoc;
  three = λ c. (omega arith, omega arith, omega arith);
}

abbrev begin_line : List ℕ
begin_line = codes "-----BEGIN PGP " ++ (codes "MESSAGE" ++ codes "-----")

abbrev end_line : List ℕ
end_line = codes "-----END PGP " ++ (codes "MESSAGE" ++ codes "-----")

abbrev bufs : List (List ℕ)
bufs = (1 ∷ []) ∷ (2 ∷ 3 ∷ 255 ∷ []) ∷ []

dst_finish-armored_example :
    let below = dst_write log_write in
    let given = accepted (λ log. log) in
    let write = armored_dst_write below log_add in
    (dst : Dest (ArmoredDest (Dest (List ℕ)) (List ℕ))) × (end : Dest
      (ArmoredDest (Dest (List ℕ)) (List ℕ)))
    × (init_armored_dst below (some []) (codes "rnp") empty_log message ≡ (success, some dst))
    × (dst_finish write
          (some (armored_dst_finish below log_sum (λ d. d.werr)))
          (write_each write bufs dst)
        ≡ (end.param.writedst.werr, end))
    × (given end.param.writedst
        ≡ given empty_log
          ++ armored begin_line
              (codes "rnp")
              (joined bufs)
              (log_sum (log_add [] (joined bufs)))
              end_line)
unfolding armor_message_header joined
dst_finish-armored_example =
    dst_finish-armored (dst_write log_write) (accepted (λ log. log)) (IsOpen (λ log. log))
      log-IsDest log_add log_sum log-IsHash (λ d. d.werr) [] (codes "rnp") empty_log message
      begin_line end_line bufs refl refl (omega arith) empty_log-IsOpen

-- A state of the loop with four bytes to encode.
abbrev four_bytes : Lines (Dest (List ℕ)) (List ℕ)
four_bytes = record {
  param = record {
    writedst = empty_log;
    type = message;
    usecrlf = true;
    lout = 72;
    llen = 76;
    tail = [];
    crc_ctx = [];
  };
  encbuf = 65 ∷ [];
  buf = 1 ∷ 2 ∷ 3 ∷ 4 ∷ [];
}

four_bytes-IsLines :
    IsLines
      (dst_write log_write)
      (accepted (λ log. log))
      (IsOpen (λ log. log))
      log-IsDest
      four_bytes
four_bytes-IsLines = record {
  line = refl;
  aligned = omega arith;
  column = omega arith;
  is_open = empty_log-IsOpen;
  bytes = omega arith;
}

line_rounds-room_example :
    length (line_rounds (dst_write log_write) 4 four_bytes).encbuf ≤ encbuf_size
line_rounds-room_example =
    line_rounds-room (dst_write log_write) (accepted (λ log. log)) (IsOpen (λ log. log)) log-IsDest
      4 four_bytes four_bytes-IsLines (omega arith)

scan_block-body_example :
    (dec : List ℕ) × (pos : ℕ) × (scan_block
        (body (eol_of true) (1 ∷ 2 ∷ 3 ∷ 255 ∷ []) ++ (61 ∷ 65 ∷ []))
        []
        0
      ≡ padding dec pos)
    × (decode_groups dec ++ decode_last (last_group dec) (pads (1 ∷ 2 ∷ 3 ∷ 255 ∷ []))
        ≡ 1 ∷ 2 ∷ 3 ∷ 255 ∷ [])
scan_block-body_example = scan_block-body true (1 ∷ 2 ∷ 3 ∷ 255 ∷ []) (65 ∷ []) (omega arith)

-- A source whose armor broke off behind two digits.
abbrev broken_off : ArmoredSource MemParam (List ℕ)
broken_off = record {
  readsrc = init_mem_src [];
  type = message;
  armorhdr = codes "BEGIN PGP MESSAGE";
  version = none;
  comment = none;
  hash = none;
  charset = none;
  rest = [];
  restpos = 0;
  brest = 1 ∷ 2 ∷ [];
  eofb64 = false;
  readcrc = [];
  crc_ctx = [];
}

armored_src_read-none_example :
    armored_src_read mem_src_read memory
      (λ c. 255)
      log_add
      (λ c. some (log_sum c))
      1000
      broken_off
      16
    ≡ none
unfolding init_mem_src
armored_src_read-none_example =
    armored_src_read-none mem_src_read mem_rest mem_src_read-IsReader memory (λ c. 255) log_add
      (λ c. some (log_sum c)) broken_off 16 1000 (init_mem_src_lem [] (omega arith)).1 refl
      (omega arith) refl (omega arith) (omega arith)

abbrev to_armor : List ℕ
to_armor = 1 ∷ 2 ∷ 3 ∷ 255 ∷ []

rnp_armor_source-armored_example :
    let given = accepted (λ log. log) in
    (after : Source MemParam) × (d' : Dest (List ℕ)) × (rnp_armor_source
        (dst_write log_write)
        (λ d. d.werr)
        log_add
        log_sum
        mem_src_read
        5
        (some [])
        (codes "rnp")
        (init_mem_src to_armor)
        empty_log
        message
      ≡ some (success, after, d'))
    × (pending mem_rest after ≡ [])
    × (given d'
        ≡ given empty_log
          ++ armored begin_line (codes "rnp") to_armor (log_sum (log_add [] to_armor)) end_line)
unfolding armor_message_header init_mem_src
rnp_armor_source-armored_example =
    rnp_armor_source-armored mem_src_read mem_rest mem_src_read-IsReader (dst_write log_write)
      (accepted (λ log. log)) (IsOpen (λ log. log)) log-IsDest log_add log_sum log-IsHash
      (λ d. d.werr) [] (codes "rnp") (init_mem_src to_armor) empty_log message begin_line end_line 5
      refl refl (init_mem_src_lem to_armor (omega arith)).1 (omega arith) empty_log-IsOpen
      (omega arith)

-- A destination that keeps nothing of what is written to it.
rnp_armor_source-success_example :
    (after : Source MemParam) × (d' : List ℕ) × (rnp_armor_source
        (λ d bytes. d)
        (λ d. write_error)
        log_add
        log_sum
        mem_src_read
        5
        (some [])
        (codes "rnp")
        (init_mem_src to_armor)
        []
        message
      ≡ some (success, after, d'))
unfolding armor_message_header init_mem_src
rnp_armor_source-success_example =
    rnp_armor_source-success mem_src_read mem_rest mem_src_read-IsReader (λ d bytes. d) log_add
      log_sum (λ d. write_error) [] (codes "rnp") (init_mem_src to_armor) [] message begin_line 5
      refl (init_mem_src_lem to_armor (omega arith)).1 (omega arith)
