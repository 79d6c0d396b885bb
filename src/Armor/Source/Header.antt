-- ===== src/Armor/Source/Header.antt =====
-- The header lines of armored data, of src/librepgp/stream-armor.c.
-- `outside` is that of Armor/Source/Lines. The parameters of a new source are zero.
use rnp.Prelude.{ℕ, zero, suc, ◌+◌, ◌-◌, Bool, true, false, not, ◌||◌, Option, none, some}
use rnp.Prelude.{List, [], ◌∷◌, length, take, drop, ltb, ◌==◌, if◌then◌else◌}
use rnp.Errors.{bad_format, generic, out_of_memory}
use rnp.Errors.{Attempt, minus_one, returned, Parsed, fail, done}
use rnp.Stream.Source.{Source, init_src, src_peek, src_skip}
use rnp.Stream.Line.{state, src_skip_eol, src_peek_line}
use rnp.Packet.Length.{get_packet_type}
use rnp.Armor.Dest.{
  ArmoredMsg, unknown, message, public_key, secret_key, signature, cleartext, codes,
}
use rnp.Armor.Source.{ArmoredSource}
use rnp.Armor.Source.Lines.{over, strncmp_eq}

-- The first of the next `n` places from `i` on where five dashes stand.
pub find_dashes : ℕ → ℕ → List ℕ → Option ℕ
find_dashes zero i buf = none
find_dashes (suc n) i buf =
    let rest = find_dashes n (suc i) buf in
    if strncmp_eq 5 (drop i buf) (codes "-----") then some i else rest

-- `find_armor_header` of a buffer of ten bytes at least: where the header begins, and its length.
pub find_armor_header : List ℕ → Option (ℕ × ℕ)
unfolding find_dashes
find_armor_header buf = elim (find_dashes (length buf - 10) 0 buf) [
  | none ↦ none
  | some st ↦ elim (find_dashes (length buf - 4 - (st + 5)) (st + 5) buf) [
    | none ↦ none
    | some i ↦ some (st, i + 5 - st)
  ]
]

pub armor_str_to_data_type : List ℕ → ℕ → ArmoredMsg
armor_str_to_data_type str len =
    if strncmp_eq len str (codes "BEGIN PGP MESSAGE")
    then message
    else if strncmp_eq len str (codes "BEGIN PGP PUBLIC KEY BLOCK")
        || strncmp_eq len str (codes "BEGIN PGP PUBLIC KEY")
    then public_key
    else if strncmp_eq len str (codes "BEGIN PGP SECRET KEY BLOCK")
        || strncmp_eq len str (codes "BEGIN PGP SECRET KEY")
    then secret_key
    else if strncmp_eq len str (codes "BEGIN PGP SIGNATURE")
    then signature
    else if strncmp_eq len str (codes "BEGIN PGP SIGNED MESSAGE")
    then cleartext
    else unknown

-- `switch (ptype)` of `rnp_armor_guess_type`
pub guess_type : Option ℕ → ArmoredMsg
guess_type none = unknown
guess_type (some ptype) =
    if (ptype == 1)
      || (ptype == 3)
      || (ptype == 4)
      || (ptype == 9)
      || (ptype == 18)
      || (ptype == 8)
      || (ptype == 11)
    then message
    else if ptype == 6
    then public_key
    else if ptype == 5
    then secret_key
    else if ptype == 2
    then signature
    else unknown

pub is_unknown : ArmoredMsg → Bool
is_unknown unknown = true
is_unknown _ = false

module _ {P : Type 0} (read : P → ℕ → Attempt P (List ℕ)) where
  pub rnp_armor_guess_type : Source P → ArmoredMsg × Source P
  unfolding guess_type
  rnp_armor_guess_type src = elim (src_peek read src 1) [
    | minus_one s ↦ (unknown, s)
    | returned [] s ↦ (unknown, s)
    | returned (ptag ∷ _) s ↦ (guess_type (get_packet_type ptag), s)
  ]

-- A text of C: what stands in front of the first `\0`.
pub c_text : List ℕ → List ℕ
c_text [] = []
c_text (c ∷ cs) = let rest = c_text cs in if c == 0 then [] else c ∷ rest

module _ {P C : Type 0} (read : P → ℕ → Attempt P (List ℕ)) (alloc : ℕ → Bool) where
  -- What `armor_parse_header` does with a header at `st`, of `hdrlen` bytes.
  pub take_header : ArmoredSource P C → List ℕ → ℕ → ℕ → Bool × ArmoredSource P C
  unfolding armor_str_to_data_type is_unknown c_text
  take_header param hdr st hdrlen =
      let name = c_text (take (hdrlen - 10) (drop (st + 5) hdr)) in
      let type = armor_str_to_data_type (drop (st + 5) hdr) (hdrlen - 10) in
      let typed = record param { type = type } in
      if is_unknown type
      then (false, typed)
      else if not (alloc (hdrlen - 9))
      then (false, typed)
      else (
        true,
        record typed {
          armorhdr = name;
          readsrc = state (src_skip read alloc param.readsrc (st + hdrlen));
        },
      )

  pub armor_parse_header : ArmoredSource P C → Bool × ArmoredSource P C
  unfolding take_header find_armor_header
  armor_parse_header param = elim (src_peek read param.readsrc 128) [
    | minus_one s ↦ (false, over param s)
    | returned hdr s ↦
        if ltb (length hdr) 20 then (false, over param s) else elim (find_armor_header hdr) [
          | none ↦ (false, over param s)
          | some (st, hdrlen) ↦ take_header (over param s) hdr st hdrlen
        ]
  ]

  -- The value of a header line goes to its field; a second one replaces the first.
  pub set_header : ArmoredSource P C → List ℕ → ArmoredSource P C
  set_header param header =
      if strncmp_eq 9 header (codes "Version: ")
      then record param { version = some (drop 9 header) }
      else if strncmp_eq 9 header (codes "Comment: ")
      then record param { comment = some (drop 9 header) }
      else if strncmp_eq 6 header (codes "Hash: ")
      then record param { hash = some (drop 6 header) }
      else if strncmp_eq 9 header (codes "Charset: ")
      then record param { charset = some (drop 9 header) }
      else param

  -- The end of a round of `armor_parse_headers`. `again` is the loop.
  pub next_header :
      (ArmoredSource P C → Option (Bool × ArmoredSource P C))
      → ArmoredSource P C
      → Bool
      → Option (Bool × ArmoredSource P C)
  next_header again param more =
      let (eol, s) = src_skip_eol read alloc param.readsrc in
      let rest = again (over param s) in
      if not eol
      then some (false, over param s)
      else if more
      then rest
      else some (true, over param s)

  -- A header line that is not empty, with the line taken.
  pub take_line : ArmoredSource P C → List ℕ → ArmoredSource P C
  unfolding set_header
  take_line param header =
      let set = set_header param header in
      over set (state (src_skip read alloc set.readsrc (length header)))

  -- `armor_parse_headers`, of at most `fuel` lines; `none` if they have not ended by then.
  pub armor_parse_headers : ℕ → ArmoredSource P C → Option (Bool × ArmoredSource P C)
  unfolding next_header take_line
  armor_parse_headers zero param = none
  armor_parse_headers (suc fuel) param = elim (src_peek_line read param.readsrc 1024) [
    | minus_one s ↦ some (false, over param s)
    | returned [] s ↦ next_header (armor_parse_headers fuel) (over param s) false
    | returned (c ∷ cs) s ↦
        if not (alloc (length (c ∷ cs) + 1))
        then some (false, over param s)
        else next_header (armor_parse_headers fuel) (take_line (over param s) (c ∷ cs)) true
  ]

  -- The three steps of `init_armored_src` over the new parameters.
  pub parse_all : ℕ → ArmoredSource P C → Option (Bool × ArmoredSource P C)
  unfolding armor_parse_header armor_parse_headers
  parse_all fuel param =
      let (has_header, param1) = armor_parse_header param in
      let (has_eol, s) = src_skip_eol read alloc param1.readsrc in
      let rest = armor_parse_headers fuel (over param1 s) in
      if not has_header
      then some (false, param1)
      else if not has_eol
      then some (false, over param1 s)
      else rest

  -- `init_armored_src`. `memory` says whether `init_src_common` finds memory, and `hash_create` is
  -- the new hash, if it can be made.
  pub init_armored_src :
      ℕ → Bool → Option C → Source P → Option (Parsed (Source P) (Source (ArmoredSource P C)))
  unfolding parse_all init_src
  init_armored_src fuel memory hash_create readsrc =
      if not memory then some (fail out_of_memory readsrc) else elim hash_create [
        | none ↦ some (fail generic readsrc)
        | some crc_ctx ↦
            elim (parse_all fuel (record {
              readsrc = readsrc;
              type = unknown;
              armorhdr = [];
              version = none;
              comment = none;
              hash = none;
              charset = none;
              rest = [];
              restpos = 0;
              brest = [];
              eofb64 = false;
              readcrc = 0 ∷ 0 ∷ 0 ∷ [];
              crc_ctx = crc_ctx;
            })) [
              | none ↦ none
              | some (false, param) ↦ some (fail bad_format param.readsrc)
              | some (true, param) ↦ some (done (init_src param false 0) param.readsrc)
            ]
      ]
