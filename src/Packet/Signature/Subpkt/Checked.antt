-- ===== src/Packet/Signature/Subpkt/Checked.antt =====
-- What `signature_parse_subpacket` keeps of a subpacket, and which subpackets it accepts.
use rnp.Prelude.{ℕ, ◌+◌, ◌≡◌, refl, Bool, true, false, ◌&&◌, ◌||◌, not}
use rnp.Prelude.{Option, none, some, List, length, drop, ltb, leb, ◌==◌, if◌then◌else◌}
use rnp.Prelude.{arith}
use rnp.Packet.Length.{read_uint16}
use rnp.Packet.Signature.{SigSubpkt, SubpktFields}
use rnp.Packet.Signature.Subpkt.{parsed_if, parse_notation, signature_parse_subpacket}

-- The content that RFC 4880 gives a type of subpacket: so many bytes, so many at least, any number,
-- a time of four bytes, which has to be hashed, or a notation, that says how long its two parts are.
pub data Layout : Type 0 where
  exactly : ℕ → Layout
  at_least : ℕ → Layout
  anything : Layout
  hashed_time : Layout
  two_parts : Layout

-- The layout of a type, `none` for an unknown one.
abbrev pub layout : ℕ → Option Layout
layout type =
    if type == 2
    then some hashed_time
    else if (type == 3) || (type == 9)
    then some (exactly 4)
    else if type == 4
    then some (exactly 1)
    else if type == 5
    then some (exactly 2)
    else if type == 6
    then some anything
    else if type == 7
    then some (exactly 1)
    else if (type == 11) || (type == 21) || (type == 22)
    then some anything
    else if type == 12
    then some (exactly 22)
    else if type == 16
    then some (exactly 8)
    else if type == 20
    then some two_parts
    else if type == 23
    then some (at_least 1)
    else if type == 24
    then some anything
    else if type == 25
    then some (exactly 1)
    else if type == 26
    then some anything
    else if type == 27
    then some (at_least 1)
    else if type == 28
    then some anything
    else if type == 29
    then some (at_least 1)
    else if type == 30
    then some (at_least 1)
    else if type == 31
    then some (at_least 18)
    else if type == 32
    then some anything
    else if type == 33
    then some (at_least 21)
    else none

-- Whether the content has the length of the layout.
abbrev pub fits : Layout → List ℕ → Bool
fits (exactly n) content = length content == n
fits (at_least n) content = leb n (length content)
fits anything content = true
fits hashed_time content = length content == 4
fits two_parts content =
    leb 8 (length content)
    && (length content == 8 + read_uint16 (drop 4 content) + read_uint16 (drop 6 content))

-- A time counts only if it is hashed.
abbrev pub counts : Layout → Bool → Bool
counts hashed_time hashed = hashed
counts (exactly n) hashed = true
counts (at_least n) hashed = true
counts anything hashed = true
counts two_parts hashed = true

-- A subpacket of a known type is accepted if it has the right length, and one of an unknown type if
-- it is not critical.
abbrev pub accepts : Option Layout → SigSubpkt → Bool
accepts none sp = not sp.critical
accepts (some l) sp = fits l sp.content && counts l sp.hashed

-- One of a known type and the right length is parsed.
abbrev pub marked : Option Layout → SigSubpkt → Bool
marked none sp = sp.parsed
marked (some l) sp = if fits l sp.content then true else sp.parsed

abbrev pub known : Option Layout → Bool
known none = false
known (some l) = true

-- `r` has the subpacket `sp` of this layout, with other fields and another mark at most, and none for
-- an unknown type.
pub record Checked (sp : SigSubpkt) (l : Option Layout) (r : Bool × SigSubpkt) : Type 0 where
  pub same_type : r.1.type ≡ sp.type
  pub same_content : r.1.content ≡ sp.content
  pub same_critical : r.1.critical ≡ sp.critical
  pub same_hashed : r.1.hashed ≡ sp.hashed
  pub accepted : r.0 ≡ accepts l sp
  pub parsed : r.1.parsed ≡ marked l sp
  pub unchanged : known l ≡ false → r.1 ≡ sp

either :
    {sp : SigSubpkt} {l m : Option Layout} {x y : Bool × SigSubpkt} (b : Bool)
    → Checked sp l x
    → Checked sp m y
    → Checked sp (if b then l else m) (if b then x else y)
either true p q = p
either false p q = q

-- A test that the layout does not make.
both :
    {sp : SigSubpkt} {l : Option Layout} {x y : Bool × SigSubpkt} (b : Bool)
    → (b ≡ true → Checked sp l x)
    → (b ≡ false → Checked sp l y)
    → Checked sp l (if b then x else y)
both true p q = p refl
both false p q = q refl

parsed_if-of :
    (l : Layout) (oklen : Bool) (members : SubpktFields) (sp : SigSubpkt)
    → fits l sp.content ≡ oklen
    → Checked sp (some l) (parsed_if oklen (counts l sp.hashed) members sp)
unfolding parsed_if
parsed_if-of l true members sp e = record {
  same_type = refl;
  same_content = refl;
  same_critical = refl;
  same_hashed = refl;
  accepted = rw e refl;
  parsed = rw e refl;
  unchanged = λ f. cc;
}
parsed_if-of l false members sp e = record {
  same_type = refl;
  same_content = refl;
  same_critical = refl;
  same_hashed = refl;
  accepted = rw e refl;
  parsed = rw e refl;
  unchanged = λ f. refl;
}

parsed_if-Checked :
    (l : Layout) (members : SubpktFields) (sp : SigSubpkt)
    → Checked sp (some l) (parsed_if (fits l sp.content) (counts l sp.hashed) members sp)
parsed_if-Checked l members sp = parsed_if-of l (fits l sp.content) members sp refl

refused-Checked :
    (l : Layout) (members : SubpktFields) (sp : SigSubpkt)
    → fits l sp.content ≡ false
    → Checked sp (some l) (false, record sp { fields = members })
refused-Checked l members sp e = record {
  same_type = refl;
  same_content = refl;
  same_critical = refl;
  same_hashed = refl;
  accepted = rw e refl;
  parsed = rw e refl;
  unchanged = λ f. cc;
}

unknown-Checked : (sp : SigSubpkt) → Checked sp none (not sp.critical, sp)
unknown-Checked sp = record {
  same_type = refl;
  same_content = refl;
  same_critical = refl;
  same_hashed = refl;
  accepted = refl;
  parsed = refl;
  unchanged = λ f. refl;
}

parse_notation-Checked : (sp : SigSubpkt) → Checked sp (some two_parts) (parse_notation sp)
unfolding parse_notation
parse_notation-Checked sp =
    let len = length sp.content in
    let sum = 8 + read_uint16 (drop 4 sp.content) + read_uint16 (drop 6 sp.content) in
    both (ltb len 8)
      (λ short.
        let no : (leb 8 len && (len == sum)) ≡ false = ground arith in
        refused-Checked two_parts sp.fields sp no)
      (λ long.
        both (len == sum)
          (λ right.
            let yes : (leb 8 len && (len == sum)) ≡ true = ground arith in
            parsed_if-of two_parts true _ sp yes)
          (λ wrong.
            let no : (leb 8 len && (len == sum)) ≡ false = ground arith in
            refused-Checked two_parts _ sp no))

-- `signature_parse_subpacket` changes nothing of a subpacket but its fields and the mark that it is
-- parsed, and nothing at all if its type is unknown. It accepts a subpacket of an unknown type exactly
-- if it is not critical, and one of a known type exactly if its content has the length of the type
-- and, for a creation time, it is hashed; it marks it as parsed if it has that length.
pub signature_parse_subpacket-Checked :
    (sp : SigSubpkt) → Checked sp (layout sp.type) (signature_parse_subpacket sp)
unfolding signature_parse_subpacket
signature_parse_subpacket-Checked sp = either (sp.type == 2) (parsed_if-Checked hashed_time _ sp) (
    either ((sp.type == 3) || (sp.type == 9)) (parsed_if-Checked (exactly 4) _ sp) (
      either (sp.type == 4) (parsed_if-Checked (exactly 1) _ sp) (
        either (sp.type == 5) (parsed_if-Checked (exactly 2) _ sp) (
          either (sp.type == 6) (parsed_if-Checked anything _ sp) (
            either (sp.type == 7) (parsed_if-Checked (exactly 1) _ sp) (
              either ((sp.type == 11) || (sp.type == 21) || (sp.type == 22))
                (parsed_if-Checked anything _ sp)
                (either (sp.type == 12) (parsed_if-Checked (exactly 22) _ sp) (
                  either (sp.type == 16) (parsed_if-Checked (exactly 8) _ sp) (
                    either (sp.type == 20) (parse_notation-Checked sp) (
                      either (sp.type == 23) (parsed_if-Checked (at_least 1) _ sp) (
                        either (sp.type == 24) (parsed_if-Checked anything _ sp) (
                          either (sp.type == 25) (parsed_if-Checked (exactly 1) _ sp) (
                            either (sp.type == 26) (parsed_if-Checked anything _ sp) (
                              either (sp.type == 27) (parsed_if-Checked (at_least 1) _ sp) (
                                either (sp.type == 28) (parsed_if-Checked anything _ sp) (
                                  either (sp.type == 29) (parsed_if-Checked (at_least 1) _ sp) (
                                    either (sp.type == 30) (parsed_if-Checked (at_least 1) _ sp) (
                                      either (sp.type == 31) (parsed_if-Checked (at_least 18) _ sp)
                                        (either (sp.type == 32) (parsed_if-Checked anything _ sp) (
                                          either (sp.type == 33)
                                            (parsed_if-Checked (at_least 21) _ sp)
                                            (unknown-Checked sp)))))))))))))))))))))
