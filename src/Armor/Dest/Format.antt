-- ===== src/Armor/Dest/Format.antt =====
-- The text of an armored message of src/librepgp/stream-armor.c, and what the code relies on in the
-- hash of its checksum.
use rnp.Prelude.{ℕ, ◌≡◌, List, [], ◌∷◌, ◌++◌}
use rnp.Armor.Dest.{codes}
use rnp.Armor.Dest.Line.{AreBytes}
use rnp.Armor.Dest.Finished.{crlf, IsChecksum}
use rnp.Armor.Reference.{body, checksum}

pub AreBytes-front : (xs ys : List ℕ) → AreBytes (xs ++ ys) → AreBytes xs
AreBytes-front [] ys h = tt
AreBytes-front (x ∷ xs) ys (b, h) = (b, AreBytes-front xs ys h)

pub AreBytes-back : (xs ys : List ℕ) → AreBytes (xs ++ ys) → AreBytes ys
AreBytes-back [] ys h = h
AreBytes-back (x ∷ xs) ys (b, h) = AreBytes-back xs ys h

-- What the code relies on in the hash: what was added is all that counts, and the checksum has three
-- bytes.
pub record IsHash {C : Type 0} (hash_add : C → List ℕ → C) (hash_finish : C → List ℕ) : Type 0 where
  pub add_none : (c : C) → hash_add c [] ≡ c
  pub add_both : (c : C) (xs ys : List ℕ) → hash_add (hash_add c xs) ys ≡ hash_add c (xs ++ ys)
  pub three : (c : C) → IsChecksum (hash_finish c)

-- The first lines.
abbrev pub heading : List ℕ → List ℕ → List ℕ
heading hdr package_string =
    (hdr ++ crlf) ++ (((codes "Version: " ++ package_string) ++ crlf) ++ crlf)

-- The whole message.
abbrev pub armored : List ℕ → List ℕ → List ℕ → List ℕ → List ℕ → List ℕ
armored hdr package_string bytes sum trailer =
    heading hdr package_string ++ (body crlf bytes ++ ((checksum sum ++ crlf) ++ (trailer ++ crlf)))
