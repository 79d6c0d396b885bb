-- ===== src/Write/Partial/Parts.antt =====
-- The wire format of partial body lengths, RFC 4880, section 4.2.2.4: parts whose length is a power
-- of two, and a last part with its length in full.
use rnp.Prelude.{ℕ, ◌+◌, ◌<◌, ◌^◌, ◌≡◌, refl, List, ◌∷◌, ◌++◌, length, append_assoc}
use rnp.Packet.Length.{write_packet_len}

-- `Parts wire content`: the bytes behind the tag, and the body that they carry.
pub data Parts : List ℕ → List ℕ → Type 0 where
  last :
      {wire body : List ℕ}
      → length body < 2 ^ 32
      → wire ≡ write_packet_len (length body) ++ body
      → Parts wire body
  more :
      (k : ℕ) (part wire content : List ℕ) {wire' content' : List ℕ}
      → k < 31
      → length part ≡ 2 ^ k
      → Parts wire content
      → wire' ≡ (k + 224) ∷ (part ++ wire)
      → content' ≡ part ++ content
      → Parts wire' content'

-- `wire` is whole parts, whose content is `taken`: the format goes on behind them.
abbrev pub Opens : List ℕ → List ℕ → Type 0
Opens wire taken = (w c : List ℕ) → Parts w c → Parts (wire ++ w) (taken ++ c)

-- One more part.
pub Opens-part :
    (wire taken : List ℕ) (k : ℕ) (part : List ℕ)
    → k < 31
    → length part ≡ 2 ^ k
    → Opens wire taken
    → Opens (wire ++ ((k + 224) ∷ part)) (taken ++ part)
Opens-part wire taken k part small size opens w c h =
    rw (append_assoc wire ((k + 224) ∷ part) w, append_assoc taken part c)
      (opens _ _ (more k part w c small size h refl refl))
