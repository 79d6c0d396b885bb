-- ===== src/Packet/SkSesskey/Content.antt =====
-- The session keys that a packet can show, and the body of their packet.
use rnp.Prelude.{ℕ, ◌≤◌, ◌<◌, ◌≡◌, ◌⊎◌}
use rnp.Prelude.{List, [], ◌∷◌, ◌++◌, length, ◌==◌, if◌then◌else◌}
use rnp.Packet.SkSesskey.{SkSesskey, simple, salted, iterated_and_salted}
use rnp.Packet.SkSesskey.Parse.{max_esk}

-- The values that a version 4 packet can show.
pub record IsSkSesskey (k : SkSesskey) : Type 0 where
  pub is_v4 : k.version ≡ 4
  pub alg_byte : k.alg < 256
  pub known : (k.specifier ≡ simple) ⊎ (k.specifier ≡ salted) ⊎ (k.specifier ≡ iterated_and_salted)
  pub hash_byte : k.hash_alg < 256
  pub salt_size : length k.salt ≡ 8
  pub iterations_byte : k.iterations < 256
  pub key_size : length k.enckey ≤ max_esk

-- The bytes that the specifier calls for.
abbrev pub s2k_content : SkSesskey → List ℕ
s2k_content k =
    if k.specifier == salted
    then k.salt
    else if k.specifier == iterated_and_salted
    then k.salt ++ (k.iterations ∷ [])
    else []

abbrev pub sk_content : SkSesskey → List ℕ
sk_content k = k.version ∷ k.alg ∷ k.specifier ∷ k.hash_alg ∷ (s2k_content k ++ k.enckey)
