-- ===== src/Packet/Alg.antt =====
-- Numbers of include/repgp/repgp_def.h: public-key algorithms (`PGP_PKA_*`).
use rnp.Prelude.{ℕ}

abbrev pub rsa : ℕ
rsa = 1

abbrev pub rsa_encrypt_only : ℕ
rsa_encrypt_only = 2

abbrev pub elgamal : ℕ
elgamal = 16

abbrev pub dsa : ℕ
dsa = 17

abbrev pub ecdh : ℕ
ecdh = 18

abbrev pub ecdsa : ℕ
ecdsa = 19

abbrev pub elgamal_encrypt_or_sign : ℕ
elgamal_encrypt_or_sign = 20

abbrev pub eddsa : ℕ
eddsa = 22

abbrev pub sm2 : ℕ
sm2 = 99
