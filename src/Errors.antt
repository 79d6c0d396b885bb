-- ===== src/Errors.antt =====
-- The result codes of include/rnp/rnp_def.h that the stream and packet code returns, and the
-- return conventions of that code as data types.

-- `rnp_result_t`, as far as this code uses it.
pub data RnpResult : Type 0 where
  success bad_format bad_parameters out_of_memory read_error write_error generic : RnpResult

-- An `ssize_t` function on a state `S`: -1, or a number that the model shows as the bytes or the
-- count that it stands for.
pub data Attempt {ℓ κ} (S : Type ℓ) (A : Type κ) : Type (ℓ ⊔ κ) where
  minus_one : S → Attempt S A
  returned : A → S → Attempt S A

-- An `rnp_result_t` function that fills an output structure.
pub data Parsed {ℓ κ} (S : Type ℓ) (A : Type κ) : Type (ℓ ⊔ κ) where
  fail : RnpResult → S → Parsed S A
  done : A → S → Parsed S A
