-- ===== src/Prelude/Bits.antt =====
-- Masks on one byte as arithmetic; each is a table of 256 entries, checked by evaluation.
use Prim.Native.Nat.{
  ℕ, zero, suc, ◌+◌, ◌*◌, ◌/◌, ◌%◌, ◌^◌, ◌≤◌, ◌<◌, min, bit_and, bit_or, digits, bit_and-bitwise,
}
use mathlib.Core.Path.{◌≡◌, refl, sym, ◌∙◌}
use native.Mathlib.Nat.{zero-mod}
use mathlib.Core.Bool.{Bool, true, ◌&&◌}
use native.Mathlib.Omega.{arith}
use rnp.Prelude.Tests.{◌==◌, ==→eq, ltb, ltb→lt}

-- Whether `p` holds of every number below `n`.
unfoldable pub holds_below : (ℕ → Bool) → ℕ → Bool
holds_below p zero = true
holds_below p (suc n) = holds_below p n && p n

pub holds_below-at : (p : ℕ → Bool) (n i : ℕ) → holds_below p n ≡ true → i < n → p i ≡ true
unfolding holds_below
holds_below-at p zero i h small = absurd (omega arith)
holds_below-at p (suc n) i h small = ground (arith, holds_below-at p n i)

-- Two functions that agree on every byte.
module _ (f g : ℕ → ℕ) (n : ℕ) where
  pub agree_below : holds_below (λ x. f x == g x) n ≡ true → (x : ℕ) → x < n → f x ≡ g x
  agree_below table x h = ==→eq _ _ (holds_below-at (λ x. f x == g x) n x table h)

pub bit_and_80 : (x : ℕ) → x < 256 → bit_and x 0x80 ≡ x / 128 * 128
unfolding holds_below
bit_and_80 = agree_below _ _ 256 refl

pub bit_and_40 : (x : ℕ) → x < 256 → bit_and x 0x40 ≡ x / 64 % 2 * 64
unfolding holds_below
bit_and_40 = agree_below _ _ 256 refl

pub bit_and_3f : (x : ℕ) → x < 256 → bit_and x 0x3f ≡ x % 64
unfolding holds_below
bit_and_3f = agree_below _ _ 256 refl

pub bit_and_3c : (x : ℕ) → x < 256 → bit_and x 0x3c ≡ x / 4 % 16 * 4
unfolding holds_below
bit_and_3c = agree_below _ _ 256 refl

pub bit_and_03 : (x : ℕ) → x < 256 → bit_and x 0x03 ≡ x % 4
unfolding holds_below
bit_and_03 = agree_below _ _ 256 refl

pub bit_and_7f : (x : ℕ) → x < 256 → bit_and x 0x7f ≡ x % 128
unfolding holds_below
bit_and_7f = agree_below _ _ 256 refl

-- The mask of a part's header.
pub bit_and_1f : (k : ℕ) → k < 31 → bit_and (k + 224) 0x1f ≡ k
unfolding holds_below
bit_and_1f = agree_below _ _ 31 refl

-- A size of a part.
pub part_size_pos : (k : ℕ) → k < 31 → 0 < 2 ^ k
unfolding holds_below
part_size_pos k h = ltb→lt _ _ (holds_below-at (λ n. ltb 0 (2 ^ n)) 31 k refl h)

-- A tag below 64 under the two marks of a new-format header.
pub bit_or_c0 : (x : ℕ) → x < 64 → bit_or (bit_or x 0x80) 0x40 ≡ x + 192
unfolding holds_below
bit_or_c0 = agree_below _ _ 64 refl

-- A mask of no ones.
no_digits : (n a : ℕ) → digits (λ _. zero) min n a 0 ≡ 0
no_digits zero a = refl
no_digits (suc n) zero = refl
no_digits (suc n) (suc a) = omega (arith, no_digits n (suc a / 2))

-- The mask `m` keeps what is left of a number modulo `d`, in the digit recursion that `bit_and`
-- stands for.
abbrev Keeps : ℕ → ℕ → Type 0
Keeps m d = (n a : ℕ) → a ≤ n → digits (λ _. zero) min n a m ≡ a % d

keep_none : Keeps 0 1
keep_none n a fuel = no_digits n a ∙ omega arith

-- One more digit.
keep_digit :
    (m d : ℕ)
    → ((a : ℕ) → a / 2 % d * 2 + a % 2 ≡ a % (2 * d))
    → Keeps m d
    → Keeps (2 * m + 1) (2 * d)
keep_digit m d split keep zero zero fuel = sym (zero-mod (2 * d))
keep_digit m d split keep zero (suc a) fuel = absurd (omega arith)
keep_digit m d split keep (suc n) zero fuel = sym (zero-mod (2 * d))
keep_digit m d split keep (suc n) (suc a) fuel =
    let half : (2 * m + 1) / 2 ≡ m = omega arith in
    let odd : (2 * m + 1) % 2 ≡ 1 = omega arith in
    rw (half, odd, keep n (suc a / 2) (omega arith)) (omega (arith, split (suc a)))

keep_three : Keeps 7 8
keep_three =
    keep_digit 3 4 (λ a. omega arith)
      (keep_digit 1 2 (λ a. omega arith) (keep_digit 0 1 (λ a. omega arith) keep_none))

keep_eight : Keeps 255 256
keep_eight =
    keep_digit 127 128 (λ a. omega arith)
      (keep_digit 63 64 (λ a. omega arith)
        (keep_digit 31 32 (λ a. omega arith)
          (keep_digit 15 16 (λ a. omega arith) (keep_digit 7 8 (λ a. omega arith) keep_three))))

-- A mask of eight ones, on any number.
pub bit_and_ff : (a : ℕ) → bit_and a 0xff ≡ a % 256
bit_and_ff a = bit_and-bitwise a 0xff ∙ keep_eight a a (omega arith)

pub bit_and_07 : (a : ℕ) → bit_and a 7 ≡ a % 8
bit_and_07 a = bit_and-bitwise a 7 ∙ keep_three a a (omega arith)
