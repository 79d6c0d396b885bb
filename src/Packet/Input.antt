-- ===== src/Packet/Input.antt =====
-- The interface between the packet code and its source: the `src_*` functions that the packet code
-- calls, what it relies on in them, and the two shapes of a reading function.
pub mod Rules
use rnp.Prelude.{ℕ, ◌+◌, ◌%◌, ◌^◌, ◌≤◌, ◌≡◌, refl, Bool, true, false, List, length, take, drop, min}
use rnp.Prelude.{ltb, if◌then◌else◌}
use rnp.Errors.{RnpResult, Attempt, minus_one, returned, Parsed, fail, done}
use rnp.Stream.Source.{cache_size, u64}

-- The operations of a source, and whether an allocation of so many bytes succeeds.
pub record SourceOps (S : Type 0) : Type 0 where
  pub read : S → ℕ → Attempt S (List ℕ)
  pub peek : S → ℕ → Attempt S (List ℕ)
  pub skip : S → ℕ → Attempt S ℕ
  pub readb : S → ℕ
  pub alloc : ℕ → Bool

module _ {S : Type 0} (ops : SourceOps S) (pending : S → List ℕ) (IsReady : S → Type 0) where
  -- The source `s` has the bytes `xs` to deliver, and has delivered `r`, which its 64-bit counter
  -- shows.
  pub record At (s : S) (xs : List ℕ) (r : ℕ) : Type 0 where
    pub ready : IsReady s
    pub holds : pending s ≡ xs
    pub counts : ops.readb s ≡ u64 r

  -- A call that returned `a` and left a source at `xs`.
  abbrev pub Hits {ℓ} : {A : Type ℓ} → Attempt S A → A → List ℕ → ℕ → Type ℓ
  Hits m a xs r = (s' : S) × (m ≡ returned a s') × At s' xs r

  -- A call that filled its output with `a` and left a source at `xs`.
  abbrev pub Gives {ℓ} : {A : Type ℓ} → Parsed S A → A → List ℕ → ℕ → Type ℓ
  Gives m a xs r = (s' : S) × (m ≡ done a s') × At s' xs r

  -- A call that failed with `e` and left a source at `xs`.
  abbrev pub Fails {ℓ} : {A : Type ℓ} → Parsed S A → RnpResult → List ℕ → ℕ → Type ℓ
  Fails m e xs r = (s' : S) × (m ≡ fail e s') × At s' xs r

  pub record IsSource : Type 0 where
    pub read_law :
        (s : S) (n : ℕ) (xs : List ℕ) (r : ℕ)
        → At s xs r
        → Hits (ops.read s n) (take n xs) (drop n xs) (r + length (take n xs))
    pub peek_law :
        (s : S) (n : ℕ) (xs : List ℕ) (r : ℕ)
        → n ≤ cache_size
        → At s xs r
        → Hits (ops.peek s n) (take n xs) xs r
    pub skip_law :
        (s : S) (n : ℕ) (xs : List ℕ) (r : ℕ)
        → (16 ≤ n → ops.alloc n ≡ true)
        → At s xs r
        → Hits (ops.skip s n) (min n (length xs)) (drop n xs) (r + min n (length xs))

module _ {S : Type 0} (ops : SourceOps S) where
  -- `src_read(src, buf, n) < n`, which every caller takes for an error.
  pub read_exactly : ℕ → S → Attempt S (List ℕ)
  read_exactly n s = elim (ops.read s n) [
    | minus_one s' ↦ minus_one s'
    | returned buf s' ↦ if ltb (length buf) n then minus_one s' else returned buf s'
  ]

-- A call whose -1 is the result code `e` of its caller.
abbrev pub or_fail {ℓ} : {S : Type 0} {A : Type ℓ} → RnpResult → Attempt S A → Parsed S A
or_fail e (minus_one s) = fail e s
or_fail e (returned a s) = done a s

-- Sequencing of calls that return -1 on an error, and of calls that return a result code.
unfoldable pub and_then {ℓ κ} :
    {S : Type 0} {A : Type ℓ} {B : Type κ}
    → (S → Attempt S A)
    → (A → S → Attempt S B)
    → S
    → Attempt S B
and_then m f s = elim (m s) [ minus_one s' ↦ minus_one s' | returned a s' ↦ f a s' ]

infixl 5 ◌>>=◌
unfoldable pub ◌>>=◌ {ℓ κ} :
    {S : Type 0} {A : Type ℓ} {B : Type κ}
    → (S → Parsed S A)
    → (A → S → Parsed S B)
    → S
    → Parsed S B
◌>>=◌ m f s = elim (m s) [ fail e s' ↦ fail e s' | done a s' ↦ f a s' ]
