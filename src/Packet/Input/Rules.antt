-- ===== src/Packet/Input/Rules.antt =====
-- Rules for the steps of a reading function over a source that keeps its contract.
use rnp.Prelude.{ℕ, ◌+◌, ◌≤◌, ◌<◌, ◌≡◌, arith, List, [], ◌++◌, length, take, drop}
use rnp.Prelude.{
  le→ltb, lt→ltb, length-take, take-append_exact, drop-append_exact, take_all, drop_all,
}
use mathlib.Core.Path.{subst}
use rnp.Errors.{RnpResult, Attempt, minus_one, Parsed}
use rnp.Packet.Input.{SourceOps, IsSource, At, Hits, Gives, Fails, read_exactly}
use rnp.Packet.Input.{or_fail, and_then, ◌>>=◌}

module _ {S : Type 0} (ops : SourceOps S) (pending : S → List ℕ) (IsReady : S → Type 0) where
  pub Hits-eq {ℓ} :
      {A : Type ℓ} {m : Attempt S A} {a : A} {xs : List ℕ} {r r' : ℕ}
      → r ≡ r'
      → Hits ops pending IsReady m a xs r
      → Hits ops pending IsReady m a xs r'
  Hits-eq {m = m} {a} {xs} e h = subst (λ k. Hits ops pending IsReady m a xs k) e h

  pub and_then-Hits {ℓ κ} :
      {A : Type ℓ} {B : Type κ} (m : S → Attempt S A) (f : A → S → Attempt S B) {s : S} {a : A}
      {b : B} {xs ys : List ℕ} {r r' : ℕ}
      → Hits ops pending IsReady (m s) a xs r
      → ((s' : S) → At ops pending IsReady s' xs r → Hits ops pending IsReady (f a s') b ys r')
      → Hits ops pending IsReady (and_then m f s) b ys r'
  unfolding and_then
  and_then-Hits m f (s', e, h) next = let (t, e', h') = next s' h in (t, rw (e, and_then) e', h')

  pub bind-Gives {ℓ κ} :
      {A : Type ℓ} {B : Type κ} (m : S → Parsed S A) (f : A → S → Parsed S B) {s : S} {a : A}
      {b : B} {xs ys : List ℕ} {r r' : ℕ}
      → Gives ops pending IsReady (m s) a xs r
      → ((s' : S) → At ops pending IsReady s' xs r → Gives ops pending IsReady (f a s') b ys r')
      → Gives ops pending IsReady ((m >>= f) s) b ys r'
  unfolding ◌>>=◌
  bind-Gives m f (s', e, h) next = let (t, e', h') = next s' h in (t, rw (e, ◌>>=◌) e', h')

  pub bind-Fails {ℓ κ} :
      {A : Type ℓ} {B : Type κ} (m : S → Parsed S A) (f : A → S → Parsed S B) {s : S} {a : A}
      {e : RnpResult} {xs ys : List ℕ} {r r' : ℕ}
      → Gives ops pending IsReady (m s) a xs r
      → ((s' : S) → At ops pending IsReady s' xs r → Fails ops pending IsReady (f a s') e ys r')
      → Fails ops pending IsReady ((m >>= f) s) e ys r'
  unfolding ◌>>=◌
  bind-Fails m f (s', e, h) next = let (t, e', h') = next s' h in (t, rw (e, ◌>>=◌) e', h')

  pub or_fail-Gives {ℓ} :
      {A : Type ℓ} {m : Attempt S A} {a : A} {xs : List ℕ} {r : ℕ} (e : RnpResult)
      → Hits ops pending IsReady m a xs r
      → Gives ops pending IsReady (or_fail e m) a xs r
  or_fail-Gives e (s', p, h) = (s', rw p, h)

  module _ (source : IsSource ops pending IsReady) where
    -- A read that the source can serve.
    pub read_exactly-Hits :
        {s : S} {xs : List ℕ} {r : ℕ} (n : ℕ)
        → n ≤ length xs
        → At ops pending IsReady s xs r
        → Hits ops pending IsReady (read_exactly ops n s) (take n xs) (drop n xs) (r + n)
    unfolding read_exactly
    read_exactly-Hits {s} {xs} {r} n le h =
        let (s', e, h') = source.read_law s n xs r h in
        let size : length (take n xs) ≡ n = omega (arith, length-take {0} n xs) in
        (
          s',
          rw (e, read_exactly) (rw (le→ltb (length (take n xs)) n (omega (arith, size)))),
          subst (λ k. At ops pending IsReady s' (drop n xs) (r + k)) size h',
        )

    pub read_front-Hits :
        {s : S} {r : ℕ} (n : ℕ) (xs ys : List ℕ)
        → length xs ≡ n
        → At ops pending IsReady s (xs ++ ys) r
        → Hits ops pending IsReady (read_exactly ops n s) xs ys (r + n)
    unfolding read_exactly
    read_front-Hits {s} {r} n xs ys size h =
        let (s', e, h') = source.read_law s n (xs ++ ys) r h in
        let front = take-append_exact n xs ys size in
        (
          s',
          rw (e, front, read_exactly) (rw (le→ltb (length xs) n (omega (arith, size)))),
          subst (λ k. At ops pending IsReady s' ys (r + k)) size
              (rw (front, drop-append_exact n xs ys size) at h'),
        )

    -- A read past the end takes what is left, and is an error.
    pub read_exactly_short :
        {s : S} {xs : List ℕ} {r : ℕ} (n : ℕ)
        → length xs < n
        → At ops pending IsReady s xs r
        → (s' : S) × (read_exactly ops n s ≡ minus_one s')
          × At ops pending IsReady s' [] (r + length xs)
    unfolding read_exactly
    read_exactly_short {s} {xs} {r} n lt h =
        let (s', e, h') = source.read_law s n xs r h in
        let all = take_all n xs (omega arith) in
        let none = drop_all n xs (omega arith) in
        (s', rw (e, all, read_exactly) (rw (lt→ltb _ _ lt)), rw (all, none) at h')
