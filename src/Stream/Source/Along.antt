-- ===== src/Stream/Source/Along.antt =====
-- A source over a callback that another callback describes, for src/librepgp/stream-common.c: if the
-- parameters of one are seen in those of the other, `src_read` returns the same bytes for both.
use rnp.Prelude.{ℕ, zero, suc, ◌+◌, ◌-◌, ◌≡◌, refl, ap, ◌∙◌, Bool, false, not, ◌&&◌, ◌||◌}
use rnp.Prelude.{List, [], ◌∷◌, ◌++◌, length, ltb, leb, ◌==◌, Bool-cases, inl, inr}
use rnp.Errors.{Attempt, minus_one, returned}
use rnp.Stream.Source.{Source, cache_size, unread, u64, sub64, advance, finish_read}
use rnp.Stream.Source.{read_directly, read_to_cache, read_loop, read_len, src_read}

-- The state that a call left, seen in another.
abbrev pub seen : {S T A : Type 0} → (S → T) → Attempt S A → Attempt T A
seen f (minus_one s) = minus_one (f s)
seen f (returned a s) = returned a (f s)

abbrev pub over : {P Q : Type 0} → (Q → P) → Source Q → Source P
over f s = record {
  size = s.size;
  readb = s.readb;
  cache = s.cache;
  param = f s.param;
  eof = s.eof;
  knownsize = s.knownsize;
}

module _ {P Q : Type 0} (f : Q → P) (read : P → ℕ → Attempt P (List ℕ))
    (described : Q → ℕ → Attempt Q (List ℕ))
    (along : (q : Q) (n : ℕ) → read (f q) n ≡ seen f (described q n)) where
  -- Two loops that return the same.
  abbrev Same :
      (Source P → ℕ → List ℕ → Attempt (Source P) (List ℕ))
      → (Source Q → ℕ → List ℕ → Attempt (Source Q) (List ℕ))
      → Type 0
  Same again again' =
      (s : Source Q) (left : ℕ) (buf : List ℕ)
      → again (over f s) left buf ≡ seen (over f) (again' s left buf)

  read_directly-seen :
      (again : Source P → ℕ → List ℕ → Attempt (Source P) (List ℕ))
      (again' : Source Q → ℕ → List ℕ → Attempt (Source Q) (List ℕ))
      → Same again again'
      → Same (read_directly read again) (read_directly described again')
  unfolding read_directly finish_read
  read_directly-seen again again' same s left buf = go (described s.param left) refl
    where
      go :
          (r : Attempt Q (List ℕ))
          → described s.param left ≡ r
          → read_directly read again (over f s) left buf
            ≡ seen (over f) (read_directly described again' s left buf)
      go (minus_one q) e =
          let e' = along s.param left ∙ ap (seen f) e in rw (e', e, read_directly) refl
      go (returned [] q) e =
          let e' = along s.param left ∙ ap (seen f) e in rw (e', e, read_directly) refl
      go (returned (b ∷ bs) q) e =
          let e' = along s.param left ∙ ap (seen f) e in
          let n = length (b ∷ bs) in
          rw (e', e, read_directly) (same (record s { param = q }) (left - n) (buf ++ (b ∷ bs)))

  read_to_cache-seen :
      (again : Source P → ℕ → List ℕ → Attempt (Source P) (List ℕ))
      (again' : Source Q → ℕ → List ℕ → Attempt (Source Q) (List ℕ))
      → Same again again'
      → Same (read_to_cache read again) (read_to_cache described again')
  unfolding read_to_cache finish_read
  read_to_cache-seen again again' same s left buf = go (described s.param cache_size) refl
    where
      go :
          (r : Attempt Q (List ℕ))
          → described s.param cache_size ≡ r
          → read_to_cache read again (over f s) left buf
            ≡ seen (over f) (read_to_cache described again' s left buf)
      go (minus_one q) e =
          let e' = along s.param cache_size ∙ ap (seen f) e in rw (e', e, read_to_cache) refl
      go (returned [] q) e =
          let e' = along s.param cache_size ∙ ap (seen f) e in rw (e', e, read_to_cache) refl
      go (returned (b ∷ bs) q) e =
          let e' = along s.param cache_size ∙ ap (seen f) e in
          let n = length (b ∷ bs) in
          rw (e', e, read_to_cache)
            (elim (Bool-cases (ltb n left)) [
              | inl less ↦ rw less (same (record s { param = q }) (left - n) (buf ++ (b ∷ bs)))
              | inr enough ↦ rw enough refl
            ])

  read_loop-seen :
      (fuel : ℕ) (readahead : Bool)
      → Same (read_loop read fuel readahead) (read_loop described fuel readahead)
  unfolding read_loop finish_read
  read_loop-seen zero readahead s left buf = refl
  read_loop-seen (suc fuel) readahead s left buf = elim (Bool-cases (left == 0)) [
    | inl none ↦ simp none refl
    | inr more ↦ elim (Bool-cases (ltb cache_size left || not readahead)) [
      | inl direct ↦
          simp (more, direct) (read_directly-seen _ _ (read_loop-seen fuel readahead) s left buf)
      | inr cached ↦
          simp (more, cached) (read_to_cache-seen _ _ (read_loop-seen fuel readahead) s left buf)
    ]
  ]

  read_len-seen :
      (readahead : Bool) (s : Source Q) (len : ℕ)
      → read_len read readahead (over f s) len ≡ seen (over f) (read_len described readahead s len)
  unfolding read_len finish_read
  read_len-seen readahead s len =
      let cached = unread s.cache in
      elim (Bool-cases (ltb s.cache.pos (length s.cache.buf))) [
        | inl some_cached ↦ elim (Bool-cases (leb len (length cached))) [
          | inl enough ↦ simp (some_cached, enough) refl
          | inr short ↦
              simp (some_cached, short)
                (read_loop-seen (len - length cached) readahead (advance s (length cached))
                  (len - length cached) cached)
        ]
        | inr none_cached ↦ simp none_cached (read_loop-seen len readahead s len [])
      ]

  pub src_read-seen :
      (s : Source Q) (len : ℕ)
      → src_read read (over f s) len ≡ seen (over f) (src_read described s len)
  unfolding src_read
  src_read-seen s len = elim (Bool-cases (s.eof || (len == 0))) [
    | inl at_once ↦ simp at_once refl
    | inr reads ↦ elim (Bool-cases (s.knownsize && ltb s.size (u64 (s.readb + len)))) [
      | inl cut ↦ simp (reads, cut) (read_len-seen false s (sub64 s.size s.readb))
      | inr whole ↦ simp (reads, whole) (read_len-seen s.cache.readahead s len)
    ]
  ]
