-- ===== src/Stream/Line/Found.antt =====
-- What `src_skip_eol` and `src_peek_line` find in the pending bytes.
use rnp.Prelude.{
  ℕ, zero, suc, ◌+◌, ◌-◌, ◌≤◌, ◌<◌, ◌^◌, ◌≡◌, refl, ap, ◌∙◌, inl, inr, Bool, min, ◌&&◌, arith,
}
use rnp.Prelude.{List, [], ◌∷◌, ◌++◌, length, take, drop, ltb, ◌==◌, if◌then◌else◌}
use rnp.Prelude.{Bool-cases, Option-cases, take-take}
use rnp.Prelude.{none, some}
use rnp.Errors.{Attempt, minus_one, returned}
use rnp.Stream.Source.{Source, src_peek, src_skip, sub64}
use rnp.Stream.Source.Reader.{IsReader, pending, IsReady}
use rnp.Stream.Source.Peek.{src_peek-Peeks}
use rnp.Stream.Source.Skip.{src_skip-Skips}
use rnp.Stream.Line.{lf, cr, strip_cr, state, skip_eol_at, src_skip_eol}
use rnp.Stream.Line.{peek_line_round, peek_line_loop, src_peek_line}
use rnp.Stream.Line.Lines.{eol_len, line_of, answer, line_of-take, scan-none, scan-some}
use rnp.Stream.Line.Lines.{strip_cr_lem}

module _ {P : Type 0} (read : P → ℕ → Attempt P (List ℕ)) (rest : P → List ℕ)
    (reader : IsReader read rest) where
  skip_state :
      (alloc : ℕ → Bool) (s : Source P) (n : ℕ)
      → n < 16
      → IsReady rest s
      → (pending rest (state (src_skip read alloc s n)) ≡ drop n (pending rest s))
        × IsReady rest (state (src_skip read alloc s n))
  skip_state alloc s n small h =
      let k = src_skip-Skips read rest reader alloc s n (λ big. absurd (omega arith)) h in
      rw (k.result) (k.left, k.ready)

  skip_eol_at_lem :
      (alloc : ℕ → Bool) (s : Source P) (text : List ℕ)
      → pending rest s ≡ text
      → IsReady rest s
      → ((skip_eol_at read alloc (take 2 text) s).0 ≡ ltb 0 (eol_len text))
        × (pending rest (skip_eol_at read alloc (take 2 text) s).1 ≡ drop (eol_len text) text)
        × IsReady rest (skip_eol_at read alloc (take 2 text) s).1
  unfolding skip_eol_at
  skip_eol_at_lem alloc s [] e h = (refl, e, h)
  skip_eol_at_lem alloc s (b ∷ []) e h = elim (Bool-cases (b == lf)) [
    | inl is_lf ↦
        let k = skip_state alloc s 1 (omega arith) h in
        simp is_lf (refl, k.0 ∙ ap (λ t. drop 1 t) e, k.1)
    | inr other ↦ simp other (refl, e, h)
  ]
  skip_eol_at_lem alloc s (b ∷ c ∷ bs) e h = elim (Bool-cases (b == lf)) [
    | inl is_lf ↦
        let k = skip_state alloc s 1 (omega arith) h in
        simp is_lf (refl, k.0 ∙ ap (λ t. drop 1 t) e, k.1)
    | inr other ↦ elim (Bool-cases ((b == cr) && (c == lf))) [
      | inl is_crlf ↦
          let k = skip_state alloc s 2 (omega arith) h in
          simp (other, is_crlf) (refl, k.0 ∙ ap (λ t. drop 2 t) e, k.1)
      | inr no_eol ↦ simp (other, no_eol) (refl, e, h)
    ]
  ]

  -- `src_skip_eol` answers whether the source begins with a line feed, or a carriage return and a
  -- line feed, and takes exactly that end of line off what is pending.
  pub src_skip_eol_lem :
      (alloc : ℕ → Bool) (s : Source P)
      → IsReady rest s
      → ((src_skip_eol read alloc s).0 ≡ ltb 0 (eol_len (pending rest s)))
        × (pending rest (src_skip_eol read alloc s).1
            ≡ drop (eol_len (pending rest s)) (pending rest s))
        × IsReady rest (src_skip_eol read alloc s).1
  unfolding src_skip_eol
  src_skip_eol_lem alloc s h =
      let p = src_peek-Peeks read rest reader s 2 (omega arith) h in
      rw (src_skip_eol, p.result) (skip_eol_at_lem alloc (p.after) (pending rest s) p.left p.ready)

  -- A source in which no line was found.
  record NoLine (whole : List ℕ) (r : Attempt (Source P) (List ℕ)) : Type 0 where
    after : Source P
    result : r ≡ minus_one after
    ready : IsReady rest after
    left : pending rest after ≡ whole

  -- A round over a chunk with no line feed.
  round-NoLine :
      (again : Source P → List ℕ → Attempt (Source P) (List ℕ)) (len : ℕ) (buf text : List ℕ)
      → ((s : Source P) (buf' : List ℕ)
          → pending rest s ≡ text
          → IsReady rest s
          → NoLine text (again s buf'))
      → (chunk : List ℕ) (s : Source P) → line_of chunk ≡ none
      → pending rest s ≡ text
      → IsReady rest s
      → NoLine text (peek_line_round read again len buf (returned chunk s))
  unfolding peek_line_round
  round-NoLine again len buf text loops [] s no_lf e h = record {
    after = s;
    result = refl;
    ready = h;
    left = e;
  }
  round-NoLine again len buf text loops (b ∷ bs) s no_lf e h =
      let buf' = buf ++ (b ∷ bs) in
      rw (scan-none buf (b ∷ bs) no_lf, peek_line_round)
        (elim (Bool-cases (ltb (length buf') len)) [
          | inl more ↦ rw more (loops s buf' e h)
          | inr full ↦ rw full (record { after = s; result = refl; ready = h; left = e })
        ])

  -- A round over a chunk with a line feed.
  round_found :
      (again : Source P → List ℕ → Attempt (Source P) (List ℕ)) (len : ℕ) (chunk l : List ℕ)
      (s : Source P)
      → line_of chunk ≡ some l
      → peek_line_round read again len [] (returned chunk s) ≡ returned (strip_cr l) s
  unfolding peek_line_round
  round_found again len [] l s found = cc
  round_found again len (b ∷ bs) l s found = rw (scan-some [] (b ∷ bs) l found, peek_line_round)

  -- How many bytes a round asks for.
  abbrev asked : ℕ → ℕ → ℕ
  asked len clen = if ltb len (clen + 64) then len - clen else 64

  asked-le : (len clen : ℕ) → asked len clen ≤ min 64 len
  asked-le len clen = ground arith

  -- Every round peeks at the first bytes of the source again, so a line feed that the first round
  -- did not see is never found.
  peek_line_loop-NoLine :
      (fuel len : ℕ) (s : Source P) (buf text : List ℕ)
      → line_of (take (min 64 len) text) ≡ none
      → pending rest s ≡ text
      → IsReady rest s
      → NoLine text (peek_line_loop read fuel len s buf)
  unfolding peek_line_loop
  peek_line_loop-NoLine zero len s buf text no_lf e h = record {
    after = s;
    result = refl;
    ready = h;
    left = e;
  }
  peek_line_loop-NoLine (suc fuel) len s buf text no_lf e h =
      let want = asked len (length buf) in
      let p = src_peek-Peeks read rest reader s want (omega (arith, asked-le len (length buf))) h in
      let seen : line_of (take want (pending rest s)) ≡ none =
        rw (e, ← take-take want (min 64 len) text (asked-le len (length buf)))
          (line_of-take want _ no_lf) in
      rw (p.result) (
        round-NoLine _ len buf text
          (λ s' buf' e' h'. peek_line_loop-NoLine fuel len s' buf' text no_lf e' h')
          (take want (pending rest s)) (p.after) seen (p.left ∙ e) p.ready)

  -- `src_peek_line` answers with the first line among the first `min(64, len - 1)` pending bytes,
  -- without its line feed and a carriage return in front of it, and with -1 if no line feed is among
  -- them; it takes nothing.
  pub src_peek_line_lem :
      (s : Source P) (len : ℕ)
      → 1 ≤ len
      → len < 2 ^ 64
      → IsReady rest s
      → (s' : Source P) × (src_peek_line read s len
          ≡ answer (line_of (take (min 64 (len - 1)) (pending rest s))) s')
        × (pending rest s' ≡ pending rest s)
        × IsReady rest s'
  unfolding src_peek_line peek_line_loop
  src_peek_line_lem s len pos small h = elim (Option-cases (line_of first)) [
    | inl none_there ↦
        let r =
          peek_line_loop-NoLine (suc (sub64 len 1)) (sub64 len 1) s [] (pending rest s)
            (rw exact none_there) refl h in
        (r.after, r.result ∙ rw none_there, r.left, r.ready)
    | inr (l, found) ↦
        let p =
          src_peek-Peeks read rest reader s (asked (sub64 len 1) 0)
            (omega (arith, asked-le (sub64 len 1) 0)) h in
        let same : take (asked (sub64 len 1) 0) (pending rest s) ≡ first =
          ap (λ k. take k (pending rest s)) (ground arith) in
        (
          p.after,
          first_round {l = l} p.after p.result (rw (same, found))
              ∙ ap (λ x. returned x p.after) (strip_cr_lem l)
              ∙ rw found,
          p.left,
          p.ready,
        )
  ]
    where
      first_round :
          {l : List ℕ} (s' : Source P)
          → src_peek read s (asked (sub64 len 1) 0)
            ≡ returned (take (asked (sub64 len 1) 0) (pending rest s)) s'
          → line_of (take (asked (sub64 len 1) 0) (pending rest s)) ≡ some l
          → peek_line_loop read (suc (sub64 len 1)) (sub64 len 1) s [] ≡ returned (strip_cr l) s'
      first_round {l} s' result found =
          rw (result, peek_line_loop)
            (round_found _ (sub64 len 1) (take (asked (sub64 len 1) 0) (pending rest s)) l s' found)

      exact : sub64 len 1 ≡ len - 1
      exact = omega arith

      first : List ℕ
      first = take (min 64 (len - 1)) (pending rest s)
