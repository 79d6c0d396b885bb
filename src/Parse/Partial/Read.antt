-- ===== src/Parse/Partial/Read.antt =====
-- Reading of a body in parts, for src/librepgp/stream-parse.c.
use rnp.Prelude.{
  ℕ, zero, suc, ◌+◌, ◌-◌, ◌≤◌, ◌<◌, ◌^◌, ◌≡◌, refl, sym, ap, ◌∙◌, inl, inr, Bool, true, false,
  arith,
}
use rnp.Prelude.{List, [], ◌∷◌, ◌++◌, length, take, drop, ltb, ◌==◌, if◌then◌else◌, Bool-cases}
use rnp.Prelude.{
  append_assoc, append-nil, length-append, length-take, length-drop, length-eq-zero, take_split,
  drop_split, take-append_le, drop-append_le, take-nil, drop-nil, ==→eq,
}
use rnp.Prelude.Bits.{part_size_pos}
use mathlib.Core.Path.{subst}
use rnp.Errors.{Attempt, returned}
use rnp.Packet.Input.{SourceOps, IsSource, At, Hits}
use rnp.Packet.Length.{write_packet_len}
use rnp.Parse.Partial.{PartialSource, next_part, read_chunk, read_parts}
use rnp.Parse.Partial.{partial_pkt_src_read}
use rnp.Parse.Partial.Next.{next_len-part, next_len-last}
use rnp.Write.Partial.Parts.{Parts, last, more}

module _ {S : Type 0} (ops : SourceOps S) (pending : S → List ℕ) (IsReady : S → Type 0)
    (source : IsSource ops pending IsReady) where
  -- The source `p` has the body `content` to deliver, and `rest` lies behind the packet.
  pub data Reads (p : PartialSource S) (content rest : List ℕ) : Type 0 where
    in_last :
        (r : ℕ)
        → p.is_last ≡ true
        → length content ≡ p.pleft
        → At ops pending IsReady p.readsrc (content ++ rest) r
        → Reads p content rest
    in_part :
        (r : ℕ) (part wire after : List ℕ)
        → p.is_last ≡ false
        → length part ≡ p.pleft
        → Parts wire after
        → content ≡ part ++ after
        → At ops pending IsReady p.readsrc (part ++ (wire ++ rest)) r
        → Reads p content rest

  -- A part has its bytes.
  Reads-le :
      (p : PartialSource S) (content rest : List ℕ)
      → Reads p content rest
      → p.pleft ≤ length content
  Reads-le p content rest (in_last r e size h) = omega arith
  Reads-le p content rest (in_part r part wire after e size w c h) =
      rw c (omega (arith, length-append {0} part after))

  -- What lies at the front of `xs ++ ys` and of `xs ++ zs` is the same within `xs`.
  serve_front :
      (n : ℕ) (xs ys : List ℕ) (r : ℕ) (s : S)
      → n ≤ length xs
      → At ops pending IsReady s (xs ++ ys) r
      → Hits ops pending IsReady
          (ops.read s n)
          (take n xs)
          (drop n xs ++ ys)
          (r + length (take n xs))
  serve_front n xs ys r s le h =
      rw (← take-append_le n xs ys le, ← drop-append_le n xs ys le) (source.read_law s n _ r h)

  -- A read within the current part.
  serve :
      (p : PartialSource S) (content rest : List ℕ) (n : ℕ)
      → n ≤ p.pleft
      → Reads p content rest
      → (s : S) × (ops.read p.readsrc n ≡ returned (take n content) s)
        × Reads (record p { readsrc = s; pleft = p.pleft - n }) (drop n content) rest
  serve p content rest n le (in_last r e size h) =
      let (s, f, h') = serve_front n content rest r p.readsrc (omega arith) h in
      (s, f, in_last _ e (omega (arith, length-drop {0} n content)) h')
  serve p content rest n le (in_part r part wire after e size w c h) =
      let (s, f, h') = serve_front n part (wire ++ rest) r p.readsrc (omega arith) h in
      let inside : n ≤ length part = omega arith in
      (
        s,
        f ∙ ap (λ l. returned l s) (sym (take-append_le n part after inside) ∙ ap (take n) (sym c)),
        in_part _ (drop n part) wire after e (omega (arith, length-drop {0} n part)) w
            (ap (drop n) c ∙ drop-append_le n part after inside) h',
      )

  -- The loop's promise: the next `len` bytes behind those read, or all that are left.
  abbrev Delivers :
      (PartialSource S → ℕ → List ℕ → Attempt (PartialSource S) (List ℕ))
      → PartialSource S
      → ℕ
      → List ℕ
      → List ℕ
      → List ℕ
      → Type 0
  Delivers loop p len buf content rest =
      (p' : PartialSource S) × (loop p len buf ≡ returned (buf ++ take len content) p')
      × Reads p' (drop len content) rest

  read_chunk_some :
      (again : PartialSource S → ℕ → List ℕ → Attempt (PartialSource S) (List ℕ))
      (p : PartialSource S) (len m : ℕ) (buf bs : List ℕ) (s : S)
      → ops.read p.readsrc (if ltb len p.pleft then len else p.pleft) ≡ returned bs s
      → length bs ≡ m
      → 0 < m
      → read_chunk ops again p len buf
        ≡ again (record p { readsrc = s; pleft = p.pleft - m }) (len - m) (buf ++ bs)
  unfolding read_chunk
  read_chunk_some again p len m buf [] s e size some = absurd (omega arith)
  read_chunk_some again p len m buf (b ∷ bs) s e size some =
      rw (e, read_chunk)
        (ap (λ k. again (record p { readsrc = s; pleft = p.pleft - k }) (len - k) (buf ++ (b ∷ bs)))
          size)

  read_chunk-Delivers :
      (fuel : ℕ)
      → ((p : PartialSource S) (len : ℕ) (buf content rest : List ℕ)
          → len ≤ fuel
          → Reads p content rest
          → Delivers (read_parts ops fuel) p len buf content rest)
      → (p : PartialSource S) (len : ℕ) (buf content rest : List ℕ) → len ≤ suc fuel
      → 0 < len
      → 0 < p.pleft
      → Reads p content rest
      → Delivers (read_chunk ops (read_parts ops fuel)) p len buf content rest
  read_chunk-Delivers fuel again p len buf content rest enough some left h =
      let n = if ltb len p.pleft then len else p.pleft in
      let within : n ≤ p.pleft = ground arith in
      let less : n ≤ len = ground arith in
      let positive : 0 < n = ground arith in
      let all = Reads-le p content rest h in
      let size : length (take n content) ≡ n = omega (arith, length-take {0} n content) in
      let (s, e, h') = serve p content rest n within h in
      let (p', f, h'') =
        again (record p { readsrc = s; pleft = p.pleft - n }) (len - n) (buf ++ take n content)
          (drop n content) rest (omega (arith, enough, positive)) h' in
      (
        p',
        read_chunk_some (read_parts ops fuel) p len n buf (take n content) s e size positive
            ∙ f
            ∙ ap (λ l. returned l p')
                (append_assoc buf (take n content) (take (len - n) (drop n content))
                  ∙ ap (λ l. buf ++ l) (take_split n len content less)),
        subst (λ l. Reads p' l rest) (drop_split n len content less) h'',
      )

  abbrev entered : PartialSource S → ℕ → Bool → S → PartialSource S
  entered p size is_last s = record p { readsrc = s; psize = size; pleft = size; is_last = is_last }

  -- The header of the next part moves the source into it.
  next_part-Reads :
      (p : PartialSource S) (content rest : List ℕ)
      → p.pleft ≡ 0
      → p.is_last ≡ false
      → Reads p content rest
      → (p' : PartialSource S) × (next_part ops p ≡ returned tt p')
        × Reads p' content rest
        × (p'.pleft ≡ 0 → content ≡ [])
  unfolding next_part
  next_part-Reads p content rest none middle (in_last r e size h) = cc
  next_part-Reads p content rest none middle (in_part r (b ∷ bs) wire after e size w c h) =
      absurd (omega arith)
  next_part-Reads p content rest none middle (in_part r [] wire after e size (last fits f) c h) =
      let (r', (s, g, h')) =
        next_len-last ops pending IsReady source (length after) (after ++ rest) r p.readsrc fits (
          subst (λ l. At ops pending IsReady p.readsrc l r)
            (ap (λ l. l ++ rest) f ∙ append_assoc (write_packet_len (length after)) after rest)
            h) in
      (
        entered p (length after) true s,
        rw (g, next_part) refl,
        in_last r' refl (ap (λ (l : List ℕ). length l) c)
            (subst (λ l. At ops pending IsReady s (l ++ rest) r') (sym c) h'),
        λ empty. c ∙ length-eq-zero after empty,
      )
  next_part-Reads p content rest none middle
        (in_part r [] wire after e size (more k part wire' after' small len w f g) c h) =
      let (s, eq, h') =
        next_len-part ops pending IsReady source k (part ++ (wire' ++ rest)) r p.readsrc small (
          subst (λ l. At ops pending IsReady p.readsrc l r)
            (ap (λ l. l ++ rest) f ∙ ap (λ l. (k + 224) ∷ l) (append_assoc part wire' rest)) h) in
      (
        entered p (2 ^ k) false s,
        rw (eq, next_part) refl,
        in_part (r + 1) part wire' after' refl len w (c ∙ g) h',
        λ empty. absurd (omega (arith, part_size_pos k small)),
      )

  -- Where no part is left, all is read.
  Reads-nil :
      (p : PartialSource S) (content rest : List ℕ)
      → p.pleft ≡ 0
      → p.is_last ≡ true
      → Reads p content rest
      → content ≡ []
  Reads-nil p content rest none end (in_last r e size h) = length-eq-zero content (omega arith)
  Reads-nil p content rest none end (in_part r part wire after e size w c h) = cc

  finished :
      (p : PartialSource S) (len : ℕ) (buf content rest : List ℕ)
      → content ≡ []
      → Reads p content rest
      → Delivers (λ p' len' buf'. returned buf' p') p len buf content rest
  finished p len buf content rest none h = (
    p,
    ap (λ l. returned l p)
        (sym (append-nil buf) ∙ ap (λ l. buf ++ l) (sym (ap (take len) none ∙ take-nil len))),
    subst (λ l. Reads p l rest) (none ∙ sym (ap (drop len) none ∙ drop-nil len)) h,
  )

  read_parts-Delivers :
      (fuel : ℕ) (p : PartialSource S) (len : ℕ) (buf content rest : List ℕ)
      → len ≤ fuel
      → Reads p content rest
      → Delivers (read_parts ops fuel) p len buf content rest
  unfolding read_parts
  read_parts-Delivers zero p len buf content rest enough h =
      let none : len ≡ 0 = omega arith in
      rw none (p, ap (λ l. returned l p) (sym (append-nil buf)), h)
  read_parts-Delivers (suc fuel) p len buf content rest enough h = elim (Bool-cases (len == 0)) [
    | inl none ↦ rw (none, ==→eq _ _ none) (p, ap (λ l. returned l p) (sym (append-nil buf)), h)
    | inr some ↦ elim (Bool-cases (p.pleft == 0)) [
      | inr inside ↦
          simp (some, inside)
            (read_chunk-Delivers fuel (read_parts-Delivers fuel) p len buf content rest enough
              (ground arith) (ground arith) h)
      | inl used ↦ elim (Bool-cases p.is_last) [
        | inl end ↦
            simp (some, used, end)
              (finished p len buf content rest (Reads-nil p content rest (==→eq _ _ used) end h) h)
        | inr middle ↦
            let (p', e, h', nothing) = next_part-Reads p content rest (==→eq _ _ used) middle h in
            elim (Bool-cases (p'.pleft == 0)) [
              | inl empty ↦
                  simp (some, used, middle, e, empty)
                    (finished p' len buf content rest (nothing (==→eq _ _ empty)) h')
              | inr left ↦
                  simp (some, used, middle, e, left)
                    (read_chunk-Delivers fuel (read_parts-Delivers fuel) p' len buf content rest
                      enough (ground arith) (ground arith) h')
            ]
      ]
    ]
  ]

  -- `partial_pkt_src_read` returns the next bytes of the body, as many as asked for or as there
  -- are, whatever parts they lie in, and leaves the others to read; what lies behind the packet is
  -- not touched.
  pub partial_pkt_src_read-Reads :
      (p : PartialSource S) (len : ℕ) (content rest : List ℕ)
      → Reads p content rest
      → (p' : PartialSource S) × (partial_pkt_src_read ops false p len
          ≡ returned (take len content) p')
        × Reads p' (drop len content) rest
  unfolding partial_pkt_src_read
  partial_pkt_src_read-Reads p len content rest h =
      read_parts-Delivers len p len [] content rest (omega arith) h
