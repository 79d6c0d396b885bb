-- ===== src/Packet/Signature/Subpkts/Fuel.antt =====
-- The rounds of `signature_parse_subpackets`.
use rnp.Prelude.{
  ℕ, zero, suc, ◌+◌, ◌-◌, ◌≤◌, ◌<◌, ◌≡◌, refl, sym, ap, ◌∙◌, inl, inr, arith, Bool, true, false,
  not, ◌||◌,
}
use rnp.Prelude.{
  Option, none, some, List, [], ◌∷◌, length, drop, get_or, ltb, ne→==, Bool-cases, Option-cases,
  length-drop,
}
use rnp.Packet.Signature.{Signature}
use rnp.Packet.Signature.Subpkts.{
  subpkt_len, subpkt_size, list_append, new_subpkt, parse_if, take_subpkt, subpkts_loop,
}
use rnp.Packet.Signature.Subpkts.{signature_parse_subpackets}

abbrev found : ℕ → List ℕ → Option (ℕ × List ℕ)
found n rest = some (n, rest)

-- The loop gives a result.
abbrev Ends : Option (Bool × Signature) → Type 0
Ends left = (outcome : Bool × Signature) × (left ≡ some outcome)

-- The length of a subpacket takes a byte at least.
subpkt_len-shorter :
    (buf : List ℕ) (n : ℕ) (rest : List ℕ)
    → 0 < length buf
    → subpkt_len buf ≡ some (n, rest)
    → length rest < length buf
unfolding subpkt_len
subpkt_len-shorter buf n rest some_left e = elim (Bool-cases (ltb (get_or buf 0 0) 192)) [
  | inl one ↦ shorter 1 (omega arith) (simp one at e)
  | inr more ↦ elim (Bool-cases (ltb (get_or buf 0 0) 255)) [
    | inl two ↦ shorter 2 (omega arith) (simp (more, two) at e)
    | inr five ↦ elim (Bool-cases (ltb (length buf) 5)) [
      | inl missing ↦ absurd (let f = (simp (more, five, missing) at e) in cc)
      | inr there ↦ shorter 5 (omega arith) (simp (more, five, there) at e)
    ]
  ]
]
  where
    shorter :
        (k : ℕ) {m : ℕ} → 0 < k → found m (drop k buf) ≡ found n rest → length rest < length buf
    shorter k pos f =
        let same : drop k buf ≡ rest = ap (λ o. elim o [ none ↦ [] | some x ↦ x.1 ]) f in
        omega (arith, ap (λ (l : List ℕ). length l) same, length-drop {0} k buf)

module _ (alloc : ℕ → Bool) (hashed : Bool) where
  -- Two loops that agree on what is left agree on a subpacket.
  take_subpkt-agree :
      (again again' : Signature → List ℕ → Bool → Option (Bool × Signature))
      → (sig : Signature) (splen : ℕ) (buf : List ℕ) (res : Bool)
      → ((sig' : Signature) (res' : Bool)
          → again sig' (drop splen buf) res' ≡ again' sig' (drop splen buf) res')
      → take_subpkt alloc hashed again sig splen buf res
        ≡ take_subpkt alloc hashed again' sig splen buf res
  unfolding take_subpkt
  take_subpkt-agree again again' sig splen buf res same =
      elim (Bool-cases (ltb (length buf) splen || not (alloc (splen - 1)))) [
        | inl refused ↦ simp refused refl
        | inr taken ↦
            elim (Option-cases (
              list_append alloc sig.subpkts (parse_if res (new_subpkt buf splen hashed)).1
                subpkt_size)) [
                  | inl full ↦ simp (taken, full) refl
                  | inr (xs, added) ↦ simp (taken, added) (same _ _)
                ]
      ]

  loop_nil :
      (fuel : ℕ) (sig : Signature) (res : Bool)
      → subpkts_loop alloc hashed fuel sig [] res ≡ subpkts_loop alloc hashed 0 sig [] res
  unfolding subpkts_loop
  loop_nil zero sig res = refl
  loop_nil (suc fuel) sig res = refl

  -- Any two amounts of fuel that are as many as the bytes are worth the same.
  subpkts_loop-agree :
      (fuel fuel' : ℕ) (sig : Signature) (buf : List ℕ) (res : Bool)
      → length buf ≤ fuel
      → length buf ≤ fuel'
      → subpkts_loop alloc hashed fuel sig buf res ≡ subpkts_loop alloc hashed fuel' sig buf res
  unfolding subpkts_loop
  subpkts_loop-agree fuel fuel' sig [] res p q =
      loop_nil fuel sig res ∙ sym (loop_nil fuel' sig res)
  subpkts_loop-agree zero fuel' sig (b ∷ bs) res p q = absurd (omega arith)
  subpkts_loop-agree (suc fuel) zero sig (b ∷ bs) res p q = absurd (omega arith)
  subpkts_loop-agree (suc fuel) (suc fuel') sig (b ∷ bs) res p q =
      let first = ne→== (length (b ∷ bs)) 0 (omega arith) in
      elim (Bool-cases (ltb (length (b ∷ bs)) 2)) [
        | inl single ↦ simp (first, single) refl
        | inr more ↦ elim (Option-cases (subpkt_len (b ∷ bs))) [
          | inl missing ↦ simp (first, more, missing) refl
          | inr ((zero, rest), e) ↦
              let less = subpkt_len-shorter (b ∷ bs) 0 rest (omega arith) e in
              simp (first, more, e)
                (subpkts_loop-agree fuel fuel' sig rest res (omega (arith, less))
                  (omega (arith, less)))
          | inr ((suc n, rest), e) ↦
              let less = subpkt_len-shorter (b ∷ bs) (suc n) rest (omega arith) e in
              let left = length-drop {0} (suc n) rest in
              simp (first, more, e)
                (take_subpkt-agree _ _ sig (suc n) rest res (λ sig' res'.
                  subpkts_loop-agree fuel fuel' sig' (drop (suc n) rest) res'
                    (omega (arith, less, left)) (omega (arith, less, left))))
        ]
      ]

  -- A subpacket after which the loop ends.
  take_subpkt-Ends :
      (again : Signature → List ℕ → Bool → Option (Bool × Signature))
      → (sig : Signature) (splen : ℕ) (buf : List ℕ) (res : Bool)
      → ((sig' : Signature) (res' : Bool) → Ends (again sig' (drop splen buf) res'))
      → Ends (take_subpkt alloc hashed again sig splen buf res)
  unfolding take_subpkt
  take_subpkt-Ends again sig splen buf res left =
      elim (Bool-cases (ltb (length buf) splen || not (alloc (splen - 1)))) [
        | inl refused ↦ ((false, sig), simp refused refl)
        | inr taken ↦
            elim (Option-cases (
              list_append alloc sig.subpkts (parse_if res (new_subpkt buf splen hashed)).1
                subpkt_size)) [
                  | inl full ↦ ((false, sig), simp (taken, full) refl)
                  | inr (xs, added) ↦ rw (taken, added) (left _ _)
                ]
      ]

  -- As many rounds as bytes are enough.
  subpkts_loop-Ends :
      (fuel : ℕ) (sig : Signature) (buf : List ℕ) (res : Bool)
      → length buf ≤ fuel
      → Ends (subpkts_loop alloc hashed fuel sig buf res)
  unfolding subpkts_loop
  subpkts_loop-Ends zero sig [] res p = (_, refl)
  subpkts_loop-Ends (suc fuel) sig [] res p = (_, refl)
  subpkts_loop-Ends zero sig (b ∷ bs) res p = absurd (omega arith)
  subpkts_loop-Ends (suc fuel) sig (b ∷ bs) res p =
      let first = ne→== (length (b ∷ bs)) 0 (omega arith) in
      elim (Bool-cases (ltb (length (b ∷ bs)) 2)) [
        | inl single ↦ ((false, sig), simp (first, single) refl)
        | inr more ↦ elim (Option-cases (subpkt_len (b ∷ bs))) [
          | inl missing ↦ ((false, sig), simp (first, more, missing) refl)
          | inr ((zero, rest), e) ↦
              let less = subpkt_len-shorter (b ∷ bs) 0 rest (omega arith) e in
              rw (first, more, e) (subpkts_loop-Ends fuel sig rest res (omega (arith, less)))
          | inr ((suc n, rest), e) ↦
              let less = subpkt_len-shorter (b ∷ bs) (suc n) rest (omega arith) e in
              let left = length-drop {0} (suc n) rest in
              rw (first, more, e)
                (take_subpkt-Ends _ sig (suc n) rest res (λ sig' res'.
                  subpkts_loop-Ends fuel sig' (drop (suc n) rest) res' (omega (arith, less, left))))
        ]
      ]

  -- The loop of `signature_parse_subpackets` ends by its tests, whatever the bytes and the
  -- allocations: as many rounds as there are bytes, or more, give its result.
  pub signature_parse_subpackets-subpkts_loop :
      (sig : Signature) (buf : List ℕ) (more : ℕ)
      → subpkts_loop alloc hashed (length buf + more) sig buf true
        ≡ some (signature_parse_subpackets alloc hashed sig buf)
  unfolding signature_parse_subpackets
  signature_parse_subpackets-subpkts_loop sig buf more =
      let (outcome, e) = subpkts_loop-Ends (length buf) sig buf true (omega arith) in
      subpkts_loop-agree (length buf + more) (length buf) sig buf true (omega arith) (omega arith)
      ∙ rw (signature_parse_subpackets, e) refl
