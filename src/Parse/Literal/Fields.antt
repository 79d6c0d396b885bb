-- ===== src/Parse/Literal/Fields.antt =====
-- How `init_literal_src` of src/librepgp/stream-parse.c reads the fields of a literal packet.
use rnp.Prelude.{ℕ, ◌+◌, ◌≤◌, ◌<◌, ◌^◌, ◌≡◌, refl, sym, ap, ◌∙◌, false, arith}
use rnp.Prelude.{List, [], ◌∷◌, ◌++◌, length, take, drop, append_assoc, take-append_le}
use rnp.Prelude.{
  drop-append_le, take-append_exact, drop-append_exact, length-append, append-nil, get_or, ltb,
  ◌==◌,
}
use mathlib.Core.Path.{subst}
use rnp.Errors.{returned, Parsed, done}
use rnp.Stream.Source.{Source}
use rnp.Packet.Input.{SourceOps, IsSource, At, ◌>>=◌}
use rnp.Packet.Length.{store32be, read_uint32}
use rnp.Packet.Length.RoundTrip.{length-store32be, read_uint32-store32be}
use rnp.Parse.Partial.Cached.{Streams, src_read-Streams}
use rnp.Parse.Packet.{ReadSource, whole, parts}
use rnp.Parse.Literal.{text_of, read_from, read_bytes}
use rnp.Parse.Literal.{read_name, read_time, read_named, literal_fields}
use rnp.Write.Literal.Made.{fields}

module _ {S : Type 0} (ops : SourceOps S) (pending : S → List ℕ) (IsReady : S → Type 0)
    (source : IsSource ops pending IsReady) (behind : List ℕ) where
  -- The source of a packet has the body `content` to deliver; `behind` lies behind the packet.
  pub data HasBody (content : List ℕ) : ReadSource S → Type 0 where
    in_source :
        (k : ℕ) (s : S) → At ops pending IsReady s (content ++ behind) k → HasBody content (whole s)
    in_stream :
        (src : Source _)
        → Streams ops pending IsReady source behind src content
        → HasBody content (parts src)

  read_from-HasBody :
      (n : ℕ) (content : List ℕ) (r : ReadSource S)
      → n ≤ length content
      → HasBody content r
      → (r' : ReadSource S) × (read_from ops r n ≡ returned (take n content) r')
        × HasBody (drop n content) r'
  unfolding read_from
  read_from-HasBody n content r le (in_source k s h) =
      let (s', e, h') = source.read_law s n (content ++ behind) k h in
      (
        whole s',
        rw (e, read_from) (ap (λ l. returned l (whole s')) (take-append_le n content behind le)),
        in_source (k + length (take n (content ++ behind))) s' (
            subst (λ l. At ops pending IsReady s' l (k + length (take n (content ++ behind))))
              (drop-append_le n content behind le) h'),
      )
  read_from-HasBody n content r le (in_stream src h) =
      let (src', e, h') = src_read-Streams ops pending IsReady source behind src content n h in
      (parts src', rw (e, read_from) refl, in_stream src' h')

  -- A step that returns `a` and leaves `content`.
  abbrev pub Reaches {ℓ} : {A : Type ℓ} → Parsed (ReadSource S) A → A → List ℕ → Type ℓ
  Reaches m a content = (r : ReadSource S) × (m ≡ done a r) × HasBody content r

  bind-Reaches {ℓ κ} :
      {A : Type ℓ} {B : Type κ} (m : ReadSource S → Parsed (ReadSource S) A)
      (f : A → ReadSource S → Parsed (ReadSource S) B) {r : ReadSource S} {a : A} {b : B}
      {content left : List ℕ}
      → Reaches (m r) a content
      → ((r' : ReadSource S) → HasBody content r' → Reaches (f a r') b left)
      → Reaches ((m >>= f) r) b left
  unfolding ◌>>=◌
  bind-Reaches m f (r', e, h) next = let (t, e', h') = next r' h in (t, rw (e, ◌>>=◌) e', h')

  read_bytes-Reaches :
      (n : ℕ) (xs ys : List ℕ) (r : ReadSource S)
      → length xs ≡ n
      → HasBody (xs ++ ys) r
      → Reaches (read_bytes ops n r) xs ys
  unfolding read_bytes
  read_bytes-Reaches n xs ys r len h =
      let le : n ≤ length (xs ++ ys) = omega (arith, length-append {0} xs ys) in
      let (r', e, h') = read_from-HasBody n (xs ++ ys) r le h in
      let got : take n (xs ++ ys) ≡ xs = take-append_exact n xs ys len in
      let left : drop n (xs ++ ys) ≡ ys = drop-append_exact n xs ys len in
      let enough : ltb (length xs) n ≡ false = ground arith in
      (r', rw (e, read_bytes, got, enough) refl, subst (λ l. HasBody l r') left h')

  read_name-Reaches :
      (name ys : List ℕ) (r : ReadSource S)
      → HasBody (name ++ ys) r
      → Reaches (read_name ops (length name) r) name ys
  unfolding read_name
  read_name-Reaches [] ys r h = (r, refl, h)
  read_name-Reaches (c ∷ cs) ys r h =
      let some_name : (length (c ∷ cs) == 0) ≡ false = ground arith in
      rw some_name (read_bytes-Reaches (length (c ∷ cs)) (c ∷ cs) ys r refl h)

  read_time-Reaches :
      (name bytes : List ℕ) (time : ℕ) (r : ReadSource S)
      → time < 2 ^ 32
      → HasBody (store32be time ++ bytes) r
      → Reaches (read_time ops false name r) (false, name, time) bytes
  unfolding read_time
  read_time-Reaches name bytes time r small h =
      let stamp = store32be time in
      let when : read_uint32 stamp ≡ time =
        ap read_uint32 (sym (append-nil stamp)) ∙ read_uint32-store32be time [] small in
      bind-Reaches (read_bytes ops 4) (λ t. done (false, name, read_uint32 t))
        (read_bytes-Reaches 4 stamp bytes r (length-store32be time) h)
        (λ r' h'. (r', ap (λ t. done (false, name, t) r') when, h'))

  read_named-Reaches :
      (name bytes : List ℕ) (time : ℕ) (r : ReadSource S)
      → time < 2 ^ 32
      → HasBody ((length name ∷ []) ++ (name ++ (store32be time ++ bytes))) r
      → Reaches (read_named ops false r) (false, name, time) bytes
  unfolding read_named
  read_named-Reaches name bytes time r small h =
      let stamp = store32be time in
      bind-Reaches (read_bytes ops 1)
        (λ len. read_name ops (get_or len 0 0) >>= read_time ops false)
        (read_bytes-Reaches 1 (length name ∷ []) (name ++ (stamp ++ bytes)) r refl h)
        (λ r1 h1.
          bind-Reaches (read_name ops (length name)) (read_time ops false)
            (read_name-Reaches name (stamp ++ bytes) r1 h1)
            (λ r2 h2. read_time-Reaches name bytes time r2 small h2))

  pub literal_fields-Reaches :
      (name bytes : List ℕ) (time : ℕ) (r : ReadSource S)
      → time < 2 ^ 32
      → HasBody (fields name time ++ bytes) r
      → Reaches (literal_fields ops r) (false, name, time) bytes
  unfolding literal_fields text_of
  literal_fields-Reaches name bytes time r small h =
      let stamp = store32be time in
      let whole_body : fields name time ++ bytes
          ≡ (98 ∷ []) ++ ((length name ∷ []) ++ (name ++ (stamp ++ bytes))) =
        simp append_assoc in
      bind-Reaches (read_bytes ops 1) (λ format. text_of (get_or format 0 0) >>= read_named ops)
        (read_bytes-Reaches 1 (98 ∷ []) ((length name ∷ []) ++ (name ++ (stamp ++ bytes))) r refl
          (subst (λ l. HasBody l r) whole_body h))
        (λ r1 h1.
          bind-Reaches (text_of 98) (read_named ops) (r1, refl, h1)
            (λ r2 h2. read_named-Reaches name bytes time r2 small h2))
