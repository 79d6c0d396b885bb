-- ===== src/Parse/Partial/Cached.antt =====
-- `src_read` of src/librepgp/stream-common.c over the source for partial lengths of
-- src/librepgp/stream-parse.c, through the cache of that source.
use rnp.Prelude.{ℕ, ◌≤◌, ◌≡◌, refl, sym, ap, ◌∙◌, false, arith}
use rnp.Prelude.{List, length, take, drop, take_all, drop_all, Bool-cases, inl, inr, leb}
use rnp.Errors.{Attempt, returned}
use rnp.Stream.Source.{Source, init_src, src_read}
use rnp.Stream.Source.Reader.{IsReader, pending, IsReady}
use rnp.Stream.Source.Read.{src_read-Serves}
use rnp.Stream.Source.Along.{seen, over, src_read-seen}
use rnp.Stream.Line.{state}
use rnp.Packet.Input.{SourceOps, IsSource}
use rnp.Parse.Partial.{PartialSource, partial_pkt_src_read}
use rnp.Parse.Partial.Read.{Reads, partial_pkt_src_read-Reads}

module _ {S : Type 0} (ops : SourceOps S) (below : S → List ℕ) (IsFine : S → Type 0)
    (source : IsSource ops below IsFine) (behind : List ℕ) where
  -- The parameters, with the body that they have still to deliver.
  pub record Held : Type 0 where
    pub state : PartialSource S
    pub content : List ℕ
    pub reads : Reads ops below IsFine source state content behind

  described : Held → ℕ → Attempt Held (List ℕ)
  described h n =
      let (p, e, r) =
        partial_pkt_src_read-Reads ops below IsFine source h.state n h.content behind h.reads in
      returned (take n h.content) (record { state = p; content = drop n h.content; reads = r })

  described-IsReader : IsReader described (λ h. h.content)
  unfolding described
  described-IsReader = record {
    serve = λ h n some_asked. elim (Bool-cases (leb n (length h.content))) [
      | inl enough ↦ record {
        size = n;
        asked = omega arith;
        had = ground arith;
        progress = λ some_left. some_asked;
        after = state (described h n);
        result = refl;
        left = refl;
      }
      | inr short ↦
          let len = length h.content in
          let less : len ≤ n = ground arith in
          record {
            size = len;
            asked = less;
            had = omega arith;
            progress = λ some_left. some_left;
            after = state (described h n);
            result =
                ap (λ l. returned l (state (described h n)))
                  (take_all n h.content less ∙ sym (take_all len h.content (omega arith)));
            left = drop_all n h.content less ∙ sym (drop_all len h.content (omega arith));
          }
    ];
  }

  along :
      (h : Held) (n : ℕ)
      → partial_pkt_src_read ops false h.state n ≡ seen (λ (x : Held). x.state) (described h n)
  unfolding described
  along h n =
      (partial_pkt_src_read-Reads ops below IsFine source h.state n h.content behind h.reads).1

  -- A source that has the body `content` to deliver, in its cache or behind it.
  pub record Streams (src : Source (PartialSource S)) (content : List ℕ) : Type 0 where
    pub view : Source Held
    pub views : over (λ h. h.state) view ≡ src
    pub ready : IsReady (λ (h : Held). h.content) view
    pub holds : pending (λ (h : Held). h.content) view ≡ content

  pub init_src-Streams :
      (p : PartialSource S) (content : List ℕ)
      → Reads ops below IsFine source p content behind
      → Streams (init_src p false 0) content
  unfolding init_src
  init_src-Streams p content h = record {
    view = init_src (record { state = p; content = content; reads = h }) false 0;
    views = refl;
    ready = record {
      cursor = omega arith;
      room = omega arith;
      at_eof = λ e. absurd (ground arith);
      sized = λ e. absurd (ground arith);
      fits = omega arith;
      narrow = λ e. absurd (ground arith);
    };
    holds = refl;
  }

  -- `src_read` of a source for partial lengths, whatever is in its cache, returns the next bytes of the
  -- body, as many as asked for or as there are, whatever parts they lie in, and leaves the others to
  -- read.
  pub src_read-Streams :
      (src : Source (PartialSource S)) (content : List ℕ) (n : ℕ)
      → Streams src content
      → (src' : Source (PartialSource S)) × (src_read (partial_pkt_src_read ops false) src n
          ≡ returned (take n content) src')
        × Streams src' (drop n content)
  src_read-Streams src content n h =
      let callback = partial_pkt_src_read ops false in
      let served = src_read-Serves described (λ x. x.content) described-IsReader h.view n h.ready in
      (
        over (λ x. x.state) served.after,
        ap (λ s. src_read callback s n) (sym h.views)
            ∙ src_read-seen (λ x. x.state) callback described along h.view n
            ∙ ap (seen (over (λ x. x.state))) served.result
            ∙ ap (λ l. returned (take n l) (over (λ x. x.state) served.after)) h.holds,
        record {
          view = served.after;
          views = refl;
          ready = served.ready;
          holds = served.left ∙ ap (λ l. drop n l) h.holds;
        },
      )
