-- ===== src/Stream/Ops.antt =====
-- The `src_*` functions of src/librepgp/stream-common.c as the source that the packet code of
-- src/librepgp/stream-packet.c reads from.
use rnp.Prelude.{ℕ, ◌+◌, ◌≡◌, ◌∙◌, Bool, arith, List, length, take, min}
use rnp.Errors.{Attempt}
use rnp.Stream.Source.{Source, src_read, src_peek, src_skip, u64}
use rnp.Stream.Source.Reader.{IsReader, pending, IsReady}
use rnp.Stream.Source.Read.{src_read-Serves}
use rnp.Stream.Source.Peek.{src_peek-Peeks}
use rnp.Stream.Source.Skip.{src_skip-Skips}
use rnp.Packet.Input.{SourceOps, IsSource}

module _ {P : Type 0} (read : P → ℕ → Attempt P (List ℕ)) (alloc : ℕ → Bool) where
  -- The operations that a source with this `read` callback has.
  abbrev pub source_ops : SourceOps (Source P)
  source_ops = record {
    read = src_read read;
    peek = src_peek read;
    skip = src_skip read alloc;
    readb = λ s. s.readb;
    alloc = alloc;
  }

  -- `src_read`, `src_peek` and `src_skip` keep the laws that the packet code relies on, over every
  -- callback that keeps its contract.
  pub source_ops-IsSource :
      (rest : P → List ℕ) → IsReader read rest → IsSource source_ops (pending rest) (IsReady rest)
  source_ops-IsSource rest reader = record {
    read_law = λ s n xs r at.
        let v = src_read-Serves read rest reader s n at.ready in
        rw (← at.holds) (
          v.after,
          v.result,
          record {
            ready = v.ready;
            holds = v.left;
            counts = counted s (length (take n (pending rest s))) r at.counts v.counted;
          },
        );
    peek_law = λ s n xs r small at.
        let v = src_peek-Peeks read rest reader s n small at.ready in
        rw (← at.holds) (
          v.after,
          v.result,
          record { ready = v.ready; holds = v.left; counts = v.counted ∙ at.counts },
        );
    skip_law = λ s n xs r memory at.
        let v = src_skip-Skips read rest reader alloc s n memory at.ready in
        rw (← at.holds) (
          v.after,
          v.result,
          record {
            ready = v.ready;
            holds = v.left;
            counts = counted s (min n (length (pending rest s))) r at.counts v.counted;
          },
        );
  }
    where
      counted :
          (s : Source P) (k r : ℕ) {m : ℕ}
          → s.readb ≡ u64 r
          → m ≡ u64 (s.readb + k)
          → m ≡ u64 (r + k)
      counted s k r e f = f ∙ omega arith
