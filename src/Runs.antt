-- ===== src/Runs.antt =====
-- Sources and destinations to run the code on: bytes in memory, and a log of what is written.
pub mod Streams
pub mod Packets
pub mod Signatures
pub mod Transfers
pub mod Streamed
pub mod Armored
use rnp.Prelude.{ℕ, ◌<◌, ◌^◌, ◌≡◌, refl, Bool, true, false, arith, List, [], ◌++◌, length}
use rnp.Errors.{RnpResult, success}
use rnp.Stream.Source.{Source}
use rnp.Stream.Source.Reader.{pending, IsReady}
use rnp.Stream.Memory.{MemParam, mem_src_read, init_mem_src, mem_rest, mem_src_read-IsReader}
use rnp.Stream.Memory.{init_mem_src_lem}
use rnp.Stream.Ops.{source_ops, source_ops-IsSource}
use rnp.Stream.Dest.{Dest, init_dst, dst_write}
use rnp.Stream.Dest.Write.{IsWriter, IsOpen, accepted}
use rnp.Stream.Dest.Sink.{dst_write-IsDest}
use rnp.Packet.Input.{SourceOps, IsSource, At}
use rnp.Packet.Body.Build.{IsDest}

abbrev pub memory : ℕ → Bool
memory n = true

abbrev pub ops : SourceOps (Source MemParam)
ops = source_ops mem_src_read memory

abbrev pub pend : Source MemParam → List ℕ
pend s = pending mem_rest s

abbrev pub Ready : Source MemParam → Type 0
Ready s = IsReady mem_rest s

pub source : IsSource ops pend Ready
source = source_ops-IsSource mem_src_read memory mem_rest mem_src_read-IsReader

-- A memory source with these bytes.
pub begins : (mem : List ℕ) → length mem < 2 ^ 64 → At ops pend Ready (init_mem_src mem) mem 0
unfolding init_mem_src
begins mem small =
    let (holds, ready) = init_mem_src_lem mem small in
    record { ready = ready; holds = holds; counts = refl }

abbrev pub log_write : List ℕ → ℕ → List ℕ → RnpResult × List ℕ
log_write log n bytes = (success, log ++ bytes)

pub log_write-IsWriter : IsWriter log_write (λ log. log)
log_write-IsWriter = record { store = λ p n bytes e ok. refl }

abbrev pub empty_log : Dest (List ℕ)
empty_log = init_dst [] false

pub empty_log-IsOpen : IsOpen (λ log. log) empty_log
unfolding init_dst
empty_log-IsOpen = record { good = refl; counts = refl; room = omega arith; direct = λ e. refl }

pub log-IsDest : IsDest (dst_write log_write) (accepted (λ log. log)) (IsOpen (λ log. log))
log-IsDest = dst_write-IsDest log_write (λ log. log) log_write-IsWriter (λ p n bytes. refl)
