-- ===== src/Lib.antt =====
-- The streams, the armor and the packet reader and writer of rnp, an OpenPGP implementation in C.
--
-- A source (`pgp_source_t`) delivers bytes through a `read` callback, with a cache for reading
-- ahead; a destination (`pgp_dest_t`) takes bytes through a `write` callback, with a cache of its
-- own. The packet code reads headers, numbers, session keys and signatures from a source, and
-- writes them to a destination by building each packet in memory first. Armor and packets of partial
-- lengths are streams over streams: their callbacks call the functions of the stream below.
--
-- Files and code:
--   Prelude: tests on numbers, lists over the native numbers, masks of bytes.
--   Errors: the result codes of include/rnp/rnp_def.h, and the two shapes of a result: -1 or a
--     value (`Attempt`), and an error code or a filled structure (`Parsed`). Both carry the state.
--   Stream/Source: `src_read`, `src_peek`, `src_skip` and `src_eof` of
--     src/librepgp/stream-common.c, the source as explicit state. Its children: Reader, the
--     contract of a callback and the invariant of a source; Cursor, Rounds, Fill, Read, Peek and
--     Skip, the proofs for each function; AtEnd, a source that has come to its end; Along, a source
--     over a callback that another callback describes.
--   Stream/Line: `src_skip_eol` and `src_peek_line`. Lines describes lines and their ends, Found is
--     about the two functions.
--   Stream/Memory: `init_mem_src` and `mem_src_read`, the memory source.
--   Stream/Dest: `dst_write`, `dst_finish` and `dst_close`; Stream/Dest/Memory: `init_mem_dest` and
--     `mem_dst_write`. Sink is a destination that never fails, Writes any number of writes, Given
--     what the callback of a destination with a cache was given by any number of writes.
--   Stream/Ops: the functions of Stream/Source as the interface that the packet code takes.
--   Packet/Input: that interface, a record of operations and a record of laws, and the sequencing
--     of reading steps.
--   Packet/Length, Packet/Mpi, Packet/Body: lengths, multiprecision integers and packet bodies of
--     src/librepgp/stream-packet.c; Packet/Body/Whole: `stream_read_packet_body`.
--   Packet/SkSesskey, Packet/PkSesskey, Packet/OnePass: the packets with those names,
--     `stream_parse_*` in the child Parse and `stream_write_*` in the parent.
--   Packet/Signature: signatures and the functions that look into them; the subpackets in Subpkt
--     and Subpkts, `stream_parse_signature` in Parse. `list_append` of src/lib/list.c is there too.
--     Content, RoundTrip, Older and Truncated are about packets of version 4, and 2 and 3. The
--     children of Subpkts are about a region of subpackets, Subpkt/Checked says which subpackets are
--     accepted.
--   Packet/Transfer: writing a packet and reading it back.
--   Write/Partial, Write/Packet: the destination for partial lengths, and `init_streamed_packet` and
--     `finish_streamed_packet`, of src/librepgp/stream-write.c. Write/Partial/Parts describes the
--     format, Written and Sent are about the operations.
--   Write/Literal: the destination for literal data; Made is about it.
--   Parse/Partial, Parse/Packet: the source for partial lengths, and `init_packet_params`, of
--     src/librepgp/stream-parse.c. Next, Read, Init, Cached and Opened are about the operations.
--   Parse/Literal: `init_literal_src` and `literal_src_read`; Fields and Made are about them.
--   Transfer: the one written and the other read.
--   Armor/Base64, Armor/Dest: the tables and the armoring destination of
--     src/librepgp/stream-armor.c. Armor/Reference describes the text that is to be written; Line,
--     Rounds, Written, Room, Finished, Format and Message are about the operations.
--   Armor/Source: the data of the dearmoring source; Header: `init_armored_src`; Lines: padding,
--     checksum and trailer; Read: `armored_src_read`. Decode and Read/Endless are about them.
--   Armor/Convert: `rnp_armor_source`; Rounds and Whole are about its loop and the whole call.
--   Runs: concrete sources and destinations, and the theorems on concrete packets.
--
-- Bytes are numbers below 256. `size_t`, `ssize_t` and `uint64_t` have 64 bits, and the
-- subtractions that can wrap are written modulo 2^64. A buffer and its length are a list.
--
-- Loops: the loop of `src_read` has as much fuel as bytes are asked for, that of `src_peek` as much
-- as the length, that of `src_peek_line` as much as the buffer, and that of
-- `signature_parse_subpackets` as much as the bytes: each round takes a byte at least or ends the
-- loop. The results on `src_read`, `src_peek` and `src_peek_line` say what every call of a ready
-- source returns, and that on `signature_parse_subpackets` that its loop ends by its tests. The loops
-- of partial lengths take a byte or a part in each round, that of `armored_dst_write` three bytes, and
-- the results on them say what they return. The fuel of `rnp_armor_source`, `armored_src_read` and
-- `armor_parse_headers` is an argument, and `none` stands for a loop that goes on. The first takes a
-- byte in each round but the last; for the second no fuel is enough at a source that ends without a
-- `=`.
--
-- Parameters: the callbacks of sources and destinations, with their contracts `IsReader` and
-- `IsWriter`, and the allocator, a function that says which sizes it can serve; where one object is
-- allocated, a Boolean says whether it is. The checksum of armored data is a hash of the Botan
-- library, of which the destination assumes that adding two buffers is adding their bytes (`IsHash`).
-- `package_string` comes from the build. `outside` stands for what the table of base64 is read as at
-- a negative index.
--
-- Not modelled: the `close` callbacks, which free their parameters; `rnp_dearmor_source` and
-- `is_armored_source`; the file and the standard streams; the stream stages that encrypt, sign and
-- compress; key stores, the older packet parser, the cryptographic primitives and the command-line
-- tools. Freed memory is not modelled: a structure that the code frees on an error is not returned.
pub mod Prelude
pub mod Errors
pub mod Stream
pub mod Packet
pub mod Parse
pub mod Write
pub mod Armor
pub mod Transfer
pub mod Runs
