-- ===== src/Lib.antt =====
-- VectorTick: the wire protocol VTP1 and what it stands on; queries, their intermediate representation
-- and its reference interpreter.
--
-- A market data event travels as one frame: a header of 40 bytes with a CRC32C checksum, and a payload
-- whose layout the message type gives. The encoder fills in the payload behind the header and lets
-- `Frame::write_frame` seal it; the decoder reads the frame, validates it, checks the sequence number
-- and rebuilds the event. Below that are byte order conversion and the checksum.
--
-- A query's expressions are lowered to instructions in SSA form, one block for a query, which the
-- reference interpreter executes for an event or accumulates over events.
--
-- Files and code (paths from the repository's root):
--   Memory: raw memory behind a `byte*` and std::memcpy to and from integers, as functions from offsets.
--   Endian: include/vectortick/common/endian.hpp; a host's byte order is a Boolean parameter.
--   Crc32c: src/common/crc32c.cpp. The static table and its flag are the record `Crc`; the CRC instructions
--     of a processor are a record `CrcUnit`, whose documented behaviour is `Hardware.IsCrc32c`. Checksum
--     is the interface that frames are built on, a record of the operation and its law.
--   Status: include/vectortick/common/status.hpp and result.hpp.
--   Event: include/vectortick/common/types.hpp and model/event.hpp.
--   Protocol: include/vectortick/protocol/frame.hpp (Header, Metadata, MessageType, Frame), messages.hpp
--     (Quote, Trade, BookDelta, StatusMessage, Heartbeat), decoder.hpp and src/protocol/decoder.cpp
--     (Decoder, Encoder). A method that changes its object returns the new one beside its result.
--   Codec: include/vectortick/codec/varint.hpp and, of codec/bitpack.hpp, the
--     class ZigZag on 64 bits and the sizes of BitPackU32.
--   CheckedMath: include/vectortick/common/checked_math.hpp, the templates at u64 and i64.
--   SpscRing: include/vectortick/concurrency/spsc_ring.hpp, each call as one step; the element that
--     `try_pop` stores through its reference is its result. Threads has the atomic loads and stores of one
--     producer and one consumer as a step relation, in any interleaving; Queue is the bounded queue that the
--     calls implement.
--   Query: include/vectortick/query/ast.hpp, and Tokens: query/token.hpp. Meaning is what an expression
--     means: its own table of the columns, its own rule for signed expressions and its own operators, which
--     take of the code's files only the result type Run and the arithmetic of integers. Columns and
--     Builder/Types relate the code's lookup of columns and its types to it; Words bounds its values.
--   Ir: include/vectortick/ir/instruction.hpp, value.hpp, function.hpp; Ops: ir/opcode.hpp.
--   Vector: src/execution/vector_executor.cpp, the batches and kernels; Filter is evaluate_filter, Scan
--     execute_events.
--   Builder: src/ir/builder.cpp. Columns is resolve_column_info, Emit the create methods, Query
--     build_from_query. Operators, Correct and the children of Query say what the emitted code computes.
--   Interpreter: src/execution/reference_interpreter.cpp; Arithmetic has its checked operations and what
--     each opcode computes, Aggregate has execute_aggregate, Termination is about its loop over blocks.
--   Common, Bits: numbers, tests, lists and the laws of bit operations that the parts share.
--   Tests: the theorems at concrete inputs.
--
-- Integers are natural numbers with their wrap-around written out; i64 is `ℤ` with the casts to and
-- from u64. Memory is total, so reading outside a buffer is no error here: the theorems say which
-- bytes they need. The eight-byte loop of the CRC instructions runs on fuel, its length in
-- bytes, of which each round takes eight; the loops of VarIntU run on fuel for ten rounds, which is
-- enough for every u64 to encode and is the bound `MaxSize` of the code to decode. The loop of `execute`
-- over blocks runs on fuel, one for each block it enters; the function of a query has one block, and the
-- theorems hold from fuel 1 on. The loop over batches runs on the number of rows, of which each round
-- takes one at least.
--
-- Not modelled: message texts of a Status, std::hash fingerprints, storage, the lexer and the parser of
-- queries, code generation, worker threads, and the programs around the library.
pub mod Common
pub mod Bits
pub mod Memory
pub mod Endian
pub mod Crc32c
pub mod Status
pub mod Event
pub mod Protocol
pub mod CheckedMath
pub mod Codec
pub mod Query
pub mod Ir
pub mod Interpreter
pub mod Vector
pub mod Builder
pub mod SpscRing
pub mod Tests
