-- ===== src/Protocol/Header/Local.antt =====
-- The reader looks at the bytes of the header alone.
use vector_tick.Common.{ℕ, ◌≤◌, Bool, ◌≡◌, arith}
use vector_tick.Memory.{Mem}
use vector_tick.Memory.Agree.{Agree}
use vector_tick.Endian.Local.{read_be_u16-Agree, read_be_u32-Agree, read_be_u64-Agree}
use vector_tick.Protocol.Header.{read_header}

pub read_header-Agree :
    (little : Bool) (n : ℕ) (m m' : Mem)
    → Agree n m m'
    → 40 ≤ n
    → read_header little m ≡ read_header little m'
unfolding read_header
read_header-Agree little n m m' h le i = record {
  magic = read_be_u32-Agree little h 0 (omega arith) i;
  version = h 4 (omega arith) i;
  message_type = h 5 (omega arith) i;
  flags = read_be_u16-Agree little h 6 (omega arith) i;
  payload_length = read_be_u32-Agree little h 8 (omega arith) i;
  session_id = read_be_u32-Agree little h 12 (omega arith) i;
  sequence = read_be_u64-Agree little h 16 (omega arith) i;
  send_timestamp_ns = read_be_u64-Agree little h 24 (omega arith) i;
  crc32c = read_be_u32-Agree little h 32 (omega arith) i;
  reserved = read_be_u32-Agree little h 36 (omega arith) i;
}
