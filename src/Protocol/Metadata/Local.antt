-- ===== src/Protocol/Metadata/Local.antt =====
-- The reader looks at the bytes of the payload alone.
use vector_tick.Common.{ℕ, ◌≤◌, Bool, ◌≡◌, arith}
use vector_tick.Memory.{Mem}
use vector_tick.Memory.Agree.{Agree}
use vector_tick.Endian.Local.{read_be_u16-Agree, read_be_u32-Agree, read_be_u64-Agree}
use vector_tick.Protocol.Metadata.{read_from}

pub read_from-Agree :
    (little : Bool) (n : ℕ) (m m' : Mem)
    → Agree n m m'
    → 32 ≤ n
    → read_from little m ≡ read_from little m'
unfolding read_from
read_from-Agree little n m m' h le i = record {
  start_time_ns = read_be_u64-Agree little h 0 (omega arith) i;
  end_time_ns = read_be_u64-Agree little h 8 (omega arith) i;
  source_id = read_be_u32-Agree little h 16 (omega arith) i;
  instrument_count = read_be_u32-Agree little h 20 (omega arith) i;
  event_count_hint = read_be_u32-Agree little h 24 (omega arith) i;
  flags = read_be_u16-Agree little h 28 (omega arith) i;
  time_resolution = h 30 (omega arith) i;
  reserved = h 31 (omega arith) i;
}
