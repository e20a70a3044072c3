-- ===== src/Protocol/BookDelta/Local.antt =====
-- The reader looks at the bytes of the payload alone.
use vector_tick.Common.{ℕ, ◌≤◌, Bool, ◌≡◌, arith}
use vector_tick.Memory.{Mem}
use vector_tick.Memory.Agree.{Agree}
use vector_tick.Endian.Local.{
  read_be_i64-Agree, read_be_u16-Agree, read_be_u32-Agree, read_be_u64-Agree,
}
use vector_tick.Protocol.BookDelta.{read_from}

pub read_from-Agree :
    (little : Bool) (n : ℕ) (m m' : Mem)
    → Agree n m m'
    → 48 ≤ n
    → read_from little m ≡ read_from little m'
unfolding read_from
read_from-Agree little n m m' h le i = record {
  exchange_ts_ns = read_be_u64-Agree little h 0 (omega arith) i;
  instrument_id = read_be_u32-Agree little h 8 (omega arith) i;
  side = h 12 (omega arith) i;
  level = h 13 (omega arith) i;
  operation = h 14 (omega arith) i;
  reserved = h 15 (omega arith) i;
  price_ticks = read_be_i64-Agree little h 16 (omega arith) i;
  quantity = read_be_u32-Agree little h 24 (omega arith) i;
  order_id = read_be_u64-Agree little h 28 (omega arith) i;
  venue_id = read_be_u16-Agree little h 36 (omega arith) i;
  source_id = read_be_u16-Agree little h 38 (omega arith) i;
  flags = read_be_u32-Agree little h 40 (omega arith) i;
}
