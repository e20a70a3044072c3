-- ===== src/Protocol/StatusMessage.antt =====
-- StatusPayload of include/vectortick/protocol/messages.hpp.
pub mod RoundTrip
pub mod Local
use vector_tick.Common.{ℕ, ◌+◌, Bool}
use vector_tick.Memory.{Mem, store_byte}
use vector_tick.Endian.{
  read_be_u16, read_be_u32, read_be_u64, write_be_u16, write_be_u32, write_be_u64,
}

pub record StatusPayload : Type 0 where
  pub exchange_ts_ns : ℕ
  pub instrument_id : ℕ
  pub status : ℕ
  pub reason : ℕ
  pub reserved : ℕ

abbrev pub size : ℕ
size = 16

module _ (little : Bool) where
  unfoldable pub read_from : Mem → StatusPayload
  read_from m = record {
    exchange_ts_ns = read_be_u64 little m 0;
    instrument_id = read_be_u32 little m 8;
    status = m 12;
    reason = m 13;
    reserved = read_be_u16 little m 14;
  }

  -- Written at `ptr + a`.
  unfoldable pub write_to : Mem → ℕ → StatusPayload → Mem
  write_to m a p =
      let m_exchange_ts_ns = write_be_u64 little m a p.exchange_ts_ns in
      let m_instrument_id = write_be_u32 little m_exchange_ts_ns (a + 8) p.instrument_id in
      let m_status = store_byte m_instrument_id (a + 12) p.status in
      let m_reason = store_byte m_status (a + 13) p.reason in
      write_be_u16 little m_reason (a + 14) p.reserved
