-- ===== src/Protocol/BookDelta.antt =====
-- BookDeltaPayload of include/vectortick/protocol/messages.hpp.
pub mod RoundTrip
pub mod Local
use vector_tick.Common.{ℕ, ◌+◌, Bool}
use vector_tick.Common.Int.{ℤ}
use vector_tick.Memory.{Mem, store_byte}
use vector_tick.Endian.{
  read_be_i64, read_be_u16, read_be_u32, read_be_u64, write_be_i64, write_be_u16, write_be_u32,
  write_be_u64,
}

pub record BookDeltaPayload : Type 0 where
  pub exchange_ts_ns : ℕ
  pub instrument_id : ℕ
  pub side : ℕ
  pub level : ℕ
  pub operation : ℕ
  pub reserved : ℕ
  pub price_ticks : ℤ
  pub quantity : ℕ
  pub order_id : ℕ
  pub venue_id : ℕ
  pub source_id : ℕ
  pub flags : ℕ

abbrev pub size : ℕ
size = 48

module _ (little : Bool) where
  unfoldable pub read_from : Mem → BookDeltaPayload
  read_from m = record {
    exchange_ts_ns = read_be_u64 little m 0;
    instrument_id = read_be_u32 little m 8;
    side = m 12;
    level = m 13;
    operation = m 14;
    reserved = m 15;
    price_ticks = read_be_i64 little m 16;
    quantity = read_be_u32 little m 24;
    order_id = read_be_u64 little m 28;
    venue_id = read_be_u16 little m 36;
    source_id = read_be_u16 little m 38;
    flags = read_be_u32 little m 40;
  }

  -- Written at `ptr + a`.
  unfoldable pub write_to : Mem → ℕ → BookDeltaPayload → Mem
  write_to m a p =
      let m_exchange_ts_ns = write_be_u64 little m a p.exchange_ts_ns in
      let m_instrument_id = write_be_u32 little m_exchange_ts_ns (a + 8) p.instrument_id in
      let m_side = store_byte m_instrument_id (a + 12) p.side in
      let m_level = store_byte m_side (a + 13) p.level in
      let m_operation = store_byte m_level (a + 14) p.operation in
      let m_reserved = store_byte m_operation (a + 15) p.reserved in
      let m_price_ticks = write_be_i64 little m_reserved (a + 16) p.price_ticks in
      let m_quantity = write_be_u32 little m_price_ticks (a + 24) p.quantity in
      let m_order_id = write_be_u64 little m_quantity (a + 28) p.order_id in
      let m_venue_id = write_be_u16 little m_order_id (a + 36) p.venue_id in
      let m_source_id = write_be_u16 little m_venue_id (a + 38) p.source_id in
      write_be_u32 little m_source_id (a + 40) p.flags
