-- ===== src/Protocol/Trade.antt =====
-- TradePayload of include/vectortick/protocol/messages.hpp.
pub mod RoundTrip
pub mod Local
use vector_tick.Common.{ℕ, ◌+◌, Bool}
use vector_tick.Common.Int.{ℤ}
use vector_tick.Memory.{Mem, store_byte}
use vector_tick.Endian.{
  read_be_i64, read_be_u16, read_be_u32, read_be_u64, write_be_i64, write_be_u16, write_be_u32,
  write_be_u64,
}

pub record TradePayload : Type 0 where
  pub exchange_ts_ns : ℕ
  pub instrument_id : ℕ
  pub side : ℕ
  pub reserved0 : ℕ
  pub reserved1 : ℕ
  pub reserved2 : ℕ
  pub price_ticks : ℤ
  pub quantity : ℕ
  pub trade_id : ℕ
  pub venue_id : ℕ
  pub source_id : ℕ

abbrev pub size : ℕ
size = 40

module _ (little : Bool) where
  unfoldable pub read_from : Mem → TradePayload
  read_from m = record {
    exchange_ts_ns = read_be_u64 little m 0;
    instrument_id = read_be_u32 little m 8;
    side = m 12;
    reserved0 = m 13;
    reserved1 = m 14;
    reserved2 = m 15;
    price_ticks = read_be_i64 little m 16;
    quantity = read_be_u32 little m 24;
    trade_id = read_be_u64 little m 28;
    venue_id = read_be_u16 little m 36;
    source_id = read_be_u16 little m 38;
  }

  -- Written at `ptr + a`.
  unfoldable pub write_to : Mem → ℕ → TradePayload → Mem
  write_to m a p =
      let m_exchange_ts_ns = write_be_u64 little m a p.exchange_ts_ns in
      let m_instrument_id = write_be_u32 little m_exchange_ts_ns (a + 8) p.instrument_id in
      let m_side = store_byte m_instrument_id (a + 12) p.side in
      let m_reserved0 = store_byte m_side (a + 13) p.reserved0 in
      let m_reserved1 = store_byte m_reserved0 (a + 14) p.reserved1 in
      let m_reserved2 = store_byte m_reserved1 (a + 15) p.reserved2 in
      let m_price_ticks = write_be_i64 little m_reserved2 (a + 16) p.price_ticks in
      let m_quantity = write_be_u32 little m_price_ticks (a + 24) p.quantity in
      let m_trade_id = write_be_u64 little m_quantity (a + 28) p.trade_id in
      let m_venue_id = write_be_u16 little m_trade_id (a + 36) p.venue_id in
      write_be_u16 little m_venue_id (a + 38) p.source_id
