-- ===== src/Protocol/Quote.antt =====
-- QuotePayload of include/vectortick/protocol/messages.hpp.
pub mod RoundTrip
pub mod Local
use vector_tick.Common.{ℕ, ◌+◌, Bool}
use vector_tick.Common.Int.{ℤ}
use vector_tick.Memory.{Mem, store_byte}
use vector_tick.Endian.{
  read_be_i64, read_be_u32, read_be_u64, write_be_i64, write_be_u32, write_be_u64,
}

pub record QuotePayload : Type 0 where
  pub exchange_ts_ns : ℕ
  pub instrument_id : ℕ
  pub side : ℕ
  pub reserved0 : ℕ
  pub reserved1 : ℕ
  pub reserved2 : ℕ
  pub bid_price_ticks : ℤ
  pub bid_quantity : ℕ
  pub ask_price_ticks : ℤ
  pub ask_quantity : ℕ

abbrev pub size : ℕ
size = 40

module _ (little : Bool) where
  unfoldable pub read_from : Mem → QuotePayload
  read_from m = record {
    exchange_ts_ns = read_be_u64 little m 0;
    instrument_id = read_be_u32 little m 8;
    side = m 12;
    reserved0 = m 13;
    reserved1 = m 14;
    reserved2 = m 15;
    bid_price_ticks = read_be_i64 little m 16;
    bid_quantity = read_be_u32 little m 24;
    ask_price_ticks = read_be_i64 little m 28;
    ask_quantity = read_be_u32 little m 36;
  }

  -- Written at `ptr + a`.
  unfoldable pub write_to : Mem → ℕ → QuotePayload → Mem
  write_to m a p =
      let m_exchange_ts_ns = write_be_u64 little m a p.exchange_ts_ns in
      let m_instrument_id = write_be_u32 little m_exchange_ts_ns (a + 8) p.instrument_id in
      let m_side = store_byte m_instrument_id (a + 12) p.side in
      let m_reserved0 = store_byte m_side (a + 13) p.reserved0 in
      let m_reserved1 = store_byte m_reserved0 (a + 14) p.reserved1 in
      let m_reserved2 = store_byte m_reserved1 (a + 15) p.reserved2 in
      let m_bid_price_ticks = write_be_i64 little m_reserved2 (a + 16) p.bid_price_ticks in
      let m_bid_quantity = write_be_u32 little m_bid_price_ticks (a + 24) p.bid_quantity in
      let m_ask_price_ticks = write_be_i64 little m_bid_quantity (a + 28) p.ask_price_ticks in
      write_be_u32 little m_ask_price_ticks (a + 36) p.ask_quantity
