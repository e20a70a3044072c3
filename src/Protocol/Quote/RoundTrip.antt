-- ===== src/Protocol/Quote/RoundTrip.antt =====
-- Reading back what was written, whatever the hosts.
use vector_tick.Common.{ℕ, ◌+◌, ◌^◌, ◌<◌, Bool, false, ◌≡◌, refl, ◌∙◌, ap, arith}
use vector_tick.Common.Int.{IsI64, to_i64, to_u64, to_u64-lt, to_i64-to_u64}
use vector_tick.Memory.Shift.{shift-store, shift-store_start, shift-store_byte}
use vector_tick.Memory.{Mem, IsBytes, shift, store_byte, store, load_be}
use vector_tick.Endian.Network.{
  read_be_u32-load_be, read_be_u64-load_be, write_be_u32-store, write_be_u64-store,
}
use vector_tick.Endian.{read_be_i64, write_be_i64}
use vector_tick.Endian.RoundTrip.{store-IsBytes, store_byte-IsBytes}
use vector_tick.Protocol.Quote.{QuotePayload, read_from, write_to}

-- Each field fits its type.
pub record IsValid (p : QuotePayload) : Type 0 where
  pub exchange_ts_ns_fits : p.exchange_ts_ns < 2 ^ 64
  pub instrument_id_fits : p.instrument_id < 2 ^ 32
  pub side_fits : p.side < 256
  pub reserved0_fits : p.reserved0 < 256
  pub reserved1_fits : p.reserved1 < 256
  pub reserved2_fits : p.reserved2 < 256
  pub bid_price_ticks_fits : IsI64 p.bid_price_ticks
  pub bid_quantity_fits : p.bid_quantity < 2 ^ 32
  pub ask_price_ticks_fits : IsI64 p.ask_price_ticks
  pub ask_quantity_fits : p.ask_quantity < 2 ^ 32

-- The memory that the writer leaves: the bytes in network order.
abbrev pub stored : Mem → ℕ → QuotePayload → Mem
stored m a p =
    let m_exchange_ts_ns = store false 8 m a p.exchange_ts_ns in
    let m_instrument_id = store false 4 m_exchange_ts_ns (a + 8) p.instrument_id in
    let m_side = store_byte m_instrument_id (a + 12) p.side in
    let m_reserved0 = store_byte m_side (a + 13) p.reserved0 in
    let m_reserved1 = store_byte m_reserved0 (a + 14) p.reserved1 in
    let m_reserved2 = store_byte m_reserved1 (a + 15) p.reserved2 in
    let m_bid_price_ticks = store false 8 m_reserved2 (a + 16) (to_u64 p.bid_price_ticks) in
    let m_bid_quantity = store false 4 m_bid_price_ticks (a + 24) p.bid_quantity in
    let m_ask_price_ticks = store false 8 m_bid_quantity (a + 28) (to_u64 p.ask_price_ticks) in
    store false 4 m_ask_price_ticks (a + 36) p.ask_quantity

pub write_to-stored :
    (little : Bool) (m : Mem) (a : ℕ) (p : QuotePayload)
    → IsValid p
    → write_to little m a p ≡ stored m a p
unfolding write_to write_be_i64
write_to-stored little m a p v = rw (
  write_be_u32-store little _ (a + 36) p.ask_quantity v.ask_quantity_fits,
  write_be_u64-store little _ (a + 28) (to_u64 p.ask_price_ticks)
      (to_u64-lt p.ask_price_ticks v.ask_price_ticks_fits),
  write_be_u32-store little _ (a + 24) p.bid_quantity v.bid_quantity_fits,
  write_be_u64-store little _ (a + 16) (to_u64 p.bid_price_ticks)
      (to_u64-lt p.bid_price_ticks v.bid_price_ticks_fits),
  write_be_u32-store little _ (a + 8) p.instrument_id v.instrument_id_fits,
  write_be_u64-store little _ a p.exchange_ts_ns v.exchange_ts_ns_fits,
)

pub stored-IsBytes :
    (m : Mem) (a : ℕ) (p : QuotePayload) → IsBytes m → IsValid p → IsBytes (stored m a p)
stored-IsBytes m a p b v =
    let b_exchange_ts_ns = store-IsBytes false 8 _ a p.exchange_ts_ns b in
    let b_instrument_id = store-IsBytes false 4 _ (a + 8) p.instrument_id b_exchange_ts_ns in
    let b_side = store_byte-IsBytes _ (a + 12) p.side b_instrument_id v.side_fits in
    let b_reserved0 = store_byte-IsBytes _ (a + 13) p.reserved0 b_side v.reserved0_fits in
    let b_reserved1 = store_byte-IsBytes _ (a + 14) p.reserved1 b_reserved0 v.reserved1_fits in
    let b_reserved2 = store_byte-IsBytes _ (a + 15) p.reserved2 b_reserved1 v.reserved2_fits in
    let b_bid_price_ticks =
      store-IsBytes false 8 _ (a + 16) (to_u64 p.bid_price_ticks) b_reserved2 in
    let b_bid_quantity = store-IsBytes false 4 _ (a + 24) p.bid_quantity b_bid_price_ticks in
    let b_ask_price_ticks =
      store-IsBytes false 8 _ (a + 28) (to_u64 p.ask_price_ticks) b_bid_quantity in
    let b_ask_quantity = store-IsBytes false 4 _ (a + 36) p.ask_quantity b_ask_price_ticks in
    b_ask_quantity

-- A reader on any host gets back what a writer on any host wrote, wherever else the memory was
-- filled before.
pub read_from-write_to :
    (writer reader : Bool) (m : Mem) (p : QuotePayload)
    → IsBytes m
    → IsValid p
    → read_from reader (write_to writer m 0 p) ≡ p
unfolding read_from read_be_i64
read_from-write_to writer reader m p b v =
    let wire = stored m 0 p in
    let b_wire = stored-IsBytes m 0 p b v in
    let r_exchange_ts_ns =
      read_be_u64-load_be reader wire 0 b_wire
      ∙ (let e : load_be 8 wire 0 ≡ p.exchange_ts_ns = omega arith in e) in
    let r_instrument_id =
      read_be_u32-load_be reader wire 8 b_wire
      ∙ (let e : load_be 4 wire 8 ≡ p.instrument_id = omega arith in e) in
    let r_side : wire 12 ≡ p.side = refl in
    let r_reserved0 : wire 13 ≡ p.reserved0 = refl in
    let r_reserved1 : wire 14 ≡ p.reserved1 = refl in
    let r_reserved2 : wire 15 ≡ p.reserved2 = refl in
    let r_bid_price_ticks : read_be_i64 reader wire 16 ≡ p.bid_price_ticks =
      ap to_i64 (
        read_be_u64-load_be reader wire 16 b_wire
        ∙ omega (arith, to_u64-lt p.bid_price_ticks v.bid_price_ticks_fits))
      ∙ to_i64-to_u64 p.bid_price_ticks v.bid_price_ticks_fits in
    let r_bid_quantity =
      read_be_u32-load_be reader wire 24 b_wire
      ∙ (let e : load_be 4 wire 24 ≡ p.bid_quantity = omega arith in e) in
    let r_ask_price_ticks : read_be_i64 reader wire 28 ≡ p.ask_price_ticks =
      ap to_i64 (
        read_be_u64-load_be reader wire 28 b_wire
        ∙ omega (arith, to_u64-lt p.ask_price_ticks v.ask_price_ticks_fits))
      ∙ to_i64-to_u64 p.ask_price_ticks v.ask_price_ticks_fits in
    let r_ask_quantity =
      read_be_u32-load_be reader wire 36 b_wire
      ∙ (let e : load_be 4 wire 36 ≡ p.ask_quantity = omega arith in e) in
    rw (write_to-stored writer m 0 p v) (λ i. record {
      exchange_ts_ns = r_exchange_ts_ns i;
      instrument_id = r_instrument_id i;
      side = r_side i;
      reserved0 = r_reserved0 i;
      reserved1 = r_reserved1 i;
      reserved2 = r_reserved2 i;
      bid_price_ticks = r_bid_price_ticks i;
      bid_quantity = r_bid_quantity i;
      ask_price_ticks = r_ask_price_ticks i;
      ask_quantity = r_ask_quantity i;
    })

-- Written at an offset, the bytes behind that offset are those written at the start.
pub shift-stored :
    (m : Mem) (a : ℕ) (p : QuotePayload) → shift (stored m a p) a ≡ stored (shift m a) 0 p
shift-stored m a p =
    let m_exchange_ts_ns = store false 8 m a p.exchange_ts_ns in
    let s_exchange_ts_ns = shift-store_start a m refl false 8 p.exchange_ts_ns in
    let m_instrument_id = store false 4 m_exchange_ts_ns (a + 8) p.instrument_id in
    let s_instrument_id =
      shift-store a m_exchange_ts_ns s_exchange_ts_ns false 4 8 p.instrument_id in
    let m_side = store_byte m_instrument_id (a + 12) p.side in
    let s_side = shift-store_byte a m_instrument_id s_instrument_id 12 p.side in
    let m_reserved0 = store_byte m_side (a + 13) p.reserved0 in
    let s_reserved0 = shift-store_byte a m_side s_side 13 p.reserved0 in
    let m_reserved1 = store_byte m_reserved0 (a + 14) p.reserved1 in
    let s_reserved1 = shift-store_byte a m_reserved0 s_reserved0 14 p.reserved1 in
    let m_reserved2 = store_byte m_reserved1 (a + 15) p.reserved2 in
    let s_reserved2 = shift-store_byte a m_reserved1 s_reserved1 15 p.reserved2 in
    let m_bid_price_ticks = store false 8 m_reserved2 (a + 16) (to_u64 p.bid_price_ticks) in
    let s_bid_price_ticks =
      shift-store a m_reserved2 s_reserved2 false 8 16 (to_u64 p.bid_price_ticks) in
    let m_bid_quantity = store false 4 m_bid_price_ticks (a + 24) p.bid_quantity in
    let s_bid_quantity =
      shift-store a m_bid_price_ticks s_bid_price_ticks false 4 24 p.bid_quantity in
    let m_ask_price_ticks = store false 8 m_bid_quantity (a + 28) (to_u64 p.ask_price_ticks) in
    let s_ask_price_ticks =
      shift-store a m_bid_quantity s_bid_quantity false 8 28 (to_u64 p.ask_price_ticks) in
    shift-store a m_ask_price_ticks s_ask_price_ticks false 4 36 p.ask_quantity
