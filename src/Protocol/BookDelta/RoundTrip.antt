-- ===== src/Protocol/BookDelta/RoundTrip.antt =====
-- Reading back what was written, whatever the hosts.
use vector_tick.Common.{ℕ, ◌+◌, ◌^◌, ◌<◌, Bool, false, ◌≡◌, refl, ◌∙◌, ap, arith}
use vector_tick.Common.Int.{IsI64, to_i64, to_u64, to_u64-lt, to_i64-to_u64}
use vector_tick.Memory.Shift.{shift-store, shift-store_start, shift-store_byte}
use vector_tick.Memory.{Mem, IsBytes, shift, store_byte, store, load_be}
use vector_tick.Endian.Network.{
  read_be_u16-load_be, read_be_u32-load_be, read_be_u64-load_be, write_be_u16-store,
  write_be_u32-store, write_be_u64-store,
}
use vector_tick.Endian.{read_be_i64, write_be_i64}
use vector_tick.Endian.RoundTrip.{store-IsBytes, store_byte-IsBytes}
use vector_tick.Protocol.BookDelta.{BookDeltaPayload, read_from, write_to}

-- Each field fits its type.
pub record IsValid (p : BookDeltaPayload) : Type 0 where
  pub exchange_ts_ns_fits : p.exchange_ts_ns < 2 ^ 64
  pub instrument_id_fits : p.instrument_id < 2 ^ 32
  pub side_fits : p.side < 256
  pub level_fits : p.level < 256
  pub operation_fits : p.operation < 256
  pub reserved_fits : p.reserved < 256
  pub price_ticks_fits : IsI64 p.price_ticks
  pub quantity_fits : p.quantity < 2 ^ 32
  pub order_id_fits : p.order_id < 2 ^ 64
  pub venue_id_fits : p.venue_id < 2 ^ 16
  pub source_id_fits : p.source_id < 2 ^ 16
  pub flags_fits : p.flags < 2 ^ 32

-- The memory that the writer leaves: the bytes in network order.
abbrev pub stored : Mem → ℕ → BookDeltaPayload → Mem
stored m a p =
    let m_exchange_ts_ns = store false 8 m a p.exchange_ts_ns in
    let m_instrument_id = store false 4 m_exchange_ts_ns (a + 8) p.instrument_id in
    let m_side = store_byte m_instrument_id (a + 12) p.side in
    let m_level = store_byte m_side (a + 13) p.level in
    let m_operation = store_byte m_level (a + 14) p.operation in
    let m_reserved = store_byte m_operation (a + 15) p.reserved in
    let m_price_ticks = store false 8 m_reserved (a + 16) (to_u64 p.price_ticks) in
    let m_quantity = store false 4 m_price_ticks (a + 24) p.quantity in
    let m_order_id = store false 8 m_quantity (a + 28) p.order_id in
    let m_venue_id = store false 2 m_order_id (a + 36) p.venue_id in
    let m_source_id = store false 2 m_venue_id (a + 38) p.source_id in
    store false 4 m_source_id (a + 40) p.flags

pub write_to-stored :
    (little : Bool) (m : Mem) (a : ℕ) (p : BookDeltaPayload)
    → IsValid p
    → write_to little m a p ≡ stored m a p
unfolding write_to write_be_i64
write_to-stored little m a p v = rw (
  write_be_u32-store little _ (a + 40) p.flags v.flags_fits,
  write_be_u16-store little _ (a + 38) p.source_id v.source_id_fits,
  write_be_u16-store little _ (a + 36) p.venue_id v.venue_id_fits,
  write_be_u64-store little _ (a + 28) p.order_id v.order_id_fits,
  write_be_u32-store little _ (a + 24) p.quantity v.quantity_fits,
  write_be_u64-store little _ (a + 16) (to_u64 p.price_ticks)
      (to_u64-lt p.price_ticks v.price_ticks_fits),
  write_be_u32-store little _ (a + 8) p.instrument_id v.instrument_id_fits,
  write_be_u64-store little _ a p.exchange_ts_ns v.exchange_ts_ns_fits,
)

pub stored-IsBytes :
    (m : Mem) (a : ℕ) (p : BookDeltaPayload) → IsBytes m → IsValid p → IsBytes (stored m a p)
stored-IsBytes m a p b v =
    let b_exchange_ts_ns = store-IsBytes false 8 _ a p.exchange_ts_ns b in
    let b_instrument_id = store-IsBytes false 4 _ (a + 8) p.instrument_id b_exchange_ts_ns in
    let b_side = store_byte-IsBytes _ (a + 12) p.side b_instrument_id v.side_fits in
    let b_level = store_byte-IsBytes _ (a + 13) p.level b_side v.level_fits in
    let b_operation = store_byte-IsBytes _ (a + 14) p.operation b_level v.operation_fits in
    let b_reserved = store_byte-IsBytes _ (a + 15) p.reserved b_operation v.reserved_fits in
    let b_price_ticks = store-IsBytes false 8 _ (a + 16) (to_u64 p.price_ticks) b_reserved in
    let b_quantity = store-IsBytes false 4 _ (a + 24) p.quantity b_price_ticks in
    let b_order_id = store-IsBytes false 8 _ (a + 28) p.order_id b_quantity in
    let b_venue_id = store-IsBytes false 2 _ (a + 36) p.venue_id b_order_id in
    let b_source_id = store-IsBytes false 2 _ (a + 38) p.source_id b_venue_id in
    let b_flags = store-IsBytes false 4 _ (a + 40) p.flags b_source_id in b_flags

-- A reader on any host gets back what a writer on any host wrote, wherever else the memory was
-- filled before.
pub read_from-write_to :
    (writer reader : Bool) (m : Mem) (p : BookDeltaPayload)
    → IsBytes m
    → IsValid p
    → read_from reader (write_to writer m 0 p) ≡ p
unfolding read_from read_be_i64
read_from-write_to writer reader m p b v =
    let wire = stored m 0 p in
    let b_wire = stored-IsBytes m 0 p b v in
    let r_exchange_ts_ns =
      read_be_u64-load_be reader wire 0 b_wire
      ∙ (let e : load_be 8 wire 0 ≡ p.exchange_ts_ns = omega arith in e) in
    let r_instrument_id =
      read_be_u32-load_be reader wire 8 b_wire
      ∙ (let e : load_be 4 wire 8 ≡ p.instrument_id = omega arith in e) in
    let r_side : wire 12 ≡ p.side = refl in
    let r_level : wire 13 ≡ p.level = refl in
    let r_operation : wire 14 ≡ p.operation = refl in
    let r_reserved : wire 15 ≡ p.reserved = refl in
    let r_price_ticks : read_be_i64 reader wire 16 ≡ p.price_ticks =
      ap to_i64 (
        read_be_u64-load_be reader wire 16 b_wire
        ∙ omega (arith, to_u64-lt p.price_ticks v.price_ticks_fits))
      ∙ to_i64-to_u64 p.price_ticks v.price_ticks_fits in
    let r_quantity =
      read_be_u32-load_be reader wire 24 b_wire
      ∙ (let e : load_be 4 wire 24 ≡ p.quantity = omega arith in e) in
    let r_order_id =
      read_be_u64-load_be reader wire 28 b_wire
      ∙ (let e : load_be 8 wire 28 ≡ p.order_id = omega arith in e) in
    let r_venue_id =
      read_be_u16-load_be reader wire 36 b_wire
      ∙ (let e : load_be 2 wire 36 ≡ p.venue_id = omega arith in e) in
    let r_source_id =
      read_be_u16-load_be reader wire 38 b_wire
      ∙ (let e : load_be 2 wire 38 ≡ p.source_id = omega arith in e) in
    let r_flags =
      read_be_u32-load_be reader wire 40 b_wire
      ∙ (let e : load_be 4 wire 40 ≡ p.flags = omega arith in e) in
    rw (write_to-stored writer m 0 p v) (λ i. record {
      exchange_ts_ns = r_exchange_ts_ns i;
      instrument_id = r_instrument_id i;
      side = r_side i;
      level = r_level i;
      operation = r_operation i;
      reserved = r_reserved i;
      price_ticks = r_price_ticks i;
      quantity = r_quantity i;
      order_id = r_order_id i;
      venue_id = r_venue_id i;
      source_id = r_source_id i;
      flags = r_flags i;
    })

-- Written at an offset, the bytes behind that offset are those written at the start.
pub shift-stored :
    (m : Mem) (a : ℕ) (p : BookDeltaPayload) → shift (stored m a p) a ≡ stored (shift m a) 0 p
shift-stored m a p =
    let m_exchange_ts_ns = store false 8 m a p.exchange_ts_ns in
    let s_exchange_ts_ns = shift-store_start a m refl false 8 p.exchange_ts_ns in
    let m_instrument_id = store false 4 m_exchange_ts_ns (a + 8) p.instrument_id in
    let s_instrument_id =
      shift-store a m_exchange_ts_ns s_exchange_ts_ns false 4 8 p.instrument_id in
    let m_side = store_byte m_instrument_id (a + 12) p.side in
    let s_side = shift-store_byte a m_instrument_id s_instrument_id 12 p.side in
    let m_level = store_byte m_side (a + 13) p.level in
    let s_level = shift-store_byte a m_side s_side 13 p.level in
    let m_operation = store_byte m_level (a + 14) p.operation in
    let s_operation = shift-store_byte a m_level s_level 14 p.operation in
    let m_reserved = store_byte m_operation (a + 15) p.reserved in
    let s_reserved = shift-store_byte a m_operation s_operation 15 p.reserved in
    let m_price_ticks = store false 8 m_reserved (a + 16) (to_u64 p.price_ticks) in
    let s_price_ticks = shift-store a m_reserved s_reserved false 8 16 (to_u64 p.price_ticks) in
    let m_quantity = store false 4 m_price_ticks (a + 24) p.quantity in
    let s_quantity = shift-store a m_price_ticks s_price_ticks false 4 24 p.quantity in
    let m_order_id = store false 8 m_quantity (a + 28) p.order_id in
    let s_order_id = shift-store a m_quantity s_quantity false 8 28 p.order_id in
    let m_venue_id = store false 2 m_order_id (a + 36) p.venue_id in
    let s_venue_id = shift-store a m_order_id s_order_id false 2 36 p.venue_id in
    let m_source_id = store false 2 m_venue_id (a + 38) p.source_id in
    let s_source_id = shift-store a m_venue_id s_venue_id false 2 38 p.source_id in
    shift-store a m_source_id s_source_id false 4 40 p.flags
