-- ===== src/Protocol/StatusMessage/RoundTrip.antt =====
-- Reading back what was written, whatever the hosts.
use vector_tick.Common.{ℕ, ◌+◌, ◌^◌, ◌<◌, Bool, false, ◌≡◌, refl, ◌∙◌, arith}
use vector_tick.Memory.Shift.{shift-store, shift-store_start, shift-store_byte}
use vector_tick.Memory.{Mem, IsBytes, shift, store_byte, store, load_be}
use vector_tick.Endian.Network.{
  read_be_u16-load_be, read_be_u32-load_be, read_be_u64-load_be, write_be_u16-store,
  write_be_u32-store, write_be_u64-store,
}
use vector_tick.Endian.RoundTrip.{store-IsBytes, store_byte-IsBytes}
use vector_tick.Protocol.StatusMessage.{StatusPayload, read_from, write_to}

-- Each field fits its type.
pub record IsValid (p : StatusPayload) : Type 0 where
  pub exchange_ts_ns_fits : p.exchange_ts_ns < 2 ^ 64
  pub instrument_id_fits : p.instrument_id < 2 ^ 32
  pub status_fits : p.status < 256
  pub reason_fits : p.reason < 256
  pub reserved_fits : p.reserved < 2 ^ 16

-- The memory that the writer leaves: the bytes in network order.
abbrev pub stored : Mem → ℕ → StatusPayload → Mem
stored m a p =
    let m_exchange_ts_ns = store false 8 m a p.exchange_ts_ns in
    let m_instrument_id = store false 4 m_exchange_ts_ns (a + 8) p.instrument_id in
    let m_status = store_byte m_instrument_id (a + 12) p.status in
    let m_reason = store_byte m_status (a + 13) p.reason in
    store false 2 m_reason (a + 14) p.reserved

pub write_to-stored :
    (little : Bool) (m : Mem) (a : ℕ) (p : StatusPayload)
    → IsValid p
    → write_to little m a p ≡ stored m a p
unfolding write_to
write_to-stored little m a p v = rw (
  write_be_u16-store little _ (a + 14) p.reserved v.reserved_fits,
  write_be_u32-store little _ (a + 8) p.instrument_id v.instrument_id_fits,
  write_be_u64-store little _ a p.exchange_ts_ns v.exchange_ts_ns_fits,
)

pub stored-IsBytes :
    (m : Mem) (a : ℕ) (p : StatusPayload) → IsBytes m → IsValid p → IsBytes (stored m a p)
stored-IsBytes m a p b v =
    let b_exchange_ts_ns = store-IsBytes false 8 _ a p.exchange_ts_ns b in
    let b_instrument_id = store-IsBytes false 4 _ (a + 8) p.instrument_id b_exchange_ts_ns in
    let b_status = store_byte-IsBytes _ (a + 12) p.status b_instrument_id v.status_fits in
    let b_reason = store_byte-IsBytes _ (a + 13) p.reason b_status v.reason_fits in
    let b_reserved = store-IsBytes false 2 _ (a + 14) p.reserved b_reason in b_reserved

-- A reader on any host gets back what a writer on any host wrote, wherever else the memory was
-- filled before.
pub read_from-write_to :
    (writer reader : Bool) (m : Mem) (p : StatusPayload)
    → IsBytes m
    → IsValid p
    → read_from reader (write_to writer m 0 p) ≡ p
unfolding read_from
read_from-write_to writer reader m p b v =
    let wire = stored m 0 p in
    let b_wire = stored-IsBytes m 0 p b v in
    let r_exchange_ts_ns =
      read_be_u64-load_be reader wire 0 b_wire
      ∙ (let e : load_be 8 wire 0 ≡ p.exchange_ts_ns = omega arith in e) in
    let r_instrument_id =
      read_be_u32-load_be reader wire 8 b_wire
      ∙ (let e : load_be 4 wire 8 ≡ p.instrument_id = omega arith in e) in
    let r_status : wire 12 ≡ p.status = refl in
    let r_reason : wire 13 ≡ p.reason = refl in
    let r_reserved =
      read_be_u16-load_be reader wire 14 b_wire
      ∙ (let e : load_be 2 wire 14 ≡ p.reserved = omega arith in e) in
    rw (write_to-stored writer m 0 p v) (λ i. record {
      exchange_ts_ns = r_exchange_ts_ns i;
      instrument_id = r_instrument_id i;
      status = r_status i;
      reason = r_reason i;
      reserved = r_reserved i;
    })

-- Written at an offset, the bytes behind that offset are those written at the start.
pub shift-stored :
    (m : Mem) (a : ℕ) (p : StatusPayload) → shift (stored m a p) a ≡ stored (shift m a) 0 p
shift-stored m a p =
    let m_exchange_ts_ns = store false 8 m a p.exchange_ts_ns in
    let s_exchange_ts_ns = shift-store_start a m refl false 8 p.exchange_ts_ns in
    let m_instrument_id = store false 4 m_exchange_ts_ns (a + 8) p.instrument_id in
    let s_instrument_id =
      shift-store a m_exchange_ts_ns s_exchange_ts_ns false 4 8 p.instrument_id in
    let m_status = store_byte m_instrument_id (a + 12) p.status in
    let s_status = shift-store_byte a m_instrument_id s_instrument_id 12 p.status in
    let m_reason = store_byte m_status (a + 13) p.reason in
    let s_reason = shift-store_byte a m_status s_status 13 p.reason in
    shift-store a m_reason s_reason false 2 14 p.reserved
