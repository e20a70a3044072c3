-- ===== src/Protocol/Heartbeat/RoundTrip.antt =====
-- Reading back what was written, whatever the hosts.
use vector_tick.Common.{ℕ, refl, ◌^◌, ◌<◌, Bool, false, ◌≡◌, ◌∙◌, arith}
use vector_tick.Memory.Shift.{shift-store_start}
use vector_tick.Memory.{Mem, IsBytes, shift, store, load_be}
use vector_tick.Endian.Network.{read_be_u64-load_be, write_be_u64-store}
use vector_tick.Endian.RoundTrip.{store-IsBytes}
use vector_tick.Protocol.Heartbeat.{HeartbeatPayload, read_from, write_to}

-- Each field fits its type.
pub record IsValid (p : HeartbeatPayload) : Type 0 where
  pub exchange_ts_ns_fits : p.exchange_ts_ns < 2 ^ 64

-- The memory that the writer leaves: the bytes in network order.
abbrev pub stored : Mem → ℕ → HeartbeatPayload → Mem
stored m a p = store false 8 m a p.exchange_ts_ns

pub write_to-stored :
    (little : Bool) (m : Mem) (a : ℕ) (p : HeartbeatPayload)
    → IsValid p
    → write_to little m a p ≡ stored m a p
unfolding write_to
write_to-stored little m a p v =
    rw (write_be_u64-store little _ a p.exchange_ts_ns v.exchange_ts_ns_fits)

pub stored-IsBytes :
    (m : Mem) (a : ℕ) (p : HeartbeatPayload) → IsBytes m → IsValid p → IsBytes (stored m a p)
stored-IsBytes m a p b v =
    let b_exchange_ts_ns = store-IsBytes false 8 _ a p.exchange_ts_ns b in b_exchange_ts_ns

-- A reader on any host gets back what a writer on any host wrote, wherever else the memory was
-- filled before.
pub read_from-write_to :
    (writer reader : Bool) (m : Mem) (p : HeartbeatPayload)
    → IsBytes m
    → IsValid p
    → read_from reader (write_to writer m 0 p) ≡ p
unfolding read_from
read_from-write_to writer reader m p b v =
    let wire = stored m 0 p in
    let b_wire = stored-IsBytes m 0 p b v in
    let r_exchange_ts_ns =
      read_be_u64-load_be reader wire 0 b_wire
      ∙ (let e : load_be 8 wire 0 ≡ p.exchange_ts_ns = omega arith in e) in
    rw (write_to-stored writer m 0 p v) (λ i. record { exchange_ts_ns = r_exchange_ts_ns i })

-- Written at an offset, the bytes behind that offset are those written at the start.
pub shift-stored :
    (m : Mem) (a : ℕ) (p : HeartbeatPayload) → shift (stored m a p) a ≡ stored (shift m a) 0 p
shift-stored m a p = shift-store_start a m refl false 8 p.exchange_ts_ns
