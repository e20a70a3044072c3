-- ===== src/Protocol/Heartbeat.antt =====
-- HeartbeatPayload of include/vectortick/protocol/messages.hpp.
pub mod RoundTrip
pub mod Local
use vector_tick.Common.{ℕ, Bool}
use vector_tick.Memory.{Mem}
use vector_tick.Endian.{read_be_u64, write_be_u64}

pub record HeartbeatPayload : Type 0 where
  pub exchange_ts_ns : ℕ

abbrev pub size : ℕ
size = 8

module _ (little : Bool) where
  unfoldable pub read_from : Mem → HeartbeatPayload
  read_from m = record { exchange_ts_ns = read_be_u64 little m 0 }

  -- Written at `ptr + a`.
  unfoldable pub write_to : Mem → ℕ → HeartbeatPayload → Mem
  write_to m a p = write_be_u64 little m a p.exchange_ts_ns
