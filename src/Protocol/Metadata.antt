-- ===== src/Protocol/Metadata.antt =====
-- StreamMetadata of include/vectortick/protocol/frame.hpp.
pub mod RoundTrip
pub mod Local
use vector_tick.Common.{ℕ, ◌+◌, Bool}
use vector_tick.Memory.{Mem, store_byte}
use vector_tick.Endian.{
  read_be_u16, read_be_u32, read_be_u64, write_be_u16, write_be_u32, write_be_u64,
}

pub record StreamMetadata : Type 0 where
  pub start_time_ns : ℕ
  pub end_time_ns : ℕ
  pub source_id : ℕ
  pub instrument_count : ℕ
  pub event_count_hint : ℕ
  pub flags : ℕ
  pub time_resolution : ℕ
  pub reserved : ℕ

abbrev pub size : ℕ
size = 32

module _ (little : Bool) where
  unfoldable pub read_from : Mem → StreamMetadata
  read_from m = record {
    start_time_ns = read_be_u64 little m 0;
    end_time_ns = read_be_u64 little m 8;
    source_id = read_be_u32 little m 16;
    instrument_count = read_be_u32 little m 20;
    event_count_hint = read_be_u32 little m 24;
    flags = read_be_u16 little m 28;
    time_resolution = m 30;
    reserved = m 31;
  }

  -- Written at `ptr + a`.
  unfoldable pub write_to : Mem → ℕ → StreamMetadata → Mem
  write_to m a p =
      let m_start_time_ns = write_be_u64 little m a p.start_time_ns in
      let m_end_time_ns = write_be_u64 little m_start_time_ns (a + 8) p.end_time_ns in
      let m_source_id = write_be_u32 little m_end_time_ns (a + 16) p.source_id in
      let m_instrument_count = write_be_u32 little m_source_id (a + 20) p.instrument_count in
      let m_event_count_hint = write_be_u32 little m_instrument_count (a + 24) p.event_count_hint in
      let m_flags = write_be_u16 little m_event_count_hint (a + 28) p.flags in
      let m_time_resolution = store_byte m_flags (a + 30) p.time_resolution in
      store_byte m_time_resolution (a + 31) p.reserved
