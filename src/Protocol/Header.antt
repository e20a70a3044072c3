-- ===== src/Protocol/Header.antt =====
-- FrameHeader and the header reader and writer of include/vectortick/protocol/frame.hpp.
pub mod RoundTrip
pub mod Local
use vector_tick.Common.{ℕ, ◌+◌, Bool}
use vector_tick.Memory.{Mem, store_byte}
use vector_tick.Endian.{
  read_be_u16, read_be_u32, read_be_u64, write_be_u16, write_be_u32, write_be_u64,
}

pub record FrameHeader : Type 0 where
  pub magic : ℕ
  pub version : ℕ
  pub message_type : ℕ
  pub flags : ℕ
  pub payload_length : ℕ
  pub session_id : ℕ
  pub sequence : ℕ
  pub send_timestamp_ns : ℕ
  pub crc32c : ℕ
  pub reserved : ℕ

abbrev pub size : ℕ
size = 40

module _ (little : Bool) where
  unfoldable pub read_header : Mem → FrameHeader
  read_header m = record {
    magic = read_be_u32 little m 0;
    version = m 4;
    message_type = m 5;
    flags = read_be_u16 little m 6;
    payload_length = read_be_u32 little m 8;
    session_id = read_be_u32 little m 12;
    sequence = read_be_u64 little m 16;
    send_timestamp_ns = read_be_u64 little m 24;
    crc32c = read_be_u32 little m 32;
    reserved = read_be_u32 little m 36;
  }

  -- Written at `ptr + a`.
  unfoldable pub write_header : Mem → ℕ → FrameHeader → Mem
  write_header m a p =
      let m_magic = write_be_u32 little m a p.magic in
      let m_version = store_byte m_magic (a + 4) p.version in
      let m_message_type = store_byte m_version (a + 5) p.message_type in
      let m_flags = write_be_u16 little m_message_type (a + 6) p.flags in
      let m_payload_length = write_be_u32 little m_flags (a + 8) p.payload_length in
      let m_session_id = write_be_u32 little m_payload_length (a + 12) p.session_id in
      let m_sequence = write_be_u64 little m_session_id (a + 16) p.sequence in
      let m_send_timestamp_ns = write_be_u64 little m_sequence (a + 24) p.send_timestamp_ns in
      let m_crc32c = write_be_u32 little m_send_timestamp_ns (a + 32) p.crc32c in
      write_be_u32 little m_crc32c (a + 36) p.reserved
