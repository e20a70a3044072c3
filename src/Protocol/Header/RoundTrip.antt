-- ===== src/Protocol/Header/RoundTrip.antt =====
-- Reading back what was written, whatever the hosts.
use vector_tick.Common.{ℕ, ◌+◌, ◌^◌, ◌<◌, Bool, false, ◌≡◌, refl, ◌∙◌, arith}
use vector_tick.Memory.{Mem, IsBytes, store_byte, store, load_be}
use vector_tick.Endian.Network.{
  read_be_u16-load_be, read_be_u32-load_be, read_be_u64-load_be, write_be_u16-store,
  write_be_u32-store, write_be_u64-store,
}
use vector_tick.Endian.RoundTrip.{store-IsBytes, store_byte-IsBytes}
use vector_tick.Protocol.Header.{FrameHeader, read_header, write_header}

-- Each field fits its type.
pub record IsValid (p : FrameHeader) : Type 0 where
  pub magic_fits : p.magic < 2 ^ 32
  pub version_fits : p.version < 256
  pub message_type_fits : p.message_type < 256
  pub flags_fits : p.flags < 2 ^ 16
  pub payload_length_fits : p.payload_length < 2 ^ 32
  pub session_id_fits : p.session_id < 2 ^ 32
  pub sequence_fits : p.sequence < 2 ^ 64
  pub send_timestamp_ns_fits : p.send_timestamp_ns < 2 ^ 64
  pub crc32c_fits : p.crc32c < 2 ^ 32
  pub reserved_fits : p.reserved < 2 ^ 32

-- The memory that the writer leaves: the bytes in network order.
abbrev pub stored : Mem → ℕ → FrameHeader → Mem
stored m a p =
    let m_magic = store false 4 m a p.magic in
    let m_version = store_byte m_magic (a + 4) p.version in
    let m_message_type = store_byte m_version (a + 5) p.message_type in
    let m_flags = store false 2 m_message_type (a + 6) p.flags in
    let m_payload_length = store false 4 m_flags (a + 8) p.payload_length in
    let m_session_id = store false 4 m_payload_length (a + 12) p.session_id in
    let m_sequence = store false 8 m_session_id (a + 16) p.sequence in
    let m_send_timestamp_ns = store false 8 m_sequence (a + 24) p.send_timestamp_ns in
    let m_crc32c = store false 4 m_send_timestamp_ns (a + 32) p.crc32c in
    store false 4 m_crc32c (a + 36) p.reserved

pub write_header-stored :
    (little : Bool) (m : Mem) (a : ℕ) (p : FrameHeader)
    → IsValid p
    → write_header little m a p ≡ stored m a p
unfolding write_header
write_header-stored little m a p v = rw (
  write_be_u32-store little _ (a + 36) p.reserved v.reserved_fits,
  write_be_u32-store little _ (a + 32) p.crc32c v.crc32c_fits,
  write_be_u64-store little _ (a + 24) p.send_timestamp_ns v.send_timestamp_ns_fits,
  write_be_u64-store little _ (a + 16) p.sequence v.sequence_fits,
  write_be_u32-store little _ (a + 12) p.session_id v.session_id_fits,
  write_be_u32-store little _ (a + 8) p.payload_length v.payload_length_fits,
  write_be_u16-store little _ (a + 6) p.flags v.flags_fits,
  write_be_u32-store little _ a p.magic v.magic_fits,
)

pub stored-IsBytes :
    (m : Mem) (a : ℕ) (p : FrameHeader) → IsBytes m → IsValid p → IsBytes (stored m a p)
stored-IsBytes m a p b v =
    let b_magic = store-IsBytes false 4 _ a p.magic b in
    let b_version = store_byte-IsBytes _ (a + 4) p.version b_magic v.version_fits in
    let b_message_type =
      store_byte-IsBytes _ (a + 5) p.message_type b_version v.message_type_fits in
    let b_flags = store-IsBytes false 2 _ (a + 6) p.flags b_message_type in
    let b_payload_length = store-IsBytes false 4 _ (a + 8) p.payload_length b_flags in
    let b_session_id = store-IsBytes false 4 _ (a + 12) p.session_id b_payload_length in
    let b_sequence = store-IsBytes false 8 _ (a + 16) p.sequence b_session_id in
    let b_send_timestamp_ns = store-IsBytes false 8 _ (a + 24) p.send_timestamp_ns b_sequence in
    let b_crc32c = store-IsBytes false 4 _ (a + 32) p.crc32c b_send_timestamp_ns in
    let b_reserved = store-IsBytes false 4 _ (a + 36) p.reserved b_crc32c in b_reserved

-- `Frame::read_header` on a host of either byte order gets back the header whose fields fit their types
-- that `Frame::write_header` on a host of either byte order wrote over bytes.
pub read_header-write_header :
    (writer reader : Bool) (m : Mem) (p : FrameHeader)
    → IsBytes m
    → IsValid p
    → read_header reader (write_header writer m 0 p) ≡ p
unfolding read_header
read_header-write_header writer reader m p b v =
    let wire = stored m 0 p in
    let b_wire = stored-IsBytes m 0 p b v in
    let r_magic =
      read_be_u32-load_be reader wire 0 b_wire
      ∙ (let e : load_be 4 wire 0 ≡ p.magic = omega arith in e) in
    let r_version : wire 4 ≡ p.version = refl in
    let r_message_type : wire 5 ≡ p.message_type = refl in
    let r_flags =
      read_be_u16-load_be reader wire 6 b_wire
      ∙ (let e : load_be 2 wire 6 ≡ p.flags = omega arith in e) in
    let r_payload_length =
      read_be_u32-load_be reader wire 8 b_wire
      ∙ (let e : load_be 4 wire 8 ≡ p.payload_length = omega arith in e) in
    let r_session_id =
      read_be_u32-load_be reader wire 12 b_wire
      ∙ (let e : load_be 4 wire 12 ≡ p.session_id = omega arith in e) in
    let r_sequence =
      read_be_u64-load_be reader wire 16 b_wire
      ∙ (let e : load_be 8 wire 16 ≡ p.sequence = omega arith in e) in
    let r_send_timestamp_ns =
      read_be_u64-load_be reader wire 24 b_wire
      ∙ (let e : load_be 8 wire 24 ≡ p.send_timestamp_ns = omega arith in e) in
    let r_crc32c =
      read_be_u32-load_be reader wire 32 b_wire
      ∙ (let e : load_be 4 wire 32 ≡ p.crc32c = omega arith in e) in
    let r_reserved =
      read_be_u32-load_be reader wire 36 b_wire
      ∙ (let e : load_be 4 wire 36 ≡ p.reserved = omega arith in e) in
    rw (write_header-stored writer m 0 p v) (λ i. record {
      magic = r_magic i;
      version = r_version i;
      message_type = r_message_type i;
      flags = r_flags i;
      payload_length = r_payload_length i;
      session_id = r_session_id i;
      sequence = r_sequence i;
      send_timestamp_ns = r_send_timestamp_ns i;
      crc32c = r_crc32c i;
      reserved = r_reserved i;
    })
