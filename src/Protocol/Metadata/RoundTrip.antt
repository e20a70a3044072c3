-- ===== src/Protocol/Metadata/RoundTrip.antt =====
-- Reading back what was written, whatever the hosts.
use vector_tick.Common.{ℕ, ◌+◌, ◌^◌, ◌<◌, Bool, false, ◌≡◌, refl, ◌∙◌, arith}
use vector_tick.Memory.Shift.{shift-store, shift-store_start, shift-store_byte}
use vector_tick.Memory.{Mem, IsBytes, shift, store_byte, store, load_be}
use vector_tick.Endian.Network.{
  read_be_u16-load_be, read_be_u32-load_be, read_be_u64-load_be, write_be_u16-store,
  write_be_u32-store, write_be_u64-store,
}
use vector_tick.Endian.RoundTrip.{store-IsBytes, store_byte-IsBytes}
use vector_tick.Protocol.Metadata.{StreamMetadata, read_from, write_to}

-- Each field fits its type.
pub record IsValid (p : StreamMetadata) : Type 0 where
  pub start_time_ns_fits : p.start_time_ns < 2 ^ 64
  pub end_time_ns_fits : p.end_time_ns < 2 ^ 64
  pub source_id_fits : p.source_id < 2 ^ 32
  pub instrument_count_fits : p.instrument_count < 2 ^ 32
  pub event_count_hint_fits : p.event_count_hint < 2 ^ 32
  pub flags_fits : p.flags < 2 ^ 16
  pub time_resolution_fits : p.time_resolution < 256
  pub reserved_fits : p.reserved < 256

-- The memory that the writer leaves: the bytes in network order.
abbrev pub stored : Mem → ℕ → StreamMetadata → Mem
stored m a p =
    let m_start_time_ns = store false 8 m a p.start_time_ns in
    let m_end_time_ns = store false 8 m_start_time_ns (a + 8) p.end_time_ns in
    let m_source_id = store false 4 m_end_time_ns (a + 16) p.source_id in
    let m_instrument_count = store false 4 m_source_id (a + 20) p.instrument_count in
    let m_event_count_hint = store false 4 m_instrument_count (a + 24) p.event_count_hint in
    let m_flags = store false 2 m_event_count_hint (a + 28) p.flags in
    let m_time_resolution = store_byte m_flags (a + 30) p.time_resolution in
    store_byte m_time_resolution (a + 31) p.reserved

pub write_to-stored :
    (little : Bool) (m : Mem) (a : ℕ) (p : StreamMetadata)
    → IsValid p
    → write_to little m a p ≡ stored m a p
unfolding write_to
write_to-stored little m a p v = rw (
  write_be_u16-store little _ (a + 28) p.flags v.flags_fits,
  write_be_u32-store little _ (a + 24) p.event_count_hint v.event_count_hint_fits,
  write_be_u32-store little _ (a + 20) p.instrument_count v.instrument_count_fits,
  write_be_u32-store little _ (a + 16) p.source_id v.source_id_fits,
  write_be_u64-store little _ (a + 8) p.end_time_ns v.end_time_ns_fits,
  write_be_u64-store little _ a p.start_time_ns v.start_time_ns_fits,
)

pub stored-IsBytes :
    (m : Mem) (a : ℕ) (p : StreamMetadata) → IsBytes m → IsValid p → IsBytes (stored m a p)
stored-IsBytes m a p b v =
    let b_start_time_ns = store-IsBytes false 8 _ a p.start_time_ns b in
    let b_end_time_ns = store-IsBytes false 8 _ (a + 8) p.end_time_ns b_start_time_ns in
    let b_source_id = store-IsBytes false 4 _ (a + 16) p.source_id b_end_time_ns in
    let b_instrument_count = store-IsBytes false 4 _ (a + 20) p.instrument_count b_source_id in
    let b_event_count_hint =
      store-IsBytes false 4 _ (a + 24) p.event_count_hint b_instrument_count in
    let b_flags = store-IsBytes false 2 _ (a + 28) p.flags b_event_count_hint in
    let b_time_resolution =
      store_byte-IsBytes _ (a + 30) p.time_resolution b_flags v.time_resolution_fits in
    let b_reserved = store_byte-IsBytes _ (a + 31) p.reserved b_time_resolution v.reserved_fits in
    b_reserved

-- `StreamMetadata::read_from` on a host of either byte order gets back the metadata whose fields fit
-- their types that `write_to` on a host of either byte order wrote over bytes.
pub read_from-write_to :
    (writer reader : Bool) (m : Mem) (p : StreamMetadata)
    → IsBytes m
    → IsValid p
    → read_from reader (write_to writer m 0 p) ≡ p
unfolding read_from
read_from-write_to writer reader m p b v =
    let wire = stored m 0 p in
    let b_wire = stored-IsBytes m 0 p b v in
    let r_start_time_ns =
      read_be_u64-load_be reader wire 0 b_wire
      ∙ (let e : load_be 8 wire 0 ≡ p.start_time_ns = omega arith in e) in
    let r_end_time_ns =
      read_be_u64-load_be reader wire 8 b_wire
      ∙ (let e : load_be 8 wire 8 ≡ p.end_time_ns = omega arith in e) in
    let r_source_id =
      read_be_u32-load_be reader wire 16 b_wire
      ∙ (let e : load_be 4 wire 16 ≡ p.source_id = omega arith in e) in
    let r_instrument_count =
      read_be_u32-load_be reader wire 20 b_wire
      ∙ (let e : load_be 4 wire 20 ≡ p.instrument_count = omega arith in e) in
    let r_event_count_hint =
      read_be_u32-load_be reader wire 24 b_wire
      ∙ (let e : load_be 4 wire 24 ≡ p.event_count_hint = omega arith in e) in
    let r_flags =
      read_be_u16-load_be reader wire 28 b_wire
      ∙ (let e : load_be 2 wire 28 ≡ p.flags = omega arith in e) in
    let r_time_resolution : wire 30 ≡ p.time_resolution = refl in
    let r_reserved : wire 31 ≡ p.reserved = refl in
    rw (write_to-stored writer m 0 p v) (λ i. record {
      start_time_ns = r_start_time_ns i;
      end_time_ns = r_end_time_ns i;
      source_id = r_source_id i;
      instrument_count = r_instrument_count i;
      event_count_hint = r_event_count_hint i;
      flags = r_flags i;
      time_resolution = r_time_resolution i;
      reserved = r_reserved i;
    })

-- Written at an offset, the bytes behind that offset are those written at the start.
pub shift-stored :
    (m : Mem) (a : ℕ) (p : StreamMetadata) → shift (stored m a p) a ≡ stored (shift m a) 0 p
shift-stored m a p =
    let m_start_time_ns = store false 8 m a p.start_time_ns in
    let s_start_time_ns = shift-store_start a m refl false 8 p.start_time_ns in
    let m_end_time_ns = store false 8 m_start_time_ns (a + 8) p.end_time_ns in
    let s_end_time_ns = shift-store a m_start_time_ns s_start_time_ns false 8 8 p.end_time_ns in
    let m_source_id = store false 4 m_end_time_ns (a + 16) p.source_id in
    let s_source_id = shift-store a m_end_time_ns s_end_time_ns false 4 16 p.source_id in
    let m_instrument_count = store false 4 m_source_id (a + 20) p.instrument_count in
    let s_instrument_count = shift-store a m_source_id s_source_id false 4 20 p.instrument_count in
    let m_event_count_hint = store false 4 m_instrument_count (a + 24) p.event_count_hint in
    let s_event_count_hint =
      shift-store a m_instrument_count s_instrument_count false 4 24 p.event_count_hint in
    let m_flags = store false 2 m_event_count_hint (a + 28) p.flags in
    let s_flags = shift-store a m_event_count_hint s_event_count_hint false 2 28 p.flags in
    let m_time_resolution = store_byte m_flags (a + 30) p.time_resolution in
    let s_time_resolution = shift-store_byte a m_flags s_flags 30 p.time_resolution in
    shift-store_byte a m_time_resolution s_time_resolution 31 p.reserved
