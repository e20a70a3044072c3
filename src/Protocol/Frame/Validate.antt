-- ===== src/Protocol/Frame/Validate.antt =====
-- What `validate` accepts, and that it accepts what `write_frame` writes.
use vector_tick.Common.{
  ℕ, ◌+◌, ◌≤◌, ◌<◌, ◌≡◌, ◌⊎◌, ◌++◌, ◌↔◌, Bool, Option, none, some, refl, sym, ◌∙◌, ap, le→ltb,
  arith,
}
use vector_tick.Memory.{Mem, IsBytes, shift}
use vector_tick.Memory.Agree.{bytes-Agree}
use vector_tick.Status.{ok}
use vector_tick.Crc32c.Reference.{crc32c}
use vector_tick.Crc32c.Checksum.{Checksum}
use vector_tick.Event.{max_payload_length}
use vector_tick.Protocol.MessageType
use vector_tick.Protocol.Header
use vector_tick.Protocol.Header.{FrameHeader, read_header}
use vector_tick.Protocol.Header.RoundTrip.{IsValid}
use vector_tick.Protocol.Frame.{
  magic_vtp1, version_vtp1, compute_crc, validate, read_frame, frame_header, write_frame,
}
use vector_tick.Protocol.Frame.Layout.{
  header_bytes, sealed, Sent, compute_crc-crc32c, compute_crc-lt, write_frame-Sent,
}

-- A header that passes every check, with its payload and the bytes at hand.
pub record Accepted (k : Checksum) (little : Bool) (h : FrameHeader) (payload : Option Mem)
    (available : ℕ) : Type 0 where
  pub magic : h.magic ≡ magic_vtp1
  pub version : h.version ≡ version_vtp1
  pub reserved : h.reserved ≡ 0
  pub short : h.payload_length ≤ max_payload_length
  pub complete : Header.size + h.payload_length ≤ available
  pub known :
      (h.message_type ≤ MessageType.heartbeat) ⊎ (h.message_type ≡ MessageType.end_of_stream)
  pub intact : compute_crc k little h payload ≡ h.crc32c

-- `Frame::validate` answers OK exactly on the frames with the magic number, the version, a zero reserved
-- field, a payload of at most 65535 bytes that is at hand whole, a known message type and the checksum
-- of their header and payload.
pub validate-Accepted :
    (k : Checksum) (little : Bool) (h : FrameHeader) (payload : Option Mem) (available : ℕ)
    → (validate k little h payload available ≡ ok) ↔ Accepted k little h payload available
unfolding validate
validate-Accepted k little h payload available = (λ e. ground arith, λ a. ground arith)

-- `read_frame` gives nothing where the bytes end inside the header or the payload, and else the
-- header, the memory behind it, and the length of the frame.
pub read_frame-cases :
    (k : Checksum) (little : Bool) (buffer : Mem) (size : ℕ)
    → ((read_frame k little buffer size ≡ none)
        × (size < Header.size + (read_header little buffer).payload_length))
      ⊎ ((read_frame k little buffer size
            ≡ some (
              Header.size + (read_header little buffer).payload_length,
              read_header little buffer,
              shift buffer Header.size,
            ))
          × (Header.size + (read_header little buffer).payload_length ≤ size))
unfolding read_frame
read_frame-cases k little buffer size = ground arith

-- The conditions on what a caller hands to `write_frame`.
pub record IsSendable (type flags session_id sequence timestamp n : ℕ) : Type 0 where
  pub header_fits : IsValid (frame_header type flags session_id sequence timestamp n)
  pub short : n ≤ max_payload_length
  pub known : (type ≤ MessageType.heartbeat) ⊎ (type ≡ MessageType.end_of_stream)

module _ (k : Checksum) (writer reader : Bool) (buffer src : Mem)
    (type flags session_id sequence timestamp n size : ℕ) (b : IsBytes buffer) (c : IsBytes src)
    (s : IsSendable type flags session_id sequence timestamp n)
    (room : Header.size + n ≤ size) where
  abbrev written : Mem
  written = write_frame k writer buffer type flags session_id sequence timestamp (some src) n

  abbrev plain : FrameHeader
  plain = frame_header type flags session_id sequence timestamp n

  arrived : Sent reader written (sealed k writer plain src) src
  arrived =
      write_frame-Sent k writer reader buffer src type flags session_id sequence timestamp n b c
        s.header_fits

  sealed-IsValid : IsValid (sealed k writer plain src)
  sealed-IsValid = let v = s.header_fits in omega (arith, compute_crc-lt k writer plain src v c)

  same_checksum :
      compute_crc k reader (sealed k writer plain src) (some (shift written Header.size))
      ≡ compute_crc k writer plain (some src)
  same_checksum =
      compute_crc-crc32c k reader (sealed k writer plain src) _ sealed-IsValid
        (λ i. arrived.octets (40 + i))
      ∙ ap (λ bs. crc32c (header_bytes plain ++ bs)) (bytes-Agree n arrived.payload)
      ∙ sym (compute_crc-crc32c k writer plain src s.header_fits c)

  -- Whatever the two hosts, a frame that `Frame::write_frame` writes over bytes, with header fields that
  -- fit their types, a payload of at most 65535 bytes and a known message type, is read back whole by
  -- `Frame::read_frame` where its bytes are at hand, with the header that was sent, and passes every check
  -- of `Frame::validate`.
  pub read_frame-write_frame :
      (read_frame k reader written size
        ≡ some (Header.size + n, sealed k writer plain src, shift written Header.size))
      × Accepted k reader (sealed k writer plain src) (some (shift written Header.size)) size
  unfolding read_frame
  read_frame-write_frame = (
    rw (arrived.header, le→ltb size Header.size (omega arith), le→ltb size (Header.size + n) room),
    record {
      magic = refl;
      version = refl;
      reserved = refl;
      short = s.short;
      complete = room;
      known = s.known;
      intact = same_checksum;
    },
  )
