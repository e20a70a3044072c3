-- ===== src/Protocol/Frame.antt =====
-- Frame of include/vectortick/protocol/frame.hpp, over any implementation of the checksum. A pointer
-- into a buffer is the memory behind it; `payload` is what its pointer shows when a frame is written.
pub mod Layout
pub mod Validate
use vector_tick.Common.{
  ℕ, ◌+◌, Bool, true, false, Option, none, some, ltb, ◌==◌, if◌then◌else◌, ◌&&◌, not,
}
use vector_tick.Memory.{Mem, shift, copy}
use vector_tick.Status.{
  StatusCode, ok, invalid_magic, invalid_version, reserved_field_not_zero, invalid_length,
  truncated_frame, invalid_message_type, invalid_checksum,
}
use vector_tick.Crc32c.Checksum.{Checksum}
use vector_tick.Event.{max_payload_length}
use vector_tick.Protocol.Header
use vector_tick.Protocol.Header.{FrameHeader, read_header, write_header}
use vector_tick.Protocol.MessageType

-- Magic::VTP1 and Version::VTP1
abbrev pub magic_vtp1 : ℕ
magic_vtp1 = 0x56545031

abbrev pub version_vtp1 : ℕ
version_vtp1 = 1

-- The header buffer on the stack before it is written.
abbrev pub blank : Mem
blank i = 0

-- `payload` as a condition
abbrev pub is_some : Option Mem → Bool
is_some none = false
is_some (some m) = true

-- The memcpy of the payload behind the header.
abbrev pub copy_payload : Mem → Option Mem → ℕ → Mem
copy_payload m none n = m
copy_payload m (some src) n = if ltb 0 n then copy m Header.size src n else m

-- The header that `write_frame` fills in, before its checksum.
abbrev pub frame_header : ℕ → ℕ → ℕ → ℕ → ℕ → ℕ → FrameHeader
frame_header type flags session_id sequence timestamp payload_length = record {
  magic = magic_vtp1;
  version = version_vtp1;
  message_type = type;
  flags = flags;
  payload_length = payload_length;
  session_id = session_id;
  sequence = sequence;
  send_timestamp_ns = timestamp;
  crc32c = 0;
  reserved = 0;
}

module _ (k : Checksum) (little : Bool) where
  unfoldable pub compute_crc : FrameHeader → Option Mem → ℕ
  compute_crc header payload =
      let temp = record header { crc32c = 0 } in
      let header_buf = write_header little blank 0 temp in
      let crc = k.compute 0 (some header_buf) Header.size in
      if ltb 0 header.payload_length && is_some payload
      then k.compute crc payload header.payload_length
      else crc

  unfoldable pub validate : FrameHeader → Option Mem → ℕ → StatusCode
  unfolding compute_crc
  validate header payload available_bytes =
      if not (header.magic == magic_vtp1)
      then invalid_magic
      else (if not (header.version == version_vtp1)
          then invalid_version
          else (if not (header.reserved == 0)
              then reserved_field_not_zero
              else (if ltb max_payload_length header.payload_length
                  then invalid_length
                  else (if ltb available_bytes (Header.size + header.payload_length)
                      then truncated_frame
                      else (if ltb MessageType.heartbeat header.message_type
                            && not (header.message_type == MessageType.end_of_stream)
                          then invalid_message_type
                          else (if not (compute_crc header payload == header.crc32c)
                              then invalid_checksum
                              else ok))))))

  -- The bytes consumed, the header and the payload; `none` where the source returns 0.
  unfoldable pub read_frame : Mem → ℕ → Option (ℕ × FrameHeader × Mem)
  read_frame buffer buffer_size =
      let header = read_header little buffer in
      let total_size = Header.size + header.payload_length in
      if ltb buffer_size Header.size
      then none
      else (if ltb buffer_size total_size
          then none
          else some (total_size, header, shift buffer Header.size))

  unfoldable pub write_frame : Mem → ℕ → ℕ → ℕ → ℕ → ℕ → Option Mem → ℕ → Mem
  unfolding compute_crc
  write_frame buffer type flags session_id sequence timestamp payload payload_length =
      let header = frame_header type flags session_id sequence timestamp payload_length in
      let sealed = record header { crc32c = compute_crc header payload } in
      copy_payload (write_header little buffer 0 sealed) payload payload_length
