-- ===== src/Tests.antt =====
-- The theorems of the protocol and of its parts at concrete frames, events and checksums.
pub mod Words
pub mod Rings
pub mod Queries
pub mod Vectors
use vector_tick.Common.{
  ℕ, ◌+◌, ◌%◌, ◌<◌, ◌≤◌, true, false, none, some, List, [], ◌∷◌, ◌++◌, ◌≡◌, ◌⊎◌, refl, arith, ◌↔◌,
}
use vector_tick.Common.Int.{negsuc}
use vector_tick.Memory.{Mem, IsBytes, shift, load_be, load_le, store, bytes}
use vector_tick.Status.{ok, value, truncated_frame}
use vector_tick.Event.{CanonicalEvent, validate}
use vector_tick.Event.Bounds.{InLimits, validate-InLimits}
use vector_tick.Endian.{
  read_be_u64, write_be_u64, read_le_u64, write_le_u64, read_be_i64, write_be_i64,
}
use vector_tick.Endian.Network.{read_be_u64-load_be, write_be_u64-store}
use vector_tick.Endian.Little.{read_le_u64-load_le, write_le_u64-store}
use vector_tick.Endian.RoundTrip.{read_be_i64-write_be_i64}
use vector_tick.Crc32c.{CrcUnit, Platform, start, init, compute_sw, compute_unit, compute, combine}
use vector_tick.Crc32c.Reference.{crc_bytes, crc_step, crc32c}
use vector_tick.Crc32c.Table.{IsSound, IsReady, start-IsSound, init-IsReady, compute_sw-crc_bytes}
use vector_tick.Crc32c.Hardware.{operand_bytes, IsCrc32c, compute_unit-crc_bytes}
use vector_tick.Crc32c.Combine.{combine-crc32c, combine-start}
use vector_tick.Crc32c.Checksum.{Checksum, IsGenuine, checksum, crc_from, compute-crc_from}
use vector_tick.Protocol.Header
use vector_tick.Protocol.Header.{FrameHeader, read_header, write_header}
use vector_tick.Protocol.Header.RoundTrip.{read_header-write_header}
use vector_tick.Protocol.Metadata
use vector_tick.Protocol.Metadata.{StreamMetadata}
use vector_tick.Protocol.Frame
use vector_tick.Protocol.Frame.{write_frame, read_frame, compute_crc, frame_header}
use vector_tick.Protocol.Frame.Layout.{compute_crc-crc32c, sealed, header_bytes, unsealed}
use vector_tick.Protocol.Frame.Validate.{Accepted, read_frame-write_frame, validate-Accepted}
use vector_tick.Protocol.Decoder.{fresh, decode_frame, decode_read}
use vector_tick.Protocol.Decoder.Steps.{Decoded, decode_frame-Decoded}
use vector_tick.Protocol.Decoder.Failure.{Failed, decode_frame-error}
use vector_tick.Protocol.Encoder.{Encoder, encode_event}
use vector_tick.Protocol.Encoder.Payload.{Fits}
use vector_tick.Protocol.Encoder.RoundTrip.{decode_frame-encode_event}

abbrev portable : Platform
portable = record { little = true; unit = none }

portable-IsGenuine : IsGenuine portable
unfolding IsGenuine
portable-IsGenuine u e = absurd (cc)

abbrev crc : Checksum
crc = checksum portable start portable-IsGenuine start-IsSound

abbrev zeros : Mem
zeros i = 0

zeros-IsBytes : IsBytes zeros
zeros-IsBytes i = omega arith

-- Memory that repeats `1 2 … 8`.
abbrev ramp : Mem
ramp i = i % 8 + 1

ramp-IsBytes : IsBytes ramp
ramp-IsBytes i = omega arith

abbrev sale : CanonicalEvent
sale = record {
  exchange_ts_ns = 1000;
  receive_ts_ns = 0;
  sequence = 7;
  instrument_id = 12;
  event_type = 1;
  side = 1;
  flags = 0;
  price_ticks = negsuc 4;
  quantity = 300;
  venue_id = 2;
  source_id = 3;
  trade_or_order_id = 99;
}

sale-InLimits : InLimits sale
sale-InLimits = (validate-InLimits sale).0 (unfold validate in refl)

sale-Fits : Fits sale
sale-Fits = record {
  limits = sale-InLimits;
  sequence = omega arith;
  flags = omega arith;
  id = omega arith;
  sided = omega arith;
}

abbrev idle : Encoder
idle = record { frames_encoded = 0; encode_errors = 0 }

-- A big-endian writer, a little-endian reader.
abbrev sent : Mem
sent = (encode_event crc false idle sale zeros 128 5).1

decode_frame-encode_event_example :
    ((encode_event crc false idle sale zeros 128 5).2 ≡ value 80)
    × (decode_frame crc true fresh sent 80 sale 2000 ≡ (
      record fresh { last_session_id = 5; last_sequence = 7; frames_decoded = 1 },
      record sale { receive_ts_ns = 2000 },
      value 80,
    ))
decode_frame-encode_event_example =
    decode_frame-encode_event crc false true fresh sale sale 5 80 2000 sale-Fits (omega arith)
      (omega arith) zeros zeros-IsBytes (omega arith) idle 128 (omega arith) (omega arith)

decode_frame-Decoded_example :
    Decoded crc true fresh sent 80 sale
      (record fresh { last_session_id = 5; last_sequence = 7; frames_decoded = 1 })
      (record sale { receive_ts_ns = 2000 })
      80
decode_frame-Decoded_example =
    decode_frame-Decoded crc true fresh sent 80 sale 2000 decode_frame-encode_event_example.1

decode_frame-error_example :
    ((39 < Header.size + (read_header true zeros).payload_length)
      × (truncated_frame ≡ truncated_frame)
      × (fresh ≡ fresh)
      × (sale ≡ sale))
    ⊎ ((Header.size + (read_header true zeros).payload_length ≤ 39) × Failed fresh fresh)
decode_frame-error_example =
    decode_frame-error crc true fresh sale 2000 fresh sale truncated_frame zeros 39
      (unfold decode_frame decode_read read_frame in refl)

-- A frame of type 2 with the eight bytes of `ramp`.
abbrev boxed : Mem
boxed = write_frame crc true zeros 2 0 5 7 1000 (some ramp) 8

read_frame-write_frame_example :
    (read_frame crc false boxed 48
      ≡ some (48, sealed crc true (frame_header 2 0 5 7 1000 8) ramp, shift boxed 40))
    × Accepted crc false
        (sealed crc true (frame_header 2 0 5 7 1000 8) ramp)
        (some (shift boxed 40))
        48
read_frame-write_frame_example =
    read_frame-write_frame crc true false zeros ramp 2 0 5 7 1000 8 48 zeros-IsBytes ramp-IsBytes
      (ground arith) (omega arith)

validate-Accepted_example :
    (Frame.validate crc true (frame_header 2 0 5 7 1000 8) (some ramp) 48 ≡ ok)
    ↔ Accepted crc true (frame_header 2 0 5 7 1000 8) (some ramp) 48
validate-Accepted_example = validate-Accepted crc true (frame_header 2 0 5 7 1000 8) (some ramp) 48

compute_crc-crc32c_example :
    compute_crc crc true (frame_header 2 0 5 7 1000 8) (some ramp)
    ≡ crc32c (header_bytes (unsealed (frame_header 2 0 5 7 1000 8)) ++ bytes ramp 8)
compute_crc-crc32c_example =
    compute_crc-crc32c crc true (frame_header 2 0 5 7 1000 8) ramp (omega arith) ramp-IsBytes

compute-crc_from_example :
    IsSound (compute portable start 17 (some ramp) 9).0
    × ((compute portable start 17 (some ramp) 9).1 ≡ crc_from 17 (bytes ramp 9))
compute-crc_from_example =
    compute-crc_from portable start 17 ramp 9 portable-IsGenuine start-IsSound (omega arith)
      ramp-IsBytes

compute_sw-crc_bytes_example :
    IsReady (compute_sw start 17 ramp 9).0
    × ((compute_sw start 17 ramp 9).1 ≡ crc_bytes 17 (bytes ramp 9))
compute_sw-crc_bytes_example = compute_sw-crc_bytes start 17 ramp 9 start-IsSound ramp-IsBytes

abbrev part_a : List ℕ
part_a = 1 ∷ 2 ∷ []

abbrev part_b : List ℕ
part_b = 3 ∷ 4 ∷ 5 ∷ 6 ∷ 7 ∷ []

combine-crc32c_example :
    combine (init start) (crc32c part_a) (crc32c part_b) 5 ≡ crc32c (1 ∷ 2 ∷ 3 ∷ 4 ∷ 5 ∷ 6 ∷ 7 ∷ [])
combine-crc32c_example =
    combine-crc32c (init start) part_a part_b (init-IsReady start start-IsSound)

combine-start_example : combine start 123 456 5 ≡ 456
combine-start_example = combine-start 123 456 5 (omega arith) (omega arith)

validate-InLimits_example : (validate sale ≡ ok) ↔ InLimits sale
validate-InLimits_example = validate-InLimits sale

abbrev metadata : StreamMetadata
metadata = record {
  start_time_ns = 1;
  end_time_ns = 2;
  source_id = 3;
  instrument_count = 4;
  event_count_hint = 5;
  flags = 6;
  time_resolution = 7;
  reserved = 0;
}

read_from-write_to_example :
    Metadata.read_from true (Metadata.write_to false ramp 0 metadata) ≡ metadata
read_from-write_to_example =
    Metadata.RoundTrip.read_from-write_to false true ramp metadata ramp-IsBytes (omega arith)

-- CRC instructions as their manuals describe them.
abbrev unit_model : CrcUnit
unit_model = record {
  crc_u64 = λ acc v. crc_bytes acc (operand_bytes 8 v 0);
  crc_u32 = λ acc v. crc_bytes acc (operand_bytes 4 v 0);
  crc_u16 = λ acc v. crc_bytes acc (operand_bytes 2 v 0);
  crc_u8 = λ acc v. crc_step acc v;
}

unit_model-IsCrc32c : IsCrc32c unit_model
unit_model-IsCrc32c = record {
  absorbs_8 = λ acc v h k. refl;
  absorbs_16 = λ acc v h k. refl;
  absorbs_32 = λ acc v h k. refl;
  absorbs_64 = λ acc v h k. refl;
}

compute_unit-crc_bytes_example :
    compute_unit true unit_model 17 ramp 15 ≡ crc_bytes 17 (bytes ramp 15)
compute_unit-crc_bytes_example =
    compute_unit-crc_bytes unit_model 17 ramp 15 unit_model-IsCrc32c ramp-IsBytes (omega arith)

read_header-write_header_example :
    read_header false (write_header true ramp 0 (frame_header 2 0 5 7 1000 8))
    ≡ frame_header 2 0 5 7 1000 8
read_header-write_header_example =
    read_header-write_header true false ramp (frame_header 2 0 5 7 1000 8) ramp-IsBytes
      (omega arith)

read_be_u64-load_be_example : read_be_u64 true ramp 3 ≡ load_be 8 ramp 3
read_be_u64-load_be_example = read_be_u64-load_be true ramp 3 ramp-IsBytes

write_be_u64-store_example :
    write_be_u64 true ramp 3 0x0102030405060708 ≡ store false 8 ramp 3 0x0102030405060708
write_be_u64-store_example = write_be_u64-store true ramp 3 0x0102030405060708 (omega arith)

read_le_u64-load_le_example : read_le_u64 false ramp 3 ≡ load_le 8 ramp 3
read_le_u64-load_le_example = read_le_u64-load_le false ramp 3 ramp-IsBytes

read_be_i64-write_be_i64_example :
    read_be_i64 false (write_be_i64 true ramp 3 (negsuc 41)) 3 ≡ negsuc 41
read_be_i64-write_be_i64_example =
    read_be_i64-write_be_i64 true false ramp 3 (negsuc 41) ramp-IsBytes (ground arith)
