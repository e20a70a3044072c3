-- ===== src/Status.antt =====
-- include/vectortick/common/status.hpp and result.hpp: error codes and results. A Status is its code:
-- the message that goes with it is text for people, which no code reads.
use vector_tick.Common.{Bool, true, false, ◌≡◌, refl}

pub data StatusCode : Type 0 where
  ok unknown invalid_argument out_of_range buffer_too_small not_implemented internal_error :
      StatusCode
  allocation_failed out_of_memory invalid_alignment file_not_found file_open_failed : StatusCode
  file_read_failed file_write_failed file_seek_failed file_stat_failed file_sync_failed : StatusCode
  file_rename_failed file_remove_failed directory_create_failed mmap_failed munmap_failed :
      StatusCode
  mprotect_failed msync_failed invalid_mapping invalid_magic invalid_version : StatusCode
  invalid_checksum invalid_length invalid_message_type invalid_flags invalid_payload : StatusCode
  truncated_frame reserved_field_not_zero sequence_not_monotonic invalid_timestamp : StatusCode
  pcap_invalid_header pcap_truncated_record pcap_unsupported_link_type : StatusCode
  pcap_invalid_ipv4_header pcap_invalid_udp_header pcap_fragmented_packet pcap_invalid_vlan :
      StatusCode
  segment_invalid_header segment_invalid_block segment_invalid_footer : StatusCode
  segment_schema_mismatch segment_checksum_failed segment_corrupted manifest_invalid : StatusCode
  manifest_corrupted manifest_generation_gap journal_invalid journal_corrupted : StatusCode
  journal_replay_failed recovery_failed recovery_inconsistent lexer_error parser_error : StatusCode
  binder_error type_error semantic_error invalid_query query_too_complex unknown_column : StatusCode
  unknown_table ir_verification_failed ir_invalid_opcode ir_type_mismatch ir_invalid_block :
      StatusCode
  ir_invalid_function jit_compilation_failed jit_code_too_large jit_relocation_failed : StatusCode
  jit_register_allocation_failed jit_memory_allocation_failed jit_feature_not_supported : StatusCode
  socket_create_failed socket_bind_failed socket_recv_failed socket_send_failed : StatusCode
  socket_timeout queue_full queue_empty worker_failed cancellation_requested limit_exceeded :
      StatusCode
  max_rows_exceeded max_segments_exceeded max_file_size_exceeded : StatusCode

-- Result<T>: a value, or the status of an error.
pub data Result {ℓ} (A : Type ℓ) : Type ℓ where
  value : A → Result A
  error : StatusCode → Result A

-- Status::ok()
abbrev pub is_ok : StatusCode → Bool
is_ok ok = true
is_ok _ = false

pub is_ok→ok : (s : StatusCode) → is_ok s ≡ true → s ≡ ok
is_ok→ok ok h = refl
is_ok→ok _ h = cc
