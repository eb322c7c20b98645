-- ===== src/Wal/Types.antt =====
-- Positions, errors and results of src/wal: wal_types.hpp, wal_position, wal_error and wal_result.
use Prim.Native.String.{String}
use fun_exch_macher.Common.{ℕ, Bool, not, ◌&&◌, ◌==◌}

abbrev pub record_magic : ℕ
record_magic = 0x57414C52

abbrev pub segment_magic : ℕ
segment_magic = 0x57414C53

abbrev pub format_version : ℕ
format_version = 1

abbrev pub record_alignment : ℕ
record_alignment = 8

pub data WalError : Type 0 where
  no_error cannot_open_file cannot_read_file cannot_write_file cannot_flush_file : WalError
  cannot_sync_file invalid_segment_header invalid_record_header invalid_magic : WalError
  unsupported_version invalid_record_length invalid_payload_length : WalError
  payload_checksum_mismatch header_checksum_mismatch unexpected_sequence : WalError
  unknown_record_type payload_size_mismatch record_type_mismatch : WalError
  incomplete_trailing_record corrupted_middle_record end_of_log : WalError

unfoldable pub to_string : WalError → String
to_string no_error = "none"
to_string cannot_open_file = "cannot_open_file"
to_string cannot_read_file = "cannot_read_file"
to_string cannot_write_file = "cannot_write_file"
to_string cannot_flush_file = "cannot_flush_file"
to_string cannot_sync_file = "cannot_sync_file"
to_string invalid_segment_header = "invalid_segment_header"
to_string invalid_record_header = "invalid_record_header"
to_string invalid_magic = "invalid_magic"
to_string unsupported_version = "unsupported_version"
to_string invalid_record_length = "invalid_record_length"
to_string invalid_payload_length = "invalid_payload_length"
to_string payload_checksum_mismatch = "payload_checksum_mismatch"
to_string header_checksum_mismatch = "header_checksum_mismatch"
to_string unexpected_sequence = "unexpected_sequence"
to_string unknown_record_type = "unknown_record_type"
to_string payload_size_mismatch = "payload_size_mismatch"
to_string record_type_mismatch = "record_type_mismatch"
to_string incomplete_trailing_record = "incomplete_trailing_record"
to_string corrupted_middle_record = "corrupted_middle_record"
to_string end_of_log = "end_of_log"

pub record WalPosition : Type 0 where
  pub stream_id : ℕ
  pub epoch : ℕ
  pub sequence : ℕ

abbrev pub no_position : WalPosition
no_position = record { stream_id = 0; epoch = 0; sequence = 0 }

unfoldable pub is_valid : WalPosition → Bool
is_valid p = not (p.stream_id == 0) && (not (p.epoch == 0) && not (p.sequence == 0))

unfoldable pub same_stream_epoch : WalPosition → WalPosition → Bool
same_stream_epoch p q = p.stream_id == q.stream_id && p.epoch == q.epoch

pub data WalAppendStatus : Type 0 where
  appended append_rejected append_failed : WalAppendStatus

pub record WalAppendResult : Type 0 where
  pub status : WalAppendStatus
  pub error : WalError
  pub position : WalPosition

pub data WalCommitStatus : Type 0 where
  committed commit_failed : WalCommitStatus

pub record WalCommitResult : Type 0 where
  pub status : WalCommitStatus
  pub error : WalError
  pub committed_up_to : WalPosition

pub data WalReadStatus : Type 0 where
  record_read log_ended read_failed : WalReadStatus

pub record WalReadResult : Type 0 where
  pub status : WalReadStatus
  pub error : WalError
  pub position : WalPosition
