-- ===== src/Error.antt =====
-- src/DeltaError.hpp: failure categories and statistics.
use roll.Prelude.{ℕ, Bool, if◌then◌else◌}
use roll.Codec.Reader.{ReadError}
use roll.Codec.Writer.{WriteError}

pub data DeltaErrc : Type 0 where
  io_error corrupt_delta integrity_mismatch invalid_argument limit_exceeded internal_error :
      DeltaErrc

-- The texts of `DeltaError::message`, without the paths and numbers put into them. `no_message` is
-- that of a default-constructed error. `out_of_fuel` is no value of the source: a loop of the model
-- used up its fuel.
pub data Message : Type 0 where
  no_message out_of_fuel : Message
  reader_says : ReadError → Message
  writer_says : WriteError → Message
  position_backwards match_copy_bounds inline_write_bounds d_advance_bounds x_delete_bounds :
      Message
  tail_copy_bounds : Message
  cannot_open_old cannot_open_new cannot_open_delta cannot_read_old cannot_close_inputs : Message
  whole_file_mismatch index_out_of_range original_mismatch added_mismatch modified_mismatch :
      Message
  cannot_read_chunk cannot_read_source over_limit cannot_write_chunk : Message
  cannot_inspect_output not_regular cannot_compare aliases_input already_opened empty_filename :
      Message
  cannot_create_temporary cannot_copy_permissions no_staged_output cannot_flush cannot_replace :
      Message
  input_size_changed cannot_read_signed input_changed old_input_changed new_input_changed : Message

pub record DeltaError : Type 0 where
  pub code : DeltaErrc
  pub message : Message

-- `DeltaError diff_error;`: the category with value 0 and an empty message.
abbrev pub default_error : DeltaError
default_error = record { code = io_error; message = no_message }

pub record DeltaStats : Type 0 where
  pub chunks_processed : ℕ
  pub bytes_written : ℕ

pub record ApplyStats : Type 0 where
  pub entries_processed : ℕ
  pub bytes_written : ℕ

-- `reader.io_error() ? DeltaErrc::io_error : DeltaErrc::corrupt_delta`
abbrev pub reader_code : Bool → DeltaErrc
reader_code has_error = if has_error then io_error else corrupt_delta
