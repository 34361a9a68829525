-- ===== src/Metadata.antt =====
-- internal/metadata/models.go: the rows of the metadata store. Soft deletes, audit times and
-- descriptions that no operation of the program reads are left out. A time is a number of
-- milliseconds.
pub mod Repository
pub mod Telemetry
mod Tests
use data_loader.Prelude.{ℕ, String, Bool, Option, Text}

pub record Source : Type 0 where
  pub id : ℕ
  pub name : String
  pub kind : String
  pub params_json : Text
  pub is_enabled : Bool

pub record Load : Type 0 where
  pub id : ℕ
  pub source_id : ℕ
  pub source : Source
  pub name : String
  pub object_name : Text
  pub target_schema : Text
  pub target_table : Text
  pub mode : String
  pub watermark_column : Text
  pub watermark_type : String
  pub batch_size : ℕ
  pub auto_create_table : Bool
  pub cron_expression : String
  pub is_enabled : Bool

-- One row per load.
pub record Watermark : Type 0 where
  pub load_id : ℕ
  pub value : String
  pub updated_at : ℕ
  pub previous_value : String
  pub reset_at : Option ℕ
  pub reset_reason : String

-- One execution attempt of a load.
pub record LoadRun : Type 0 where
  pub id : ℕ
  pub run_uuid : String
  pub load_id : ℕ
  pub status : String
  pub started_at : ℕ
  pub finished_at : Option ℕ
  pub rows_read : ℕ
  pub rows_written : ℕ
  pub watermark_start : String
  pub watermark_end : String
  pub error_message : String
  pub duration_ms : ℕ
