-- ===== src/Contracts.antt =====
-- pkg/contracts: the data that sources, sinks and the pipeline exchange. Modes, kinds and types are
-- strings in the source and here.
use data_loader.Prelude.{ℕ, String, Bool, false, List, Text}

abbrev pub mode_delta : String
mode_delta = "delta"

abbrev pub mode_append : String
mode_append = "append"

abbrev pub mode_replace : String
mode_replace = "replace"

abbrev pub watermark_none : String
watermark_none = "none"

abbrev pub watermark_datetime : String
watermark_datetime = "datetime"

abbrev pub watermark_numeric : String
watermark_numeric = "numeric"

-- A typed watermark value as a string; the empty string if there is none.
pub record Watermark : Type 0 where
  pub type : String
  pub value : String

pub record Column : Type 0 where
  pub name : Text
  pub data_type : String
  pub nullable : Bool

-- What a driver returns and a bulk copy takes. Numbers are bit patterns, times nanoseconds.
pub data Value : Type 0 where
  null : Value
  boolean : Bool → Value
  string : Text → Value
  bytes : List ℕ → Value
  integer : ℕ → Value
  float : ℕ → Value
  datetime : ℕ → Value
  -- `[16]byte` and the UUID types of the drivers
  uuid : List ℕ → Value

-- A row: values under column names.
abbrev pub Row : Type 0
Row = List (Text × Value)

pub record Batch : Type 0 where
  pub columns : List Column
  pub rows : List Row

pub record TargetTable : Type 0 where
  pub schema : Text
  pub name : Text

pub record ReadResult : Type 0 where
  pub rows_read : ℕ
  pub new_watermark : Watermark
  pub watermark_init : Bool

abbrev pub no_watermark : Watermark
no_watermark = record { type = ""; value = "" }

-- `contracts.ReadResult{}`; the two times in it are read by nothing in the repository.
abbrev pub empty_result : ReadResult
empty_result = record { rows_read = 0; new_watermark = no_watermark; watermark_init = false }

pub record SourceConfig : Type 0 where
  pub source_id : ℕ
  pub source_type : String
  pub name : String
  pub params : List (Text × Text)

pub record LoadConfig : Type 0 where
  pub load_id : ℕ
  pub name : String
  pub object_name : Text
  pub mode : String
  pub watermark_column : Text
  pub watermark_type : String
  pub last_watermark : Watermark
  pub batch_size : ℕ
