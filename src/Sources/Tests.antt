-- ===== src/Sources/Tests.antt =====
-- A result set of three rows, a GUID, and a poll of three nodes.
use data_loader.Prelude.{
  ℕ, suc, ◌+◌, ◌*◌, ◌≡◌, refl, false, Option, none, some, List, [], ◌∷◌, map, lit, Text, Error,
  plain, ok, err, arith,
}
use data_loader.Contracts.{Batch, Column, Value, integer, Row, LoadConfig, no_watermark}
use data_loader.Modbus.{Floats}
use data_loader.Sources.Cursor.{fill_row, deliver}
use data_loader.Sources.Cursor.Batches.{recorder, rows_of, AreSized, deliver_exact}
use data_loader.Sources.SqlServer.Guid.{format_guid, parse_guid, parse_guid-format_guid}
use data_loader.Sources.OpcUa.{OpcUaPoint, DataValue, UaValue, int16_value, Client}
use data_loader.Sources.OpcUa.Cycle.{read}
use data_loader.Sources.OpcUa.Cycle.Lockstep.{row_alone, Delivers, read-alone}
use data_loader.Sources.OpcUa.Cycle.Rows.{AreRowsOf, read-AreRowsOf}
use data_loader.Sources.OpcUa

abbrev columns : List Column
columns = record { name = lit "id"; data_type = "int64"; nullable = false } ∷ []

abbrev make : List Value → Row
unfolding fill_row
make vs = fill_row (λ v canonical. v) columns vs []

abbrev values : List (List Value)
values = (integer 1 ∷ []) ∷ (integer 2 ∷ []) ∷ (integer 3 ∷ []) ∷ []

deliver_exact_example :
    (bs : List Batch) × (deliver recorder columns make
        (λ e. e)
        2
        (λ e. e)
        (record { column_types = ok []; rows = map (λ v. ok v) values; rows_err = none })
        []
      ≡ (ok 3, bs))
    × (rows_of bs ≡ map make values)
    × AreSized 2 bs
deliver_exact_example = deliver_exact columns make (λ e. e) 2 (λ e. e) (ok []) values (omega arith)

parse_guid-format_guid_example :
    (shown : Text) × ((format_guid
          (0 ∷ 1 ∷ 2 ∷ 3 ∷ 4 ∷ 5 ∷ 6 ∷ 7 ∷ 8 ∷ 9 ∷ 10 ∷ 11 ∷ 12 ∷ 13 ∷ 14 ∷ 255 ∷ [])
        ≡ ok shown)
      × (parse_guid shown
          ≡ 0 ∷ 1 ∷ 2 ∷ 3 ∷ 4 ∷ 5 ∷ 6 ∷ 7 ∷ 8 ∷ 9 ∷ 10 ∷ 11 ∷ 12 ∷ 13 ∷ 14 ∷ 255 ∷ []))
parse_guid-format_guid_example = parse_guid-format_guid 0 1 2 3 4 5 6 7 8 9 10 11 12 13 14 255 (
  omega arith,
  (
    omega arith,
    (
      omega arith,
      (
        omega arith,
        (
          omega arith,
          (
            omega arith,
            (
              omega arith,
              (
                omega arith,
                (
                  omega arith,
                  (
                    omega arith,
                    (
                      omega arith,
                      (omega arith, (omega arith, (omega arith, (omega arith, (omega arith, tt))))),
                    ),
                  ),
                ),
              ),
            ),
          ),
        ),
      ),
    ),
  ),
)

-- Numbers for floats, with no infinity.
abbrev naturals : Floats
naturals = record {
  of_int = λ negative n. n;
  of_float32 = λ bits. bits;
  mul = λ a b. a * b;
  add = λ a b. a + b;
  is_nan = λ a. false;
  is_inf = λ a. false;
}

abbrev value_at : ℕ → DataValue
value_at id = record {
  status = 0;
  value = some (int16_value false id);
  source_timestamp = none;
  server_timestamp = some 400;
}

-- A server that answers each node with its number, and counts the requests.
abbrev server : Client ℕ ℕ
server = record {
  parse_node_id = λ t. elim t [ [] ↦ err (plain "empty") | c ∷ cs ↦ ok c ];
  read = λ ids n. (ok (map value_at ids), suc n);
  status_text = λ s. lit "status";
  render = λ e. lit "error";
  format_time = λ t. lit "time";
}

abbrev level : OpcUaPoint
level = record { tag_name = lit "level"; node_id = lit "A"; scale = 2; offset = 1 }

abbrev broken : OpcUaPoint
broken = record level { tag_name = lit "broken"; node_id = [] }

abbrev flow : OpcUaPoint
flow = record level { tag_name = lit "flow"; node_id = lit "B" }

abbrev load : LoadConfig
load = record {
  load_id = 7;
  name = "plant";
  object_name = [];
  mode = "append";
  watermark_column = [];
  watermark_type = "none";
  last_watermark = no_watermark;
  batch_size = 0;
}

abbrev keep : Batch → List Batch → Option Error × List Batch
keep b seen = (none, b ∷ seen)

read-alone_example :
    Delivers naturals server 500 load keep []
      (map (row_alone naturals server 500 value_at) (level ∷ broken ∷ flow ∷ []))
      (read naturals server 500 (some (ok (level ∷ broken ∷ flow ∷ []))) load keep 0 [])
read-alone_example =
    read-alone naturals server 500 load keep [] value_at level (broken ∷ flow ∷ []) 0
      (λ asked k. refl)

-- The same server, with a line that is down.
abbrev silent : Client ℕ ℕ
silent = record server { read = λ ids n. (err (plain "timeout"), n) }

read-AreRowsOf_example :
    (rows : List OpcUa.Reading) × AreRowsOf (level ∷ broken ∷ flow ∷ []) rows
    × Delivers naturals silent 500 load keep [] rows
        (read naturals silent 500 (some (ok (level ∷ broken ∷ flow ∷ []))) load keep 0 [])
read-AreRowsOf_example =
    read-AreRowsOf naturals silent 500 load keep [] level (broken ∷ flow ∷ []) 0
