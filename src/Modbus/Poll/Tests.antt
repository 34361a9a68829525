-- ===== src/Modbus/Poll/Tests.antt =====
-- A cycle over three tags, of which one has a unit that does not answer.
use data_loader.Prelude.{
  Option, Error, ℕ, suc, ◌+◌, ◌*◌, ◌^◌, ◌≡◌, ◌==◌, true, false, none, some, List, [], ◌∷◌, lit,
  plain, ok, err, if◌then◌else◌,
}
use data_loader.Modbus.{ModbusPoint, Floats, Client, to_bytes, swap_words, big_uint}
use data_loader.Modbus.Words.{big_uint-words}
use data_loader.Contracts.{Batch, LoadConfig, ReadResult}
use data_loader.Metrics.{Sample}
use data_loader.Modbus.Poll.{read}

-- Numbers for floats, with no infinity.
abbrev naturals : Floats
naturals = record {
  of_int = λ negative n. n;
  of_float32 = λ bits. bits;
  mul = λ a b. a * b;
  add = λ a b. a + b;
  is_nan = λ a. false;
  is_inf = λ a. false;
}

-- A gateway without unit 2, which counts the requests.
abbrev gateway : Client ℕ
gateway = record {
  set_unit_id = λ id n. ((if id == 2 then some (plain "no such unit") else none), suc n);
  set_encoding = λ e w n. (none, suc n);
  read_coil = λ a n. (ok true, suc n);
  read_discrete_input = λ a n. (err (plain "timeout"), suc n);
  read_registers = λ a q t n. (ok (1 ∷ 2 ∷ []), suc n);
  render = λ e. lit "error";
}

abbrev pressure : ModbusPoint
pressure = record {
  tag_name = lit "pressure";
  unit_id = 1;
  register_type = lit "Holding";
  address = 10;
  quantity = 0;
  data_type = lit "uint32";
  byte_order = lit "big";
  word_order = lit "low_first";
  scale = 1;
  offset = 0;
  correlation_id = [];
}

abbrev tags : List ModbusPoint
tags =
    pressure
    ∷ record pressure { tag_name = lit "level"; unit_id = 2 }
    ∷ record pressure { tag_name = lit "alarm"; register_type = lit "discrete" }
    ∷ []

abbrev plant : LoadConfig
plant = record {
  load_id = 7;
  name = "plant";
  object_name = [];
  mode = "append";
  watermark_column = [];
  watermark_type = "none";
  last_watermark = record { type = "none"; value = "" };
  batch_size = 0;
}

-- The batches that the handler has seen.
abbrev keep : Batch → List Batch → Option Error × List Batch
keep batch batches = (none, batch ∷ batches)

abbrev answer : (ReadResult × Option Error) × (List Sample × (ℕ × List Batch))
answer = read naturals gateway 500 (some (ok tags)) plant keep 0 []

big_uint-words_example :
    (big_uint 2 (to_bytes (1 ∷ [])) ≡ 1)
    × (big_uint 4 (to_bytes (1 ∷ 2 ∷ [])) ≡ 1 * 2 ^ 16 + 2)
    × (big_uint 4 (swap_words (to_bytes (1 ∷ 2 ∷ []))) ≡ 2 * 2 ^ 16 + 1)
    × (big_uint 8 (to_bytes (1 ∷ 2 ∷ 3 ∷ 4 ∷ [])) ≡ ((1 * 2 ^ 16 + 2) * 2 ^ 16 + 3) * 2 ^ 16 + 4)
    × (big_uint 8 (swap_words (to_bytes (1 ∷ 2 ∷ 3 ∷ 4 ∷ [])))
        ≡ ((4 * 2 ^ 16 + 3) * 2 ^ 16 + 2) * 2 ^ 16 + 1)
big_uint-words_example = big_uint-words 1 2 3 4
