-- ===== src/Modbus.antt =====
-- internal/sources/modbus/source.go: a polling cycle of a Modbus source, and the decoding of its
-- registers. The client library and the arithmetic of float64 (bit patterns here) are parameters; a
-- register is a number below 2 ^ 16 and a byte one below 2 ^ 8.
pub mod Words
pub mod Poll
use data_loader.Prelude.{
  ℕ, zero, suc, ◌+◌, ◌-◌, ◌*◌, ◌/◌, ◌%◌, ◌^◌, String, Bool, true, false, not, ◌&&◌, ◌||◌, Option,
  none, some, List, [], ◌∷◌, ◌++◌, ◌==◌, length, count, ltb, leb, if◌then◌else◌, Text, same_text,
  lit, to_lower, txt, Error, format, wrap, plain, Result, ok, err,
}
use data_loader.Contracts.{
  Column, Batch, Row, Value, null, boolean, string, float, datetime, LoadConfig, ReadResult,
  no_watermark,
}

pub record ModbusPoint : Type 0 where
  pub tag_name : Text
  pub unit_id : ℕ
  pub register_type : Text
  pub address : ℕ
  pub quantity : ℕ
  pub data_type : Text
  pub byte_order : Text
  pub word_order : Text
  pub scale : ℕ
  pub offset : ℕ
  pub correlation_id : Text

-- `float64` in Go: conversions, the two operations that scale a value, and the classes of results.
pub record Floats : Type 0 where
  -- sign and magnitude of an integer
  pub of_int : Bool → ℕ → ℕ
  pub of_float32 : ℕ → ℕ
  pub mul : ℕ → ℕ → ℕ
  pub add : ℕ → ℕ → ℕ
  pub is_nan : ℕ → Bool
  pub is_inf : ℕ → Bool

pub data Endianness : Type 0 where
  big_endian : Endianness
  little_endian : Endianness

pub data WordOrder : Type 0 where
  high_word_first : WordOrder
  low_word_first : WordOrder

pub data RegType : Type 0 where
  holding_register : RegType
  input_register : RegType

-- The client of simonvetter/modbus, with `err.Error()`. A read of one coil gives `vals[0]`.
pub record Client (C : Type 0) : Type 0 where
  pub set_unit_id : ℕ → C → Option Error × C
  pub set_encoding : Endianness → WordOrder → C → Option Error × C
  pub read_coil : ℕ → C → Result Bool × C
  pub read_discrete_input : ℕ → C → Result Bool × C
  pub read_registers : ℕ → ℕ → RegType → C → Result (List ℕ) × C
  pub render : Error → Text

-- `strings.EqualFold` with an ASCII word.
abbrev pub equal_fold : Text → Text → Bool
equal_fold s word = same_text (to_lower s) word

abbrev pub endianness : Text → Endianness
endianness s = if equal_fold s (lit "little") then little_endian else big_endian

abbrev pub word_order_of : Text → WordOrder
word_order_of s = if equal_fold s (lit "low_first") then low_word_first else high_word_first

abbrev pub null_if_empty : Text → Value
null_if_empty [] = null
null_if_empty (c ∷ cs) = string (c ∷ cs)

-- `quantityFor`.
unfoldable pub quantity_for : Text → ℕ → ℕ
unfolding same_text
quantity_for data_type override =
    let t = to_lower data_type in
    if ltb 0 override
    then override
    else if same_text t (lit "int16") || same_text t (lit "uint16")
    then 1
    else if same_text t (lit "int32") || same_text t (lit "uint32") || same_text t (lit "float32")
    then 2
    else if same_text t (lit "int64") || same_text t (lit "uint64") || same_text t (lit "float64")
    then 4
    else 1

-- `binary.BigEndian.PutUint16` of each register.
unfoldable pub to_bytes : List ℕ → List ℕ
to_bytes [] = []
to_bytes (r ∷ rs) = r / 2 ^ 8 ∷ r % 2 ^ 8 ∷ to_bytes rs

-- `buf[i]`, below the length.
unfoldable pub byte_at : List ℕ → ℕ → ℕ
byte_at [] i = 0
byte_at (b ∷ bs) zero = b
byte_at (b ∷ bs) (suc i) = byte_at bs i

-- The loop of `swapWords` for the words from `words - n` on.
unfoldable pub swap_from : List ℕ → ℕ → List ℕ
unfolding byte_at
swap_from buf zero = []
swap_from buf (suc n) = byte_at buf (2 * n) ∷ byte_at buf (2 * n + 1) ∷ swap_from buf n

-- `swapWords`; an odd last byte would stay 0.
unfoldable pub swap_words : List ℕ → List ℕ
unfolding swap_from
swap_words buf = swap_from buf (length buf / 2) ++ (if length buf % 2 == 0 then [] else 0 ∷ [])

-- `binary.BigEndian.Uint16`, `Uint32` and `Uint64`: the first `n` bytes as a number.
unfoldable pub big_uint : ℕ → List ℕ → ℕ
unfolding byte_at
big_uint zero buf = 0
big_uint (suc n) buf = big_uint n buf * 2 ^ 8 + byte_at buf n

-- `binary.LittleEndian`.
unfoldable pub little_uint : ℕ → List ℕ → ℕ
little_uint zero buf = 0
little_uint (suc n) [] = 0
little_uint (suc n) (b ∷ bs) = b + 2 ^ 8 * little_uint n bs

-- `int16(v)`, `int32(v)` and `int64(v)` of an unsigned `v` of `bits` bits, converted to a float64.
unfoldable pub float_of_signed : Floats → ℕ → ℕ → ℕ
float_of_signed fl bits v =
    if leb (2 ^ (bits - 1)) v then fl.of_int true (2 ^ bits - v) else fl.of_int false v

-- `decodeNumeric`.
unfoldable pub decode_numeric : Floats → List ℕ → Text → Text → Result ℕ
unfolding same_text big_uint little_uint float_of_signed
decode_numeric fl buf data_type byte_order =
    let t = to_lower data_type in
    let uint = λ (n : ℕ).
      if equal_fold byte_order (lit "little") then little_uint n buf else big_uint n buf in
    if same_text t (lit "int16")
    then (if ltb (length buf) 2
        then err (plain "int16 needs 2 bytes")
        else ok (float_of_signed fl 16 (uint 2)))
    else if same_text t (lit "uint16")
    then (if ltb (length buf) 2
        then err (plain "uint16 needs 2 bytes")
        else ok (fl.of_int false (uint 2)))
    else if same_text t (lit "int32")
    then (if ltb (length buf) 4
        then err (plain "int32 needs 4 bytes")
        else ok (float_of_signed fl 32 (uint 4)))
    else if same_text t (lit "uint32")
    then (if ltb (length buf) 4
        then err (plain "uint32 needs 4 bytes")
        else ok (fl.of_int false (uint 4)))
    else if same_text t (lit "int64")
    then (if ltb (length buf) 8
        then err (plain "int64 needs 8 bytes")
        else ok (float_of_signed fl 64 (uint 8)))
    else if same_text t (lit "uint64")
    then (if ltb (length buf) 8
        then err (plain "uint64 needs 8 bytes")
        else ok (fl.of_int false (uint 8)))
    else if same_text t (lit "float32")
    then (if ltb (length buf) 4
        then err (plain "float32 needs 4 bytes")
        else ok (fl.of_float32 (uint 4)))
    else if same_text t (lit "float64")
    then (if ltb (length buf) 8 then err (plain "float64 needs 8 bytes") else ok (uint 8))
    else err (format "unsupported data type %q" (txt data_type ∷ []))
