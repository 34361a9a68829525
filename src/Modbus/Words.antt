-- ===== src/Modbus/Words.antt =====
-- The order of the bytes and words of a value that spans several registers.
use data_loader.Prelude.{ℕ, ◌+◌, ◌*◌, ◌/◌, ◌%◌, ◌^◌, ◌≡◌, [], ◌∷◌, arith}
use data_loader.Modbus.{to_bytes, byte_at, swap_from, swap_words, big_uint}

join_byte : (r : ℕ) → r / 2 ^ 8 * 2 ^ 8 + r % 2 ^ 8 ≡ r
join_byte r = omega arith

-- Read in big-endian order, the bytes of registers are their number in base 2 ^ 16, the first
-- register being the high word; after the swap for `low_first`, it is the low word. This holds for
-- values of one, two and four registers.
pub big_uint-words :
    (a b c d : ℕ)
    → (big_uint 2 (to_bytes (a ∷ [])) ≡ a)
      × (big_uint 4 (to_bytes (a ∷ b ∷ [])) ≡ a * 2 ^ 16 + b)
      × (big_uint 4 (swap_words (to_bytes (a ∷ b ∷ []))) ≡ b * 2 ^ 16 + a)
      × (big_uint 8 (to_bytes (a ∷ b ∷ c ∷ d ∷ [])) ≡ ((a * 2 ^ 16 + b) * 2 ^ 16 + c) * 2 ^ 16 + d)
      × (big_uint 8 (swap_words (to_bytes (a ∷ b ∷ c ∷ d ∷ [])))
          ≡ ((d * 2 ^ 16 + c) * 2 ^ 16 + b) * 2 ^ 16 + a)
unfolding big_uint to_bytes swap_words swap_from byte_at
big_uint-words a b c d = (omega arith, omega arith, omega arith, omega arith, omega arith)
