-- ===== src/Modbus/Poll/Cycle.antt =====
-- What one polling cycle delivers.
use data_loader.Prelude.{suc, ℕ, ◌≡◌, true, Option, List, [], ◌∷◌, Error, ◌⊎◌}
use data_loader.Modbus.{ModbusPoint, Floats, Client}
use data_loader.Modbus.Poll.{Reading}

-- One row for each tag, in the order of the tags, with its name. The number says how many tags were
-- read; a tag that is not among them has a row that is marked bad.
abbrev pub Polled : List ModbusPoint → List Reading → ℕ → Type 0
Polled [] [] n = n ≡ 0
Polled [] (r ∷ rs) n = ⊥
Polled (t ∷ ts) [] n = ⊥
Polled (t ∷ ts) (r ∷ rs) n =
    (r.tag_name ≡ t.tag_name)
    × (((m : ℕ) × (n ≡ suc m) × Polled ts rs m) ⊎ ((r.bad ≡ true) × Polled ts rs n))

module _ {C : Type 0} (fl : Floats) (cl : Client C) where
  -- Reading a tag does not touch the tag's name in its row.
  abbrev Keeps : Reading → Option Error × (Reading × C) → Type 0
  Keeps row o = o.1.0.tag_name ≡ row.tag_name
