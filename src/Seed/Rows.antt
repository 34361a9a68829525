-- ===== src/Seed/Rows.antt =====
-- The tags that a seed file stands for, as the poll of a Modbus source sees them.
use data_loader.Prelude.{
  ℕ, ◌<◌, ◌==◌, ==_iff, subst, ltb→lt, lt→ltb, ◌≡◌, refl, sym, ap, ◌∙◌, Bool, true, false, ◌||◌,
  ◌&&◌, either, either_by, List, [], ◌∷◌, ltb, if◌then◌else◌, Text, same_text, lit, to_lower,
  Result, ok, ok_inj, bind_ok, ◌>>=◌, arith,
}
use data_loader.Metadata.Telemetry.{ModbusTag, point_of}
use data_loader.Modbus.{quantity_for}
use data_loader.Seed.{is_empty, ModbusTagSpec, default_quantity, modbus_row, modbus_rows}

and_split : (a b : Bool) → (a && b) ≡ true → (a ≡ true) × (b ≡ true)
and_split true b e = (refl, e)
and_split false b e = cc

same_text-eq : (s t : Text) → same_text s t ≡ true → s ≡ t
unfolding same_text
same_text-eq [] [] e = refl
same_text-eq [] (d ∷ t) e = cc
same_text-eq (c ∷ s) [] e = cc
same_text-eq (c ∷ s) (d ∷ t) e =
    let (first, rest) = and_split (c == d) (same_text s t) e in
    ap (λ (x : ℕ). x ∷ s) ((==_iff c d).0 first) ∙ ap (λ (u : Text). d ∷ u) (same_text-eq s t rest)

drop_test :
    (a b : Bool) (x : ℕ) → (b ≡ true → x ≡ 1) → (if a || b then 1 else x) ≡ (if a then 1 else x)
drop_test true b x h = refl
drop_test false true x h = sym (h refl)
drop_test false false x h = refl

-- The quantity of a type that has no quantity of its own, without a case for `bool`.
abbrev quantity_of : Text → ℕ
unfolding same_text
quantity_of d =
    if same_text d (lit "int32") || same_text d (lit "uint32") || same_text d (lit "float32")
    then 2
    else if same_text d (lit "int64") || same_text d (lit "uint64") || same_text d (lit "float64")
    then 4
    else 1

bool-quantity_of : (d : Text) → same_text d (lit "bool") ≡ true → quantity_of d ≡ 1
unfolding same_text quantity_of
bool-quantity_of d e =
    subst (λ (t : Text). quantity_of t ≡ 1) (sym (same_text-eq d (lit "bool") e)) refl

-- The quantity that a seed stores is the one that a poll would choose for the tag.
default_quantity-quantity_for :
    (t : ModbusTagSpec) → default_quantity t ≡ quantity_for t.data_type t.quantity
unfolding default_quantity quantity_for quantity_of
default_quantity-quantity_for t =
    let d = to_lower t.data_type in
    ap (λ (n : ℕ). if ltb 0 t.quantity then t.quantity else n)
      (drop_test (same_text d (lit "int16") || same_text d (lit "uint16"))
        (same_text d (lit "bool")) (quantity_of d) (bool-quantity_of d))

default_quantity-positive : (t : ModbusTagSpec) → 0 < default_quantity t
unfolding default_quantity
default_quantity-positive t =
    let d = to_lower t.data_type in
    either_by (λ (n : ℕ). 0 < n) (ltb 0 t.quantity) _ _ (λ e. ltb→lt 0 t.quantity e)
      (λ e.
        either (λ (n : ℕ). 0 < n)
          (same_text d (lit "int16") || same_text d (lit "uint16") || same_text d (lit "bool")) _ _
          (omega arith)
          (either (λ (n : ℕ). 0 < n)
            (same_text d (lit "int32") || same_text d (lit "uint32") || same_text d (lit "float32"))
            _ _ (omega arith)
            (either (λ (n : ℕ). 0 < n)
              (same_text d (lit "int64")
                || same_text d (lit "uint64")
                || same_text d (lit "float64"))
              _ _ (omega arith) (omega arith))))

-- A row that a poll reads as its entry of the seed file says.
abbrev pub IsSeeded : ℕ → ModbusTagSpec → ModbusTag → Type 0
IsSeeded load_id t row =
    ((row.load_id ≡ load_id) × (row.tag_name ≡ t.tag_name))
    × ((quantity_for row.data_type row.quantity ≡ quantity_for t.data_type t.quantity)
        × (point_of row).quantity ≡ quantity_for t.data_type t.quantity)

-- The rows of a load are as many as its entries, in their order.
abbrev pub AreSeeded : ℕ → List ModbusTagSpec → List ModbusTag → Type 0
AreSeeded load_id [] [] = Unit
AreSeeded load_id [] (r ∷ rows) = ⊥
AreSeeded load_id (t ∷ ts) [] = ⊥
AreSeeded load_id (t ∷ ts) (r ∷ rows) = IsSeeded load_id t r × AreSeeded load_id ts rows

quantity_for-set : (data_type : Text) (q : ℕ) → 0 < q → quantity_for data_type q ≡ q
unfolding quantity_for
quantity_for-set data_type q lo =
    either_by (λ (n : ℕ). n ≡ q) (ltb 0 q) q _ (λ e. refl) (λ e. absurd (no e (lt→ltb 0 q lo)))
  where
    no : ltb 0 q ≡ false → ltb 0 q ≡ true → ⊥
    no f t = let h : false ≡ true = sym f ∙ t in cc

abbrev Yields : ℕ → ModbusTagSpec → Result ModbusTag → Type 0
Yields load_id t r = (row : ModbusTag) → r ≡ ok row → IsSeeded load_id t row

modbus_row-IsSeeded : (load_id : ℕ) (t : ModbusTagSpec) → Yields load_id t (modbus_row load_id t)
unfolding modbus_row
modbus_row-IsSeeded load_id t =
    either (Yields load_id t) (is_empty t.tag_name) _ _ (λ row e. cc)
      (either (Yields load_id t) (is_empty t.register_type) _ _ (λ row e. cc)
        (either (Yields load_id t) (is_empty t.data_type) _ _ (λ row e. cc)
          (λ row e. subst (IsSeeded load_id t) (ok_inj e) (
            (refl, refl),
            (
              quantity_for-set t.data_type (default_quantity t) (default_quantity-positive t)
                  ∙ default_quantity-quantity_for t,
              default_quantity-quantity_for t,
            ),
          ))))

-- If the tags of a load in a seed file make rows, then they make one row each, in their order, under the
-- load's key, and a poll of the stored row asks for as many registers as the entry of the file means.
pub modbus_rows-AreSeeded :
    (load_id : ℕ) (ts : List ModbusTagSpec) (rows : List ModbusTag)
    → modbus_rows load_id ts ≡ ok rows
    → AreSeeded load_id ts rows
unfolding modbus_rows
modbus_rows-AreSeeded load_id [] rows e = subst (AreSeeded load_id []) (ok_inj e) tt
modbus_rows-AreSeeded load_id (t ∷ ts) rows e =
    let (row, first, tail) =
      bind_ok (modbus_row load_id t) (λ r. modbus_rows load_id ts >>= (λ rs. ok (r ∷ rs))) rows e in
    let (more, rest, all) = bind_ok (modbus_rows load_id ts) (λ rs. ok (row ∷ rs)) rows tail in
    subst (AreSeeded load_id (t ∷ ts)) (ok_inj all)
      (modbus_row-IsSeeded load_id t row first, modbus_rows-AreSeeded load_id ts more rest)
