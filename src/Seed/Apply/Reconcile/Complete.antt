-- ===== src/Seed/Apply/Reconcile/Complete.antt =====
-- An application of a seed file leaves out no tag.
use data_loader.Prelude.{
  ℕ, suc, ◌≤◌, ◌≡◌, refl, sym, ap, ◌∙◌, String, str_eq, eq_iff, Bool, true, either_by, maybe_by,
  Option, none, some, List, [], ◌∷◌, length, if◌then◌else◌, Error, arith,
}
use data_loader.Seed.{LoadSpec, ModbusTagSpec, SeedFile}
use data_loader.Seed.Apply.{Report, SeedDb}
use data_loader.Seed.Apply.Reconcile.{
  tags_of, declared, undeclared_load, tag_references, check_references, or_else, apply_in, apply,
}
use data_loader.Seed.Apply.Reconcile.Counts.{total, apply_in-Adds}

-- One more tag is in the group of its load, and in no other.
length-tags_of :
    (name : String) (t : ModbusTagSpec) (ts : List ModbusTagSpec)
    → length (tags_of name (t ∷ ts))
      ≡ (if str_eq t.load name then suc (length (tags_of name ts)) else length (tags_of name ts))
unfolding tags_of
length-tags_of name t ts =
    either_by
      (λ (b : List ModbusTagSpec).
        length b
        ≡ (if str_eq t.load name then suc (length (tags_of name ts)) else length (tags_of name ts)))
      (str_eq t.load name) _ _ (λ e. rw (e) refl) (λ e. rw (e) refl)

tags_of-grows :
    (name : String) (t : ModbusTagSpec) (ts : List ModbusTagSpec)
    → length (tags_of name ts) ≤ length (tags_of name (t ∷ ts))
tags_of-grows name t ts =
    let n = length (tags_of name ts) in
    let m = length (tags_of name (t ∷ ts)) in
    either_by (λ (k : ℕ). m ≡ k → n ≤ m) (str_eq t.load name) (suc n) n (λ e q. omega (arith, q))
      (λ e q. omega (arith, q)) (length-tags_of name t ts)

total-grows :
    (t : ModbusTagSpec) (ts : List ModbusTagSpec) (ls : List LoadSpec)
    → total ts ls ≤ total (t ∷ ts) ls
unfolding total
total-grows t ts [] = omega arith
total-grows t ts (l ∷ ls) = omega (arith, tags_of-grows l.name t ts, total-grows t ts ls)

same_string : (a b : String) → str_eq a b ≡ true → str_eq b a ≡ true
same_string a b e = (eq_iff b a).1 (sym ((eq_iff a b).0 e))

total-declared :
    (t : ModbusTagSpec) (ts : List ModbusTagSpec) (ls : List LoadSpec)
    → declared t.load ls ≡ true
    → suc (total ts ls) ≤ total (t ∷ ts) ls
unfolding declared total
total-declared t ts [] h = cc
total-declared t ts (l ∷ ls) h =
    either_by (λ (b : Bool). b ≡ true → suc (total ts (l ∷ ls)) ≤ total (t ∷ ts) (l ∷ ls))
      (str_eq l.name t.load) true (declared t.load ls)
      (λ e q.
        let one : length (tags_of l.name (t ∷ ts)) ≡ suc (length (tags_of l.name ts)) =
          length-tags_of l.name t ts ∙ rw (same_string l.name t.load e) refl in
        omega (arith, one, total-grows t ts ls))
      (λ e q. omega (arith, tags_of-grows l.name t ts, total-declared t ts ls q)) h

all_declared :
    (context : String) (ts : List ModbusTagSpec) (ls : List LoadSpec)
    → undeclared_load context ls (tag_references ts) ≡ none
    → length ts ≤ total ts ls
unfolding undeclared_load
all_declared context [] ls h = omega arith
all_declared context (t ∷ ts) ls h =
    either_by (λ (o : Option Error). o ≡ none → length (t ∷ ts) ≤ total (t ∷ ts) ls)
      (declared t.load ls) (undeclared_load context ls (tag_references ts)) _
      (λ e q. omega (arith, all_declared context ts ls q, total-declared t ts ls e)) (λ e q. cc) h

or_else-none : (a b : Option Error) → or_else a b ≡ none → (a ≡ none) × (b ≡ none)
or_else-none none b e = (refl, e)
or_else-none (some x) b e = cc

-- The checks passed: every tag has a declared load.
check_references-declared :
    (f : SeedFile)
    → check_references f ≡ none
    → undeclared_load "modbus_tags reference undeclared load %q" f.loads
        (tag_references f.modbus_tags)
      ≡ none
unfolding check_references
check_references-declared f sound =
    (or_else-none _ _ (or_else-none _ _ (or_else-none _ _ sound).1).1).0

module _ {D : Type 0} (db : SeedDb D) where
  -- Where the transaction succeeds only with the outcome of the function that it is given, an
  -- application of a seed file that succeeds reports at least as many Modbus tags as the file lists,
  -- whatever the calls of the database return.
  pub apply_complete :
      (f : SeedFile) (d : D)
      → ((g : D → (Report × Option Error) × D) (e : D)
          → (db.transaction g e).0.1 ≡ none
          → (db.transaction g e).0 ≡ (g e).0)
      → (apply db f d).0.1 ≡ none
      → length f.modbus_tags ≤ (apply db f d).0.0.modbus_tags
  unfolding apply
  apply_complete f d commits =
      maybe_by
        (λ (o : (Report × Option Error) × D).
          o.0.1 ≡ none → length f.modbus_tags ≤ o.0.0.modbus_tags)
        (check_references f) _ _
        (λ sound done.
          let same = commits (apply_in db f) d done in
          let counted =
            all_declared "modbus_tags reference undeclared load %q" f.modbus_tags f.loads
              (check_references-declared f sound) in
          let added =
            apply_in-Adds db f d (sym (ap (λ (o : Report × Option Error). o.1) same) ∙ done) in
          omega (arith, counted, added, ap (λ (o : Report × Option Error). o.0.modbus_tags) same))
        (λ x unsound done. cc)
