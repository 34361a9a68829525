-- ===== src/Prelude/Errors.antt =====
-- Go errors and Go strings. A function that returns `error` gives `Option Error` (`none` is nil),
-- and one that returns a value and an error gives `Result`.
use Prim.Native.Nat.{ℕ}
use Prim.Native.String.{String}
use mathlib.Core.Path.{◌≡◌, refl}
use mathlib.Core.Logic.{◌⊎◌, inl, inr}
use mathlib.Core.List.{List, []}

-- A string whose characters the program looks at: its code points. A byte `b` that is no part of
-- valid UTF-8 stands as the number 0x110000 + b.
abbrev pub Text : Type 0
Text = List ℕ

-- An argument of `fmt.Errorf`.
pub data Arg : Type 0 where
  str : String → Arg
  txt : Text → Arg
  num : ℕ → Arg

-- `fmt.Errorf("format", args)` is `format "format" args`, and `fmt.Errorf("context: %w", err)` is
-- `wrap "context" err`; with more arguments it is `wrap_format`.
pub data Error : Type 0 where
  format : String → List Arg → Error
  wrap : String → Error → Error
  wrap_format : String → List Arg → Error → Error

abbrev pub plain : String → Error
plain s = format s []

pub data Result {ℓ} (A : Type ℓ) : Type ℓ where
  ok : A → Result A
  err : Error → Result A

infixl 5 ◌>>=◌
abbrev pub ◌>>=◌ {ℓ κ} : {A : Type ℓ} {B : Type κ} → Result A → (A → Result B) → Result B
ok a >>= f = f a
err e >>= f = err e

pub Result-cases {ℓ} :
    {A : Type ℓ} (r : Result A) → ((a : A) × (r ≡ ok a)) ⊎ ((e : Error) × (r ≡ err e))
Result-cases (ok a) = inl (a, refl)
Result-cases (err e) = inr (e, refl)

pub ok_inj {ℓ} : {A : Type ℓ} {x y : A} → ok x ≡ ok y → x ≡ y
ok_inj e = cc

pub bind_ok {ℓ κ} :
    {A : Type ℓ} {B : Type κ} (r : Result A) (f : A → Result B) (b : B)
    → (r >>= f) ≡ ok b
    → (a : A) × (r ≡ ok a) × (f a ≡ ok b)
bind_ok (ok a) f b e = (a, refl, e)
bind_ok (err x) f b e = cc

-- What holds of both cases of a result, where a case may use the result.
pub result_by {ℓ κ μ} :
    {A : Type ℓ} {B : Type κ} (P : B → Type μ) (r : Result A) (g : Error → B) (f : A → B)
    → ((e : Error) → P (g e))
    → ((a : A) → r ≡ ok a → P (f a))
    → P (elim r [ err e ↦ g e | ok a ↦ f a ])
result_by P (ok a) g f p q = q a refl
result_by P (err e) g f p q = p e
