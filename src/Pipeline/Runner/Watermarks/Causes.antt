-- ===== src/Pipeline/Runner/Watermarks/Causes.antt =====
-- Why a run leaves a watermark as it is.
use data_loader.Prelude.{
  ◌||◌, ℕ, String, ◌≡◌, ◌≢◌, refl, Bool, true, false, Option, none, arith, str_eq, eq_iff, Error,
  Bool-cases, inl, inr, ◌⊎◌,
}
use data_loader.Contracts.{Watermark, ReadResult, mode_delta, mode_append}
use data_loader.Metadata.{Load}
use data_loader.Pipeline.Ports.{FinishSucceeds, RunStore}
use data_loader.Pipeline.Runner.{force_append, advances}

-- Why the watermark of the load `j` has to stay as it is, in a run of `load` that returns `e`.
pub data Cause {R : Type 0} (store : RunStore R) (load : Load) (e : Option Error) (j : ℕ)
    : Type 0 where
  failed : FinishSucceeds store → e ≢ none → Cause store load e j
  not_delta : str_eq load.mode mode_delta ≡ false → Cause store load e j
  other : load.id ≢ j → Cause store load e j

pub advances-delta :
    (load : Load) (current : Watermark) (result : ReadResult)
    → advances load current result ≡ true
    → str_eq load.mode mode_delta ≡ true
unfolding advances
advances-delta load current result h = ground arith

append-not_delta : str_eq mode_append mode_delta ≡ false
append-not_delta = refl

str_eq-false : (s t : String) → s ≢ t → str_eq s t ≡ false
str_eq-false s t h = elim (Bool-cases (str_eq s t)) [
  | inl same ↦ absurd (h ((eq_iff s t).0 same))
  | inr differ ↦ differ
]

is_point_based : Load → Bool
is_point_based load = str_eq load.source.kind "modbus" || str_eq load.source.kind "opcua"

is_point_based_of_kind :
    (load : Load)
    → (load.source.kind ≡ "modbus") ⊎ (load.source.kind ≡ "opcua")
    → is_point_based load ≡ true
unfolding is_point_based
is_point_based_of_kind load (inl h) = rw ((eq_iff load.source.kind "modbus").1 h) refl
is_point_based_of_kind load (inr h) = ground (arith, (eq_iff load.source.kind "opcua").1 h)

force_append-point_based :
    (load : Load) → is_point_based load ≡ true → str_eq (force_append load).mode mode_delta ≡ false
unfolding is_point_based force_append
force_append-point_based load h = elim (Bool-cases (str_eq load.mode mode_append)) [
  | inl same ↦ rw (h, same, (eq_iff load.mode mode_append).0 same) append-not_delta
  | inr other_mode ↦ rw (h, other_mode) append-not_delta
]

pub force_append-not_delta :
    (load : Load)
    → (load.mode ≢ mode_delta) ⊎ (load.source.kind ≡ "modbus") ⊎ (load.source.kind ≡ "opcua")
    → str_eq (force_append load).mode mode_delta ≡ false
unfolding is_point_based force_append
force_append-not_delta load (inr h) = force_append-point_based load (is_point_based_of_kind load h)
force_append-not_delta load (inl h) = elim (Bool-cases (is_point_based load)) [
  | inl points ↦ force_append-point_based load points
  | inr others ↦ rw others (str_eq-false load.mode mode_delta h)
]
