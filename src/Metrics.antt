-- ===== src/Metrics.antt =====
-- internal/metrics/metrics.go: what the program reports to its Prometheus collectors, as the
-- sequence of samples. The collectors themselves and the duration histogram's clock are the
-- library's.
use data_loader.Prelude.{
  ℕ, ◌-◌, String, Bool, true, false, Option, none, some, List, [], ◌∷◌, ◌++◌, str_eq, ltb,
  if◌then◌else◌,
}

pub data Sample : Type 0 where
  runs_total : String → String → Sample
  run_duration : String → Sample
  rows_read_total : String → ℕ → Sample
  rows_written_total : String → String → ℕ → Sample
  last_success : String → Sample
  overlap_skips : String → Sample
  bad_quality : String → ℕ → Sample
  watermark_lag : String → ℕ → Sample

abbrev pub load_label : String → String
load_label name = if str_eq name "" then "unknown" else name

abbrev when : Bool → Sample → List Sample
when true s = s ∷ []
when false s = []

-- `ObserveRun`.
unfoldable pub observe_run : String → String → String → ℕ → ℕ → List Sample
observe_run name status target read written =
    runs_total (load_label name) status
    ∷ run_duration (load_label name)
    ∷ (when (ltb 0 read) (rows_read_total (load_label name) read)
        ++ (when (ltb 0 written) (rows_written_total (load_label name) target written)
            ++ when (str_eq status "success") (last_success (load_label name))))

-- `ObserveOverlapSkip`.
unfoldable pub observe_overlap_skip : String → List Sample
observe_overlap_skip name = overlap_skips (load_label name) ∷ []

-- `ObserveBadQuality`.
unfoldable pub observe_bad_quality : String → ℕ → List Sample
observe_bad_quality name n = when (ltb 0 n) (bad_quality (load_label name) n)

-- `ObserveWatermarkLag`: `parse` is `time.Parse` with RFC 3339, and `-` stops at 0 as the code does.
unfoldable pub observe_watermark_lag : (String → Option ℕ) → String → String → ℕ → List Sample
observe_watermark_lag parse name value now =
    if str_eq value "" then watermark_lag (load_label name) 0 ∷ [] else elim (parse value) [
      | none ↦ watermark_lag (load_label name) 0 ∷ []
      | some ts ↦ watermark_lag (load_label name) (now - ts) ∷ []
    ]
