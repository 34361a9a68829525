-- ===== src/Housekeeping/Tests.antt =====
-- Pruning a table of which only the number of old rows counts.
use data_loader.Prelude.{
  ℕ, ◌-◌, ◌<◌, ◌≡◌, refl, Option, none, some, arith, ltb, if◌then◌else◌, Error, ok,
}
use data_loader.Housekeeping.{log_entries, Pruner, prune_in_batches}
use data_loader.Housekeeping.Prune.{PrunerLaws, Pruned, prune_in_batches-Pruned}

abbrev deleted : ℕ → ℕ → ℕ
deleted batch old = if ltb old batch then old else batch

abbrev counter : Pruner ℕ
counter = record {
  handle_error = λ old. none;
  delete = λ t batch cutoff old. (ok (deleted batch old), old - deleted batch old);
  cancelled = λ old. none;
  pause = λ old. (none, old);
}

deleted_of : (batch old n : ℕ) → ok (deleted batch old) ≡ ok n → deleted batch old ≡ n
deleted_of batch old n e = cc

counter-PrunerLaws : PrunerLaws counter
counter-PrunerLaws = record {
  remaining = λ t cutoff old. old;
  delete_counts = λ t batch cutoff n old e. ground (arith, deleted_of batch old n e);
  delete_last = λ t batch cutoff n old e few. ground (arith, deleted_of batch old n e);
  pause_keeps = λ t cutoff old. refl;
}

twelve : counter-PrunerLaws.remaining log_entries 100 12 < 13
unfolding counter-PrunerLaws
twelve = omega arith

prune_in_batches-Pruned_example :
    (r : (ℕ × Option Error) × ℕ) × (prune_in_batches counter 13 log_entries 5 100 12 ≡ some r)
    × Pruned (counter-PrunerLaws.remaining log_entries 100) 0 12 r
prune_in_batches-Pruned_example =
    prune_in_batches-Pruned counter counter-PrunerLaws 13 log_entries 5 100 12 twelve
