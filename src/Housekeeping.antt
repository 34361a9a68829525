-- ===== src/Housekeeping.antt =====
-- internal/housekeeping/housekeeper.go and the pruning of internal/metadata/repository.go: retention
-- over two tables of the metadata store, in batches. The store and the context are parameters.
pub mod Prune
mod Tests
use data_loader.Prelude.{
  ℕ, zero, suc, ◌+◌, ◌-◌, ◌*◌, Bool, true, false, Option, none, some, ltb, if◌then◌else◌, Error,
  Result, ok, err,
}

pub data Table : Type 0 where
  log_entries : Table
  load_runs : Table

-- One `DELETE TOP (batch)` of the rows of a table that are older than the cutoff, for load runs those
-- that have ended, with the number of rows; `ctx.Err()`, and the pause between two batches, which
-- is nothing when the configured pause is 0.
pub record Pruner (D : Type 0) : Type 0 where
  -- the error of `r.db.DB()`
  pub handle_error : D → Option Error
  pub delete : Table → ℕ → ℕ → D → Result ℕ × D
  pub cancelled : D → Option Error
  pub pause : D → Option Error × D

abbrev pub batch_size_of : ℕ → ℕ
batch_size_of n = if ltb 0 n then n else 5000

-- The loop of `pruneInBatches` with the total so far; `none` if the fuel is used up.
unfoldable pub prune_loop :
    {D : Type 0} → Pruner D → ℕ → Table → ℕ → ℕ → ℕ → D → Option ((ℕ × Option Error) × D)
prune_loop pr zero t batch cutoff total d = none
prune_loop pr (suc fuel) t batch cutoff total d = elim (pr.cancelled d) [
  | some e ↦ some ((total, some e), d)
  | none ↦
      let (r, d1) = pr.delete t batch cutoff d in
      elim r [
        | err e ↦ some ((total, some e), d1)
        | ok n ↦
            let (p, d2) = pr.pause d1 in
            let rest = prune_loop pr fuel t batch cutoff (total + n) d2 in
            if ltb n batch
            then some ((total + n, none), d1)
            else elim p [ some e ↦ some ((total + n, some e), d2) | none ↦ rest ]
      ]
]

-- `pruneInBatches`.
unfoldable pub prune_in_batches :
    {D : Type 0} → Pruner D → ℕ → Table → ℕ → ℕ → D → Option ((ℕ × Option Error) × D)
unfolding prune_loop
prune_in_batches pr fuel t batch cutoff d = elim (pr.handle_error d) [
  | some e ↦ some ((0, some e), d)
  | none ↦ prune_loop pr fuel t (batch_size_of batch) cutoff 0 d
]
