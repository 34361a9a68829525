-- ===== src/Housekeeping/Prune.antt =====
-- The pruning loop ends, and what it has done when it ends.
use data_loader.Prelude.{
  ℕ, zero, suc, ◌+◌, ◌<◌, ◌≡◌, refl, Option, none, some, arith, ltb, Error, Result, ok, ltb→lt,
  Option-cases, Result-cases, Bool-cases, inl, inr,
}
use data_loader.Housekeeping.{Table, Pruner, batch_size_of, prune_loop, prune_in_batches}

-- A delete takes as many old rows as it says, and fewer than a batch only if it leaves none; no old
-- row appears while the loop pauses.
pub record PrunerLaws {D : Type 0} (pr : Pruner D) : Type 0 where
  pub remaining : Table → ℕ → D → ℕ
  pub delete_counts :
      (t : Table) (batch cutoff n : ℕ) (d : D)
      → (pr.delete t batch cutoff d).0 ≡ ok n
      → remaining t cutoff (pr.delete t batch cutoff d).1 + n ≡ remaining t cutoff d
  pub delete_last :
      (t : Table) (batch cutoff n : ℕ) (d : D)
      → (pr.delete t batch cutoff d).0 ≡ ok n
      → n < batch
      → remaining t cutoff (pr.delete t batch cutoff d).1 ≡ 0
  pub pause_keeps :
      (t : Table) (cutoff : ℕ) (d : D) → remaining t cutoff (pr.pause d).1 ≡ remaining t cutoff d

-- What the loop has done when it returns, from `total` deleted rows on.
abbrev pub Pruned : {D : Type 0} → (D → ℕ) → ℕ → D → (ℕ × Option Error) × D → Type 0
Pruned remaining total d ((n, e), d') = e ≡ none → (remaining d' ≡ 0) × (n ≡ total + remaining d)

module _ {D : Type 0} (pr : Pruner D) (laws : PrunerLaws pr) (t : Table) (batch cutoff : ℕ) where
  abbrev left : D → ℕ
  left = laws.remaining t cutoff

  loop-Pruned :
      (fuel total : ℕ) (d : D)
      → 0 < batch
      → left d < fuel
      → (r : (ℕ × Option Error) × D) × (prune_loop pr fuel t batch cutoff total d ≡ some r)
        × Pruned left total d r
  unfolding prune_loop
  loop-Pruned zero total d some_batch enough = absurd (omega arith)
  loop-Pruned (suc fuel) total d some_batch enough = elim (Option-cases (pr.cancelled d)) [
    | inr (e, stop) ↦ (((total, some e), d), rw (prune_loop, stop) refl, λ q. cc)
    | inl go ↦ elim (Result-cases deleted.0) [
      | inr (e, bad) ↦ (((total, some e), deleted.1), rw (prune_loop, go, bad) refl, λ q. cc)
      | inl (n, fine) ↦ elim (Bool-cases (ltb n batch)) [
        | inl last ↦ (
          ((total + n, none), deleted.1),
          rw (prune_loop, go, fine, last) refl,
          λ _. (
            laws.delete_last t batch cutoff n d fine (ltb→lt n batch last),
            omega (
              arith,
              counts n fine,
              laws.delete_last t batch cutoff n d fine (ltb→lt n batch last),
            ),
          ),
        )
        | inr more ↦ elim (Option-cases paused.0) [
          | inr (e, stop) ↦
              (((total + n, some e), paused.1), rw (prune_loop, go, fine, more, stop) refl, λ q. cc)
          | inl on ↦
              let (r, same, pruned) =
                loop-Pruned fuel (total + n) paused.1 some_batch
                  (ground (arith, counts n fine, laws.pause_keeps t cutoff deleted.1)) in
              (
                r,
                rw (prune_loop, go, fine, more, on) same,
                λ q.
                    let (empty, sum) = pruned q in
                    (empty, omega (arith, sum, counts n fine, laws.pause_keeps t cutoff deleted.1)),
              )
        ]
      ]
    ]
  ]
    where
      deleted : Result ℕ × D
      deleted = pr.delete t batch cutoff d

      paused : Option Error × D
      paused = pr.pause deleted.1

      counts : (n : ℕ) → deleted.0 ≡ ok n → left deleted.1 + n ≡ left d
      counts n fine = laws.delete_counts t batch cutoff n d fine

-- With more fuel than there are old rows, the pruning of a table ends. When it ends without an error,
-- no old row is left and the number it returns is the number of old rows that there were.
pub prune_in_batches-Pruned :
    {D : Type 0} (pr : Pruner D) (laws : PrunerLaws pr) (fuel : ℕ) (t : Table) (batch cutoff : ℕ)
    (d : D)
    → laws.remaining t cutoff d < fuel
    → (r : (ℕ × Option Error) × D) × (prune_in_batches pr fuel t batch cutoff d ≡ some r)
      × Pruned (laws.remaining t cutoff) 0 d r
unfolding prune_in_batches
prune_in_batches-Pruned pr laws fuel t batch cutoff d enough =
    elim (Option-cases (pr.handle_error d)) [
      | inr (e, bad) ↦ (((0, some e), d), rw (prune_in_batches, bad) refl, λ q. cc)
      | inl fine ↦
          let (r, same, pruned) =
            loop-Pruned pr laws t (batch_size_of batch) cutoff fuel 0 d (ground arith) enough in
          (r, rw (prune_in_batches, fine) same, pruned)
    ]
