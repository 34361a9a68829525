-- ===== src/Scheduler/Jobs.antt =====
-- Which jobs cron has after a `Reload`.
use mathlib.Core.Option
use data_loader.Prelude.{ℕ, ◌≡◌, String, if◌then◌else◌, Option, none, some, ◌==◌, ok}
use data_loader.Prelude.Dict
use data_loader.Prelude.Dict.{Dict}
use data_loader.Metadata.{Load}
use data_loader.Scheduler.{Cron, Scheduler, ScheduledLoad}

-- What the cron library documents: an entry is a job of a load under a new number until it is removed.
pub record CronLaws {C : Type 0} (cr : Cron C) : Type 0 where
  pub jobs : C → ℕ → Option ℕ
  pub add_fresh :
      (expr : String) (id n : ℕ) (c : C) → (cr.add_func expr id c).0 ≡ ok n → jobs c n ≡ none
  pub add_adds :
      (expr : String) (id n k : ℕ) (c : C)
      → (cr.add_func expr id c).0 ≡ ok n
      → jobs (cr.add_func expr id c).1 k ≡ (if n == k then some id else jobs c k)
  pub remove_removes :
      (n k : ℕ) (c : C) → jobs (cr.remove n c) k ≡ (if n == k then none else jobs c k)

-- The number of the entry under which a load is scheduled.
abbrev pub entry_at : Dict ScheduledLoad → ℕ → Option ℕ
entry_at m id = Option.map (λ (x : ScheduledLoad). x.entry_id) (Dict.lookup id m)

-- The entries of the loads and the jobs of cron are the same pairs.
abbrev pub InStep : (ℕ → Option ℕ) → (ℕ → Option ℕ) → Type 0
InStep entries jobs =
    (n id : ℕ) → (jobs n ≡ some id → entries id ≡ some n) × (entries id ≡ some n → jobs n ≡ some id)

abbrev without : ℕ → (ℕ → Option ℕ) → ℕ → Option ℕ
without k f x = if k == x then none else f x

abbrev with_at : ℕ → ℕ → (ℕ → Option ℕ) → ℕ → Option ℕ
with_at k v f x = if k == x then some v else f x

-- The entries that are left once those of `m` without a desired load are gone.
abbrev choose : Option ScheduledLoad → Option Load → Option ℕ → Option ℕ
choose none wanted entry = entry
choose (some x) none entry = none
choose (some x) (some ld) entry = entry

abbrev remains : Dict Load → Dict ScheduledLoad → (ℕ → Option ℕ) → ℕ → Option ℕ
remains desired m e id = choose (Dict.lookup id m) (Dict.lookup id desired) (e id)

-- The entries of a map are among those of `e`.
abbrev Within : Dict ScheduledLoad → (ℕ → Option ℕ) → Type 0
Within m e = (id n : ℕ) → entry_at m id ≡ some n → e id ≡ some n
