-- ===== src/Scheduler/Tests.antt =====
-- The scheduler at work, on a cron library that accepts everything and numbers its entries.
use data_loader.Prelude.{
  ℕ, zero, suc, ◌≤◌, ◌≡◌, ◌==◌, refl, true, Option, none, some, List, [], ◌∷◌, ◌++◌, length,
  if◌then◌else◌, lit, ok, ok_inj, arith, subst,
}
use data_loader.Prelude.Dict
use data_loader.Metadata.{Load}
use data_loader.Scheduler.{Cron, Scheduler, execute, is_running, trigger_begin}
use data_loader.Scheduler.Overlap.{Reaches, here, next, start, runs_of, Reaches-IsExclusive}
use data_loader.Scheduler.Jobs.{CronLaws}

-- The jobs of a cron under the numbers of their entries, which are not used again.
abbrev Slots : Type 0
Slots = List (Option ℕ)

slot : ℕ → Slots → Option ℕ
slot k [] = none
slot zero (job ∷ c) = job
slot (suc k) (job ∷ c) = slot k c

abbrev clear : ℕ → Slots → Slots
clear k [] = []
clear zero (job ∷ c) = none ∷ c
clear (suc k) (job ∷ c) = job ∷ clear k c

abbrev numbered_cron : Cron Slots
numbered_cron = record {
  add_func = λ expr id c. (ok (length c), c ++ (some id ∷ []));
  remove = clear;
}

slot-fresh : (c : Slots) → slot (length c) c ≡ none
unfolding slot
slot-fresh [] = refl
slot-fresh (job ∷ c) = slot-fresh c

slot-added :
    (id k : ℕ) (c : Slots)
    → slot k (c ++ (some id ∷ [])) ≡ (if length c == k then some id else slot k c)
unfolding slot
slot-added id zero [] = refl
slot-added id (suc k) [] = ground arith
slot-added id zero (job ∷ c) = ground arith
slot-added id (suc k) (job ∷ c) = ground (arith, slot-added id k c)

slot-clear : (n k : ℕ) (c : Slots) → slot k (clear n c) ≡ (if n == k then none else slot k c)
unfolding slot
slot-clear n k [] = ground arith
slot-clear zero zero (job ∷ c) = refl
slot-clear zero (suc k) (job ∷ c) = ground arith
slot-clear (suc n) zero (job ∷ c) = ground arith
slot-clear (suc n) (suc k) (job ∷ c) = ground (arith, slot-clear n k c)

abbrev numbered_cron-CronLaws : CronLaws numbered_cron
numbered_cron-CronLaws = record {
  jobs = λ c n. slot n c;
  add_fresh = λ expr id n c e. subst (λ k. slot k c ≡ none) (ok_inj e) (slot-fresh c);
  add_adds = λ expr id n k c e.
      subst (λ m. slot k (c ++ (some id ∷ [])) ≡ (if m == k then some id else slot k c)) (ok_inj e)
        (slot-added id k c);
  remove_removes = λ n k c. slot-clear n k c;
}

abbrev orders_load : Load
orders_load = record {
  id = 7;
  source_id = 1;
  source = record { id = 1; name = "erp"; kind = "postgres"; params_json = []; is_enabled = true };
  name = "orders";
  object_name = lit "orders";
  target_schema = lit "dbo";
  target_table = lit "orders";
  mode = "delta";
  watermark_column = lit "id";
  watermark_type = "numeric";
  batch_size = 1000;
  auto_create_table = true;
  cron_expression = "* * * * *";
  is_enabled = true;
}

-- Load 7 is on cron under another expression, and load 9 is no longer wanted.
abbrev scheduler : Scheduler Slots ℕ
scheduler = record {
  cron = some 9 ∷ some 7 ∷ [];
  repo = 0;
  state = record { loads = []; started_at = 0 };
  scheduled =
      (9, record { load = record orders_load { id = 9 }; entry_id = 0 })
      ∷ (7, record { load = record orders_load { cron_expression = "@daily" }; entry_id = 1 })
      ∷ [];
  running = [];
  fingerprint = "old";
  samples = [];
}

begins : (trigger_begin 7 scheduler).0 ≡ execute (record orders_load { cron_expression = "@daily" })
unfolding trigger_begin Dict.lookup
begins = refl

one_run : Reaches numbered_cron (scheduler, []) ((trigger_begin 7 scheduler).1, 7 ∷ [])
one_run = next here (start 7 (record orders_load { cron_expression = "@daily" }) begins)

Reaches-IsExclusive_example :
    (runs_of 7 (7 ∷ []) ≤ 1)
    × ((runs_of 7 (7 ∷ []) ≡ 1 → is_running 7 (trigger_begin 7 scheduler).1.running ≡ true)
        × (is_running 7 (trigger_begin 7 scheduler).1.running ≡ true → runs_of 7 (7 ∷ []) ≡ 1))
Reaches-IsExclusive_example =
    Reaches-IsExclusive numbered_cron scheduler (trigger_begin 7 scheduler).1 (7 ∷ []) 7 refl
      one_run
