-- ===== src/RunState/Tests.antt =====
-- A registry of two loads, one of which runs.
use mathlib.Core.List.{Perm}
use mathlib.Core.List.Perm
use data_loader.Prelude.{ℕ, ◌≡◌, ◌≢◌, refl, true, false, some, [], ◌∷◌, arith}
use data_loader.Prelude.Dict
use data_loader.RunState.{LoadState, Registry, register, mark_running, mark_finished, snapshot}
use data_loader.RunState.History.{
  find, IsValid, IsRefresh, register-history, mark_finished-mark_running, writers-IsValid,
}
use data_loader.RunState.Snapshot.{Ascending, snapshot-Ascending, snapshot-canonical}

abbrev orders : LoadState
orders = record {
  load_id = 7;
  load_name = "orders";
  source_name = "erp";
  source_kind = "postgres";
  cron_expression = "@daily";
  last_run_uuid = "r1";
  last_started_at = 100;
  last_finished_at = 0;
  last_status = "running";
  last_rows_read = 0;
  last_rows_written = 0;
  last_error = "";
  currently_running = true;
}

abbrev tags : LoadState
tags = record orders {
  load_id = 3;
  load_name = "tags";
  source_kind = "modbus";
  currently_running = false;
}

abbrev renamed : LoadState
renamed = record orders { load_name = "all orders"; last_status = ""; currently_running = false }

abbrev registry : Registry
registry = record { loads = (7, orders) ∷ (3, tags) ∷ []; started_at = 50 }

abbrev turned : Registry
turned = record { loads = (3, tags) ∷ (7, orders) ∷ []; started_at = 50 }

find-orders : find 7 registry ≡ some orders
unfolding Dict.lookup
find-orders = refl

registry-IsValid : IsValid registry
unfolding Dict.lookup
registry-IsValid = record { is_map = (refl, (refl, tt)); filed = λ id s e. ground arith }

register-history_example :
    ((t : LoadState) × (find 7 (register renamed registry) ≡ some t) × IsRefresh renamed orders t)
    × (◌≢◌ {A = ℕ} 7 3 → find 3 (register renamed registry) ≡ find 3 registry)
register-history_example = register-history renamed orders registry 3 find-orders

writers-IsValid_example :
    IsValid (register renamed registry)
    × IsValid (mark_running 3 "r2" 110 registry)
    × IsValid (mark_finished 3 "success" 120 5 5 "" registry)
writers-IsValid_example =
    writers-IsValid renamed 3 "r2" "success" "" 110 120 5 5 registry registry-IsValid

mark_finished-mark_running_example :
    (find 7 (mark_finished 7 "failed" 130 4 2 "timeout" (mark_running 7 "r3" 120 registry))
      ≡ some (record orders {
        last_run_uuid = "r3";
        last_started_at = 120;
        last_finished_at = 130;
        last_status = "failed";
        last_rows_read = 4;
        last_rows_written = 2;
        last_error = "timeout";
        currently_running = false;
      }))
    × (◌≢◌ {A = ℕ} 7 3
        → find 3 (mark_finished 7 "failed" 130 4 2 "timeout" (mark_running 7 "r3" 120 registry))
          ≡ find 3 registry)
mark_finished-mark_running_example =
    mark_finished-mark_running 7 "r3" "failed" "timeout" 120 130 4 2 3 orders registry find-orders

snapshot-Ascending_example :
    Ascending (snapshot registry) × Perm (Dict.values registry.loads) (snapshot registry)
snapshot-Ascending_example = snapshot-Ascending registry registry-IsValid

turned-Perm : Perm (Dict.values registry.loads) (Dict.values turned.loads)
turned-Perm = Perm.swap tags orders []

snapshot-canonical_example : snapshot registry ≡ snapshot turned
snapshot-canonical_example = snapshot-canonical registry turned registry-IsValid turned-Perm
