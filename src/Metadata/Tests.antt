-- ===== src/Metadata/Tests.antt =====
-- A metadata store in memory, and the repository over it.

use data_loader.Prelude.{
  ℕ, ◌≡◌, refl, sym, ap, ◌∙◌, either_by, ==_iff, Option, none, some, some_inj, List, [], ◌∷◌, map,
  count, ◌==◌, if◌then◌else◌, Error, ok, ok_inj,
}
use data_loader.Metadata.{Watermark, LoadRun}
use data_loader.Pipeline.Ports.{RunStoreLaws}
use data_loader.Metadata.Repository.{
  MetaDb, MetaDbLaws, repository, abort_running_runs, new_watermark,
}
use data_loader.Metadata.Repository.Marks.{repository-RunStoreLaws}

-- The rows of watermarks, the latest first, and the runs.
abbrev Tables : Type 0
Tables = List Watermark × List LoadRun

abbrev find_mark : List Watermark → ℕ → Option Watermark
find_mark [] id = none
find_mark (w ∷ ws) id = let rest = find_mark ws id in if w.load_id == id then some w else rest

find_mark-keyed :
    (ws : List Watermark) (id : ℕ) (w : Watermark) → find_mark ws id ≡ some w → w.load_id ≡ id
find_mark-keyed [] id w e = cc
find_mark-keyed (v ∷ ws) id w e =
    either_by (λ (o : Option Watermark). o ≡ some w → w.load_id ≡ id) (v.load_id == id) (some v)
      (find_mark ws id)
      (λ same found.
        sym (ap (λ (x : Watermark). x.load_id) (some_inj found)) ∙ (==_iff v.load_id id).0 same)
      (λ other found. find_mark-keyed ws id w found) e

abbrev close_tx : Option Error × Tables → Tables → Option Error × Tables
close_tx (none, after) before = (none, after)
close_tx (some e, after) before = (some e, before)

abbrev memory : MetaDb Tables
memory = record {
  now = λ d. 500;
  new_uuid = λ d. "r1";
  first_watermark = λ id d. (ok (find_mark d.0 id), d);
  create_watermark = λ w d. (none, (w ∷ d.0, d.1));
  save_watermark = λ w d. (none, (w ∷ d.0, d.1));
  update_watermarks =
      λ id f d. (none, (map (λ (w : Watermark). if w.load_id == id then f w else w) d.0, d.1));
  transaction = λ f d. close_tx (f d) d;
  create_run = λ run d. (ok run, (d.0, run ∷ d.1));
  save_run = λ run d. (none, d);
  update_runs =
      λ p f d. (ok (count p d.1), (d.0, map (λ (r : LoadRun). if p r then f r else r) d.1));
}

close_tx-ok :
    (o : Option Error × Tables) (d : Tables)
    → (close_tx o d).0 ≡ none
    → (o.0 ≡ none) × ((at : ℕ) → find_mark (close_tx o d).1.0 at ≡ find_mark o.1.0 at)
close_tx-ok (none, after) d e = (refl, λ at. refl)
close_tx-ok (some x, after) d e = cc

close_tx-failed :
    (o : Option Error × Tables) (d : Tables) (e : Error)
    → (close_tx o d).0 ≡ some e
    → (at : ℕ) → find_mark (close_tx o d).1.0 at ≡ find_mark d.0 at
close_tx-failed (none, after) d e h at = cc
close_tx-failed (some x, after) d e h at = refl

memory-MetaDbLaws : MetaDbLaws memory
memory-MetaDbLaws = record {
  mark = λ d. find_mark d.0;
  keyed = λ d id w e. find_mark-keyed d.0 id w e;
  first_reads = λ id d found e. ok_inj e;
  first_keeps = λ id d at. refl;
  create_puts = λ w d e at. refl;
  save_puts = λ w d e at. refl;
  commits = λ f d e. close_tx-ok (f d) d e;
  rolls_back = λ f d e h at. close_tx-failed (f d) d e h at;
  create_run_keeps = λ run d at. refl;
  save_run_keeps = λ run d at. refl;
}

abbrev orphan : LoadRun
orphan = record {
  id = 1;
  run_uuid = "r0";
  load_id = 7;
  status = "running";
  started_at = 100;
  finished_at = none;
  rows_read = 0;
  rows_written = 0;
  watermark_start = "17";
  watermark_end = "";
  error_message = "";
  duration_ms = 0;
}

abbrev tables : Tables
tables = (new_watermark 7 "17" 90 ∷ [], orphan ∷ record orphan { id = 0; status = "success" } ∷ [])

repository-RunStoreLaws_example : RunStoreLaws (repository memory)
repository-RunStoreLaws_example = repository-RunStoreLaws memory memory-MetaDbLaws

aborts_orphan : (abort_running_runs memory "restart" tables).0 ≡ ok 1
unfolding abort_running_runs
aborts_orphan = refl
