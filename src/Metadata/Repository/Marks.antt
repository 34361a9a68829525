-- ===== src/Metadata/Repository/Marks.antt =====
-- The repository keeps the promises of a run store about watermarks, over a database that keeps its own.
use mathlib.Core.Option
use data_loader.Prelude.{
  ℕ, ◌≡◌, ◌≢◌, refl, sym, ap, ◌∙◌, String, Bool, true, false, Bool-cases, Option, none, some,
  Option-cases, inl, inr, ◌==◌, ==_refl, ==_iff, if◌then◌else◌, Error, Result-cases,
}
use data_loader.Metadata.{Watermark}
use data_loader.Pipeline.Ports.{RunStoreLaws}
use data_loader.Metadata.Repository.{
  MetaDb, MetaDbLaws, get_watermark, upsert_watermark, upsert_in, start_run, finish_run, repository,
  new_watermark, next_watermark,
}

abbrev value_of : Option Watermark → Option String
value_of w = Option.map (λ (x : Watermark). x.value) w

value_of-pick :
    (b : Bool) (w : Watermark) (v : String) (old : Option Watermark)
    → w.value ≡ v
    → value_of (if b then some w else old) ≡ (if b then some v else value_of old)
value_of-pick true w v old e = ap (λ (x : String). some x) e
value_of-pick false w v old e = refl

same_key : {A : Type 0} (k : ℕ) (x y : A) → (if k == k then x else y) ≡ x
same_key k x y = rw (==_refl k) refl

other_key : {A : Type 0} (k j : ℕ) (x y : A) → k ≢ j → (if k == j then x else y) ≡ y
other_key k j x y ne = elim (Bool-cases (k == j)) [
  | inl e ↦ absurd (ne ((==_iff k j).0 e))
  | inr e ↦ rw (e) refl
]

module _ {D : Type 0} (db : MetaDb D) (laws : MetaDbLaws db) where
  -- What an upsert leaves of a load's row, and of the others.
  abbrev Upserts : ℕ → String → D → Option Error × D → Type 0
  Upserts id v d o =
      o.0 ≡ none
      → (at : ℕ)
      → value_of (laws.mark o.1 at) ≡ (if id == at then some v else value_of (laws.mark d at))

  written :
      (id : ℕ) (v : String) (w : Watermark) (d : D) (o : Option Error × D) (d₁ : D)
      → w.load_id ≡ id
      → w.value ≡ v
      → ((at : ℕ) → laws.mark d₁ at ≡ laws.mark d at)
      → (o.0 ≡ none
          → (at : ℕ) → laws.mark o.1 at ≡ (if w.load_id == at then some w else laws.mark d₁ at))
      → Upserts id v d o
  written id v w d o d₁ key value same puts h at =
      ap value_of (puts h at)
      ∙ value_of-pick (w.load_id == at) w v (laws.mark d₁ at) value
      ∙ ap (λ (k : ℕ). if k == at then some v else value_of (laws.mark d₁ at)) key
      ∙ ap (λ (m : Option Watermark). if id == at then some v else value_of m) (same at)

  upsert_in-Upserts : (id : ℕ) (v : String) (d : D) → Upserts id v d (upsert_in db id v d)
  unfolding upsert_in
  upsert_in-Upserts id v d = elim (Result-cases (db.first_watermark id d).0) [
    | inr (e, h) ↦ rw (upsert_in, h) (λ c at. cc)
    | inl (found, h) ↦ elim (Option-cases found) [
      | inl n ↦
          rw (upsert_in, h, n)
            (written id v (new_watermark id v (db.now d₁)) d _ d₁ refl refl same
              (laws.create_puts _ d₁))
      | inr (w, f) ↦
          rw (upsert_in, h, f)
            (written id v (next_watermark v (db.now d₁) w) d _ d₁
              (laws.keyed d id w (laws.first_reads id d found h ∙ f)) refl same
              (laws.save_puts _ d₁))
    ]
  ]
    where
      d₁ : D
      d₁ = (db.first_watermark id d).1

      same : (at : ℕ) → laws.mark (db.first_watermark id d).1 at ≡ laws.mark d at
      same = laws.first_keeps id d

  upsert_watermark-Upserts :
      (id : ℕ) (v : String) (d : D) → Upserts id v d (upsert_watermark db id v d)
  unfolding upsert_watermark
  upsert_watermark-Upserts id v d h at =
      let (ran, kept) = laws.commits (upsert_in db id v) d h in
      ap value_of (kept at) ∙ upsert_in-Upserts id v d ran at

  -- Over a database that keeps its promises, the repository is a store that keeps those of a run store.
  pub repository-RunStoreLaws : RunStoreLaws (repository db)
  unfolding get_watermark start_run finish_run upsert_watermark
  repository-RunStoreLaws = record {
    watermark_of = λ id d. value_of (laws.mark d id);
    get_reads = λ id d w h. ap value_of (sym (laws.first_reads id d w h));
    get_keeps = λ id j d. ap value_of (laws.first_keeps id d j);
    start_keeps = λ id j s d. ap value_of (laws.create_run_keeps _ d j);
    finish_keeps =
        λ run status read written end message j d. ap value_of (laws.save_run_keeps _ d j);
    upsert_sets = λ id v d h. upsert_watermark-Upserts id v d h id ∙ same_key id _ _;
    upsert_keeps = λ id j v d ne. elim (Option-cases (upsert_watermark db id v d).0) [
      | inl h ↦ upsert_watermark-Upserts id v d h j ∙ other_key id j _ _ ne
      | inr (e, h) ↦ ap value_of (laws.rolls_back _ d e h j)
    ];
    upsert_fails = λ id j v e d h. ap value_of (laws.rolls_back _ d e h j);
  }
