-- ===== src/Scheduler/Reload.antt =====
-- What `Reload` leaves scheduled.
use mathlib.Core.Option
use data_loader.Prelude.{
  either, ℕ, ◌≡◌, ◌≢◌, refl, sym, ap, ◌∙◌, String, false, Option, none, some, List, [], ◌∷◌, ◌==◌,
  ==_refl, ==_iff, str_eq, Error, err, Option-cases, Result-cases, Bool-cases, subst, inl, inr,
}
use data_loader.Prelude.Dict
use data_loader.Prelude.Dict.{Dict, IsMap, Lacks, lookup-insert, insert-IsMap}
use data_loader.Metadata.{Load}
use data_loader.Scheduler.{
  Cron, Scheduler, ScheduledLoad, by_id, add_desired, drop_stale, sync_load, sync_loads,
  synchronise,
}

-- The load that is scheduled under an id.
abbrev pub scheduled_load : ℕ → Dict ScheduledLoad → Option Load
scheduled_load id m = Option.map (λ (x : ScheduledLoad). x.load) (Dict.lookup id m)

-- The cron library accepts the expression of a load.
abbrev pub Accepts : {C : Type 0} → Cron C → Load → Type 0
Accepts {C} cr ld = (c : C) (e : Error) → (cr.add_func ld.cron_expression ld.id c).0 ≢ err e

-- It accepts the expression of each load of a list.
abbrev pub AcceptsAll : {C : Type 0} → Cron C → List Load → Type 0
AcceptsAll cr [] = Unit
AcceptsAll cr (ld ∷ lds) = Accepts cr ld × AcceptsAll cr lds

-- Each load of a map stands under its id, and cron accepts its expression.
abbrev pub Fit : {C : Type 0} → Cron C → Dict Load → Type 0
Fit cr [] = Unit
Fit cr ((id, ld) ∷ lds) = (ld.id ≡ id) × Accepts cr ld × Fit cr lds

insert-Fit :
    {C : Type 0} (cr : Cron C) (ld : Load) (m : Dict Load)
    → Accepts cr ld
    → Fit cr m
    → Fit cr (Dict.insert ld.id ld m)
unfolding Dict.insert
insert-Fit cr ld [] takes fit = (refl, takes, tt)
insert-Fit cr ld ((j, old) ∷ m) takes fit =
    either (Fit cr) (j == ld.id) _ _ (refl, takes, fit.2)
      (fit.0, fit.1, insert-Fit cr ld m takes fit.2)

add_desired-Fit :
    {C : Type 0} (cr : Cron C) (m : Dict Load) (lds : List Load)
    → AcceptsAll cr lds
    → Fit cr m
    → Fit cr (add_desired m lds)
unfolding add_desired
add_desired-Fit cr m [] accepts fit = fit
add_desired-Fit cr m (ld ∷ lds) accepts fit =
    add_desired-Fit cr (Dict.insert ld.id ld m) lds accepts.1 (insert-Fit cr ld m accepts.0 fit)

pub by_id-Fit :
    {C : Type 0} (cr : Cron C) (lds : List Load) → AcceptsAll cr lds → Fit cr (by_id lds)
by_id-Fit cr lds accepts = add_desired-Fit cr [] lds accepts tt

pub drop_stale-gone :
    {C : Type 0} (cr : Cron C) (desired : Dict Load) (id : ℕ) (m : Dict ScheduledLoad) (c : C)
    → Dict.lookup id desired ≡ none
    → Dict.lookup id (drop_stale cr desired m c).0 ≡ none
unfolding drop_stale Dict.lookup
drop_stale-gone cr desired id [] c gone = refl
drop_stale-gone cr desired id ((j, entry) ∷ m) c gone =
    elim (Option-cases (Dict.lookup j desired)) [
      | inl e ↦
          rw (drop_stale, e) (drop_stale-gone cr desired id m (cr.remove entry.entry_id c) gone)
      | inr (ld, e) ↦
          rw (drop_stale, e)
            (elim (Bool-cases (j == id)) [
              | inl same ↦
                  let clash =
                    sym e ∙ ap (λ k. Dict.lookup k desired) ((==_iff j id).0 same) ∙ gone in
                  cc
              | inr apart ↦ rw apart (drop_stale-gone cr desired id m c gone)
            ])
    ]

pub drop_stale-kept :
    {C : Type 0} (cr : Cron C) (desired : Dict Load) (id : ℕ) (ld : Load) (m : Dict ScheduledLoad)
    (c : C)
    → Dict.lookup id desired ≡ some ld
    → Dict.lookup id (drop_stale cr desired m c).0 ≡ Dict.lookup id m
unfolding drop_stale Dict.lookup
drop_stale-kept cr desired id ld [] c wanted = refl
drop_stale-kept cr desired id ld ((j, entry) ∷ m) c wanted =
    elim (Option-cases (Dict.lookup j desired)) [
      | inl gone ↦
          let differ : (j == id) ≡ false = elim (Bool-cases (j == id)) [
            | inl same ↦
                let clash =
                  sym wanted
                  ∙ ap (λ k. Dict.lookup k desired) (sym ((==_iff j id).0 same))
                  ∙ gone in
                cc
            | inr other ↦ other
          ] in
          rw (drop_stale, gone, differ)
            (drop_stale-kept cr desired id ld m (cr.remove entry.entry_id c) wanted)
      | inr (x, there) ↦
          rw (drop_stale, there)
            (elim (Bool-cases (j == id)) [
              | inl same ↦ rw same refl
              | inr other ↦ rw other (drop_stale-kept cr desired id ld m c wanted)
            ])
    ]

insert-others :
    {V : Type 0} (id j : ℕ) (v : V) (m : Dict V)
    → (id == j) ≡ false
    → Dict.lookup j (Dict.insert id v m) ≡ Dict.lookup j m
insert-others id j v m apart = rw (lookup-insert, apart) refl

sync_load-others :
    {C : Type 0} (cr : Cron C) (id j : ℕ) (ld : Load) (m : Dict ScheduledLoad) (c : C)
    → (id == j) ≡ false
    → Dict.lookup j (sync_load cr id ld m c).0 ≡ Dict.lookup j m
unfolding sync_load
sync_load-others cr id j ld m c apart = elim (Option-cases (Dict.lookup id m)) [
  | inl e ↦ elim (Result-cases (cr.add_func ld.cron_expression ld.id c).0) [
    | inr (n, f) ↦ rw (sync_load, e, f) refl
    | inl (entry_id, f) ↦ rw (sync_load, e, f) (insert-others id j _ m apart)
  ]
  | inr (old, e) ↦ elim (Bool-cases (str_eq old.load.cron_expression ld.cron_expression)) [
    | inl same ↦ rw (sync_load, e, same) (insert-others id j _ m apart)
    | inr new ↦
        elim (Result-cases (cr.add_func ld.cron_expression ld.id (cr.remove old.entry_id c)).0) [
          | inr (n, f) ↦ rw (sync_load, e, new, f) refl
          | inl (entry_id, f) ↦ rw (sync_load, e, new, f) (insert-others id j _ m apart)
        ]
  ]
]

insert_self :
    {V : Type 0} (id : ℕ) (v : V) (m : Dict V) → Dict.lookup id (Dict.insert id v m) ≡ some v
insert_self id v m = rw (lookup-insert, ==_refl) refl

insert-scheduled :
    (id : ℕ) (v : ScheduledLoad) (m : Dict ScheduledLoad)
    → scheduled_load id (Dict.insert id v m) ≡ some v.load
insert-scheduled id v m = ap (Option.map (λ (x : ScheduledLoad). x.load)) (insert_self id v m)

sync_load-scheduled :
    {C : Type 0} (cr : Cron C) (id : ℕ) (ld : Load) (m : Dict ScheduledLoad) (c : C)
    → Accepts cr ld
    → scheduled_load id (sync_load cr id ld m c).0 ≡ some ld
unfolding sync_load
sync_load-scheduled cr id ld m c accepts = elim (Option-cases (Dict.lookup id m)) [
  | inl e ↦ elim (Result-cases (cr.add_func ld.cron_expression ld.id c).0) [
    | inr (n, f) ↦ elim (accepts _ n f) [ ]
    | inl (entry_id, f) ↦ rw (sync_load, e, f) (insert-scheduled id _ m)
  ]
  | inr (old, e) ↦ elim (Bool-cases (str_eq old.load.cron_expression ld.cron_expression)) [
    | inl same ↦ rw (sync_load, e, same) (insert-scheduled id _ m)
    | inr new ↦
        elim (Result-cases (cr.add_func ld.cron_expression ld.id (cr.remove old.entry_id c)).0) [
          | inr (n, f) ↦ elim (accepts _ n f) [ ]
          | inl (entry_id, f) ↦ rw (sync_load, e, new, f) (insert-scheduled id _ m)
        ]
  ]
]

-- A load without an entry in the rest of the loop keeps what it has.
sync_loads-others :
    {C : Type 0} (cr : Cron C) (id : ℕ) (lds : Dict Load) (m : Dict ScheduledLoad) (c : C)
    → Lacks id lds
    → Dict.lookup id (sync_loads cr lds m c).0 ≡ Dict.lookup id m
unfolding sync_loads Dict.lookup
sync_loads-others cr id [] m c lacks = refl
sync_loads-others cr id ((j, ld) ∷ lds) m c lacks = elim (Bool-cases (j == id)) [
  | inl same ↦ let clash = rw same at lacks in cc
  | inr apart ↦
      sync_loads-others cr id lds (sync_load cr j ld m c).0 (sync_load cr j ld m c).1
        (rw apart at lacks)
      ∙ sync_load-others cr j id ld m c apart
]

sync_loads-scheduled :
    {C : Type 0} (cr : Cron C) (id : ℕ) (want : Load) (lds : Dict Load) (m : Dict ScheduledLoad)
    (c : C)
    → Fit cr lds
    → IsMap lds
    → Dict.lookup id lds ≡ some want
    → scheduled_load id (sync_loads cr lds m c).0 ≡ some want
unfolding sync_loads Dict.lookup
sync_loads-scheduled {C = C} cr id want [] m c accepts maps found = cc
sync_loads-scheduled {C = C} cr id want ((j, ld) ∷ lds) m c (_, accepts, fits) (lacks, maps) found =
    elim (Bool-cases (j == id)) [
      | inl same ↦
          let here = (==_iff j id).0 same in
          ap (Option.map (λ (x : ScheduledLoad). x.load))
            (sync_loads-others cr id lds synced.0 synced.1 (subst (λ k. Lacks k lds) here lacks))
          ∙ subst (λ k. scheduled_load k synced.0 ≡ some ld) here
              (sync_load-scheduled cr j ld m c accepts)
          ∙ (rw same at found)
      | inr apart ↦
          sync_loads-scheduled cr id want lds synced.0 synced.1 fits maps (rw apart at found)
    ]
  where
    synced : Dict ScheduledLoad × C
    synced = sync_load cr j ld m c

add_desired-IsMap : (m : Dict Load) (lds : List Load) → IsMap m → IsMap (add_desired m lds)
unfolding add_desired
add_desired-IsMap m [] maps = maps
add_desired-IsMap m (ld ∷ lds) maps =
    add_desired-IsMap (Dict.insert ld.id ld m) lds (insert-IsMap ld.id ld m maps)

-- After `Reload` has taken a changed list of loads, and if the cron library accepts their
-- expressions, exactly the loads of the list are scheduled, each with the metadata of the list,
-- whatever was scheduled before. (Of two rows with one id the last counts.)
pub synchronise-scheduled :
    {C R : Type 0} (cr : Cron C) (fp : String) (desired : List Load) (s : Scheduler C R) (id : ℕ)
    → AcceptsAll cr desired
    → scheduled_load id (synchronise cr fp desired s).scheduled ≡ Dict.lookup id (by_id desired)
unfolding synchronise
synchronise-scheduled {C = C} cr fp desired s id accepts =
    elim (Option-cases (Dict.lookup id (by_id desired))) [
      | inl e ↦ rw e (
          ap (Option.map (λ (x : ScheduledLoad). x.load)) (
            sync_loads-others cr id (by_id desired) kept.0 kept.1 e
            ∙ drop_stale-gone cr (by_id desired) id s.scheduled s.cron e))
      | inr (ld, e) ↦ rw e (
          sync_loads-scheduled cr id ld (by_id desired) kept.0 kept.1 (by_id-Fit cr desired accepts)
            (add_desired-IsMap [] desired tt) e)
    ]
  where
    kept : Dict ScheduledLoad × C
    kept = drop_stale cr (by_id desired) s.scheduled s.cron
