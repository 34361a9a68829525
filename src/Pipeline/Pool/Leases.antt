-- ===== src/Pipeline/Pool/Leases.antt =====
-- Who has a source, and which source an `Obtain` hands out.
use data_loader.Prelude.{
  sym, ap, ◌∙◌, same_text, same_text_refl, ℕ, ◌-◌, ◌≤◌, ◌<◌, ◌≡◌, refl, true, false, none, some,
  List, arith, ==_refl, Text, Option-cases, Bool-cases, inl, inr, subst, some_inj, ==_iff, ◌==◌,
  Bool, Option, [], ◌∷◌,
}
use data_loader.Prelude.Dict
use data_loader.Prelude.Dict.{Dict, lookup-insert}
use data_loader.Pipeline.Pool.{
  PoolEntry, SourcePool, Opening, Obtained, build_fails, open_fails, opens, failed, lease, entry_of,
  close_entry, fresh_entry, open_entry, obtain, release, invalidate, is_live, reusable,
}

-- What an entry is while the source `h` is leased for the fingerprint `fp` at the time `now`.
pub record IsLeased (p : SourcePool) (h : ℕ) (fp : Text) (now : ℕ) (ent : PoolEntry) : Type 0 where
  pub holds : ent.src ≡ some h
  pub locked : ent.leased ≡ true
  pub same_params : same_text ent.fp fp ≡ true
  pub not_idle : 0 < p.idle → now - ent.last_used ≤ p.idle
  pub not_old : 0 < p.max_age → now - ent.opened_at ≤ p.max_age

-- What `Obtain` promises of its result at the id.
abbrev pub Granted : SourcePool → ℕ → Text → ℕ → Obtained × SourcePool → Type 0
Granted p id fp now (failed e, q) = (entry_of (Dict.lookup id q.entries)).leased ≡ false
Granted p id fp now (lease h, q) = IsLeased p h fp now (entry_of (Dict.lookup id q.entries))

lookup-insert_self :
    (id : ℕ) (ent : PoolEntry) (m : Dict PoolEntry)
    → entry_of (Dict.lookup id (Dict.insert id ent m)) ≡ ent
lookup-insert_self id ent m = rw (lookup-insert, ==_refl) refl

fresh_entry-reusable :
    (p : SourcePool) (ent : PoolEntry) (fp : Text) (now h : ℕ)
    → (fresh_entry p ent fp now).0.src ≡ some h
    → (reusable p ent fp now ≡ true) × ((fresh_entry p ent fp now).0 ≡ ent)
unfolding fresh_entry close_entry is_live
fresh_entry-reusable p ent fp now h e = ground arith

fresh_entry-leased :
    (p : SourcePool) (ent : PoolEntry) (fp : Text) (now : ℕ)
    → (fresh_entry p ent fp now).0.leased ≡ ent.leased
unfolding fresh_entry close_entry
fresh_entry-leased p ent fp now = ground arith

reusable-limits :
    (p : SourcePool) (ent : PoolEntry) (fp : Text) (now : ℕ)
    → reusable p ent fp now ≡ true
    → (same_text ent.fp fp ≡ true)
      × (0 < p.idle → now - ent.last_used ≤ p.idle)
      × (0 < p.max_age → now - ent.opened_at ≤ p.max_age)
unfolding reusable
reusable-limits p ent fp now h = (ground arith, λ i. ground arith, λ i. ground arith)

open_entry-Granted :
    (p : SourcePool) (id : ℕ) (ent : PoolEntry) (fp : Text) (now : ℕ) (opening : Opening)
    (closed' : List ℕ)
    → ent.leased ≡ false
    → Granted p id fp now (open_entry id ent fp now opening (record p { closed = closed' }))
unfolding open_entry
open_entry-Granted p id ent fp now (build_fails e) closed' free = rw lookup-insert_self free
open_entry-Granted p id ent fp now (open_fails e) closed' free = rw lookup-insert_self free
open_entry-Granted p id ent fp now opens closed' free = rw lookup-insert_self (record {
  holds = refl;
  locked = refl;
  same_params = same_text_refl fp;
  not_idle = λ i. omega arith;
  not_old = λ i. omega arith;
})

kept-IsLeased :
    (p : SourcePool) (ent : PoolEntry) (fp : Text) (now h : ℕ)
    → (fresh_entry p ent fp now).0.src ≡ some h
    → IsLeased p h fp now (record (fresh_entry p ent fp now).0 { leased = true })
kept-IsLeased p ent fp now h there =
    let (ok, same) = fresh_entry-reusable p ent fp now h there in
    let (eq, idle, old) = reusable-limits p ent fp now ok in
    subst (λ o. IsLeased p h fp now (record o { leased = true })) (sym same)
      (record {
        holds = sym (ap (λ o. o.src) same) ∙ there;
        locked = refl;
        same_params = eq;
        not_idle = idle;
        not_old = old;
      })

-- When `Obtain` returns a source, its entry holds that source, locked, with the
-- fingerprint asked for and within the idle and age limits; when it fails, it
-- leaves the entry unlocked.
pub obtain-Granted :
    (id : ℕ) (fp : Text) (now : ℕ) (opening : Opening) (p : SourcePool) (r : Obtained × SourcePool)
    → obtain id fp now opening p ≡ some r
    → Granted p id fp now r
unfolding obtain
obtain-Granted id fp now opening p r = elim (Bool-cases found.leased) [
  | inl busy ↦ rw (busy, obtain) (λ q. cc)
  | inr free ↦ elim (Option-cases got.0.src) [
    | inl gone ↦
        rw (free, gone, obtain)
          (λ e. subst (Granted p id fp now) (some_inj e) (
            open_entry-Granted p id got.0 fp now opening got.1
              (fresh_entry-leased p found fp now ∙ free)))
    | inr (h, there) ↦
        rw (free, there, obtain)
          (λ e.
            subst (Granted p id fp now) (some_inj e)
              (rw lookup-insert_self (kept-IsLeased p found fp now h there)))
  ]
]
  where
    found : PoolEntry
    found = entry_of (Dict.lookup id p.entries)

    got : PoolEntry × List ℕ
    got = fresh_entry p found fp now

-- An operation on the entry of one id. `InvalidateAll` and `Close` are sequences of invalidations.
pub data PoolOp : Type 0 where
  obtains : ℕ → Text → ℕ → Opening → PoolOp
  releases : ℕ → Bool → ℕ → PoolOp
  invalidates : ℕ → PoolOp

abbrev op_id : PoolOp → ℕ
op_id (obtains id fp now opening) = id
op_id (releases id to_close now) = id
op_id (invalidates id) = id

-- The operation, if it does not wait.
unfoldable pub take_op : PoolOp → SourcePool → Option SourcePool
unfolding obtain release invalidate
take_op (obtains id fp now opening) p = elim (obtain id fp now opening p) [
  | none ↦ none
  | some (r, q) ↦ some q
]
take_op (releases id to_close now) p = some (release id false to_close now p).1
take_op (invalidates id) p = invalidate id p

-- Operations of any callers, in the order in which they went ahead.
unfoldable pub take_ops : List PoolOp → SourcePool → Option SourcePool
unfolding take_op
take_ops [] p = some p
take_ops (op ∷ ops) p = elim (take_op op p) [ none ↦ none | some q ↦ take_ops ops q ]

-- No operation of a list releases the id.
abbrev pub Unreleased : ℕ → List PoolOp → Type 0
Unreleased id [] = Unit
Unreleased id (obtains j fp now opening ∷ ops) = Unreleased id ops
Unreleased id (releases j to_close now ∷ ops) = ((j == id) ≡ false) × Unreleased id ops
Unreleased id (invalidates j ∷ ops) = Unreleased id ops

-- No operation of a list is about the id.
abbrev pub Elsewhere : ℕ → List PoolOp → Type 0
Elsewhere id [] = Unit
Elsewhere id (op ∷ ops) = ((op_id op == id) ≡ false) × Elsewhere id ops

abbrev SameAt : ℕ → SourcePool → SourcePool → Type 0
SameAt id p q = Dict.lookup id q.entries ≡ Dict.lookup id p.entries

insert-others :
    (j id : ℕ) (ent : PoolEntry) (m : Dict PoolEntry)
    → (j == id) ≡ false
    → Dict.lookup id (Dict.insert j ent m) ≡ Dict.lookup id m
insert-others j id ent m other = rw (lookup-insert, other) refl

open_entry-SameAt :
    (j id : ℕ) (ent : PoolEntry) (fp : Text) (now : ℕ) (opening : Opening) (p : SourcePool)
    → (j == id) ≡ false
    → SameAt id p (open_entry j ent fp now opening p).1
unfolding open_entry
open_entry-SameAt j id ent fp now (build_fails e) p other = insert-others j id _ p.entries other
open_entry-SameAt j id ent fp now (open_fails e) p other = insert-others j id _ p.entries other
open_entry-SameAt j id ent fp now opens p other = insert-others j id _ p.entries other

obtain-SameAt :
    (j id : ℕ) (fp : Text) (now : ℕ) (opening : Opening) (p : SourcePool)
    (r : Obtained × SourcePool)
    → (j == id) ≡ false
    → obtain j fp now opening p ≡ some r
    → SameAt id p r.1
unfolding obtain
obtain-SameAt j id fp now opening p r other = elim (Bool-cases found.leased) [
  | inl busy ↦ rw (busy, obtain) (λ q. cc)
  | inr free ↦ elim (Option-cases got.0.src) [
    | inl gone ↦
        rw (free, gone, obtain)
          (λ e.
            subst (λ (o : Obtained × SourcePool). SameAt id p o.1) (some_inj e)
              (open_entry-SameAt j id got.0 fp now opening (record p { closed = got.1 }) other))
    | inr (h, there) ↦
        rw (free, there, obtain)
          (λ e.
            subst (λ (o : Obtained × SourcePool). SameAt id p o.1) (some_inj e)
              (insert-others j id _ p.entries other))
  ]
]
  where
    found : PoolEntry
    found = entry_of (Dict.lookup j p.entries)

    got : PoolEntry × List ℕ
    got = fresh_entry p found fp now

release-SameAt :
    (j id : ℕ) (to_close : Bool) (now : ℕ) (p : SourcePool)
    → (j == id) ≡ false
    → SameAt id p (release j false to_close now p).1
unfolding release
release-SameAt j id to_close now p other = elim (Option-cases (Dict.lookup j p.entries)) [
  | inl gone ↦ rw (gone, release) refl
  | inr (ent, there) ↦ rw (there, release) (insert-others j id _ p.entries other)
]

invalidate-SameAt :
    (j id : ℕ) (p q : SourcePool) → (j == id) ≡ false → invalidate j p ≡ some q → SameAt id p q
unfolding invalidate
invalidate-SameAt j id p q other = elim (Option-cases (Dict.lookup j p.entries)) [
  | inl gone ↦ rw (gone, invalidate) (λ e. subst (SameAt id p) (some_inj e) refl)
  | inr (ent, there) ↦ elim (Bool-cases ent.leased) [
    | inl busy ↦ rw (there, busy, invalidate) (λ e. cc)
    | inr free ↦
        rw (there, free, invalidate)
          (λ e. subst (SameAt id p) (some_inj e) (insert-others j id _ p.entries other))
  ]
]

module _ (id : ℕ) (ent : PoolEntry) (busy : ent.leased ≡ true) where
  obtain_waits :
      (j : ℕ) (fp : Text) (now : ℕ) (opening : Opening) (p : SourcePool)
      → (j == id) ≡ true
      → Dict.lookup id p.entries ≡ some ent
      → obtain j fp now opening p ≡ none
  unfolding obtain
  obtain_waits j fp now opening p same there =
      rw (ap (λ k. Dict.lookup k p.entries) ((==_iff j id).0 same) ∙ there, busy) refl

  invalidate_waits :
      (j : ℕ) (p : SourcePool)
      → (j == id) ≡ true
      → Dict.lookup id p.entries ≡ some ent
      → invalidate j p ≡ none
  unfolding invalidate
  invalidate_waits j p same there =
      rw (ap (λ k. Dict.lookup k p.entries) ((==_iff j id).0 same) ∙ there, busy, invalidate) refl

-- While a source is leased, and until its release, whatever operations of any callers go ahead in
-- whatever order, none of them is about its id: no other `Obtain` is granted for it and no `Invalidate`
-- touches it, and at the end its entry is what it was, still with its source and locked.
pub lease-exclusive :
    (id : ℕ) (ent : PoolEntry) (ops : List PoolOp) (p q : SourcePool)
    → Dict.lookup id p.entries ≡ some ent
    → ent.leased ≡ true
    → Unreleased id ops
    → take_ops ops p ≡ some q
    → Elsewhere id ops × (Dict.lookup id q.entries ≡ some ent)
unfolding take_ops take_op
lease-exclusive id ent [] p q there busy held h =
    (tt, subst (λ (o : SourcePool). Dict.lookup id o.entries ≡ some ent) (some_inj h) there)
lease-exclusive id ent (obtains j fp now opening ∷ ops) p q there busy held h =
    elim (Bool-cases (j == id)) [
      | inl same ↦
          let waits = obtain_waits id ent busy j fp now opening p same there in
          let clash = rw (waits, take_ops) at h in cc
      | inr other ↦ elim (Option-cases (obtain j fp now opening p)) [
        | inl waits ↦ let clash = rw (waits, take_ops) at h in cc
        | inr (r, went) ↦
            let (rest, after) =
              lease-exclusive id ent ops r.1 q
                (obtain-SameAt j id fp now opening p r other went ∙ there) busy held
                (rw (went, take_ops) at h) in
            ((other, rest), after)
      ]
    ]
lease-exclusive id ent (releases j to_close now ∷ ops) p q there busy (other, held) h =
    let (rest, after) =
      lease-exclusive id ent ops (release j false to_close now p).1 q
        (release-SameAt j id to_close now p other ∙ there) busy held h in
    ((other, rest), after)
lease-exclusive id ent (invalidates j ∷ ops) p q there busy held h = elim (Bool-cases (j == id)) [
  | inl same ↦
      let waits = invalidate_waits id ent busy j p same there in
      let clash = rw (waits, take_ops) at h in cc
  | inr other ↦ elim (Option-cases (invalidate j p)) [
    | inl waits ↦ let clash = rw (waits, take_ops) at h in cc
    | inr (r, went) ↦
        let (rest, after) =
          lease-exclusive id ent ops r q (invalidate-SameAt j id p r other went ∙ there) busy held
            (rw (went, take_ops) at h) in
        ((other, rest), after)
  ]
]
