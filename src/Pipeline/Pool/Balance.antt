-- ===== src/Pipeline/Pool/Balance.antt =====
-- No source is lost: what was built is held by an entry or has been closed, exactly once.
use data_loader.Prelude.{
  subst, some_inj, ℕ, ◌+◌, ◌≡◌, refl, Bool, true, false, Option, none, some, List, [], ◌∷◌, arith,
  ◌==◌, length, count, if◌then◌else◌, Text, Option-cases, Bool-cases, inl, inr,
}
use data_loader.Prelude.Dict
use data_loader.Prelude.Dict.{Dict}
use data_loader.Pipeline.Pool.{
  PoolEntry, SourcePool, Opening, Obtained, build_fails, open_fails, opens, entry_of, close_entry,
  fresh_entry, open_entry, obtain, release, release_entry, invalidate,
}

-- How often the source `h` is in a list, and how often entries hold it.
abbrev pub times : ℕ → List ℕ → ℕ
times h = count (λ x. x == h)

abbrev holds : ℕ → PoolEntry → ℕ
holds h ent = elim ent.src [ none ↦ 0 | some x ↦ if x == h then 1 else 0 ]

abbrev pub held : ℕ → Dict PoolEntry → ℕ
held h [] = 0
held h ((k, ent) ∷ m) = holds h ent + held h m

abbrev held_at : ℕ → Option PoolEntry → ℕ
held_at h none = 0
held_at h (some ent) = holds h ent

-- Every source that was built is held by one entry, or was closed once and is held by none.
pub record IsBalanced (p : SourcePool) : Type 0 where
  pub each : (h : ℕ) → times h p.built ≡ times h p.closed + held h p.entries

held-insert :
    (h id : ℕ) (ent : PoolEntry) (m : Dict PoolEntry)
    → held h (Dict.insert id ent m) + held_at h (Dict.lookup id m) ≡ held h m + holds h ent
unfolding Dict.insert Dict.lookup
held-insert h id ent [] = omega arith
held-insert h id ent ((k, e) ∷ m) = elim (Bool-cases (k == id)) [
  | inl same ↦ rw same (omega arith)
  | inr other ↦ rw other (omega (arith, held-insert h id ent m))
]

close_entry-times :
    (h : ℕ) (ent : PoolEntry) (closed : List ℕ)
    → let (ent', closed') = close_entry ent closed in
      times h closed' + holds h ent' ≡ times h closed + holds h ent
unfolding close_entry
close_entry-times h ent closed = ground arith

fresh_entry-times :
    (h : ℕ) (p : SourcePool) (ent : PoolEntry) (fp : Text) (now : ℕ)
    → let (ent', closed') = fresh_entry p ent fp now in
      times h closed' + holds h ent' ≡ times h p.closed + holds h ent
unfolding fresh_entry
fresh_entry-times h p ent fp now = ground (arith, close_entry-times h ent p.closed)

module _ (id : ℕ) (fp : Text) (now : ℕ) (p : SourcePool) (balanced : IsBalanced p) where
  -- The entry of `id` is the one found, possibly the empty one.
  held_at-entry_of : (h : ℕ) (o : Option PoolEntry) → held_at h o ≡ holds h (entry_of o)
  held_at-entry_of h none = refl
  held_at-entry_of h (some ent) = refl

  open_entry-IsBalanced :
      (ent : PoolEntry) (closed' : List ℕ) (opening : Opening)
      → ent.src ≡ none
      → ((h : ℕ)
          → times h closed' ≡ times h p.closed + holds h (entry_of (Dict.lookup id p.entries)))
      → IsBalanced (open_entry id ent fp now opening (record p { closed = closed' })).1
  unfolding open_entry
  open_entry-IsBalanced ent closed' (build_fails e) empty moved = record {
    each = λ h. ground (
      arith,
      balanced.each h,
      moved h,
      held-insert h id ent p.entries,
      held_at-entry_of h (Dict.lookup id p.entries),
    );
  }
  open_entry-IsBalanced ent closed' (open_fails e) empty moved = record {
    each = λ h. ground (
      arith,
      balanced.each h,
      moved h,
      held-insert h id ent p.entries,
      held_at-entry_of h (Dict.lookup id p.entries),
    );
  }
  open_entry-IsBalanced ent closed' opens empty moved = record {
    each = λ h. ground (
      arith,
      balanced.each h,
      moved h,
      held-insert h id
          (record {
            src = some (length p.built);
            fp = fp;
            opened_at = now;
            last_used = now;
            leased = true;
          })
          p.entries,
      held_at-entry_of h (Dict.lookup id p.entries),
    );
  }

  lease_kept-IsBalanced :
      (ent : PoolEntry) (closed' : List ℕ)
      → ((h : ℕ)
          → times h closed' + holds h ent
            ≡ times h p.closed + holds h (entry_of (Dict.lookup id p.entries)))
      → IsBalanced (record p {
        closed = closed';
        entries = Dict.insert id (record ent { leased = true }) p.entries;
      })
  lease_kept-IsBalanced ent closed' moved = record {
    each = λ h. omega (
      arith,
      balanced.each h,
      moved h,
      held-insert h id (record ent { leased = true }) p.entries,
      held_at-entry_of h (Dict.lookup id p.entries),
    );
  }

of_some : (x r : Obtained × SourcePool) → IsBalanced x.1 → some x ≡ some r → IsBalanced r.1
of_some x r b e = subst (λ (y : Obtained × SourcePool). IsBalanced y.1) (some_inj e) b

-- `Obtain`, whether it reuses, reopens, opens or fails, keeps the balance.
pub obtain-IsBalanced :
    (id : ℕ) (fp : Text) (now : ℕ) (opening : Opening) (p : SourcePool) (r : Obtained × SourcePool)
    → IsBalanced p
    → obtain id fp now opening p ≡ some r
    → IsBalanced r.1
unfolding obtain
obtain-IsBalanced id fp now opening p r balanced = elim (Bool-cases found.leased) [
  | inl busy ↦ rw (busy, obtain) (λ q. cc)
  | inr free ↦ elim (Option-cases got.0.src) [
    | inl gone ↦
        rw (free, gone, obtain)
          (of_some _ r (
            open_entry-IsBalanced id fp now p balanced got.0 got.1 opening gone
              (λ h. ground (arith, moved h))))
    | inr (h, there) ↦
        rw (free, there, obtain)
          (of_some _ r (lease_kept-IsBalanced id fp now p balanced got.0 got.1 moved))
  ]
]
  where
    found : PoolEntry
    found = entry_of (Dict.lookup id p.entries)

    got : PoolEntry × List ℕ
    got = fresh_entry p found fp now

    moved : (h : ℕ) → times h got.1 + holds h got.0 ≡ times h p.closed + holds h found
    moved h = fresh_entry-times h p found fp now

-- Releasing a lease, of any kind and any number of times, keeps the balance.
pub release-IsBalanced :
    (id : ℕ) (released invalid : Bool) (now : ℕ) (p : SourcePool)
    → IsBalanced p
    → IsBalanced (release id released invalid now p).1
unfolding release release_entry
release-IsBalanced id true invalid now p balanced = balanced
release-IsBalanced id false invalid now p balanced =
    elim (Option-cases (Dict.lookup id p.entries)) [
      | inl absent ↦ rw (absent, release) balanced
      | inr (ent, there) ↦
          rw (there, release)
            (record {
              each = λ h. ground (
                arith,
                there,
                balanced.each h,
                close_entry-times h ent p.closed,
                held-insert h id (record (release_entry ent invalid now p).0 { leased = false })
                    p.entries,
              );
            })
    ]

-- `Invalidate` of an entry that no run holds, whether the entry has a source or not, keeps the
-- balance.
pub invalidate-IsBalanced :
    (id : ℕ) (p q : SourcePool) → IsBalanced p → invalidate id p ≡ some q → IsBalanced q
unfolding invalidate
invalidate-IsBalanced id p q balanced = elim (Option-cases (Dict.lookup id p.entries)) [
  | inl absent ↦ rw (absent, invalidate) (λ e. subst IsBalanced (some_inj e) balanced)
  | inr (ent, there) ↦ elim (Bool-cases ent.leased) [
    | inl busy ↦ rw (there, busy, invalidate) (λ e. cc)
    | inr free ↦
        rw (there, free, invalidate)
          (λ e. subst IsBalanced (some_inj e) (record {
            each = λ h. ground (
              arith,
              there,
              balanced.each h,
              close_entry-times h ent p.closed,
              held-insert h id (close_entry ent p.closed).0 p.entries,
            );
          }))
  ]
]
