-- ===== src/Pipeline/Pool.antt =====
-- internal/pipeline/pool.go: the source pool (ADR-021). An entry's mutex is held for the length of a
-- lease, so it is a flag here, and an operation that would wait for it is `none`. A built source is
-- a number; `built` and `closed` record what the builder made and what `Close` was called on.
pub mod Balance
pub mod Leases
mod Tests
use data_loader.Prelude.{
  ℕ, zero, suc, ◌+◌, ◌-◌, Bool, true, false, not, ◌&&◌, Option, none, some, List, [], ◌∷◌, length,
  count, ◌==◌, ltb, if◌then◌else◌, Text, Error, same_text,
}
use data_loader.Prelude.Dict
use data_loader.Prelude.Dict.{Dict}

pub record PoolEntry : Type 0 where
  pub src : Option ℕ
  pub fp : Text
  pub opened_at : ℕ
  pub last_used : ℕ
  pub leased : Bool

pub record SourcePool : Type 0 where
  pub idle : ℕ
  pub max_age : ℕ
  pub entries : Dict PoolEntry
  pub built : List ℕ
  pub closed : List ℕ

abbrev pub empty_entry : PoolEntry
empty_entry = record { src = none; fp = []; opened_at = 0; last_used = 0; leased = false }

abbrev default_idle : ℕ
default_idle = 300

-- `NewSourcePool`, times in seconds.
unfoldable pub new_pool : ℕ → ℕ → SourcePool
new_pool idle_timeout max_age = record {
  idle = if ltb 0 idle_timeout then idle_timeout else default_idle;
  max_age = max_age;
  entries = [];
  built = [];
  closed = [];
}

-- `reusable`.
unfoldable pub reusable : SourcePool → PoolEntry → Text → ℕ → Bool
reusable p ent fp now =
    if not (same_text ent.fp fp)
    then false
    else if ltb 0 p.idle && ltb p.idle (now - ent.last_used)
    then false
    else if ltb 0 p.max_age && ltb p.max_age (now - ent.opened_at)
    then false
    else true

-- `closeEntry`: the entry and the sources that have been closed.
pub close_entry : PoolEntry → List ℕ → PoolEntry × List ℕ
close_entry ent closed = elim ent.src [
  | none ↦ (ent, closed)
  | some h ↦ (record ent { src = none; fp = [] }, h ∷ closed)
]

is_live : PoolEntry → Bool
is_live ent = elim ent.src [ none ↦ false | some _ ↦ true ]

-- What the environment does with a new source: the builder fails, `Open` fails, or it is open.
pub data Opening : Type 0 where
  build_fails : Error → Opening
  open_fails : Error → Opening
  opens : Opening

-- The result of `Obtain`.
pub data Obtained : Type 0 where
  failed : Error → Obtained
  lease : ℕ → Obtained

-- The entry with a stale connection dropped.
fresh_entry : SourcePool → PoolEntry → Text → ℕ → PoolEntry × List ℕ
unfolding close_entry is_live
fresh_entry p ent fp now =
    if is_live ent && not (reusable p ent fp now) then close_entry ent p.closed else (ent, p.closed)

-- Build and open a source for an entry without one.
open_entry : ℕ → PoolEntry → Text → ℕ → Opening → SourcePool → Obtained × SourcePool
open_entry id ent fp now (build_fails e) p =
    (failed e, record p { entries = Dict.insert id ent p.entries })
open_entry id ent fp now (open_fails e) p = (
  failed e,
  record p {
    entries = Dict.insert id ent p.entries;
    built = length p.built ∷ p.built;
    closed = length p.built ∷ p.closed;
  },
)
open_entry id ent fp now opens p = (
  lease (length p.built),
  record p {
    entries =
        Dict.insert id
          (record {
            src = some (length p.built);
            fp = fp;
            opened_at = now;
            last_used = now;
            leased = true;
          })
          p.entries;
    built = length p.built ∷ p.built;
  },
)

abbrev entry_of : Option PoolEntry → PoolEntry
entry_of none = empty_entry
entry_of (some ent) = ent

-- `Obtain` once the fingerprint is computed; `none` while another run holds the lease.
unfoldable pub obtain : ℕ → Text → ℕ → Opening → SourcePool → Option (Obtained × SourcePool)
unfolding fresh_entry open_entry
obtain id fp now opening p =
    let found = entry_of (Dict.lookup id p.entries) in
    if found.leased
    then none
    else let (ent, closed') = fresh_entry p found fp now in
      let p' = record p { closed = closed' } in
      elim ent.src [
        | none ↦ some (open_entry id ent fp now opening p')
        | some h ↦ some (
          lease h,
          record p' { entries = Dict.insert id (record ent { leased = true }) p'.entries },
        )
      ]

-- The `release` of a lease that has not been released: keep or close, then unlock.
release_entry : PoolEntry → Bool → ℕ → SourcePool → PoolEntry × List ℕ
unfolding close_entry
release_entry ent invalidate now p =
    if invalidate then close_entry ent p.closed else (record ent { last_used = now }, p.closed)

-- The closure `release`, with its variable `released`.
unfoldable pub release : ℕ → Bool → Bool → ℕ → SourcePool → Bool × SourcePool
unfolding release_entry
release id released invalidate now p =
    if released then (true, p) else elim (Dict.lookup id p.entries) [
      | none ↦ (true, p)
      | some ent ↦
          let (ent', closed') = release_entry ent invalidate now p in
          (
            true,
            record p {
              entries = Dict.insert id (record ent' { leased = false }) p.entries;
              closed = closed';
            },
          )
    ]

-- `Invalidate`; `none` while the entry is leased.
unfoldable pub invalidate : ℕ → SourcePool → Option SourcePool
unfolding close_entry
invalidate id p = elim (Dict.lookup id p.entries) [
  | none ↦ some p
  | some ent ↦
      if ent.leased
      then none
      else let (ent', closed') = close_entry ent p.closed in
        some (record p { entries = Dict.insert id ent' p.entries; closed = closed' })
]

-- `InvalidateAll` over the ids that it collected, and `Close`.
invalidate_ids : List ℕ → SourcePool → Option SourcePool
invalidate_ids [] p = some p
invalidate_ids (id ∷ ids) p = elim (invalidate id p) [
  | none ↦ none
  | some p' ↦ invalidate_ids ids p'
]

unfoldable pub invalidate_all : SourcePool → Option SourcePool
unfolding invalidate_ids
invalidate_all p = invalidate_ids (Dict.keys p.entries) p

-- `Len` and `LiveCount`.
unfoldable pub len : SourcePool → ℕ
len p = length p.entries

unfoldable pub live_count : SourcePool → ℕ
unfolding is_live
live_count p = count is_live (Dict.values p.entries)
