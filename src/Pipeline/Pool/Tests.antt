-- ===== src/Pipeline/Pool/Tests.antt =====
-- The pool at work: a source that is leased, released, found too old and reopened.
use data_loader.Prelude.{List, ◌≡◌, refl, true, false, none, some, [], ◌∷◌, lit, arith, same_text}
use data_loader.Prelude.Dict
use data_loader.Pipeline.Pool.{
  PoolEntry, SourcePool, Obtained, opens, lease, obtain, release, invalidate, fresh_entry,
  open_entry, close_entry, reusable, release_entry,
}
use data_loader.Pipeline.Pool.Balance.{
  IsBalanced, obtain-IsBalanced, release-IsBalanced, invalidate-IsBalanced,
}
use data_loader.Pipeline.Pool.Leases.{
  Granted, obtain-Granted, PoolOp, obtains, releases, invalidates, take_op, take_ops, Elsewhere,
  lease-exclusive,
}

-- One source, opened at 10 and used at 20 for the parameters "a", idle now.
abbrev used : PoolEntry
used = record { src = some 0; fp = lit "a"; opened_at = 10; last_used = 20; leased = false }

abbrev idle_pool : SourcePool
idle_pool = record {
  idle = 300;
  max_age = 0;
  entries = (7, used) ∷ [];
  built = 0 ∷ [];
  closed = [];
}

abbrev busy_pool : SourcePool
busy_pool = record idle_pool { entries = (7, record used { leased = true }) ∷ [] }

-- The source is too old at 900: it is closed, and a new one is opened.
abbrev reopened : Obtained × SourcePool
reopened = (
  lease 1,
  record {
    idle = 300;
    max_age = 0;
    entries =
        (7, record { src = some 1; fp = lit "a"; opened_at = 900; last_used = 900; leased = true })
        ∷ [];
    built = 1 ∷ 0 ∷ [];
    closed = 0 ∷ [];
  },
)

obtain_reopens : obtain 7 (lit "a") 900 opens idle_pool ≡ some reopened
unfolding obtain fresh_entry open_entry close_entry reusable same_text Dict.lookup Dict.insert
obtain_reopens = refl

idle_pool-IsBalanced : IsBalanced idle_pool
idle_pool-IsBalanced = record { each = λ h. ground arith }

busy_pool-IsBalanced : IsBalanced busy_pool
busy_pool-IsBalanced = record { each = λ h. ground arith }

obtain-IsBalanced_example : IsBalanced reopened.1
obtain-IsBalanced_example =
    obtain-IsBalanced 7 (lit "a") 900 opens idle_pool reopened idle_pool-IsBalanced obtain_reopens

release-IsBalanced_example : IsBalanced (release 7 false true 30 busy_pool).1
release-IsBalanced_example = release-IsBalanced 7 false true 30 busy_pool busy_pool-IsBalanced

abbrev emptied : SourcePool
emptied = record idle_pool {
  entries = (7, record used { src = none; fp = [] }) ∷ [];
  closed = 0 ∷ [];
}

invalidate_empties : invalidate 7 idle_pool ≡ some emptied
unfolding invalidate close_entry Dict.lookup Dict.insert
invalidate_empties = refl

invalidate-IsBalanced_example : IsBalanced emptied
invalidate-IsBalanced_example =
    invalidate-IsBalanced 7 idle_pool emptied idle_pool-IsBalanced invalidate_empties

obtain-Granted_example : Granted idle_pool 7 (lit "a") 900 reopened
obtain-Granted_example = obtain-Granted 7 (lit "a") 900 opens idle_pool reopened obtain_reopens

busy_there : Dict.lookup 7 busy_pool.entries ≡ some (record used { leased = true })
unfolding Dict.lookup
busy_there = refl

-- While source 7 is leased, another load obtains its source and gives it back.
abbrev others : List PoolOp
others = obtains 8 (lit "b") 40 opens ∷ invalidates 9 ∷ releases 8 false 50 ∷ invalidates 8 ∷ []

abbrev after_others : SourcePool
after_others = record busy_pool {
  entries =
      (7, record used { leased = true })
      ∷ (8, record { src = none; fp = []; opened_at = 40; last_used = 50; leased = false })
      ∷ [];
  built = 1 ∷ 0 ∷ [];
  closed = 1 ∷ [];
}

others_taken : take_ops others busy_pool ≡ some after_others
unfolding take_ops take_op obtain release release_entry invalidate fresh_entry open_entry
    close_entry reusable same_text Dict.lookup Dict.insert
others_taken = refl

lease-exclusive_example :
    Elsewhere 7 others × (Dict.lookup 7 after_others.entries ≡ some (record used { leased = true }))
lease-exclusive_example =
    lease-exclusive 7 (record used { leased = true }) others busy_pool after_others busy_there refl
      (refl, tt) others_taken
