-- ===== src/Scheduler/Overlap.antt =====
-- Runs in flight: the steps of the scheduler's goroutines, in any order.
use data_loader.Prelude.{
  ℕ, ◌+◌, ◌≤◌, ◌≡◌, ◌≢◌, refl, String, Bool, true, false, List, [], ◌∷◌, ◌++◌, arith, count, ◌==◌,
  ==_iff, if◌then◌else◌, Option-cases, Bool-cases, inl, inr,
}
use data_loader.Prelude.Dict
use data_loader.Prelude.Dict.{Dict, lookup-insert, lookup-delete}
use data_loader.Metadata.{Load}
use data_loader.Scheduler.{
  Cron, Scheduler, execute, is_running, trigger_begin, trigger_end, synchronise,
}

-- The scheduler, and the load of each run that has begun and not ended.
abbrev pub InFlight : Type 0 → Type 0 → Type 0
InFlight C R = Scheduler C R × List ℕ

abbrev pub runs_of : ℕ → List ℕ → ℕ
runs_of id runs = count (λ j. j == id) runs

-- One step of a goroutine under the mutex.
pub data Step {C R : Type 0} (cr : Cron C) : InFlight C R → InFlight C R → Type 0 where
  start :
      {s : Scheduler C R} {runs : List ℕ} (id : ℕ) (ld : Load)
      → (trigger_begin id s).0 ≡ execute ld
      → Step cr (s, runs) ((trigger_begin id s).1, id ∷ runs)
  skip :
      {s : Scheduler C R} {runs : List ℕ} (id : ℕ)
      → ((ld : Load) → (trigger_begin id s).0 ≢ execute ld)
      → Step cr (s, runs) ((trigger_begin id s).1, runs)
  finish :
      {s : Scheduler C R} (id : ℕ) (before after : List ℕ)
      → Step cr (s, before ++ id ∷ after) (trigger_end id s, before ++ after)
  resync :
      {s : Scheduler C R} {runs : List ℕ} (fp : String) (desired : List Load)
      → Step cr (s, runs) (synchronise cr fp desired s, runs)

pub data Reaches {C R : Type 0} (cr : Cron C) (x : InFlight C R) : InFlight C R → Type 0 where
  here : Reaches cr x x
  next : {y z : InFlight C R} → Reaches cr x y → Step cr y z → Reaches cr x z

-- The map `running` marks exactly the loads in flight, each of them in flight once.
abbrev pub IsExact : {C R : Type 0} → InFlight C R → Type 0
IsExact (s, runs) = (id : ℕ) → runs_of id runs ≡ (if is_running id s.running then 1 else 0)

count-append : (id : ℕ) (xs ys : List ℕ) → runs_of id (xs ++ ys) ≡ runs_of id xs + runs_of id ys
count-append id [] ys = omega arith
count-append id (x ∷ xs) ys = ground (arith, count-append id xs ys)

is_running-insert :
    (id j : ℕ) (m : Dict Bool)
    → is_running j (Dict.insert id true m) ≡ (if id == j then true else is_running j m)
is_running-insert id j m = grind (arith, lookup-insert id j true m)

is_running-delete :
    (id j : ℕ) (m : Dict Bool)
    → is_running j (Dict.delete id m) ≡ (if id == j then false else is_running j m)
is_running-delete id j m = grind (arith, lookup-delete id j m)

start-marks :
    (m : Dict Bool) (runs : List ℕ) (id : ℕ)
    → ((j : ℕ) → runs_of j runs ≡ (if is_running j m then 1 else 0))
    → is_running id m ≡ false
    → (j : ℕ) → runs_of j (id ∷ runs) ≡ (if is_running j (Dict.insert id true m) then 1 else 0)
start-marks m runs id exact free j =
    rw (is_running-insert id j m) (grind (arith, exact j, exact id, ==_iff id j))

nothing-runs : (m : Dict Bool) (j : ℕ) → m ≡ [] → runs_of j [] ≡ (if is_running j m then 1 else 0)
unfolding Dict.lookup
nothing-runs m j idle = rw (idle, Dict.lookup) refl

begin-IsExact :
    {C R : Type 0} (s : Scheduler C R) (runs : List ℕ) (id : ℕ) (ld : Load)
    → IsExact (s, runs)
    → (trigger_begin id s).0 ≡ execute ld
    → IsExact ((trigger_begin id s).1, id ∷ runs)
unfolding trigger_begin
begin-IsExact s runs id ld exact = elim (Option-cases (Dict.lookup id s.scheduled)) [
  | inl e ↦ rw (trigger_begin, e) (λ q. cc)
  | inr (entry, e) ↦ elim (Bool-cases (is_running id s.running)) [
    | inl busy ↦ rw (trigger_begin, e, busy) (λ q. cc)
    | inr free ↦ rw (trigger_begin, e, free) (λ _. start-marks s.running runs id exact free)
  ]
]

skip-IsExact :
    {C R : Type 0} (s : Scheduler C R) (runs : List ℕ) (id : ℕ)
    → IsExact (s, runs)
    → ((ld : Load) → (trigger_begin id s).0 ≢ execute ld)
    → IsExact ((trigger_begin id s).1, runs)
unfolding trigger_begin
skip-IsExact s runs id exact = elim (Option-cases (Dict.lookup id s.scheduled)) [
  | inl e ↦ rw (trigger_begin, e) (λ _. exact)
  | inr (entry, e) ↦ elim (Bool-cases (is_running id s.running)) [
    | inl busy ↦ rw (trigger_begin, e, busy) (λ _. exact)
    | inr free ↦ rw (trigger_begin, e, free) (λ refused. elim (refused entry.load refl) [ ])
  ]
]

finish-IsExact :
    {C R : Type 0} (s : Scheduler C R) (id : ℕ) (before after : List ℕ)
    → IsExact (s, before ++ id ∷ after)
    → IsExact (trigger_end id s, before ++ after)
unfolding trigger_end
finish-IsExact s id before after exact j = grind (
  arith,
  exact j,
  count-append j before (id ∷ after),
  count-append j before after,
  is_running-delete id j s.running,
)

Step-IsExact :
    {C R : Type 0} (cr : Cron C) (x y : InFlight C R) → Step cr x y → IsExact x → IsExact y
unfolding synchronise
Step-IsExact cr _ _ (start {s = s} {runs = runs} id ld e) exact = begin-IsExact s runs id ld exact e
Step-IsExact cr _ _ (skip {s = s} {runs = runs} id refused) exact =
    skip-IsExact s runs id exact refused
Step-IsExact cr _ _ (finish {s = s} id before after) exact = finish-IsExact s id before after exact
Step-IsExact cr _ _ (resync fp desired) exact = exact

Reaches-IsExact :
    {C R : Type 0} (cr : Cron C) (x y : InFlight C R) → Reaches cr x y → IsExact x → IsExact y
Reaches-IsExact cr x _ here exact = exact
Reaches-IsExact cr x z (next {y = y} path step) exact =
    Step-IsExact cr y z step (Reaches-IsExact cr x y path exact)

-- Whatever triggers fire, runs end and reloads happen, in whatever order: of a scheduler that starts
-- with nothing running, every load has at most one run in flight, and it is marked as running exactly
-- while it has one.
pub Reaches-IsExclusive :
    {C R : Type 0} (cr : Cron C) (s t : Scheduler C R) (runs : List ℕ) (id : ℕ)
    → s.running ≡ []
    → Reaches cr (s, []) (t, runs)
    → (runs_of id runs ≤ 1)
      × ((runs_of id runs ≡ 1 → is_running id t.running ≡ true)
          × (is_running id t.running ≡ true → runs_of id runs ≡ 1))
Reaches-IsExclusive cr s t runs id idle path =
    ground
      (arith, Reaches-IsExact cr (s, []) (t, runs) path (λ j. nothing-runs s.running j idle) id)
