-- ===== src/RunState/Snapshot.antt =====
-- `Snapshot` lists every load once, by ascending id, whatever order the map is walked in.
use mathlib.Core.List.{Perm, Permᴰ}
use mathlib.Core.List.Perm
use mathlib.Core.Logic.{∥∥₁_elim}
use text.Mathlib.TextEquality.{IsScalar-prop}
use data_loader.Prelude.{
  ℕ, ◌≡◌, ◌≢◌, refl, ap, ◌∙◌, ◌<◌, ◌≤◌, List, [], ◌∷◌, arith, ltb, some, sym, subst, Bool-cases,
  inl, inr,
}
use data_loader.Prelude.Dict
use data_loader.Prelude.Dict.{Dict, IsMap, Lacks}
use data_loader.RunState.{LoadState, Registry, insert_by_id, sort_by_id, snapshot}
use data_loader.RunState.History.{IsValid}

-- Every id in the list is above `n`.
abbrev pub Above : ℕ → List LoadState → Type 0
Above n [] = Unit {0}
Above n (s ∷ ss) = (n < s.load_id) × Above n ss

-- The ids rise strictly along the list.
abbrev pub Ascending : List LoadState → Type 0
Ascending [] = Unit {0}
Ascending (s ∷ ss) = Above s.load_id ss × Ascending ss

-- No id of the list is `n`.
abbrev pub Misses : ℕ → List LoadState → Type 0
Misses n [] = Unit {0}
Misses n (s ∷ ss) = (n ≢ s.load_id) × Misses n ss

abbrev pub Distinct : List LoadState → Type 0
Distinct [] = Unit {0}
Distinct (s ∷ ss) = Misses s.load_id ss × Distinct ss

Above-mono : (m n : ℕ) (ss : List LoadState) → m ≤ n → Above n ss → Above m ss
Above-mono m n [] h a = tt
Above-mono m n (s ∷ ss) h a = (omega arith, Above-mono m n ss h a.1)

insert_by_id-Above :
    (n : ℕ) (s : LoadState) (ss : List LoadState)
    → n < s.load_id
    → Above n ss
    → Above n (insert_by_id s ss)
unfolding insert_by_id
insert_by_id-Above n s [] h a = (h, tt)
insert_by_id-Above n s (t ∷ ts) h a = ground (arith, insert_by_id-Above n s ts h a.1)

insert_by_id-Ascending :
    (s : LoadState) (ss : List LoadState)
    → Misses s.load_id ss
    → Ascending ss
    → Ascending (insert_by_id s ss)
unfolding insert_by_id
insert_by_id-Ascending s [] m a = (tt, tt)
insert_by_id-Ascending s (t ∷ ts) m a = ground (
  arith,
  insert_by_id-Ascending s ts m.1 a.1,
  insert_by_id-Above t.load_id s ts,
  Above-mono s.load_id t.load_id ts,
)

insert_by_id-perm : (s : LoadState) (ss : List LoadState) → Perm (s ∷ ss) (insert_by_id s ss)
unfolding insert_by_id
insert_by_id-perm s [] = Perm.rfl
insert_by_id-perm s (t ∷ ts) = elim (Bool-cases (ltb t.load_id s.load_id)) [
  | inl e ↦ rw e (Perm.trans (Perm.swap t s ts) (Perm.cons t (insert_by_id-perm s ts)))
  | inr e ↦ rw e Perm.rfl
]

sort_by_id-perm : (ss : List LoadState) → Perm ss (sort_by_id ss)
unfolding sort_by_id
sort_by_id-perm [] = Perm.rfl
sort_by_id-perm (s ∷ ss) =
    Perm.trans (Perm.cons s (sort_by_id-perm ss)) (insert_by_id-perm s (sort_by_id ss))

insert_by_id-Misses :
    (n : ℕ) (s : LoadState) (ss : List LoadState)
    → n ≢ s.load_id
    → Misses n ss
    → Misses n (insert_by_id s ss)
unfolding insert_by_id
insert_by_id-Misses n s [] h m = (h, tt)
insert_by_id-Misses n s (t ∷ ts) h m = ground (arith, insert_by_id-Misses n s ts h m.1)

sort_by_id-Misses : (n : ℕ) (ss : List LoadState) → Misses n ss → Misses n (sort_by_id ss)
unfolding sort_by_id
sort_by_id-Misses n [] m = tt
sort_by_id-Misses n (s ∷ ss) m =
    insert_by_id-Misses n s (sort_by_id ss) m.0 (sort_by_id-Misses n ss m.1)

sort_by_id-Ascending : (ss : List LoadState) → Distinct ss → Ascending (sort_by_id ss)
unfolding sort_by_id
sort_by_id-Ascending [] d = tt
sort_by_id-Ascending (s ∷ ss) d =
    insert_by_id-Ascending s (sort_by_id ss) (sort_by_id-Misses s.load_id ss d.0)
      (sort_by_id-Ascending ss d.1)

insert_by_id_comm :
    (s t : LoadState) (ss : List LoadState)
    → s.load_id ≢ t.load_id
    → insert_by_id s (insert_by_id t ss) ≡ insert_by_id t (insert_by_id s ss)
unfolding insert_by_id
insert_by_id_comm s t [] h = ground arith
insert_by_id_comm s t (u ∷ us) h = ground (arith, insert_by_id_comm s t us h)

Misses-perm : {ss ts : List LoadState} (n : ℕ) → Permᴰ ss ts → Misses n ss → Misses n ts
Misses-perm n Permᴰ.nil m = m
Misses-perm n (Permᴰ.cons e p) m = (subst (λ s. n ≢ s.load_id) e m.0, Misses-perm n p m.1)
Misses-perm n (Permᴰ.swap e f) m =
    (subst (λ s. n ≢ s.load_id) f m.1.0, (subst (λ s. n ≢ s.load_id) e m.0, m.1.1))
Misses-perm n (Permᴰ.trans p q) m = Misses-perm n q (Misses-perm n p m)

Distinct-perm : {ss ts : List LoadState} → Permᴰ ss ts → Distinct ss → Distinct ts
Distinct-perm Permᴰ.nil d = d
Distinct-perm (Permᴰ.cons {a = a} {l₂ = l} e p) d =
    (subst (λ s. Misses s.load_id l) e (Misses-perm a.load_id p d.0), Distinct-perm p d.1)
Distinct-perm (Permᴰ.swap {a' = x} {b' = y} {l = l} e f) d = (
  (
    λ q.
        d.0.0
          (ap (λ (s : LoadState). s.load_id) e ∙ sym q ∙ sym (ap (λ (s : LoadState). s.load_id) f)),
    subst (λ s. Misses s.load_id l) f d.1.0,
  ),
  (subst (λ s. Misses s.load_id l) e d.0.1, d.1.1),
)
Distinct-perm (Permᴰ.trans p q) d = Distinct-perm q (Distinct-perm p d)

sort_by_id-canonical :
    {ss ts : List LoadState} → Permᴰ ss ts → Distinct ss → sort_by_id ss ≡ sort_by_id ts
unfolding sort_by_id
sort_by_id-canonical Permᴰ.nil d = refl
sort_by_id-canonical (Permᴰ.cons e p) d = cc (sort_by_id-canonical p d.1)
sort_by_id-canonical (Permᴰ.swap {a = a} {b = b} {l = l} e f) d =
    insert_by_id_comm a b (sort_by_id l) d.0.0 ∙ (cc)
sort_by_id-canonical (Permᴰ.trans p q) d =
    sort_by_id-canonical p d ∙ sort_by_id-canonical q (Distinct-perm p d)

-- The ids of a valid map of entries are those of its keys.
abbrev Filed : Dict LoadState → Type 0
Filed [] = Unit {0}
Filed ((k, s) ∷ m) = (s.load_id ≡ k) × Filed m

Filed-of_lookup :
    (m : Dict LoadState)
    → IsMap m
    → ((id : ℕ) (s : LoadState) → Dict.lookup id m ≡ some s → s.load_id ≡ id)
    → Filed m
Filed-of_lookup [] i h = tt
Filed-of_lookup ((k, s) ∷ m) i h = (
  h k s (unfold Dict.lookup in ground arith),
  Filed-of_lookup m i.1 λ id t e. h id t (unfold Dict.lookup in ground arith),
)

values-Misses : (k : ℕ) (m : Dict LoadState) → Filed m → Lacks k m → Misses k (Dict.values m)
unfolding Dict.lookup
values-Misses k [] f l = tt
values-Misses k ((j, s) ∷ m) f l = ground (arith, values-Misses k m f.1)

values-Distinct : (m : Dict LoadState) → IsMap m → Filed m → Distinct (Dict.values m)
values-Distinct [] i f = tt
values-Distinct ((k, s) ∷ m) i f = (rw f.0 (values-Misses k m f.1 i.0), values-Distinct m i.1 f.1)

IsValid-Distinct : (r : Registry) → IsValid r → Distinct (Dict.values r.loads)
IsValid-Distinct r v = values-Distinct r.loads v.is_map (Filed-of_lookup r.loads v.is_map v.filed)

-- The snapshot of a well-formed registry rises strictly by load id, and holds exactly the entries
-- of the map.
pub snapshot-Ascending :
    (r : Registry) → IsValid r → Ascending (snapshot r) × Perm (Dict.values r.loads) (snapshot r)
unfolding snapshot
snapshot-Ascending r v = (
  sort_by_id-Ascending (Dict.values r.loads) (IsValid-Distinct r v),
  sort_by_id-perm (Dict.values r.loads),
)

LoadStates-set : IsSet (List LoadState)
LoadStates-set = hlevel IsScalar-prop

-- Go walks a map in any order: two registries with the same entries in different orders, one of
-- them well formed, have the same snapshot.
pub snapshot-canonical :
    (r q : Registry)
    → IsValid r
    → Perm (Dict.values r.loads) (Dict.values q.loads)
    → snapshot r ≡ snapshot q
unfolding snapshot
snapshot-canonical r q v p =
    ∥∥₁_elim p (LoadStates-set _ _) λ d. sort_by_id-canonical d (IsValid-Distinct r v)
